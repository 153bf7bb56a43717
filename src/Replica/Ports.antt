-- ===== src/Replica/Ports.antt =====
-- What the annotation readers accept.
use transflect.Base.{ℕ, ◌≤◌, ◌<◌, String, ◌≡◌, ◌↔◌, some, pos, arith, Option, none, ℤ, negsuc}
use transflect.Text.{atoi}
use transflect.Kube.{ReplicaSet}
use transflect.Replica.{grpc_port_str, port_of, grpc_port}

port_of-pos : (r : Option ℤ) (p : ℕ) → 0 < p → (port_of r ≡ p) ↔ ((r ≡ some (pos p)) × (p ≤ 65535))
unfolding port_of
port_of-pos none p h = ground arith
port_of-pos (some (negsuc n)) p h = ground arith
port_of-pos (some (pos n)) p h = ground arith

-- A text is read as the port p, for any p but 0, exactly when `Atoi` reads it as the number p and p
-- is at most 65535. So no text that is negative, too large or no number is taken for a port.
pub grpc_port_str_exact :
    (s : String) (p : ℕ) → 0 < p → (grpc_port_str s ≡ p) ↔ ((atoi s ≡ some (pos p)) × (p ≤ 65535))
unfolding grpc_port_str
grpc_port_str_exact s p h = port_of-pos (atoi s) p h

pub grpc_port_str-le : (s : String) → grpc_port_str s ≤ 65535
unfolding grpc_port_str
grpc_port_str-le s = ground arith

pub grpc_port-le : (rs : ReplicaSet) → grpc_port rs ≤ 65535
unfolding grpc_port
grpc_port-le rs = grpc_port_str-le _
