-- ===== src/Commands/Export/Address.antt =====
-- `getPort` on the address under which the operator dials a ReplicaSet.
use Prim.Native.Char.{code}
use Prim.Native.String.append
use native.Mathlib.Decide.{ℕ_discrete}
use transflect.Base.{
  ℕ, ◌<◌, ◌^◌, ◌<>◌, String, ◌≡◌, refl, ap, true, false, Bool, not, ◌&&◌, pos, arith, ◌==◌, nat_eq,
}
use transflect.Outcome.{ok}
use transflect.Text.{itoa}
use transflect.Text.RoundTrip.{atoi-itoa, is_numeral, itoa-is_numeral}
use transflect.Kube.{ReplicaSet}
use transflect.Replica.{grpc_port}
use transflect.Replica.Ports.{grpc_port-le}
use transflect.Filter.{get_addr_opts}
use transflect.Commands.Export.{Tools, get_port, port_text, parsed_port}

-- No colon, bracket or percent sign, which `net.SplitHostPort` treats in their own ways.
unfoldable pub is_plain : String → Bool
is_plain String.[] = true
is_plain (String.◌∷◌ c s) =
    not (code c == b':')
    && not (code c == b'[')
    && not (code c == b']')
    && not (code c == b'%')
    && is_plain s

is_plain-append : (s r : String) → is_plain s ≡ true → is_plain r ≡ true → is_plain (s <> r) ≡ true
unfolding is_plain
is_plain-append String.[] r h k = rw (append.nil r) k
is_plain-append (String.◌∷◌ c s) r h k =
    rw (append.cons c s r) (ground (arith, is_plain-append s r))

append_assoc : (s r u : String) → (s <> r) <> u ≡ s <> (r <> u)
append_assoc String.[] r u = rw (append.nil r, append.nil (r <> u)) refl
append_assoc (String.◌∷◌ c s) r u =
    rw (append.cons c s r, append.cons c (s <> r) u, append.cons c s (r <> u))
      (ap (String.◌∷◌ c) (append_assoc s r u))

module _ {World : Type 0} (t : Tools World) where
  -- `net.SplitHostPort` splits "host:port".
  abbrev pub IsSplit : Type 0
  IsSplit =
      (host port : String)
      → is_plain host ≡ true
      → is_plain port ≡ true
      → t.split_host_port (host <> (":" <> port)) ≡ ok (host, port)

numeral-is_plain : (s : String) → is_numeral s ≡ true → is_plain s ≡ true
unfolding is_plain is_numeral
numeral-is_plain String.[] h = refl
numeral-is_plain (String.◌∷◌ c s) h = ground (arith, numeral-is_plain s)

module _ {World : Type 0} (t : Tools World) (split : IsSplit t) where
  get_port-joined :
      (host : String) (n : ℕ)
      → is_plain host ≡ true
      → n < 2 ^ 63
      → get_port t (host <> (":" <> itoa n)) ≡ ok (pos n)
  unfolding get_port port_text parsed_port
  get_port-joined host n h small =
      rw (split host (itoa n) h (numeral-is_plain (itoa n) (itoa-is_numeral n)), atoi-itoa n small)
        refl

  domain_colon : (u : String) → ".svc.cluster.local:" <> u ≡ ".svc.cluster.local" <> (":" <> u)
  domain_colon u = append_assoc ".svc.cluster.local" ":" u

  -- Given that `net.SplitHostPort` splits a plain host and a plain port at the colon: for a ReplicaSet
  -- whose name and namespace are plain, `getPort` on the address that the operator dials without an
  -- ingress is the port of the ReplicaSet's annotation.
  pub get_port-get_addr_opts :
      (plaintext : Bool) (address : String) (rs : ReplicaSet)
      → is_plain rs.name ≡ true
      → is_plain rs.namespace ≡ true
      → get_port t (get_addr_opts false plaintext address rs).0 ≡ ok (pos (grpc_port rs))
  unfolding get_addr_opts is_plain ℕ_discrete
  get_port-get_addr_opts plaintext address rs h k =
      let port = itoa (grpc_port rs) in
      let domain = rs.namespace <> ".svc.cluster.local" in
      let joined : rs.name <> ("." <> (rs.namespace <> (".svc.cluster.local:" <> port)))
          ≡ (rs.name <> ("." <> domain)) <> (":" <> port) =
        rw
          (
            domain_colon port,
            append_assoc rs.name ("." <> domain) (":" <> port),
            append_assoc "." domain (":" <> port),
            append_assoc rs.namespace ".svc.cluster.local" (":" <> port),
          )
          refl in
      let plain_domain : is_plain domain ≡ true =
        is_plain-append rs.namespace ".svc.cluster.local" k refl in
      rw joined (
        get_port-joined (rs.name <> ("." <> domain)) (grpc_port rs)
          (is_plain-append rs.name ("." <> domain) h (is_plain-append "." domain refl plain_domain))
          (omega (arith, grpc_port-le rs)))
