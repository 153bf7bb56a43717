-- ===== src/Tests/Reflection.antt =====
-- A reflection server with two files, of which one imports the other, asked by the client.
use transflect.Base.{
  Bool-cases, inl, inr, false, ℕ, zero, suc, ◌≡◌, refl, String, none, some, List, [], ◌∷◌, arith,
  ◌==◌, string_eq, if◌then◌else◌,
}
use transflect.Base.Dict
use transflect.Backoff.{counter, counter-IsBackoff}
use transflect.Outcome.{Outcome, ok, err, message}
use transflect.Descriptor.{File, annotate_http_rule}
use transflect.Reflection.{
  Request, file_by_filename, file_containing_symbol, list_services, Response, file_descriptors,
  service_names, Client, do_refl, decode_response, file_descriptor_by_filename, gather,
  file_descriptor_set, get_services, collect, file_descriptor_by_symbol, complete, add_files,
  add_dependencies, fetch_all, dependencies, store_files,
}
use transflect.Reflection.Closure.{Returns}
use transflect.Reflection.Streams.{EndsStreams, IsServer}
use transflect.Reflection.Gathered.{IsClosed, gather-closes}
use transflect.Reflection.Retries.{with_retry, tries, with_retry-eq-tries, retry_loop, final_error}
use transflect.Toposort.{topo_sort}
use transflect.Toposort.Order.{InOrder}
use transflect.Reflection.Described.{Table, IsDescriptorSet, IsDescribed}
use transflect.Reflection.Whole.{IsSound}
use transflect.Reflection.Down.{ticks, failure, given_up, server_down}
use transflect.Reflection.Dialled.{get_file_descriptor_set, get_file_descriptor_set-InOrder}
use transflect.Tests.Files.{base_file, cart_file}

abbrev pub one_file : File
one_file = record cart_file { dependency = "base.proto" ∷ [] }

-- The answer to the request that was sent last.
abbrev pub answer : Request → Outcome Response
answer (file_by_filename name) =
    if name == "base.proto"
    then ok (file_descriptors ("base.proto" ∷ []))
    else err (message "not found")
answer (file_containing_symbol symbol) = ok (file_descriptors ("cart.proto" ∷ []))
answer list_services = ok (service_names ("shop.Cart" ∷ []))

-- The stream is closed, and nothing is answered any more.
abbrev pub closed : Request
closed = file_by_filename ""

abbrev client : Client
client = record {
  World = Request;
  connect = λ w. (ok tt, w);
  send = λ r w. (ok tt, r);
  recv = λ w. (answer w, w);
  close_send = λ w. closed;
  unmarshal = λ b. if b == "base.proto" then ok base_file else ok one_file;
  own_status = λ e. none;
  patience = 2;
}

abbrev pub universe : List String
universe = "base.proto" ∷ "cart.proto" ∷ []

client-streams : EndsStreams client
unfolding string_eq
client-streams w = tt

client-IsServer : IsServer client universe
unfolding file_descriptor_by_filename do_refl decode_response string_eq
client-IsServer = record { answers = λ d w. ground arith; streams = client-streams }

gather-closes_example :
    Returns (IsClosed client) (gather client 3 "/api" ("shop.Cart" ∷ []) list_services)
gather-closes_example =
    gather-closes client universe client-IsServer 3 "/api" ("shop.Cart" ∷ []) list_services
      (omega arith)

-- A call that fails until its state is 0.
abbrev flaky : ℕ → Outcome String × ℕ
flaky zero = (ok "done", zero)
flaky (suc n) = (err (message "unavailable"), n)

with_retry-eq-tries_example :
    with_retry counter (λ e. none) (λ n. some (flaky n)) 3
    ≡ tries (λ e. none) (λ n. some (flaky n)) 16 3
with_retry-eq-tries_example =
    with_retry-eq-tries counter counter-IsBackoff (λ e. none) (λ n. some (flaky n)) 3

-- The same server asked for everything: the file that is imported comes first.
set_computed :
    file_descriptor_set client 3 "/api" list_services
    ≡ some (ok (base_file ∷ annotate_http_rule "/api" one_file ∷ [], "shop.Cart" ∷ []), closed)
unfolding file_descriptor_set get_services do_refl gather collect file_descriptor_by_symbol
    decode_response string_eq complete add_files Dict.lookup add_dependencies fetch_all dependencies
    Dict.insert annotate_http_rule file_descriptor_by_filename store_files Dict.erase topo_sort
set_computed = refl

retries_computed : with_retry counter (λ e. none) (λ n. some (flaky n)) 3 ≡ some (ok "done", 0)
unfolding with_retry retry_loop final_error
retries_computed = refl

abbrev pub rank : String → ℕ
rank n = if n == "cart.proto" then 1 else 0

pub cart_name-ne-base : ("base.proto" == one_file.name) ≡ false
unfolding string_eq
cart_name-ne-base = refl

client-IsSound : IsSound client universe rank 2
unfolding file_descriptor_by_filename file_descriptor_by_symbol do_refl decode_response
client-IsSound = record {
  server = client-IsServer;
  by_filename = λ d w. ground (arith, cart_name-ne-base);
  by_symbol = λ s w. ground (arith, cart_name-ne-base);
}

abbrev pub table : Table
table = record {
  listed = "shop.Cart" ∷ [];
  file_of = λ n. if n == "cart.proto" then one_file else record base_file { name = n };
  symbol_files = λ s. "cart.proto" ∷ [];
}

pub table-keyed : (n : String) → (table.file_of n).name ≡ n
table-keyed n = elim (Bool-cases (n == "cart.proto")) [
  | inl e ↦ ground arith
  | inr e ↦ ground arith
]

client-IsDescribed : IsDescribed client table
unfolding get_services file_descriptor_by_filename file_descriptor_by_symbol do_refl decode_response
    string_eq
client-IsDescribed = record {
  keyed = table-keyed;
  services = λ w. refl;
  by_symbol = λ s w. refl;
  by_name = λ d w. ground arith;
}

get_file_descriptor_set-InOrder_example :
    Returns
      (λ (r : List File × List String).
        InOrder (λ d. false) r.0 × IsDescriptorSet table "/api" r.0 r.1)
      (get_file_descriptor_set client counter (λ w. (ok tt, w)) (λ w. w) 3 "/api" list_services)
get_file_descriptor_set-InOrder_example =
    get_file_descriptor_set-InOrder client counter counter-IsBackoff (λ w. (ok tt, w)) (λ w. w)
      universe rank 2 client-IsSound table client-IsDescribed 3 "/api" list_services (omega arith)
      (omega arith)

-- A server that turns every stream down; 16 is `codes.Unauthenticated`. The world counts.
abbrev refusing : Client
refusing = record {
  World = ℕ;
  connect = λ w. (err (message "no token"), suc w);
  send = λ r w. (ok tt, w);
  recv = λ w. (err (message "no stream"), w);
  close_send = λ w. w;
  unmarshal = λ b. ok base_file;
  own_status = λ e. some 16;
  patience = 1;
}

server_down_example :
    let (error, attempts) =
      given_up refusing "no token" suc
        (λ w. refl)
        (final_error (some 16) (failure refusing "no token" suc (λ w. refl))) in
    get_file_descriptor_set refusing counter (λ w. (ok tt, w)) (λ w. w) 3 "/api" 0
    ≡ some (err error, ticks refusing "no token" suc (λ w. refl) attempts 0)
server_down_example =
    server_down refusing "no token" suc (λ w. refl) counter counter-IsBackoff (λ w. (ok tt, w))
      (λ w. w) 3 "/api" 0 0 refl
