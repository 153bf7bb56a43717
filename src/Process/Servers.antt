-- ===== src/Process/Servers.antt =====
-- The HTTP servers of cmd/transflect-operator/auxservers.go: `newProbesServer` and
-- `newMetricsServer`. Of `http.ServeMux` the documented behaviour is modelled: a pattern that does not
-- end with a slash is that one path, for paths that are clean, since others are redirected, and
-- `HandleFunc` panics on a pattern that is taken; what `promhttp` answers is not modelled.
use transflect.Base.{
  ℕ, String, ◌<>◌, ◌≡◌, refl, Bool, ◌||◌, none, some, [], ◌∷◌, ◌==◌, string_eq, if◌then◌else◌,
  arith,
}
use transflect.Base.Dict
use transflect.Base.Dict.{Dict}
use transflect.Text.{itoa}
use transflect.Outcome.{Outcome, ok, err, panic, Error}
use transflect.Process.{Group, Task, running, returned, Reach, start}
use transflect.Process.Waiting.{still_serves}

-- What is served: a text, or what Prometheus has gathered.
pub data Handler : Type 0 where
  text : String → Handler
  gathered : Handler

abbrev pub Mux : Type 0
Mux = Dict String Handler

-- `HandleFunc` and `Handle`.
unfoldable pub handle : String → Handler → Mux → Outcome Mux
handle pattern h mux = elim (Dict.lookup pattern mux) [
  | some old ↦ panic "http: multiple registrations"
  | none ↦ ok (Dict.insert pattern h mux)
]

pub record HttpServer : Type 0 where
  pub addr : String
  pub handler : Mux
  pub name : String

new_server : ℕ → String → Outcome Mux → Outcome HttpServer
new_server port name (ok mux) = ok (record { addr = ":" <> itoa port; handler = mux; name = name })
new_server port name (err e) = err e
new_server port name (panic p) = panic p

and_handle : String → Handler → Outcome Mux → Outcome Mux
unfolding handle
and_handle pattern h (ok mux) = handle pattern h mux
and_handle pattern h (err e) = err e
and_handle pattern h (panic p) = panic p

unfoldable pub new_probes_server : ℕ → Outcome HttpServer
unfolding new_server and_handle
new_probes_server port =
    new_server port "probes"
      (and_handle "/_readiness" (text "OK") (handle "/_liveness" (text "OK") []))

unfoldable pub new_metrics_server : ℕ → Outcome HttpServer
unfolding new_server
new_metrics_server port = new_server port "metrics" (handle "/metrics" gathered [])

-- What a request for a path gets.
pub data Answer : Type 0 where
  refused not_found : Answer
  found : Handler → Answer

-- From the server of a task: nothing listens behind its return.
unfoldable pub answer : Task → HttpServer → String → Answer
answer (returned r) server path = refused
answer running server path = elim (Dict.lookup path server.handler) [
  | some h ↦ found h
  | none ↦ not_found
]

abbrev probes_mux : Mux
probes_mux = ("/_liveness", text "OK") ∷ ("/_readiness", text "OK") ∷ []

answer-probes :
    (addr name path : String)
    → answer running (record { addr = addr; handler = probes_mux; name = name }) path
      ≡ (if path == "/_liveness" || path == "/_readiness" then found (text "OK") else not_found)
unfolding answer Dict.lookup
answer-probes addr name path = ground arith

-- As long as no task has returned an error and no signal has come, the probes server, which can be
-- made without a panic for every port and has that port in its address, answers OK on its two paths
-- and on no other clean path, whatever has become of the operator, also behind the loss of its lease.
pub probes_pass :
    (is_server_closed : Error → Bool) {g : Group}
    → Reach is_server_closed start g
    → g.first ≡ none
    → (port : ℕ) (path : String)
    → (s : HttpServer) × (new_probes_server port ≡ ok s)
      × (s.addr ≡ ":" <> itoa port)
      × (answer g.probes s path ≡ (
          if path == "/_liveness" || path == "/_readiness" then found (text "OK") else not_found))
unfolding new_probes_server new_server and_handle handle Dict.lookup Dict.insert string_eq
probes_pass is_server_closed r q port path =
    let (runs, _, _) = still_serves is_server_closed r q in
    (_, refl, refl, rw runs (answer-probes (":" <> itoa port) "probes" path))
