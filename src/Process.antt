-- ===== src/Process.antt =====
-- The process of cmd/transflect-operator: `main`, `run` and `handleSignals` of main.go, and `start` and
-- `stopOnCancel` of auxservers.go. The group is that of golang.org/x/sync/errgroup: its context is
-- cancelled at the first task that returns an error, and `Wait` returns when all tasks have.
pub mod Waiting
pub mod Servers
use transflect.Base.{ℕ, String, ◌<>◌, ◌≡◌, Bool, true, false, Option, none, some, if◌then◌else◌}
use transflect.Outcome.{Outcome, ok, err, panic, Error, message, wrap, exit_code}

-- What `handleSignals` wakes up for.
pub data Wake : Type 0 where
  cancelled signalled : Wake

abbrev pub err_signal : Error
err_signal = message "received shutdown signal"

unfoldable pub handle_signals : Wake → Outcome (Unit {0})
handle_signals cancelled = ok tt
handle_signals signalled = err err_signal

-- `start` of a server of that name, by what `ListenAndServe` returned: `errors.Wrapf` of no error is
-- no error.
unfoldable pub server_start : (Error → Bool) → String → Outcome (Unit {0}) → Outcome (Unit {0})
server_start is_server_closed name (ok x) = ok x
server_start is_server_closed name (panic p) = panic p
server_start is_server_closed name (err e) =
    if is_server_closed e then ok tt else err (wrap ("cannot start " <> (name <> " server")) e)

-- A task of the group.
pub data Task : Type 0 where
  running : Task
  returned : Outcome (Unit {0}) → Task

pub record Group : Type 0 where
  pub probes : Task
  pub metrics : Task
  pub operator : Task
  pub signals : Task
  -- the first error, with which the context was cancelled
  pub first : Option Error

-- What the first error becomes when a task returns.
abbrev pub noted : Outcome (Unit {0}) → Option Error → Option Error
noted (err e) none = some e
noted r first = first

module _ (is_server_closed : Error → Bool) where
  -- A server ends by itself with an error of `ListenAndServe` other than that of a `Shutdown`, and
  -- with that one behind the cancellation. The operator ends with an error of its start, or without
  -- one when it has lost its lease or behind the cancellation.
  pub data Step (g : Group) : Group → Type 0 where
    probes_fail :
        (e : Error) (r : Outcome (Unit {0}))
        → g.probes ≡ running
        → is_server_closed e ≡ false
        → server_start is_server_closed "probes" (err e) ≡ r
        → Step g (record g { probes = returned r; first = noted r g.first })
    metrics_fail :
        (e : Error) (r : Outcome (Unit {0}))
        → g.metrics ≡ running
        → is_server_closed e ≡ false
        → server_start is_server_closed "metrics" (err e) ≡ r
        → Step g (record g { metrics = returned r; first = noted r g.first })
    probes_stop :
        (e : Error)
        → g.probes ≡ running
        → g.first ≡ some e
        → Step g (record g { probes = returned (ok tt) })
    metrics_stop :
        (e : Error)
        → g.metrics ≡ running
        → g.first ≡ some e
        → Step g (record g { metrics = returned (ok tt) })
    operator_fails :
        (e : Error)
        → g.operator ≡ running
        → Step g (record g { operator = returned (err e); first = noted (err e) g.first })
    operator_ends : g.operator ≡ running → Step g (record g { operator = returned (ok tt) })
    signal :
        (r : Outcome (Unit {0}))
        → g.signals ≡ running
        → handle_signals signalled ≡ r
        → Step g (record g { signals = returned r; first = noted r g.first })
    signals_stop :
        (e : Error)
        → g.signals ≡ running
        → g.first ≡ some e
        → Step g (record g { signals = returned (handle_signals cancelled) })

  pub data Reach (g : Group) : Group → Type 0 where
    here : Reach g g
    later : {h k : Group} → Reach g h → Step h k → Reach g k

-- `run` behind the creation of the operator.
abbrev pub start : Group
start = record {
  probes = running;
  metrics = running;
  operator = running;
  signals = running;
  first = none;
}

-- What `run` returns: the error of `newOperator`, or none, whatever `Wait` returned.
unfoldable pub run {ℓ} : {A : Type ℓ} → Outcome A → Option Error → Outcome (Unit {0})
run (err e) waited = err e
run (panic p) waited = panic p
run (ok operator) waited = ok tt

-- The exit code of `main` behind the parsing of the flags.
unfoldable pub main {ℓ} : {A : Type ℓ} → Outcome A → Option Error → ℕ
main created waited = exit_code (run created waited)
