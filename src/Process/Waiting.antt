-- ===== src/Process/Waiting.antt =====
-- When the process comes to its end.
use transflect.Base.{◌≡◌, refl, Bool, none, arith}
use transflect.Outcome.{Error}
use transflect.Process.{
  Group, running, Step, probes_fail, metrics_fail, probes_stop, metrics_stop, operator_fails,
  operator_ends, signal, signals_stop, Reach, here, later, start, server_start, handle_signals,
}

module _ (is_server_closed : Error → Bool) where
  -- As long as the context is not cancelled, the servers and the signal handler run.
  abbrev Serves : Group → Type 0
  Serves g = g.first ≡ none → (g.probes ≡ running) × (g.metrics ≡ running) × (g.signals ≡ running)

  Step-Serves : {g h : Group} → Step is_server_closed g h → Serves g → Serves h
  unfolding server_start handle_signals
  Step-Serves (probes_fail e r at n same) s q = ground (arith, s, same, n)
  Step-Serves (metrics_fail e r at n same) s q = ground (arith, s, same, n)
  Step-Serves (probes_stop e at c) s q = cc
  Step-Serves (metrics_stop e at c) s q = cc
  Step-Serves (operator_fails e at) s q = ground (arith, s)
  Step-Serves (operator_ends at) s q = s q
  Step-Serves (signal r at same) s q = ground (arith, s, same)
  Step-Serves (signals_stop e at c) s q = cc

  Reach-Serves : {g : Group} → Reach is_server_closed start g → Serves g
  Reach-Serves here q = (refl, refl, refl)
  Reach-Serves (later r st) q = Step-Serves st (Reach-Serves r) q

  -- As long as no task has returned an error and no signal has come, both servers and the signal
  -- handler run, so that `Wait` does not return: also where the operator has ended for good, behind
  -- the loss of its lease.
  pub still_serves :
      {g : Group}
      → Reach is_server_closed start g
      → g.first ≡ none
      → (g.probes ≡ running) × (g.metrics ≡ running) × (g.signals ≡ running)
  still_serves r = Reach-Serves r
