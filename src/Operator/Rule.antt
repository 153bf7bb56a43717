-- ===== src/Operator/Rule.antt =====
-- A rule for `next`: what holds before it, does not depend on the counters and on the items finished,
-- and holds behind the processing of any ReplicaSet, holds behind it.
use transflect.Base.{Bool, none, some, true, false, List, [], ◌∷◌}
use transflect.Kube.{ReplicaSet}
use transflect.Outcome.{Outcome, ok, err, panic}
use transflect.Cluster.{Cluster}
use transflect.Upsert.{Config}
use transflect.Operator.{
  State, Counters, Item, shutdown, queued, not_text, Lister, Ending, locked_process, get_replicaset,
  resume, finish, next, proceed, run_worker, count_preprocess_error,
}

module _ (c : Cluster) (o : Config) where
  open c use {World}

  -- `P` holds of the state of an ending, and `Waits` stands for a worker that waits.
  abbrev pub Ends : {A : Type 0} → Type 0 → (State World → Type 0) → Ending c o A → Type 0
  Ends Waits P none = Waits
  Ends Waits P (some (r, st)) = P st

  module _ (l : Lister World) (Waits : Type 0) (P : State World → Type 0) (st : State World)
      (counted : (counters : Counters) → P (record st { counters = counters }))
      (processed : (rs : ReplicaSet) → Ends Waits P (locked_process c o rs st))
      (finished : (s : State World) (items : List Item)
        → P s
        → P (record s { finished = items })) where
    resume_rule : (found : Outcome ReplicaSet) → Ends Waits P (resume c o l found st)
    unfolding resume
    resume_rule (ok rs) = processed rs
    resume_rule (err e) = counted _
    resume_rule (panic p) = counted st.counters

    finish_rule :
        (item : Item) (ending : Ending c o (Unit {0}))
        → Ends Waits P ending
        → Ends Waits P (finish c o l item ending)
    unfolding finish
    finish_rule item none h = h
    finish_rule item (some (ok x, s)) h = finished s _ h
    finish_rule item (some (err e, s)) h = finished s _ h
    finish_rule item (some (panic p, s)) h = finished s _ h

    pub next_rule : (item : Item) → Ends Waits P (next c o l item st)
    unfolding next
    next_rule shutdown = counted st.counters
    next_rule not_text =
        let st' = count_preprocess_error c o st in
        finished st' (not_text ∷ st'.finished) (counted st'.counters)
    next_rule (queued rs_key) =
        finish_rule (queued rs_key) _ (resume_rule (get_replicaset c o l rs_key st.session.world))

  -- What every call of `next` keeps, a worker keeps.
  module _ (l : Lister World) (Waits : Type 0) (P : State World → Type 0)
      (step : (item : Item) (st : State World) → P st → Ends Waits P (next c o l item st)) where
    proceed_rule :
        (rest : State World → Ending c o Bool)
        → ((st : State World) → P st → Ends Waits P (rest st))
        → (e : Ending c o Bool) → Ends Waits P e
        → Ends Waits P (proceed c o l rest e)
    unfolding proceed
    proceed_rule rest keep none h = h
    proceed_rule rest keep (some (ok true, st)) h = keep st h
    proceed_rule rest keep (some (ok false, st)) h = h
    proceed_rule rest keep (some (err e, st)) h = h
    proceed_rule rest keep (some (panic p, st)) h = h

    pub run_worker_rule :
        (items : List Item) (st : State World) → P st → Ends Waits P (run_worker c o l items st)
    unfolding run_worker
    run_worker_rule [] st h = h
    run_worker_rule (item ∷ items) st h =
        proceed_rule (run_worker c o l items) (run_worker_rule items) (next c o l item st)
          (step item st h)
