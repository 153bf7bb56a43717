-- ===== src/Operator/Workers/Alone.antt =====
-- What `next` does between `Lock` and the deferred `Unlock`, as the steps of one worker while the
-- others stay where they are.
use transflect.Base.{
  ℕ, String, ◌≡◌, ◌≢◌, refl, sym, ap, ◌∙◌, true, false, some, arith, ◌==◌, nat_eq, Bool-cases,
  Option-cases, ◌⊎◌, inl, inr,
}
use transflect.Kube.{ReplicaSet}
use transflect.Replica.{grpc_port, deploy_key}
use transflect.Outcome.{Outcome, ok, err, panic}
use transflect.Cluster.{Cluster}
use transflect.Upsert.{Config, upsert_filter}
use transflect.MutexMap
use transflect.MutexMap.{MutexMap, mutex_of, store_new, drop_new, set_locked}
use transflect.Operator.{
  State, should_process_replicaset, process_replicaset, decide_and_process, unlock_after,
  locked_process, delete_replicaset, upsert_replicaset,
}
use transflect.Operator.Workers.{
  Entries, Work, resting, wants, decides, leaves, Act, lock_new, lock_loaded, acquire, ignore,
  choose_upsert, choose_delete, upsert_failed, upserted, store, deleted, forget, remove,
  unlock_absent, unlock_load, release, Shop, step_to, pick, Reach, here, later,
}

-- Steps of one worker with no other in between.
pub data Does (l : MutexMap) (e : Entries) (w : Work) : MutexMap → Entries → Work → Type 0 where
  nothing : Does l e w l e w
  also :
      {l1 l2 : MutexMap} {e1 e2 : Entries} {w1 w2 : Work}
      → Does l e w l1 e1 w1
      → Act true l1 e1 w1 l2 e2 w2
      → Does l e w l2 e2 w2

pub Does-trans :
    {l l1 : MutexMap} {e e1 : Entries} {w w1 : Work} {l2 : MutexMap} {e2 : Entries} {w2 : Work}
    → Does l e w l1 e1 w1
    → Does l1 e1 w1 l2 e2 w2
    → Does l e w l2 e2 w2
Does-trans d nothing = d
Does-trans d (also d' act) = also (Does-trans d d') act

-- The shop behind steps of worker `i`, and of no other.
pub data Own (i : ℕ) (s : Shop) : Shop → Type 0 where
  rests : Own i s s
  acts :
      {t : Shop} {l : MutexMap} {e : Entries} {w : Work}
      → Own i s t
      → Act true t.locks t.entries (t.work i) l e w
      → Own i s (step_to t i l e w)

-- Each of them is a step of the shop.
Own-Reach : {i : ℕ} {s t : Shop} → Own i s t → Reach true s t
Own-Reach rests = here
Own-Reach {i} (acts d act) = later (Own-Reach d) (pick i act)

-- A worker of the shop took the shop by its own steps from its locks and entries to these, and stands
-- at `w`; the others stand where they stood.
abbrev pub Leads : Shop → ℕ → MutexMap → Entries → Work → Type 0
Leads s i l e w =
    (t : Shop) × Own i s t
    × Reach true s t
    × (t.locks ≡ l)
    × (t.entries ≡ e)
    × (t.work i ≡ w)
    × ((j : ℕ) → j ≢ i → t.work j ≡ s.work j)

pub Does-Leads :
    (s : Shop) (i : ℕ) {l : MutexMap} {e : Entries} {w : Work}
    → Does s.locks s.entries (s.work i) l e w
    → Leads s i l e w
Does-Leads s i nothing = (s, rests, here, refl, refl, refl, λ j n. refl)
Does-Leads s i (also {l1} {l2} {e1} {e2} {w1} {w2} d act) =
    let (t, own, r, ql, qe, qw, others) = Does-Leads s i d in
    let act' : Act true t.locks t.entries (t.work i) l2 e2 w2 = rw (ql, qe, qw) act in
    (
      step_to t i l2 e2 w2,
      acts own act',
      Own-Reach (acts own act'),
      refl,
      refl,
      ground arith,
      λ j n. ground (arith, others j n),
    )

Does-lock :
    (rs : ReplicaSet) (l l' : MutexMap) (e : Entries)
    → MutexMap.lock (deploy_key rs) l ≡ some l'
    → Does l e (wants rs) l' e (decides rs)
unfolding MutexMap.lock
Does-lock rs l l' e q = elim (Option-cases (mutex_of (deploy_key rs) l)) [
  | inl h ↦
      let same : store_new (deploy_key rs) l ≡ l' = ground (arith, h, q) in
      rw (← same) (also nothing (lock_new h))
  | inr (m, h) ↦ elim (Bool-cases ((drop_new l).locked m)) [
    | inl taken ↦ ground (arith, h, q, taken)
    | inr free ↦
        let same : set_locked m true (drop_new l) ≡ l' = ground (arith, h, q, free) in
        rw (← same) (also (also nothing (lock_loaded h)) (acquire free))
  ]
]

Does-unlock :
    (rs : ReplicaSet) (l : MutexMap) (e : Entries)
    → ((p : String) → (MutexMap.unlock (deploy_key rs) l).0 ≢ panic p)
    → Does l e (leaves rs) (MutexMap.unlock (deploy_key rs) l).1 e resting
unfolding MutexMap.unlock
Does-unlock rs l e q = elim (Option-cases (mutex_of (deploy_key rs) l)) [
  | inl h ↦ rw (h, MutexMap.unlock) (also nothing (unlock_absent h))
  | inr (m, h) ↦ elim (Bool-cases (l.locked m)) [
    | inl taken ↦
        rw (h, taken, MutexMap.unlock) (also (also nothing (unlock_load h)) (release taken))
    | inr free ↦
        absurd
          (q "fatal error: sync: unlock of unlocked mutex" (rw (h, free, MutexMap.unlock) refl))
  ]
]

module _ (c : Cluster) (o : Config) where
  open c use {World}

  Does-delete :
      (rs : ReplicaSet) (st : State World)
      → should_process_replicaset rs (deploy_key rs) st ≡ true
      → (grpc_port rs == 0) ≡ true
      → (let st' = (delete_replicaset c o rs (deploy_key rs) st).1 in
          Does st.locker st.active_state (decides rs) st'.locker st'.active_state (leaves rs))
  unfolding delete_replicaset should_process_replicaset MutexMap.remove
  Does-delete rs st wanted unset =
      also (also (also (also nothing (choose_delete wanted unset refl)) deleted) (forget refl))
        (remove refl)

  Does-upsert :
      (rs : ReplicaSet) (st : State World)
      → should_process_replicaset rs (deploy_key rs) st ≡ true
      → (grpc_port rs == 0) ≡ false
      → (let st' = (upsert_replicaset c o rs (deploy_key rs) st).1 in
          ((p : String) × ((upsert_replicaset c o rs (deploy_key rs) st).0 ≡ panic p))
          ⊎ Does st.locker st.active_state (decides rs) st'.locker st'.active_state (leaves rs))
  unfolding upsert_replicaset should_process_replicaset
  Does-upsert rs st wanted set = go (upsert_filter c o rs st.session).0 refl
    where
      go :
          (r : Outcome (Unit {0}))
          → (upsert_filter c o rs st.session).0 ≡ r
          → (let st' = (upsert_replicaset c o rs (deploy_key rs) st).1 in
              ((p : String) × ((upsert_replicaset c o rs (deploy_key rs) st).0 ≡ panic p))
              ⊎ Does st.locker st.active_state (decides rs) st'.locker st'.active_state (leaves rs))
      go (ok x) q = inr (
          rw (q, upsert_replicaset)
            (also (also (also nothing (choose_upsert wanted set)) upserted) store))
      go (err x) q =
          inr (
            rw (q, upsert_replicaset)
              (also (also nothing (choose_upsert wanted set)) upsert_failed))
      go (panic x) q = inl (x, rw (q, upsert_replicaset) refl)

  Does-process :
      (rs : ReplicaSet) (st : State World)
      → should_process_replicaset rs (deploy_key rs) st ≡ true
      → (let st' = (process_replicaset c o rs (deploy_key rs) st).1 in
          ((p : String) × ((process_replicaset c o rs (deploy_key rs) st).0 ≡ panic p))
          ⊎ Does st.locker st.active_state (decides rs) st'.locker st'.active_state (leaves rs))
  unfolding process_replicaset
  Does-process rs st wanted = elim (Bool-cases (grpc_port rs == 0)) [
    | inl unset ↦ rw unset (inr (Does-delete rs st wanted unset))
    | inr set ↦ rw set (Does-upsert rs st wanted set)
  ]

  Does-decide :
      (rs : ReplicaSet) (st : State World)
      → ((p : String) → (decide_and_process c o rs (deploy_key rs) st).0 ≢ panic p)
      → (let st' = (decide_and_process c o rs (deploy_key rs) st).1 in
          Does st.locker st.active_state (decides rs) st'.locker st'.active_state (leaves rs))
  unfolding decide_and_process should_process_replicaset
  Does-decide rs st fine = elim (Bool-cases (should_process_replicaset rs (deploy_key rs) st)) [
    | inr not_wanted ↦ rw (not_wanted, decide_and_process) (also nothing (ignore not_wanted))
    | inl wanted ↦
        go wanted (process_replicaset c o rs (deploy_key rs) st).0 refl (Does-process rs st wanted)
  ]
    where
      go :
          should_process_replicaset rs (deploy_key rs) st ≡ true
          → (r : Outcome (Unit {0})) → (process_replicaset c o rs (deploy_key rs) st).0 ≡ r
          → (let st' = (process_replicaset c o rs (deploy_key rs) st).1 in
              ((p : String) × ((process_replicaset c o rs (deploy_key rs) st).0 ≡ panic p))
              ⊎ Does st.locker st.active_state (decides rs) st'.locker st'.active_state (leaves rs))
          → (let st' = (decide_and_process c o rs (deploy_key rs) st).1 in
              Does st.locker st.active_state (decides rs) st'.locker st'.active_state (leaves rs))
      go wanted (panic p) q d = absurd (fine p (rw (wanted, q, decide_and_process) refl))
      go wanted (ok x) q (inl (p, e)) = cc
      go wanted (ok x) q (inr d) = rw (wanted, q, decide_and_process) d
      go wanted (err x) q (inl (p, e)) = cc
      go wanted (err x) q (inr d) = rw (wanted, q, decide_and_process) d

  unlock_after-ok :
      (key : String) (r r' : Outcome (Unit {0})) (st st' : State World)
      → unlock_after c o key (r, st) ≡ (r', st')
      → ((p : String) → r' ≢ panic p)
      → (r ≡ r')
        × ((p : String) → (MutexMap.unlock key st.locker).0 ≢ panic p)
        × (st'.locker ≡ (MutexMap.unlock key st.locker).1)
        × (st'.active_state ≡ st.active_state)
  unfolding unlock_after
  unlock_after-ok key r r' st st' e calm =
      let both = sym (as_run (MutexMap.unlock key st.locker).0 refl) ∙ e in
      (
        ap (λ (x : Outcome (Unit {0}) × State World). x.0) both,
        failing,
        ap (λ (x : Outcome (Unit {0}) × State World). x.1.locker) (sym both),
        ap (λ (x : Outcome (Unit {0}) × State World). x.1.active_state) (sym both),
      )
    where
      after : State World
      after = record st { locker = (MutexMap.unlock key st.locker).1 }

      failing : (x : String) → (MutexMap.unlock key st.locker).0 ≢ panic x
      failing x q =
          let run : unlock_after c o key (r, st) ≡ (panic x, after) = rw (q, unlock_after) refl in
          calm x (ap (λ (x : Outcome (Unit {0}) × State World). x.0) (sym e ∙ run))

      as_run :
          (u : Outcome (Unit {0}))
          → (MutexMap.unlock key st.locker).0 ≡ u
          → unlock_after c o key (r, st) ≡ (r, after)
      as_run (ok x) q = rw (q, unlock_after) refl
      as_run (err x) q = rw (q, unlock_after) refl
      as_run (panic x) q = absurd (failing x q)

  pub Does-locked :
      (rs : ReplicaSet) (r : Outcome (Unit {0})) (st st' : State World)
      → locked_process c o rs st ≡ some (r, st')
      → ((p : String) → r ≢ panic p)
      → Does st.locker st.active_state (wants rs) st'.locker st'.active_state resting
  unfolding locked_process
  Does-locked rs r st st' e calm = elim (Option-cases (MutexMap.lock (deploy_key rs) st.locker)) [
    | inl waiting ↦ ground (arith, waiting, e)
    | inr (locker, got) ↦
        let st1 : State World = record st { locker = locker } in
        let x = decide_and_process c o rs (deploy_key rs) st1 in
        let e' : unlock_after c o (deploy_key rs) x ≡ (r, st') = ground (arith, got, e) in
        let (same, free, ql, qe) = unlock_after-ok (deploy_key rs) x.0 r x.1 st' e' calm in
        rw (ql, qe)
          (Does-trans (Does-lock rs st.locker locker st.active_state got) (
            Does-trans (Does-decide rs st1 (λ p k. calm p (sym same ∙ k)))
              (Does-unlock rs x.1.locker x.1.active_state free)))
  ]
