-- ===== src/Operator/Newest/Rounds.antt =====
-- What one decision about a ReplicaSet of a deployment leaves.
use mathlib.Core.Path.{subst}
use transflect.Base.{
  ◌≤◌, String, ◌≡◌, refl, sym, ap, ◌∙◌, true, false, Option, none, some, List, arith, nat_eq,
  string_eq, Bool-cases, ◌⊎◌, if◌then◌else◌, inl, inr,
}
use transflect.Base.Dict
use transflect.Kube.{ReplicaSet}
use transflect.Replica.{deploy_revision, new_active_entry}
use transflect.Outcome.{ok}
use transflect.Cluster.{Cluster, Session, is_ok}
use transflect.Filter.{envoy_filter_name, new_envoy_filter}
use transflect.Upsert.{Config, create_service, create_ingress, upsert_filter}
use transflect.Upsert.Stored.{
  Content, content, IsStore, wanted, wanted-content, asked, upsert_filter-stores,
}
use transflect.Operator.{State, should_process, should_process_replicaset, decide_and_process}
use transflect.Operator.Decision.{should_process_exact}
use transflect.Operator.Newest.{IsCandidate, turned_down-le, decide-upserts, decide-ignores}

module _ (c : Cluster) (o : Config) (stored : String → String → c.World → Option Content)
    (store : IsStore c stored) (key : String) where
  open c use {World}

  -- The cluster has an EnvoyFilter made for the ReplicaSet.
  abbrev pub Written : ReplicaSet → World → Type 0
  Written rs w =
      (text : String) × (chosen : List String) × (stored rs.namespace (envoy_filter_name rs) w
        ≡ some (content (new_envoy_filter rs text chosen o.version)))

  -- The entry and the cluster have one of some ReplicaSets, and none of them is newer.
  pub record HasNewest (Seen : ReplicaSet → Type 0) (st : State World) : Type 0 where
    pub newest : ReplicaSet
    pub among : Seen newest
    pub recorded : Dict.lookup key st.active_state ≡ some (new_active_entry newest)
    pub written : Written newest st.session.world
    pub bound : (rs : ReplicaSet) → Seen rs → deploy_revision rs ≤ deploy_revision newest

  -- Before anything was seen the deployment has no entry.
  abbrev pub Before : State World → Type 0
  Before st = Dict.lookup key st.active_state ≡ none

  upsert-Written :
      (rs : ReplicaSet) (s : Session World)
      → is_ok (upsert_filter c o rs s).0 ≡ true
      → Written rs (upsert_filter c o rs s).1.world
  upsert-Written rs s fine =
      let s1 = (create_service c rs s).1 in
      let s2 = if o.use_ingress then (create_ingress c rs s1).1 else s1 in
      let (q, found) = upsert_filter-stores c stored store o rs s fine in
      let (text, chosen, e) = wanted-content c o.version rs (asked c o rs s2.world) found in
      (text, chosen, q ∙ e)

  -- With one more.
  abbrev pub Also : ReplicaSet → (ReplicaSet → Type 0) → ReplicaSet → Type 0
  Also rs Seen x = (x ≡ rs) ⊎ Seen x

  module _ (rs : ReplicaSet) (candidate : IsCandidate key rs)
      (fine : (s : Session World) → is_ok (upsert_filter c o rs s).0 ≡ true)
      (Seen : ReplicaSet → Type 0) (st : State World) where
    -- The ReplicaSet is let through, and no newer one was seen.
    chosen-HasNewest :
        should_process_replicaset rs key st ≡ true
        → ((x : ReplicaSet) → Seen x → deploy_revision x ≤ deploy_revision rs)
        → HasNewest (Also rs Seen) (decide_and_process c o rs key st).1
    chosen-HasNewest e older =
        let (_, entry, session) =
          decide-upserts c o rs key st e candidate.has_port (fine st.session) in
        record {
          newest = rs;
          among = inl refl;
          recorded = entry;
          written = rw session (upsert-Written rs st.session (fine st.session));
          bound = newer;
        }
      where
        newer : (x : ReplicaSet) → Also rs Seen x → deploy_revision x ≤ deploy_revision rs
        newer x (inl q) = rw q (omega arith)
        newer x (inr seen) = older x seen

    pub decide-HasNewest :
        HasNewest Seen st → HasNewest (Also rs Seen) (decide_and_process c o rs key st).1
    unfolding should_process_replicaset new_active_entry
    decide-HasNewest h = elim (Bool-cases (should_process_replicaset rs key st)) [
      | inl let_through ↦
          let e : should_process (some (new_active_entry h.newest)) rs ≡ true =
            subst (λ found. should_process found rs ≡ true) h.recorded let_through in
          let (_, wanted) = (should_process_exact (some (new_active_entry h.newest)) rs).0 e in
          chosen-HasNewest let_through (λ x seen. omega (arith, h.bound x seen, wanted.not_older))
      | inr turned_down ↦
          let e : should_process (some (new_active_entry h.newest)) rs ≡ false =
            subst (λ found. should_process found rs ≡ false) h.recorded turned_down in
          let older : deploy_revision rs ≤ deploy_revision h.newest =
            turned_down-le (new_active_entry h.newest) key rs candidate e in
          kept h turned_down older
    ]
      where
        kept :
            (h : HasNewest Seen st)
            → should_process_replicaset rs key st ≡ false
            → deploy_revision rs ≤ deploy_revision h.newest
            → HasNewest (Also rs Seen) (decide_and_process c o rs key st).1
        kept h e older =
            let (_, entries, session) = decide-ignores c o rs key st e in
            record {
              newest = h.newest;
              among = inr h.among;
              recorded = ap (Dict.lookup key) entries ∙ h.recorded;
              written = rw session h.written;
              bound = bounded;
            }
          where
            bounded :
                (x : ReplicaSet) → Also rs Seen x → deploy_revision x ≤ deploy_revision h.newest
            bounded x (inl q) = rw q older
            bounded x (inr seen) = h.bound x seen

    pub decide-first :
        Before st
        → ((x : ReplicaSet) → Seen x → ⊥)
        → HasNewest (Also rs Seen) (decide_and_process c o rs key st).1
    unfolding should_process_replicaset
    decide-first h nothing =
        chosen-HasNewest
          (subst (λ found. should_process found rs ≡ true) (sym h)
            ((should_process_exact none rs).1 (candidate.ready, candidate.has_port)))
          (λ x seen. absurd (nothing x seen))

    pub decide-ok : (decide_and_process c o rs key st).0 ≡ ok tt
    decide-ok = elim (Bool-cases (should_process_replicaset rs key st)) [
      | inl e ↦ (decide-upserts c o rs key st e candidate.has_port (fine st.session)).0
      | inr e ↦ (decide-ignores c o rs key st e).0
    ]
