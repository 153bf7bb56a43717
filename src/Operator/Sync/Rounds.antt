-- ===== src/Operator/Sync/Rounds.antt =====
-- How many rounds the loop of `syncActive` makes, and what it stores.
use transflect.Base.{ℕ, zero, suc, ◌+◌, ◌≤◌, ◌<◌, ◌≡◌, Option, none, some, List, arith, string_eq}
use transflect.Backoff.{Backoff, IsBackoff}
use transflect.Outcome.{Outcome, ok, err, message}
use transflect.Cluster.{Cluster, done, failed}
use transflect.Operator.{State}
use transflect.Operator.Sync.{options, sync_loop, sync_active, list_page, store_page, set_gauge}
use transflect.Kube.Objects.{EnvoyFilter}

module _ (c : Cluster) where
  open c use {World}

  -- The filters of the first of n `List` calls that succeeds.
  pub first_page : ℕ → World → Option (List EnvoyFilter) × World
  first_page zero w = (none, w)
  first_page (suc n) w =
      let (page, w') = c.list_filters "app=transflect" 42 "" w in
      let rest = first_page n w' in
      elim page [ done (filters, token) ↦ (some filters, w') | failed e ↦ rest ]

  -- What the start of a leader is to leave: the entries of those filters and their count, or an error.
  pub synced :
      ℕ → State World → Option (List EnvoyFilter) × World → Outcome (Unit {0}) × State World
  synced n st (none, w) = (
    err (message "cannot list existing EnvoyFilters to sync active state, ran out of attempts"),
    record st { session = record st.session { world = w } },
  )
  synced n st (some filters, w) =
      let (st', n') =
        store_page filters (record st { session = record st.session { world = w } }, n) in
      (ok tt, set_gauge n' st')

module _ (c : Cluster) (b : Backoff) (law : IsBackoff b) where
  open c use {World}

  sync_loop-eq-synced :
      (fuel rounds : ℕ) (t : b.Timer) (n : ℕ) (st : State World)
      → b.attempt t + rounds ≡ 12
      → 0 < rounds
      → rounds ≤ fuel
      → sync_loop c b fuel options t n st
        ≡ some (synced c n st (first_page c rounds st.session.world))
  unfolding sync_loop first_page synced
  sync_loop-eq-synced zero rounds t n st h p q = absurd (omega arith)
  sync_loop-eq-synced (suc fuel) zero t n st h p q = absurd (omega arith)
  sync_loop-eq-synced (suc fuel) (suc zero) t n st h p q = ground arith
  sync_loop-eq-synced (suc fuel) (suc (suc rounds)) t n st h p q = ground (
    arith,
    law.attempt-advance t,
    sync_loop-eq-synced fuel (suc rounds) (b.advance t) n (list_page c b options st).1,
  )

  -- Given the documented counting of the timer, the start of a leader lists EnvoyFilters until a
  -- call succeeds, twelve times at most, and always ends: with the entries of the one page that the
  -- first success returns and the gauge set to their number, or with the error if all twelve fail.
  -- The continue token of the answer is never used: no second page is asked for.
  pub sync_active-eq-synced :
      (st : State World)
      → sync_active c b st ≡ some (synced c 0 st (first_page c 12 st.session.world))
  unfolding sync_active
  sync_active-eq-synced st =
      sync_loop-eq-synced 12 12 b.fresh 0 st (omega (arith, law.attempt-fresh)) (omega arith)
        (omega arith)
