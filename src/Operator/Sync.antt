-- ===== src/Operator/Sync.antt =====
-- `syncActive` and `getActiveEntry` of cmd/transflect-operator/operator.go: what a new leader takes
-- over from the EnvoyFilters that exist.
pub mod Restart
pub mod Rounds
use transflect.Base.{
  ℕ, zero, suc, String, Bool, true, false, Option, none, some, List, [], ◌∷◌, ltb, ◌==◌, nat_eq,
  string_eq, if◌then◌else◌, pos,
}
use transflect.Base.Dict
use transflect.Backoff.{Backoff}
use transflect.Kube.{get}
use transflect.Kube.Annotation
use transflect.Kube.Objects.{EnvoyFilter}
use transflect.Replica.{ActiveEntry, grpc_port_str, deploy_revision_str}
use transflect.Outcome.{Outcome, ok, err, panic, message}
use transflect.Cluster.{Cluster, Reply, done, failed}
use transflect.Upsert.{Config}
use transflect.Operator.{State}

unfoldable pub get_active_entry : EnvoyFilter → Outcome (String × ActiveEntry)
get_active_entry filter =
    let key = get filter.annotations Annotation.deployment in
    let port = grpc_port_str (get filter.annotations Annotation.port) in
    let revision = deploy_revision_str (get filter.annotations Annotation.revision) in
    if key == ""
    then err (message "cannot retrieve deployment key from existing EnvoyFilter")
    else if port == 0
    then err (message "cannot retrieve grpc port from existing EnvoyFilter")
    else if revision == 0
    then err (message "cannot retrieve deployment revision from existing EnvoyFilter")
    else ok (
      key,
      record {
        grpc_port = port;
        revision = revision;
        exclude_services = "";
        include_services = "";
        http_path_prefix = "";
      },
    )

pub record ListOptions : Type 0 where
  pub label_selector : String
  pub limit : ℕ
  pub continue_token : String

module _ {World : Type 0} where
  store_entry : Outcome (String × ActiveEntry) → State World × ℕ → State World × ℕ
  store_entry (ok (key, entry)) (st, n) =
      (record st { active_state = Dict.insert key entry st.active_state }, suc n)
  store_entry (err e) acc = acc
  store_entry (panic p) acc = acc

  -- The loop over the filters of a page, with the count of those stored.
  unfoldable pub store_page : List EnvoyFilter → State World × ℕ → State World × ℕ
  unfolding store_entry
  store_page [] acc = acc
  store_page (filter ∷ filters) acc = store_page filters (store_entry (get_active_entry filter) acc)

  unfoldable pub set_gauge : ℕ → State World → State World
  set_gauge n st = record st { session = record st.session { filters_gauge = pos n } }

abbrev pub options : ListOptions
options = record { label_selector = "app=transflect"; limit = 42; continue_token = "" }

module _ (c : Cluster) (b : Backoff) where
  open c use {World}

  list_page : ListOptions → State World → Reply (List EnvoyFilter × String) × State World
  list_page opts st =
      let (page, w) =
        c.list_filters opts.label_selector opts.limit opts.continue_token st.session.world in
      (page, record st { session = record st.session { world = w } })

  -- The `for` loop, on fuel: `none` is a loop that has not ended yet. Its variables are the options,
  -- the timer and the count.
  unfoldable pub sync_loop :
      ℕ → ListOptions → b.Timer → ℕ → State World → Option (Outcome (Unit {0}) × State World)
  unfolding list_page
  sync_loop zero opts t n st = none
  sync_loop (suc fuel) opts t n st =
      let (page, st1) = list_page opts st in
      elim page [
        | failed e ↦
            let again = sync_loop fuel opts (b.advance t) n st1 in
            if ltb 10 (b.attempt t)
            then some (
              err (
                  message
                    "cannot list existing EnvoyFilters to sync active state, ran out of attempts"),
              st1,
            )
            else again
        | done (filters, token) ↦
            let (st2, n2) = store_page filters (st1, n) in
            let again = sync_loop fuel opts (b.reset t) n2 st2 in
            if opts.continue_token == "" then some (ok tt, set_gauge n2 st2) else again
      ]

  -- The loop gives up at the twelfth attempt.
  unfoldable pub sync_active : State World → Option (Outcome (Unit {0}) × State World)
  sync_active st = sync_loop 12 options b.fresh 0 st
