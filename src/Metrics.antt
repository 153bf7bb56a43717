-- ===== src/Metrics.antt =====
-- cmd/transflect-operator/metrics.go: the metrics of the operator, as they are declared, and the
-- provider of the metrics of the work queue. Of the library of Prometheus the documented behaviour is
-- modelled: `promauto` registers each metric in the order of the declarations and panics on a name
-- that is taken, and `WithLabelValues` panics unless there is one value for each label.
use transflect.Base.{
  String, List, [], ◌∷◌, length, contains, ◌==◌, nat_eq, string_eq, if◌then◌else◌,
}
use transflect.Outcome.{Outcome, ok, panic}

pub data Sort : Type 0 where
  gauge counter histogram : Sort

-- The options and the labels that a constructor of `promauto` takes, without the help text.
pub record Vector : Type 0 where
  pub sort : Sort
  pub name : String
  pub labels : List String

abbrev pub filters_gauge : Vector
filters_gauge = record { sort = gauge; name = "transflect_envoyfilters"; labels = [] }

abbrev pub leader_gauge : Vector
leader_gauge = record { sort = gauge; name = "transflect_leader"; labels = [] }

abbrev pub processed_counter : Vector
processed_counter = record {
  sort = counter;
  name = "transflect_operations_total";
  labels = "status" ∷ "type" ∷ [];
}

abbrev pub preprocess_err_counter : Vector
preprocess_err_counter = record {
  sort = counter;
  name = "transflect_preprocess_error_total";
  labels = [];
}

abbrev pub ignored_counter : Vector
ignored_counter = record { sort = counter; name = "transflect_ignored_total"; labels = [] }

abbrev pub queue_labels : List String
queue_labels = "queue_name" ∷ []

abbrev pub q_depth_gauge : Vector
q_depth_gauge = record { sort = gauge; name = "workqueue_depth"; labels = queue_labels }

abbrev pub q_adds_counter : Vector
q_adds_counter = record { sort = counter; name = "workqueue_adds_total"; labels = queue_labels }

abbrev pub q_latency_histogram : Vector
q_latency_histogram = record {
  sort = histogram;
  name = "workqueue_latency_seconds";
  labels = queue_labels;
}

abbrev pub q_work_duration_histogram : Vector
q_work_duration_histogram = record {
  sort = histogram;
  name = "workqueue_work_duration_seconds";
  labels = queue_labels;
}

abbrev pub q_unfinished_work_gauge : Vector
q_unfinished_work_gauge = record {
  sort = gauge;
  name = "workqueue_unfinished_work_seconds";
  labels = queue_labels;
}

abbrev pub q_longest_running_processor_gauge : Vector
q_longest_running_processor_gauge = record {
  sort = gauge;
  name = "workqueue_longest_running_processor_seconds";
  labels = queue_labels;
}

abbrev pub q_retries_counter : Vector
q_retries_counter = record {
  sort = counter;
  name = "workqueue_retries_total";
  labels = queue_labels;
}

-- The variables of the file, in their order.
abbrev pub variables : List Vector
variables =
    filters_gauge ∷ leader_gauge ∷ processed_counter ∷ preprocess_err_counter ∷ ignored_counter
    ∷ q_depth_gauge ∷ q_adds_counter ∷ q_latency_histogram ∷ q_work_duration_histogram
    ∷ q_unfinished_work_gauge ∷ q_longest_running_processor_gauge ∷ q_retries_counter ∷ []

-- The names that the registry has, over the declarations.
unfoldable pub register_all : List Vector → List String → Outcome (List String)
register_all [] names = ok names
register_all (v ∷ vs) names =
    let rest = register_all vs (v.name ∷ names) in
    if contains names v.name
    then panic "duplicate metrics collector registration attempted"
    else rest

-- One metric of a vector.
pub record Metric : Type 0 where
  pub vector : Vector
  pub values : List String

unfoldable pub with_label_values : Vector → List String → Outcome Metric
with_label_values v values =
    if length values == length v.labels
    then ok (record { vector = v; values = values })
    else panic "inconsistent label cardinality"

-- The methods of `workqueue.MetricsProvider`.
pub data Measure : Type 0 where
  depth adds latency work_duration unfinished_work_seconds : Measure
  longest_running_processor_seconds retries : Measure

-- The method of `metricsProvider` for a measure, at the name of a queue.
unfoldable pub new_metric : Measure → String → Outcome Metric
new_metric depth name = with_label_values q_depth_gauge (name ∷ [])
new_metric adds name = with_label_values q_adds_counter (name ∷ [])
new_metric latency name = with_label_values q_latency_histogram (name ∷ [])
new_metric work_duration name = with_label_values q_work_duration_histogram (name ∷ [])
new_metric unfinished_work_seconds name = with_label_values q_unfinished_work_gauge (name ∷ [])
new_metric longest_running_processor_seconds name =
    with_label_values q_longest_running_processor_gauge (name ∷ [])
new_metric retries name = with_label_values q_retries_counter (name ∷ [])
