-- ===== src/Lib.antt =====
-- A model of transflect, an operator for Kubernetes that lets Envoy transcode HTTP and JSON to
-- gRPC. For each Deployment whose ReplicaSet has a port annotation the operator asks the gRPC
-- server what it serves, by the reflection API, and writes an EnvoyFilter with the answer. The
-- library models what the operator decides, what it calls, and what it records, and proves what
-- these parts promise.
--
-- The parts, by the files of the repository:
--
--   pkg/transflect/mutexmap.go: `MutexMap` has the map of mutexes: `lock`, `unlock` and `remove`
--     run alone. `MutexMap/Threads` has the same methods as steps of any number of threads.
--     `MutexMap/Sequential`, `Exclusion` and `Orphans` have the proofs.
--   pkg/transflect/transflect.go: `Descriptor` has the file descriptors and `AnnotateHTTPRule`
--     (`annotate_http_rule`); `Toposort` has `topoSort` (`topo_sort`), which gives back the map
--     that it takes files from. `Reflection` has the requests of the reflection API,
--     `addDependencies` and `getFileDescriptorSet` (`file_descriptor_set`); `closeAndDrain`
--     (`drain`) is there too, on as many rounds as the field `patience` says, and
--     `Reflection/Streams` has what it comes to; `Reflection/Retries` has
--     `getFileDescriptorSetWithRetry` (`with_retry`), and `Reflection/Dialled` has
--     `GetFileDescriptorSet` with its connection. `Reflection/Described` says which descriptor set
--     is to come out for a table of services and files (`IsDescriptorSet`).
--   cmd/transflect/main.go: `Commands/Export`, from `main` to the printers and `getPort`, on the
--     model of `GetFileDescriptorSet`; `Base64Proto` of pkg/transflect/transflect.go is there too.
--     The format `none` is the constructor `plain`.
--   cmd/retry-until-fail/main.go: `Commands/RetryUntilFail` has `main`, `parseArgs` and `retry`.
--   cmd/test-http-transcoding/main.go: `Commands/Polling` has `runUntilSuccess` and
--     `runUntilFail`, and `Commands/Polling/Begun` has `main`.
--   cmd/transflect-operator/operator.go: `Kube` and `Replica` have the fields of a ReplicaSet and
--     the functions that read them (`grpcPortStr` is `grpc_port_str`, `getDeploymentKey` is
--     `get_deployment_key`, `newActiveEntry` is `new_active_entry`, and so on). `Operator` has the
--     control loop: `next`, `shouldProcessReplicaset` (`should_process`, on what the map of
--     entries holds), `processReplicaset`, `runWorker` and `cleanupDeployment`. `Operator/Newest`
--     follows a worker over the ReplicaSets of one deployment, and `Operator/Newest/Informed`
--     joins the handlers and the worker. `Operator/Sync` has `syncActive` and `getActiveEntry`.
--     `Operator/Workers` has `next` and `cleanupDeployment` as the steps of any number of workers
--     at once (`Act`), and `Lifecycle` has `startLeading`, `runWorkers` and `stop` as steps over
--     the stopper, its lock, the queue and the wait group. `Election` has `start` with its
--     callbacks, as steps of any number of operators that stand for one lease, each with the life
--     cycle of `Lifecycle`; its flag `graceful` says whether leases are given up only behind a
--     failed start. `Operator/Handlers` has the handlers of the informers' events: `enqueue`,
--     `enqueueWithOld` and `cleanupDeployment` (`cleanup`). `Setup` has `newOperator`,
--     `getClientSets`, `getConfig`, `newLock` and `newElection`.
--   cmd/transflect-operator/envoyfilter.go: `Services` has the choice of services, `Filter` the
--     objects that are written, `Upsert` the operations on the cluster, up to `upsertFilter`.
--   cmd/transflect-operator/main.go and auxservers.go: `Process` has `main`, `run` and its group
--     of tasks, `handleSignals`, and the `start` of a server (`server_start`); `Process/Servers`
--     has the servers with their paths.
--   cmd/transflect-operator/metrics.go: `Metrics` has the metrics as they are declared and
--     `metricsProvider` (`new_metric`); the gauge of filters is a field of `Session` in `Cluster`,
--     the counters are `Counters` in `Operator`.
--
-- How they interact: a worker takes a key from the queue (`next`), reads the ReplicaSet, takes the
-- lock of its deployment in the map of mutexes, decides by the entry of the deployment, and then
-- upserts or deletes the EnvoyFilter through the cluster, with a temporary Service, and an Ingress
-- where asked for, for as long as the server is asked. What was done is recorded in the entry.
--
-- State is passed along: `Exec S A` in `Outcome` is a function from a state to an outcome (a
-- value, an error or a panic) and the state that is left, so that what was written before an error
-- stays written, and `deferring` runs a deferred call behind every ending. `Session` is the world
-- of the API server with the log of the calls made in it, `State` of `Operator` adds what the
-- operator keeps. A worker that waits for a mutex has the ending `none`. `Upsert/Stored/Joined`
-- puts the model of the reflection client in the place of the call that the operator's cluster has
-- for it (`joined`); a call whose fuel runs out would count as a panic there.
--
-- The API server, the reflection client as the operator sees it, the stream of that client, the
-- lister of client-go and the timer of github.com/jpillora/backoff are parameters: the records
-- `Cluster`, `Client`, `Lister` and `Backoff`; so are the files, encoders and templates of the
-- command (`Tools`), the child process (`Shell`) and the HTTP client of the helper commands.
-- `IsStore` states that an API server keeps the EnvoyFilters that it takes in, `IsServer` and
-- `IsSound` that a reflection server answers with the file asked for and ends its streams,
-- `IsDescribed` of `Reflection/Described` that it answers by a `Table` of its services and files
-- where it answers without an error, `IsDisk` that a file holds what was written to it, `IsSplit`
-- that `net.SplitHostPort` splits at the colon, and `IsBackoff` states the documented counting of
-- the timer. `strconv.Atoi`, `strings.Split` and `strings.TrimSpace` are written out in `Text`,
-- for a 64-bit `int`.
--
-- Fuel: `sync_active` runs its loop on twelve rounds and `with_retry` on seventeen, since the
-- loops give up at these attempts. `topo_sort` and `add_dependencies` have fuel for the depth of
-- their recursion: with no circle a rank falls along the imports, and every call of
-- `add_dependencies` is for a name that the map did not have before, of which a server with
-- finitely many files has finitely many. `drain` needs as many rounds as a stream has messages up
-- to its end; `EndsStreams` bounds them by `patience`.
--
-- Integers: a port is a `uint32` behind a test that keeps it below 2^16, a revision is an `int`,
-- both read by `atoi`, which has the range test of `Atoi`. The metrics, which are floating point
-- numbers in the source, are integers and natural numbers.
--
-- In `Operator/Workers` a call of the cluster is a step that ends in a success or in an error;
-- what it writes is the part of `Upsert`. The flag `removal` says whether a Deployment may be
-- deleted and a ReplicaSet without a port may be processed. In `Lifecycle` one shared access is
-- one step. The context of `startLeading` is not part of it: the steps let a start go on in orders
-- in which the program's fails because its context is cancelled.
--
-- Fuel of the loops that poll: `run_until_success` and `run_until_fail` are on fuel for the
-- requests, with a bound on the attempts that says how much is enough; with no bound on the
-- attempts they need not end.
--
-- The election of client-go, `errgroup`, the registry of Prometheus and `http.ServeMux` are taken
-- by their documented behaviour, which the file that models a use of them says.
--
-- Not modelled: the parsing of flags, logging and the informers, which are calls of libraries, and
-- the queue's own order. The queue is the list of items that a worker is given.
pub mod Base
pub mod Text
pub mod Kube
pub mod Replica
pub mod Outcome
pub mod Services
pub mod Filter
pub mod Backoff
pub mod Cluster
pub mod Upsert
pub mod MutexMap
pub mod Operator
pub mod Setup
pub mod Process
pub mod Metrics
pub mod Lifecycle
pub mod Election
pub mod Descriptor
pub mod Toposort
pub mod Reflection
pub mod Commands
pub mod Tests
