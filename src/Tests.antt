-- ===== src/Tests.antt =====
-- The operations on concrete inputs. `Samples` has the data: a cluster that keeps EnvoyFilters in a
-- list, an operator and ReplicaSets.
pub mod Samples
pub mod Control
pub mod Workers
pub mod Restarts
pub mod Locks
pub mod Lifecycle
pub mod Commands
pub mod Export
pub mod Handlers
pub mod Joined
pub mod Process
pub mod Newest
pub mod Election
pub mod Files
pub mod Reflection
