-- ===== src/Commands.antt =====
-- The small commands of the repository: cmd/retry-until-fail, cmd/test-http-transcoding and
-- cmd/transflect.
pub mod RetryUntilFail
pub mod Polling
pub mod Export
