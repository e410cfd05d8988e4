-- ===== src/Runtime.antt =====
-- What runs the handlers: core/handler.go and core/runner.go, and the handlers that only join a
-- service to the pipeline.
pub mod Base
pub mod Runner
pub mod Stt
pub mod Transport
pub mod External
pub mod Backups
pub mod Stops
