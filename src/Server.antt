-- ===== src/Server.antt =====
-- crates/hyperbox-server: the control plane.
pub mod Monad
pub mod Environment
pub mod Shell
pub mod Metrics
pub mod Scripts
pub mod Probe
pub mod Naming
pub mod Store
pub mod Runtime
pub mod Pool
pub mod LocalBackend
pub mod Wire
pub mod Client
pub mod Grpc
pub mod Stored
pub mod Sqlite
pub mod BackendFactory
