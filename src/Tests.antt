-- ===== src/Tests.antt =====
-- Concrete runs of the models.
mod Cli
mod Firecracker
mod BackendFactory
mod Core
mod Server
mod Runtime
mod Pool
mod Network
mod LocalBackend
mod Agent
mod Client
mod Sqlite
mod Waiting
