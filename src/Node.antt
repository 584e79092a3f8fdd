-- ===== src/Node.antt =====
-- The node agent: agent/openllmops_agent/command_service.py.
-- `Commands` is the state that it keeps of commands and how it executes one, `Fencing` and `Replay`
-- prove what that state is for. `Inspect` reads the state of a container, `Report` answers it.
pub mod Commands
pub mod Waterline
pub mod Replay
pub mod Fencing
pub mod Durable
pub mod Inspect
pub mod Bounded
pub mod Report
pub mod Failure
pub mod Absence
pub mod Signing
pub mod Nonces
pub mod Replays
pub mod Once
mod Tests
