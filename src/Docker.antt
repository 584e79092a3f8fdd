-- ===== src/Docker.antt =====
-- The container runner of the node agent: agent/openllmops_agent/docker_runner.py.
-- `Labels` and `Info` read a container, `Engine` is what is called of the Docker engine, `Allocate`
-- finds out which cards are in use, `Operate` starts, stops and removes containers.
pub mod Labels
pub mod Info
pub mod Engine
pub mod Allocate
pub mod Operate
pub mod Moves
pub mod Quiet
pub mod Returns
pub mod Described
pub mod Grants
pub mod Checks
pub mod Readable
pub mod Creating
pub mod Starting
pub mod Exclusion
pub mod Removal
pub mod Halting
pub mod Quiesced
pub mod Preparing
pub mod Missing
pub mod Serve
pub mod Absent
pub mod Sample
pub mod SampleLaws
mod Tests
