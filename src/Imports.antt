-- ===== src/Imports.antt =====
-- Imports of models: backend/app/services/model_import_coordinator.py, with the job table of
-- backend/app/models/entities.py and the creation of a job in backend/app/api/routes/model_imports.py.
-- `Table` is the table of jobs, `Jobs` the transactions on one job, `Recovery` the return of stale
-- jobs, `Publish` the end of an execution, `Coordinator` the coordinator; the other children prove.
pub mod Table
pub mod Jobs
pub mod Recovery
pub mod Publish
pub mod Coordinator
pub mod Sound
pub mod Rows
pub mod Recovering
pub mod Changes
pub mod Endings
pub mod Claiming
pub mod Lifecycle
pub mod Filling
pub mod Requests
mod Tests
