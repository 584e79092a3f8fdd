-- ===== src/Safety.antt =====
-- The control plane's safety, across the reconciler (backend/app/services/reconciler.py), the lease
-- manager (backend/app/services/gpu_scheduler.py) and the routes (backend/app/api/routes).
-- `Backing` says what a database must satisfy; the next children treat the transactions one by one,
-- `Exclusion` all of them.
pub mod Backing
pub mod Effect
pub mod Observation
pub mod Claiming
pub mod Reaping
pub mod Requests
pub mod JobRequests
pub mod Deletion
pub mod Exclusion
pub mod Restart
pub mod Race
mod Tests
