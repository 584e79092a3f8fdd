-- ===== src/Routes.antt =====
-- The requests of the management API that change workloads: backend/app/api/routes.
pub mod Common
pub mod Deployments
pub mod Jobs
