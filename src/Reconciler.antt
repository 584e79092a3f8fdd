-- ===== src/Reconciler.antt =====
-- Reconciling the tables with what the node agent observes: backend/app/services/reconciler.py.
-- `Database` is its state, `Observe` what one response does to a row, `Claim` the head of the queue,
-- `Reap` the expired leases, `Round` a whole round; the other children prove.
pub mod Database
pub mod Observe
pub mod ObserveJob
pub mod Claim
pub mod Reap
pub mod Round
pub mod Order
pub mod Fifo
pub mod Waiting
pub mod Leaving
pub mod Ends
pub mod Termination
mod Tests
