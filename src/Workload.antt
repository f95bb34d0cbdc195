-- ===== src/Workload.antt =====
-- backend/app/core/workload_governor.py: the bounded queue of background work and the governor that
-- sheds optional tiers under pressure.
pub mod Queue
pub mod Governor
