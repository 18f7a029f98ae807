-- ===== src/Apdb.antt =====
-- core/cv_sapvss_apdb.go and core/cv_sapvss_apdb_recovery.go: asynchronous provable dissemination
-- of one immutable payload among the old committee.
pub mod Lock
pub mod Store
pub mod Code
pub mod Collector
pub mod StoredShare
pub mod Holder
pub mod LockCollector
