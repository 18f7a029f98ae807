-- ===== src/Pool.antt =====
-- core/cv_sapvss_pool.go: the pool of certified components that a proposer offers.
pub mod Share
pub mod Header
pub mod Ref
pub mod Offer
pub mod Certificate
pub mod Slot
