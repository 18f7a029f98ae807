-- ===== src/Pool/Slot.antt =====
-- core/cv_sapvss_pool.go: cvPoolSlotStateScalar, what a node has seen and signed for the pool of one
-- proposer. The receiver is never nil; an error is `none` and leaves the state alone.
pub mod Runs
use arladkr_practicaladkr.Prelude.{
  Bool, true, false, not, ◌&&◌, ◌||◌, Option, none, some, [], ◌==◌, if◌then◌else◌, length,
}
use arladkr_practicaladkr.Prelude.Bytes.{Bytes, beq}
use arladkr_practicaladkr.Pool.Offer.{Pool}
use arladkr_practicaladkr.Pool.Certificate.{PoolCertificate}

pub record SlotState : Type 0 where
  pub pool_digest : Bytes
  pub pool_seen : Bool
  pub signed : Bool
  pub cert_seen : Bool

-- The zero value.
abbrev pub new_slot : SlotState
new_slot = record { pool_digest = []; pool_seen = false; signed = false; cert_seen = false }

-- `observePool`
unfoldable pub observe_pool : Option Pool → SlotState → Option SlotState
observe_pool none state = none
observe_pool (some pool) state =
    if not (length pool.digest == 32)
    then none
    else if state.pool_seen && not (beq state.pool_digest pool.digest)
    then none
    else if not state.pool_seen
    then some (record state { pool_seen = true; pool_digest = pool.digest })
    else some state

-- `markSigned`
unfoldable pub mark_signed : Bytes → SlotState → Option SlotState
mark_signed digest state =
    if not state.pool_seen || not (beq state.pool_digest digest) || state.signed
    then none
    else some (record state { signed = true })

-- `observeCertificate`
unfoldable pub observe_certificate : Option PoolCertificate → SlotState → Option SlotState
observe_certificate none state = none
observe_certificate (some c) state =
    if not state.pool_seen || not (beq state.pool_digest c.pool_digest)
    then none
    else some (record state { cert_seen = true })
