-- ===== src/Router/Tags.antt =====
-- core/cv_sapvss_router.go: the tags of messages, and cvAllowedNetworkTag.
use mathlib.Core.Bool.{Bool, false, ◌||◌}
use mathlib.Core.List.{List, [], ◌∷◌}
use arladkr_practicaladkr.Prelude.Bytes.{Bytes, beq}
use arladkr_practicaladkr.Prelude.Text.{codes}

abbrev pub component_init : Bytes
component_init = codes "CV_COMPONENT_INIT"

abbrev pub component_ack : Bytes
component_ack = codes "CV_COMPONENT_ACK"

abbrev pub component_cert : Bytes
component_cert = codes "CV_COMPONENT_CERT"

abbrev pub component_get : Bytes
component_get = codes "CV_COMPONENT_GET"

abbrev pub component_leaf : Bytes
component_leaf = codes "CV_COMPONENT_LEAF"

abbrev pub component_ready : Bytes
component_ready = codes "CV_COMPONENT_READY"

abbrev pub eligibility_share : Bytes
eligibility_share = codes "CV_ELIGIBILITY_SHARE"

abbrev pub aggregate_manifest : Bytes
aggregate_manifest = codes "CV_AGG_MANIFEST"

abbrev pub arc_share : Bytes
arc_share = codes "CV_ARC_SHARE"

abbrev pub arc_certificate : Bytes
arc_certificate = codes "CV_ARC_CERTIFICATE"

abbrev pub recover_get : Bytes
recover_get = codes "CV_RECOVER_GET"

abbrev pub recover_shard : Bytes
recover_shard = codes "CV_RECOVER_SHARD"

abbrev pub recover_done : Bytes
recover_done = codes "CV_RECOVER_DONE"

abbrev pub receipt : Bytes
receipt = codes "CV_RECEIPT"

abbrev pub receipt_done : Bytes
receipt_done = codes "CV_RECEIPT_DONE"

abbrev pub apvss_lane_offer : Bytes
apvss_lane_offer = codes "APVSS_LANE_OFFER"

abbrev pub apvss_lane_ack : Bytes
apvss_lane_ack = codes "APVSS_LANE_ACK"

abbrev pub handoff_scalar : Bytes
handoff_scalar = codes "CV_V2_HANDOFF"

abbrev pub apdb_store_scalar : Bytes
apdb_store_scalar = codes "CV_V2_APDB_STORE"

abbrev pub apdb_stored_share_scalar : Bytes
apdb_stored_share_scalar = codes "CV_V2_APDB_STORED_SHARE"

abbrev pub aggregate_apdb_store_scalar : Bytes
aggregate_apdb_store_scalar = codes "CV_V2_ARC__STORE"

abbrev pub aggregate_arc_share_scalar : Bytes
aggregate_arc_share_scalar = codes "CV_V2_ARC__STORED_SHARE"

abbrev pub apdb_recover_get_scalar : Bytes
apdb_recover_get_scalar = codes "CV_V2_APDB_RECOVER_GET"

abbrev pub apdb_recover_store_scalar : Bytes
apdb_recover_store_scalar = codes "CV_V2_APDB_RECOVER_STORE"

abbrev pub apdb_recover_payload_scalar : Bytes
apdb_recover_payload_scalar = codes "CV_V2_APDB_RECOVER_PAYLOAD"

abbrev pub aggregate_recover_get_scalar : Bytes
aggregate_recover_get_scalar = codes "CV_V2_AGG_RECOVER_GET"

abbrev pub aggregate_recover_cancel_scalar : Bytes
aggregate_recover_cancel_scalar = codes "CV_V2_AGG_RECOVER_CANCEL"

abbrev pub aggregate_recover_store_scalar : Bytes
aggregate_recover_store_scalar = codes "CV_V2_AGG_RECOVER_STORE"

abbrev pub aggregate_payload_get_scalar : Bytes
aggregate_payload_get_scalar = codes "CV_V2_AGG_PAYLOAD_GET"

abbrev pub aggregate_payload_scalar : Bytes
aggregate_payload_scalar = codes "CV_V2_AGG_PAYLOAD"

abbrev pub coin_share_scalar : Bytes
coin_share_scalar = codes "CV_V2_COIN_SHARE"

abbrev pub pool_offer_scalar : Bytes
pool_offer_scalar = codes "CV_V2_POOL_OFFER"

abbrev pub pool_cert_share_scalar : Bytes
pool_cert_share_scalar = codes "CV_V2_POOL_CERT_SHARE"

abbrev pub pool_cert_scalar : Bytes
pool_cert_scalar = codes "CV_V2_POOL_CERT"

abbrev pub validation_request_scalar : Bytes
validation_request_scalar = codes "CV_V2_VALIDATION_REQUEST"

abbrev pub validation_signature_scalar : Bytes
validation_signature_scalar = codes "CV_V2_VALIDATION_SIGNATURE"

abbrev pub validation_result_scalar : Bytes
validation_result_scalar = codes "CV_V2_VALIDATION_RESULT"

abbrev pub decision_share_scalar : Bytes
decision_share_scalar = codes "CV_V2_DECISION_SHARE"

abbrev pub aggregate_share_scalar : Bytes
aggregate_share_scalar = codes "CV_V2_AGGREGATE_SHARE"

abbrev pub lane_offer_scalar : Bytes
lane_offer_scalar = codes "CV_V2_LANE_OFFER"

abbrev pub lane_ack_scalar : Bytes
lane_ack_scalar = codes "CV_V2_LANE_ACK"

abbrev pub component_ref_scalar : Bytes
component_ref_scalar = codes "CV_V2_COMPONENT_REF"

abbrev pub certified_candidate_scalar : Bytes
certified_candidate_scalar = codes "CV_V2_CERTIFIED_CANDIDATE"

abbrev pub certified_candidate_ack_scalar : Bytes
certified_candidate_ack_scalar = codes "CV_V2_CERTIFIED_CANDIDATE_ACK"

abbrev pub certified_candidate_ack_probe_scalar : Bytes
certified_candidate_ack_probe_scalar = codes "CV_V2_CERTIFIED_CANDIDATE_ACK_PROBE"

abbrev pub certified_candidate_announce_scalar : Bytes
certified_candidate_announce_scalar = codes "CV_V2_CERTIFIED_CANDIDATE_ANNOUNCE"

abbrev pub certified_candidate_fetch_scalar : Bytes
certified_candidate_fetch_scalar = codes "CV_V2_CERTIFIED_CANDIDATE_FETCH"

abbrev pub certified_candidate_response_scalar : Bytes
certified_candidate_response_scalar = codes "CV_V2_CERTIFIED_CANDIDATE_RESPONSE"

-- A case of a `switch` on a tag.
unfoldable pub one_of : Bytes → List Bytes → Bool
one_of tag [] = false
one_of tag (t ∷ ts) = beq tag t || one_of tag ts

-- `cvAllowedNetworkTag`
unfoldable pub allowed_tag : Bytes → Bool
allowed_tag tag = one_of tag (
    component_init ∷ component_ack ∷ component_cert ∷ component_get ∷ component_leaf
    ∷ component_ready ∷ eligibility_share ∷ aggregate_manifest ∷ arc_share ∷ arc_certificate
    ∷ recover_get ∷ recover_shard ∷ recover_done ∷ receipt ∷ receipt_done ∷ apvss_lane_offer
    ∷ apvss_lane_ack ∷ handoff_scalar ∷ apdb_store_scalar ∷ apdb_stored_share_scalar
    ∷ aggregate_apdb_store_scalar ∷ aggregate_arc_share_scalar ∷ apdb_recover_get_scalar
    ∷ apdb_recover_store_scalar ∷ apdb_recover_payload_scalar ∷ aggregate_recover_get_scalar
    ∷ aggregate_recover_cancel_scalar ∷ aggregate_recover_store_scalar
    ∷ aggregate_payload_get_scalar ∷ aggregate_payload_scalar ∷ coin_share_scalar
    ∷ pool_offer_scalar ∷ pool_cert_share_scalar ∷ pool_cert_scalar ∷ validation_request_scalar
    ∷ validation_signature_scalar ∷ validation_result_scalar ∷ decision_share_scalar
    ∷ aggregate_share_scalar ∷ lane_offer_scalar ∷ lane_ack_scalar ∷ component_ref_scalar
    ∷ certified_candidate_scalar ∷ certified_candidate_ack_scalar
    ∷ certified_candidate_ack_probe_scalar ∷ certified_candidate_announce_scalar
    ∷ certified_candidate_fetch_scalar ∷ certified_candidate_response_scalar ∷ [])
