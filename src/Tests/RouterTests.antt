-- ===== src/Tests/RouterTests.antt =====
-- A router of an old committee 0..3 and a new committee 4..7, with an inbox for node 1.
use arladkr_practicaladkr.Prelude.{
  ◌≤◌, ◌≡◌, ◌↔◌, refl, true, ◌||◌, none, some, List, [], ◌∷◌, length, some-inj,
}
use arladkr_practicaladkr.Prelude.Int.{ℤ, pos}
use arladkr_practicaladkr.Prelude.Bytes.{Bytes, IsBytes, beq}
use arladkr_practicaladkr.Prelude.Text.{codes}
use arladkr_practicaladkr.Prelude.Members.{member}
use arladkr_practicaladkr.Wire.{put_be, be_value}
use arladkr_practicaladkr.Router.Envelope.{encode_envelope, decode_envelope}
use arladkr_practicaladkr.Router.Envelope.RoundTrip.{decode_envelope_iff}
use arladkr_practicaladkr.Router.Tags
use arladkr_practicaladkr.Router.Routing.{
  Message, Router, node_ids, local_ids, new_router, roles_allowed, open_body, route, read_one,
}
use arladkr_practicaladkr.Router.Routing.Accepts.{
  delivered, Carries, route_iff, route-between_members,
}
use arladkr_practicaladkr.Router.Routing.Reading.{
  Event, came, taken, run, routed_all, seen, idle, Delivered, step, reads_in_order,
}
use arladkr_practicaladkr.Tests.{get}
use arladkr_practicaladkr.Tests.ApdbTests.{are_bytes→IsBytes}

abbrev old_committee : List ℤ
old_committee = pos 0 ∷ pos 1 ∷ pos 2 ∷ pos 3 ∷ []

abbrev new_committee : List ℤ
new_committee = pos 4 ∷ pos 5 ∷ pos 6 ∷ pos 7 ∷ []

abbrev router : Router
router = record {
  sid = codes "s1";
  epoch = pos 3;
  old_nodes = pos 3 ∷ pos 2 ∷ pos 1 ∷ pos 0 ∷ [];
  new_nodes = pos 7 ∷ pos 6 ∷ pos 5 ∷ pos 4 ∷ [];
  auth = none;
  local_nodes = pos 1 ∷ [];
  queue_capacity = 1;
}

router_made :
    new_router (λ node. true) (codes "s1") (pos 3) old_committee new_committee (pos 1 ∷ []) 1 none
    ≡ some router
unfolding new_router node_ids local_ids member
router_made = refl

abbrev wire : Bytes
wire = get (encode_envelope (codes "s1") (pos 3) (9 ∷ 8 ∷ []))

wire-IsBytes : IsBytes wire
unfolding encode_envelope put_be
wire-IsBytes = are_bytes→IsBytes wire refl

decode_envelope_iff_example :
    (decode_envelope wire (codes "s1") (pos 3) ≡ some (9 ∷ 8 ∷ []))
    ↔ (encode_envelope (codes "s1") (pos 3) (9 ∷ 8 ∷ []) ≡ some wire)
decode_envelope_iff_example =
    decode_envelope_iff wire (codes "s1") (pos 3) (9 ∷ 8 ∷ []) wire-IsBytes

abbrev offer : Message
offer = record {
  from = pos 2;
  to = pos 1;
  tag = Tags.pool_offer_scalar;
  body = wire;
  wire_bytes = 0;
}

offer_routed : route router (pos 1) offer ≡ some (delivered offer (9 ∷ 8 ∷ []))
unfolding route roles_allowed open_body Tags.allowed_tag Tags.one_of member decode_envelope
    encode_envelope put_be be_value beq
offer_routed = refl

route_iff_example : (route router (pos 1) offer ≡ some (delivered offer (9 ∷ 8 ∷ []))) ↔ (
    (payload : Bytes) × Carries router (pos 1) offer payload
    × (delivered offer (9 ∷ 8 ∷ []) ≡ delivered offer payload))
unfolding open_body
route_iff_example =
    route_iff router (pos 1) offer (delivered offer (9 ∷ 8 ∷ []))
      (λ envelope opens. bytes_of envelope opens)
  where
    bytes_of : (envelope : Bytes) → some wire ≡ some envelope → IsBytes envelope
    bytes_of envelope e = rw (← some-inj wire envelope e) wire-IsBytes

route-between_members_example :
    ((delivered offer (9 ∷ 8 ∷ [])).to ≡ pos 1)
    × ((member (delivered offer (9 ∷ 8 ∷ [])).from old_committee
          || member (delivered offer (9 ∷ 8 ∷ [])).from new_committee)
        ≡ true)
    × ((member (pos 1) old_committee || member (pos 1) new_committee) ≡ true)
unfolding member
route-between_members_example =
    route-between_members (λ node. true) (codes "s1") (pos 3) old_committee new_committee
      (pos 1 ∷ []) 1 none router (pos 1) offer (delivered offer (9 ∷ 8 ∷ [])) router_made refl
      offer_routed

abbrev events : List Event
events = came offer ∷ taken ∷ came offer ∷ came offer ∷ []

overflowed : (run router (pos 1) events idle).delivery.failed ≡ true
unfolding run step read_one route roles_allowed open_body Tags.allowed_tag Tags.one_of member
    decode_envelope encode_envelope put_be be_value beq
overflowed = refl

reads_in_order_example :
    Delivered []
      (seen router (pos 1) (run router (pos 1) events idle))
      (routed_all router (pos 1) events)
      (run router (pos 1) events idle).delivery.failed
    × (length (run router (pos 1) events idle).delivery.queue ≤ router.queue_capacity)
reads_in_order_example = reads_in_order router (pos 1) events
