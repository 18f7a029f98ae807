-- ===== src/Router/Routing.antt =====
-- core/cv_sapvss_router.go: newCVSAPVSSRouterWithReceivers, route and readLoop. A tag is its bytes.
-- The transport's inboxes are a test on nodes, and the opener of authenticated bodies is a function,
-- if there is one.
pub mod Roles
pub mod Accepts
pub mod Reading
use arladkr_practicaladkr.Prelude.{
  ℕ, ◌+◌, Bool, true, false, not, ◌&&◌, ◌||◌, Option, none, some, List, [], ◌∷◌, ◌++◌, leb, ltb,
  ◌==◌, if◌then◌else◌, length, ◌>>=◌, ◌>>◌, guard,
}
use arladkr_practicaladkr.Prelude.Int.{ℤ, eqb_ℤ, is_neg}
use arladkr_practicaladkr.Prelude.Bytes.{Bytes}
use arladkr_practicaladkr.Prelude.Members.{member}
use arladkr_practicaladkr.Router.Envelope.{bad_context, decode_envelope}
use arladkr_practicaladkr.Router.Tags

-- `Message`
pub record Message : Type 0 where
  pub from : ℤ
  pub to : ℤ
  pub tag : Bytes
  pub body : Bytes
  pub wire_bytes : ℕ

-- `cvNetworkEnvelopeOpener`: sender, receiver, tag and wire
abbrev pub Opener : Type 0
Opener = ℤ → ℤ → Bytes → Bytes → Option Bytes

-- What routing reads of a `cvSAPVSSRouter`.
pub record Router : Type 0 where
  pub sid : Bytes
  pub epoch : ℤ
  pub old_nodes : List ℤ
  pub new_nodes : List ℤ
  pub auth : Option Opener
  pub local_nodes : List ℤ
  pub queue_capacity : ℕ

-- The loops of the constructor over the rosters: nodes that are not negative, without repetition.
unfoldable pub node_ids : List ℤ → List ℤ → Option (List ℤ)
node_ids seen [] = some seen
node_ids seen (node ∷ nodes) =
    let rest = node_ids (node ∷ seen) nodes in
    if is_neg node || member node seen then none else rest

-- The loop of the constructor over the local nodes.
unfoldable pub local_ids : (ℤ → Bool) → List ℤ → List ℤ → List ℤ → List ℤ → Option (List ℤ)
local_ids has_inbox old_nodes new_nodes seen [] = some seen
local_ids has_inbox old_nodes new_nodes seen (node ∷ nodes) =
    let rest = local_ids has_inbox old_nodes new_nodes (node ∷ seen) nodes in
    if not (member node old_nodes || member node new_nodes)
      || member node seen
      || not (has_inbox node)
    then none
    else rest

-- `newCVSAPVSSRouterWithReceivers`, for a context and a transport that are not nil
unfoldable pub new_router :
    (ℤ → Bool) → Bytes → ℤ → List ℤ → List ℤ → List ℤ → ℕ → Option Opener → Option Router
new_router has_inbox sid epoch old_nodes new_nodes local_nodes queue_capacity auth = do
  guard (
      not (bad_context sid epoch)
      && not (queue_capacity == 0)
      && not (length old_nodes == 0)
      && not (length local_nodes == 0))
  old_set ← node_ids [] old_nodes
  new_set ← node_ids [] new_nodes
  inboxes ← local_ids has_inbox old_set new_set [] local_nodes
  some (record {
    sid = sid;
    epoch = epoch;
    old_nodes = old_set;
    new_nodes = new_set;
    auth = auth;
    local_nodes = inboxes;
    queue_capacity = queue_capacity;
  })

-- The `switch` of route: whether the rosters allow the sender and the receiver for the tag.
unfoldable pub roles_allowed : Router → Bytes → ℤ → ℤ → Bool
roles_allowed r tag from to =
    if Tags.one_of tag (
      Tags.apvss_lane_offer ∷ Tags.lane_offer_scalar ∷ Tags.aggregate_recover_store_scalar
      ∷ Tags.aggregate_payload_scalar ∷ [])
    then member from r.old_nodes && member to r.new_nodes
    else if Tags.one_of tag (Tags.handoff_scalar ∷ [])
    then member from r.old_nodes && (member to r.old_nodes || member to r.new_nodes)
    else if Tags.one_of tag (
        Tags.apvss_lane_ack ∷ Tags.lane_ack_scalar ∷ Tags.aggregate_recover_get_scalar
        ∷ Tags.aggregate_recover_cancel_scalar ∷ Tags.aggregate_payload_get_scalar ∷ [])
    then member from r.new_nodes
    else if Tags.one_of tag (Tags.aggregate_share_scalar ∷ [])
    then member from r.new_nodes && member to r.new_nodes
    else member from r.old_nodes && member to r.old_nodes

-- `r.auth.open`, or the body itself
unfoldable pub open_body : Router → Message → Option Bytes
open_body r msg = elim r.auth [
  | none ↦ some msg.body
  | some open_wire ↦ open_wire msg.from msg.to msg.tag msg.body
]

-- `route`
unfoldable pub route : Router → ℤ → Message → Option Message
route r node msg = do
  guard (Tags.allowed_tag msg.tag && eqb_ℤ msg.to node)
  guard (roles_allowed r msg.tag msg.from msg.to)
  envelope ← open_body r msg
  payload ← decode_envelope envelope r.sid r.epoch
  some (record {
    from = msg.from;
    to = msg.to;
    tag = msg.tag;
    body = payload;
    wire_bytes = 17 + length msg.tag + length msg.body;
  })

-- A delivery queue of a local node, and whether its loop has failed.
pub record Delivery : Type 0 where
  pub queue : List Message
  pub failed : Bool

-- `readLoop`, one message of the inbox: a full queue stops the loop.
unfoldable pub read_one : Router → ℤ → Message → Delivery → Delivery
read_one r node msg d = if d.failed then d else elim (route r node msg) [
  | none ↦ d
  | some routed ↦
      if ltb (length d.queue) r.queue_capacity
      then record d { queue = d.queue ++ routed ∷ [] }
      else record d { failed = true }
]
