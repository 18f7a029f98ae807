-- ===== src/Router/Routing/Accepts.antt =====
-- Exactly which messages are routed, and that both ends of one are on a roster.
use mathlib.Core.Path.{subst}
use arladkr_practicaladkr.Prelude.{
  ℕ, ◌+◌, ◌≡◌, ◌↔◌, refl, sym, ap, ◌∙◌, inl, inr, Bool, true, false, not, ◌&&◌, ◌||◌, Option, some,
  List, [], ◌∷◌, arith, length, Bool-cases, guard->>, >>=-eq-some, some-inj, &&-left, &&-right,
  if-none-eq-some, ◌==◌,
}
use arladkr_practicaladkr.Prelude.Int.{ℤ, eqb_ℤ, eqb_ℤ_iff, is_neg}
use arladkr_practicaladkr.Prelude.Bytes.{Bytes, IsBytes}
use arladkr_practicaladkr.Prelude.Members.{member}
use arladkr_practicaladkr.Router.Envelope.{encode_envelope, decode_envelope, bad_context}
use arladkr_practicaladkr.Router.Envelope.RoundTrip.{decode_envelope_iff}
use arladkr_practicaladkr.Router.Tags
use arladkr_practicaladkr.Router.Routing.Roles.{Entitled, Entitled-iff}
use arladkr_practicaladkr.Router.Routing.{
  Message, Opener, Router, node_ids, local_ids, new_router, roles_allowed, open_body, route,
}

-- The message that is delivered for one from the network.
abbrev pub delivered : Message → Bytes → Message
delivered msg payload = record {
  from = msg.from;
  to = msg.to;
  tag = msg.tag;
  body = payload;
  wire_bytes = 17 + length msg.tag + length msg.body;
}

-- A message for a node, of a sender and a tag that the table entitles, and whose body opens to the
-- envelope of the payload for the router's session and epoch.
pub record Carries (r : Router) (node : ℤ) (msg : Message) (payload : Bytes) : Type 0 where
  pub envelope : Bytes
  pub entitled : Entitled r msg.tag msg.from node
  pub addressed : msg.to ≡ node
  pub opens : open_body r msg ≡ some envelope
  pub encodes : encode_envelope r.sid r.epoch payload ≡ some envelope

route-Carries :
    (r : Router) (node : ℤ) (msg routed : Message)
    → ((envelope : Bytes) → open_body r msg ≡ some envelope → IsBytes envelope)
    → route r node msg ≡ some routed
    → (payload : Bytes) × Carries r node msg payload × (routed ≡ delivered msg payload)
unfolding route
route-Carries r node msg routed bytes h =
    let (t1, h1) = guard->> (Tags.allowed_tag msg.tag && eqb_ℤ msg.to node) _ h in
    let (t2, h2) = guard->> (roles_allowed r msg.tag msg.from msg.to) _ h1 in
    let (envelope, opens, h3) = >>=-eq-some (open_body r msg) _ h2 in
    let (payload, decodes, h4) = >>=-eq-some (decode_envelope envelope r.sid r.epoch) _ h3 in
    let tagged = &&-left (Tags.allowed_tag msg.tag) (eqb_ℤ msg.to node) t1 in
    let addressed =
      (eqb_ℤ_iff msg.to node).0 (&&-right (Tags.allowed_tag msg.tag) (eqb_ℤ msg.to node) t1) in
    (
      payload,
      record {
        envelope = envelope;
        entitled =
            subst (Entitled r msg.tag msg.from) addressed
              ((Entitled-iff r msg.tag msg.from msg.to).0 (rw (tagged, t2) refl));
        addressed = addressed;
        opens = opens;
        encodes =
            (decode_envelope_iff envelope r.sid r.epoch payload (bytes envelope opens)).0 decodes;
      },
      sym (some-inj (delivered msg payload) routed h4),
    )

Carries-route :
    (r : Router) (node : ℤ) (msg : Message) (payload : Bytes)
    → ((envelope : Bytes) → open_body r msg ≡ some envelope → IsBytes envelope)
    → Carries r node msg payload
    → route r node msg ≡ some (delivered msg payload)
unfolding route
Carries-route r node msg payload bytes c =
    let allowed =
      (Entitled-iff r msg.tag msg.from msg.to).1
        (subst (Entitled r msg.tag msg.from) (sym c.addressed) c.entitled) in
    let tagged = &&-left (Tags.allowed_tag msg.tag) _ allowed in
    let roles = &&-right (Tags.allowed_tag msg.tag) _ allowed in
    rw (
      tagged,
      (eqb_ℤ_iff msg.to node).1 (c.addressed),
      roles,
      c.opens,
      (decode_envelope_iff c.envelope r.sid r.epoch payload (bytes c.envelope c.opens)).1 c.encodes,
    )

-- When opened bodies are bytes: a message is routed exactly when a table, with a row for each of
-- the 48 tags, entitles its sender and its receiver to its tag by the rosters that they are on,
-- it is for the node, and its body opens to the envelope of some payload for the session and the
-- epoch of the router; what is delivered is that payload from the same sender.
pub route_iff :
    (r : Router) (node : ℤ) (msg routed : Message)
    → ((envelope : Bytes) → open_body r msg ≡ some envelope → IsBytes envelope)
    → (route r node msg ≡ some routed)
      ↔ ((payload : Bytes) × Carries r node msg payload × (routed ≡ delivered msg payload))
route_iff r node msg routed bytes = (
  route-Carries r node msg routed bytes,
  λ h. Carries-route r node msg h.0 bytes h.1 ∙ ap some (sym h.2),
)

-- The set that a roster becomes.
member-node_ids :
    (seen nodes out : List ℤ) (a : ℤ)
    → node_ids seen nodes ≡ some out
    → member a out ≡ (member a seen || member a nodes)
unfolding node_ids member
member-node_ids seen [] out a h = ground (arith, some-inj seen out h)
member-node_ids seen (node ∷ nodes) out a h =
    let (t, rest) = if-none-eq-some (is_neg node || member node seen) _ h in
    member-node_ids (node ∷ seen) nodes out a rest
    ∙ swap (eqb_ℤ node a) (member a seen) (member a nodes)
  where
    swap : (x y z : Bool) → (x || y || z) ≡ (y || (x || z))
    swap x y z = ground arith

first-false : (a b c : Bool) → (not a || b || c) ≡ false → a ≡ true
first-false a b c h = ground arith

tail_member :
    (x b : ℤ) (xs : List ℤ) → eqb_ℤ x b ≡ false → member b (x ∷ xs) ≡ true → member b xs ≡ true
unfolding member
tail_member x b xs ne h = rw ne at h

-- A local node is on one of the rosters.
local_ids-known :
    (has_inbox : ℤ → Bool) (old_nodes new_nodes seen nodes out : List ℤ) (a : ℤ)
    → ((b : ℤ) → member b seen ≡ true → (member b old_nodes || member b new_nodes) ≡ true)
    → local_ids has_inbox old_nodes new_nodes seen nodes ≡ some out
    → member a out ≡ true
    → (member a old_nodes || member a new_nodes) ≡ true
unfolding local_ids
local_ids-known has_inbox old_nodes new_nodes seen [] out a known h m =
    known a (rw (some-inj seen out h) m)
local_ids-known has_inbox old_nodes new_nodes seen (node ∷ nodes) out a known h m =
    let (t, rest) =
      if-none-eq-some
        (not (member node old_nodes || member node new_nodes)
          || member node seen
          || not (has_inbox node))
        _ h in
    local_ids-known has_inbox old_nodes new_nodes (node ∷ seen) nodes out a (known_too t) rest m
  where
    known_too :
        (not (member node old_nodes || member node new_nodes)
            || member node seen
            || not (has_inbox node))
          ≡ false
        → (b : ℤ) → member b (node ∷ seen) ≡ true
        → (member b old_nodes || member b new_nodes) ≡ true
    known_too t b n = elim (Bool-cases (eqb_ℤ node b)) [
      | inl same ↦
          let e : node ≡ b = (eqb_ℤ_iff node b).0 same in
          rw (← e) (first-false (member node old_nodes || member node new_nodes) _ _ t)
      | inr other ↦ known b (tail_member node b seen other n)
    ]

roles_allowed-sender :
    (r : Router) (tag : Bytes) (from to : ℤ)
    → roles_allowed r tag from to ≡ true
    → (member from r.old_nodes || member from r.new_nodes) ≡ true
unfolding roles_allowed
roles_allowed-sender r tag from to h = ground arith

-- The rosters of a router that the constructor made.
pub record HasRosters (old_nodes new_nodes : List ℤ) (r : Router) : Type 0 where
  pub in_old : (a : ℤ) → member a r.old_nodes ≡ member a old_nodes
  pub in_new : (a : ℤ) → member a r.new_nodes ≡ member a new_nodes
  pub local_known :
      (a : ℤ)
      → member a r.local_nodes ≡ true
      → (member a r.old_nodes || member a r.new_nodes) ≡ true

new_router-HasRosters :
    (has_inbox : ℤ → Bool) (sid : Bytes) (epoch : ℤ) (old_nodes new_nodes local_nodes : List ℤ)
    (queue_capacity : ℕ) (auth : Option Opener) (r : Router)
    → new_router has_inbox sid epoch old_nodes new_nodes local_nodes queue_capacity auth ≡ some r
    → HasRosters old_nodes new_nodes r
unfolding new_router member
new_router-HasRosters has_inbox sid epoch old_nodes new_nodes local_nodes queue_capacity auth r
      made =
    let (ok, made1) =
      guard->>
        (not (bad_context sid epoch)
          && not (queue_capacity == 0)
          && not (length old_nodes == 0)
          && not (length local_nodes == 0))
        _ made in
    let (old_set, old_ids, made2) = >>=-eq-some (node_ids [] old_nodes) _ made1 in
    let (new_set, new_ids, made3) = >>=-eq-some (node_ids [] new_nodes) _ made2 in
    let (inboxes, local, made4) =
      >>=-eq-some (local_ids has_inbox old_set new_set [] local_nodes) _ made3 in
    subst (HasRosters old_nodes new_nodes) (some-inj _ r made4) (record {
      in_old = λ a. member-node_ids [] old_nodes old_set a old_ids;
      in_new = λ a. member-node_ids [] new_nodes new_set a new_ids;
      local_known = λ a m.
          local_ids-known has_inbox old_set new_set [] local_nodes inboxes a (λ b n. cc n) local m;
    })

route-ends :
    (r : Router) (node : ℤ) (msg routed : Message)
    → route r node msg ≡ some routed
    → (routed.to ≡ node)
      × ((member routed.from r.old_nodes || member routed.from r.new_nodes) ≡ true)
unfolding route
route-ends r node msg routed h =
    let (t1, h1) = guard->> (Tags.allowed_tag msg.tag && eqb_ℤ msg.to node) _ h in
    let (t2, h2) = guard->> (roles_allowed r msg.tag msg.from msg.to) _ h1 in
    let (envelope, opens, h3) = >>=-eq-some (open_body r msg) _ h2 in
    let (payload, decodes, h4) = >>=-eq-some (decode_envelope envelope r.sid r.epoch) _ h3 in
    let same = some-inj (delivered msg payload) routed h4 in
    (
      rw (← same)
          ((eqb_ℤ_iff msg.to node).0 (&&-right (Tags.allowed_tag msg.tag) (eqb_ℤ msg.to node) t1)),
      rw (← same) (roles_allowed-sender r msg.tag msg.from msg.to t2),
    )

-- For a router that the constructor makes and one of its local nodes: a routed message is for
-- that node, and its sender and its receiver are on the rosters that the constructor was given.
pub route-between_members :
    (has_inbox : ℤ → Bool) (sid : Bytes) (epoch : ℤ) (old_nodes new_nodes local_nodes : List ℤ)
    (queue_capacity : ℕ) (auth : Option Opener) (r : Router) (node : ℤ) (msg routed : Message)
    → new_router has_inbox sid epoch old_nodes new_nodes local_nodes queue_capacity auth ≡ some r
    → member node r.local_nodes ≡ true
    → route r node msg ≡ some routed
    → (routed.to ≡ node)
      × ((member routed.from old_nodes || member routed.from new_nodes) ≡ true)
      × ((member node old_nodes || member node new_nodes) ≡ true)
route-between_members has_inbox sid epoch old_nodes new_nodes local_nodes queue_capacity auth r node
      msg routed made is_local h =
    let made_with =
      new_router-HasRosters has_inbox sid epoch old_nodes new_nodes local_nodes queue_capacity auth
        r made in
    let (to, from) = route-ends r node msg routed h in
    (
      to,
      rw (made_with.in_old routed.from, made_with.in_new routed.from) at from,
      rw (made_with.in_old node, made_with.in_new node) at (made_with.local_known node is_local),
    )
