-- ===== src/Router/Routing/Roles.antt =====
-- Who may send which tag to whom, as a table, against the switch of route in core/cv_sapvss_router.go.
use arladkr_practicaladkr.Prelude.{
  ℕ, zero, suc, ◌≡◌, ◌↔◌, ◌⊎◌, refl, sym, ap, ◌∙◌, inl, inr, Bool, true, ◌&&◌, ◌||◌, some, List, [],
  ◌∷◌, arith, get_elem?, All, Bool-cases, some-inj, &&-left, &&-right,
}
use arladkr_practicaladkr.Prelude.Int.{ℤ}
use arladkr_practicaladkr.Prelude.Bytes.{Bytes, beq, beq→eq, beq_refl}
use arladkr_practicaladkr.Prelude.Members.{member}
use arladkr_practicaladkr.Router.Tags
use arladkr_practicaladkr.Router.Routing.{Router, roles_allowed}

-- Which roster a node must be on.
pub data Side : Type 0 where
  on_old on_new on_either anywhere : Side

-- A tag, the side of its senders and that of its receivers.
abbrev pub Row : Type 0
Row = Bytes × Side × Side

-- The tags of the protocol. Dealers and holders of the old committee send to receivers of the new one,
-- who answer to whoever asked; aggregate shares stay within the new committee, and all else within the
-- old one.
abbrev pub policy : List Row
policy =
    (Tags.component_init, on_old, on_old)
    ∷ (Tags.component_ack, on_old, on_old)
    ∷ (Tags.component_cert, on_old, on_old)
    ∷ (Tags.component_get, on_old, on_old)
    ∷ (Tags.component_leaf, on_old, on_old)
    ∷ (Tags.component_ready, on_old, on_old)
    ∷ (Tags.eligibility_share, on_old, on_old)
    ∷ (Tags.aggregate_manifest, on_old, on_old)
    ∷ (Tags.arc_share, on_old, on_old)
    ∷ (Tags.arc_certificate, on_old, on_old)
    ∷ (Tags.recover_get, on_old, on_old)
    ∷ (Tags.recover_shard, on_old, on_old)
    ∷ (Tags.recover_done, on_old, on_old)
    ∷ (Tags.receipt, on_old, on_old)
    ∷ (Tags.receipt_done, on_old, on_old)
    ∷ (Tags.apvss_lane_offer, on_old, on_new)
    ∷ (Tags.apvss_lane_ack, on_new, anywhere)
    ∷ (Tags.handoff_scalar, on_old, on_either)
    ∷ (Tags.apdb_store_scalar, on_old, on_old)
    ∷ (Tags.apdb_stored_share_scalar, on_old, on_old)
    ∷ (Tags.aggregate_apdb_store_scalar, on_old, on_old)
    ∷ (Tags.aggregate_arc_share_scalar, on_old, on_old)
    ∷ (Tags.apdb_recover_get_scalar, on_old, on_old)
    ∷ (Tags.apdb_recover_store_scalar, on_old, on_old)
    ∷ (Tags.apdb_recover_payload_scalar, on_old, on_old)
    ∷ (Tags.aggregate_recover_get_scalar, on_new, anywhere)
    ∷ (Tags.aggregate_recover_cancel_scalar, on_new, anywhere)
    ∷ (Tags.aggregate_recover_store_scalar, on_old, on_new)
    ∷ (Tags.aggregate_payload_get_scalar, on_new, anywhere)
    ∷ (Tags.aggregate_payload_scalar, on_old, on_new)
    ∷ (Tags.coin_share_scalar, on_old, on_old)
    ∷ (Tags.pool_offer_scalar, on_old, on_old)
    ∷ (Tags.pool_cert_share_scalar, on_old, on_old)
    ∷ (Tags.pool_cert_scalar, on_old, on_old)
    ∷ (Tags.validation_request_scalar, on_old, on_old)
    ∷ (Tags.validation_signature_scalar, on_old, on_old)
    ∷ (Tags.validation_result_scalar, on_old, on_old)
    ∷ (Tags.decision_share_scalar, on_old, on_old)
    ∷ (Tags.aggregate_share_scalar, on_new, on_new)
    ∷ (Tags.lane_offer_scalar, on_old, on_new)
    ∷ (Tags.lane_ack_scalar, on_new, anywhere)
    ∷ (Tags.component_ref_scalar, on_old, on_old)
    ∷ (Tags.certified_candidate_scalar, on_old, on_old)
    ∷ (Tags.certified_candidate_ack_scalar, on_old, on_old)
    ∷ (Tags.certified_candidate_ack_probe_scalar, on_old, on_old)
    ∷ (Tags.certified_candidate_announce_scalar, on_old, on_old)
    ∷ (Tags.certified_candidate_fetch_scalar, on_old, on_old)
    ∷ (Tags.certified_candidate_response_scalar, on_old, on_old)
    ∷ []

pub IsOn : Router → Side → ℤ → Type 0
IsOn r on_old node = member node r.old_nodes ≡ true
IsOn r on_new node = member node r.new_nodes ≡ true
IsOn r on_either node = (member node r.old_nodes ≡ true) ⊎ (member node r.new_nodes ≡ true)
IsOn r anywhere node = Unit {0}

-- A row of the table has the tag, and both ends are on its sides.
pub record Entitled (r : Router) (tag : Bytes) (from to : ℤ) : Type 0 where
  pub row : ℕ
  pub sender : Side
  pub receiver : Side
  pub listed : get_elem? policy row ≡ some (tag, sender, receiver)
  pub sender_on : IsOn r sender from
  pub receiver_on : IsOn r receiver to

on : Router → Side → ℤ → Bool
on r on_old node = member node r.old_nodes
on r on_new node = member node r.new_nodes
on r on_either node = member node r.old_nodes || member node r.new_nodes
on r anywhere node = true

permits : Router → Side → Side → ℤ → ℤ → Bool
permits r sender on_old from to = on r sender from && on r on_old to
permits r sender on_new from to = on r sender from && on r on_new to
permits r sender on_either from to = on r sender from && on r on_either to
permits r sender anywhere from to = on r sender from

on_iff : (r : Router) (side : Side) (node : ℤ) → (on r side node ≡ true) ↔ IsOn r side node
unfolding on IsOn
on_iff r on_old node = (λ h. h, λ h. h)
on_iff r on_new node = (λ h. h, λ h. h)
on_iff r on_either node = (
  λ h. elim (Bool-cases (member node r.old_nodes)) [
    | inl old ↦ inl old
    | inr new ↦ inr (rw new at h)
  ],
  λ h. elim h [ inl old ↦ ground (arith, old) | inr new ↦ ground (arith, new) ],
)
on_iff r anywhere node = (λ h. tt, λ h. refl)

both_iff : (a b : Bool) → ((a && b) ≡ true) ↔ ((a ≡ true) × (b ≡ true))
both_iff a b = (λ h. (&&-left a b h, &&-right a b h), λ h. ground (arith, h.0, h.1))

permits-and :
    (r : Router) (sender receiver : Side) (from to : ℤ)
    → permits r sender receiver from to ≡ (on r sender from && on r receiver to)
unfolding permits on
permits-and r sender on_old from to = refl
permits-and r sender on_new from to = refl
permits-and r sender on_either from to = refl
permits-and r sender anywhere from to = ground arith

infixr 5 ◌&◌
abbrev ◌&◌ {ℓ κ} : {A : Type ℓ} {B : Type κ} → A → B → A × B
a & b = (a, b)

-- The switch, at each row of the table.
policy_holds :
    (r : Router) (from to : ℤ)
    → All
        (λ (row : Row). roles_allowed r (row.0) from to ≡ permits r (row.1) (row.2) from to)
        policy
unfolding roles_allowed Tags.one_of beq permits on
policy_holds r from to =
    refl & refl & refl & refl & refl & refl & refl & refl & refl & refl & refl & refl & refl & refl
    & refl & refl & refl & refl & refl & refl & refl & refl & refl & refl & refl & refl & refl
    & refl & refl & refl & refl & refl & refl & refl & refl & refl & refl & refl & refl & refl
    & refl & refl & refl & refl & refl & refl & refl & refl & tt

abbrev tags_of : List Row → List Bytes
tags_of [] = []
tags_of (row ∷ rows) = row.0 ∷ tags_of rows

-- The tags of the table are the allowed ones.
allowed_tag-policy : (tag : Bytes) → Tags.allowed_tag tag ≡ Tags.one_of tag (tags_of policy)
unfolding Tags.allowed_tag
allowed_tag-policy tag = refl

one_of-listed :
    (tag : Bytes) (rows : List Row)
    → Tags.one_of tag (tags_of rows) ≡ true
    → (i : ℕ) × (row : Row) × (get_elem? rows i ≡ some row) × (tag ≡ row.0)
unfolding Tags.one_of
one_of-listed tag [] h = cc h
one_of-listed tag (row ∷ rows) h = elim (Bool-cases (beq tag (row.0))) [
  | inl here ↦ (0, row, refl, beq→eq tag (row.0) here)
  | inr on ↦
      let (i, found, e, same) = one_of-listed tag rows (rw on at h) in (suc i, found, e, same)
]

listed-one_of :
    (rows : List Row) (i : ℕ) (row : Row)
    → get_elem? rows i ≡ some row
    → Tags.one_of (row.0) (tags_of rows) ≡ true
unfolding Tags.one_of
listed-one_of [] i row e = cc e
listed-one_of (r ∷ rows) zero row e =
    let same : r ≡ row = some-inj r row e in rw (← same) (rw (beq_refl (r.0)) refl)
listed-one_of (r ∷ rows) (suc i) row e = ground (arith, listed-one_of rows i row e)

at-All {κ} :
    (P : Row → Type κ) (rows : List Row) (i : ℕ) (row : Row)
    → All P rows
    → get_elem? rows i ≡ some row
    → P row
at-All P [] i row h e = cc e
at-All P (r ∷ rows) zero row h e = let same : r ≡ row = some-inj r row e in rw (← same) (h.0)
at-All P (r ∷ rows) (suc i) row h e = at-All P rows i row h.1 e

-- Tag and roles are allowed exactly when the table entitles them.
pub Entitled-iff :
    (r : Router) (tag : Bytes) (from to : ℤ)
    → ((Tags.allowed_tag tag && roles_allowed r tag from to) ≡ true) ↔ Entitled r tag from to
Entitled-iff r tag from to = (
  λ h.
      let (i, row, e, same) =
        one_of-listed tag policy
          (sym (allowed_tag-policy tag) ∙ &&-left (Tags.allowed_tag tag) _ h) in
      let roles = &&-right (Tags.allowed_tag tag) _ h in
      let both = (both_iff (on r (row.1) from) (on r (row.2) to)).0 (
        sym (
          at-All (λ (x : Row). roles_allowed r (x.0) from to ≡ permits r (x.1) (x.2) from to) policy
            i row (policy_holds r from to) e
          ∙ permits-and r (row.1) (row.2) from to)
        ∙ ap (λ t. roles_allowed r t from to) (sym same)
        ∙ roles) in
      record {
        row = i;
        sender = row.1;
        receiver = row.2;
        listed = rw same e;
        sender_on = (on_iff r (row.1) from).0 both.0;
        receiver_on = (on_iff r (row.2) to).0 both.1;
      },
  λ p.
      let row : Row = (tag, p.sender, p.receiver) in
      let roles : roles_allowed r tag from to ≡ true =
        at-All (λ (x : Row). roles_allowed r (x.0) from to ≡ permits r (x.1) (x.2) from to) policy
          p.row row (policy_holds r from to) p.listed
        ∙ permits-and r p.sender p.receiver from to
        ∙ (both_iff (on r p.sender from) (on r p.receiver to)).1
            ((on_iff r p.sender from).1 p.sender_on, (on_iff r p.receiver to).1 p.receiver_on) in
      let allowed : Tags.allowed_tag tag ≡ true =
        allowed_tag-policy tag ∙ listed-one_of policy p.row row p.listed in
      rw (allowed, roles) refl,
)
