-- ===== src/Router/Routing/Reading.antt =====
-- A node's inbox and its delivery queue: whatever the order in which messages come and the node
-- takes them, it takes the routed ones in the order of the inbox, and none is lost before the queue
-- overflows.
use mathlib.Core.List.{append_assoc, append-nil}
use arladkr_practicaladkr.Prelude.{
  ◌≤◌, ◌≡◌, refl, sym, ap, ◌∙◌, inl, inr, Bool, true, false, Option, none, some, List, [], ◌∷◌,
  ◌++◌, arith, ltb, ltb→lt, length, length-append, Bool-cases, Option-cases,
}
use arladkr_practicaladkr.Prelude.Int.{ℤ}
use arladkr_practicaladkr.Router.Routing.{Message, Router, route, Delivery, read_one}

-- A message comes to the inbox, or the node takes the first one of its queue.
pub data Event : Type 0 where
  came : Message → Event
  taken : Event

-- A queue, and what the node has taken from it.
pub record Channel : Type 0 where
  pub delivery : Delivery
  pub received : List Message

take_first_message : List Message → Channel → Channel
take_first_message [] c = c
take_first_message (m ∷ queue) c = record c {
  delivery = record (c.delivery) { queue = queue };
  received = c.received ++ m ∷ [];
}

-- What is delivered is a prefix of what is routed, and all of it as long as the loop runs.
pub record Delivered (before after routed : List Message) (failed : Bool) : Type 0 where
  pub lost : List Message
  pub in_order : after ++ lost ≡ before ++ routed
  pub none_lost : failed ≡ false → lost ≡ []

abbrev pub as_list : Option Message → List Message
as_list none = []
as_list (some m) = m ∷ []

module _ (r : Router) (node : ℤ) where
  unfoldable pub step : Event → Channel → Channel
  unfolding take_first_message
  step (came msg) c = record c { delivery = read_one r node msg c.delivery }
  step taken c = take_first_message c.delivery.queue c

  unfoldable pub run : List Event → Channel → Channel
  run [] c = c
  run (e ∷ es) c = run es (step e c)

  -- The messages of the inbox that are routed, as they are delivered.
  unfoldable pub routed_all : List Event → List Message
  routed_all [] = []
  routed_all (taken ∷ es) = routed_all es
  routed_all (came msg ∷ es) = as_list (route r node msg) ++ routed_all es

  -- What was taken and what waits.
  abbrev pub seen : Channel → List Message
  seen c = c.received ++ c.delivery.queue

  take_first-seen :
      (queue : List Message) (c : Channel)
      → c.delivery.queue ≡ queue
      → (seen (take_first_message queue c) ≡ seen c)
        × ((take_first_message queue c).delivery.failed ≡ c.delivery.failed)
        × (length (take_first_message queue c).delivery.queue ≤ length c.delivery.queue)
  unfolding take_first_message
  take_first-seen [] c e = (refl, refl, omega arith)
  take_first-seen (m ∷ queue) c e =
      (rw e (append_assoc c.received (m ∷ []) queue), refl, omega (arith, ap length e))

  read_one-failed : (msg : Message) (d : Delivery) → d.failed ≡ true → read_one r node msg d ≡ d
  unfolding read_one
  read_one-failed msg d f = ground arith

  -- A loop that has failed delivers nothing more.
  run-failed :
      (es : List Event) (c : Channel)
      → c.delivery.failed ≡ true
      → (seen (run es c) ≡ seen c) × ((run es c).delivery.failed ≡ true)
  unfolding run step
  run-failed [] c f = (refl, f)
  run-failed (came msg ∷ es) c f = rw (read_one-failed msg c.delivery f, run) (run-failed es c f)
  run-failed (taken ∷ es) c f =
      let (same, still, short) = take_first-seen c.delivery.queue c refl in
      let (later, end) = run-failed es (take_first_message c.delivery.queue c) (still ∙ f) in
      (later ∙ same, end)

  abbrev Goal : List Event → Channel → Type 0
  Goal es c = Delivered (seen c) (seen (run es c)) (routed_all es) (run es c).delivery.failed

  -- The loop has failed, now or before.
  Goal-failed : (es : List Event) (c : Channel) → c.delivery.failed ≡ true → Goal es c
  Goal-failed es c f =
      let (same, end) = run-failed es c f in
      record {
        lost = routed_all es;
        in_order = ap (λ l. l ++ routed_all es) same;
        none_lost = λ ok. cc;
      }

  -- How one message changes the queue.
  record Read (msg : Message) (before after : Delivery) (routed : List Message) : Type 0 where
    grows : (after.failed ≡ false) → after.queue ≡ before.queue ++ routed
    stops : (after.failed ≡ true) → after.queue ≡ before.queue
    bounded : length before.queue ≤ r.queue_capacity → length after.queue ≤ r.queue_capacity

  read_one-Read :
      (msg : Message) (d : Delivery)
      → d.failed ≡ false
      → Read msg d (read_one r node msg d) (as_list (route r node msg))
  unfolding read_one
  read_one-Read msg d running = elim (Option-cases (route r node msg)) [
    | inl refused ↦
        rw (running, refused)
          (record { grows = λ f. sym (append-nil d.queue); stops = λ f. refl; bounded = λ h. h })
    | inr (routed, accepted) ↦ elim (Bool-cases (ltb (length d.queue) r.queue_capacity)) [
      | inl room ↦
          rw (running, accepted, room)
            (record {
              grows = λ f. refl;
              stops = λ f. cc (f, running);
              bounded = λ h. omega (
                arith,
                ltb→lt (length d.queue) r.queue_capacity room,
                length-append d.queue (routed ∷ []),
              );
            })
      | inr full ↦
          rw (running, accepted, full)
            (record { grows = λ f. cc f; stops = λ f. refl; bounded = λ h. h })
    ]
  ]

  run-Delivered : (es : List Event) (c : Channel) → c.delivery.failed ≡ false → Goal es c
  unfolding run step routed_all
  run-Delivered [] c running = record { lost = []; in_order = refl; none_lost = λ f. refl }
  run-Delivered (came msg ∷ es) c running =
      let d = read_one r node msg c.delivery in
      let c' : Channel = record c { delivery = d } in
      let read = read_one-Read msg c.delivery running in
      elim (Bool-cases d.failed) [
        | inl stopped ↦ record {
          lost = as_list (route r node msg) ++ routed_all es;
          in_order =
              overflow (as_list (route r node msg) ++ routed_all es) (run-failed es c' stopped).0
                (read.stops stopped);
          none_lost = λ f. cc ((run-failed es c' stopped).1, f);
        }
        | inr on ↦
            let later = run-Delivered es c' on in
            record {
              lost = later.lost;
              in_order =
                  later.in_order
                  ∙ regroup (as_list (route r node msg)) (routed_all es) (read.grows on);
              none_lost = later.none_lost;
            }
      ]
    where
      overflow :
          (rest : List Message) {after : List Message}
          → after ≡ c.received ++ (read_one r node msg c.delivery).queue
          → (read_one r node msg c.delivery).queue ≡ c.delivery.queue
          → after ++ rest ≡ (c.received ++ c.delivery.queue) ++ rest
      overflow rest same kept = ap (λ l. l ++ rest) (same ∙ ap (λ q. c.received ++ q) kept)

      regroup :
          (one rest : List Message)
          → (read_one r node msg c.delivery).queue ≡ c.delivery.queue ++ one
          → (c.received ++ (read_one r node msg c.delivery).queue) ++ rest
            ≡ (c.received ++ c.delivery.queue) ++ (one ++ rest)
      regroup one rest e = rw e (simp append_assoc)
  run-Delivered (taken ∷ es) c running =
      let (same, still, short) = take_first-seen c.delivery.queue c refl in
      let later = run-Delivered es (take_first_message c.delivery.queue c) (still ∙ running) in
      record {
        lost = later.lost;
        in_order = later.in_order ∙ ap (λ l. l ++ routed_all es) same;
        none_lost = later.none_lost;
      }

  run-bounded :
      (es : List Event) (c : Channel)
      → length c.delivery.queue ≤ r.queue_capacity
      → length (run es c).delivery.queue ≤ r.queue_capacity
  unfolding run step
  run-bounded [] c h = h
  run-bounded (came msg ∷ es) c h =
      run-bounded es (record c { delivery = read_one r node msg c.delivery })
        (elim (Bool-cases c.delivery.failed) [
          | inl stopped ↦ rw (read_one-failed msg c.delivery stopped) h
          | inr running ↦ (read_one-Read msg c.delivery running).bounded h
        ])
  run-bounded (taken ∷ es) c h =
      let (same, still, short) = take_first-seen c.delivery.queue c refl in
      run-bounded es (take_first_message c.delivery.queue c) (omega (arith, short, h))

abbrev pub idle : Channel
idle = record { delivery = record { queue = []; failed = false }; received = [] }

-- From an empty queue, for any order of messages coming and being taken: what a node took and
-- what waits is, in order, a beginning of the routed messages of the inbox, all of them unless
-- the loop has failed, and no more wait than the queue can hold.
pub reads_in_order :
    (r : Router) (node : ℤ) (es : List Event)
    → Delivered []
        (seen r node (run r node es idle))
        (routed_all r node es)
        (run r node es idle).delivery.failed
      × (length (run r node es idle).delivery.queue ≤ r.queue_capacity)
reads_in_order r node es =
    (run-Delivered r node es idle refl, run-bounded r node es idle (omega arith))
