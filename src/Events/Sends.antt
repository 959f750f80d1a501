-- ===== src/Events/Sends.antt =====
-- What the sends of one publication change.
use gas_management.Base.{
  ℕ, ◌≡◌, refl, true, false, List, [], ◌∷◌, ◌==◌, Bool-cases, arith, inl, inr, if◌then◌else◌, ◌∙◌,
}
use gas_management.Base.Ids.{contains, Distinct}
use gas_management.Events.{Event, Channel, Bus, offer, send, send_all}

-- Nothing but the channels and `panicked` differs.
pub record Sent (b u : Bus) : Type 0 where
  pub enabled : u.enabled ≡ b.enabled
  pub capacity : u.capacity ≡ b.capacity
  pub ring : u.ring ≡ b.ring
  pub start : u.start ≡ b.start
  pub size : u.size ≡ b.size
  pub sequence : u.sequence ≡ b.sequence
  pub subscribers : u.subscribers ≡ b.subscribers
  pub next_id : u.next_id ≡ b.next_id

abbrev Sent-refl : (b : Bus) → Sent b b
Sent-refl b = record {
  enabled = refl;
  capacity = refl;
  ring = refl;
  start = refl;
  size = refl;
  sequence = refl;
  subscribers = refl;
  next_id = refl;
}

send-Sent : (bus : Bus) (event : Event) (id : ℕ) → Sent bus (send bus event id)
unfolding send
send-Sent bus event id = record {
  enabled = ground arith;
  capacity = ground arith;
  ring = ground arith;
  start = ground arith;
  size = ground arith;
  sequence = ground arith;
  subscribers = ground arith;
  next_id = ground arith;
}

pub send_all-Sent : (ids : List ℕ) (bus : Bus) (event : Event) → Sent bus (send_all ids bus event)
unfolding send_all
send_all-Sent [] bus event = Sent-refl bus
send_all-Sent (id ∷ ids) bus event =
    let s = send-Sent bus event id in
    let r = send_all-Sent ids (send bus event id) event in
    record {
      enabled = r.enabled ∙ s.enabled;
      capacity = r.capacity ∙ s.capacity;
      ring = r.ring ∙ s.ring;
      start = r.start ∙ s.start;
      size = r.size ∙ s.size;
      sequence = r.sequence ∙ s.sequence;
      subscribers = r.subscribers ∙ s.subscribers;
      next_id = r.next_id ∙ s.next_id;
    }

abbrev pub Open : List ℕ → Bus → Type 0
Open ids bus = (id : ℕ) → contains id ids ≡ true → (bus.channels id).closed ≡ false

send-channel :
    (bus : Bus) (event : Event) (id j : ℕ)
    → (bus.channels id).closed ≡ false
    → (send bus event id).channels j
      ≡ (if j == id then offer event (bus.channels j) else bus.channels j)
unfolding send
send-channel bus event id j h = rw h (ground arith)

send-panicked :
    (bus : Bus) (event : Event) (id : ℕ)
    → (bus.channels id).closed ≡ false
    → (send bus event id).panicked ≡ bus.panicked
unfolding send
send-panicked bus event id h = rw h refl

pub offer_closed : (event : Event) (c : Channel) → (offer event c).closed ≡ c.closed
offer_closed event c = ground arith

send-Open :
    (bus : Bus) (event : Event) (id : ℕ) (ids : List ℕ)
    → (bus.channels id).closed ≡ false
    → Open ids bus
    → Open ids (send bus event id)
send-Open bus event id ids h o j i =
    ground (arith, send-channel bus event id j h, offer_closed event (bus.channels j), o j i)

-- Every subscriber is offered the event once, whatever the others do with it.
pub send_all-channel :
    (ids : List ℕ) (bus : Bus) (event : Event) (j : ℕ)
    → Distinct ids
    → Open ids bus
    → (send_all ids bus event).channels j
      ≡ (if contains j ids then offer event (bus.channels j) else bus.channels j)
unfolding send_all contains
send_all-channel [] bus event j d o = refl
send_all-channel (id ∷ ids) bus event j d o =
    let open_id = o id (ground arith) in
    let open_ids : Open ids bus = λ i h. o i (ground arith) in
    let rest =
      send_all-channel ids (send bus event id) event j d.1
        (send-Open bus event id ids open_id open_ids) in
    let first = send-channel bus event id j open_id in
    elim (Bool-cases (j == id)) [ inl e ↦ ground arith | inr e ↦ ground arith ]

pub send_all-panicked :
    (ids : List ℕ) (bus : Bus) (event : Event)
    → Distinct ids
    → Open ids bus
    → (send_all ids bus event).panicked ≡ bus.panicked
unfolding send_all contains
send_all-panicked [] bus event d o = refl
send_all-panicked (id ∷ ids) bus event d o =
    let open_id = o id (ground arith) in
    send_all-panicked ids (send bus event id) event d.1
      (send-Open bus event id ids open_id (λ i h. o i (ground arith)))
    ∙ send-panicked bus event id open_id
