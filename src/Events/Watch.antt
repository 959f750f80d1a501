-- ===== src/Events/Watch.antt =====
-- What the subscribers receive.
use gas_management.Base.{
  ℕ, ◌+◌, ◌≡◌, refl, sym, ap, subst, ◌∙◌, inl, inr, Bool, true, false, List, [], ◌∷◌, ◌==◌,
  Bool-cases, arith, if◌then◌else◌,
}
use gas_management.Base.Int.{u64}
use gas_management.Base.Ids.{
  contains, Distinct, append-Distinct, contains-append, remove-Distinct, contains-remove_self,
  contains-remove_ne,
}
use gas_management.Events.{
  Event, Channel, Line, Bus, new_bus, event_of, offer, retain, publish, publish_locked,
  replay_and_subscribe, close_channel, cancel, deliver, take_event,
}
use gas_management.Events.Replay.{publish-enabled}
use gas_management.Events.Sends.{
  Open, send_all-channel, send_all-panicked, send_all-Sent, offer_closed,
}

-- No subscription is registered twice, the channels of the registered ones are open, the ones not
-- handed out are not registered, and nothing panicked.
pub record IsBus (bus : Bus) : Type 0 where
  pub distinct : Distinct bus.subscribers
  pub open_channels : Open bus.subscribers bus
  pub calm : bus.panicked ≡ false

pub new_bus-IsBus : (enabled : Bool) (capacity : ℕ) → IsBus (new_bus enabled capacity)
unfolding new_bus
new_bus-IsBus enabled capacity = record { distinct = tt; open_channels = λ id h. refl; calm = refl }

module _ (bus : Bus) (line : Line) where
  abbrev event : Event
  event = event_of (u64 (bus.sequence + 1)) line

  retain-watch :
      (b : Bus) (e : Event)
      → ((retain b e).subscribers ≡ b.subscribers)
        × ((retain b e).channels ≡ b.channels)
        × ((retain b e).panicked ≡ b.panicked)
  unfolding retain
  retain-watch b e = ground arith

  abbrev ready : Bus
  ready = retain (record bus { sequence = u64 (bus.sequence + 1) }) event

  Open-ready : IsBus bus → Open bus.subscribers ready
  Open-ready w id h =
      let (_, channels, _) =
        retain-watch (record bus { sequence = u64 (bus.sequence + 1) }) event in
      ap (λ (c : ℕ → Channel). (c id).closed) channels ∙ w.open_channels id h

  -- What a publication does to each channel.
  pub publish_locked-channel :
      IsBus bus
      → (j : ℕ)
      → (publish_locked bus line).channels j
        ≡ (if contains j bus.subscribers then offer event (bus.channels j) else bus.channels j)
  unfolding publish_locked
  publish_locked-channel w j =
      let (_, channels, _) =
        retain-watch (record bus { sequence = u64 (bus.sequence + 1) }) event in
      send_all-channel bus.subscribers ready event j w.distinct (Open-ready w)
      ∙ ap (λ (c : ℕ → Channel). if contains j bus.subscribers then offer event (c j) else c j)
          channels

  publish_locked-panicked : IsBus bus → (publish_locked bus line).panicked ≡ bus.panicked
  unfolding publish_locked
  publish_locked-panicked w =
      let (_, _, panicked) =
        retain-watch (record bus { sequence = u64 (bus.sequence + 1) }) event in
      send_all-panicked bus.subscribers ready event w.distinct (Open-ready w) ∙ panicked

  pub publish_locked-subscribers : (publish_locked bus line).subscribers ≡ bus.subscribers
  unfolding publish_locked
  publish_locked-subscribers =
      let (subscribers, _, _) =
        retain-watch (record bus { sequence = u64 (bus.sequence + 1) }) event in
      (send_all-Sent bus.subscribers ready event).subscribers ∙ subscribers

  pub publish_locked-IsBus : IsBus bus → IsBus (publish_locked bus line)
  publish_locked-IsBus w = record {
    distinct = subst Distinct (sym publish_locked-subscribers) w.distinct;
    open_channels = λ id h. ground (
      arith,
      ap (contains id) publish_locked-subscribers,
      publish_locked-channel w id,
      offer_closed event (bus.channels id),
      w.open_channels id,
    );
    calm = publish_locked-panicked w ∙ w.calm;
  }

  pub publish-IsBus : IsBus bus → IsBus (publish bus line)
  unfolding publish
  publish-IsBus w = elim (Bool-cases bus.enabled) [
    | inl e ↦
        subst (λ on. IsBus (if on then publish_locked bus line else bus)) (sym e)
          (publish_locked-IsBus w)
    | inr e ↦ subst (λ on. IsBus (if on then publish_locked bus line else bus)) (sym e) w
  ]

pub replay_and_subscribe-IsBus :
    (bus : Bus) (after : ℕ) → IsBus bus → IsBus (replay_and_subscribe bus after).1
unfolding replay_and_subscribe
replay_and_subscribe-IsBus bus after w = record {
  distinct =
      ground
        (arith, append-Distinct bus.subscribers (u64 (bus.next_id + 1)) w.distinct, w.distinct);
  open_channels = λ id h.
      ground
        (arith, w.open_channels id, contains-append id (u64 (bus.next_id + 1)) bus.subscribers);
  calm = w.calm;
}

close_channel-IsBus :
    (bus : Bus) (id : ℕ)
    → contains id bus.subscribers ≡ true
    → IsBus bus
    → IsBus (close_channel bus id)
unfolding close_channel
close_channel-IsBus bus id i w =
    let open_id = w.open_channels id i in
    record {
      distinct = ground (arith, remove-Distinct id bus.subscribers w.distinct);
      open_channels = λ j h. elim (Bool-cases (j == id)) [
        | inl e ↦ ground (arith, contains-remove_self id bus.subscribers w.distinct)
        | inr e ↦
            ground
              (arith, contains-remove_ne id j bus.subscribers (ground arith), w.open_channels j)
      ];
      calm = ground (arith, w.calm);
    }

pub cancel-IsBus : (once : Bool) (bus : Bus) (id : ℕ) → IsBus bus → IsBus (cancel once bus id)
unfolding cancel
cancel-IsBus true bus id w = w
cancel-IsBus false bus id w = elim (Bool-cases (contains id bus.subscribers)) [
  | inl e ↦
      subst (λ c. IsBus (if c then close_channel bus id else bus)) (sym e)
        (close_channel-IsBus bus id e w)
  | inr e ↦ subst (λ c. IsBus (if c then close_channel bus id else bus)) (sym e) w
]

take_event_closed : (c : Channel) (events : List Event) → (take_event c events).closed ≡ c.closed
take_event_closed c [] = refl
take_event_closed c (e ∷ events) = refl

pub deliver-IsBus : (bus : Bus) (id : ℕ) → IsBus bus → IsBus (deliver bus id)
unfolding deliver
deliver-IsBus bus id w = record {
  distinct = w.distinct;
  open_channels = λ j h.
      ground
        (arith, w.open_channels j, take_event_closed (bus.channels id) (bus.channels id).buffer);
  calm = w.calm;
}

-- A publication offers the event to every subscriber, and to each of them only: a subscriber whose
-- buffer has room has it at the end of its buffer; one with a full buffer loses it; the others'
-- buffers are no part of that. Who is not subscribed receives nothing.
pub publish-channel :
    (bus : Bus) (line : Line) (j : ℕ)
    → IsBus bus
    → bus.enabled ≡ true
    → (publish bus line).channels j ≡ (
        if contains j bus.subscribers
        then offer (event_of (u64 (bus.sequence + 1)) line) (bus.channels j)
        else bus.channels j)
publish-channel bus line j w e =
    ap (λ (u : Bus). u.channels j) (publish-enabled bus line e)
    ∙ publish_locked-channel bus line w j
