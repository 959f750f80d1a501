-- ===== src/Dashboard/Watchers.antt =====
-- How many watch, as streams are opened and closed.
use gas_management.Base.{
  ℕ, ◌+◌, ◌≤◌, ◌<◌, ◌≡◌, refl, ap, ◌∙◌, Bool, true, false, List, [], ◌∷◌, ◌++◌, length,
  length-append, leb, if◌then◌else◌, arith, Bool-cases, leb→le, inl, inr,
}
use gas_management.Base.Int.{u64}
use gas_management.Base.Ids.{contains, remove}
use gas_management.Events.{
  Event, Line, send, send_all, retain, publish_locked, event_of, Bus, subscriber_count,
  replay_and_subscribe, retained, cancel, close_channel, publish,
}
use gas_management.Events.Watch.{publish_locked-subscribers}
use gas_management.Dashboard.{
  max_clients, Opening, full, unsupported, streaming, hello, send_events, Beside, at_subscription,
  opened, open_stream, close_stream,
}

-- What an opening leaves, where the connection can stream or not.
abbrev pub Opened : (Line → Bool) → Bool → Beside → ℕ → Bus → Opening × Bus → Type 0
Opened can_write flushes beside after bus (full, after_bus) =
    (max_clients ≤ subscriber_count bus) × (after_bus ≡ bus)
Opened can_write flushes beside after bus (unsupported, after_bus) =
    (subscriber_count bus < max_clients) × (flushes ≡ false) × (after_bus ≡ bus)
Opened can_write flushes beside after bus (streaming id frames, after_bus) =
    (subscriber_count bus < max_clients)
    × (flushes ≡ true)
    × (subscriber_count after_bus ≤ subscriber_count (at_subscription beside bus) + 1)
    × (frames ≡ hello ∷ send_events can_write (retained (at_subscription beside bus) after))
    × (contains id (at_subscription beside bus).subscribers ≡ false
        → (close_stream after_bus id).subscribers ≡ (at_subscription beside bus).subscribers)

remove_last : (id : ℕ) (xs : List ℕ) → contains id xs ≡ false → remove id (xs ++ id ∷ []) ≡ xs
unfolding remove contains
remove_last id [] h = ground arith
remove_last id (x ∷ xs) h = ground (arith, remove_last id xs)

contains_last : (id : ℕ) (xs : List ℕ) → contains id (xs ++ id ∷ []) ≡ true
unfolding contains
contains_last id [] = ground arith
contains_last id (x ∷ xs) = ground (arith, contains_last id xs)

kept_either_way :
    {A : Type 0} (read : Bus → A) (b : Bool) (x y : Bus)
    → read x ≡ read y
    → read (if b then x else y) ≡ read y
kept_either_way read true x y h = h
kept_either_way read false x y h = refl

publish-subscribers : (bus : Bus) (line : Line) → (publish bus line).subscribers ≡ bus.subscribers
unfolding publish
publish-subscribers bus line =
    kept_either_way (λ b. b.subscribers) bus.enabled (publish_locked bus line) bus
      (publish_locked-subscribers bus line)

send-closed :
    (bus : Bus) (event : Event) (id j : ℕ)
    → ((send bus event id).channels j).closed ≡ (bus.channels j).closed
unfolding send
send-closed bus event id j = ground arith

send_all-closed :
    (ids : List ℕ) (bus : Bus) (event : Event) (j : ℕ)
    → ((send_all ids bus event).channels j).closed ≡ (bus.channels j).closed
unfolding send_all
send_all-closed [] bus event j = refl
send_all-closed (id ∷ ids) bus event j =
    send_all-closed ids (send bus event id) event j ∙ send-closed bus event id j

retain-closed :
    (bus : Bus) (event : Event) (j : ℕ)
    → ((retain bus event).channels j).closed ≡ (bus.channels j).closed
unfolding retain
retain-closed bus event j = ground arith

publish_locked-closed :
    (bus : Bus) (line : Line) (j : ℕ)
    → ((publish_locked bus line).channels j).closed ≡ (bus.channels j).closed
unfolding publish_locked
publish_locked-closed bus line j =
    let event = event_of (u64 (bus.sequence + 1)) line in
    let numbered : Bus = record bus { sequence = u64 (bus.sequence + 1) } in
    send_all-closed bus.subscribers (retain numbered event) event j ∙ retain-closed numbered event j

publish-closed :
    (bus : Bus) (line : Line) (j : ℕ)
    → ((publish bus line).channels j).closed ≡ (bus.channels j).closed
unfolding publish
publish-closed bus line j =
    kept_either_way (λ b. (b.channels j).closed) bus.enabled (publish_locked bus line) bus
      (publish_locked-closed bus line j)

closed_channel-subscribers :
    (u : Bus) (id : ℕ)
    → (u.channels id).closed ≡ false
    → contains id u.subscribers ≡ true
    → (close_stream u id).subscribers ≡ remove id u.subscribers
unfolding close_stream cancel close_channel
closed_channel-subscribers u id o i = ground (arith, o, i)

-- A close leaves those who were there before the stream.
closed-subscribers :
    (bus u : Bus) (id : ℕ)
    → u.subscribers ≡ bus.subscribers ++ id ∷ []
    → (u.channels id).closed ≡ false
    → contains id bus.subscribers ≡ false
    → (close_stream u id).subscribers ≡ bus.subscribers
closed-subscribers bus u id e o fresh =
    closed_channel-subscribers u id o (ap (contains id) e ∙ contains_last id bus.subscribers)
    ∙ ap (remove id) e
    ∙ remove_last id bus.subscribers fresh

-- What the subscription to the bus of that moment leaves.
subscribed-Opened :
    (can_write : Line → Bool) (beside : Beside) (after : ℕ) (bus : Bus)
    → subscriber_count bus < max_clients
    → Opened can_write true beside after bus (
        opened can_write beside.stream_open
          (replay_and_subscribe (at_subscription beside bus) after))
unfolding replay_and_subscribe subscriber_count
subscribed-Opened can_write beside after bus h =
    let met = at_subscription beside bus in
    let id = u64 (met.next_id + 1) in
    let more = length-append met.subscribers (id ∷ []) in
    let u = (replay_and_subscribe met after).1 in
    let same = publish-subscribers u (beside.stream_open (length u.subscribers)) in
    (
      h,
      refl,
      ground (arith, ap length same, more),
      refl,
      λ fresh.
          closed-subscribers met (publish u (beside.stream_open (length u.subscribers))) id
            (same ∙ rw fresh refl)
            (publish-closed u (beside.stream_open (length u.subscribers)) id ∙ ground arith) fresh,
    )

-- A request for the stream. It is told that there are too many exactly if 8 watch already, that the
-- connection cannot stream exactly if it cannot and fewer watch, and then nothing changes. Otherwise one
-- more watches at most than at its subscription, whatever came before that; the browser has got the
-- greeting, and then what is retained after its starting point, without the lines that cannot be
-- written, in order; and when it leaves at once, those who watch are those of before its subscription,
-- if the identity of that was not in use.
pub open_stream-Opened :
    (can_write : Line → Bool) (flushes : Bool) (beside : Beside) (after : ℕ) (bus : Bus)
    → Opened can_write flushes beside after bus (open_stream can_write flushes beside after bus)
unfolding open_stream
open_stream-Opened can_write flushes beside after bus =
    elim (Bool-cases (leb max_clients (subscriber_count bus))) [
      | inl e ↦ rw e (leb→le max_clients (subscriber_count bus) e, refl)
      | inr e ↦ rw e (flushed flushes (ground (arith, e)))
    ]
  where
    flushed :
        (b : Bool)
        → subscriber_count bus < max_clients
        → Opened can_write b beside after bus (
            if b
            then opened can_write beside.stream_open
                (replay_and_subscribe (at_subscription beside bus) after)
            else (unsupported, bus))
    flushed true h = subscribed-Opened can_write beside after bus h
    flushed false h = (h, refl, refl)
