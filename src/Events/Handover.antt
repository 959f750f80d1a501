-- ===== src/Events/Handover.antt =====
-- From what is retained to what is sent.
use gas_management.Base.{
  ℕ, ◌+◌, ◌≤◌, ◌<◌, ◌≡◌, ◌≢◌, refl, sym, ap, ◌∙◌, true, List, [], ◌∷◌, ◌++◌, length, length-append,
  append_nil, append-append, arith,
}
use mathlib.Core.Path.{ap₂}
use native.Mathlib.Nat.{mod-eq_of_lt}
use gas_management.Base.Int.{u64, u64_mod}
use gas_management.Base.Ids.{contains, contains-append}
use gas_management.Events.{
  Event, Channel, Line, Bus, new_bus, new_channel, event_of, offer, publish, publish_locked,
  publish_lines, retained, replay, replay_and_subscribe, no_replay,
}
use gas_management.Events.Ring.{last, after_seq}
use gas_management.Events.Replay.{
  numbered, publish-enabled, publish_locked_numbers, publish_lines-Published, new_bus-IsRing,
  new_bus_facts, replay-publish_lines,
}
use gas_management.Events.Watch.{
  IsBus, new_bus-IsBus, publish-IsBus, publish_locked-IsBus, publish_locked-channel,
  publish_locked-subscribers, replay_and_subscribe-IsBus,
}

offer-buffer :
    (e : Event) (c : Channel) → length c.buffer < 256 → (offer e c).buffer ≡ c.buffer ++ (e ∷ [])
offer-buffer e c h = ground arith

-- A subscriber that has room for all of them has the events of all the lines in its buffer.
publish_lines-buffer :
    (b : Bus) (id : ℕ) (lines : List Line)
    → IsBus b
    → b.enabled ≡ true
    → contains id b.subscribers ≡ true
    → length (b.channels id).buffer + length lines ≤ 256
    → b.sequence + length lines < u64_mod
    → ((publish_lines b lines).channels id).buffer
      ≡ (b.channels id).buffer ++ numbered b.sequence lines
unfolding publish_lines numbered
publish_lines-buffer b id [] w e i r h = sym (append_nil (b.channels id).buffer)
publish_lines-buffer b id (line ∷ lines) w e i r h =
    let (sequence, _, enabled) = publish_locked_numbers b line in
    let next : (u64 (b.sequence + 1) ≡ b.sequence + 1) = mod-eq_of_lt (omega arith) in
    let u = publish_locked b line in
    let sent : ((u.channels id).buffer
        ≡ (b.channels id).buffer ++ (event_of (u64 (b.sequence + 1)) line ∷ [])) =
      ground (
        arith,
        publish_locked-channel b line w id,
        offer-buffer (event_of (u64 (b.sequence + 1)) line) (b.channels id),
      ) in
    ap (λ (v : Bus). ((publish_lines v lines).channels id).buffer) (publish-enabled b line e)
    ∙ publish_lines-buffer u id lines (publish_locked-IsBus b line w) (enabled ∙ e)
        (ap (contains id) (publish_locked-subscribers b line) ∙ i)
        (omega (
          arith,
          ap length sent,
          length-append (b.channels id).buffer (event_of (u64 (b.sequence + 1)) line ∷ []),
        ))
        (omega arith)
    ∙ ap₂ (λ xs n. xs ++ numbered n lines) sent (sequence ∙ next)
    ∙ append-append (b.channels id).buffer (event_of (u64 (b.sequence + 1)) line ∷ [])
        (numbered (b.sequence + 1) lines)
    ∙ ap (λ n. (b.channels id).buffer ++ (event_of n line ∷ numbered (b.sequence + 1) lines)) next

publish_lines-IsBus : (b : Bus) (lines : List Line) → IsBus b → IsBus (publish_lines b lines)
unfolding publish_lines
publish_lines-IsBus b [] w = w
publish_lines-IsBus b (line ∷ lines) w =
    publish_lines-IsBus (publish b line) lines (publish-IsBus b line w)

module _ (b : Bus) (after : ℕ) where
  subscribed :
      let ((kept, id), u) = replay_and_subscribe b after in
      (kept ≡ retained b after)
      × (u.channels id ≡ new_channel)
      × (contains id u.subscribers ≡ true)
      × (u.enabled ≡ b.enabled)
      × (u.sequence ≡ b.sequence)
  unfolding replay_and_subscribe
  subscribed = (
    refl,
    ground arith,
    ground (arith, contains-append (u64 (b.next_id + 1)) (u64 (b.next_id + 1)) b.subscribers),
    refl,
    refl,
  )

-- On a bus that was new and is on, of a capacity that is not 0: who asks for what is retained after a
-- number, other than the one that asks for nothing, and subscribes, has, with what is buffered for him
-- then, all events of a later number that the bus had retained and all that came after, each once and
-- in order of publication: as long as no more than 256 came, which is what the buffer holds, none of
-- them is delivered yet, and fewer than 2 ^ 64 were published in all.
pub replay_and_subscribe-gapless :
    (capacity after : ℕ) (earlier later : List Line)
    → 0 < capacity
    → after ≢ no_replay
    → length earlier + length later < u64_mod
    → length later ≤ 256
    → let ((kept, id), bus) =
        replay_and_subscribe (publish_lines (new_bus true capacity) earlier) after in
      kept ++ ((publish_lines bus later).channels id).buffer
      ≡ after_seq after (last capacity (numbered 0 earlier)) ++ numbered (length earlier) later
replay_and_subscribe-gapless capacity after earlier later c a h r =
    let b = publish_lines (new_bus true capacity) earlier in
    let (enabled, sequence, _, _) = new_bus_facts capacity c in
    let p =
      publish_lines-Published (new_bus true capacity) earlier enabled (new_bus-IsRing capacity c)
        (omega arith) in
    let (kept, fresh, registered, on, number) = subscribed b after in
    let ((_, id), u) = replay_and_subscribe b after in
    let w =
      replay_and_subscribe-IsBus b after
        (publish_lines-IsBus (new_bus true capacity) earlier (new_bus-IsBus true capacity)) in
    let empty = ap (λ (c : Channel). c.buffer) fresh in
    let counted : (u.sequence ≡ length earlier) = omega (arith, number, p.sequence, sequence) in
    let asked : (retained b after ≡ replay b after) = ground arith in
    ap₂ (λ xs ys. xs ++ ys)
      (kept ∙ asked ∙ replay-publish_lines capacity after earlier c (omega arith))
      (publish_lines-buffer u id later w (on ∙ p.enabled) registered
          (omega (arith, ap length empty)) (omega arith)
        ∙ ap₂ (λ xs n. xs ++ numbered n later) empty counted)
