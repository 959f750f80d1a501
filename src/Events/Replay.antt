-- ===== src/Events/Replay.antt =====
-- What is replayed after a number of publications.
use mathlib.Core.Path.{ap₂}
use native.Mathlib.Nat.{mod-eq_of_lt}
use gas_management.Base.{
  ℕ, zero, suc, ◌+◌, ◌-◌, ◌≤◌, ◌<◌, ◌≡◌, refl, sym, ap, subst, ◌∙◌, true, List, [], ◌∷◌, ◌++◌,
  length, length-append, append_nil, append-append, drop, arith, if◌then◌else◌,
}
use gas_management.Base.Int.{u64, u64_mod}
use gas_management.Events.{
  Event, Line, Bus, new_bus, event_of, retain, publish, publish_locked, publish_lines, replay,
}
use gas_management.Events.Ring.{
  held, slots, length-slots, last, after_seq, IsRing, retain-last, retain-IsRing, replay-after_seq,
}
use gas_management.Events.Sends.{Sent, send_all-Sent}

-- The events of the lines, numbered one by one after `n`.
unfoldable pub numbered : ℕ → List Line → List Event
numbered n [] = []
numbered n (line ∷ lines) = event_of (n + 1) line ∷ numbered (n + 1) lines

drop_nil : (n : ℕ) → drop {A = Event} n [] ≡ []
drop_nil zero = refl
drop_nil (suc n) = refl

drop-drop : (m n : ℕ) (xs : List Event) → drop m (drop n xs) ≡ drop (n + m) xs
drop-drop m zero xs = ap (λ k. drop k xs) (omega arith)
drop-drop m (suc n) [] = drop_nil m ∙ sym (drop_nil (suc n + m))
drop-drop m (suc n) (x ∷ xs) =
    let e : (suc (n + m) ≡ suc n + m) = omega arith in
    drop-drop m n xs ∙ ap (λ k. drop k (x ∷ xs)) e

drop-within : (n : ℕ) (xs ys : List Event) → n ≤ length xs → drop n xs ++ ys ≡ drop n (xs ++ ys)
drop-within zero xs ys h = refl
drop-within (suc n) [] ys h = absurd (omega arith)
drop-within (suc n) (x ∷ xs) ys h = drop-within n xs ys (omega arith)

length-drop : (n : ℕ) (xs : List Event) → length (drop n xs) ≡ length xs - n
length-drop zero xs = omega arith
length-drop (suc n) [] = omega arith
length-drop (suc n) (x ∷ xs) = omega (arith, length-drop n xs)

-- The last ones of what follows the last ones.
last-last : (c : ℕ) (xs ys : List Event) → last c (last c xs ++ ys) ≡ last c (xs ++ ys)
unfolding last
last-last c xs ys =
    let n = length xs - c in
    ap (λ zs. drop (length zs - c) zs) (drop-within n xs ys (omega arith))
    ∙ drop-drop (length (drop n (xs ++ ys)) - c) n (xs ++ ys)
    ∙ ap (λ k. drop k (xs ++ ys)) (omega (arith, length-drop n (xs ++ ys), length-append xs ys))

abbrev started : Bus → Line → Bus
started bus line =
    retain (record bus { sequence = u64 (bus.sequence + 1) })
      (event_of (u64 (bus.sequence + 1)) line)

module _ (bus : Bus) (line : Line) where
  publish_locked-Sent : Sent (started bus line) (publish_locked bus line)
  unfolding publish_locked
  publish_locked-Sent =
      send_all-Sent bus.subscribers (started bus line) (event_of (u64 (bus.sequence + 1)) line)

  retain_numbers :
      (b : Bus) (event : Event)
      → ((retain b event).sequence ≡ b.sequence)
        × ((retain b event).capacity ≡ b.capacity)
        × ((retain b event).enabled ≡ b.enabled)
  unfolding retain
  retain_numbers b event = ground arith

  pub publish_locked_numbers :
      ((publish_locked bus line).sequence ≡ u64 (bus.sequence + 1))
      × ((publish_locked bus line).capacity ≡ bus.capacity)
      × ((publish_locked bus line).enabled ≡ bus.enabled)
  publish_locked_numbers =
      let s = publish_locked-Sent in
      let (sequence, capacity, enabled) =
        retain_numbers (record bus { sequence = u64 (bus.sequence + 1) })
          (event_of (u64 (bus.sequence + 1)) line) in
      (s.sequence ∙ sequence, s.capacity ∙ capacity, s.enabled ∙ enabled)

held-Sent : (b u : Bus) → Sent b u → held u ≡ held b
held-Sent b u s =
    ap₂ (λ ring capacity. slots ring capacity u.start u.size) s.ring s.capacity
    ∙ ap₂ (slots b.ring b.capacity) s.start s.size

IsRing-Sent : (b u : Bus) → Sent b u → IsRing b → IsRing u
IsRing-Sent b u s w = record {
  some_capacity = ground (arith, s.capacity, w.some_capacity);
  start_lt = ground (arith, s.capacity, s.start, w.start_lt);
  size_le = ground (arith, s.capacity, s.size, w.size_le);
}

-- The bus with its next sequence number is a ring as it was.
IsRing-numbered : (bus : Bus) (n : ℕ) → IsRing bus → IsRing (record bus { sequence = n })
IsRing-numbered bus n w = record {
  some_capacity = w.some_capacity;
  start_lt = w.start_lt;
  size_le = w.size_le;
}

publish_locked-held :
    (bus : Bus) (line : Line)
    → IsRing bus
    → held (publish_locked bus line)
      ≡ last bus.capacity (held bus ++ (event_of (u64 (bus.sequence + 1)) line ∷ []))
publish_locked-held bus line w =
    held-Sent (started bus line) (publish_locked bus line) (publish_locked-Sent bus line)
    ∙ retain-last (record bus { sequence = u64 (bus.sequence + 1) })
        (event_of (u64 (bus.sequence + 1)) line) (IsRing-numbered bus _ w)

publish_locked-IsRing : (bus : Bus) (line : Line) → IsRing bus → IsRing (publish_locked bus line)
publish_locked-IsRing bus line w =
    IsRing-Sent (started bus line) (publish_locked bus line) (publish_locked-Sent bus line) (
      retain-IsRing (record bus { sequence = u64 (bus.sequence + 1) })
        (event_of (u64 (bus.sequence + 1)) line) (IsRing-numbered bus _ w))

-- What `lines` leave of a bus `b` in `u`: the last events, and the number of the last one.
pub record Published (b u : Bus) (lines : List Line) : Type 0 where
  pub events : held u ≡ last b.capacity (held b ++ numbered b.sequence lines)
  pub sequence : u.sequence ≡ b.sequence + length lines
  pub capacity : u.capacity ≡ b.capacity
  pub enabled : u.enabled ≡ true
  pub ring : IsRing u

last-held : (bus : Bus) → IsRing bus → last bus.capacity (held bus) ≡ held bus
unfolding last
last-held bus w =
    let fits : (length (held bus) - bus.capacity ≡ 0) =
      ground (arith, length-slots bus.ring bus.capacity bus.start bus.size, w.size_le) in
    ap (λ n. drop n (held bus)) fits

publish_lines-cons :
    (b u : Bus) (line : Line) (lines : List Line)
    → IsRing b
    → b.sequence + suc (length lines) < u64_mod
    → Published (publish_locked b line) u lines
    → Published b u (line ∷ lines)
unfolding numbered
publish_lines-cons b u line lines w h p =
    let (sequence, capacity, enabled) = publish_locked_numbers b line in
    let next : (u64 (b.sequence + 1) ≡ b.sequence + 1) = mod-eq_of_lt (omega arith) in
    record {
      events =
          p.events
          ∙ ap₂ (λ c n. last c (held (publish_locked b line) ++ numbered n lines)) capacity
              (sequence ∙ next)
          ∙ ap (λ xs. last b.capacity (xs ++ numbered (b.sequence + 1) lines))
              (publish_locked-held b line w
                ∙ ap (λ n. last b.capacity (held b ++ (event_of n line ∷ []))) next)
          ∙ last-last b.capacity (held b ++ (event_of (b.sequence + 1) line ∷ []))
              (numbered (b.sequence + 1) lines)
          ∙ ap (last b.capacity) (
              append-append (held b) (event_of (b.sequence + 1) line ∷ [])
                (numbered (b.sequence + 1) lines));
      sequence = omega (arith, p.sequence, sequence, next);
      capacity = p.capacity ∙ capacity;
      enabled = p.enabled;
      ring = p.ring;
    }

pub publish-enabled :
    (bus : Bus) (line : Line) → bus.enabled ≡ true → publish bus line ≡ publish_locked bus line
unfolding publish
publish-enabled bus line e = ap (λ on. if on then publish_locked bus line else bus) e

pub publish_lines-Published :
    (b : Bus) (lines : List Line)
    → b.enabled ≡ true
    → IsRing b
    → b.sequence + length lines < u64_mod
    → Published b (publish_lines b lines) lines
unfolding publish_lines numbered
publish_lines-Published b [] e w h = record {
  events = sym (last-held b w) ∙ ap (last b.capacity) (sym (append_nil (held b)));
  sequence = omega arith;
  capacity = refl;
  enabled = e;
  ring = w;
}
publish_lines-Published b (line ∷ lines) e w h =
    let (sequence, _, enabled) = publish_locked_numbers b line in
    let next : (u64 (b.sequence + 1) ≡ b.sequence + 1) = mod-eq_of_lt (omega arith) in
    subst (λ u. Published b (publish_lines u lines) (line ∷ lines)) (sym (publish-enabled b line e))
      (publish_lines-cons b (publish_lines (publish_locked b line) lines) line lines w h (
        publish_lines-Published (publish_locked b line) lines (enabled ∙ e)
          (publish_locked-IsRing b line w) (omega arith)))

pub new_bus-IsRing : (capacity : ℕ) → 0 < capacity → IsRing (new_bus true capacity)
unfolding new_bus
new_bus-IsRing capacity h = record { some_capacity = h; start_lt = h; size_le = omega arith }

pub new_bus_facts :
    (capacity : ℕ)
    → 0 < capacity
    → ((new_bus true capacity).enabled ≡ true)
      × ((new_bus true capacity).sequence ≡ 0)
      × ((new_bus true capacity).capacity ≡ capacity)
      × (held (new_bus true capacity) ≡ [])
unfolding new_bus slots
new_bus_facts capacity h = (ground arith, refl, refl, refl)

-- Of the lines published on a new bus that is on, with fewer than 2 ^ 64 of them, exactly these are
-- replayed after a number: of the last ones, as many as the capacity says, those of a later number,
-- in the order of publication. The lines are numbered from 1 on.
pub replay-publish_lines :
    (capacity after : ℕ) (lines : List Line)
    → 0 < capacity
    → length lines < u64_mod
    → replay (publish_lines (new_bus true capacity) lines) after
      ≡ after_seq after (last capacity (numbered 0 lines))
replay-publish_lines capacity after lines h l =
    let (enabled, sequence, size, empty) = new_bus_facts capacity h in
    let p =
      publish_lines-Published (new_bus true capacity) lines enabled (new_bus-IsRing capacity h)
        (omega arith) in
    replay-after_seq (publish_lines (new_bus true capacity) lines) after
    ∙ ap (after_seq after) (
        p.events
        ∙ ap₂ (λ c n. last c (held (new_bus true capacity) ++ numbered n lines)) size sequence
        ∙ ap (λ xs. last capacity (xs ++ numbered 0 lines)) empty)
