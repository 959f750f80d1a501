-- ===== src/Events/Ring.antt =====
-- The ring beside the list of the last events: retaining, and replaying.
use gas_management.Base.{
  ℕ, zero, suc, ◌+◌, ◌-◌, ◌%◌, ◌≤◌, ◌<◌, ◌≡◌, ◌≢◌, refl, sym, subst, ap, ◌∙◌, inl, inr, List, [],
  ◌∷◌, ◌++◌, length, length-append, drop, ltb, Bool-cases, arith, if◌then◌else◌,
}
use mathlib.Core.Path.{ap₂}
use native.Mathlib.Nat.{mod-eq_of_lt, mod-eq-sub-mod, mod-add-mod, mod-lt}
use gas_management.Events.{Event, Bus, set_slot, retain, replay_from, replay}

-- `n` slots of the ring from `a` on.
unfoldable pub slots : (ℕ → Event) → ℕ → ℕ → ℕ → List Event
slots ring c a zero = []
slots ring c a (suc n) = ring (a % c) ∷ slots ring c (a + 1) n

-- The events that the bus retains, the oldest first.
abbrev pub held : Bus → List Event
held bus = slots bus.ring bus.capacity bus.start bus.size

unfoldable pub after_seq : ℕ → List Event → List Event
after_seq after [] = []
after_seq after (event ∷ events) =
    let rest = after_seq after events in if ltb after event.seq then event ∷ rest else rest

unfoldable pub last : ℕ → List Event → List Event
last n events = drop (length events - n) events

pub length-slots : (ring : ℕ → Event) (c a n : ℕ) → length (slots ring c a n) ≡ n
unfolding slots
length-slots ring c a zero = refl
length-slots ring c a (suc n) = omega (arith, length-slots ring c (a + 1) n)

slots-snoc :
    (ring : ℕ → Event) (c a n : ℕ)
    → slots ring c a (suc n) ≡ slots ring c a n ++ (ring ((a + n) % c) ∷ [])
unfolding slots
slots-snoc ring c a zero = ap (λ m. ring (m % c) ∷ []) (omega arith)
slots-snoc ring c a (suc n) =
    ap (λ t. ring (a % c) ∷ t)
      (slots-snoc ring c (a + 1) n
        ∙ ap (λ m. slots ring c (a + 1) n ++ (ring (m % c) ∷ [])) (omega arith))

mod_twice : (a c : ℕ) → a < c + c → a % c ≡ (if ltb a c then a else a - c)
mod_twice a c h = elim (Bool-cases (ltb a c)) [
  | inl e ↦ rw e (mod-eq_of_lt (ground arith))
  | inr e ↦ rw e (mod-eq-sub-mod (ground arith) ∙ mod-eq_of_lt (ground arith))
]

slots-set_slot :
    (ring : ℕ → Event) (c a n i : ℕ) (event : Event)
    → ((k : ℕ) → k < n → (a + k) % c ≢ i)
    → slots (set_slot i event ring) c a n ≡ slots ring c a n
unfolding slots
slots-set_slot ring c a zero i event h = refl
slots-set_slot ring c a (suc n) i event h =
    ap₂ (λ x t. x ∷ t)
      (let apart : (a % c ≢ i) = λ e. h 0 (omega arith) (ap (λ m. m % c) (omega arith) ∙ e) in
        ground arith)
      (slots-set_slot ring c (a + 1) n i event
        (λ k l e. h (suc k) (omega arith) (ap (λ m. m % c) (omega arith) ∙ e)))

slots-shift :
    (ring : ℕ → Event) (c a b n : ℕ)
    → ((k : ℕ) → k < n → (a + k) % c ≡ (b + k) % c)
    → slots ring c a n ≡ slots ring c b n
unfolding slots
slots-shift ring c a b zero h = refl
slots-shift ring c a b (suc n) h =
    ap₂ (λ x t. x ∷ t)
      (ap ring (ap (λ m. m % c) (omega arith) ∙ h 0 (omega arith) ∙ ap (λ m. m % c) (omega arith)))
      (slots-shift ring c (a + 1) (b + 1) n (λ k l.
        ap (λ m. m % c) (omega arith) ∙ h (suc k) (omega arith) ∙ ap (λ m. m % c) (omega arith)))

replay_from-after_seq :
    (bus : Bus) (after n offset : ℕ)
    → replay_from bus after n offset
      ≡ after_seq after (slots bus.ring bus.capacity (bus.start + offset) n)
unfolding replay_from after_seq slots
replay_from-after_seq bus after zero offset = refl
replay_from-after_seq bus after (suc n) offset =
    ap
      (λ rest.
        let event = bus.ring ((bus.start + offset) % bus.capacity) in
        if ltb after event.seq then event ∷ rest else rest)
      (replay_from-after_seq bus after n (offset + 1)
        ∙ ap (λ m. after_seq after (slots bus.ring bus.capacity m n)) (omega arith))

-- What is replayed are the retained events of a later sequence number, in order.
pub replay-after_seq : (bus : Bus) (after : ℕ) → replay bus after ≡ after_seq after (held bus)
unfolding replay
replay-after_seq bus after =
    replay_from-after_seq bus after bus.size 0
    ∙ ap (λ m. after_seq after (slots bus.ring bus.capacity m bus.size)) (omega arith)

-- The ring is within its bounds.
pub record IsRing (bus : Bus) : Type 0 where
  pub some_capacity : 0 < bus.capacity
  pub start_lt : bus.start < bus.capacity
  pub size_le : bus.size ≤ bus.capacity

-- A write at the end of the retained events hits none of them.
end_apart : (c a n k : ℕ) → a < c → n < c → k < n → (a + k) % c ≢ (a + n) % c
end_apart c a n k h l m e =
    ground (arith, mod_twice (a + k) c (omega arith), mod_twice (a + n) c (omega arith))

set_slot_self : (ring : ℕ → Event) (i : ℕ) (event : Event) → set_slot i event ring i ≡ event
set_slot_self ring i event = ground arith

module _ (ring : ℕ → Event) (c a : ℕ) (event : Event) (h : a < c) where
  slots-room :
      (n : ℕ)
      → n < c
      → slots (set_slot ((a + n) % c) event ring) c a (n + 1) ≡ slots ring c a n ++ (event ∷ [])
  slots-room n room =
      ap (slots (set_slot ((a + n) % c) event ring) c a) (omega arith)
      ∙ slots-snoc (set_slot ((a + n) % c) event ring) c a n
      ∙ ap₂ (λ xs x. xs ++ (x ∷ []))
          (slots-set_slot ring c a n ((a + n) % c) event (λ k l. end_apart c a n k h room l))
          (set_slot_self ring ((a + n) % c) event)

  -- The slots after the oldest are not the one that the write hits, once around.
  later_apart : (m k : ℕ) → c ≡ suc m → k < m → (a + 1 + k) % c ≢ (a + suc m) % c
  later_apart m k full l e =
      ground (arith, mod_twice (a + 1 + k) c (omega arith), mod_twice (a + suc m) c (omega arith))

  slots-full :
      (m : ℕ)
      → c ≡ suc m
      → slots (set_slot ((a + suc m) % c) event ring) c ((a + 1) % c) (suc m)
        ≡ drop 1 (slots ring c a (suc m) ++ (event ∷ []))
  unfolding slots
  slots-full m full =
      let new = set_slot ((a + suc m) % c) event ring in
      slots-shift new c ((a + 1) % c) (a + 1) (suc m) (λ k l. mod-add-mod (a + 1) c k)
      ∙ slots-snoc new c (a + 1) m
      ∙ ap₂ (λ xs x. xs ++ (x ∷ []))
          (slots-set_slot ring c (a + 1) m ((a + suc m) % c) event (λ k l. later_apart m k full l))
          (ap (λ j. new (j % c)) (omega arith) ∙ set_slot_self ring ((a + suc m) % c) event)

module _ (bus : Bus) (event : Event) (w : IsRing bus) where
  length-held : length (held bus ++ (event ∷ [])) ≡ bus.size + 1
  length-held = omega (
    arith,
    length-append (held bus) (event ∷ []),
    length-slots bus.ring bus.capacity bus.start bus.size,
  )

  retain-full :
      (m : ℕ)
      → bus.size ≡ suc m
      → bus.capacity ≡ suc m
      → slots
          (set_slot ((bus.start + bus.size) % bus.capacity) event bus.ring)
          bus.capacity
          ((bus.start + 1) % bus.capacity)
          bus.size
        ≡ drop 1 (held bus ++ (event ∷ []))
  retain-full m e full =
      subst
        (λ n.
          slots (set_slot ((bus.start + n) % bus.capacity) event bus.ring) bus.capacity
            ((bus.start + 1) % bus.capacity) n
          ≡ drop 1 (slots bus.ring bus.capacity bus.start n ++ (event ∷ [])))
        (sym e) (slots-full bus.ring bus.capacity bus.start event w.start_lt m full)

  -- A write keeps the last events, as many as the capacity says.
  pub retain-last : held (retain bus event) ≡ last bus.capacity (held bus ++ (event ∷ []))
  unfolding retain last
  retain-last =
      let all = held bus ++ (event ∷ []) in
      elim (Bool-cases (ltb bus.size bus.capacity)) [
        | inl room ↦
            let fits : (0 ≡ length all - bus.capacity) = ground (arith, length-held) in
            rw room (
              slots-room bus.ring bus.capacity bus.start event w.start_lt bus.size (ground arith)
              ∙ ap (λ n. drop n all) fits)
        | inr full ↦
            let size_le = w.size_le in
            let one_over : (1 ≡ length all - bus.capacity) = ground (arith, length-held) in
            rw full (
              retain-full (bus.capacity - 1) (ground (arith, w.some_capacity))
                (ground (arith, w.some_capacity))
              ∙ ap (λ n. drop n all) one_over)
      ]

  pub retain-IsRing : IsRing (retain bus event)
  unfolding retain
  retain-IsRing = record {
    some_capacity = ground (arith, w.some_capacity);
    start_lt = ground (arith, w.some_capacity, w.start_lt, mod-lt (bus.start + 1) w.some_capacity);
    size_le = ground (arith, w.size_le);
  }
