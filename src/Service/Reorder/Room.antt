-- ===== src/Service/Reorder/Room.antt =====
-- What `makeRoomFor` decides, and what it leaves in flight.
use gas_management.Base.{
  ℕ, ◌≤◌, ◌<◌, ◌≡◌, ◌⊎◌, ◌↔◌, inl, inr, Bool, true, false, none, some, List, [], Key, arith, All,
  All-map, All-In, In, Map, subst, sym, ap, ltb, leb, Bool-cases, if◌then◌else◌,
}
use gas_management.Service.Tracker.{Tracker, HeldMetaTx}
use gas_management.Service.Tracker.Registry.{waiters, highest_held_locked, hold}
use gas_management.Service.Tracker.Registry.Highest.{
  IsLastHighest, IsLastHighest-All, IsLastHighest-In, highest_held_locked-IsLastHighest,
}
use gas_management.Service.Tracker.Registry.Evict.{Evicted, evict_held_locked-Evicted}
use gas_management.Service.Tracker.Chains.{inflight_locked}
use gas_management.Service.Reorder.{max_inflight_per_user, evict_above, make_room_for}
use gas_management.Service.Reorder.Cap.{
  inflight_same, inflight-reread, inflight-hold, inflight-Evicted,
}

module _ (t : Tracker) (key : Key) (nonce now : ℕ) where
  abbrev count : ℕ
  count = (inflight_locked t key now).0

  abbrev read : Tracker
  read = (inflight_locked t key now).1

  abbrev most : ℕ
  most = max_inflight_per_user t.config

  -- There is room; or the arriving metatx is the one too many; or the highest held one is.
  abbrev pub Decision : (ℕ × Bool) × Tracker → Type 0
  Decision r =
      ((count < most) × (r ≡ ((count, true), read)))
      ⊎ ((most ≤ count)
          × All (λ y. (t.entries y).nonce ≤ nonce) (waiters t.held key)
          × (r ≡ ((count, false), read)))
      ⊎ ((h : ℕ) × (most ≤ count)
          × IsLastHighest t.entries h (waiters t.held key)
          × (nonce < (t.entries h).nonce)
          × (r.0 ≡ (count, true))
          × Evicted read r.1 key h count)

  abbrev Found : (ℕ → HeldMetaTx) → Map (List ℕ) → Type 0
  Found entries held =
      ((waiters held key ≡ []) × (highest_held_locked read key ≡ none))
      ⊎ ((h : ℕ) × (highest_held_locked read key ≡ some h)
          × IsLastHighest entries h (waiters held key))

  found : Found t.entries t.held
  found =
      let (held, entries, _, _) = inflight_same t key now in
      subst (λ e. Found e t.held) entries
        (subst (Found read.entries) held (highest_held_locked-IsLastHighest read key))

  nonce_read : (h : ℕ) → (read.entries h).nonce ≡ (t.entries h).nonce
  nonce_read h = ap (λ (e : ℕ → HeldMetaTx). (e h).nonce) (inflight_same t key now).1

  All-read :
      (h : ℕ)
      → (t.entries h).nonce ≤ nonce
      → IsLastHighest t.entries h (waiters t.held key)
      → All (λ y. (t.entries y).nonce ≤ nonce) (waiters t.held key)
  All-read h low i =
      All-map (λ a (p : (t.entries a).nonce ≤ (t.entries h).nonce). omega arith)
        (waiters t.held key) (IsLastHighest-All t.entries h (waiters t.held key) i)

  evict_above-Decision :
      most ≤ count → Decision (evict_above (highest_held_locked read key) read key nonce count)
  unfolding evict_above
  evict_above-Decision full = elim found [
    | inl (empty, e) ↦ inr (inl (full, rw empty tt, rw (e, evict_above)))
    | inr (h, e, i) ↦ elim (Bool-cases (leb (read.entries h).nonce nonce)) [
      | inl low ↦
          inr (inl (full, All-read h (ground (arith, nonce_read h)) i, rw (e, evict_above, low)))
      | inr high ↦ inr (
          inr (
            h,
            full,
            i,
            ground (arith, nonce_read h),
            rw (e, evict_above, high),
            rw (e, evict_above, high) (evict_held_locked-Evicted read key h count),
          ))
    ]
  ]

  -- `make_room_for` at a cap `m`.
  abbrev room_at : ℕ → (ℕ × Bool) × Tracker
  room_at m =
      if ltb count m
      then ((count, true), read)
      else evict_above (highest_held_locked read key) read key nonce count

  room_at-Decision : Decision (room_at most)
  room_at-Decision = elim (Bool-cases (ltb count most)) [
    | inl room ↦ inl (ground arith, rw room)
    | inr full ↦ rw full (evict_above-Decision (ground arith))
  ]

  -- With room under the cap the arriving metatx is admitted and nothing changes. At the cap the one
  -- of highest nonce among the arriving and the held ones has to go: the arriving one is refused
  -- exactly when no held metatx of its user has a higher nonce, and otherwise the highest held one,
  -- the last to arrive among equals, is evicted, and no other.
  pub make_room_for-Decision : Decision (make_room_for t key nonce now)
  unfolding make_room_for
  make_room_for-Decision =
      subst (λ m. Decision (room_at m)) (ap max_inflight_per_user (sym (inflight_same t key now).2))
        room_at-Decision

module _ (t : Tracker) (key : Key) (nonce now : ℕ) where
  no_higher :
      max_inflight_per_user t.config ≤ (inflight_locked t key now).0
      → All (λ y. (t.entries y).nonce ≤ nonce) (waiters t.held key)
      → ¬ (
          ((inflight_locked t key now).0 < max_inflight_per_user t.config)
          ⊎ ((h : ℕ) × In h (waiters t.held key) × (nonce < (t.entries h).nonce)))
  no_higher full low (inl room) = omega arith
  no_higher full low (inr (h, i, up)) =
      let p = All-In (λ y. (t.entries y).nonce ≤ nonce) h (waiters t.held key) low i in omega arith

  -- The arriving metatx is admitted exactly if there is room, or a held one of its user has a
  -- higher nonce.
  pub make_room_for-admits_iff : ((make_room_for t key nonce now).0.1 ≡ true) ↔ (
      ((inflight_locked t key now).0 < max_inflight_per_user t.config)
      ⊎ ((h : ℕ) × In h (waiters t.held key) × (nonce < (t.entries h).nonce)))
  make_room_for-admits_iff = elim (make_room_for-Decision t key nonce now) [
    | inl d ↦ (λ _. inl d.0, λ _. ap (λ (r : (ℕ × Bool) × Tracker). r.0.1) d.1)
    | inr (inl (full, low, e)) ↦ (λ yes'. absurd (ground arith), λ q. absurd (no_higher full low q))
    | inr (inr (h, full, i, up, e, _)) ↦ (
      λ _. inr (h, IsLastHighest-In t.entries h (waiters t.held key) i, up),
      λ _. ap (λ (r : ℕ × Bool). r.1) e,
    )
  ]

  -- The cap is kept: a metatx that is admitted and then held leaves no more in flight than the cap,
  -- if no more were in flight before.
  pub make_room_for-hold_le :
      (inflight_locked t key now).0 ≤ max_inflight_per_user t.config
      → (make_room_for t key nonce now).0.1 ≡ true
      → (inflight_locked (hold (make_room_for t key nonce now).1 key nonce).1 key now).0
        ≤ max_inflight_per_user t.config
  make_room_for-hold_le within admitted = elim (make_room_for-Decision t key nonce now) [
    | inl (room, e) ↦ rw e (omega (arith, inflight-hold _ key nonce now, inflight-reread t key now))
    | inr (inl (full, low, e)) ↦ absurd (ground arith)
    | inr (inr (h, full, i, up, e, v)) ↦ omega (
      arith,
      inflight-hold (make_room_for t key nonce now).1 key nonce now,
      inflight-Evicted (inflight_locked t key now).1 (make_room_for t key nonce now).1 key h
          (inflight_locked t key now).0 now v
          (subst (λ held. In h (waiters held key)) (sym (inflight_same t key now).0)
            (IsLastHighest-In t.entries h (waiters t.held key) i)),
      inflight-reread t key now,
    )
  ]
