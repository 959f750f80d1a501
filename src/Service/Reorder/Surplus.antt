-- ===== src/Service/Reorder/Surplus.antt =====
-- What `surplusHeld` decides.
use gas_management.Base.{
  ℕ, ◌<◌, ◌≡◌, sym, ap, subst, ◌↔◌, inl, inr, Bool, true, false, List, [], ◌∷◌, Key, Map, All-In,
  arith, leb, Bool-cases, if◌then◌else◌,
}
use mathlib.Core.Path.{ap₂}
use gas_management.Service.Tracker.{Tracker, HeldMetaTx}
use gas_management.Service.Tracker.Registry.{waiters, highest_held_locked}
use gas_management.Service.Tracker.Registry.Highest.{
  IsLastHighest, IsLastHighest-In, highest_held_locked-IsLastHighest,
}
use gas_management.Service.Tracker.Chains.{inflight_locked}
use gas_management.Service.Reorder.{max_inflight_per_user, is_entry, surplus_held}
use gas_management.Service.Reorder.Cap.{inflight_same}

-- A list has one last highest entry at most.
pub IsLastHighest-unique :
    (entries : ℕ → HeldMetaTx) (h k : ℕ) (xs : List ℕ)
    → IsLastHighest entries h xs
    → IsLastHighest entries k xs
    → h ≡ k
IsLastHighest-unique entries h k [] p q = absurd p
IsLastHighest-unique entries h k (x ∷ xs) (inl p) (inl q) = ground arith
IsLastHighest-unique entries h k (x ∷ xs) (inl p) (inr q) =
    let low =
      All-In (λ y. (entries y).nonce < (entries h).nonce) k xs p.1
        (IsLastHighest-In entries k xs q.1) in
    absurd (ground arith)
IsLastHighest-unique entries h k (x ∷ xs) (inr p) (inl q) =
    let low =
      All-In (λ y. (entries y).nonce < (entries k).nonce) h xs q.1
        (IsLastHighest-In entries h xs p.1) in
    absurd (ground arith)
IsLastHighest-unique entries h k (x ∷ xs) (inr p) (inr q) =
    IsLastHighest-unique entries h k xs p.1 q.1

highest_iff :
    (t : Tracker) (key : Key) (id : ℕ)
    → (is_entry id (highest_held_locked t key) ≡ true)
      ↔ IsLastHighest t.entries id (waiters t.held key)
highest_iff t key id = elim (highest_held_locked-IsLastHighest t key) [
  | inl (empty, e) ↦
      (λ h. absurd (ground arith), λ i. absurd (subst (IsLastHighest t.entries id) empty i))
  | inr (h, e, i) ↦ (
    λ p. subst (λ k. IsLastHighest t.entries k (waiters t.held key)) (ground arith) i,
    λ j. let same = IsLastHighest-unique t.entries h id (waiters t.held key) i j in ground arith,
  )
]

module _ (t : Tracker) (key : Key) (id now : ℕ) where
  abbrev Over : ℕ → Type 0
  Over m = m < (inflight_locked t key now).0

  abbrev IsTop : Tracker → Type 0
  IsTop u = IsLastHighest u.entries id (waiters u.held key)

  -- `surplus_held` at a cap `m`.
  abbrev surplus_at : ℕ → (ℕ × Bool) × Tracker
  surplus_at m =
      let (inflight, u) = inflight_locked t key now in
      if leb inflight m
      then ((inflight, false), u)
      else ((inflight, is_entry id (highest_held_locked u key)), u)

  abbrev Agrees : Bool → ℕ → Type 0 → Type 0
  Agrees b m T = (b ≡ true) ↔ (Over m × T)

  surplus_at_iff : (m : ℕ) → Agrees (surplus_at m).0.1 m (IsTop (inflight_locked t key now).1)
  surplus_at_iff m = elim (Bool-cases (leb (inflight_locked t key now).0 m)) [
    | inl e ↦ rw e (λ h. absurd (cc), λ h. absurd (ground arith))
    | inr e ↦ rw e (
      λ h. (ground arith, (highest_iff (inflight_locked t key now).1 key id).0 h),
      λ h. (highest_iff (inflight_locked t key now).1 key id).1 h.1,
    )
  ]

  IsTop-read : IsTop (inflight_locked t key now).1 ≡ IsTop t
  IsTop-read =
      let (held, entries, _, _) = inflight_same t key now in
      ap₂ (λ e (h : Map (List ℕ)). IsLastHighest e id (waiters h key)) entries held

  -- A held metatx is the one too many exactly if more are in flight than the cap allows and it is
  -- the highest held one of its user, the last to arrive among equals.
  pub surplus_held_iff : ((surplus_held t key id now).0.1 ≡ true) ↔ (
      (max_inflight_per_user t.config < (inflight_locked t key now).0)
      × IsLastHighest t.entries id (waiters t.held key))
  unfolding surplus_held
  surplus_held_iff =
      subst (λ m. Agrees (surplus_at m).0.1 (max_inflight_per_user t.config) (IsTop t))
        (ap max_inflight_per_user (sym (inflight_same t key now).2))
        (subst
          (Agrees (surplus_at (max_inflight_per_user t.config)).0.1
            (max_inflight_per_user t.config))
          IsTop-read (surplus_at_iff (max_inflight_per_user t.config)))
