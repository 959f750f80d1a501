-- ===== src/Service/Tracker/Registry/Highest.antt =====
-- What `highestHeldLocked` finds.
use gas_management.Base.{
  ℕ, ◌≤◌, ◌<◌, ◌≡◌, refl, ◌⊎◌, inl, inr, none, some, List, [], ◌∷◌, Key, All, All-map, In, arith,
  leb, Bool-cases,
}
use gas_management.Service.Tracker.{Tracker, HeldMetaTx}
use gas_management.Service.Tracker.Registry.{waiters, highest_from, highest_held_locked}

-- `h` stands in the list with no higher nonce in it, and with only lower nonces behind it.
abbrev pub IsLastHighest : (ℕ → HeldMetaTx) → ℕ → List ℕ → Type 0
IsLastHighest entries h [] = ⊥
IsLastHighest entries h (x ∷ xs) =
    ((h ≡ x) × All (λ y. (entries y).nonce < (entries h).nonce) xs)
    ⊎ (((entries x).nonce ≤ (entries h).nonce) × IsLastHighest entries h xs)

module _ (entries : ℕ → HeldMetaTx) where
  -- The outcome of the loop from a best entry `b`.
  abbrev Outcome : ℕ → List ℕ → ℕ → Type 0
  Outcome b xs h =
      ((h ≡ b) × All (λ y. (entries y).nonce < (entries b).nonce) xs)
      ⊎ (IsLastHighest entries h xs × ((entries b).nonce ≤ (entries h).nonce))

  highest_from-Outcome :
      (b : ℕ) (xs : List ℕ) → (h : ℕ) × (highest_from entries (some b) xs ≡ some h) × Outcome b xs h
  unfolding highest_from
  highest_from-Outcome b [] = (b, refl, inl (refl, tt))
  highest_from-Outcome b (x ∷ xs) = elim (Bool-cases (leb (entries b).nonce (entries x).nonce)) [
    | inl up ↦ let (h, e, o) = highest_from-Outcome x xs in (h, ground arith, ground arith)
    | inr down ↦ let (h, e, o) = highest_from-Outcome b xs in (h, ground arith, ground arith)
  ]

  highest_from-none :
      (xs : List ℕ)
      → ((xs ≡ []) × (highest_from entries none xs ≡ none))
        ⊎ ((h : ℕ) × (highest_from entries none xs ≡ some h) × IsLastHighest entries h xs)
  unfolding highest_from
  highest_from-none [] = inl (refl, refl)
  highest_from-none (x ∷ xs) = let (h, e, o) = highest_from-Outcome x xs in inr (h, e, ground arith)

  pub IsLastHighest-In : (h : ℕ) (xs : List ℕ) → IsLastHighest entries h xs → In h xs
  IsLastHighest-In h [] i = absurd i
  IsLastHighest-In h (x ∷ xs) (inl i) = inl i.0
  IsLastHighest-In h (x ∷ xs) (inr i) = inr (IsLastHighest-In h xs i.1)

  -- No entry of the list has a higher nonce.
  pub IsLastHighest-All :
      (h : ℕ) (xs : List ℕ)
      → IsLastHighest entries h xs
      → All (λ y. (entries y).nonce ≤ (entries h).nonce) xs
  IsLastHighest-All h [] i = tt
  IsLastHighest-All h (x ∷ xs) (inl i) =
      (ground arith, All-map (λ a (p : (entries a).nonce < (entries h).nonce). omega arith) xs i.1)
  IsLastHighest-All h (x ∷ xs) (inr i) = (i.0, IsLastHighest-All h xs i.1)

-- The highest held metatx is none exactly for a user who holds none, and otherwise the one of
-- highest nonce, the last to arrive among equals.
pub highest_held_locked-IsLastHighest :
    (t : Tracker) (key : Key)
    → ((waiters t.held key ≡ []) × (highest_held_locked t key ≡ none))
      ⊎ ((h : ℕ) × (highest_held_locked t key ≡ some h)
          × IsLastHighest t.entries h (waiters t.held key))
unfolding highest_held_locked
highest_held_locked-IsLastHighest t key = highest_from-none t.entries (waiters t.held key)
