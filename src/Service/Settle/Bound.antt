-- ===== src/Service/Settle/Bound.antt =====
-- How much the memory of sent metatx holds.
use gas_management.Base.{
  ℕ, ◌-◌, ◌≤◌, ◌<◌, ◌≡◌, refl, sym, subst, ◌∙◌, ◌⊎◌, inl, inr, Option, [], ◌∷◌, Key, length, ltb,
  arith, Bool-cases,
}
use gas_management.Service.Settle.{
  Memory, MetaTxEntry, erase, drop_old, oldest_from, drop_oldest, evict_locked, remember_meta_tx,
  meta_tx_memory_max,
}

length-erase : (hash : ℕ) (m : Memory) → length (erase hash m) ≤ length m
unfolding erase
length-erase hash [] = omega arith
length-erase hash ((h, e) ∷ m) = ground (arith, length-erase hash m)

abbrev Has : ℕ → Memory → Type 0
Has hash [] = ⊥
Has hash ((h, e) ∷ m) = (h ≡ hash) ⊎ Has hash m

erase-Has_lt : (hash : ℕ) (m : Memory) → Has hash m → length (erase hash m) < length m
unfolding erase
erase-Has_lt hash [] i = absurd i
erase-Has_lt hash ((h, e) ∷ m) (inl p) = ground (arith, length-erase hash m)
erase-Has_lt hash ((h, e) ∷ m) (inr i) = ground (arith, length-erase hash m, erase-Has_lt hash m i)

oldest_cases :
    (hash at h : ℕ) (e : MetaTxEntry) (m : Memory)
    → (oldest_from hash at ((h, e) ∷ m) ≡ oldest_from h e.remembered_at m)
      ⊎ (oldest_from hash at ((h, e) ∷ m) ≡ oldest_from hash at m)
unfolding oldest_from
oldest_cases hash at h e m = elim (Bool-cases (ltb e.remembered_at at)) [
  | inl p ↦ inl (rw p refl)
  | inr p ↦ inr (rw p refl)
]

oldest_nil : (hash at : ℕ) → oldest_from hash at [] ≡ hash
unfolding oldest_from
oldest_nil hash at = refl

-- The hash that the loop ends with is the one it starts with, or one of the map.
oldest-Has :
    (hash at : ℕ) (m : Memory) → (oldest_from hash at m ≡ hash) ⊎ Has (oldest_from hash at m) m
oldest-Has hash at [] = inl (oldest_nil hash at)
oldest-Has hash at ((h, e) ∷ m) = elim (oldest_cases hash at h e m) [
  | inl p ↦ elim (oldest-Has h e.remembered_at m) [
    | inl q ↦ inr (inl (sym (p ∙ q)))
    | inr q ↦ inr (inr (subst (λ x. Has x m) (sym p) q))
  ]
  | inr p ↦ elim (oldest-Has hash at m) [
    | inl q ↦ inl (p ∙ q)
    | inr q ↦ inr (inr (subst (λ x. Has x m) (sym p) q))
  ]
]

length-drop_oldest : (m : Memory) → length (drop_oldest m) ≤ length m - 1
unfolding drop_oldest
length-drop_oldest [] = omega arith
length-drop_oldest ((h, e) ∷ m) = elim (oldest-Has h e.remembered_at m) [
  | inl q ↦
      ground
        (arith, erase-Has_lt (oldest_from h e.remembered_at m) ((h, e) ∷ m) (inl (ground arith)))
  | inr q ↦ ground (arith, erase-Has_lt (oldest_from h e.remembered_at m) ((h, e) ∷ m) (inr q))
]

length-drop_old : (now : ℕ) (m : Memory) → length (drop_old now m) ≤ length m
unfolding drop_old
length-drop_old now [] = omega arith
length-drop_old now ((h, e) ∷ m) = ground (arith, length-drop_old now m)

length-evict_locked :
    (now : ℕ) (m : Memory)
    → length m ≤ meta_tx_memory_max
    → length (evict_locked now m) < meta_tx_memory_max
unfolding evict_locked
length-evict_locked now m h =
    ground (arith, length-drop_old now m, length-drop_oldest (drop_old now m))

-- No more than 4096 metatx are remembered at any time: one more than that makes room for itself.
pub length-remember_le :
    (req_id meta_tx_id : Key) (hash : ℕ) (sender_key : Key) (chain : Option ℕ) (now : ℕ)
    (m : Memory)
    → length m ≤ 4096
    → length (remember_meta_tx req_id meta_tx_id hash sender_key chain now m) ≤ 4096
unfolding remember_meta_tx
length-remember_le req_id meta_tx_id hash sender_key chain now m h =
    ground (arith, length-erase hash (evict_locked now m), length-evict_locked now m h)
