-- ===== src/Service/Send/Gas.antt =====
-- The gas that one block gives to this node.
use gas_management.Base.{
  ℕ, ◌+◌, ◌-◌, ◌≤◌, ◌<◌, ◌≡◌, ap, Bool, true, false, List, [], ◌∷◌, arith, if◌then◌else◌,
}
use native.Mathlib.Nat.{mod-eq_of_lt}
use gas_management.Base.Int.{u64, u64_mod}
use gas_management.Service.Rejection.{Result, ok, err}
use gas_management.Service.Send.{gas_limit_is, increment, verify_gas_limit}

abbrev pub is_ok : Result Bool → Bool
is_ok (ok b) = b
is_ok (err cause) = false

abbrev pub total : List ℕ → ℕ
total [] = 0
total (g ∷ gs) = g + total gs

-- The gas of those that fit, of metatx that come one after the other within one block.
unfoldable pub fitting : ℕ → ℕ → List ℕ → ℕ
fitting limit used [] = 0
fitting limit used (g ∷ gs) =
    let (enough, used') = verify_gas_limit used g (gas_limit_is limit) in
    let rest = fitting limit used' gs in if is_ok enough then g + rest else rest

-- Of the metatx that come within one block, of less than 2 ^ 64 gas together with what was used,
-- those that are sent need no more gas than the node's limit, less what was used.
pub fitting_le :
    (limit used : ℕ) (gs : List ℕ)
    → used + total gs < u64_mod
    → fitting limit used gs ≤ limit - used
unfolding fitting verify_gas_limit increment
fitting_le limit used [] h = omega arith
fitting_le limit used (g ∷ gs) h =
    let exact : (u64 (used + g) ≡ used + g) = mod-eq_of_lt (omega arith) in
    let rest = fitting_le limit (u64 (used + g)) gs (omega arith) in ground arith

-- One metatx that asks for the gas that is missing to 2 ^ 64 fits under any limit, whatever was
-- used, and the window counts nothing after it.
pub verify_gas_limit_wraps :
    (limit used : ℕ)
    → used ≤ u64_mod
    → verify_gas_limit used (u64_mod - used) (gas_limit_is limit) ≡ (ok true, 0)
unfolding verify_gas_limit increment
verify_gas_limit_wraps limit used h =
    let zero : (u64 (used + (u64_mod - used)) ≡ 0) =
      let whole : (used + (u64_mod - used) ≡ u64_mod) = omega arith in ap u64 whole in
    ground arith
