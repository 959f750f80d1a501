-- ===== src/Base/Ids.antt =====
-- Lists of identities: the loops that look for one, and the ones that take it out.
use Prim.Native.Nat.{ℕ, ◌+◌}
use mathlib.Core.Path.{◌≡◌, refl}
use mathlib.Core.Logic.{◌≢◌, inl, inr}
use mathlib.Core.Bool.{Bool, true, false, ◌||◌}
use mathlib.Core.List.{List, [], ◌∷◌, ◌++◌}
use native.Mathlib.Omega.{arith}
use gas_management.Base.Tests.{◌==◌, if◌then◌else◌}
use gas_management.Base.Lists.{length, In}

unfoldable pub contains : ℕ → List ℕ → Bool
contains id [] = false
contains id (x ∷ xs) = (x == id) || contains id xs

-- The first occurrence is taken out.
unfoldable pub remove : ℕ → List ℕ → List ℕ
remove id [] = []
remove id (x ∷ xs) = if x == id then xs else x ∷ remove id xs

-- No number stands twice.
abbrev pub Distinct : List ℕ → Type 0
Distinct [] = Unit {0}
Distinct (x ∷ xs) = (contains x xs ≡ false) × Distinct xs

pub remove_absent : (id : ℕ) (xs : List ℕ) → contains id xs ≡ false → remove id xs ≡ xs
unfolding remove contains
remove_absent id [] h = refl
remove_absent id (x ∷ xs) h = ground (arith, remove_absent id xs)

pub contains-remove_self : (id : ℕ) (xs : List ℕ) → Distinct xs → contains id (remove id xs) ≡ false
unfolding remove contains
contains-remove_self id [] d = refl
contains-remove_self id (x ∷ xs) d = ground (arith, contains-remove_self id xs d.1)

pub contains-remove_ne :
    (id other : ℕ) (xs : List ℕ) → other ≢ id → contains other (remove id xs) ≡ contains other xs
unfolding remove contains
contains-remove_ne id other [] h = refl
contains-remove_ne id other (x ∷ xs) h = ground (arith, contains-remove_ne id other xs h)

pub length-remove :
    (id : ℕ) (xs : List ℕ) → contains id xs ≡ true → length (remove id xs) + 1 ≡ length xs
unfolding remove contains
length-remove id [] h = absurd (cc)
length-remove id (x ∷ xs) h = ground (arith, length-remove id xs)

contains-remove_of_absent :
    (id x : ℕ) (xs : List ℕ) → contains x xs ≡ false → contains x (remove id xs) ≡ false
unfolding remove contains
contains-remove_of_absent id x [] h = refl
contains-remove_of_absent id x (y ∷ xs) h = ground (arith, contains-remove_of_absent id x xs)

pub remove-Distinct : (id : ℕ) (xs : List ℕ) → Distinct xs → Distinct (remove id xs)
unfolding remove
remove-Distinct id [] d = tt
remove-Distinct id (x ∷ xs) d =
    ground (arith, remove-Distinct id xs d.1, contains-remove_of_absent id x xs d.0)

pub contains_of-In : (id : ℕ) (xs : List ℕ) → In id xs → contains id xs ≡ true
unfolding contains
contains_of-In id [] i = absurd i
contains_of-In id (x ∷ xs) (inl e) = ground arith
contains_of-In id (x ∷ xs) (inr i) = ground (arith, contains_of-In id xs i)

pub contains-append :
    (id x : ℕ) (xs : List ℕ) → contains id (xs ++ (x ∷ [])) ≡ (contains id xs || (x == id))
unfolding contains
contains-append id x [] = ground arith
contains-append id x (y ∷ xs) = ground (arith, contains-append id x xs)

pub append-Distinct :
    (xs : List ℕ) (x : ℕ) → Distinct xs → contains x xs ≡ false → Distinct (xs ++ (x ∷ []))
unfolding contains
append-Distinct [] x d h = (refl, tt)
append-Distinct (y ∷ xs) x d h =
    (ground (arith, contains-append y x xs), append-Distinct xs x d.1 (ground arith))
