-- ===== src/Base/Keys.antt =====
-- The keys of the service's maps, as bytes, and a Go map as a function: `none` is a missing key.
use Prim.Native.Nat.{ℕ}
use mathlib.Core.Path.{◌≡◌, refl}
use mathlib.Core.Logic.{◌≢◌, ite}
use mathlib.Core.Option.{Option, none, some}
use mathlib.Core.List.{List, [], ◌∷◌}
use native.Mathlib.Omega.{arith}
use native.Mathlib.Decide.{ℕ_discrete}

abbrev pub Key : Type 0
Key = List ℕ

unfoldable pub Key-discrete : Discrete Key
unfolding ℕ_discrete
Key-discrete = hlevel ℕ_discrete

abbrev pub Map {ℓ} : Type ℓ → Type ℓ
Map V = Key → Option V

abbrev pub empty_map {ℓ} : {V : Type ℓ} → Map V
empty_map k = none

-- `m[k] = v` and `delete(m, k)`.
unfoldable pub insert {ℓ} : {V : Type ℓ} → Key → V → Map V → Map V
insert k v m j = ite (Key-discrete j k) (some v) (m j)

unfoldable pub delete {ℓ} : {V : Type ℓ} → Key → Map V → Map V
delete k m j = ite (Key-discrete j k) none (m j)

module _ {ℓ} {V : Type ℓ} where
  pub lookup-insert_self : (k : Key) (v : V) (m : Map V) → insert k v m k ≡ some v
  unfolding insert
  lookup-insert_self k v m = ground arith

  pub lookup-insert_ne : (k j : Key) (v : V) (m : Map V) → j ≢ k → insert k v m j ≡ m j
  unfolding insert
  lookup-insert_ne k j v m h = ground arith

  pub lookup-delete_self : (k : Key) (m : Map V) → delete k m k ≡ none
  unfolding delete
  lookup-delete_self k m = ground arith

  pub lookup-delete_ne : (k j : Key) (m : Map V) → j ≢ k → delete k m j ≡ m j
  unfolding delete
  lookup-delete_ne k j m h = ground arith

lookup_lower : delete (1 ∷ []) (insert (2 ∷ []) 7 (empty_map {V = ℕ})) (2 ∷ []) ≡ some 7
unfolding delete insert Key-discrete
lookup_lower = refl
