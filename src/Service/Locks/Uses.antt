-- ===== src/Service/Locks/Uses.antt =====
-- The locks of the users with the requests that use one, and what holds of both.
use gas_management.Base.{
  ℕ, ◌+◌, ◌≤◌, ◌<◌, ◌≡◌, ◌≢◌, refl, ◌⊎◌, Option, some, List, [], ◌∷◌, ◌++◌, Key, insert, delete,
  All, arith, ◌==◌, if◌then◌else◌,
}
use gas_management.Service.Locks.{Locks, no_locks, lock_user, unlock_user}

-- A request that uses a lock: the key of its user, and the lock.
pub record Use : Type 0 where
  pub key : Key
  pub lock : ℕ

-- The locks with the requests that use one, in any order of entering and leaving.
pub data Reachable : Locks → List Use → Type 0 where
  idle : Reachable no_locks []
  enters :
      (s : Locks) (uses : List Use) (key : Key)
      → Reachable s uses
      → Reachable (lock_user s key).1 (record { key = key; lock = (lock_user s key).0 } ∷ uses)
  leaves :
      (s : Locks) (before after : List Use) (key : Key) (id : ℕ)
      → Reachable s (before ++ (record { key = key; lock = id } ∷ after))
      → Reachable (unlock_user s key id) (before ++ after)

-- How many use the lock.
abbrev pub count : ℕ → List Use → ℕ
count id [] = 0
count id (u ∷ us) = (if u.lock == id then 1 else 0) + count id us

-- The uses without one of them.
pub count_without :
    (j id : ℕ) (key : Key) (before after : List Use)
    → count j (before ++ (record { key = key; lock = id } ∷ after))
      ≡ count j (before ++ after) + (if id == j then 1 else 0)
count_without j id key [] after = omega arith
count_without j id key (u ∷ us) after = omega (arith, count_without j id key us after)

pub All_without :
    (P : Use → Type 0) (u : Use) (before after : List Use)
    → All P (before ++ (u ∷ after))
    → P u × All P (before ++ after)
All_without P u [] after h = h
All_without P u (w ∷ ws) after h =
    let rest = All_without P u ws after h.1 in (rest.0, (h.0, rest.1))

pub count_zero : (id : ℕ) (uses : List Use) → count id uses ≡ 0 → All (λ u. u.lock ≢ id) uses
count_zero id [] h = tt
count_zero id (u ∷ us) h = (ground (arith, h), count_zero id us (omega (arith, h)))

pub All-both :
    (P Q R : Use → Type 0) (f : (u : Use) → P u → Q u → R u) (uses : List Use)
    → All P uses
    → All Q uses
    → All R uses
All-both P Q R f [] hp hq = tt
All-both P Q R f (u ∷ us) hp hq = (f u hp.0 hq.0, All-both P Q R f us hp.1 hq.1)

pub insert_inv :
    (k key : Key) (v i : ℕ) (m : Key → Option ℕ)
    → insert key v m k ≡ some i
    → ((k ≡ key) × (i ≡ v)) ⊎ ((k ≢ key) × (m k ≡ some i))
unfolding insert
insert_inv k key v i m h = ground arith

pub delete_inv :
    (k key : Key) (i : ℕ) (m : Key → Option ℕ)
    → delete key m k ≡ some i
    → (k ≢ key) × (m k ≡ some i)
unfolding delete
delete_inv k key i m h = ground arith

-- The lock of the use is the one that the map has for the user.
abbrev pub HasLock : Locks → Use → Type 0
HasLock s u = s.locks u.key ≡ some u.lock

pub record IsLocks (s : Locks) (uses : List Use) : Type 0 where
  pub held : All (HasLock s) uses
  pub counted : (key : Key) (id : ℕ) → s.locks key ≡ some id → s.users id ≡ count id uses
  pub used : (key : Key) (id : ℕ) → s.locks key ≡ some id → 1 ≤ count id uses
  pub older : (key : Key) (id : ℕ) → s.locks key ≡ some id → id < s.next_lock
  pub distinct :
      (key other : Key) (id : ℕ) → s.locks key ≡ some id → s.locks other ≡ some id → key ≡ other

pub count_new :
    (s : Locks) (uses : List Use)
    → ((key : Key) (id : ℕ) → s.locks key ≡ some id → id < s.next_lock)
    → All (HasLock s) uses
    → count s.next_lock uses ≡ 0
count_new s [] older h = refl
count_new s (u ∷ us) older h =
    let rest = count_new s us older h.1 in
    let lt = older u.key u.lock h.0 in ground (arith, rest, lt)
