-- ===== src/Service/Locks.antt =====
-- lockUser of service/reorder.go: the map of the locks of the users. A lock is a number, its identity;
-- each function is one section under `userLocksMutex`. The count of a lock is an int that `lockUser` has
-- made 1 or more before the function that it returns takes 1 off, once.
pub mod Uses
pub mod Single
use gas_management.Base.{
  ℕ, ◌+◌, ◌-◌, Option, none, some, Key, Map, empty_map, insert, delete, ◌==◌, if◌then◌else◌,
}

pub record Locks : Type 0 where
  pub locks : Map ℕ
  pub users : ℕ → ℕ
  pub next_lock : ℕ

abbrev pub no_locks : Locks
no_locks = record { locks = empty_map; users = λ id. 0; next_lock = 0 }

abbrev pub set_users : (ℕ → ℕ) → ℕ → ℕ → ℕ → ℕ
set_users users id n j = if j == id then n else users j

abbrev pub use_lock : Option ℕ → Locks → Key → ℕ × Locks
use_lock (some id) s key = (id, record s { users = set_users s.users id (s.users id + 1) })
use_lock none s key = (
  s.next_lock,
  record s {
    locks = insert key s.next_lock s.locks;
    users = set_users s.users s.next_lock 1;
    next_lock = s.next_lock + 1;
  },
)

-- The first section of `lockUser`: the lock that the request then takes.
unfoldable pub lock_user : Locks → Key → ℕ × Locks
lock_user s key = use_lock (s.locks key) s key

-- The function that `lockUser` returns, after it has let go of the lock.
unfoldable pub unlock_user : Locks → Key → ℕ → Locks
unlock_user s key id =
    let s' = record s { users = set_users s.users id (s.users id - 1) } in
    if s'.users id == 0 then record s' { locks = delete key s'.locks } else s'
