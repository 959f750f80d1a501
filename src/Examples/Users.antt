-- ===== src/Examples/Users.antt =====
-- Two requests of one user, of which one is done.
use gas_management.Base.{ℕ, ◌≡◌, ◌≤◌, refl, All, some, [], ◌∷◌, Key, insert, Key-discrete}
use gas_management.Examples.{ann}
use gas_management.Service.Locks.{Locks, no_locks, lock_user, unlock_user}
use gas_management.Service.Locks.Uses.{Use, Reachable, idle, enters, leaves, HasLock, count}
use gas_management.Service.Locks.Single.{locks_single}

abbrev one : Locks
one = (lock_user no_locks ann).1

abbrev two : Locks
two = (lock_user one ann).1

abbrev first_use : Use
first_use = record { key = ann; lock = (lock_user no_locks ann).0 }

abbrev second_use : Use
second_use = record { key = ann; lock = (lock_user one ann).0 }

-- The second request is done.
abbrev after_second : Locks
after_second = unlock_user two ann second_use.lock

one_left : Reachable after_second (first_use ∷ [])
one_left =
    leaves two [] (first_use ∷ []) ann second_use.lock
      (enters one (first_use ∷ []) ann (enters no_locks [] ann idle))

locks_single_example :
    All (HasLock after_second) (first_use ∷ [])
    × ((key : Key) (id : ℕ)
        → after_second.locks key ≡ some id
        → (after_second.users id ≡ count id (first_use ∷ [])) × (1 ≤ count id (first_use ∷ [])))
locks_single_example = locks_single after_second (first_use ∷ []) one_left

same_lock : second_use.lock ≡ first_use.lock
unfolding lock_user insert Key-discrete
same_lock = refl

kept : after_second.locks ann ≡ some 0
unfolding lock_user unlock_user insert Key-discrete
kept = refl
