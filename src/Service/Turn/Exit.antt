-- ===== src/Service/Turn/Exit.antt =====
-- How a wait ends.
use gas_management.Base.{
  ℕ, ◌≡◌, refl, subst, inl, inr, false, Option, none, some, Key, arith, leb, Bool-cases,
}
use gas_management.Service.Rejection.{Result, ok, err}
use gas_management.Service.Tracker.{Tracker}
use gas_management.Service.Tracker.Registry.{waiters, contains, unhold}
use gas_management.Service.Tracker.Registry.Invariant.{
  IsRegistry, IsRegistry-same, unhold-IsRegistry, unhold_gone, hold-IsRegistry,
  wait_turn-IsRegistry,
}
use gas_management.Service.Tracker.Chains.{sender_key, inflight_locked, cached_nonce}
use gas_management.Service.Tracker.Chains.Reads.{chain_locked-ReadsAs}
use gas_management.Service.Reorder.{HubRead, expected_nonce, surplus_held}
use gas_management.Service.Reorder.Cap.{inflight_same}
use gas_management.Service.Turn.{
  Turn, Verdict, Progress, finished, sleeping, Reason, release, release_entry, finish, hold_entry,
  wait_or_leave, hold_back, round_with, round, renewed, go_on,
}

-- The entry that the wait gave up.
abbrev pub given_up : Progress → Option ℕ
given_up (finished verdict entry) = entry
given_up (sleeping turn id expected remaining) = none

abbrev pub IsFinished : Progress → Type 0
IsFinished (finished verdict entry) = Unit {0}
IsFinished (sleeping turn id expected remaining) = ⊥

-- The registry is sound; a wait that ended has left no entry in it, and one that sleeps is of the
-- same sender.
abbrev pub Stands : Key → Progress → Tracker → Type 0
Stands sender (finished verdict entry) t =
    IsRegistry t
    × ((id : ℕ) → entry ≡ some id → contains id (waiters t.held (sender_key sender)) ≡ false)
Stands sender (sleeping turn id expected remaining) t = IsRegistry t × (turn.sender ≡ sender)

release_entry-Stands :
    (o : Option ℕ) (t : Tracker) (turn : Turn) (reason : Reason) (expected now : ℕ) (v : Verdict)
    → IsRegistry t
    → Stands turn.sender (finished v o) (release_entry o t turn reason expected now).0
unfolding release_entry unhold
release_entry-Stands none t turn reason expected now v r = (r, λ id e. absurd (cc))
release_entry-Stands (some x) t turn reason expected now v r = (
  unhold-IsRegistry t (sender_key turn.sender) x r,
  λ id e. let same : id ≡ x = cc in rw same (unhold_gone t (sender_key turn.sender) x r),
)

pub finish-Stands :
    (v : Verdict) (t : Tracker) (turn : Turn) (reason : Reason) (expected now : ℕ)
    → IsRegistry t
    → let s = finish v turn (release t turn reason expected now) in
      Stands turn.sender s.progress s.tracker
unfolding finish release
finish-Stands v t turn reason expected now r =
    release_entry-Stands turn.entry t turn reason expected now v r

pub inflight-IsRegistry :
    (t : Tracker) (key : Key) (now : ℕ) → IsRegistry t → IsRegistry (inflight_locked t key now).1
inflight-IsRegistry t key now r =
    let (held, _, _, next) = inflight_same t key now in
    IsRegistry-same t _ held (omega (arith, next)) r

turn_too_many_inflight-IsRegistry :
    (t : Tracker) (key : Key) (id now : ℕ) → IsRegistry t → IsRegistry (surplus_held t key id now).1
unfolding surplus_held
turn_too_many_inflight-IsRegistry t key id now r = ground (arith, inflight-IsRegistry t key now r)

expected-IsRegistry :
    (t : Tracker) (from : Key) (hub : HubRead) (now : ℕ)
    → IsRegistry t
    → IsRegistry (expected_nonce t from hub now).1
unfolding expected_nonce cached_nonce
expected-IsRegistry t from hub now r = elim (chain_locked-ReadsAs t (sender_key from) now) [
  | inl (_, e) ↦ rw e r
  | inr (inl (_, _, _, e)) ↦ rw e r
  | inr (inr (_, _, _, e)) ↦ rw e (record { distinct = r.distinct; made = r.made; own = r.own })
]

wait_or_leave-Stands :
    (t : Tracker) (turn : Turn) (id expected later : ℕ)
    → IsRegistry t
    → let s = wait_or_leave t turn id expected later in Stands turn.sender s.progress s.tracker
unfolding wait_or_leave
wait_or_leave-Stands t turn id expected later r = elim (Bool-cases (leb turn.deadline later)) [
  | inl over ↦ rw over (finish-Stands go_on t turn _ expected later r)
  | inr more ↦ rw more (elim (Bool-cases (surplus_held t (sender_key turn.sender) id later).0.1) [
    | inl out ↦ rw out (finish-Stands go_on _ turn _ expected later read)
    | inr stay ↦ rw stay (wait_turn-IsRegistry _ id read, refl)
  ])
]
  where
    read : IsRegistry (surplus_held t (sender_key turn.sender) id later).1
    read = turn_too_many_inflight-IsRegistry t (sender_key turn.sender) id later r

hold_entry-IsRegistry :
    (o : Option ℕ) (t : Tracker) (turn : Turn) (expected : ℕ)
    → IsRegistry t
    → IsRegistry (hold_entry o t turn expected).1
unfolding hold_entry
hold_entry-IsRegistry none t turn expected r =
    hold-IsRegistry t (sender_key turn.sender) turn.nonce r
hold_entry-IsRegistry (some id) t turn expected r = r

renewed_sender :
    (turn : Turn) (id expected now : ℕ) → (renewed turn id expected now).sender ≡ turn.sender
renewed_sender turn id expected now = ground arith

hold_back-Stands :
    (t : Tracker) (turn : Turn) (expected now later : ℕ)
    → IsRegistry t
    → let s = hold_back t turn expected now later in Stands turn.sender s.progress s.tracker
unfolding hold_back
hold_back-Stands t turn expected now later r =
    let (id, t', _) = hold_entry turn.entry t turn expected in
    let s = wait_or_leave t' (renewed turn id expected now) id expected later in
    subst (λ sender. Stands sender s.progress s.tracker) (renewed_sender turn id expected now)
      (wait_or_leave-Stands t' (renewed turn id expected now) id expected later
        (hold_entry-IsRegistry turn.entry t turn expected r))

round_with-Stands :
    (e : Result ℕ) (t : Tracker) (turn : Turn) (now later : ℕ)
    → IsRegistry t
    → let s = round_with e t turn now later in Stands turn.sender s.progress s.tracker
unfolding round_with
round_with-Stands (err cause) t turn now later r = finish-Stands go_on t turn _ 0 later r
round_with-Stands (ok expected) t turn now later r = elim (Bool-cases (leb turn.nonce expected)) [
  | inl mine ↦ rw mine (finish-Stands go_on t turn _ expected later r)
  | inr ahead ↦ rw ahead (hold_back-Stands t turn expected now later r)
]

pub round-Stands :
    (t : Tracker) (turn : Turn) (hub : HubRead) (now later : ℕ)
    → IsRegistry t
    → let s = round t turn hub now later in Stands turn.sender s.progress s.tracker
unfolding round
round-Stands t turn hub now later r =
    round_with-Stands (expected_nonce t turn.sender hub now).0 _ turn now later
      (expected-IsRegistry t turn.sender hub now r)
