-- ===== src/Service/Send/Ends.antt =====
-- What a send comes to.
use gas_management.Base.{
  ℕ, ◌+◌, ◌≤◌, ◌<◌, ◌≡◌, refl, sym, ap, subst, ◌∙◌, inl, inr, Bool, true, false, not, some, Key,
  ltb, ◌==◌, arith, if◌then◌else◌,
}
use gas_management.Base.Int.{u64}
use gas_management.Service.Rejection.{Result, ok, err, Rejection}
use gas_management.Service.Tracker.{Tracker, Chain}
use gas_management.Service.Tracker.Registry.Wake.{notify_turn-Woken}
use gas_management.Service.Tracker.Chains.{sender_key, reserve_locked, cached_nonce}
use gas_management.Service.Tracker.Chains.Reads.{chain_locked-ReadsAs}
use gas_management.Service.Tracker.Chains.Reserve.{reserve_locked-max}
use gas_management.Service.Reorder.{HubRead, reorder_enabled, expected_nonce}
use gas_management.Service.Send.{
  PreparedMetaTx, Office, GasRead, gas_failed, gas_limit_is, SendRead, not_sent, sent_as, Outcome,
  sent, turned_away, increment, verify_gas_limit, note_sent, send_prepared, send_if,
  reserve_gas_and_send, forget_unsent, send_expected, send_in_turn,
}

forget_unsent-sent :
    (key : Key) (hash : ℕ) (r : Outcome × Office)
    → (forget_unsent key r).0 ≡ sent hash
    → forget_unsent key r ≡ r
forget_unsent-sent key hash (sent h, s) e = refl
forget_unsent-sent key hash (turned_away r, s) e = absurd (cc)

-- What is known of a metatx that went out: its gas fits the window with all that was counted in it
-- before, and it was noted.
abbrev pub WentOut :
    Office → PreparedMetaTx → GasRead → SendRead → ℕ → ℕ → Outcome × Office → Type 0
WentOut s p gas answer now hash r =
    (answer ≡ sent_as hash)
    × ((limit : ℕ) × (gas ≡ gas_limit_is limit)
        × (increment s.gas_used p.meta_tx_gas_limit ≤ limit))
    × (r.1
        ≡ (send_prepared (record s { gas_used = increment s.gas_used p.meta_tx_gas_limit }) p
            (sent_as hash) now).1)

send_if-sent :
    (b : Bool) (s : Office) (p : PreparedMetaTx) (answer : SendRead) (now hash : ℕ)
    → (send_if (ok b) s p answer now).0 ≡ sent hash
    → (b ≡ true)
      × (answer ≡ sent_as hash)
      × ((send_if (ok b) s p answer now).1 ≡ (send_prepared s p (sent_as hash) now).1)
unfolding send_prepared
send_if-sent false s p answer now hash e = absurd (cc)
send_if-sent true s p (not_sent cause) now hash e = absurd (cc)
send_if-sent true s p (sent_as h) now hash e =
    let same : h ≡ hash = cc in
    (refl, ap sent_as same, ap (λ k. (send_prepared s p (sent_as k) now).1) same)

reserve_gas_and_send-WentOut :
    (s : Office) (p : PreparedMetaTx) (gas : GasRead) (answer : SendRead) (now hash : ℕ)
    → (reserve_gas_and_send s p gas answer now).0 ≡ sent hash
    → WentOut s p gas answer now hash (reserve_gas_and_send s p gas answer now)
unfolding reserve_gas_and_send verify_gas_limit
reserve_gas_and_send-WentOut s p (gas_failed cause) answer now hash e = absurd (cc)
reserve_gas_and_send-WentOut s p (gas_limit_is limit) answer now hash e =
    let used = increment s.gas_used p.meta_tx_gas_limit in
    let (fits, out, office) =
      send_if-sent (not (ltb limit used)) (record s { gas_used = used }) p answer now hash e in
    (out, (limit, refl, ground arith), office)

-- With reordering on, a metatx that was sent counts as one in flight, on a chain that expects the
-- nonce after it, of an uint64, or a later one.
abbrev Counted : Office → PreparedMetaTx → Type 0
Counted u p =
    (c : Chain) × (u.tracker.senders (sender_key p.sender) ≡ some c)
    × (u64 (p.nonce + 1) ≤ c.next)
    × (0 < c.pending)

note_sent-Counted :
    (s : Office) (p : PreparedMetaTx) (now : ℕ)
    → reorder_enabled s.tracker.config ≡ true
    → Counted (note_sent s p now).1 p
unfolding note_sent
note_sent-Counted s p now on =
    let key = sender_key p.sender in
    let (stored, next, pending, _, _, _) = reserve_locked-max s.tracker key p.nonce true now in
    rw on (
      (reserve_locked s.tracker key p.nonce true now).0,
      ap (λ m. m key)
            (notify_turn-Woken (reserve_locked s.tracker key p.nonce true now).1 key).senders
          ∙ stored,
      omega (arith, next),
      omega (arith, pending),
    )

send_prepared-Counted :
    (s : Office) (p : PreparedMetaTx) (now hash : ℕ)
    → reorder_enabled s.tracker.config ≡ true
    → Counted (send_prepared s p (sent_as hash) now).1 p
      × ((send_prepared s p (sent_as hash) now).1.gas_used ≡ s.gas_used)
unfolding send_prepared note_sent
send_prepared-Counted s p now hash on = (note_sent-Counted s p now on, rw on refl)

expected_same :
    (t : Tracker) (from : Key) (hub : HubRead) (now : ℕ)
    → (expected_nonce t from hub now).1.config ≡ t.config
unfolding expected_nonce cached_nonce
expected_same t from hub now = elim (chain_locked-ReadsAs t (sender_key from) now) [
  | inl e ↦ ground arith
  | inr (inl e) ↦ ground arith
  | inr (inr e) ↦ ground arith
]

-- What is known of a metatx that was sent, of the expected nonce `e`.
abbrev pub SentRightly :
    Result ℕ → Office → PreparedMetaTx → GasRead → SendRead → ℕ → Office → Type 0
SentRightly e s p gas answer hash u =
    (e ≡ ok p.nonce)
    × (answer ≡ sent_as hash)
    × ((limit : ℕ) × (gas ≡ gas_limit_is limit)
        × (increment s.gas_used p.meta_tx_gas_limit ≤ limit))
    × (u.gas_used ≡ increment s.gas_used p.meta_tx_gas_limit)
    × ((c : Chain) × (u.tracker.senders (sender_key p.sender) ≡ some c)
        × (u64 (p.nonce + 1) ≤ c.next)
        × (0 < c.pending))

send_selected :
    (key : Key) (hash : ℕ) (b : Bool) (r : Outcome × Office) (bad : Rejection) (u : Office)
    → (if b then forget_unsent key r else (turned_away bad, u)).0 ≡ sent hash
    → (b ≡ true) × ((if b then forget_unsent key r else (turned_away bad, u)) ≡ r)
send_selected key hash true r bad u h = (refl, forget_unsent-sent key hash r h)
send_selected key hash false r bad u h = absurd (cc)

send_expected-SentRightly :
    (e : Result ℕ) (s : Office) (p : PreparedMetaTx) (gas : GasRead) (answer : SendRead)
    (now hash : ℕ)
    → reorder_enabled s.tracker.config ≡ true
    → (send_expected e s p gas answer now).0 ≡ sent hash
    → SentRightly e s p gas answer hash (send_expected e s p gas answer now).1
send_expected-SentRightly (err cause) s p gas answer now hash on h = absurd (cc)
send_expected-SentRightly (ok n) s p gas answer now hash on h =
    let r = reserve_gas_and_send s p gas answer now in
    let (mine, whole) = send_selected (sender_key p.sender) hash (p.nonce == n) r _ _ h in
    let out =
      reserve_gas_and_send-WentOut s p gas answer now hash (sym (ap (λ x. x.0) whole) ∙ h) in
    let spent : Office = record s { gas_used = increment s.gas_used p.meta_tx_gas_limit } in
    let (counted, gas_same) = send_prepared-Counted spent p now hash on in
    subst (λ (x : Outcome × Office). SentRightly (ok n) s p gas answer hash x.1) (sym whole)
      (
        ap ok (ground arith),
        out.0,
        out.1,
        ap (λ (u : Office). u.gas_used) out.2 ∙ gas_same,
        subst (λ u. Counted u p) (sym out.2) counted,
      )

-- A metatx that is sent, with reordering on: its nonce is the one that was expected of its user; its
-- gas, with all that was counted before since the last block, is within the limit of the node, up to
-- the wrap of an uint64; and afterwards its user has a chain that expects the nonce after it, of an
-- uint64, or a later one, and counts it as in flight.
pub send_in_turn-SentRightly :
    (s : Office) (p : PreparedMetaTx) (hub : HubRead) (gas : GasRead) (answer : SendRead)
    (now hash : ℕ)
    → reorder_enabled s.tracker.config ≡ true
    → (send_in_turn s p hub gas answer now).0 ≡ sent hash
    → SentRightly
        (expected_nonce s.tracker p.sender hub now).0
        s
        p
        gas
        answer
        hash
        (send_in_turn s p hub gas answer now).1
unfolding send_in_turn
send_in_turn-SentRightly s p hub gas answer now hash on h =
    send_expected-SentRightly (expected_nonce s.tracker p.sender hub now).0
      (record s { tracker = (expected_nonce s.tracker p.sender hub now).1 }) p gas answer now hash
      (ap reorder_enabled (expected_same s.tracker p.sender hub now) ∙ on) h
