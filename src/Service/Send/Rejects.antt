-- ===== src/Service/Send/Rejects.antt =====
-- What a send that was turned away leaves.
use gas_management.Base.{
  delete, lookup-delete_self, ℕ, ◌≡◌, ◌≢◌, refl, ap, ◌∙◌, ◌⊎◌, inl, inr, Bool, true, false, not,
  none, Key, ltb, ◌==◌, arith, if◌then◌else◌,
}
use gas_management.Service.Rejection.{Result, ok, err, Rejection}
use gas_management.Service.Tracker.{Tracker}
use gas_management.Service.Tracker.Registry.Wake.{notify_turn-Woken}
use gas_management.Service.Tracker.Chains.{
  sender_key, drop_locked, forget_chain, drop_locked, pending_of,
}
use gas_management.Service.Reorder.{HubRead, expected_nonce}
use gas_management.Service.Send.{
  PreparedMetaTx, Office, GasRead, gas_failed, gas_limit_is, SendRead, not_sent, sent_as, Outcome,
  sent, turned_away, increment, verify_gas_limit, send_prepared, send_if, reserve_gas_and_send,
  forget_unsent, send_expected, send_in_turn,
}

-- Nothing of what was turned away is noted as sent.
abbrev pub LeftAlone : Result ℕ → Office → PreparedMetaTx → Office → Type 0
LeftAlone e s p u =
    (u.memory ≡ s.memory)
    × (u.tickets ≡ s.tickets)
    × ((e ≢ ok p.nonce) ⊎ (u.tracker.senders (sender_key p.sender) ≡ none))

abbrev Unnoted : Office → Office → Type 0
Unnoted s u = (u.memory ≡ s.memory) × (u.tickets ≡ s.tickets)

send_if-Unnoted :
    (b : Bool) (s : Office) (p : PreparedMetaTx) (answer : SendRead) (now : ℕ) (r : Rejection)
    → (send_if (ok b) s p answer now).0 ≡ turned_away r
    → Unnoted s (send_if (ok b) s p answer now).1
unfolding send_prepared
send_if-Unnoted false s p answer now r e = (refl, refl)
send_if-Unnoted true s p (not_sent cause) now r e = (refl, refl)
send_if-Unnoted true s p (sent_as h) now r e = absurd (cc)

forget_gone : (t : Tracker) (key : Key) → (forget_chain t key).senders key ≡ none
unfolding forget_chain drop_locked
forget_gone t key =
    ap (λ m. m key) (notify_turn-Woken (record t { senders = delete key t.senders }) key).senders
    ∙ lookup-delete_self key t.senders

reserve_gas_and_send-Unnoted :
    (s : Office) (p : PreparedMetaTx) (gas : GasRead) (answer : SendRead) (now : ℕ) (r : Rejection)
    → (reserve_gas_and_send s p gas answer now).0 ≡ turned_away r
    → Unnoted s (reserve_gas_and_send s p gas answer now).1
unfolding reserve_gas_and_send verify_gas_limit
reserve_gas_and_send-Unnoted s p (gas_failed cause) answer now r e = (refl, refl)
reserve_gas_and_send-Unnoted s p (gas_limit_is limit) answer now r e =
    let used = increment s.gas_used p.meta_tx_gas_limit in
    send_if-Unnoted (not (ltb limit used)) (record s { gas_used = used }) p answer now r e

send_selected-LeftAlone :
    (key : Key) (b : Bool) (x : Outcome × Office) (bad r : Rejection) (s v : Office)
    → (x.0 ≡ turned_away r → Unnoted s x.1)
    → Unnoted s v
    → (if b then forget_unsent key x else (turned_away bad, v)).0 ≡ turned_away r
    → let u = (if b then forget_unsent key x else (turned_away bad, v)).1 in
      (u.memory ≡ s.memory)
      × (u.tickets ≡ s.tickets)
      × ((b ≡ false) ⊎ (u.tracker.senders key ≡ none))
send_selected-LeftAlone key true (sent h, u) bad r s v f g e = absurd (cc)
send_selected-LeftAlone key true (turned_away q, u) bad r s v f g e =
    let (memory, tickets) = f e in (memory, tickets, inr (forget_gone u.tracker key))
send_selected-LeftAlone key false x bad r s v f g e = (g.0, g.1, inl refl)

send_expected-LeftAlone :
    (e : Result ℕ) (s : Office) (p : PreparedMetaTx) (gas : GasRead) (answer : SendRead) (now : ℕ)
    (r : Rejection)
    → (send_expected e s p gas answer now).0 ≡ turned_away r
    → LeftAlone e s p (send_expected e s p gas answer now).1
send_expected-LeftAlone (err cause) s p gas answer now r h = (refl, refl, inl (λ q. absurd (cc)))
send_expected-LeftAlone (ok n) s p gas answer now r h =
    let (memory, tickets, o) =
      send_selected-LeftAlone (sender_key p.sender) (p.nonce == n)
        (reserve_gas_and_send s p gas answer now) _ r s
        (record s { tracker = (pending_of s.tracker p.sender now).1 })
        (reserve_gas_and_send-Unnoted s p gas answer now r) (refl, refl) h in
    (
      memory,
      tickets,
      elim o [
        | inl other ↦ inl (λ q. let same : n ≡ p.nonce = cc in absurd (ground arith))
        | inr gone ↦ inr gone
      ],
    )

-- A metatx that is turned away under the lock of its user: neither the memory nor the tickets say
-- that it was sent; and its nonce was not the expected one, or the chain of its user is dropped, so
-- that the next one reads the nonce of the hub.
pub send_in_turn-LeftAlone :
    (s : Office) (p : PreparedMetaTx) (hub : HubRead) (gas : GasRead) (answer : SendRead) (now : ℕ)
    (r : Rejection)
    → (send_in_turn s p hub gas answer now).0 ≡ turned_away r
    → LeftAlone
        (expected_nonce s.tracker p.sender hub now).0
        s
        p
        (send_in_turn s p hub gas answer now).1
unfolding send_in_turn
send_in_turn-LeftAlone s p hub gas answer now r h =
    send_expected-LeftAlone (expected_nonce s.tracker p.sender hub now).0
      (record s { tracker = (expected_nonce s.tracker p.sender hub now).1 }) p gas answer now r h
