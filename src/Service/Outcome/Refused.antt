-- ===== src/Service/Outcome/Refused.antt =====
-- The chains that the events of the hub drop.
use gas_management.Base.{
  ℕ, ◌≡◌, ◌≢◌, refl, sym, ap, ◌∙◌, Bool, true, false, none, some, List, [], ◌∷◌, Key, delete,
  lookup-delete_self, lookup-delete_ne, arith,
}
use gas_management.Service.Tracker.{Tracker}
use gas_management.Service.Tracker.Registry.Wake.{notify_turn-Woken}
use gas_management.Service.Tracker.Chains.{sender_key, drop_locked, forget_chain, invalidate_nonce}
use gas_management.Service.HubLog.{
  Log, Hub, Kind, deployed_log, transaction_log, bad_log, relayed_log, gas_log, other_log,
  bad_transaction_error_code, kind_of,
}
use gas_management.Service.Outcome.{
  Reading, read_kind, read_logs, first_reading, outcome_of, read_hub_events,
}
use gas_management.Service.Outcome.Panics.{panics, before_panic, read_hub_events-loop}

-- The user that a BadTransactionSent names.
abbrev pub refused_key : Hub → Key → Key
refused_key hub bytes = sender_key (hub.address_hex (bad_transaction_error_code hub bytes).1)

-- One of the logs is a BadTransactionSent of this user.
pub data Refused (hub : Hub) (key : Key) : List Log → Type 0 where
  refused_here :
      (l : Log) (logs : List Log)
      → kind_of hub l ≡ bad_log
      → refused_key hub l.bytes ≡ key
      → Refused hub key (l ∷ logs)
  refused_later : (l : Log) (logs : List Log) → Refused hub key logs → Refused hub key (l ∷ logs)

forget_chain-senders :
    (t : Tracker) (key : Key) → (forget_chain t key).senders ≡ delete key t.senders
unfolding forget_chain drop_locked
forget_chain-senders t key = (notify_turn-Woken (drop_locked t key) key).senders

forget_chain-none :
    (t : Tracker) (key j : Key) → t.senders j ≡ none → (forget_chain t key).senders j ≡ none
unfolding delete
forget_chain-none t key j h = ap (λ m. m j) (forget_chain-senders t key) ∙ ground arith

read_kind-none :
    (hub : Hub) (hash : ℕ) (k : Kind) (bytes j : Key) (r : Reading)
    → r.tracker.senders j ≡ none
    → (read_kind hub hash k bytes r).tracker.senders j ≡ none
unfolding read_kind invalidate_nonce
read_kind-none hub hash deployed_log bytes j r h = h
read_kind-none hub hash transaction_log bytes j r h = h
read_kind-none hub hash bad_log bytes j r h =
    forget_chain-none r.tracker (refused_key hub bytes) j h
read_kind-none hub hash relayed_log bytes j r h = h
read_kind-none hub hash gas_log bytes j r h = h
read_kind-none hub hash other_log bytes j r h = h

read_logs-none :
    (hub : Hub) (hash : ℕ) (logs : List Log) (j : Key) (r : Reading)
    → r.tracker.senders j ≡ none
    → (read_logs hub hash logs r).tracker.senders j ≡ none
unfolding read_logs
read_logs-none hub hash [] j r h = h
read_logs-none hub hash (l ∷ logs) j r h =
    read_logs-none hub hash logs j (read_kind hub hash (kind_of hub l) l.bytes r)
      (read_kind-none hub hash (kind_of hub l) l.bytes j r h)

read_kind-bad_log :
    (hub : Hub) (hash : ℕ) (k : Kind) (bytes j : Key) (r : Reading)
    → k ≡ bad_log
    → refused_key hub bytes ≡ j
    → (read_kind hub hash k bytes r).tracker.senders j ≡ none
unfolding read_kind invalidate_nonce
read_kind-bad_log hub hash k bytes j r bad same =
    let bytes_key = refused_key hub bytes in
    ap (λ c. (read_kind hub hash c bytes r).tracker.senders j) bad
    ∙ ap (λ m. m j) (forget_chain-senders r.tracker bytes_key)
    ∙ ap (delete bytes_key r.tracker.senders) (sym same)
    ∙ lookup-delete_self bytes_key r.tracker.senders

read_logs-Refused :
    (hub : Hub) (hash : ℕ) (j : Key) (logs : List Log) (r : Reading)
    → Refused hub j logs
    → (read_logs hub hash logs r).tracker.senders j ≡ none
unfolding read_logs
read_logs-Refused hub hash j _ r (refused_here l logs bad same) =
    read_logs-none hub hash logs j (read_kind hub hash (kind_of hub l) l.bytes r)
      (read_kind-bad_log hub hash (kind_of hub l) l.bytes j r bad same)
read_logs-Refused hub hash j _ r (refused_later l logs later) =
    read_logs-Refused hub hash j logs (read_kind hub hash (kind_of hub l) l.bytes r) later

read_kind-kept :
    (hub : Hub) (hash : ℕ) (k : Kind) (bytes j : Key) (r : Reading)
    → (k ≡ bad_log → refused_key hub bytes ≢ j)
    → (read_kind hub hash k bytes r).tracker.senders j ≡ r.tracker.senders j
unfolding read_kind invalidate_nonce
read_kind-kept hub hash deployed_log bytes j r h = refl
read_kind-kept hub hash transaction_log bytes j r h = refl
read_kind-kept hub hash bad_log bytes j r h =
    ap (λ m. m j) (forget_chain-senders r.tracker (refused_key hub bytes))
    ∙ lookup-delete_ne (refused_key hub bytes) j r.tracker.senders (λ e. h refl (sym e))
read_kind-kept hub hash relayed_log bytes j r h = refl
read_kind-kept hub hash gas_log bytes j r h = refl
read_kind-kept hub hash other_log bytes j r h = refl

read_logs-kept :
    (hub : Hub) (hash : ℕ) (logs : List Log) (j : Key) (r : Reading)
    → ¬ Refused hub j logs
    → (read_logs hub hash logs r).tracker.senders j ≡ r.tracker.senders j
unfolding read_logs
read_logs-kept hub hash [] j r h = refl
read_logs-kept hub hash (l ∷ logs) j r h =
    read_logs-kept hub hash logs j (read_kind hub hash (kind_of hub l) l.bytes r)
      (λ later. h (refused_later l logs later))
    ∙ read_kind-kept hub hash (kind_of hub l) l.bytes j r
        (λ bad same. h (refused_here l logs bad same))

outcome_of-tracker : (b : Bool) (r : Reading) → (outcome_of (b, r)).1 ≡ r.tracker
unfolding outcome_of
outcome_of-tracker true r = refl
outcome_of-tracker false r = refl

-- What readHubEvents does to the chains: a user whom a BadTransactionSent of the receipt names, in
-- whatever case its address is written, has none afterwards, and every other user has the one of
-- before. The ones that count are those before the first log that makes it panic, if there is one.
pub read_hub_events-Refused :
    (hub : Hub) (hash : ℕ) (logs : List Log) (t : Tracker) (key : Key)
    → let u = (read_hub_events hub hash (some logs) t).1 in
      (Refused hub key (before_panic hub logs) → u.senders key ≡ none)
      × (¬ Refused hub key (before_panic hub logs) → u.senders key ≡ t.senders key)
read_hub_events-Refused hub hash logs t key =
    let read = before_panic hub logs in
    let e =
      ap (λ x. x.1.senders key) (read_hub_events-loop hub hash logs t)
      ∙ ap (λ u. u.senders key)
          (outcome_of-tracker (panics hub logs) (read_logs hub hash read (first_reading t))) in
    (
      λ refused. e ∙ read_logs-Refused hub hash key read (first_reading t) refused,
      λ kept. e ∙ read_logs-kept hub hash read key (first_reading t) kept,
    )
