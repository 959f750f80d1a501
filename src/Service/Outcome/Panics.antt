-- ===== src/Service/Outcome/Panics.antt =====
-- The logs at which a loop over the logs of a receipt panics, and the ones before the first of them.
use gas_management.Base.{
  ℕ, ◌≡◌, ◌↔◌, refl, sym, ap, ◌∙◌, inl, inr, Bool-cases, Bool, true, false, Option, none, some,
  List, [], ◌∷◌, Key, arith, if◌then◌else◌,
}
use gas_management.Service.Tracker.{Tracker}
use gas_management.Service.Revert.{Reason, decode_revert_reason}
use gas_management.Service.HubLog.{
  Log, Hub, Kind, deployed_log, transaction_log, bad_log, relayed_log, gas_log, other_log, kind_of,
  transaction_relayed_failed, no_text, execution_panics, kind_panics, log_panics, loop,
}
use gas_management.Service.Outcome.{
  Reading, read_logs, read_log, first_reading, outcome_of, read_hub_events, finish,
}

-- A TransactionRelayed of a call that failed, whose output decodeRevertReason panics on.
abbrev pub IsHostile : Hub → Log → Type 0
IsHostile hub l =
    (kind_of hub l ≡ transaction_log)
    × ((transaction_relayed_failed hub l.bytes).0 ≡ false)
    × (decode_revert_reason (transaction_relayed_failed hub l.bytes).1 ≡ none)

pub data Hostile (hub : Hub) : List Log → Type 0 where
  hostile_here : (l : Log) (logs : List Log) → IsHostile hub l → Hostile hub (l ∷ logs)
  hostile_later : (l : Log) (logs : List Log) → Hostile hub logs → Hostile hub (l ∷ logs)

unfoldable pub panics : Hub → List Log → Bool
panics hub [] = false
panics hub (l ∷ logs) = let later = panics hub logs in if log_panics hub l then true else later

-- The logs before the first hostile one.
unfoldable pub before_panic : Hub → List Log → List Log
before_panic hub [] = []
before_panic hub (l ∷ logs) =
    let rest = before_panic hub logs in if log_panics hub l then [] else l ∷ rest

-- A loop does what its bodies do, one after the other, up to the first hostile log.
pub loop-before_panic {ℓ} :
    {A : Type ℓ} (hub : Hub) (body : Log → A → A) (all : List Log → A → A)
    → ((a : A) → all [] a ≡ a)
    → ((l : Log) (logs : List Log) (a : A) → all (l ∷ logs) a ≡ all logs (body l a))
    → (logs : List Log) (a : A)
    → loop hub body logs a ≡ (panics hub logs, all (before_panic hub logs) a)
unfolding loop panics before_panic
loop-before_panic hub body all none_left one_more [] a = ap (λ b. (false, b)) (sym (none_left a))
loop-before_panic hub body all none_left one_more (l ∷ logs) a =
    elim (Bool-cases (log_panics hub l)) [
      | inl p ↦ rw p (ap (λ b. (true, b)) (sym (none_left a)))
      | inr p ↦ rw p (
          loop-before_panic hub body all none_left one_more logs (body l a)
          ∙ ap (λ b. (panics hub logs, b)) (sym (one_more l (before_panic hub logs) a)))
    ]

no_text_iff : (o : Option Reason) → (no_text o ≡ true) ↔ (o ≡ none)
no_text_iff none = (λ e. refl, λ e. refl)
no_text_iff (some _) = (λ e. absurd (cc), λ e. absurd (cc))

execution_panics_iff :
    (v : Bool × Key)
    → (execution_panics v ≡ true) ↔ ((v.0 ≡ false) × (decode_revert_reason v.1 ≡ none))
unfolding execution_panics
execution_panics_iff (true, output) = (λ e. absurd (cc), λ e. absurd (cc))
execution_panics_iff (false, output) =
    let i = no_text_iff (decode_revert_reason output) in (λ e. (refl, i.0 e), λ e. i.1 e.1)

kind_panics_iff :
    (hub : Hub) (k : Kind) (bytes : Key)
    → (kind_panics hub k bytes ≡ true) ↔ (
        (k ≡ transaction_log)
        × ((transaction_relayed_failed hub bytes).0 ≡ false)
        × (decode_revert_reason (transaction_relayed_failed hub bytes).1 ≡ none))
unfolding kind_panics
kind_panics_iff hub deployed_log bytes = (λ e. absurd (cc), λ e. absurd (cc))
kind_panics_iff hub transaction_log bytes =
    let i = execution_panics_iff (transaction_relayed_failed hub bytes) in
    (λ e. (refl, (i.0 e).0, (i.0 e).1), λ e. i.1 (e.1, e.2))
kind_panics_iff hub bad_log bytes = (λ e. absurd (cc), λ e. absurd (cc))
kind_panics_iff hub relayed_log bytes = (λ e. absurd (cc), λ e. absurd (cc))
kind_panics_iff hub gas_log bytes = (λ e. absurd (cc), λ e. absurd (cc))
kind_panics_iff hub other_log bytes = (λ e. absurd (cc), λ e. absurd (cc))

pub log_panics_iff : (hub : Hub) (l : Log) → (log_panics hub l ≡ true) ↔ IsHostile hub l
unfolding log_panics
log_panics_iff hub l = kind_panics_iff hub (kind_of hub l) l.bytes

panics-Hostile : (hub : Hub) (logs : List Log) → panics hub logs ≡ true → Hostile hub logs
unfolding panics
panics-Hostile hub [] e = absurd (cc)
panics-Hostile hub (l ∷ logs) e = elim (Bool-cases (log_panics hub l)) [
  | inl p ↦ hostile_here l logs ((log_panics_iff hub l).0 p)
  | inr p ↦ hostile_later l logs (panics-Hostile hub logs (ground (arith, p, e)))
]

Hostile-panics : (hub : Hub) (logs : List Log) → Hostile hub logs → panics hub logs ≡ true
unfolding panics
Hostile-panics hub _ (hostile_here l logs h) = rw ((log_panics_iff hub l).1 h) refl
Hostile-panics hub _ (hostile_later l logs h) = rw (Hostile-panics hub logs h) (ground arith)

pub panics_iff : (hub : Hub) (logs : List Log) → (panics hub logs ≡ true) ↔ Hostile hub logs
panics_iff hub logs = (panics-Hostile hub logs, Hostile-panics hub logs)

pub calm-panics : (hub : Hub) (logs : List Log) → ¬ Hostile hub logs → panics hub logs ≡ false
calm-panics hub logs h = elim (Bool-cases (panics hub logs)) [
  | inl p ↦ absurd (h (panics-Hostile hub logs p))
  | inr p ↦ p
]

-- Without a hostile log these are all.
pub calm-before_panic :
    (hub : Hub) (logs : List Log) → panics hub logs ≡ false → before_panic hub logs ≡ logs
unfolding panics before_panic
calm-before_panic hub [] e = refl
calm-before_panic hub (l ∷ logs) e = elim (Bool-cases (log_panics hub l)) [
  | inl p ↦ absurd (ground (arith, p, e))
  | inr p ↦ rw p (ap (λ rest. l ∷ rest) (calm-before_panic hub logs (ground (arith, p, e))))
]

pub read_log-loop :
    (hub : Hub) (hash : ℕ) (logs : List Log) (r : Reading)
    → loop hub (read_log hub hash) logs r
      ≡ (panics hub logs, read_logs hub hash (before_panic hub logs) r)
unfolding read_logs
read_log-loop hub hash =
    loop-before_panic hub (read_log hub hash) (read_logs hub hash) (λ r. refl) (λ l logs r. refl)

pub read_hub_events-loop :
    (hub : Hub) (hash : ℕ) (logs : List Log) (t : Tracker)
    → read_hub_events hub hash (some logs) t
      ≡ outcome_of (panics hub logs, read_logs hub hash (before_panic hub logs) (first_reading t))
unfolding read_hub_events
read_hub_events-loop hub hash logs t = ap outcome_of (read_log-loop hub hash logs (first_reading t))

pub read_hub_events-calm :
    (hub : Hub) (hash : ℕ) (logs : List Log) (t : Tracker)
    → panics hub logs ≡ false
    → let r = read_logs hub hash logs (first_reading t) in
      read_hub_events hub hash (some logs) t ≡ (some (finish r), r.tracker, r.log)
unfolding outcome_of
read_hub_events-calm hub hash logs t calm =
    read_hub_events-loop hub hash logs t
    ∙ ap (λ b. outcome_of (b, read_logs hub hash (before_panic hub logs) (first_reading t))) calm
    ∙ ap (λ ls. outcome_of (false, read_logs hub hash ls (first_reading t)))
        (calm-before_panic hub logs calm)

loop-panics {ℓ} :
    {A : Type ℓ} (hub : Hub) (body : Log → A → A) (logs : List Log) (a : A)
    → (loop hub body logs a).0 ≡ panics hub logs
unfolding loop panics
loop-panics hub body [] a = refl
loop-panics hub body (l ∷ logs) a = elim (Bool-cases (log_panics hub l)) [
  | inl p ↦ rw p refl
  | inr p ↦ rw p (loop-panics hub body logs (body l a))
]

pub loop-Hostile {ℓ} :
    {A : Type ℓ} (hub : Hub) (body : Log → A → A) (logs : List Log) (a : A)
    → ((loop hub body logs a).0 ≡ true) ↔ Hostile hub logs
loop-Hostile hub body logs a =
    let e = loop-panics hub body logs a in
    let i = panics_iff hub logs in (λ t. i.0 (sym e ∙ t), λ h. e ∙ i.1 h)
