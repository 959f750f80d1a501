-- ===== src/Service/Nonce/Agree.antt =====
-- The two doors of the nonce, GET /nonce/{address} and eth_getTransactionCount.
use gas_management.Base.{ℕ, ◌≡◌, Bool, true, false, Key, ltb, arith, if◌then◌else◌}
use gas_management.Service.Rejection.{Result, ok, err}
use gas_management.Service.Send.{Office}
use gas_management.Service.Nonce.{
  Asking, NonceState, CountReads, checked_count, advanced_by, with_inflight, handed_to, nonce_of,
  CountAnswer, count_error, count_is, count_nil, count_of_hub, handed_or, hand_out_nonce,
  get_transaction_count,
}

-- The larger of two numbers.
abbrev pub larger : ℕ → ℕ → ℕ
larger a b = if ltb a b then b else a

-- What the doors say of a count of the hub, and the states that they leave.
abbrev pub Agree : ℕ → Result NonceState × Office → CountAnswer × Office → Type 0
Agree on_chain (err cause, s) (c, u) = ⊥
Agree on_chain (ok state, s) (count_error cause, u) = ⊥
Agree on_chain (ok state, s) (count_nil, u) = ⊥
Agree on_chain (ok state, s) (count_is next, u) =
    (state.on_chain ≡ on_chain)
    × (state.next ≡ larger on_chain next)
    × (s.tickets ≡ u.tickets)
    × (s.memory ≡ u.memory)

handed-Agree :
    (handed : Result ℕ) (address : Key) (on_chain later : ℕ) (s : Office)
    → let (state, u) = with_inflight address later (advanced_by on_chain handed, s) in
      Agree on_chain (ok state, u) (handed_or handed (count_is on_chain), s)
unfolding with_inflight advanced_by
handed-Agree (err cause) address on_chain later s = ground arith
handed-Agree (ok next) address on_chain later s = ground arith

-- Of the same state, and with the same answers of the node, which gives a count: GET /nonce without
-- `peek` says the larger of the count and the number that eth_getTransactionCount says of "pending",
-- and both leave the same tickets and the same memory.
pub nonce_of-Agree :
    (s : Office) (address : Key) (node on_chain : ℕ) (b : Bool) (e : Asking) (later : ℕ)
    → let r : CountReads = record {
      resolved = true;
      mine = ok node;
      connect = ok b;
      count = ok on_chain;
    } in
      Agree on_chain (nonce_of s address false r e later) (get_transaction_count s address true r e)
unfolding nonce_of handed_to checked_count get_transaction_count count_of_hub
nonce_of-Agree s address node on_chain b e later =
    let (handed, u) = hand_out_nonce s address false e in
    handed-Agree handed address on_chain later u
