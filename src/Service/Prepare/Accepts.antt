-- ===== src/Service/Prepare/Accepts.antt =====
-- Which raw transactions become a metatx, and what it carries.
use gas_management.Base.{ℕ, ◌≡◌, ◌⊎◌, true, none, some, Key}
use gas_management.Base.Int.{u64}
use gas_management.Config.{Config}
use gas_management.Service.Rejection.{Rejection, Result, ok}
use gas_management.Service.Validation.{validate_gas_model_suffix}
use gas_management.Service.Permissioning.{Permits, account_permitted}
use gas_management.Service.Prepare.{
  Codec, Transaction, Arrival, Prepared, prepared_of, signing_data_of,
}

module _ (codec : Codec) (config : Config) (e : Arrival) (permits : Permits) (p : Prepared) where
  -- The conditions on a transaction with this signature and this sender, and what becomes of it.
  pub record Signed (tx : Transaction) (from v r s : ℕ) (signing_data : Key) : Type 0 where
    pub has_v : tx.v ≡ some v
    pub has_r : tx.r ≡ some r
    pub has_s : tx.s ≡ some s
    pub pre_eip155 : (u64 v ≡ 27) ⊎ (u64 v ≡ 28)
    pub signed_by : codec.sender_of tx ≡ ok from
    pub suffix_accepted :
        validate_gas_model_suffix (some config) tx.payload e.mine e.unix_now ≡ none
    pub permitted :
        config.security.permissions_enabled ≡ true
        → (account_permitted (some config) permits from e.now e.later e.permitted).0 ≡ ok true
    pub encoded : codec.encode_rlp (signing_data_of tx) ≡ ok signing_data
    pub carries : p ≡ prepared_of codec e tx from (u64 v) r s signing_data

  -- The stages after the signature, for a sender that is named.
  abbrev Rest : Transaction → ℕ → ℕ → ℕ → ℕ → Type 0
  Rest tx from v r s =
      (validate_gas_model_suffix (some config) tx.payload e.mine e.unix_now ≡ none)
      × (config.security.permissions_enabled ≡ true
          → (account_permitted (some config) permits from e.now e.later e.permitted).0 ≡ ok true)
      × ((data' : Key) × (codec.encode_rlp (signing_data_of tx) ≡ ok data')
          × (p ≡ prepared_of codec e tx from v r s data'))

  abbrev FromSender : Result ℕ → Transaction → ℕ → ℕ → ℕ → Type 0
  FromSender sender tx v r s = (from : ℕ) × (sender ≡ ok from) × Rest tx from v r s

  -- Of some signature, of some sender.
  abbrev pub IsSigned : Transaction → Type 0
  IsSigned tx =
      (from : ℕ) × (v : ℕ) × (r : ℕ) × (s : ℕ) × (signing_data : Key) × Signed tx from v r s
        signing_data
