-- ===== src/Controller/Reads.antt =====
-- Nonce of controller/endpoints.go, and pathParam of controller/router.go.
use gas_management.Base.{
  ℕ, ◌≡◌, refl, Bool, ◌||◌, not, [], ◌∷◌, Key, ◌==◌, if◌then◌else◌, is_empty_text, texts_eq,
}
use gas_management.Service.Rejection.{Cause, Result, ok, err}
use gas_management.Service.Permissioning.{AddressText}
use gas_management.Service.Send.{Office}
use gas_management.Service.Nonce.{Asking, CountReads, NonceState, nonce_of}

-- `strings.TrimPrefix` and `strings.Trim` with "/".
abbrev pub trim_text_prefix : Key → Key → Key → Key
trim_text_prefix whole [] text = text
trim_text_prefix whole (c ∷ cs) [] = whole
trim_text_prefix whole (c ∷ cs) (d ∷ ds) =
    let rest = trim_text_prefix whole cs ds in if c == d then rest else whole

abbrev pub trim_slashes_left : Key → Key
trim_slashes_left [] = []
trim_slashes_left (c ∷ cs) = let rest = trim_slashes_left cs in if c == b'/' then rest else c ∷ cs

abbrev pub cons_unless_slash : ℕ → Key → Key
cons_unless_slash c [] = if c == b'/' then [] else c ∷ []
cons_unless_slash c (d ∷ ds) = c ∷ d ∷ ds

abbrev pub trim_slashes_right : Key → Key
trim_slashes_right [] = []
trim_slashes_right (c ∷ cs) = cons_unless_slash c (trim_slashes_right cs)

unfoldable pub path_param : Key → Key → Key
path_param path prefix = trim_slashes_right (trim_slashes_left (trim_text_prefix path prefix path))

-- `peekRequested`, of the value in the query: "true" or "1".
unfoldable pub peek_requested : Key → Bool
peek_requested peek = texts_eq peek (b't' ∷ b'r' ∷ b'u' ∷ b'e' ∷ []) || texts_eq peek (b'1' ∷ [])

pub data NonceReply : Type 0 where
  address_expected : NonceReply
  address_invalid : Key → NonceReply
  nonce_failed : Cause → NonceReply
  nonce_response : Key → NonceState → NonceReply

abbrev pub nonce_reply : Key → Result NonceState × Office → NonceReply × Office
nonce_reply address (err cause, s) = (nonce_failed cause, s)
nonce_reply address (ok state, s) = (nonce_response address state, s)

-- `Nonce`, of the path and the query, with how the library writes an address.
unfoldable pub nonce :
    AddressText
    → (ℕ → Key)
    → Key
    → Key
    → Key
    → CountReads
    → Asking
    → ℕ
    → Office
    → NonceReply × Office
nonce lib address_hex prefix path peek r e later s =
    let text = path_param path prefix in
    let address = address_hex (lib.hex_to_address text) in
    let found = nonce_reply address (nonce_of s address (peek_requested peek) r e later) in
    if is_empty_text text
    then (address_expected, s)
    else (if not (lib.is_hex_address text) then (address_invalid text, s) else found)

-- "/n/a/" after "/n/".
trimmed : path_param (47 ∷ 110 ∷ 47 ∷ 97 ∷ 47 ∷ []) (47 ∷ 110 ∷ 47 ∷ []) ≡ 97 ∷ []
unfolding path_param
trimmed = refl
