-- ===== src/Service/Revert.antt =====
-- decodeRevertReason and decodeKnownCustomError of service/relaySignerService.go: the text of a
-- revert. A text is a constructor with what it prints; a selector is the number that its 4 bytes
-- spell. `Uint64` of a larger number is its low 64 bits, as math/big has it.
pub mod Slices
pub mod ErrorString
use gas_management.Base.{
  ℕ, zero, suc, ◌+◌, ◌-◌, ◌*◌, ◌%◌, Bool, Option, none, some, List, [], ◌∷◌, Key, length, take,
  drop, ltb, leb, ◌==◌, if◌then◌else◌,
}
use gas_management.Base.Int.{u64}
use gas_management.Service.MetaTx.{set_bytes}

pub data CustomName : Type 0 where
  erc20_insufficient_balance erc20_insufficient_allowance erc20_invalid_sender : CustomName
  erc20_invalid_receiver erc20_invalid_approver erc20_invalid_spender : CustomName
  ownable_unauthorized_account ownable_invalid_owner : CustomName

pub data ArgKind : Type 0 where
  address_kind uint256_kind : ArgKind

pub data Arg : Type 0 where
  address_arg uint256_arg : ℕ → Arg

pub record CustomError : Type 0 where
  pub name : CustomName
  pub args : List ArgKind

pub data Reason : Type 0 where
  no_reason : Reason
  short_output : Key → Reason
  error_text : Key → Reason
  panic_code : ℕ → Reason
  known_error : CustomName → List Arg → Reason
  unknown_error : ℕ → Key → Reason

abbrev one_address : List ArgKind
one_address = address_kind ∷ []

abbrev three_args : List ArgKind
three_args = address_kind ∷ uint256_kind ∷ uint256_kind ∷ []

abbrev custom : CustomName → List ArgKind → CustomError
custom name args = record { name = name; args = args }

-- The catalogue, by selector.
abbrev known_custom_errors : List (ℕ × CustomError)
known_custom_errors =
    (0xe450d38c, custom erc20_insufficient_balance three_args)
    ∷ (0xfb8f41b2, custom erc20_insufficient_allowance three_args)
    ∷ (0x96c6fd1e, custom erc20_invalid_sender one_address)
    ∷ (0xec442f05, custom erc20_invalid_receiver one_address)
    ∷ (0xe602df05, custom erc20_invalid_approver one_address)
    ∷ (0x94280d62, custom erc20_invalid_spender one_address)
    ∷ (0x118cdaa7, custom ownable_unauthorized_account one_address)
    ∷ (0x1e4fbdf7, custom ownable_invalid_owner one_address)
    ∷ []

find_custom : ℕ → List (ℕ × CustomError) → Option CustomError
find_custom selector [] = none
find_custom selector ((s, e) ∷ rest) =
    let later = find_custom selector rest in if s == selector then some e else later

format_arg : ArgKind → Key → Arg
format_arg address_kind word = address_arg (set_bytes 0 (drop 12 word))
format_arg uint256_kind word = uint256_arg (set_bytes 0 word)

format_args : List ArgKind → Key → List Arg
unfolding format_arg
format_args [] args = []
format_args (t ∷ ts) args = format_arg t (take 32 args) ∷ format_args ts (drop 32 args)

custom_or : Option CustomError → ℕ → Key → Reason
unfolding format_args
custom_or none selector output = unknown_error selector output
custom_or (some e) selector output =
    if ltb (length (drop 4 output)) (length e.args * 32)
    then unknown_error selector output
    else known_error e.name (format_args e.args (drop 4 output))

-- What is said of a selector that is neither of the two that Solidity defines.
unfoldable pub decode_custom_error : ℕ → Key → Reason
unfolding find_custom custom_or
decode_custom_error selector output =
    custom_or (find_custom selector known_custom_errors) selector output

abbrev pub error_string_selector : ℕ
error_string_selector = 0x08c379a0

abbrev pub panic_selector : ℕ
panic_selector = 0x4e487b71

-- `xs[lo:hi]` where `hi` is within the length; none is the panic of a slice that ends before it
-- begins.
unfoldable pub slice : Key → ℕ → ℕ → Option Key
slice xs lo hi = if ltb hi lo then none else some (take (hi - lo) (drop lo xs))

text_or_panic : Option Key → Option Reason
text_or_panic none = none
text_or_panic (some text) = some (error_text text)

-- The end of the text, as the code computes it: the sum of two uint64.
abbrev pub text_end : Key → ℕ
text_end output = u64 (68 + u64 (set_bytes 0 (take 32 (drop 36 output))))

unfoldable pub decode_error_string : Key → Option Reason
unfolding text_or_panic
decode_error_string output =
    let otherwise = some (decode_custom_error error_string_selector output) in
    if leb 68 (length output)
    then (if leb (text_end output) (length output)
        then text_or_panic (slice output 68 (text_end output))
        else otherwise)
    else otherwise

unfoldable pub decode_panic : Key → Reason
decode_panic output =
    if leb 36 (length output)
    then panic_code (set_bytes 0 (take 32 (drop 4 output)))
    else decode_custom_error panic_selector output

unfoldable pub decode_selector : ℕ → Key → Option Reason
decode_selector selector output =
    if selector == error_string_selector
    then decode_error_string output
    else some (
        if selector == panic_selector
        then decode_panic output
        else decode_custom_error selector output)

-- `decodeRevertReason`; none is a panic.
unfoldable pub decode_revert_reason : Key → Option Reason
decode_revert_reason output =
    if length output == 0
    then some no_reason
    else (if ltb (length output) 4
        then some (short_output output)
        else decode_selector (set_bytes 0 (take 4 output)) output)
