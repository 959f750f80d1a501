-- ===== src/Errors.antt =====
-- errors/errors.go: errors with a type and a code. An error of another package is its text. A message is
-- the text that fmt makes of a format and its arguments, and what github.com/pkg/errors keeps of a
-- stack is left out. The error that is wrapped is not nil: of nil, errors.Wrapf makes nil.
pub mod Wrapped
use gas_management.Base.{ℕ, Option, none, some, [], ◌∷◌, ◌++◌, Key}
use gas_management.Base.Int.{ℤ, pos}

pub data ErrorType : Type 0 where
  no_type bad_transaction failed_transaction failed_connection failed_keystore : ErrorType
  failed_read_file failed_read_env failed_key_config failed_config_transaction : ErrorType
  failed_contract call_blockchain_failed malformed_raw_transaction invalid_address : ErrorType

pub record ErrorContext : Type 0 where
  pub field : Key
  pub message : Key

abbrev pub no_context : ErrorContext
no_context = record { field = []; message = [] }

pub record CustomError : Type 0 where
  pub error_type : ErrorType
  pub original_error : Key
  pub context : ErrorContext
  pub error_code : ℤ

pub data GoError : Type 0 where
  custom_error : CustomError → GoError
  foreign : Key → GoError

-- `Error`.
unfoldable pub error_text : GoError → Key
error_text (custom_error e) = e.original_error
error_text (foreign text) = text

-- `New` of a type, and the `New` without one.
unfoldable pub new_error : ErrorType → Key → ℤ → GoError
new_error error_type msg code = custom_error (record {
  error_type = error_type;
  original_error = msg;
  context = no_context;
  error_code = code;
})

-- `Newf` of a type: no code.
unfoldable pub newf : ErrorType → Key → GoError
newf error_type msg = new_error error_type msg (pos 0)

-- `errors.Wrapf`: the message, ": " and the text.
abbrev pub wrapped_text : GoError → Key → Key
wrapped_text e msg = msg ++ (58 ∷ 32 ∷ error_text e)

-- `Wrap` and `Wrapf` of a type.
unfoldable pub wrap_as : ErrorType → GoError → Key → ℤ → GoError
wrap_as error_type e msg code = new_error error_type (wrapped_text e msg) code

-- `Wrap` and `Wrapf` without one: the type and the context stay, and there is no code.
unfoldable pub wrapf : GoError → Key → GoError
wrapf (custom_error e) msg = custom_error (record {
  error_type = e.error_type;
  original_error = wrapped_text (custom_error e) msg;
  context = e.context;
  error_code = pos 0;
})
wrapf (foreign text) msg = new_error no_type (wrapped_text (foreign text) msg) (pos 0)

-- `AddErrorContext`: there is no code after it either.
unfoldable pub add_error_context : GoError → Key → Key → GoError
add_error_context (custom_error e) field message = custom_error (record {
  error_type = e.error_type;
  original_error = e.original_error;
  context = record { field = field; message = message };
  error_code = pos 0;
})
add_error_context (foreign text) field message = custom_error (record {
  error_type = no_type;
  original_error = text;
  context = record { field = field; message = message };
  error_code = pos 0;
})

-- `GetErrorContext`: of every error of this package, also without a context.
unfoldable pub get_error_context : GoError → Option ErrorContext
get_error_context (custom_error e) = some e.context
get_error_context (foreign text) = none

-- `GetType` and `ErrorCode`.
unfoldable pub get_type : GoError → ErrorType
get_type (custom_error e) = e.error_type
get_type (foreign text) = no_type

unfoldable pub error_code : GoError → Option ℤ
error_code (custom_error e) = some e.error_code
error_code (foreign text) = none
