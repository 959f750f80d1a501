-- ===== src/Errors/Wrapped.antt =====
-- What an error keeps as it is wrapped, and as it is given a context.
use gas_management.Base.{◌≡◌, refl, some, Key}
use gas_management.Base.Int.{pos}
use gas_management.Errors.{
  GoError, custom_error, foreign, error_text, new_error, wrapf, wrapped_text, add_error_context,
  get_error_context, get_type, error_code,
}

-- An error that is wrapped, and then given a context, keeps its type, has the wrapped text and that
-- context, and has the code 0 whatever its code was.
pub add_error_context-wrapf :
    (e : GoError) (msg field message : Key)
    → let r = add_error_context (wrapf e msg) field message in
      (get_type r ≡ get_type e)
      × (error_text r ≡ wrapped_text e msg)
      × (get_error_context r ≡ some (record { field = field; message = message }))
      × (error_code r ≡ some (pos 0))
unfolding add_error_context wrapf new_error error_text get_type get_error_context error_code
add_error_context-wrapf (custom_error e) msg field message = (refl, refl, refl, refl)
add_error_context-wrapf (foreign text) msg field message = (refl, refl, refl, refl)
