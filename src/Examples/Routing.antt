-- ===== src/Examples/Routing.antt =====
-- A question that a browser asks ahead of `POST /relay`, and a `POST /relay`.
use gas_management.Base.{◌≡◌, refl, true, [], ◌∷◌, Key}
use gas_management.Examples.{ann}
use gas_management.Controller.Router.{
  Request, json_rpc_route, relay_route, handled, method_not_allowed, preflight_answered, get_method,
  post_method, options_method, connect_method, relay_path, info_path, handler, serve_mux, routes,
  only_method, with_cors,
}

abbrev ask : Key → Key → Request
ask method path = record { method = method; path = path; origin = ann }

-- A CONNECT whose path is not clean reaches the JSON-RPC handler.
connect_is_served :
    (handler (λ path. relay_path) [] true (ask connect_method [])).served ≡ handled json_rpc_route
unfolding handler serve_mux routes with_cors
connect_is_served = refl

relay_is_served :
    (handler (λ path. path) (ann ∷ []) true (ask post_method relay_path)).served
    ≡ handled relay_route
unfolding handler serve_mux routes only_method with_cors
relay_is_served = refl

question_is_answered :
    (handler (λ path. path) (ann ∷ []) true (ask options_method relay_path)).served
    ≡ preflight_answered
unfolding handler serve_mux routes only_method with_cors
question_is_answered = refl

info_takes_no_post :
    (handler (λ path. path) [] true (ask post_method info_path)).served
    ≡ method_not_allowed get_method
unfolding handler serve_mux routes only_method with_cors
info_takes_no_post = refl
