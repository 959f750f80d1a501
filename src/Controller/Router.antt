-- ===== src/Controller/Router.antt =====
-- controller/router.go: which handler a request reaches, and the headers of cross-origin requests. The
-- mux of net/http is modelled as it is used: exact paths, one subtree, the catch-all, and its
-- redirects; `clean_path` is how it cleans a path. EqualFold is that of ASCII.
pub mod Guards
pub mod Cors
use gas_management.Base.{
  texts_eq, is_empty_text, ℕ, Bool, true, false, not, ◌&&◌, Option, none, some, List, [], ◌∷◌, Key,
  map, ◌==◌, if◌then◌else◌,
}
use gas_management.Service.Tracker.Chains.{to_lower}

pub data Route : Type 0 where
  json_rpc_route info_route relay_route nonce_route : Route
  dashboard_route stream_route : Route

pub record Request : Type 0 where
  pub method : Key
  pub path : Key
  pub origin : Key

-- What becomes of a request: a handler takes it, its method is refused and the one that is allowed is
-- named, the mux sends it to another path, or the question of a browser is answered.
pub data Served : Type 0 where
  handled : Route → Served
  method_not_allowed : Key → Served
  redirected : Key → Served
  preflight_answered : Served

pub record Reply : Type 0 where
  pub allow_origin : Option Key
  pub served : Served

-- "/info", "/relay", "/nonce/", "/dashboard", "/dashboard/stream", "*", in ASCII.
abbrev pub info_path : Key
info_path = 47 ∷ 105 ∷ 110 ∷ 102 ∷ 111 ∷ []

abbrev pub relay_path : Key
relay_path = 47 ∷ 114 ∷ 101 ∷ 108 ∷ 97 ∷ 121 ∷ []

abbrev pub nonce_bare : Key
nonce_bare = 47 ∷ 110 ∷ 111 ∷ 110 ∷ 99 ∷ 101 ∷ []

abbrev pub nonce_path : Key
nonce_path = 47 ∷ 110 ∷ 111 ∷ 110 ∷ 99 ∷ 101 ∷ 47 ∷ []

abbrev pub dashboard_path : Key
dashboard_path = 47 ∷ 100 ∷ 97 ∷ 115 ∷ 104 ∷ 98 ∷ 111 ∷ 97 ∷ 114 ∷ 100 ∷ []

abbrev pub stream_path : Key
stream_path =
    47 ∷ 100 ∷ 97 ∷ 115 ∷ 104 ∷ 98 ∷ 111 ∷ 97 ∷ 114 ∷ 100 ∷ 47 ∷ 115 ∷ 116 ∷ 114 ∷ 101 ∷ 97 ∷ 109
    ∷ []

-- "GET", "POST", "OPTIONS" and "CONNECT".
abbrev pub get_method : Key
get_method = 71 ∷ 69 ∷ 84 ∷ []

abbrev pub post_method : Key
post_method = 80 ∷ 79 ∷ 83 ∷ 84 ∷ []

abbrev pub options_method : Key
options_method = 79 ∷ 80 ∷ 84 ∷ 73 ∷ 79 ∷ 78 ∷ 83 ∷ []

abbrev pub connect_method : Key
connect_method = 67 ∷ 79 ∷ 78 ∷ 78 ∷ 69 ∷ 67 ∷ 84 ∷ []

abbrev pub any_origin : Key
any_origin = 42 ∷ []

abbrev pub has_prefix : Key → Key → Bool
has_prefix [] text = true
has_prefix (c ∷ cs) [] = false
has_prefix (c ∷ cs) (d ∷ ds) = (c == d) && has_prefix cs ds

-- `onlyMethod`.
unfoldable pub only_method : Key → Route → Key → Served
only_method allowed route method =
    if texts_eq method allowed then handled route else method_not_allowed allowed

-- `Routes`, with the handlers that the mux picks for a path.
unfoldable pub routes : Bool → Key → Key → Served
routes dashboard path method =
    if texts_eq path info_path
    then only_method get_method info_route method
    else (if texts_eq path relay_path
        then only_method post_method relay_route method
        else (if has_prefix nonce_path path
            then only_method get_method nonce_route method
            else (if texts_eq path nonce_bare
                then redirected nonce_path
                else (if dashboard && texts_eq path dashboard_path
                    then only_method get_method dashboard_route method
                    else (if dashboard && texts_eq path stream_path
                        then only_method get_method stream_route method
                        else handled json_rpc_route)))))

-- The path of a CONNECT is taken as it is.
unfoldable pub serve_mux : (Key → Key) → Bool → Request → Served
serve_mux clean_path dashboard r =
    let path = if texts_eq r.method connect_method then r.path else clean_path r.path in
    if texts_eq path r.path then routes dashboard r.path r.method else redirected path

abbrev pub equal_fold : Key → Key → Bool
equal_fold a b = texts_eq (map to_lower a) (map to_lower b)

match_in : List Key → Key → Option Key
match_in [] origin = none
match_in (allowed ∷ rest) origin =
    let later = match_in rest origin in
    if texts_eq allowed any_origin
    then some any_origin
    else (if equal_fold allowed origin then some origin else later)

-- `matchOrigin`; none is the empty text.
unfoldable pub match_origin : List Key → Key → Option Key
unfolding match_in
match_origin origins origin = if is_empty_text origin then none else match_in origins origin

-- `withCORS` over the mux.
unfoldable pub with_cors : List Key → Request → Served → Reply
with_cors [] r next = record { allow_origin = none; served = next }
with_cors (o ∷ os) r next = record {
  allow_origin = match_origin (o ∷ os) r.origin;
  served = if texts_eq r.method options_method then preflight_answered else next;
}

-- `Handler`: the whole service, with its configured origins and its dashboard on or off.
unfoldable pub handler : (Key → Key) → List Key → Bool → Request → Reply
handler clean_path origins dashboard r = with_cors origins r (serve_mux clean_path dashboard r)
