-- ===== src/Controller/Router/Cors.antt =====
-- What reaches a handler, and which origins a reply names.
use gas_management.Base.{◌≡◌, ◌≢◌, ◌⊎◌, Bool, true, List, [], ◌∷◌, Key}
use gas_management.Controller.Router.{
  options_method, connect_method, Route, Request, any_origin, equal_fold,
}
use gas_management.Controller.Router.Guards.{Takes}

-- The origin is one of those that are configured, up to the case of letters, or all are.
abbrev pub Configured : List Key → Key → Key → Type 0
Configured [] origin shown = ⊥
Configured (o ∷ os) origin shown =
    ((o ≡ any_origin) × (shown ≡ any_origin))
    ⊎ ((equal_fold o origin ≡ true) × (shown ≡ origin))
    ⊎ Configured os origin shown

-- One of the origins is "*", or this one up to the case of letters.
abbrev pub Listed : List Key → Key → Type 0
Listed [] origin = ⊥
Listed (o ∷ os) origin = (o ≡ any_origin) ⊎ (equal_fold o origin ≡ true) ⊎ Listed os origin

-- The mux takes the path as it is: of a CONNECT, or of a path that is clean.
abbrev pub TakesPath : (Key → Key) → Request → Type 0
TakesPath clean_path r = (r.method ≡ connect_method) ⊎ (clean_path r.path ≡ r.path)

-- What a request is that reaches the handler of a route.
abbrev pub Reaches : (Key → Key) → List Key → Bool → Request → Route → Type 0
Reaches clean_path origins dashboard r route =
    TakesPath clean_path r
    × Takes dashboard route r.path r.method
    × ((origins ≡ []) ⊎ (r.method ≢ options_method))
