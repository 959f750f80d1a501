-- ===== src/Controller/Router/Guards.antt =====
-- What the routing keeps apart.
use gas_management.Base.{
  texts_eq, ◌≡◌, ◌≢◌, refl, sym, ap, subst, ◌∙◌, Bool, true, false, ◌&&◌, Bool-cases, inl, inr,
  Option, none, some, [], ◌∷◌, ◌++◌, Key, arith, if◌then◌else◌,
}
use gas_management.Controller.Router.{
  get_method, post_method, Route, json_rpc_route, info_route, relay_route, nonce_route,
  dashboard_route, stream_route, handled, redirected, info_path, relay_path, nonce_bare, nonce_path,
  dashboard_path, stream_path, has_prefix, only_method, routes,
}

pub texts_eq→eq : (a b : Key) → texts_eq a b ≡ true → a ≡ b
texts_eq→eq [] [] h = refl
texts_eq→eq [] (d ∷ ds) h = absurd (cc)
texts_eq→eq (c ∷ cs) [] h = absurd (cc)
texts_eq→eq (c ∷ cs) (d ∷ ds) h = ground (arith, texts_eq→eq cs ds)

-- The method that the handler of a route takes; none is any.
abbrev pub method_of : Route → Option Key
method_of json_rpc_route = none
method_of info_route = some get_method
method_of relay_route = some post_method
method_of nonce_route = some get_method
method_of dashboard_route = some get_method
method_of stream_route = some get_method

-- The paths of a route.
abbrev pub IsPathOf : Bool → Route → Key → Type 0
IsPathOf dashboard info_route path = path ≡ info_path
IsPathOf dashboard relay_route path = path ≡ relay_path
IsPathOf dashboard nonce_route path = (rest : Key) × (path ≡ nonce_path ++ rest)
IsPathOf dashboard dashboard_route path = (dashboard ≡ true) × (path ≡ dashboard_path)
IsPathOf dashboard stream_route path = (dashboard ≡ true) × (path ≡ stream_path)
IsPathOf dashboard json_rpc_route path =
    (path ≢ info_path)
    × (path ≢ relay_path)
    × ((rest : Key) → path ≢ nonce_path ++ rest)
    × (path ≢ nonce_bare)
    × (dashboard ≡ true → (path ≢ dashboard_path) × (path ≢ stream_path))

pub texts_eq_refl : (a : Key) → texts_eq a a ≡ true
texts_eq_refl [] = refl
texts_eq_refl (c ∷ cs) = ground (arith, texts_eq_refl cs)

prefix_rest : (p text : Key) → has_prefix p text ≡ true → (rest : Key) × (text ≡ p ++ rest)
prefix_rest [] text h = (text, refl)
prefix_rest (c ∷ cs) [] h = absurd (cc)
prefix_rest (c ∷ cs) (d ∷ ds) h =
    let (rest, e) = prefix_rest cs ds (ground arith) in (rest, ground (arith, e))

prefix_of : (p rest : Key) → has_prefix p (p ++ rest) ≡ true
prefix_of [] rest = refl
prefix_of (c ∷ cs) rest = ground (arith, prefix_of cs rest)

pub ne_of_test : (a b : Key) → texts_eq a b ≡ false → a ≢ b
ne_of_test a b h e =
    let same : (texts_eq a b ≡ true) = ap (λ x. texts_eq x b) e ∙ texts_eq_refl b in absurd (cc)

only_method-handled :
    (allowed : Key) (r route : Route) (method : Key)
    → only_method allowed r method ≡ handled route
    → (r ≡ route) × (method ≡ allowed)
unfolding only_method
only_method-handled allowed r route method h = ground (arith, texts_eq→eq method allowed)

-- A route takes this path, and of this method.
abbrev pub Takes : Bool → Route → Key → Key → Type 0
Takes dashboard route path method =
    IsPathOf dashboard route path × ((m : Key) → method_of route ≡ some m → method ≡ m)

guarded-Takes :
    (dashboard : Bool) (allowed : Key) (r route : Route) (path method : Key)
    → method_of r ≡ some allowed
    → IsPathOf dashboard r path
    → only_method allowed r method ≡ handled route
    → Takes dashboard route path method
guarded-Takes dashboard allowed r route path method a on h =
    let (same, is) = only_method-handled allowed r route method h in
    subst (λ q. Takes dashboard q path method) same (on, λ m e. let k = sym a ∙ e in is ∙ cc)

open-Takes :
    (dashboard : Bool) (route : Route) (path method : Key)
    → IsPathOf dashboard json_rpc_route path
    → handled json_rpc_route ≡ handled route
    → Takes dashboard route path method
open-Takes dashboard route path method p h =
    let same : (json_rpc_route ≡ route) = cc in
    subst (λ q. Takes dashboard q path method) same (p, λ m e. absurd (cc))

both : (a b : Bool) → a && b ≡ true → (a ≡ true) × (b ≡ true)
both true true h = (refl, refl)
both true false h = absurd (cc)
both false b h = absurd (cc)

ruled_out : (a b : Bool) (P : Type 0) → (b ≡ false → ¬ P) → a && b ≡ false → a ≡ true → ¬ P
ruled_out true b P f h e = f h
ruled_out false b P f h e = absurd (cc)

-- The choice of the mux, with the outcomes of its tests as Booleans.
module _ (dashboard : Bool) (route : Route) (path method : Key) where
  choice-Takes :
      (info relay nonce bare page stream : Bool)
      → (info ≡ true → path ≡ info_path)
      → (info ≡ false → path ≢ info_path)
      → (relay ≡ true → path ≡ relay_path)
      → (relay ≡ false → path ≢ relay_path)
      → (nonce ≡ true → (rest : Key) × (path ≡ nonce_path ++ rest))
      → (nonce ≡ false → (rest : Key) → path ≢ nonce_path ++ rest)
      → (bare ≡ false → path ≢ nonce_bare)
      → (page ≡ true → (dashboard ≡ true) × (path ≡ dashboard_path))
      → (page ≡ false → dashboard ≡ true → path ≢ dashboard_path)
      → (stream ≡ true → (dashboard ≡ true) × (path ≡ stream_path))
      → (stream ≡ false → dashboard ≡ true → path ≢ stream_path)
      → (if info
          then only_method get_method info_route method
          else (if relay
              then only_method post_method relay_route method
              else (if nonce
                  then only_method get_method nonce_route method
                  else (if bare
                      then redirected nonce_path
                      else (if page
                          then only_method get_method dashboard_route method
                          else (if stream
                              then only_method get_method stream_route method
                              else handled json_rpc_route))))))
        ≡ handled route
      → Takes dashboard route path method
  choice-Takes true r n b d s i1 i0 r1 r0 n1 n0 b0 d1 d0 s1 s0 h =
      guarded-Takes dashboard get_method info_route route path method refl (i1 refl) h
  choice-Takes false true n b d s i1 i0 r1 r0 n1 n0 b0 d1 d0 s1 s0 h =
      guarded-Takes dashboard post_method relay_route route path method refl (r1 refl) h
  choice-Takes false false true b d s i1 i0 r1 r0 n1 n0 b0 d1 d0 s1 s0 h =
      guarded-Takes dashboard get_method nonce_route route path method refl (n1 refl) h
  choice-Takes false false false true d s i1 i0 r1 r0 n1 n0 b0 d1 d0 s1 s0 h = absurd (cc)
  choice-Takes false false false false true s i1 i0 r1 r0 n1 n0 b0 d1 d0 s1 s0 h =
      guarded-Takes dashboard get_method dashboard_route route path method refl (d1 refl) h
  choice-Takes false false false false false true i1 i0 r1 r0 n1 n0 b0 d1 d0 s1 s0 h =
      guarded-Takes dashboard get_method stream_route route path method refl (s1 refl) h
  choice-Takes false false false false false false i1 i0 r1 r0 n1 n0 b0 d1 d0 s1 s0 h =
      open-Takes dashboard route path method
        (i0 refl, r0 refl, n0 refl, b0 refl, λ e. (d0 refl e, s0 refl e)) h

  not_prefix : has_prefix nonce_path path ≡ false → (rest : Key) → path ≢ nonce_path ++ rest
  not_prefix h rest e =
      let is : (has_prefix nonce_path path ≡ true) =
        ap (has_prefix nonce_path) e ∙ prefix_of nonce_path rest in
      absurd (cc)

  on_dashboard : (p : Key) → dashboard && texts_eq path p ≡ true → (dashboard ≡ true) × (path ≡ p)
  on_dashboard p h =
      let (on, is) = both dashboard (texts_eq path p) h in (on, texts_eq→eq path p is)

  pub routes-Takes :
      routes dashboard path method ≡ handled route → Takes dashboard route path method
  unfolding routes
  routes-Takes h =
      choice-Takes (texts_eq path info_path) (texts_eq path relay_path) (has_prefix nonce_path path)
        (texts_eq path nonce_bare) (dashboard && texts_eq path dashboard_path)
        (dashboard && texts_eq path stream_path) (texts_eq→eq path info_path)
        (ne_of_test path info_path) (texts_eq→eq path relay_path) (ne_of_test path relay_path)
        (prefix_rest nonce_path path) not_prefix (ne_of_test path nonce_bare)
        (on_dashboard dashboard_path)
        (ruled_out dashboard (texts_eq path dashboard_path) (path ≡ dashboard_path)
          (ne_of_test path dashboard_path))
        (on_dashboard stream_path)
        (ruled_out dashboard (texts_eq path stream_path) (path ≡ stream_path)
          (ne_of_test path stream_path))
        h

test_of_ne : (a b : Key) → a ≢ b → texts_eq a b ≡ false
test_of_ne a b h = elim (Bool-cases (texts_eq a b)) [
  | inl e ↦ absurd (h (texts_eq→eq a b e))
  | inr e ↦ e
]

test_of_not_prefix : (p path : Key) → ((rest : Key) → path ≢ p ++ rest) → has_prefix p path ≡ false
test_of_not_prefix p path h = elim (Bool-cases (has_prefix p path)) [
  | inl e ↦ let (rest, is) = prefix_rest p path e in absurd (h rest is)
  | inr e ↦ e
]

off_dashboard : (dashboard b : Bool) → (dashboard ≡ true → b ≡ false) → dashboard && b ≡ false
off_dashboard true b h = h refl
off_dashboard false b h = refl

-- A route gets what it takes.
pub Takes-routes :
    (dashboard : Bool) (route : Route) (path method : Key)
    → Takes dashboard route path method
    → routes dashboard path method ≡ handled route
unfolding routes only_method
Takes-routes dashboard info_route path method (at, by) = rw (at, by get_method refl) refl
Takes-routes dashboard relay_route path method (at, by) = rw (at, by post_method refl) refl
Takes-routes dashboard nonce_route path method ((rest, at), by) = rw (at, by get_method refl) refl
Takes-routes dashboard dashboard_route path method ((on, at), by) =
    rw (on, at, by get_method refl) refl
Takes-routes dashboard stream_route path method ((on, at), by) =
    rw (on, at, by get_method refl) refl
Takes-routes dashboard json_rpc_route path method ((info, relay, nonce, bare, pages), by) =
    rw
      (
        test_of_ne path info_path info,
        test_of_ne path relay_path relay,
        test_of_not_prefix nonce_path path nonce,
        test_of_ne path nonce_bare bare,
        off_dashboard dashboard (texts_eq path dashboard_path)
            (λ on. test_of_ne path dashboard_path (pages on).0),
        off_dashboard dashboard (texts_eq path stream_path)
            (λ on. test_of_ne path stream_path (pages on).1),
      )
      refl
