-- ===== src/Http/Router/Table.antt =====
-- The table of routes of internal/api/router.go, against what github.com/go-chi/chi matches.
use event_driven_arch.Common.{
  String, ◌≡◌, ◌⊎◌, refl, Bool, true, false, ◌&&◌, ◌||◌, List, [], ◌∷◌, Option, none, some, All,
  any, str_eq, eq_iff, eq_refl, arith,
}
use event_driven_arch.Http.Router.{Segment, lit, param, Route, routes, under}

-- A path, split at its slashes, has the form of a pattern.
abbrev pub Fits : List Segment → List String → Type 0
Fits [] [] = Unit {0}
Fits (lit text ∷ ps) (x ∷ xs) = (x ≡ text) × Fits ps xs
Fits (param name ∷ ps) (x ∷ xs) = Fits ps xs
Fits _ _ = ⊥

abbrev pub Accepts : String → Route → Type 0
Accepts method r = (r.method ≡ none) ⊎ (r.method ≡ some method)

-- Some request may be for both.
methods_meet : Option String → Option String → Bool
methods_meet none m = true
methods_meet (some a) none = true
methods_meet (some a) (some b) = str_eq a b

patterns_meet : List Segment → List Segment → Bool
patterns_meet [] [] = true
patterns_meet (lit a ∷ ps) (lit b ∷ qs) = str_eq a b && patterns_meet ps qs
patterns_meet (lit a ∷ ps) (param n ∷ qs) = patterns_meet ps qs
patterns_meet (param n ∷ ps) (lit b ∷ qs) = patterns_meet ps qs
patterns_meet (param n ∷ ps) (param m ∷ qs) = patterns_meet ps qs
patterns_meet _ _ = false

routes_meet : Route → Route → Bool
unfolding methods_meet patterns_meet
routes_meet r q = methods_meet r.method q.method && patterns_meet r.pattern q.pattern

some_meet : List Route → Bool
unfolding routes_meet
some_meet [] = false
some_meet (r ∷ rs) = any (routes_meet r) rs || some_meet rs

Fits-patterns_meet :
    (ps qs : List Segment) (path : List String)
    → Fits ps path
    → Fits qs path
    → patterns_meet ps qs ≡ true
unfolding patterns_meet
Fits-patterns_meet [] [] path a b = refl
Fits-patterns_meet (lit s ∷ ps) (lit t ∷ qs) (x ∷ xs) a b =
    ground (arith, eq_iff s t, Fits-patterns_meet ps qs xs a.1 b.1)
Fits-patterns_meet (lit s ∷ ps) (param n ∷ qs) (x ∷ xs) a b = Fits-patterns_meet ps qs xs a.1 b
Fits-patterns_meet (param n ∷ ps) (lit t ∷ qs) (x ∷ xs) a b = Fits-patterns_meet ps qs xs a b.1
Fits-patterns_meet (param n ∷ ps) (param m ∷ qs) (x ∷ xs) a b = Fits-patterns_meet ps qs xs a b
Fits-patterns_meet [] (lit t ∷ qs) [] a b = absurd b
Fits-patterns_meet [] (param n ∷ qs) [] a b = absurd b
Fits-patterns_meet [] (q ∷ qs) (x ∷ xs) a b = absurd a
Fits-patterns_meet (lit s ∷ ps) [] [] a b = absurd a
Fits-patterns_meet (param n ∷ ps) [] [] a b = absurd a
Fits-patterns_meet (p ∷ ps) [] (x ∷ xs) a b = absurd b
Fits-patterns_meet (lit s ∷ ps) (q ∷ qs) [] a b = absurd a
Fits-patterns_meet (param n ∷ ps) (q ∷ qs) [] a b = absurd a

Accepts-methods_meet :
    (method : String) (r q : Route)
    → Accepts method r
    → Accepts method q
    → methods_meet r.method q.method ≡ true
unfolding methods_meet
Accepts-methods_meet method r q a b = ground (arith, eq_refl method)

module _ (matches : List Segment → List String → Bool)
    (documented : (pattern : List Segment) (path : List String)
      → matches pattern path ≡ true
      → Fits pattern path) where
  -- A route takes a request.
  abbrev pub Takes : String → List String → Route → Type 0
  Takes method path r = Accepts method r × (matches r.pattern path ≡ true)

  -- No request is taken by two routes of the list.
  abbrev pub AreDisjoint : List Route → Type 0
  AreDisjoint [] = Unit {0}
  AreDisjoint (r ∷ rs) =
      All
        (λ q.
          (method : String) (path : List String) → Takes method path r → Takes method path q → ⊥)
        rs
      × AreDisjoint rs

  apart :
      (r q : Route) (method : String) (path : List String)
      → routes_meet r q ≡ false
      → Takes method path r
      → Takes method path q
      → ⊥
  unfolding routes_meet
  apart r q method path unmet (a, fit) (b, fit') =
      let one = Accepts-methods_meet method r q a b in
      let two =
        Fits-patterns_meet r.pattern q.pattern path (documented r.pattern path fit)
          (documented q.pattern path fit') in
      ground arith

  all_apart :
      (r : Route) (rs : List Route)
      → any (routes_meet r) rs ≡ false
      → All
          (λ q.
            (method : String) (path : List String) → Takes method path r → Takes method path q → ⊥)
          rs
  all_apart r [] unmet = tt
  all_apart r (q ∷ rs) unmet =
      ((λ method path. apart r q method path (ground arith)), all_apart r rs (ground arith))

  some_meet-AreDisjoint : (rs : List Route) → some_meet rs ≡ false → AreDisjoint rs
  unfolding some_meet
  some_meet-AreDisjoint [] unmet = tt
  some_meet-AreDisjoint (r ∷ rs) unmet =
      (all_apart r rs (ground arith), some_meet-AreDisjoint rs (ground arith))

  -- Where a pattern matches only paths of its form, with one part for each parameter, no request is
  -- taken by two of the routes of `NewRouter`: which handler a request reaches does not depend on the
  -- order in which they are registered.
  pub routes-AreDisjoint : AreDisjoint routes
  unfolding some_meet routes under
  routes-AreDisjoint = some_meet-AreDisjoint routes refl
