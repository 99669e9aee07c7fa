-- ===== src/Agent/Served.antt =====
-- The routes that the webhooks of a configuration get.
use kickd.Prelude.{
  ◌≡◌, ◌≢◌, refl, ap, subst, ◌∙◌, sym, Bool, true, false, inl, inr, String, Option, none, some, not,
  ◌&&◌, nat_eq, arith, List, [], ◌∷◌, ◌++◌, map, contains, All, if◌then◌else◌, string_eq, ◌==◌,
  Bool-cases,
}
use Prim.Native.Char.{code}
use kickd.Prelude.Ascii.{has_prefix, all_chars}
use kickd.Prelude.Map.{Map, lookup, insert, lookup-insert}
use kickd.Config.Model.{Event, Trigger, Config, is_enabled, kind_of}
use kickd.Config.Defaults.{System}
use kickd.Config.Load.{Yaml, loaded, parse}
use kickd.Config.Use.{is_kind_webhook}
use kickd.Webhook.Request.{Route}
use kickd.Webhook.Serve.{paths, patterns, register_on, register}
use kickd.Agent.Routes.{after_register, route_of, add_route, add_routes, add_all_routes, routes_of}
use kickd.Agent.{and_then}
use kickd.Agent.Hooks.{hook_paths, all_hook_paths, AreNew, check_events-AreNew}
use kickd.Agent.Accepted.{parse-checked}

-- The webhooks of the events in their order, each with the route that it asks for.
unfoldable pub hooks_of : Event → List Trigger → List Route
hooks_of e [] = []
hooks_of e (t ∷ ts) =
    let later = hooks_of e ts in
    if is_kind_webhook (kind_of t.type) then route_of e t ∷ later else later

unfoldable pub all_hooks : List Event → List Route
all_hooks [] = []
all_hooks (e ∷ es) = hooks_of e e.triggers ++ all_hooks es

abbrev paths_of : List Route → List String
paths_of rs = map (λ (r : Route). r.path) rs

-- Where no path is refused and none panics, the routes are put in one after the other.
unfoldable put_all : List Route → Map String Route → Map String Route
put_all [] m = m
put_all (r ∷ rs) m = put_all rs (insert r.path r m)

module _ (takes : List String → String → Bool) where
  unfoldable register_all : List Route → Map String Route → Option (Map String Route)
  register_all [] m = some m
  register_all (r ∷ rs) m = and_then (add_route takes r m) (register_all rs)

  register_all-append :
      (rs qs : List Route) (m : Map String Route)
      → register_all (rs ++ qs) m ≡ and_then (register_all rs m) (register_all qs)
  unfolding register_all
  register_all-append [] qs m = refl
  register_all-append (r ∷ rs) qs m = go (add_route takes r m) (λ n. register_all-append rs qs n)
    where
      go :
          (o : Option (Map String Route))
          → ((n : Map String Route)
              → register_all (rs ++ qs) n ≡ and_then (register_all rs n) (register_all qs))
          → and_then o (register_all (rs ++ qs))
            ≡ and_then (and_then o (register_all rs)) (register_all qs)
      go none h = refl
      go (some n) h = h n

  and_then-eq :
      (o : Option (Map String Route)) (f g : Map String Route → Option (Map String Route))
      → ((n : Map String Route) → f n ≡ g n)
      → and_then o f ≡ and_then o g
  and_then-eq none f g h = refl
  and_then-eq (some n) f g h = h n

  add_routes-eq :
      (e : Event) (ts : List Trigger) (m : Map String Route)
      → add_routes takes e ts m ≡ register_all (hooks_of e ts) m
  unfolding add_routes register_all hooks_of
  add_routes-eq e [] m = refl
  add_routes-eq e (t ∷ ts) m = elim (Bool-cases (is_kind_webhook (kind_of t.type))) [
    | inl f ↦ rw f (and_then-eq (add_route takes (route_of e t) m) _ _ (λ n. add_routes-eq e ts n))
    | inr f ↦ rw f (add_routes-eq e ts m)
  ]

  add_all_routes-eq :
      (es : List Event) (m : Map String Route)
      → add_all_routes takes es m ≡ register_all (all_hooks es) m
  unfolding add_all_routes register_all all_hooks
  add_all_routes-eq [] m = refl
  add_all_routes-eq (e ∷ es) m =
      and_then-eq (add_routes takes e e.triggers m) _ _ (λ n. add_all_routes-eq es n)
      ∙ ap (λ o. and_then o (register_all (all_hooks es))) (add_routes-eq e e.triggers m)
      ∙ sym (register_all-append (hooks_of e e.triggers) (all_hooks es) m)

map-append : (rs qs : List Route) → paths_of (rs ++ qs) ≡ paths_of rs ++ paths_of qs
map-append [] qs = refl
map-append (r ∷ rs) qs = ap (λ ps. r.path ∷ ps) (map-append rs qs)

paths-hooks_of : (e : Event) (ts : List Trigger) → paths_of (hooks_of e ts) ≡ hook_paths ts
unfolding hooks_of hook_paths
paths-hooks_of e [] = refl
paths-hooks_of e (t ∷ ts) = elim (Bool-cases (is_kind_webhook (kind_of t.type))) [
  | inl f ↦ rw f (ap (λ ps. t.path ∷ ps) (paths-hooks_of e ts))
  | inr f ↦ rw f (paths-hooks_of e ts)
]

paths-all_hooks : (es : List Event) → paths_of (all_hooks es) ≡ all_hook_paths es
unfolding all_hooks all_hook_paths
paths-all_hooks [] = refl
paths-all_hooks (e ∷ es) =
    map-append (hooks_of e e.triggers) (all_hooks es)
    ∙ ap (λ ps. ps ++ paths_of (all_hooks es)) (paths-hooks_of e e.triggers)
    ∙ ap (λ ps. hook_paths e.triggers ++ ps) (paths-all_hooks es)

-- The routes are those of paths that are taken.
abbrev OnlyTaken : List String → Map String Route → Type 0
OnlyTaken hooks m = (k : String) → contains hooks k ≡ false → lookup k m ≡ none

-- A path without wildcards, escapes or a method, which http.ServeMux takes as it is.
abbrev pub is_plain : String → Bool
is_plain p =
    has_prefix p "/" && all_chars (λ c. not (contains (123 ∷ 125 ∷ 32 ∷ 9 ∷ 37 ∷ []) (code c))) p

paths-lookup :
    (k : String) (m : Map String Route) → lookup k m ≡ none → contains (paths m) k ≡ false
unfolding paths lookup
paths-lookup k [] h = refl
paths-lookup k ((j, r) ∷ m) h = elim (Bool-cases (j == k)) [
  | inl e ↦ absurd (let x = rw e at h in cc)
  | inr e ↦ rw e (paths-lookup k m (rw e at h))
]

paths-insert :
    (k : String) (r : Route) (m : Map String Route)
    → is_plain k ≡ true
    → All (λ p. is_plain p ≡ true) (paths m)
    → All (λ p. is_plain p ≡ true) (paths (insert k r m))
unfolding paths insert
paths-insert k r [] h a = (h, tt)
paths-insert k r ((j, q) ∷ m) h (b, a) = elim (Bool-cases (j == k)) [
  | inl e ↦ rw e (h, a)
  | inr e ↦ rw e (b, paths-insert k r m h a)
]

not_healthz : (p : String) → (p == "/healthz") ≡ false → ("/healthz" == p) ≡ false
not_healthz p h = ground (arith, h, string_eq.decides p "/healthz", string_eq.decides "/healthz" p)

add_route-new :
    (takes : List String → String → Bool) (r : Route) (m : Map String Route)
    → lookup r.path m ≡ none
    → takes (patterns m) r.path ≡ true
    → add_route takes r m ≡ some (insert r.path r m)
unfolding register
add_route-new takes r m free taken =
    ap (λ o. after_register m (register_on takes r m o)) free ∙ unfold register_on in rw taken refl

OnlyTaken-insert :
    (r : Route) (hooks : List String) (m : Map String Route)
    → OnlyTaken hooks m
    → OnlyTaken (r.path ∷ hooks) (insert r.path r m)
OnlyTaken-insert r hooks m o k h = elim (Bool-cases (r.path == k)) [
  | inl e ↦ absurd (taken_too (rw e at h))
  | inr e ↦ lookup-insert r.path k r m ∙ rw e (o k (rw e at h))
]
  where
    taken_too : true ≢ false
    taken_too g = cc

lookup-kept :
    (r : Route) (m : Map String Route) (k : String) (x : Route)
    → lookup r.path m ≡ none
    → lookup k m ≡ some x
    → lookup k (insert r.path r m) ≡ some x
lookup-kept r m k x free h = elim (Bool-cases (r.path == k)) [
  | inl e ↦
      absurd
        (nothing (sym (subst (λ j. lookup j m ≡ none) ((string_eq.decides r.path k).0 e) free) ∙ h))
  | inr e ↦ lookup-insert r.path k r m ∙ rw e h
]
  where
    nothing : none ≢ some x
    nothing g = cc

put_all-keeps :
    (rs : List Route) (hooks : List String) (m : Map String Route) (k : String) (x : Route)
    → OnlyTaken hooks m
    → AreNew hooks (paths_of rs)
    → lookup k m ≡ some x
    → lookup k (put_all rs m) ≡ some x
unfolding put_all
put_all-keeps [] hooks m k x o a h = h
put_all-keeps (r ∷ rs) hooks m k x o (new, a) h =
    put_all-keeps rs (r.path ∷ hooks) (insert r.path r m) k x (OnlyTaken-insert r hooks m o) a
      (lookup-kept r m k x (o r.path new.0) h)

put_all-All :
    (rs : List Route) (hooks : List String) (m : Map String Route)
    → OnlyTaken hooks m
    → AreNew hooks (paths_of rs)
    → All (λ (r : Route). lookup r.path (put_all rs m) ≡ some r) rs
unfolding put_all
put_all-All [] hooks m o a = tt
put_all-All (r ∷ rs) hooks m o (new, a) =
    let o' = OnlyTaken-insert r hooks m o in
    let added : lookup r.path (insert r.path r m) ≡ some r =
      lookup-insert r.path r.path r m ∙ rw ((string_eq.decides r.path r.path).1 refl) refl in
    (
      put_all-keeps rs (r.path ∷ hooks) (insert r.path r m) r.path r o' a added,
      put_all-All rs (r.path ∷ hooks) (insert r.path r m) o' a,
    )

module _ (takes : List String → String → Bool)
    (plain_taken : (ps : List String) (p : String)
      → All (λ q. is_plain q ≡ true) ps
      → is_plain p ≡ true
      → contains ps p ≡ false
      → takes ps p ≡ true) where
  healthz_plain : is_plain "/healthz" ≡ true
  unfolding has_prefix all_chars
  healthz_plain = refl

  register_all-put_all :
      (rs : List Route) (hooks : List String) (m : Map String Route)
      → OnlyTaken hooks m
      → All (λ p. is_plain p ≡ true) (paths m)
      → AreNew hooks (paths_of rs)
      → All (λ p. is_plain p ≡ true) (paths_of rs)
      → register_all takes rs m ≡ some (put_all rs m)
  unfolding register_all put_all
  register_all-put_all [] hooks m o ps a h = refl
  register_all-put_all (r ∷ rs) hooks m o ps (new, a) (p, h) =
      let free = o r.path new.0 in
      let fresh : contains (patterns m) r.path ≡ false =
        rw (not_healthz r.path new.1) (paths-lookup r.path m free) in
      let taken = plain_taken (patterns m) r.path (healthz_plain, ps) p fresh in
      ap (λ x. and_then x (register_all takes rs)) (add_route-new takes r m free taken)
      ∙ register_all-put_all rs (r.path ∷ hooks) (insert r.path r m) (OnlyTaken-insert r hooks m o)
          (paths-insert r.path r m p ps) a h

  routes_of-enabled :
      (c : Config)
      → is_enabled c.webhook ≡ true
      → routes_of takes c ≡ add_all_routes takes c.events []
  unfolding routes_of
  routes_of-enabled c on =
      ap
        (λ b. elim b as (λ _. Option (Map String Route)) [
          | true ↦ add_all_routes takes c.events []
          | false ↦ some []
        ])
        on

  -- Take http.ServeMux to take every path that it does not have yet where neither that path nor the
  -- ones before it have a wildcard, an escape or a space. Of a configuration that parse returns, where
  -- webhooks are enabled and all paths are such paths, each webhook of each event is registered on its
  -- path with the route that it asks for: no path is registered for two of them, and none panics.
  pub routes_serve :
      (yaml : Yaml) (sys : System) (parses : String → String → Bool) (path dir text : String)
      (others : List (String × String)) (c : Config)
      → parse yaml sys parses path dir text others ≡ loaded c
      → is_enabled c.webhook ≡ true
      → All (λ p. is_plain p ≡ true) (all_hook_paths c.events)
      → (m : Map String Route) × ((routes_of takes c ≡ some m)
          × All (λ (r : Route). lookup r.path m ≡ some r) (all_hooks c.events))
  unfolding lookup paths
  routes_serve yaml sys parses path dir text others c h on plain =
      let rs = all_hooks c.events in
      let same = sym (paths-all_hooks c.events) in
      let new = subst (AreNew []) same (
        check_events-AreNew sys parses c.path _ [] [] c.events
          (parse-checked yaml sys parses path dir text others c h)) in
      (
        put_all rs [],
        (
          routes_of-enabled c on
              ∙ add_all_routes-eq takes c.events []
              ∙ register_all-put_all rs [] [] (λ k e. refl) tt new
                  (subst (λ ps. All (λ p. is_plain p ≡ true) ps) same plain),
          put_all-All rs [] [] (λ k e. refl) new,
        ),
      )
