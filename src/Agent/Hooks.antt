-- ===== src/Agent/Hooks.antt =====
-- The webhooks of the events, and that validate finds their paths new.
use kickd.Prelude.{
  ℕ, suc, ◌≡◌, refl, ap, subst, ◌∙◌, Bool, true, false, inl, inr, String, List, [], ◌∷◌, ◌++◌,
  contains, if◌then◌else◌, string_eq, ◌==◌, Bool-cases,
}
use kickd.Prelude.Ascii.{has_prefix}
use kickd.Prelude.Map.{Map}
use kickd.Config.Model.{
  Event, Trigger, Kind, kind_of, manual, cron, webhook, file, after, startup, wake, no_type,
  unknown,
}
use kickd.Config.Use.{is_kind_webhook}
use kickd.Config.Problem.{Place, Fault}
use kickd.Config.Defaults.{System}
use kickd.Config.Check.{with_name}
use kickd.Config.Triggers.{
  Taken, Setting, check_path, check_methods, check_kind, check_trigger, check_triggers, problems_at,
}
use kickd.Config.Load.{event_faults, check_events, setting_of, place_of}
use kickd.Config.Valid.{append-nil_split, problems_at-nil}

abbrev pub path_if : Bool → String → List String → List String
path_if b path later = if b then path ∷ later else later

unfoldable pub hook_paths : List Trigger → List String
hook_paths [] = []
hook_paths (t ∷ ts) = path_if (is_kind_webhook (kind_of t.type)) t.path (hook_paths ts)

unfoldable pub all_hook_paths : List Event → List String
all_hook_paths [] = []
all_hook_paths (e ∷ es) = hook_paths e.triggers ++ all_hook_paths es

-- The path is not among `hooks`, and is not the one that the server keeps for itself.
abbrev pub IsNew : List String → String → Type 0
IsNew hooks p = (contains hooks p ≡ false) × ((p == "/healthz") ≡ false)

-- No path is among those before it or among `hooks`.
abbrev pub AreNew : List String → List String → Type 0
AreNew hooks [] = Unit {0}
AreNew hooks (p ∷ ps) = IsNew hooks p × AreNew (p ∷ hooks) ps

unfoldable pub grow : List String → List String → List String
grow hooks [] = hooks
grow hooks (p ∷ ps) = grow (p ∷ hooks) ps

AreNew-append :
    (hooks ps qs : List String)
    → AreNew hooks ps
    → AreNew (grow hooks ps) qs
    → AreNew hooks (ps ++ qs)
unfolding grow
AreNew-append hooks [] qs a b = b
AreNew-append hooks (p ∷ ps) qs (c, a) b = (c, AreNew-append (p ∷ hooks) ps qs a b)

-- What the checks of triggers tell of the webhook paths: `paths` are new, and they are taken afterwards.
record Takes (hooks paths after_hooks : List String) : Type 0 where
  are_new : AreNew hooks paths
  taken : after_hooks ≡ grow hooks paths

check_path-IsNew :
    (taken : Taken) (t : Trigger) → check_path taken t ≡ [] → IsNew taken.hooks t.path
unfolding check_path
check_path-IsNew taken t = elim (Bool-cases (t.path == "")) [
  | inl e ↦ rw e (λ h. absurd cc)
  | inr e ↦ rw e (elim (Bool-cases (has_prefix t.path "/")) [
    | inr f ↦ rw f (λ h. absurd cc)
    | inl f ↦ rw f (elim (Bool-cases (t.path == "/healthz")) [
      | inl g ↦ rw g (λ h. absurd cc)
      | inr g ↦ rw g (elim (Bool-cases (contains taken.hooks t.path)) [
        | inl k ↦ rw k (λ h. absurd cc)
        | inr k ↦ λ h. (k, refl)
      ])
    ])
  ])
]

check_kind-Takes :
    (s : Setting) (taken : Taken) (t : Trigger) (k : Kind)
    → (check_kind s taken t k).0 ≡ []
    → Takes taken.hooks (path_if (is_kind_webhook k) t.path []) (check_kind s taken t k).1.hooks
unfolding check_kind grow
check_kind-Takes s taken t webhook h =
    let (a, _) = append-nil_split (check_path taken t) (check_methods t.methods) h in
    record { are_new = (check_path-IsNew taken t a, tt); taken = hooked (check_path taken t) a }
  where
    hooked :
        (fs : List Fault)
        → fs ≡ []
        → ◌≡◌ {A = List String}
            (elim fs as (λ _. Taken) [
              | [] ↦ record taken { hooks = t.path ∷ taken.hooks }
              | f ∷ r ↦ taken
            ]).hooks
            (t.path ∷ taken.hooks)
    hooked [] e = refl
    hooked (f ∷ fs) e = absurd cc
check_kind-Takes s taken t manual h = record { are_new = tt; taken = refl }
check_kind-Takes s taken t cron h = record { are_new = tt; taken = refl }
check_kind-Takes s taken t file h = record { are_new = tt; taken = refl }
check_kind-Takes s taken t after h = record { are_new = tt; taken = refl }
check_kind-Takes s taken t startup h = record { are_new = tt; taken = refl }
check_kind-Takes s taken t wake h = record { are_new = tt; taken = refl }
check_kind-Takes s taken t no_type h = record { are_new = tt; taken = refl }
check_kind-Takes s taken t unknown h = record { are_new = tt; taken = refl }

Takes-more :
    (b : Bool) (path : String) (hooks mid later rest : List String)
    → Takes hooks (path_if b path []) mid
    → Takes mid later rest
    → Takes hooks (path_if b path later) rest
unfolding grow
Takes-more true path hooks mid later rest h k = record {
  are_new = (h.are_new.0, subst (λ m. AreNew m later) h.taken k.are_new);
  taken = k.taken ∙ ap (λ m. grow m later) h.taken;
}
Takes-more false path hooks mid later rest h k = record {
  are_new = subst (λ m. AreNew m later) h.taken k.are_new;
  taken = k.taken ∙ ap (λ m. grow m later) h.taken;
}

check_triggers-Takes :
    (s : Setting) (place : Place) (k : ℕ) (taken : Taken) (ts : List Trigger)
    → (check_triggers s place k taken ts).0 ≡ []
    → Takes taken.hooks (hook_paths ts) (check_triggers s place k taken ts).1.hooks
unfolding check_triggers check_trigger hook_paths grow
check_triggers-Takes s place k taken [] h = record { are_new = tt; taken = refl }
check_triggers-Takes s place k taken (t ∷ ts) h =
    let (a, b) =
      append-nil_split _ (check_triggers s place (suc k) (check_trigger s taken t).1 ts).0 h in
    let (_, c) =
      append-nil_split _ (check_kind s taken t (kind_of t.type)).0 (problems_at-nil _ _ a) in
    Takes-more (is_kind_webhook (kind_of t.type)) t.path taken.hooks _ (hook_paths ts) _
      (check_kind-Takes s taken t (kind_of t.type) c)
      (check_triggers-Takes s place (suc k) (check_trigger s taken t).1 ts b)

pub check_events-AreNew :
    (sys : System) (parses : String → String → Bool) (path : String) (defined : List String)
    (names : Map String String) (hooks : List String) (es : List Event)
    → check_events sys parses path defined names hooks es ≡ []
    → AreNew hooks (all_hook_paths es)
unfolding check_events all_hook_paths
check_events-AreNew sys parses path defined names hooks [] h = tt
check_events-AreNew sys parses path defined names hooks (e ∷ es) h =
    let s = setting_of sys parses path defined e in
    let start : Taken = record { types = []; follows = []; hooks = hooks } in
    let checked = check_triggers s (place_of sys path e) 0 start e.triggers in
    let (_, r) =
      append-nil_split (problems_at (place_of sys path e) (event_faults sys names e))
        (checked.0 ++ check_events sys parses path defined (with_name e names) checked.1.hooks es)
        h in
    let (b, c) = append-nil_split checked.0 _ r in
    let takes = check_triggers-Takes s (place_of sys path e) 0 start e.triggers b in
    let rest =
      check_events-AreNew sys parses path defined (with_name e names) checked.1.hooks es c in
    AreNew-append hooks (hook_paths e.triggers) (all_hook_paths es) takes.are_new
      (subst (λ m. AreNew m (all_hook_paths es)) takes.taken rest)
