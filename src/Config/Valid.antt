-- ===== src/Config/Valid.antt =====
-- What it means that validate finds no problem in the events.
use kickd.Prelude.{
  ℕ, suc, ◌≡◌, refl, subst, ◌≢◌, ◌∙◌, Bool, true, false, not, inl, inr, String, Option, none, some,
  List, [], ◌∷◌, ◌++◌, arith, contains, All, if◌then◌else◌, string_eq, ◌==◌, Bool-cases,
}
use kickd.Prelude.Int.{pos, is_negative, less}
use kickd.Prelude.Map.{Map, lookup, lookup-insert}
use kickd.Config.Model.{
  Kind, kind_of, manual, cron, webhook, file, after, startup, wake, no_type, unknown,
  after_statuses, Event, Trigger, concurrencies, restarts, on_interrupts, stdins,
}
use kickd.Config.Problem.{Place, Fault, when, unknown_status, duplicate_status, faults_of, together}
use kickd.Config.Defaults.{System}
use kickd.Config.Check.{
  is_event_name, check_name, with_name, name_is_fine, duplicate, check_policies,
}
use kickd.Config.Triggers.{
  Taken, Setting, problems_at, check_statuses, check_followed, check_after, check_kind,
  check_trigger, check_triggers,
}
use kickd.Config.Cycle.{names_of}
use kickd.Config.Load.{event_faults, check_events, setting_of, place_of}

pub append-nil_split : {A : Type 0} (xs ys : List A) → xs ++ ys ≡ [] → (xs ≡ []) × (ys ≡ [])
append-nil_split [] ys h = (refl, h)
append-nil_split (x ∷ xs) ys h = absurd cc

pub faults_of-nil :
    (ps : List (Bool × Fault)) → faults_of ps ≡ [] → All (λ (p : Bool × Fault). p.0 ≡ false) ps
unfolding faults_of
faults_of-nil [] h = tt
faults_of-nil ((true, f) ∷ rest) h = absurd cc
faults_of-nil ((false, f) ∷ rest) h = (refl, faults_of-nil rest h)

pub together-nil :
    (fss : List (List Fault)) → together fss ≡ [] → All (λ (fs : List Fault). fs ≡ []) fss
unfolding together
together-nil [] h = tt
together-nil (fs ∷ rest) h =
    let (a, b) = append-nil_split fs (together rest) h in (a, together-nil rest b)

pub problems_at-nil : (p : Place) (fs : List Fault) → problems_at p fs ≡ [] → fs ≡ []
problems_at-nil p [] h = refl
problems_at-nil p (f ∷ fs) h = absurd cc

-- The settings of an event that the dispatcher relies on.
pub record HasPolicies (e : Event) : Type 0 where
  pub concurrency : contains concurrencies e.concurrency ≡ true
  pub restart : contains restarts e.restart ≡ true
  pub delay : is_negative e.restart_delay ≡ false
  pub max_delay : less e.restart_max_delay e.restart_delay ≡ false
  pub on_interrupt : contains on_interrupts e.on_interrupt ≡ true
  pub attempts : less e.max_attempts (pos 1) ≡ false
  pub stdin : contains stdins e.stdin ≡ true
  pub timeout : is_negative e.timeout ≡ false

not-false : (b : Bool) → not b ≡ false → b ≡ true
not-false true h = refl
not-false false h = absurd cc

check_policies-HasPolicies : (e : Event) → check_policies e ≡ [] → HasPolicies e
unfolding check_policies
check_policies-HasPolicies e h =
    let (a, (b, (c, (d, (i, (j, (k, (l, _)))))))) = faults_of-nil _ h in
    record {
      concurrency = not-false _ a;
      restart = not-false _ b;
      delay = c;
      max_delay = d;
      on_interrupt = not-false _ i;
      attempts = j;
      stdin = not-false _ k;
      timeout = l;
    }

pub record HasNewName (names : Map String String) (e : Event) : Type 0 where
  pub is_fine : name_is_fine e ≡ true
  pub is_new : lookup e.name names ≡ none

check_name-HasNewName :
    (names : Map String String) (e : Event) → check_name names e ≡ [] → HasNewName names e
unfolding check_name
check_name-HasNewName names e = elim (Bool-cases (e.name == "")) [
  | inl f ↦ rw f (λ h. absurd cc)
  | inr f ↦ rw f (elim (Bool-cases (is_event_name e.name)) [
    | inr g ↦ rw g (λ h. absurd cc)
    | inl g ↦ rw g (λ h. record { is_fine = rw (f, g) refl; is_new = new (lookup e.name names) h })
  ])
]
  where
    new : (o : Option String) → duplicate e.file o ≡ [] → o ≡ none
    new none h = refl
    new (some other) h = absurd cc

abbrev pub AllDistinct : List String → Type 0
AllDistinct [] = Unit {0}
AllDistinct (x ∷ xs) = (contains xs x ≡ false) × AllDistinct xs

-- The name of an event other than the one of this name.
abbrev pub IsOther : List String → String → String → Type 0
IsOther defined name followed = (contains defined followed ≡ true) × ((followed == name) ≡ false)

-- What the dispatcher relies on in a trigger of the event of this name.
pub record IsFineTrigger (defined : List String) (name : String) (t : Trigger) : Type 0 where
  pub follows : kind_of t.type ≡ after → IsOther defined name t.event
  pub statuses : kind_of t.type ≡ after → All (λ st. contains after_statuses st ≡ true) t.status

check_statuses-All :
    (seen sts : List String)
    → check_statuses seen sts ≡ []
    → All (λ st. contains after_statuses st ≡ true) sts
unfolding check_statuses
check_statuses-All seen [] h = tt
check_statuses-All seen (st ∷ rest) h =
    let (a, b) = append-nil_split _ (check_statuses (st ∷ seen) rest) h in
    (go (contains after_statuses st) refl a, check_statuses-All (st ∷ seen) rest b)
  where
    go :
        (b : Bool)
        → contains after_statuses st ≡ b
        → (if not b then unknown_status st ∷ [] else when (contains seen st) (duplicate_status st))
          ≡ []
        → contains after_statuses st ≡ true
    go true e h = e
    go false e h = absurd cc

check_followed-IsOther :
    (defined : List String) (name : String) (taken : Taken) (t : Trigger)
    → check_followed defined name taken t ≡ []
    → IsOther defined name t.event
unfolding check_followed
check_followed-IsOther defined name taken t = elim (Bool-cases (t.event == "")) [
  | inl e ↦ rw e (λ h. absurd cc)
  | inr e ↦ rw e (elim (Bool-cases (t.event == name)) [
    | inl f ↦ rw f (λ h. absurd cc)
    | inr f ↦ rw f (elim (Bool-cases (contains defined t.event)) [
      | inl g ↦ λ h. (g, refl)
      | inr g ↦ rw g (λ h. absurd cc)
    ])
  ])
]

check_kind-IsFineTrigger :
    (s : Setting) (taken : Taken) (t : Trigger) (k : Kind)
    → kind_of t.type ≡ k
    → (check_kind s taken t k).0 ≡ []
    → IsFineTrigger s.defined s.name t
unfolding check_kind check_after
check_kind-IsFineTrigger s taken t after e h =
    let (a, (_, (c, _))) = together-nil _ h in
    record {
      follows = λ _. check_followed-IsOther s.defined s.name taken t a;
      statuses = λ _. check_statuses-All [] t.status c;
    }
check_kind-IsFineTrigger s taken t manual e h = record {
  follows = λ f. absurd cc;
  statuses = λ f. absurd cc;
}
check_kind-IsFineTrigger s taken t cron e h = record {
  follows = λ f. absurd cc;
  statuses = λ f. absurd cc;
}
check_kind-IsFineTrigger s taken t webhook e h = record {
  follows = λ f. absurd cc;
  statuses = λ f. absurd cc;
}
check_kind-IsFineTrigger s taken t file e h = record {
  follows = λ f. absurd cc;
  statuses = λ f. absurd cc;
}
check_kind-IsFineTrigger s taken t startup e h = record {
  follows = λ f. absurd cc;
  statuses = λ f. absurd cc;
}
check_kind-IsFineTrigger s taken t wake e h = record {
  follows = λ f. absurd cc;
  statuses = λ f. absurd cc;
}
check_kind-IsFineTrigger s taken t no_type e h = record {
  follows = λ f. absurd cc;
  statuses = λ f. absurd cc;
}
check_kind-IsFineTrigger s taken t unknown e h = record {
  follows = λ f. absurd cc;
  statuses = λ f. absurd cc;
}

check_triggers-IsFineTrigger :
    (s : Setting) (place : Place) (k : ℕ) (taken : Taken) (ts : List Trigger)
    → (check_triggers s place k taken ts).0 ≡ []
    → All (IsFineTrigger s.defined s.name) ts
unfolding check_triggers check_trigger
check_triggers-IsFineTrigger s place k taken [] h = tt
check_triggers-IsFineTrigger s place k taken (t ∷ ts) h =
    let (a, b) =
      append-nil_split _ (check_triggers s place (suc k) (check_trigger s taken t).1 ts).0 h in
    let (_, c) =
      append-nil_split _ (check_kind s taken t (kind_of t.type)).0 (problems_at-nil _ _ a) in
    (
      check_kind-IsFineTrigger s taken t (kind_of t.type) refl c,
      check_triggers-IsFineTrigger s place (suc k) (check_trigger s taken t).1 ts b,
    )

-- What validate has established of an event.
pub record IsFine (defined : List String) (e : Event) : Type 0 where
  pub is_named : name_is_fine e ≡ true
  pub policies : HasPolicies e
  pub triggers : All (IsFineTrigger defined e.name) e.triggers

lookup-insert_self :
    (e : Event) (names : Map String String)
    → name_is_fine e ≡ true
    → lookup e.name (with_name e names) ≡ some e.file
lookup-insert_self e names h =
    rw h (
      lookup-insert e.name e.name e.file names ∙ rw ((string_eq.decides e.name e.name).1 refl) refl)

clash :
    (e : Event) (names : Map String String)
    → HasNewName names e
    → (k f : String) → (e.name == k) ≡ true
    → lookup k names ≢ some f
clash e names named k f same g =
    let is_new =
      subst (λ n. lookup n names ≡ none) ((string_eq.decides e.name k).0 same) named.is_new in
    absurd (ground (arith, is_new, g))

kept :
    (e : Event) (names : Map String String) (k f : String)
    → (e.name == k) ≡ false
    → lookup k names ≡ some f
    → lookup k (with_name e names) ≡ some f
kept e names k f other g = elim (Bool-cases (name_is_fine e)) [
  | inl fine ↦ rw fine (lookup-insert e.name k e.file names ∙ rw other g)
  | inr bad ↦ rw bad g
]

module _ (sys : System) (parses : String → String → Bool) (path : String)
    (defined : List String) where
  -- The names of the events are new, and each event is fine.
  pub record AreFine (names : Map String String) (es : List Event) : Type 0 where
    pub each_fine : All (IsFine defined) es
    pub distinct : AllDistinct (names_of es)
    pub new : (k f : String) → lookup k names ≡ some f → contains (names_of es) k ≡ false

  pub check_events-AreFine :
      (names : Map String String) (hooks : List String) (es : List Event)
      → check_events sys parses path defined names hooks es ≡ []
      → AreFine names es
  unfolding check_events event_faults
  check_events-AreFine names hooks [] h = record {
    each_fine = tt;
    distinct = tt;
    new = λ k f e. refl;
  }
  check_events-AreFine names hooks (e ∷ es) h =
      let s = setting_of sys parses path defined e in
      let checked =
        check_triggers s (place_of sys path e) 0
          (record { types = []; follows = []; hooks = hooks }) e.triggers in
      let (a, r) =
        append-nil_split (problems_at (place_of sys path e) (event_faults sys names e))
          (checked.0 ++ check_events sys parses path defined (with_name e names) checked.1.hooks es)
          h in
      let (b, c) = append-nil_split checked.0 _ r in
      let (n, (_, (p, _))) =
        together-nil _ (problems_at-nil (place_of sys path e) (event_faults sys names e) a) in
      let named = check_name-HasNewName names e n in
      let rest = check_events-AreFine (with_name e names) checked.1.hooks es c in
      record {
        each_fine = (
          record {
            is_named = named.is_fine;
            policies = check_policies-HasPolicies e p;
            triggers = check_triggers-IsFineTrigger s (place_of sys path e) 0 _ e.triggers b;
          },
          rest.each_fine,
        );
        distinct =
            (rest.new e.name e.file (lookup-insert_self e names named.is_fine), rest.distinct);
        new = λ k f g. elim (Bool-cases (e.name == k)) [
          | inl same ↦ absurd (clash e names named k f same g)
          | inr other ↦ rw other (rest.new k f (kept e names k f other g))
        ];
      }
