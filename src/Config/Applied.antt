-- ===== src/Config/Applied.antt =====
-- What Apply of config.go makes of the arguments of an event.
use kickd.Prelude.{
  ◌≡◌, ◌≢◌, refl, subst, ◌∙◌, Bool, true, false, ◌||◌, inl, inr, String, Option, none, some, List,
  [], ◌∷◌, ◌++◌, arith, contains, All, string_eq, ◌==◌, Bool-cases,
}
use kickd.Prelude.Map.{Map, lookup, insert, lookup-insert}
use kickd.Config.Model.{Param, Event}
use kickd.Config.Check.{is_param_name}
use kickd.Config.Use.{
  ArgFault, applied, fill, fill_choice, param_names, unknown_names, check_free, answer,
  apply_declared, apply,
}
use kickd.Config.Valid.{AllDistinct, append-nil_split}

-- What one parameter has in the arguments `given` and in those that the command gets.
pub record IsSupplied (given out : Map String String) (p : Param) : Type 0 where
  pub required_given : p.required ≡ true → (v : String) × (lookup p.name given ≡ some v)
  pub default_used : lookup p.name given ≡ none → lookup p.name out ≡ some p.default
  pub has_value : (v : String) × (lookup p.name out ≡ some v)

record Fills (params : List Param) (given : Map String String)
    (x : List ArgFault × Map String String) : Type 0 where
  kept : x.0 ≡ [] → (k v : String) → lookup k given ≡ some v → lookup k x.1 ≡ some v
  supplied : x.0 ≡ [] → All (IsSupplied given x.1) params

lookup-insert_self : (k v : String) (m : Map String String) → lookup k (insert k v m) ≡ some v
lookup-insert_self k v m = lookup-insert k k v m ∙ rw ((string_eq.decides k k).1 refl) refl

lookup-insert_other :
    (k j v : String) (m : Map String String)
    → (k == j) ≡ false
    → lookup j (insert k v m) ≡ lookup j m
lookup-insert_other k j v m h = lookup-insert k j v m ∙ rw h refl

neither : (a b : Bool) → (a || b) ≡ false → (a ≡ false) × (b ≡ false)
neither true b h = absurd cc
neither false b h = (refl, h)

flip_false : (a b : String) → (a == b) ≡ false → (b == a) ≡ false
flip_false a b h = ground (arith, string_eq.decides a b, string_eq.decides b a, h)

-- A parameter of another name is supplied just as before the insertion.
same_supply :
    (k v : String) (given out : Map String String) (ps : List Param)
    → contains (param_names ps) k ≡ false
    → All (IsSupplied (insert k v given) out) ps
    → All (IsSupplied given out) ps
same_supply k v given out [] h a = tt
same_supply k v given out (p ∷ ps) h (a, b) =
    let (other, rest) = neither _ _ h in
    let same = lookup-insert_other k p.name v given (flip_false p.name k other) in
    (
      record {
        required_given = λ r. subst (λ o. (v : String) × (o ≡ some v)) same (a.required_given r);
        default_used = λ e. a.default_used (same ∙ e);
        has_value = a.has_value;
      },
      same_supply k v given out ps rest b,
    )

fill-Fills :
    (params : List Param) (given : Map String String)
    → AllDistinct (param_names params)
    → Fills params given (fill params given)
unfolding fill
fill-Fills [] given d = record { kept = λ _ k v h. h; supplied = λ _. tt }
fill-Fills (p ∷ ps) given (new, d) =
    go (fill-Fills ps given d) (fill-Fills ps (insert p.name p.default given) d)
      (lookup p.name given) refl (p.required) refl
  where
    go :
        Fills ps given (fill ps given)
        → Fills ps (insert p.name p.default given) (fill ps (insert p.name p.default given))
        → (o : Option String) → lookup p.name given ≡ o
        → (b : Bool) → p.required ≡ b
        → Fills
            (p ∷ ps)
            given
            (fill_choice p o b (fill ps given) (fill ps (insert p.name p.default given)))
    go ih jh (some v) e b r = record {
      kept = ih.kept;
      supplied = λ h. (
        record {
          required_given = λ _. (v, e);
          default_used = λ f. absurd cc;
          has_value = (v, ih.kept h p.name v e);
        },
        ih.supplied h,
      );
    }
    go ih jh none e true r = record { kept = λ h. absurd cc; supplied = λ h. absurd cc }
    go ih jh none e false r =
        let inserted = lookup-insert_self p.name p.default given in
        record {
          kept = λ h k v f.
              jh.kept h k v (lookup-insert_other p.name k p.default given (apart k v f e) ∙ f);
          supplied = λ h. (
            record {
              required_given = λ t. absurd cc;
              default_used = λ _. jh.kept h p.name p.default inserted;
              has_value = (p.default, jh.kept h p.name p.default inserted);
            },
            same_supply p.name p.default given _ ps new (jh.supplied h),
          );
        }
      where
        apart :
            (k v : String)
            → lookup k given ≡ some v
            → lookup p.name given ≡ none
            → (p.name == k) ≡ false
        apart k v f e = elim (Bool-cases (p.name == k)) [
          | inr g ↦ g
          | inl g ↦ absurd (
              some_none k v f
                (subst (λ x. lookup x given ≡ none) ((string_eq.decides p.name k).0 g) e))
        ]
          where
            some_none : (k v : String) → lookup k given ≡ some v → lookup k given ≢ none
            some_none k v f e = cc

unknown_names-All :
    (known : List String) (m : Map String String)
    → unknown_names known m ≡ []
    → All (λ (kv : String × String). contains known kv.0 ≡ true) m
unfolding unknown_names
unknown_names-All known [] h = tt
unknown_names-All known ((k, v) ∷ rest) h = elim (Bool-cases (contains known k)) [
  | inl e ↦ (e, unknown_names-All known rest (rw e at h))
  | inr e ↦ absurd (some_name (rw e at h))
]
  where
    some_name : {f : ArgFault} {fs : List ArgFault} → f ∷ fs ≢ []
    some_name h = cc

check_free-All :
    (m : Map String String)
    → check_free m ≡ []
    → All (λ (kv : String × String). is_param_name kv.0 ≡ true) m
unfolding check_free
check_free-All [] h = tt
check_free-All ((k, v) ∷ rest) h = elim (Bool-cases (is_param_name k)) [
  | inl e ↦ (e, check_free-All rest (rw e at h))
  | inr e ↦ absurd (some_name (rw e at h))
]
  where
    some_name : {f : ArgFault} {fs : List ArgFault} → f ∷ fs ≢ []
    some_name h = cc

answer-applied :
    (fs : List ArgFault) (m out : Map String String)
    → answer fs m ≡ applied out
    → (fs ≡ []) × (m ≡ out)
answer-applied [] m out h = (refl, same h)
  where
    same : {x y : Map String String} → applied x ≡ applied y → x ≡ y
    same h = cc
answer-applied (f ∷ fs) m out h = absurd cc

-- The names that the arguments of an event may have.
abbrev pub is_accepted : List Param → String → Bool
is_accepted [] k = is_param_name k
is_accepted (p ∷ ps) k = contains (param_names (p ∷ ps)) k

-- The arguments that an event was given, and those that its command gets.
pub record IsApplied (e : Event) (given out : Map String String) : Type 0 where
  pub kept : (k v : String) → lookup k given ≡ some v → lookup k out ≡ some v
  pub supplied : All (IsSupplied given out) e.params
  pub accepted : All (λ (kv : String × String). is_accepted e.params kv.0 ≡ true) out

-- When Apply accepts the arguments of an event, each argument reaches the command with the value that
-- was given, and each declared parameter has a value: the one given, which a required parameter must
-- have, or else its default. Every argument is declared or, where the event declares none, has a name
-- that a parameter may have. The names of the declared parameters are distinct, as validate checks.
pub apply-IsApplied :
    (e : Event) (given out : Map String String)
    → AllDistinct (param_names e.params)
    → apply e given ≡ applied out
    → IsApplied e given out
unfolding apply apply_declared
apply-IsApplied e given out = go e.params refl
  where
    go :
        (ps : List Param)
        → e.params ≡ ps
        → AllDistinct (param_names e.params)
        → apply e given ≡ applied out
        → IsApplied e given out
    go [] s d h =
        let (f, m) = answer-applied (check_free given) given out (rw s at h) in
        record {
          kept = λ k v g. subst (λ x. lookup k x ≡ some v) m g;
          supplied = rw s tt;
          accepted = rw s (
              subst
                (λ (x : Map String String).
                  All (λ (kv : String × String). is_param_name kv.0 ≡ true) x)
                m (check_free-All given f));
        }
    go (p ∷ ps) s d h =
        let x = fill (p ∷ ps) given in
        let (f, m) =
          answer-applied (x.0 ++ unknown_names (param_names (p ∷ ps)) x.1) x.1 out (rw s at h) in
        let (a, b) = append-nil_split x.0 _ f in
        let fills = fill-Fills (p ∷ ps) given (rw s at d) in
        record {
          kept = λ k v g. subst (λ y. lookup k y ≡ some v) m (fills.kept a k v g);
          supplied = rw s (subst (λ y. All (IsSupplied given y) (p ∷ ps)) m (fills.supplied a));
          accepted = rw s (
              subst
                (λ (y : Map String String).
                  All (λ (kv : String × String). contains (param_names (p ∷ ps)) kv.0 ≡ true) y)
                m (unknown_names-All (param_names (p ∷ ps)) x.1 b));
        }
