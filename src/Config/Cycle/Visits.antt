-- ===== src/Config/Cycle/Visits.antt =====
-- What one visit of the search does.
use kickd.Prelude.{
  ℕ, zero, suc, ◌<◌, ◌≡◌, refl, ap, subst, ◌∙◌, sym, true, ◌⊎◌, inl, inr, String, Option, none,
  some, List, [], ◌∷◌, ◌++◌, arith, contains, string_eq, ◌==◌, Bool-cases,
}
use kickd.Prelude.Map.{Map, lookup, insert, lookup-insert}
use kickd.Config.Cycle.{
  Mark, visiting, done, no_cycle, cycle_of, Search, next, is_open, each, enter, leave, drop_last,
  visit_marked, visit, fresh,
}
use kickd.Config.Cycle.Chains.{
  contains-append, either, lookup-inserted, IsNext, Links, IsCycle, IsGrounded, grounded,
  Links-append, Links-from, from-shape, drop_last-append, is_marked, unmarked, unmarked-le,
  unmarked-insert, marked-insert,
}

module _ (follows : Map String (List String)) (nodes : List String)
    (closed : (n m : String) → IsNext follows n m → contains nodes m ≡ true) where
  -- Names under way are on the path, and every chain from a name that is done ends.
  pub record IsSound (s : Search) : Type 0 where
    pub is_open : s.finding ≡ no_cycle
    pub on_path : (k : String) → lookup k s.marks ≡ some visiting → contains s.path k ≡ true
    pub ends : (k : String) → lookup k s.marks ≡ some done → IsGrounded follows k

  -- What a search that goes on keeps.
  pub record Keeps (s t : Search) : Type 0 where
    pub is_sound : IsSound t
    pub same_path : t.path ≡ s.path
    pub stays_done : (k : String) → lookup k s.marks ≡ some done → lookup k t.marks ≡ some done
    pub grows :
        (k : String) → is_marked (lookup k s.marks) ≡ true → is_marked (lookup k t.marks) ≡ true

  abbrev pub Finds : Search → Type 0
  Finds t = (c : List String) × ((t.finding ≡ cycle_of c) × IsCycle follows c)

  abbrev pub After : Search → Search → (Search → Type 0) → Type 0
  After s t Q = Finds t ⊎ (Keeps s t × Q t)

  Keeps-refl : (s : Search) → IsSound s → Keeps s s
  Keeps-refl s h = record {
    is_sound = h;
    same_path = refl;
    stays_done = λ k e. e;
    grows = λ k e. e;
  }

  Keeps-trans : (s t u : Search) → Keeps s t → Keeps t u → Keeps s u
  Keeps-trans s t u h k = record {
    is_sound = k.is_sound;
    same_path = k.same_path ∙ h.same_path;
    stays_done = λ n e. k.stays_done n (h.stays_done n e);
    grows = λ n e. k.grows n (h.grows n e);
  }

  abbrev Visits : ℕ → (String → Search → Search) → Type 0
  Visits fuel f =
      (n : String) (s : Search)
      → IsSound s
      → Links follows (s.path ++ (n ∷ []))
      → contains nodes n ≡ true
      → unmarked nodes s.marks < fuel
      → After s (f n s) (λ t. lookup n t.marks ≡ some done)

  abbrev AllDone : List String → Search → Type 0
  AllDone ms t = (m : String) → contains ms m ≡ true → lookup m t.marks ≡ some done

  pub each-After :
      (fuel : ℕ) (f : String → Search → Search)
      → Visits fuel f
      → (ms : List String) (s : Search) → IsSound s
      → ((m : String)
          → contains ms m ≡ true
          → Links follows (s.path ++ (m ∷ [])) × (contains nodes m ≡ true))
      → unmarked nodes s.marks < fuel
      → After s (each f ms s) (AllDone ms)
  unfolding each is_open
  each-After fuel f visits [] s h l u = inr (Keeps-refl s h, λ m e. absurd cc)
  each-After fuel f visits (m ∷ ms) s h l u =
      let (linked, known) = l m (rw ((string_eq.decides m m).1 refl) refl) in
      elim (visits m s h linked known u) [
        | inl (c, (e, y)) ↦ rw (ap is_open e) (inl (c, (e, y)))
        | inr (k, d) ↦
            let rest =
              each-After fuel f visits ms (f m s) k.is_sound
                (λ o e. rw k.same_path (
                  l o
                    (rw e (elim (Bool-cases (m == o)) [ inl g ↦ rw g refl | inr g ↦ rw g refl ]))))
                (omega (arith, u, unmarked-le nodes s.marks (f m s).marks k.grows)) in
            rw (ap is_open k.is_sound.is_open) (elim rest [
              | inl found ↦ inl found
              | inr (j, all) ↦ inr (
                Keeps-trans s (f m s) (each f ms (f m s)) k j,
                λ o e. elim (Bool-cases (m == o)) [
                  | inl g ↦ j.stays_done o (
                      subst (λ y. lookup y (f m s).marks ≡ some done) ((string_eq.decides m o).0 g)
                        d)
                  | inr g ↦ all o (rw g at e)
                ],
              )
            ])
      ]

  IsSound-enter : (n : String) (s : Search) → IsSound s → IsSound (enter n s)
  IsSound-enter n s h = record {
    is_open = h.is_open;
    on_path = λ k g.
        contains-append s.path (n ∷ []) k ∙ elim (lookup-inserted n k visiting visiting s.marks g) [
          | inl (e, _) ↦ ground (arith, (string_eq.decides n k).1 e)
          | inr (_, e) ↦ ground (arith, h.on_path k e)
        ];
    ends = λ k g. elim (lookup-inserted n k visiting done s.marks g) [
      | inl (_, e) ↦ absurd cc
      | inr (_, e) ↦ h.ends k e
    ];
  }

  IsSound-leave :
      (n : String) (s t : Search)
      → Keeps (enter n s) t
      → AllDone (next follows n) t
      → IsSound (record t { marks = insert n done t.marks; path = drop_last t.path })
  IsSound-leave n s t k all = record {
    is_open = k.is_sound.is_open;
    on_path = λ j g. elim (lookup-inserted n j done visiting t.marks g) [
      | inl (_, e) ↦ absurd cc
      | inr (other, e) ↦
          ap (λ p. contains (drop_last p) j) k.same_path
          ∙ ap (λ p. contains p j) (drop_last-append s.path n)
          ∙ elim (either (contains s.path j) (contains (n ∷ []) j) (
              sym (contains-append s.path (n ∷ []) j)
              ∙ ap (λ p. contains p j) (sym k.same_path)
              ∙ k.is_sound.on_path j e)) [
                | inl g' ↦ g'
                | inr g' ↦ absurd (ground (arith, other, g'))
              ]
    ];
    ends = λ j g. elim (lookup-inserted n j done done t.marks g) [
      | inl (e, _) ↦ rw⁻¹ e (grounded n (λ m next. k.is_sound.ends m (all m next)))
      | inr (_, e) ↦ k.is_sound.ends j e
    ];
  }

  leave-Keeps :
      (n : String) (s t : Search)
      → lookup n s.marks ≡ none
      → Keeps (enter n s) t
      → AllDone (next follows n) t
      → Keeps s (leave n t) × (lookup n (leave n t).marks ≡ some done)
  unfolding leave is_open
  leave-Keeps n s t new k all = rw (ap is_open k.is_sound.is_open) (
    record {
      is_sound = IsSound-leave n s t k all;
      same_path = ap drop_last k.same_path ∙ drop_last-append s.path n;
      stays_done = λ j e. lookup-insert n j done t.marks ∙ elim (Bool-cases (n == j)) [
        | inl g ↦ rw g refl
        | inr g ↦ rw g (k.stays_done j (lookup-insert n j visiting s.marks ∙ rw g e))
      ];
      grows =
          λ j e. marked-insert n done t.marks j (k.grows j (marked-insert n visiting s.marks j e));
    },
    lookup-insert n n done t.marks ∙ rw ((string_eq.decides n n).1 refl) refl,
  )

  leave_found :
      (n : String) (t : Search) (c : List String)
      → t.finding ≡ cycle_of c
      → (leave n t).finding ≡ cycle_of c
  unfolding leave is_open
  leave_found n t c e = rw (ap is_open e) e

  -- With fuel for the names that have no mark, a visit finds a cycle, or it goes on and the name is done.
  pub visit-After : (fuel : ℕ) → Visits fuel (visit follows fuel)
  unfolding visit visit_marked
  visit-After zero n s h l known u = absurd (omega (arith, u))
  visit-After (suc fuel) n s h l known u = go (visit-After fuel) (lookup n s.marks) refl
    where
      go :
          Visits fuel (visit follows fuel)
          → (o : Option Mark) → lookup n s.marks ≡ o
          → After s
              (visit_marked (each (visit follows fuel) (next follows n)) n s o)
              (λ t. lookup n t.marks ≡ some done)
      go ih (some visiting) e =
          let (inner, shape) = from-shape n s.path (h.on_path n e) in
          inl (
            _,
            (
              refl,
              record {
                first = n;
                inner = inner;
                shape = ap (λ p. p ++ (n ∷ [])) shape;
                links = Links-from follows n s.path n l;
              },
            ),
          )
      go ih (some done) e = inr (Keeps-refl s h, e)
      go ih none e =
          let less = unmarked-insert nodes n visiting s.marks known e in
          elim (each-After fuel (visit follows fuel) ih (next follows n) (enter n s)
            (IsSound-enter n s h) (λ m g. (Links-append follows s.path n m l g, closed n m g))
            (omega (arith, less, u))) [
              | inl (c, (f, y)) ↦ inl (
                c,
                (leave_found n (each (visit follows fuel) (next follows n) (enter n s)) c f, y),
              )
              | inr (k, all) ↦
                  inr (
                    leave-Keeps n s (each (visit follows fuel) (next follows n) (enter n s)) e k
                      all)
            ]

  -- A whole search finds a cycle, or all its names are done.
  pub search-After :
      (names : List String)
      → ((m : String) → contains names m ≡ true → contains nodes m ≡ true)
      → (size : ℕ) → unmarked nodes [] < size
      → Finds (each (visit follows size) names fresh)
        ⊎ (((each (visit follows size) names fresh).finding ≡ no_cycle)
            × ((m : String) → contains names m ≡ true → IsGrounded follows m))
  unfolding lookup
  search-After names known size u =
      elim (each-After size (visit follows size) (visit-After size) names fresh
        (record { is_open = refl; on_path = λ k e. absurd cc; ends = λ k e. absurd cc })
        (λ m g. (tt, known m g)) u) [
          | inl found ↦ inl found
          | inr (k, all) ↦ inr (k.is_sound.is_open, λ m g. k.is_sound.ends m (all m g))
        ]
