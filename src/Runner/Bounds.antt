-- ===== src/Runner/Bounds.antt =====
-- The buffers keep what they promise, and the statuses of runs come from how they ended.
use kickd.Prelude.{
  ℕ, ◌+◌, ◌-◌, ◌≤◌, ◌<◌, ◌≡◌, refl, false, ◌&&◌, not, List, [], ◌∷◌, ◌++◌, if◌then◌else◌, ltb, leb,
  length, length-append, take, zero, suc, All, subst, min, arith, Bool-cases, inl, inr, none, some,
  ap, ◌∙◌, sym, ◌==◌,
}
use mathlib.Core.List.{append-nil, append_assoc}
use kickd.Prelude.Int.{is_zero}
use kickd.Queue.Status
use kickd.Queue.Status.{status_eq}
use kickd.Dispatch.State.{canceled_by_user, replaced}
use kickd.Dispatch.Finish.{status_after}
use kickd.Runner.Results.{Context, live, deadline_exceeded, canceled, Stats, Ended, report}
use kickd.Runner.Buffers.{CapBuffer, write, write_all}

-- What a run that ended with the status `b` adds to the counter of the runs that ended with `a`.
abbrev pub counted : Status.Status → Status.Status → ℕ
counted a b = if a == b then 1 else 0

-- A run ends as succeeded exactly when its context was never ended, Wait did not fail and its exit
-- code is 0; as canceled when a user or a newer firing stopped it; as interrupted when kickd stopped;
-- and as failed otherwise. Of the runner's counters, that of the processed runs and that of the
-- status in which the run ended grow by one, and the others stay.
pub status_after-report :
    (p : Ended) (c : Context) (s : Stats)
    → let (res, s') = report p c s in
      (status_after res ≡ (elim c [
        | deadline_exceeded ↦ Status.failed
        | canceled (some cause) ↦ Status.canceled
        | canceled none ↦ Status.interrupted
        | live ↦
            if is_zero p.exit_code && not p.wait_failed then Status.succeeded else Status.failed
      ]))
      × (s'.processed ≡ s.processed + 1)
      × (s'.succeeded ≡ s.succeeded + counted Status.succeeded (status_after res))
      × (s'.failed ≡ s.failed + counted Status.failed (status_after res))
      × (s'.canceled ≡ s.canceled + counted Status.canceled (status_after res))
      × (s'.interrupted ≡ s.interrupted + counted Status.interrupted (status_after res))
unfolding report status_after
status_after-report p deadline_exceeded s =
    (refl, refl, omega arith, omega arith, omega arith, omega arith)
status_after-report p (canceled (some canceled_by_user)) s =
    (refl, refl, omega arith, omega arith, omega arith, omega arith)
status_after-report p (canceled (some replaced)) s =
    (refl, refl, omega arith, omega arith, omega arith, omega arith)
status_after-report p (canceled none) s =
    (refl, refl, omega arith, omega arith, omega arith, omega arith)
status_after-report p live s = elim (Bool-cases p.wait_failed) [
  | inl f ↦ rw f (elim (Bool-cases (is_zero p.exit_code)) [
    | inl e ↦ rw e (refl, refl, omega arith, omega arith, omega arith, omega arith)
    | inr e ↦ rw (e, e) (refl, refl, omega arith, omega arith, omega arith, omega arith)
  ])
  | inr f ↦ rw f (elim (Bool-cases (is_zero p.exit_code)) [
    | inl e ↦ rw (e, e) (refl, refl, omega arith, omega arith, omega arith, omega arith)
    | inr e ↦ rw (e, e) (refl, refl, omega arith, omega arith, omega arith, omega arith)
  ])
]

-- All the bytes written, one after the other.
unfoldable pub concat : List (List ℕ) → List ℕ
concat [] = []
concat (p ∷ ps) = p ++ concat ps

take-front : (n : ℕ) (xs ys : List ℕ) → n ≤ length xs → take n (xs ++ ys) ≡ take n xs
take-front zero xs ys h = refl
take-front (suc n) [] ys h = absurd (omega arith)
take-front (suc n) (x ∷ xs) ys h = ap (λ zs. x ∷ zs) (take-front n xs ys (omega arith))

take-past :
    (n : ℕ) (xs ys : List ℕ) → length xs ≤ n → take n (xs ++ ys) ≡ xs ++ take (n - length xs) ys
take-past n [] ys h = ap (λ m. take m ys) (omega arith)
take-past zero (x ∷ xs) ys h = absurd (omega arith)
take-past (suc n) (x ∷ xs) ys h =
    ap (λ zs. x ∷ zs) (take-past n xs ys (omega arith))
    ∙ ap (λ m. x ∷ (xs ++ take m ys)) (omega arith)

take_all : (n : ℕ) (xs : List ℕ) → length xs ≤ n → take n xs ≡ xs
take_all zero [] h = refl
take_all zero (x ∷ xs) h = absurd (omega arith)
take_all (suc n) [] h = refl
take_all (suc n) (x ∷ xs) h = ap (λ zs. x ∷ zs) (take_all n xs (omega arith))

length-take : (n : ℕ) (xs : List ℕ) → length (take n xs) ≡ min n (length xs)
length-take zero xs = omega arith
length-take (suc n) [] = omega arith
length-take (suc n) (x ∷ xs) = omega (arith, length-take n xs)

-- The buffer holds the first bytes of `all`, and says whether there were more.
pub record Captured (limit : ℕ) (all : List ℕ) (b : CapBuffer) : Type 0 where
  pub same_limit : b.limit ≡ limit
  pub held : b.buf ≡ take limit all
  pub more : b.truncated ≡ ltb limit (length all)

pub write-Captured :
    (limit : ℕ) (all : List ℕ) (b : CapBuffer) (p : List ℕ)
    → 0 < length p
    → Captured limit all b
    → Captured limit (all ++ p) (write b p)
unfolding write
write-Captured limit all b p some_bytes c =
    let size = ap length c.held ∙ length-take limit all in
    let total = length-append all p in
    elim (Bool-cases (leb b.limit (length b.buf))) [
      | inl full ↦ rw full (record {
        same_limit = c.same_limit;
        held = c.held ∙ sym (take-front limit all p (ground (arith, full, size, c.same_limit)));
        more = ground (arith, full, size, c.same_limit, total, some_bytes);
      })
      | inr fits ↦
          let short : length all < limit = ground (arith, fits, size, c.same_limit) in
          let whole = take_all limit all (omega (arith, short)) in
          let grown = take-past limit all p (omega (arith, short)) in
          let exact : b.limit - length b.buf ≡ limit - length all =
            ground (arith, size, c.same_limit, short) in
          rw fits (elim (Bool-cases (ltb (b.limit - length b.buf) (length p))) [
            | inl over ↦ rw over (record {
              same_limit = c.same_limit;
              held =
                  ap (λ n. b.buf ++ take n p) exact
                  ∙ ap (λ xs. xs ++ take (limit - length all) p) (c.held ∙ whole)
                  ∙ sym grown;
              more = ground (arith, over, exact, total, short);
            })
            | inr all_fits ↦ rw all_fits (record {
              same_limit = c.same_limit;
              held =
                  ap (λ xs. xs ++ p) (c.held ∙ whole)
                  ∙ sym (take_all limit (all ++ p) (ground (arith, all_fits, exact, total, short)));
              more = ground (arith, c.more, all_fits, exact, total, short);
            })
          ])
    ]

write_all-Captured :
    (limit : ℕ) (ps : List (List ℕ)) (all : List ℕ) (b : CapBuffer)
    → All (λ p. 0 < length p) ps
    → Captured limit all b
    → Captured limit (all ++ concat ps) (write_all b ps)
unfolding write_all concat
write_all-Captured limit [] all b h c = subst (λ xs. Captured limit xs b) (sym (append-nil all)) c
write_all-Captured limit (p ∷ ps) all b h c =
    subst (λ xs. Captured limit xs (write_all (write b p) ps)) (append_assoc all p (concat ps))
      (write_all-Captured limit ps (all ++ p) (write b p) h.1 (write-Captured limit all b p h.0 c))

-- However the output arrives, in writes that are not empty, an empty buffer holds its first bytes up
-- to the limit afterwards, and says that it was cut exactly when there were more.
pub write_all-take :
    (limit : ℕ) (ps : List (List ℕ))
    → All (λ p. 0 < length p) ps
    → let b = write_all (record { buf = []; limit = limit; truncated = false }) ps in
      (b.buf ≡ take limit (concat ps)) × (b.truncated ≡ ltb limit (length (concat ps)))
write_all-take limit ps h =
    let c =
      write_all-Captured limit ps [] _ h
        (record { same_limit = refl; held = empty limit; more = ground arith }) in
    (c.held, c.more)
  where
    empty : (n : ℕ) → ◌≡◌ {A = List ℕ} [] (take n [])
    empty zero = refl
    empty (suc n) = refl
