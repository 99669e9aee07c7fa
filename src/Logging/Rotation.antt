-- ===== src/Logging/Rotation.antt =====
-- What a write keeps of the file and its older generations.
use kickd.Prelude.{
  ℕ, zero, suc, ◌+◌, ◌≤◌, ◌<◌, ◌≡◌, ◌≢◌, refl, subst, ◌∙◌, sym, true, false, not, ◌&&◌, ◌⊎◌, inl,
  inr, Option, none, some, List, [], ◌∷◌, ◌++◌, arith, if◌then◌else◌, nat_eq, ◌==◌, ltb, length,
  length-append, Bool-cases, ltb→lt,
}
use kickd.Logging.{
  next_fault, Disk, RotatingFile, remove_file, moved, rename_file, shift_files, open_file,
  rotate_closed, rotate, noted, is_over, append_file, write_open, write_file,
}

abbrev Files : Type 0
Files = ℕ → Option (List ℕ)

abbrev calm : Files → Disk
calm files = record { files = files; faults = [] }

-- The files above moved up by one, over n generations.
record Shifted (n : ℕ) (old new : Files) : Type 0 where
  up : (k : ℕ) → k < n → new (suc k) ≡ old k
  beyond : (k : ℕ) → n < k → new k ≡ old k
  emptied : new 0 ≡ none

record Shifts (n : ℕ) (old : Files) (x : ℕ × Disk) : Type 0 where
  errors : x.0 ≡ 0
  calmed : x.1.faults ≡ []
  shifted : Shifted n old x.1.files

-- The oldest of the generations has moved up, from `old` to `mid`.
extend_shift :
    (n : ℕ) (old mid : Files) (x : ℕ × Disk)
    → ((k : ℕ) → k < suc n → mid k ≡ old k)
    → mid (suc (suc n)) ≡ old (suc n)
    → ((k : ℕ) → suc (suc n) < k → mid k ≡ old k)
    → Shifts (suc n) mid x
    → Shifts (suc (suc n)) old x
extend_shift n old mid x below top above h = record {
  errors = h.errors;
  calmed = h.calmed;
  shifted = record {
    up = λ k l. elim (Bool-cases (ltb k (suc n))) [
      | inl e ↦ h.shifted.up k (ltb→lt k (suc n) e) ∙ below k (ltb→lt k (suc n) e)
      | inr e ↦
          let same : suc n ≡ k = ground (arith, l, e) in
          subst (λ j. x.1.files (suc j) ≡ old j) same
            (h.shifted.beyond (suc (suc n)) (omega arith) ∙ top)
    ];
    beyond = λ k l. h.shifted.beyond k (omega (arith, l)) ∙ above k l;
    emptied = h.shifted.emptied;
  };
}

-- What Rename leaves of a generation.
abbrev after_move : ℕ → List ℕ → Files → Files
after_move i content old k = if k == i then none else if k == suc i then some content else old k

after_move-other :
    (i k : ℕ) (content : List ℕ) (old : Files)
    → k ≢ i
    → k ≢ suc i
    → after_move i content old k ≡ old k
after_move-other i k content old a b =
    let e : (k == i) ≡ false = ground (arith, nat_eq.decides k i, a) in
    let f : (k == suc i) ≡ false = ground (arith, nat_eq.decides k (suc i), b) in rw (e, f) refl

after_move-next :
    (i : ℕ) (content : List ℕ) (old : Files) → after_move i content old (suc i) ≡ some content
after_move-next i content old =
    let e : (suc i == i) ≡ false = ground arith in
    let f : (suc i == suc i) ≡ true = ground arith in rw (e, f) refl

after_move-gone : (i : ℕ) (content : List ℕ) (old : Files) → after_move i content old i ≡ none
after_move-gone i content old = let e : (i == i) ≡ true = ground arith in rw e refl

shift-Shifts :
    (n : ℕ) (old : Files) (content : List ℕ)
    → old 0 ≡ some content
    → old (suc n) ≡ none
    → Shifts (suc n) old (shift_files (suc n) (0, calm old))
unfolding shift_files rename_file
shift-Shifts zero old content e h = rw e (record {
  errors = refl;
  calmed = refl;
  shifted = record {
    up = λ k l. subst (λ j. after_move 0 content old (suc j) ≡ old j) (omega (arith, l)) (sym e);
    beyond = λ k l.
        after_move-other 0 k content old (λ z. absurd (omega (arith, z, l)))
          (λ z. absurd (omega (arith, z, l)));
    emptied = refl;
  };
})
shift-Shifts (suc n) old content e h = go (old (suc n)) refl (shift-Shifts n)
  where
    go :
        (o : Option (List ℕ))
        → old (suc n) ≡ o
        → ((mid : Files) (c : List ℕ)
            → mid 0 ≡ some c
            → mid (suc n) ≡ none
            → Shifts (suc n) mid (shift_files (suc n) (0, calm mid)))
        → Shifts (suc (suc n)) old (
            shift_files
              (suc n)
              (0 + (moved 0 (suc n) (calm old) o).0, (moved 0 (suc n) (calm old) o).1))
    go none f ih =
        extend_shift n old old _ (λ k l. refl) (h ∙ sym f) (λ k l. refl) (ih old content e f)
    go (some c) f ih =
        let mid = after_move (suc n) c old in
        extend_shift n old mid _
          (λ k l.
            after_move-other (suc n) k c old (λ z. absurd (omega (arith, z, l)))
              (λ z. absurd (omega (arith, z, l))))
          (after_move-next (suc n) c old ∙ sym f)
          (λ k l.
            after_move-other (suc n) k c old (λ z. absurd (omega (arith, z, l)))
              (λ z. absurd (omega (arith, z, l))))
          (ih mid content
            (after_move-other (suc n) 0 c old (λ z. absurd (omega (arith, z)))
                (λ z. absurd (omega (arith, z)))
              ∙ e)
            (after_move-gone (suc n) c old))

-- A write to a file that held `content`, with `old` the file and its older generations, of which n + 1
-- are kept: the bytes are appended, and the file is within its limit or had nothing; or the file holds
-- the bytes alone and every generation that is kept has moved up.
pub record IsWritten (n limit : ℕ) (old : Files) (content p : List ℕ) (x : Option ℕ × RotatingFile)
    : Type 0 where
  pub answer : x.0 ≡ some (length p)
  pub is_open : x.1.is_open ≡ true
  pub kept :
      ((x.1.disk.files 0 ≡ some (content ++ p))
        × ((x.1.size ≡ length (content ++ p))
            × ((((k : ℕ) → x.1.disk.files (suc k) ≡ old (suc k)))
                × ((limit ≡ 0) ⊎ ((content ≡ []) ⊎ (length (content ++ p) ≤ limit))))))
      ⊎ ((x.1.disk.files 0 ≡ some p)
          × ((x.1.size ≡ length p) × ((k : ℕ) → k < suc n → x.1.disk.files (suc k) ≡ old k)))

abbrev pub in_use : ℕ → ℕ → ℕ → Files → List ℕ → RotatingFile
in_use n limit failures old content = record {
  disk = record { files = old; faults = [] };
  limit = limit;
  backups = suc n;
  is_open = true;
  size = length content;
  failures = failures;
}

abbrev without_last : ℕ → Files → Files
without_last n old k = if k == suc n then none else old k

abbrev reopened : RotatingFile → ℕ × Disk → ℕ × RotatingFile
reopened r (errors, d) = (errors + (open_file r (next_fault d)).0, (open_file r (next_fault d)).1)

not_zero : (k : ℕ) → (suc k == 0) ≡ false
not_zero k = ground arith

apart : (k i : ℕ) → k ≢ i → (k == i) ≡ false
apart k i h = ground (arith, nat_eq.decides k i, h)

within :
    (limit : ℕ) (content p : List ℕ)
    → (not (limit == 0) && not (length content == 0) && ltb limit (length content + length p))
      ≡ false
    → (limit ≡ 0) ⊎ ((content ≡ []) ⊎ (length (content ++ p) ≤ limit))
within limit [] p h = inr (inl refl)
within limit (x ∷ xs) p h = elim (Bool-cases (limit == 0)) [
  | inl e ↦ inl ((nat_eq.decides limit 0).0 e)
  | inr e ↦ inr (inr (omega (arith, length-append (x ∷ xs) p, not_over e)))
]
  where
    not_over : (limit == 0) ≡ false → length (x ∷ xs) + length p ≤ limit
    not_over e = ground (arith, e, h)

shifted-IsWritten :
    (n limit : ℕ) (old without : Files) (content p : List ℕ) (r : RotatingFile) (x : ℕ × Disk)
    → ((k : ℕ) → k < suc n → without k ≡ old k)
    → Shifts (suc n) without x
    → IsWritten n limit old content p (write_open p (noted (reopened r x)))
unfolding open_file write_open append_file
shifted-IsWritten n limit old without content p r x same h =
    rw (h.errors, h.calmed, h.shifted.emptied)
      (record {
        answer = refl;
        is_open = refl;
        kept = inr (refl, (omega arith, λ k l. rw (not_zero k) (h.shifted.up k l ∙ same k l)));
      })

-- Where no call fails, a write to an open file loses no byte but those of the oldest generation that
-- is kept: either the bytes are appended and the older generations stay, and then there is no limit,
-- the file was empty, or it stays within the limit; or the file holds the bytes alone, and it and every
-- generation but the oldest have moved up by one. The size that is counted is that of the file.
pub write_file-IsWritten :
    (n limit failures : ℕ) (old : ℕ → Option (List ℕ)) (content p : List ℕ)
    → old 0 ≡ some content
    → IsWritten n limit old content p (write_file p (in_use n limit failures old content))
unfolding write_file rotate rotate_closed remove_file write_open append_file
write_file-IsWritten n limit failures old content p e =
    elim (Bool-cases (is_over (in_use n limit failures old content) p)) [
      | inl over ↦ rw over (
          shifted-IsWritten n limit old (without_last n old) content p
            (record (in_use n limit failures old content) { is_open = false })
            (shift_files (suc n) (0, calm (without_last n old)))
            (λ k l. rw (apart k (suc n) (λ z. absurd (omega (arith, z, l)))) refl)
            (shift-Shifts n (without_last n old) content
              (rw (apart 0 (suc n) (λ z. absurd (omega (arith, z)))) e)
              (rw ((nat_eq.decides (suc n) (suc n)).1 refl) refl)))
      | inr fits ↦ rw fits (record {
        answer = refl;
        is_open = refl;
        kept = inl (
          rw e refl,
          (sym (length-append content p), (λ k. rw (not_zero k) refl, within limit content p fits)),
        );
      })
    ]
