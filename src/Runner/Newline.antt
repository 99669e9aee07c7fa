-- ===== src/Runner/Newline.antt =====
-- The output file of a command ends with a newline.
use kickd.Prelude.{
  ℕ, ◌≤◌, ◌≡◌, refl, ap, subst, ◌∙◌, sym, Bool, true, false, inl, inr, Option, some, List, [], ◌∷◌,
  ◌++◌, arith, nat_eq, ◌==◌, ltb, length, contains, Bool-cases, if_cases, if◌then◌else◌,
}
use mathlib.Core.List.{append_assoc, append-nil}
use kickd.Runner.Lines.{
  TailBuffer, LineWriter, extend, whole_lines, to_file, capture_lines, with_tail, log_lines,
  split_lines, line_write, line_write_all, flush_pending, flush_buf, line_flush, max_log_line,
}
use kickd.Runner.Bounds.{concat}
use kickd.Runner.Whole.{whole_lines-append, new_writer}

-- Whether the last byte, if there is one, is a newline.
unfoldable pub ends_line : List ℕ → Bool
ends_line [] = true
ends_line (x ∷ []) = x == 10
ends_line (x ∷ y ∷ ys) = ends_line (y ∷ ys)

-- The output with a newline at its end, which is added where it lacks one.
unfoldable pub finished : List ℕ → List ℕ
finished all = if ends_line all then all else all ++ 10 ∷ []

-- No more bytes than max_log_line stand next to each other without a newline.
abbrev pub HasShortLines : List ℕ → Type 0
HasShortLines all =
    (front line back : List ℕ)
    → all ≡ front ++ (line ++ back)
    → contains line 10 ≡ false
    → length line ≤ max_log_line

HasShortLines-append : (all p : List ℕ) → HasShortLines (all ++ p) → HasShortLines all
HasShortLines-append all p h front line back e = h front line (back ++ p) (
    ap (λ z. z ++ p) e
    ∙ append_assoc front (line ++ back) p
    ∙ ap (λ z. front ++ z) (append_assoc line back p))

ends_line-append :
    (xs : List ℕ) (y : ℕ) (ys : List ℕ) → ends_line (xs ++ (y ∷ ys)) ≡ ends_line (y ∷ ys)
unfolding ends_line
ends_line-append [] y ys = refl
ends_line-append (x ∷ []) y ys = refl
ends_line-append (x ∷ z ∷ xs) y ys = ends_line-append (z ∷ xs) y ys

ends_line-open : (x : ℕ) (xs : List ℕ) → contains (x ∷ xs) 10 ≡ false → ends_line (x ∷ xs) ≡ false
unfolding ends_line
ends_line-open x [] h = ground (arith, h)
ends_line-open x (y ∷ ys) h = ends_line-open y ys (ground (arith, h))

-- Whole lines, and the start of a line.
record IsSplit (y : List ℕ × List ℕ) : Type 0 where
  whole : ends_line y.0 ≡ true
  unfinished : contains y.1 10 ≡ false

extend-IsSplit : (x : ℕ) (y : List ℕ × List ℕ) → IsSplit y → IsSplit (extend x y)
unfolding ends_line
extend-IsSplit x ([], rest) h = elim (Bool-cases (x == 10)) [
  | inl e ↦ rw e (record { whole = e; unfinished = h.unfinished })
  | inr e ↦ rw e (record { whole = refl; unfinished = rw e h.unfinished })
]
extend-IsSplit x (y ∷ ys, rest) h = record { whole = h.whole; unfinished = h.unfinished }

whole_lines-IsSplit : (xs : List ℕ) → IsSplit (whole_lines xs)
unfolding whole_lines ends_line
whole_lines-IsSplit [] = record { whole = refl; unfinished = refl }
whole_lines-IsSplit (x ∷ xs) = extend-IsSplit x (whole_lines xs) (whole_lines-IsSplit xs)

-- The file holds whole lines, and what is pending is the start of a line.
record IsTidy (all : List ℕ) (w : LineWriter) : Type 0 where
  done : List ℕ
  filed : w.file ≡ some done
  together : done ++ w.pending ≡ all
  whole : ends_line done ≡ true
  unfinished : contains w.pending 10 ≡ false

rejoin :
    (all p : List ℕ) (w : LineWriter) (ys : List ℕ)
    → (h : IsTidy all w) → ys ≡ w.pending ++ p
    → h.done ++ ys ≡ all ++ p
rejoin all p w ys h e =
    ap (λ z. h.done ++ z) e ∙ sym (append_assoc h.done w.pending p) ∙ ap (λ z. z ++ p) h.together

capture_lines-IsTidy :
    (all p : List ℕ) (w : LineWriter) (y : List ℕ × List ℕ)
    → HasShortLines (all ++ p)
    → IsTidy all w
    → y.0 ++ y.1 ≡ w.pending ++ p
    → IsSplit y
    → IsTidy (all ++ p) (capture_lines w y)
unfolding capture_lines
capture_lines-IsTidy all p w (x ∷ xs, rest) short h e s = record {
  done = h.done ++ (x ∷ xs);
  filed = rw h.filed refl;
  together = append_assoc h.done (x ∷ xs) rest ∙ rejoin all p w ((x ∷ xs) ++ rest) h e;
  whole = ends_line-append h.done x xs ∙ s.whole;
  unfinished = s.unfinished;
}
capture_lines-IsTidy all p w ([], rest) short h e s =
    let joined = rejoin all p w rest h e in
    let fits =
      short h.done rest [] (sym joined ∙ ap (λ z. h.done ++ z) (sym (append-nil rest)))
        s.unfinished in
    elim (Bool-cases (ltb max_log_line (length rest))) [
      | inl long ↦ absurd (ground (arith, long, fits))
      | inr ok ↦ rw ok (record {
        done = h.done;
        filed = h.filed;
        together = joined;
        whole = h.whole;
        unfinished = s.unfinished;
      })
    ]

-- The log and the tail are no part of it.
same_output :
    (all : List ℕ) (w : LineWriter) (tail : Option TailBuffer) (buf : List ℕ)
    (logged : List (List ℕ))
    → IsTidy all w
    → IsTidy all (record w { tail = tail; buf = buf; logged = logged })
same_output all w tail buf logged h = record {
  done = h.done;
  filed = h.filed;
  together = h.together;
  whole = h.whole;
  unfinished = h.unfinished;
}

log_lines-IsTidy :
    (all : List ℕ) (w : LineWriter) (y : List (List ℕ) × List ℕ)
    → IsTidy all w
    → IsTidy all (log_lines w y)
unfolding log_lines
log_lines-IsTidy all w (lines, rest) h =
    if_cases (IsTidy all) (ltb max_log_line (length rest)) _ _ (λ _. same_output all w _ _ _ h)
      (λ _. same_output all w _ _ _ h)

line_write-IsTidy :
    (all p : List ℕ) (w : LineWriter)
    → HasShortLines (all ++ p)
    → IsTidy all w
    → IsTidy (all ++ p) (line_write w p)
unfolding line_write
line_write-IsTidy all p w short h =
    let c =
      capture_lines-IsTidy all p w (whole_lines (w.pending ++ p)) short h
        (whole_lines-append (w.pending ++ p)) (whole_lines-IsSplit (w.pending ++ p)) in
    let w' = with_tail p (capture_lines w (whole_lines (w.pending ++ p))) in
    let t : IsTidy (all ++ p) w' = same_output (all ++ p) _ _ _ _ c in
    if_cases (IsTidy (all ++ p)) w'.emits _ _
      (λ _. log_lines-IsTidy (all ++ p) w' (split_lines (w'.buf ++ p)) t) (λ _. t)

line_write_all-IsTidy :
    (ps : List (List ℕ)) (all : List ℕ) (w : LineWriter)
    → HasShortLines (all ++ concat ps)
    → IsTidy all w
    → IsTidy (all ++ concat ps) (line_write_all w ps)
unfolding line_write_all concat
line_write_all-IsTidy [] all w short h = subst (λ a. IsTidy a w) (sym (append-nil all)) h
line_write_all-IsTidy (p ∷ ps) all w short h =
    let same = append_assoc all p (concat ps) in
    let short' = subst HasShortLines (sym same) short in
    subst (λ a. IsTidy a (line_write_all (line_write w p) ps)) same
      (line_write_all-IsTidy ps (all ++ p) (line_write w p) short'
        (line_write-IsTidy all p w (HasShortLines-append (all ++ p) (concat ps) short') h))

flush_pending-file :
    (all : List ℕ) (w : LineWriter) (pending : List ℕ)
    → w.pending ≡ pending
    → IsTidy all w
    → (flush_pending w pending).file ≡ some (finished all)
unfolding flush_pending finished
flush_pending-file all w [] e h =
    let same : h.done ≡ all =
      sym (append-nil h.done) ∙ ap (λ z. h.done ++ z) (sym e) ∙ h.together in
    rw (rw same at h.whole) (h.filed ∙ ap some same)
flush_pending-file all w (x ∷ xs) e h =
    let same : h.done ++ (x ∷ xs) ≡ all = ap (λ z. h.done ++ z) (sym e) ∙ h.together in
    let lacks : ends_line all ≡ false =
      ap ends_line (sym same)
      ∙ ends_line-append h.done x xs
      ∙ ends_line-open x xs (ap (λ z. contains z 10) (sym e) ∙ h.unfinished) in
    rw lacks (
      ap (to_file ((x ∷ xs) ++ (10 ∷ []))) h.filed
      ∙ ap some (sym (append_assoc h.done (x ∷ xs) (10 ∷ [])) ∙ ap (λ z. z ++ (10 ∷ [])) same))

flush_buf-file : (w : LineWriter) (buf : List ℕ) → (flush_buf w buf).file ≡ w.file
unfolding flush_buf
flush_buf-file w [] = refl
flush_buf-file w (x ∷ xs) = refl

-- Where no line of the output is longer than maxLogLine, the output file holds after flush the output,
-- however it arrived, with a newline at its end: the one that it ends with, or one that flush adds.
pub line_flush-finished :
    (limit : ℕ) (emits : Bool) (tail : Option TailBuffer) (ps : List (List ℕ))
    → HasShortLines (concat ps)
    → (line_flush (line_write_all (new_writer limit emits tail) ps)).file
      ≡ some (finished (concat ps))
unfolding line_flush ends_line
line_flush-finished limit emits tail ps short =
    let w = line_write_all (new_writer limit emits tail) ps in
    let tidy : IsTidy (concat ps) w =
      line_write_all-IsTidy ps [] (new_writer limit emits tail) short
        (record { done = []; filed = refl; together = refl; whole = refl; unfinished = refl }) in
    flush_buf-file (flush_pending w w.pending) (flush_pending w w.pending).buf
    ∙ flush_pending-file (concat ps) w w.pending refl tidy
