-- ===== src/Runner/Whole.antt =====
-- What lineWriter passes on of the output of a command, however the output arrives.
use kickd.Prelude.{
  zero, suc, if_cases, ℕ, ◌≡◌, refl, ap, subst, ◌∙◌, sym, Bool, true, false, inl, inr, Option, some,
  List, [], ◌∷◌, ◌++◌, arith, nat_eq, ◌==◌, ltb, length, take, Bool-cases, ltb→lt,
}
use mathlib.Core.List.{append_assoc, append-nil}
use kickd.Runner.Lines.{
  TailBuffer, LineWriter, extend, whole_lines, to_file, pass_on, capture_lines, with_tail,
  log_lines, split_lines, line_write, line_write_all, flush_pending, flush_buf, line_flush,
  max_log_line,
}
use kickd.Runner.Bounds.{Captured, write-Captured, concat}

extend-append : (x : ℕ) (y : List ℕ × List ℕ) → (extend x y).0 ++ (extend x y).1 ≡ x ∷ (y.0 ++ y.1)
extend-append x ([], rest) = elim (Bool-cases (x == 10)) [ inl e ↦ rw e refl | inr e ↦ rw e refl ]
extend-append x (y ∷ ys, rest) = refl

pub whole_lines-append : (xs : List ℕ) → (whole_lines xs).0 ++ (whole_lines xs).1 ≡ xs
unfolding whole_lines
whole_lines-append [] = refl
whole_lines-append (x ∷ xs) =
    extend-append x (whole_lines xs) ∙ ap (λ ys. x ∷ ys) (whole_lines-append xs)

-- All output so far has been captured and written to the file, but for the bytes that are pending.
record Wrote (limit : ℕ) (all : List ℕ) (w : LineWriter) : Type 0 where
  done : List ℕ
  captured : Captured limit done w.capture
  filed : w.file ≡ some done
  together : done ++ w.pending ≡ all

pass_on-Wrote :
    (limit : ℕ) (w : LineWriter) (done : List ℕ) (x : ℕ) (xs rest : List ℕ)
    → Captured limit done w.capture
    → w.file ≡ some done
    → Wrote limit (done ++ ((x ∷ xs) ++ rest)) (pass_on (x ∷ xs) rest w)
pass_on-Wrote limit w done x xs rest c f = record {
  done = done ++ (x ∷ xs);
  captured = write-Captured limit done w.capture (x ∷ xs) (omega arith) c;
  filed = rw f refl;
  together = append_assoc done (x ∷ xs) rest;
}

rejoin :
    (limit : ℕ) (all p : List ℕ) (w : LineWriter) (ys : List ℕ)
    → (h : Wrote limit all w) → ys ≡ w.pending ++ p
    → h.done ++ ys ≡ all ++ p
rejoin limit all p w ys h e =
    ap (λ z. h.done ++ z) e ∙ sym (append_assoc h.done w.pending p) ∙ ap (λ z. z ++ p) h.together

capture_lines-Wrote :
    (limit : ℕ) (all p : List ℕ) (w : LineWriter) (y : List ℕ × List ℕ)
    → Wrote limit all w
    → y.0 ++ y.1 ≡ w.pending ++ p
    → Wrote limit (all ++ p) (capture_lines w y)
unfolding capture_lines
capture_lines-Wrote limit all p w (x ∷ xs, rest) h e =
    subst (λ a. Wrote limit a (pass_on (x ∷ xs) rest w))
      (rejoin limit all p w ((x ∷ xs) ++ rest) h e)
      (pass_on-Wrote limit w h.done x xs rest h.captured h.filed)
capture_lines-Wrote limit all p w ([], rest) h e =
    elim (Bool-cases (ltb max_log_line (length rest))) [
      | inl long ↦ rw long (
          subst (λ a. Wrote limit a (pass_on rest [] w)) (rejoin limit all p w rest h e)
            (long_line rest long))
      | inr short ↦ rw short (record {
        done = h.done;
        captured = h.captured;
        filed = h.filed;
        together = rejoin limit all p w rest h e;
      })
    ]
  where
    long_line :
        (rest : List ℕ)
        → ltb max_log_line (length rest) ≡ true
        → Wrote limit (h.done ++ rest) (pass_on rest [] w)
    long_line [] g = absurd (omega (arith, ltb→lt max_log_line 0 g))
    long_line (x ∷ xs) g =
        subst (λ a. Wrote limit (h.done ++ a) (pass_on (x ∷ xs) [] w)) (append-nil (x ∷ xs))
          (pass_on-Wrote limit w h.done x xs [] h.captured h.filed)

-- The log and the tail are no part of it.
same_output :
    (limit : ℕ) (all : List ℕ) (w : LineWriter) (tail : Option TailBuffer) (buf : List ℕ)
    (logged : List (List ℕ))
    → Wrote limit all w
    → Wrote limit all (record w { tail = tail; buf = buf; logged = logged })
same_output limit all w tail buf logged h = record {
  done = h.done;
  captured = h.captured;
  filed = h.filed;
  together = h.together;
}

log_lines-Wrote :
    (limit : ℕ) (all : List ℕ) (w : LineWriter) (y : List (List ℕ) × List ℕ)
    → Wrote limit all w
    → Wrote limit all (log_lines w y)
unfolding log_lines
log_lines-Wrote limit all w (lines, rest) h =
    if_cases (Wrote limit all) (ltb max_log_line (length rest)) _ _
      (λ _. same_output limit all w _ _ _ h) (λ _. same_output limit all w _ _ _ h)

line_write-Wrote :
    (limit : ℕ) (all p : List ℕ) (w : LineWriter)
    → Wrote limit all w
    → Wrote limit (all ++ p) (line_write w p)
unfolding line_write
line_write-Wrote limit all p w h =
    let c =
      capture_lines-Wrote limit all p w (whole_lines (w.pending ++ p)) h
        (whole_lines-append (w.pending ++ p)) in
    let w' = with_tail p (capture_lines w (whole_lines (w.pending ++ p))) in
    let t : Wrote limit (all ++ p) w' = same_output limit (all ++ p) _ _ _ _ c in
    if_cases (Wrote limit (all ++ p)) w'.emits _ _
      (λ _. log_lines-Wrote limit (all ++ p) w' (split_lines (w'.buf ++ p)) t) (λ _. t)

line_write_all-Wrote :
    (limit : ℕ) (ps : List (List ℕ)) (all : List ℕ) (w : LineWriter)
    → Wrote limit all w
    → Wrote limit (all ++ concat ps) (line_write_all w ps)
unfolding line_write_all concat
line_write_all-Wrote limit [] all w h = subst (λ a. Wrote limit a w) (sym (append-nil all)) h
line_write_all-Wrote limit (p ∷ ps) all w h =
    subst (λ a. Wrote limit a (line_write_all (line_write w p) ps)) (append_assoc all p (concat ps))
      (line_write_all-Wrote limit ps (all ++ p) (line_write w p) (line_write-Wrote limit all p w h))

-- flush ends an unfinished line.
abbrev pub newline_after : List ℕ → List ℕ
newline_after [] = []
newline_after (x ∷ xs) = 10 ∷ []

-- All the output is in the capture, up to its limit, and in the file, where a newline follows it if
-- bytes were pending before flush.
pub record IsPassedOn (limit : ℕ) (all pending : List ℕ) (w : LineWriter) : Type 0 where
  pub held : w.capture.buf ≡ take limit all
  pub more : w.capture.truncated ≡ ltb limit (length all)
  pub filed : w.file ≡ some (all ++ newline_after pending)
  pub nothing_pending : w.pending ≡ []

flush_pending-IsPassedOn :
    (limit : ℕ) (all : List ℕ) (w : LineWriter) (pending : List ℕ)
    → w.pending ≡ pending
    → Wrote limit all w
    → IsPassedOn limit all pending (flush_pending w pending)
unfolding flush_pending
flush_pending-IsPassedOn limit all w [] e h =
    let whole : h.done ≡ all =
      sym (append-nil h.done) ∙ ap (λ z. h.done ++ z) (sym e) ∙ h.together in
    record {
      held = rw⁻¹ whole h.captured.held;
      more = rw⁻¹ whole h.captured.more;
      filed = h.filed ∙ ap some (whole ∙ sym (append-nil all));
      nothing_pending = e;
    }
flush_pending-IsPassedOn limit all w (x ∷ xs) e h =
    let whole : h.done ++ (x ∷ xs) ≡ all = ap (λ z. h.done ++ z) (sym e) ∙ h.together in
    let c = write-Captured limit h.done w.capture (x ∷ xs) (omega arith) h.captured in
    record {
      held = c.held ∙ ap (take limit) whole;
      more = c.more ∙ ap (λ z. ltb limit (length z)) whole;
      filed =
          (ap (to_file ((x ∷ xs) ++ (10 ∷ []))) h.filed
            ∙ ap some
                (sym (append_assoc h.done (x ∷ xs) (10 ∷ [])) ∙ ap (λ z. z ++ (10 ∷ [])) whole));
      nothing_pending = refl;
    }

flush_buf-IsPassedOn :
    (limit : ℕ) (all pending : List ℕ) (w : LineWriter) (buf : List ℕ)
    → IsPassedOn limit all pending w
    → IsPassedOn limit all pending (flush_buf w buf)
unfolding flush_buf
flush_buf-IsPassedOn limit all pending w [] h = h
flush_buf-IsPassedOn limit all pending w (x ∷ xs) h = record {
  held = h.held;
  more = h.more;
  filed = h.filed;
  nothing_pending = h.nothing_pending;
}

abbrev pub new_writer : ℕ → Bool → Option TailBuffer → LineWriter
new_writer limit emits tail = record {
  capture = record { buf = []; limit = limit; truncated = false };
  tail = tail;
  emits = emits;
  file = some [];
  buf = [];
  pending = [];
  logged = [];
}

-- However the output of a command arrives at a lineWriter of its own, after the last write and flush
-- the capture holds its first bytes up to the limit and says whether there were more, and the output
-- file holds all of it, in its order, and after it a newline exactly where bytes were still pending,
-- which is an unfinished line that was not passed on for its length.
pub line_flush-IsPassedOn :
    (limit : ℕ) (emits : Bool) (tail : Option TailBuffer) (ps : List (List ℕ))
    → let w = line_write_all (new_writer limit emits tail) ps in
      IsPassedOn limit (concat ps) w.pending (line_flush w)
unfolding line_flush
line_flush-IsPassedOn limit emits tail ps =
    let w = line_write_all (new_writer limit emits tail) ps in
    let wrote : Wrote limit (concat ps) w =
      line_write_all-Wrote limit ps [] (new_writer limit emits tail) (record {
        done = [];
        captured = record { same_limit = refl; held = empty limit; more = ground arith };
        filed = refl;
        together = refl;
      }) in
    flush_buf-IsPassedOn limit (concat ps) w.pending (flush_pending w w.pending)
      (flush_pending w w.pending).buf
      (flush_pending-IsPassedOn limit (concat ps) w w.pending refl wrote)
  where
    empty : (n : ℕ) → ◌≡◌ {A = List ℕ} [] (take n [])
    empty zero = refl
    empty (suc n) = refl
