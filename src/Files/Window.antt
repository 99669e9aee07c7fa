-- ===== src/Files/Window.antt =====
-- What one window of changes fires.
use kickd.Prelude.{
  ℕ, zero, suc, ◌+◌, ◌≤◌, ◌<◌, ◌≡◌, ◌≢◌, refl, ap, ◌∙◌, sym, Bool, true, false, ◌||◌, inl, inr,
  String, Option, none, some, List, [], ◌∷◌, ◌++◌, arith, if◌then◌else◌, nat_eq, string_eq, ◌==◌,
  leb, leb→le, any, length, take, length-append, Bool-cases,
}
use mathlib.Core.List.{append_assoc, append-nil}
use kickd.Event.{FileChange, Codec}
use kickd.Dispatch.State.{World}
use kickd.Files.Collect.{
  max_pending_changes, same_change, Watcher, idle, collect, collect_all, fire_files, flush_files,
  changes, timer, on_changes, handle_signal,
}

-- The changes of a list, each once, without those that are in `known`.
unfoldable pub distinct : List FileChange → List FileChange → List FileChange
distinct known [] = []
distinct known (c ∷ cs) =
    let without = distinct known cs in
    let with_it = distinct (known ++ c ∷ []) cs in
    if any (same_change c) known then without else c ∷ with_it

any-append :
    (p : FileChange → Bool) (xs ys : List FileChange) → any p (xs ++ ys) ≡ (any p xs || any p ys)
unfolding any
any-append p [] ys = refl
any-append p (x ∷ xs) ys = ground (arith, any-append p xs ys)

take-full : (n : ℕ) (xs ys : List FileChange) → length xs ≡ n → take n (xs ++ ys) ≡ xs
take-full zero [] ys h = refl
take-full zero (x ∷ xs) ys h = absurd (omega (arith, h))
take-full (suc n) [] ys h = absurd (omega (arith, h))
take-full (suc n) (x ∷ xs) ys h = ap (λ zs. x ∷ zs) (take-full n xs ys (omega (arith, h)))

take-short : (n : ℕ) (xs : List FileChange) → length xs ≤ n → take n xs ≡ xs
take-short zero [] h = refl
take-short zero (x ∷ xs) h = absurd (omega (arith, h))
take-short (suc n) [] h = refl
take-short (suc n) (x ∷ xs) h = ap (λ zs. x ∷ zs) (take-short n xs (omega (arith, h)))

-- The keys that are taken are those of the changes that are pending, of which there is a limit.
record IsTidy (st : Watcher) : Type 0 where
  same_keys : (c : FileChange) → any (same_change c) st.seen ≡ any (same_change c) st.pending
  bounded : length st.pending ≤ max_pending_changes

-- `st` holds what a list of changes has, up to the limit, beside what it held.
record Holds (start : Watcher) (cs : List FileChange) (st : Watcher) : Type 0 where
  tidy : IsTidy st
  held : st.pending ≡ take max_pending_changes (start.pending ++ distinct start.pending cs)

collect_known :
    (st : Watcher) (c : FileChange) → any (same_change c) st.seen ≡ true → collect st c ≡ st
unfolding collect
collect_known st c known = rw known refl

collect_full :
    (st : Watcher) (c : FileChange)
    → any (same_change c) st.seen ≡ false
    → leb max_pending_changes (length st.pending) ≡ true
    → collect st c ≡ record st { dropped = st.dropped + 1 }
unfolding collect
collect_full st c new full = rw (new, full) refl

collect_new :
    (st : Watcher) (c : FileChange)
    → any (same_change c) st.seen ≡ false
    → leb max_pending_changes (length st.pending) ≡ false
    → collect st c ≡ record st { seen = c ∷ st.seen; pending = st.pending ++ c ∷ [] }
unfolding collect
collect_new st c new room = rw (new, room) refl

grown :
    (st : Watcher) (c : FileChange)
    → IsTidy st
    → leb max_pending_changes (length st.pending) ≡ false
    → IsTidy (record st { seen = c ∷ st.seen; pending = st.pending ++ c ∷ [] })
unfolding any
grown st c h room = record {
  same_keys = λ d.
      ap (λ b. same_change d c || b) (h.same_keys d)
      ∙ swap (same_change d c) (any (same_change d) st.pending)
      ∙ sym (any-append (same_change d) st.pending (c ∷ []));
  bounded = omega (arith, length-append st.pending (c ∷ []), small (length st.pending) room);
}
  where
    swap : (a b : Bool) → (a || b) ≡ (b || (a || false))
    swap a b = ground arith

    small : (n : ℕ) → leb max_pending_changes n ≡ false → n < max_pending_changes
    small n h = ground (arith, h)

collect_all-Holds :
    (st : Watcher) (cs : List FileChange) → IsTidy st → Holds st cs (collect_all st cs)
unfolding collect_all distinct
collect_all-Holds st [] h = record {
  tidy = h;
  held = sym (
      ap (take max_pending_changes) (append-nil st.pending)
      ∙ take-short max_pending_changes st.pending h.bounded);
}
collect_all-Holds st (c ∷ cs) h = elim (Bool-cases (any (same_change c) st.seen)) [
  | inl known ↦
      let ih = collect_all-Holds st cs h in
      let pending_too = sym (h.same_keys c) ∙ known in
      rw (collect_known st c known)
        (record { tidy = ih.tidy; held = ih.held ∙ rw pending_too refl })
  | inr new ↦
      let pending_too = sym (h.same_keys c) ∙ new in
      elim (Bool-cases (leb max_pending_changes (length st.pending))) [
        | inl full ↦
            let ih =
              collect_all-Holds (record st { dropped = st.dropped + 1 }) cs
                (record { same_keys = h.same_keys; bounded = h.bounded }) in
            let size : length st.pending ≡ max_pending_changes =
              omega (arith, h.bounded, leb→le max_pending_changes (length st.pending) full) in
            rw (collect_full st c new full) (record {
              tidy = ih.tidy;
              held =
                  ih.held
                  ∙ take-full max_pending_changes st.pending (distinct st.pending cs) size
                  ∙ sym (take-full max_pending_changes st.pending _ size);
            })
        | inr room ↦
            let ih =
              collect_all-Holds (record st { seen = c ∷ st.seen; pending = st.pending ++ c ∷ [] })
                cs (grown st c h room) in
            rw (collect_new st c new room) (record {
              tidy = ih.tidy;
              held =
                  ih.held
                  ∙ rw pending_too (
                      ap (take max_pending_changes)
                        (append_assoc st.pending (c ∷ []) (distinct (st.pending ++ c ∷ []) cs)));
            })
      ]
]

collect_all-append :
    (st : Watcher) (as' bs : List FileChange)
    → collect_all st (as' ++ bs) ≡ collect_all (collect_all st as') bs
unfolding collect_all
collect_all-append st [] bs = refl
collect_all-append st (c ∷ cs) bs = collect_all-append (collect st c) cs bs

unfoldable pub all_changes : List (List FileChange) → List FileChange
all_changes [] = []
all_changes (cs ∷ css) = cs ++ all_changes css

abbrev with_timer : Option ℕ → Watcher → Watcher
with_timer t st = record st { fires_at = t }

collect-timer :
    (t : Option ℕ) (st : Watcher) (c : FileChange)
    → collect (with_timer t st) c ≡ with_timer t (collect st c)
unfolding collect
collect-timer t st c = elim (Bool-cases (any (same_change c) st.seen)) [
  | inl e ↦ rw e refl
  | inr e ↦ rw e (elim (Bool-cases (leb max_pending_changes (length st.pending))) [
    | inl f ↦ rw f refl
    | inr f ↦ rw f refl
  ])
]

collect_all-timer :
    (t : Option ℕ) (st : Watcher) (cs : List FileChange)
    → collect_all (with_timer t st) cs ≡ with_timer t (collect_all st cs)
unfolding collect_all
collect_all-timer t st [] = refl
collect_all-timer t st (c ∷ cs) =
    ap (λ u. collect_all u cs) (collect-timer t st c) ∙ collect_all-timer t (collect st c) cs

idle-IsTidy : IsTidy idle
unfolding any
idle-IsTidy = record { same_keys = λ c. refl; bounded = omega arith }

nothing_seen : (st : Watcher) → IsTidy st → st.pending ≡ [] → st.seen ≡ []
unfolding any
nothing_seen st h e = go st.seen (λ c. h.same_keys c ∙ ap (any (same_change c)) e)
  where
    go :
        (seen : List FileChange)
        → ((c : FileChange) → any (same_change c) seen ≡ any (same_change c) [])
        → seen ≡ []
    go [] f = refl
    go (c ∷ cs) f = absurd (
        ground (
          arith,
          f c,
          (string_eq.decides c.op c.op).1 refl,
          (string_eq.decides c.path c.path).1 refl,
        ))

module _ (codec : Codec) (name root : String) (debounce : ℕ) where
  -- The event is fired for changes, if there are any.
  abbrev pub fire_some : List FileChange → World → World
  fire_some [] w = w
  fire_some (c ∷ cs) w = fire_files codec name root w (c ∷ cs)

  -- The changes are reported in batches while the timer does not end.
  unfoldable pub report_all : Watcher → List (List FileChange) → World → Watcher × World
  report_all st [] w = (st, w)
  report_all st (cs ∷ css) w =
      let (st', w') = handle_signal codec name root debounce st (changes cs) w in
      report_all st' css w'

  reported :
      (st : Watcher) (css : List (List FileChange)) (w : World)
      → debounce ≢ 0
      → (t : Option ℕ) × (report_all st css w
          ≡ (with_timer t (collect_all st (all_changes css)), w))
  unfolding report_all all_changes handle_signal on_changes collect_all
  reported st [] w h = (st.fires_at, refl)
  reported st ([] ∷ css) w h = reported st css w h
  reported st ((c ∷ cs) ∷ css) w h =
      let st' = with_timer (some (w.now + debounce)) (collect_all st (c ∷ cs)) in
      let (t, ih) = reported st' css w h in
      let waits : (debounce == 0) ≡ false = ground (arith, nat_eq.decides debounce 0, h) in
      (
        t,
        rw waits (
            ih
            ∙ ap (λ u. (with_timer t u, w))
                (collect_all-timer (some (w.now + debounce)) (collect_all st (c ∷ cs))
                  (all_changes css))
            ∙ ap (λ u. (with_timer t u, w))
                (sym (collect_all-append st (c ∷ cs) (all_changes css)))),
      )

  flushed :
      (st : Watcher) (files : List FileChange) (w : World)
      → IsTidy st
      → st.pending ≡ files
      → flush_files codec name root (with_timer none st) files w ≡ (idle, fire_some files w)
  unfolding flush_files
  flushed st [] w h e = rw (e, nothing_seen st h e) refl
  flushed st (c ∷ cs) w h e = refl

  -- Where changes are reported in batches and then the timer ends, the event is fired once, at that time,
  -- and not before. Its files are the reported changes in their order, each once, and of those the first
  -- 10000. The watcher is then as at its start. There is no such event where nothing was reported.
  pub window_fires :
      (css : List (List FileChange)) (w : World)
      → debounce ≢ 0
      → let (st, w') = report_all idle css w in
        (w' ≡ w)
        × (handle_signal codec name root debounce st timer w'
            ≡ (idle, fire_some (take max_pending_changes (distinct [] (all_changes css))) w))
  unfolding handle_signal
  window_fires css w h =
      let (t, e) = reported idle css w h in
      let held = (collect_all-Holds idle (all_changes css) idle-IsTidy).held in
      (
        ap (λ x. x.1) e,
        ap (λ x. flush_files codec name root (record x.0 { fires_at = none }) x.0.pending x.1) e
            ∙ ap
                (λ files.
                  flush_files codec name root (with_timer none (collect_all idle (all_changes css)))
                    files w)
                held
            ∙ flushed (collect_all idle (all_changes css)) _ w
                (collect_all-Holds idle (all_changes css) idle-IsTidy).tidy held,
      )
