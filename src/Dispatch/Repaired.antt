-- ===== src/Dispatch/Repaired.antt =====
-- What Recover may do to the rows of the database: each stays in its place, and is settled or as it was.
use kickd.Prelude.{
  ℕ, ◌≡◌, refl, Bool, true, false, ◌||◌, List, [], ◌∷◌, ◌++◌, nat_eq, ◌==◌, All, Bool-cases, ◌⊎◌,
  inl, inr, subst, sym, ◌∙◌,
}
use kickd.Queue.Status.{status_eq, retried, abandoned}
use kickd.Queue.Row.{Row, Db}
use kickd.Queue.Conn.{update_where}
use kickd.Queue.Runs.{is_row, update}
use kickd.Queue.Recovery.{was_cut_off}

abbrev pub is_settled : Row → Bool
is_settled r = status_eq.test r.status retried || status_eq.test r.status abandoned

-- The row is as it was, or is retried or abandoned now.
abbrev pub Becomes : Row → Row → Type 0
Becomes r r' = (r'.id ≡ r.id) × ((r' ≡ r) ⊎ (is_settled r' ≡ true))

-- Each row has become the row at its place, and others may follow.
abbrev pub Later : (Row → Row → Type 0) → List Row → List Row → Type 0
Later P [] rows' = Unit {0}
Later P (r ∷ rows) [] = ⊥
Later P (r ∷ rows) (r' ∷ rows') = P r r' × Later P rows rows'

pub Later-refl : (rows : List Row) → Later Becomes rows rows
Later-refl [] = tt
Later-refl (r ∷ rows) = ((refl, inl refl), Later-refl rows)

Becomes-trans : (r s t : Row) → Becomes r s → Becomes s t → Becomes r t
Becomes-trans r s t (i, a) (j, inr b) = (j ∙ i, inr b)
Becomes-trans r s t (i, inl a) (j, inl b) = (j ∙ i, inl (b ∙ a))
Becomes-trans r s t (i, inr a) (j, inl b) =
    (j ∙ i, inr (subst (λ x. is_settled x ≡ true) (sym b) a))

pub Later-trans :
    (rows mid later : List Row)
    → Later Becomes rows mid
    → Later Becomes mid later
    → Later Becomes rows later
Later-trans [] mid later a b = tt
Later-trans (r ∷ rows) [] later a b = absurd a
Later-trans (r ∷ rows) (s ∷ mid) [] a b = absurd b
Later-trans (r ∷ rows) (s ∷ mid) (t ∷ later) (a, as_before) (b, bs) =
    (Becomes-trans r s t a b, Later-trans rows mid later as_before bs)

pub Later-append : (rows more : List Row) → Later Becomes rows (rows ++ more)
Later-append [] more = tt
Later-append (r ∷ rows) more = ((refl, inl refl), Later-append rows more)

pub Later-update_where :
    (id : ℕ) (f : Row → Row) (rows : List Row)
    → ((r : Row) → (f r).id ≡ r.id)
    → ((r : Row) → is_settled (f r) ≡ true)
    → Later Becomes rows (update_where (is_row id) f rows)
unfolding update_where
Later-update_where id f [] same settled = tt
Later-update_where id f (r ∷ rows) same settled =
    let others = Later-update_where id f rows same settled in
    elim (Bool-cases (r.id == id)) [
      | inl e ↦ rw e ((same r, inr (settled r)), others)
      | inr e ↦ rw e ((refl, inl refl), others)
    ]

pub Later-update :
    (id : ℕ) (f : Row → Row) (db : Db)
    → ((r : Row) → (f r).id ≡ r.id)
    → ((r : Row) → is_settled (f r) ≡ true)
    → Later Becomes db.runs (update (is_row id) f db).1.runs
unfolding update
Later-update id f db same settled = Later-update_where id f db.runs same settled

-- The row is as it was, which is not cut off, or it is retried or abandoned now.
abbrev pub IsRepaired : Row → Row → Type 0
IsRepaired r r' = (r'.id ≡ r.id) × (((was_cut_off r ≡ false) × (r' ≡ r)) ⊎ (is_settled r' ≡ true))

pub Later-IsRepaired :
    (rows rows' : List Row)
    → All (λ r. was_cut_off r ≡ false) rows'
    → Later Becomes rows rows'
    → Later IsRepaired rows rows'
Later-IsRepaired [] rows' h b = tt
Later-IsRepaired (r ∷ rows) [] h b = absurd b
Later-IsRepaired (r ∷ rows) (r' ∷ rows') (c, h) ((i, inl e), bs) =
    ((i, inl (subst (λ x. was_cut_off x ≡ false) e c, e)), Later-IsRepaired rows rows' h bs)
Later-IsRepaired (r ∷ rows) (r' ∷ rows') (c, h) ((i, inr s), bs) =
    ((i, inr s), Later-IsRepaired rows rows' h bs)
