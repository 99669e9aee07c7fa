-- ===== src/Queue/Table.antt =====
-- The table runs as a finite map from ids to rows: what a lookup by id sees after each kind of SQL
-- statement, and the order of the ids.
use mathlib.Core.Option
use kickd.Prelude.{
  ℕ, suc, ◌≤◌, ◌<◌, ◌≡◌, refl, subst, Bool, true, if◌then◌else◌, Option, none, some, List, [], ◌∷◌,
  ◌++◌, inl, inr, arith, nat_eq, ◌==◌, filter, All, Bool-cases,
}
use kickd.Queue.Row.{Row}
use kickd.Queue.Conn.{update_where}

unfoldable pub find_row : ℕ → List Row → Option Row
find_row id [] = none
find_row id (r ∷ rs) = if r.id == id then some r else find_row id rs

-- The ids grow along the table, from `lo` on and below `hi`.
abbrev pub Ascending : ℕ → List Row → ℕ → Type 0
Ascending lo [] hi = lo ≤ hi
Ascending lo (r ∷ rs) hi = (lo ≤ r.id) × Ascending (suc r.id) rs hi

pub Ascending-lower :
    (lo lo' : ℕ) (rs : List Row) (hi : ℕ) → lo' ≤ lo → Ascending lo rs hi → Ascending lo' rs hi
Ascending-lower lo lo' [] hi h a = omega arith
Ascending-lower lo lo' (r ∷ rs) hi h a = (omega arith, a.1)

pub Ascending-append :
    (lo : ℕ) (rs : List Row) (hi : ℕ) (r : Row)
    → r.id ≡ hi
    → Ascending lo rs hi
    → Ascending lo (rs ++ r ∷ []) (suc hi)
Ascending-append lo [] hi r e a = (omega arith, omega arith)
Ascending-append lo (x ∷ rs) hi r e a = (a.0, Ascending-append (suc x.id) rs hi r e a.1)

module _ (p : Row → Bool) where
  pub Ascending-filter :
      (lo : ℕ) (rs : List Row) (hi : ℕ) → Ascending lo rs hi → Ascending lo (filter p rs) hi
  unfolding filter
  Ascending-filter lo [] hi a = a
  Ascending-filter lo (r ∷ rs) hi a = elim (Bool-cases (p r)) [
    | inl e ↦ rw e (a.0, Ascending-filter (suc r.id) rs hi a.1)
    | inr e ↦
        rw e (Ascending-filter lo rs hi (Ascending-lower (suc r.id) lo rs hi (omega arith) a.1))
  ]

module _ (p : Row → Bool) (f : Row → Row) (same : (r : Row) → (f r).id ≡ r.id) where
  pub Ascending-update :
      (lo : ℕ) (rs : List Row) (hi : ℕ) → Ascending lo rs hi → Ascending lo (update_where p f rs) hi
  unfolding update_where
  Ascending-update lo [] hi a = a
  Ascending-update lo (r ∷ rs) hi a = elim (Bool-cases (p r)) [
    | inl e ↦ rw (e, same r) (a.0, Ascending-update (suc r.id) rs hi a.1)
    | inr e ↦ rw e (a.0, Ascending-update (suc r.id) rs hi a.1)
  ]

  -- An update changes the row of each id that it selects, and no other.
  pub find_row-update :
      (id : ℕ) (rs : List Row)
      → find_row id (update_where p f rs)
        ≡ Option.map (λ r. if p r then f r else r) (find_row id rs)
  unfolding find_row update_where
  find_row-update id [] = refl
  find_row-update id (r ∷ rs) = ground (arith, same r, find_row-update id rs)

module _ {κ} (P : Row → Type κ) (p : Row → Bool) (f : Row → Row) where
  pub All-update :
      (rs : List Row)
      → ((r : Row) → p r ≡ true → P r → P (f r))
      → All P rs
      → All P (update_where p f rs)
  unfolding update_where
  All-update [] step h = tt
  All-update (r ∷ rs) step h = elim (Bool-cases (p r)) [
    | inl e ↦ rw e (step r e h.0, All-update rs step h.1)
    | inr e ↦ rw e (h.0, All-update rs step h.1)
  ]

-- A row found under an id has that id, and what holds of all rows.
pub find_row-id : (id : ℕ) (rs : List Row) (r : Row) → find_row id rs ≡ some r → r.id ≡ id
unfolding find_row
find_row-id id [] r h = cc
find_row-id id (x ∷ rs) r h = ground (arith, find_row-id id rs r)

pub find_row-All {κ} :
    (P : Row → Type κ) (id : ℕ) (rs : List Row) (r : Row) → find_row id rs ≡ some r → All P rs → P r
unfolding find_row
find_row-All P id [] r h a = absurd (cc)
find_row-All P id (x ∷ rs) r h a = elim (Bool-cases (x.id == id)) [
  | inl e ↦ let same : x ≡ r = ground arith in subst P same a.0
  | inr e ↦ find_row-All P id rs r (ground arith) a.1
]

-- No row has an id outside the range of the ids.
pub find_row_below :
    (id lo : ℕ) (rs : List Row) (hi : ℕ) → Ascending lo rs hi → id < lo → find_row id rs ≡ none
unfolding find_row
find_row_below id lo [] hi a h = refl
find_row_below id lo (r ∷ rs) hi a h = ground (arith, find_row_below id (suc r.id) rs hi a.1)

pub Ascending-le : (lo : ℕ) (rs : List Row) (hi : ℕ) → Ascending lo rs hi → lo ≤ hi
Ascending-le lo [] hi a = a
Ascending-le lo (r ∷ rs) hi a = omega (arith, Ascending-le (suc r.id) rs hi a.1)

pub find_row_above :
    (id lo : ℕ) (rs : List Row) (hi : ℕ) → Ascending lo rs hi → hi ≤ id → find_row id rs ≡ none
unfolding find_row
find_row_above id lo [] hi a h = refl
find_row_above id lo (r ∷ rs) hi a h =
    ground (arith, Ascending-le (suc r.id) rs hi a.1, find_row_above id (suc r.id) rs hi a.1)

-- A new row is found under its id, if that was free, and hides no other.
pub find_row-append :
    (id : ℕ) (rs : List Row) (r : Row)
    → find_row id (rs ++ r ∷ [])
      ≡ (elim (find_row id rs) [ some x ↦ some x | none ↦ if r.id == id then some r else none ])
unfolding find_row
find_row-append id [] r = refl
find_row-append id (x ∷ rs) r = ground (arith, find_row-append id rs r)

-- After a DELETE the rows that it selects are gone.
pub find_row-filter :
    (p : Row → Bool) (id lo : ℕ) (rs : List Row) (hi : ℕ)
    → Ascending lo rs hi
    → find_row id (filter p rs)
      ≡ (elim (find_row id rs) [ some r ↦ if p r then some r else none | none ↦ none ])
unfolding find_row filter
find_row-filter p id lo [] hi a = refl
find_row-filter p id lo (r ∷ rs) hi a =
    ground
      (arith, find_row-filter p id (suc r.id) rs hi a.1, find_row_below id (suc r.id) rs hi a.1)

-- A row in front of the table hides none of those behind it.
found_behind :
    (r : Row) (rs xs : List Row) (hi : ℕ)
    → Ascending (suc r.id) xs hi
    → All (λ x. find_row x.id rs ≡ some x) xs
    → All (λ x. find_row x.id (r ∷ rs) ≡ some x) xs
unfolding find_row
found_behind r rs [] hi b h = tt
found_behind r rs (x ∷ xs) hi b h = (
  ground (arith, h.0),
  found_behind r rs xs hi (Ascending-lower (suc x.id) (suc r.id) xs hi (omega arith) b.1) h.1,
)

-- Every row of the table is the one that is found under its id.
pub found_at :
    (lo : ℕ) (rs : List Row) (hi : ℕ) → Ascending lo rs hi → All (λ r. find_row r.id rs ≡ some r) rs
unfolding find_row
found_at lo [] hi a = tt
found_at lo (r ∷ rs) hi a =
    (ground arith, found_behind r rs rs hi a.1 (found_at (suc r.id) rs hi a.1))
