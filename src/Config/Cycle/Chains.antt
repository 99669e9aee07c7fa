-- ===== src/Config/Cycle/Chains.antt =====
-- Chains of after triggers: what a cycle is, and what it means that there is none.
use kickd.Prelude.{
  ℕ, suc, ◌≤◌, ◌<◌, ◌≡◌, refl, ap, ◌∙◌, Bool, true, false, ◌||◌, ◌⊎◌, inl, inr, String, Option,
  none, some, List, [], ◌∷◌, ◌++◌, arith, contains, if◌then◌else◌, string_eq, ◌==◌, Bool-cases,
}
use kickd.Prelude.Map.{Map, lookup, insert, lookup-insert}
use kickd.Config.Cycle.{Mark, next, from, drop_last}

pub drop_last-append : (p : List String) (n : String) → drop_last (p ++ (n ∷ [])) ≡ p
unfolding drop_last
drop_last-append [] n = refl
drop_last-append (a ∷ []) n = refl
drop_last-append (a ∷ b ∷ rest) n = ap (λ r. a ∷ r) (drop_last-append (b ∷ rest) n)

pub contains-append :
    (p q : List String) (k : String) → contains (p ++ q) k ≡ (contains p k || contains q k)
contains-append [] q k = refl
contains-append (a ∷ rest) q k = elim (Bool-cases (a == k)) [
  | inl e ↦ rw e refl
  | inr e ↦ rw e (contains-append rest q k)
]

pub either : (a b : Bool) → (a || b) ≡ true → (a ≡ true) ⊎ (b ≡ true)
either true b h = inl refl
either false b h = inr h

pub lookup-inserted :
    {V : Type 0} (n k : String) (v x : V) (m : Map String V)
    → lookup k (insert n v m) ≡ some x
    → ((n ≡ k) × (v ≡ x)) ⊎ (((n == k) ≡ false) × (lookup k m ≡ some x))
lookup-inserted n k v x m h = elim (Bool-cases (n == k)) [
  | inl e ↦ inl ((string_eq.decides n k).0 e, ground (arith, e, lookup-insert n k v m, h))
  | inr e ↦ inr (e, ground (arith, e, lookup-insert n k v m, h))
]

pub from-shape :
    (n : String) (p : List String)
    → contains p n ≡ true
    → (inner : List String) × (from n p ≡ n ∷ inner)
unfolding from
from-shape n [] h = absurd cc
from-shape n (a ∷ rest) h = elim (Bool-cases (a == n)) [
  | inl e ↦ rw e (rest, ap (λ x. x ∷ rest) ((string_eq.decides a n).0 e))
  | inr e ↦ rw e (from-shape n rest (rw e at h))
]

module _ (follows : Map String (List String)) where
  -- b is followed by a: `a follows b`.
  abbrev pub IsNext : String → String → Type 0
  IsNext a b = contains (next follows a) b ≡ true

  abbrev pub Links : List String → Type 0
  Links [] = Unit {0}
  Links (a ∷ []) = Unit {0}
  Links (a ∷ b ∷ rest) = IsNext a b × Links (b ∷ rest)

  -- Events each of which follows the next one, and which come back to the first.
  pub record IsCycle (c : List String) : Type 0 where
    pub first : String
    pub inner : List String
    pub shape : c ≡ (first ∷ inner) ++ (first ∷ [])
    pub links : Links c

  -- Every chain of events, each of which follows the next one, ends.
  pub data IsGrounded : String → Type 0 where
    grounded : (n : String) → ((m : String) → IsNext n m → IsGrounded m) → IsGrounded n

  pub Links-append :
      (p : List String) (n m : String)
      → Links (p ++ (n ∷ []))
      → IsNext n m
      → Links ((p ++ (n ∷ [])) ++ (m ∷ []))
  Links-append [] n m l e = (e, tt)
  Links-append (a ∷ []) n m l e = (l.0, (e, tt))
  Links-append (a ∷ b ∷ rest) n m l e = (l.0, Links-append (b ∷ rest) n m l.1 e)

  Links-tail : (a : String) (p : List String) → Links (a ∷ p) → Links p
  Links-tail a [] l = tt
  Links-tail a (b ∷ rest) l = l.1

  pub Links-from :
      (n : String) (p : List String) (x : String)
      → Links (p ++ (x ∷ []))
      → Links (from n p ++ (x ∷ []))
  unfolding from
  Links-from n [] x l = tt
  Links-from n (a ∷ rest) x l = elim (Bool-cases (a == n)) [
    | inl e ↦ rw e l
    | inr e ↦ rw e (Links-from n rest x (Links-tail a (rest ++ (x ∷ [])) l))
  ]

abbrev pub is_marked : Option Mark → Bool
is_marked none = false
is_marked (some m) = true

-- The names of the list that have no mark.
unfoldable pub unmarked : List String → Map String Mark → ℕ
unmarked [] marks = 0
unmarked (n ∷ rest) marks =
    let r = unmarked rest marks in if is_marked (lookup n marks) then r else suc r

pub unmarked-le :
    (nodes : List String) (m m' : Map String Mark)
    → ((k : String) → is_marked (lookup k m) ≡ true → is_marked (lookup k m') ≡ true)
    → unmarked nodes m' ≤ unmarked nodes m
unfolding unmarked
unmarked-le [] m m' h = omega arith
unmarked-le (n ∷ rest) m m' h = ground (arith, h n, unmarked-le rest m m' h)

pub marked-insert :
    (n : String) (v : Mark) (m : Map String Mark) (k : String)
    → is_marked (lookup k m) ≡ true
    → is_marked (lookup k (insert n v m)) ≡ true
marked-insert n v m k h =
    rw (lookup-insert n k v m) (elim (Bool-cases (n == k)) [ inl e ↦ rw e refl | inr e ↦ rw e h ])

pub unmarked-insert :
    (nodes : List String) (n : String) (v : Mark) (m : Map String Mark)
    → contains nodes n ≡ true
    → lookup n m ≡ none
    → unmarked nodes (insert n v m) < unmarked nodes m
unfolding unmarked
unmarked-insert [] n v m h e = absurd cc
unmarked-insert (x ∷ rest) n v m h e = elim (Bool-cases (x == n)) [
  | inl same ↦
      let same_name = (string_eq.decides x n).0 same in
      let before : lookup x m ≡ none = rw same_name e in
      let after : lookup x (insert n v m) ≡ some v =
        lookup-insert n x v m ∙ rw (same_name, (string_eq.decides n n).1 refl) refl in
      let rest_le = unmarked-le rest m (insert n v m) (marked-insert n v m) in
      rw (before, after) (omega (arith, rest_le))
  | inr other ↦
      let tail = unmarked-insert rest n v m (rw other at h) e in
      ground (arith, string_eq.decides n x, string_eq.decides x n, lookup-insert n x v m, tail)
]
