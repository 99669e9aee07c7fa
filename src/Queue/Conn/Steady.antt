-- ===== src/Queue/Conn/Steady.antt =====
-- Calls that cannot fail but for the faults of the database.
use kickd.Prelude.{◌≡◌, refl, Bool, true, false, List, [], ◌∷◌, if◌then◌else◌, arith}
use kickd.Queue.Row.{Db}
use kickd.Queue.Conn.{
  Result, ok, err, Conn, M, continue, ◌>>=◌, pure, nothing, on_fault, statement, roll_back,
  in_transaction, transaction,
}

-- What a call gives where no statement to come fails: a result, and no fault to come either.
pub record Succeeds {A : Type 0} (r : Result A × Conn) : Type 0 where
  pub value : A
  pub is_ok : r.0 ≡ ok value
  pub no_faults : r.1.faults ≡ []

pub record Steady {A : Type 0} (m : M A) : Type 0 where
  pub at : (c : Conn) → c.faults ≡ [] → Succeeds (m c)

pub Steady-statement : {A : Type 0} (f : Db → A × Db) → Steady (statement f)
unfolding statement
Steady-statement {A = A} f = record { at = λ c h. go c.faults (f c.db) c.db h }
  where
    go : (fs : List Bool) (r : A × Db) (db : Db) → fs ≡ [] → Succeeds (on_fault fs r db)
    go [] (a, db') db h = unfold on_fault in record { value = a; is_ok = refl; no_faults = refl }
    go (f ∷ fs) r db h = absurd (ground arith)

pub Steady-pure : {A : Type 0} (a : A) → Steady (pure a)
Steady-pure a = record { at = λ c h. record { value = a; is_ok = refl; no_faults = h } }

pub Steady-if :
    {A : Type 0} (b : Bool) (m n : M A) → Steady m → Steady n → Steady (if b then m else n)
Steady-if true m n sm sn = sm
Steady-if false m n sm sn = sn

pub Steady-bind :
    {A B : Type 0} (m : M A) (k : A → M B) → Steady m → ((a : A) → Steady (k a)) → Steady (m >>= k)
Steady-bind {A = A} {B = B} m k sm sk = record { at = λ c h. go (m c) (sm.at c h) }
  where
    go : (r : Result A × Conn) → Succeeds r → Succeeds (continue r k)
    go (ok a, c) s = (sk a).at c s.no_faults
    go (err e, c) s = let is_ok = s.is_ok in absurd (ground arith)

pub Steady-transaction : {A : Type 0} (m : M A) → Steady m → Steady (transaction m)
unfolding transaction in_transaction
Steady-transaction {A = A} m sm = record { at = λ c h. go c.db _ (inside.at c h) }
  where
    inside : Steady (in_transaction m)
    inside = Steady-bind (statement nothing) _ (Steady-statement nothing) λ _.
        Steady-bind m _ sm
          λ a. Steady-bind (statement nothing) _ (Steady-statement nothing) (λ _. Steady-pure a)

    go : (db : Db) (r : Result A × Conn) → Succeeds r → Succeeds (roll_back db r)
    go db (ok a, c) s = unfold roll_back in s
    go db (err e, c) s = let is_ok = s.is_ok in absurd (ground arith)
