-- ===== src/Queue/Conn/Keeps.antt =====
-- What a call on the connection keeps, one rule for each way to build a call, and the atomicity of
-- statements and transactions.
use kickd.Prelude.{◌≡◌, refl, Bool, true, false, if◌then◌else◌, List, [], ◌∷◌}
use kickd.Queue.Row.{Db}
use kickd.Queue.Conn.{
  Error, Result, ok, err, Conn, M, continue, ◌>>=◌, pure, raise, nothing, on_fault, statement,
  roll_back, in_transaction, transaction,
}

-- `m` keeps `P` of the database, whether it succeeds or fails.
pub record Keeps {A : Type 0} (P : Db → Type 0) (m : M A) : Type 0 where
  pub at : (c : Conn) → P c.db → P (m c).1.db

on_fault-Keeps :
    {A : Type 0} (P : Db → Type 0) (fs : List Bool) (r : A × Db) (db : Db)
    → P db
    → P r.1
    → P (on_fault fs r db).1.db
unfolding on_fault
on_fault-Keeps P [] (a, db') db h k = k
on_fault-Keeps P (false ∷ fs) (a, db') db h k = k
on_fault-Keeps P (true ∷ fs) (a, db') db h k = h

on_fault_atomic :
    {A : Type 0} (fs : List Bool) (r : A × Db) (db : Db) {e : Error}
    → (on_fault fs r db).0 ≡ err e
    → (on_fault fs r db).1.db ≡ db
unfolding on_fault
on_fault_atomic [] (a, db') db h = cc
on_fault_atomic (false ∷ fs) (a, db') db h = cc
on_fault_atomic (true ∷ fs) (a, db') db h = refl

roll_back-Keeps :
    {A : Type 0} (P : Db → Type 0) (db : Db) (r : Result A × Conn)
    → P db
    → P r.1.db
    → P (roll_back db r).1.db
unfolding roll_back
roll_back-Keeps P db (ok a, c) h k = k
roll_back-Keeps P db (err e, c) h k = h

module _ {A : Type 0} {P : Db → Type 0} where
  pub Keeps-pure : (a : A) → Keeps P (pure a)
  Keeps-pure a = record { at = λ c h. h }

  pub Keeps-raise : (e : Error) → Keeps P (raise {A = A} e)
  Keeps-raise e = record { at = λ c h. h }

  pub Keeps-if : (b : Bool) (m n : M A) → Keeps P m → Keeps P n → Keeps P (if b then m else n)
  Keeps-if true m n km kn = km
  Keeps-if false m n km kn = kn

  pub Keeps-statement : (f : Db → A × Db) → ((db : Db) → P db → P (f db).1) → Keeps P (statement f)
  unfolding statement
  Keeps-statement f kf = record {
    at = λ c h. on_fault-Keeps P c.faults (f c.db) c.db h (kf c.db h);
  }

module _ {A B : Type 0} {P : Db → Type 0} where
  continue-Keeps :
      (r : Result A × Conn) (f : A → M B)
      → P r.1.db
      → ((a : A) → Keeps P (f a))
      → P (continue r f).1.db
  continue-Keeps (ok a, c) f h kf = (kf a).at c h
  continue-Keeps (err e, c) f h kf = h

  pub Keeps-bind :
      (m : M A) (f : A → M B) → Keeps P m → ((a : A) → Keeps P (f a)) → Keeps P (m >>= f)
  Keeps-bind m f km kf = record { at = λ c h. continue-Keeps (m c) f (km.at c h) kf }

module _ {A : Type 0} {P : Db → Type 0} where
  pub Keeps-transaction : (m : M A) → Keeps P m → Keeps P (transaction m)
  unfolding transaction in_transaction
  Keeps-transaction m km = record { at = λ c h. roll_back-Keeps P c.db _ h (run.at c h) }
    where
      run : Keeps P (in_transaction m)
      run = Keeps-bind (statement nothing) _ (Keeps-statement nothing (λ db h. h)) (λ _.
          Keeps-bind m _ km (λ a.
            Keeps-bind (statement nothing) _ (Keeps-statement nothing (λ db h. h))
              (λ _. Keeps-pure a)))

pub ruleset keeps_rules = (Keeps-pure, Keeps-raise, Keeps-if, Keeps-bind, Keeps-transaction)

module _ {A : Type 0} where
  -- A statement that fails changes nothing.
  pub statement_atomic :
      (f : Db → A × Db) (c : Conn) {e : Error}
      → (statement f c).0 ≡ err e
      → (statement f c).1.db ≡ c.db
  unfolding statement
  statement_atomic f c h = on_fault_atomic c.faults (f c.db) c.db h

  -- A transaction that fails changes nothing, whatever its statements wrote before it failed.
  pub transaction_atomic :
      (m : M A) (c : Conn) {e : Error} → (transaction m c).0 ≡ err e → (transaction m c).1.db ≡ c.db
  unfolding transaction
  transaction_atomic m c h = go (in_transaction m c) h
    where
      go :
          (r : Result A × Conn) {e : Error}
          → (roll_back c.db r).0 ≡ err e
          → (roll_back c.db r).1.db ≡ c.db
      go (ok a, c') h = cc
      go (err e, c') h = refl

-- A statement that only reads hands what it read to the rest, which may rely on it.
module _ {A B : Type 0} {P : Db → Type 0} (Q : Db → Db → Type 0) where
  pub Keeps-read :
      (read : Db → A) (f : A → M B)
      → ((db : Db) → P db → Q db db)
      → ((db d : Db) → Q db d → P d)
      → ((db : Db) → P db → Keeps (Q db) (f (read db)))
      → Keeps P (statement (λ db. (read db, db)) >>= f)
  unfolding statement on_fault
  Keeps-read read f into out rest = record { at = λ c h. go c.faults c.db h }
    where
      go : (fs : List Bool) (db : Db) → P db → P (continue (on_fault fs (read db, db) db) f).1.db
      go [] db h = out db _ ((rest db h).at (record { db = db; faults = [] }) (into db h))
      go (false ∷ fs) db h = out db _ ((rest db h).at (record { db = db; faults = fs }) (into db h))
      go (true ∷ fs) db h = h
