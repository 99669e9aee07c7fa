-- ===== src/Queue/Conn.antt =====
-- Statements and transactions over the database (database/sql, as store.go uses it).
-- A database call can fail; `faults` says which of the calls to come do. A statement that fails
-- changes nothing.
pub mod Keeps
pub mod Does
pub mod Steady
use kickd.Prelude.{Bool, true, false, if◌then◌else◌, List, [], ◌∷◌}
use kickd.Queue.Row.{Row, Db}

pub data Error : Type 0 where
  database not_found : Error

pub data Result {ℓ} (A : Type ℓ) : Type ℓ where
  ok : A → Result A
  err : Error → Result A

pub record Conn : Type 0 where
  pub db : Db
  pub faults : List Bool

-- A call on the connection. What a statement wrote stays written when a later one fails, unless a
-- transaction rolls it back.
abbrev pub M : Type 0 → Type 0
M A = Conn → Result A × Conn

abbrev pub continue : {A B : Type 0} → Result A × Conn → (A → M B) → Result B × Conn
continue (ok a, c) f = f a c
continue (err e, c) f = (err e, c)

infixl 5 ◌>>=◌ ◌>>◌
abbrev pub ◌>>=◌ : {A B : Type 0} → M A → (A → M B) → M B
◌>>=◌ m f c = continue (m c) f

abbrev pub ◌>>◌ : {A B : Type 0} → M A → M B → M B
m >> k = m >>= λ _. k

abbrev pub pure : {A : Type 0} → A → M A
pure a c = (ok a, c)

abbrev pub raise : {A : Type 0} → Error → M A
raise e c = (err e, c)

on_fault : {A : Type 0} → List Bool → A × Db → Db → Result A × Conn
on_fault [] (a, db') db = (ok a, record { db = db'; faults = [] })
on_fault (false ∷ fs) (a, db') db = (ok a, record { db = db'; faults = fs })
on_fault (true ∷ fs) (a, db') db = (err database, record { db = db; faults = fs })

-- One statement, which succeeds or fails as a whole.
unfoldable pub statement : {A : Type 0} → (Db → A × Db) → M A
unfolding on_fault
statement f c = on_fault c.faults (f c.db) c.db

roll_back : {A : Type 0} → Db → Result A × Conn → Result A × Conn
roll_back db (ok a, c) = (ok a, c)
roll_back db (err e, c) = (err e, record c { db = db })

abbrev nothing : Db → Unit {0} × Db
nothing db = (tt, db)

-- BeginTx, the body and Commit.
in_transaction : {A : Type 0} → M A → M A
in_transaction body = do statement nothing; a ← body; statement nothing; pure a

-- On the first error the deferred Rollback restores the database.
unfoldable pub transaction : {A : Type 0} → M A → M A
unfolding roll_back in_transaction statement
transaction body c = roll_back c.db (in_transaction body c)

-- SQL over the table runs.
unfoldable pub update_where : (Row → Bool) → (Row → Row) → List Row → List Row
update_where p f [] = []
update_where p f (r ∷ rs) = (if p r then f r else r) ∷ update_where p f rs
