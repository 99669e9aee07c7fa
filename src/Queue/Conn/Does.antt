-- ===== src/Queue/Conn/Does.antt =====
-- A call that succeeds has done what a function of the database says, whatever faults it met.
use kickd.Prelude.{◌≡◌, refl, Bool, true, false, List, [], ◌∷◌, if◌then◌else◌, ap, ◌∙◌, arith}
use kickd.Queue.Row.{Db}
use kickd.Queue.Conn.{
  Error, Result, ok, err, Conn, M, continue, ◌>>=◌, pure, raise, nothing, on_fault, statement,
  roll_back, in_transaction, transaction,
}

pub record Does {A : Type 0} (m : M A) (f : Db → A × Db) : Type 0 where
  pub at : (c : Conn) (a : A) → (m c).0 ≡ ok a → (a ≡ (f c.db).0) × ((m c).1.db ≡ (f c.db).1)

on_fault-ok :
    {A : Type 0} (fs : List Bool) (r : A × Db) (db : Db) (a : A)
    → (on_fault fs r db).0 ≡ ok a
    → (a ≡ r.0) × ((on_fault fs r db).1.db ≡ r.1)
unfolding on_fault
on_fault-ok [] (b, db') db a h = (ground arith, refl)
on_fault-ok (false ∷ fs) (b, db') db a h = (ground arith, refl)
on_fault-ok (true ∷ fs) (b, db') db a h = cc

pub Does-statement : {A : Type 0} (f : Db → A × Db) → Does (statement f) f
unfolding statement
Does-statement f = record { at = λ c a h. on_fault-ok c.faults (f c.db) c.db a h }

pub Does-pure : {A : Type 0} (a : A) → Does (pure a) (λ db. (a, db))
Does-pure a = record { at = λ c b h. (ground arith, refl) }

pub Does-raise : {A : Type 0} (e : Error) (f : Db → A × Db) → Does (raise e) f
Does-raise e f = record { at = λ c b h. cc }

pub Does-if :
    {A : Type 0} (b : Bool) (m n : M A) (f g : Db → A × Db)
    → Does m f
    → Does n g
    → Does (if b then m else n) (λ db. if b then f db else g db)
Does-if true m n f g dm dn = dm
Does-if false m n f g dm dn = dn

abbrev pub chain : {A B : Type 0} → (Db → A × Db) → (A → Db → B × Db) → Db → B × Db
chain f g db = g (f db).0 (f db).1

continue-ok :
    {A B : Type 0} (r : Result A × Conn) (k : A → M B) (g : A → Db → B × Db) (x : A × Db)
    → ((a : A) → r.0 ≡ ok a → (a ≡ x.0) × (r.1.db ≡ x.1))
    → ((a : A) → Does (k a) (g a))
    → (b : B) → (continue r k).0 ≡ ok b
    → (b ≡ (g x.0 x.1).0) × ((continue r k).1.db ≡ (g x.0 x.1).1)
continue-ok (ok a, c) k g x first rest b h =
    let (p, q) = first a refl in
    let (s, t) = (rest a).at c b h in (s ∙ (λ i. (g (p i) (q i)).0), t ∙ (λ i. (g (p i) (q i)).1))
continue-ok (err e, c) k g x first rest b h = cc

pub Does-bind :
    {A B : Type 0} (m : M A) (k : A → M B) (f : Db → A × Db) (g : A → Db → B × Db)
    → Does m f
    → ((a : A) → Does (k a) (g a))
    → Does (m >>= k) (chain f g)
Does-bind m k f g dm dk = record { at = λ c b h. continue-ok (m c) k g (f c.db) (dm.at c) dk b h }

roll_back-ok :
    {A : Type 0} (db : Db) (r : Result A × Conn) (a : A)
    → (roll_back db r).0 ≡ ok a
    → (r.0 ≡ ok a) × ((roll_back db r).1 ≡ r.1)
unfolding roll_back
roll_back-ok db (ok b, c) a h = (h, refl)
roll_back-ok db (err e, c) a h = cc

-- BEGIN and COMMIT change nothing.
pub Does-transaction : {A : Type 0} (m : M A) (f : Db → A × Db) → Does m f → Does (transaction m) f
unfolding transaction in_transaction
Does-transaction m f dm = record {
  at = λ c a h.
      let (p, q) = roll_back-ok c.db (in_transaction m c) a h in
      let (s, t) = inside.at c a p in (s, ap (λ x. x.db) q ∙ t);
}
  where
    inside : Does (in_transaction m) f
    inside = Does-bind (statement nothing) _ nothing _ (Does-statement nothing) λ _.
        Does-bind m _ f _ dm
          λ a. Does-bind (statement nothing) _ nothing _ (Does-statement nothing) (λ _. Does-pure a)
