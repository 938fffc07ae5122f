-- ===== src/Store/Frame.antt =====
-- A relation between the tables before and after, for every operation and every list of faults.
use vn_bot.Base.{◌∙◌, Bool, true, false, ◌≡◌, refl, Option, none, some, arith, if◌then◌else◌}
use vn_bot.Store.Types.{Tables}
use vn_bot.Store.Monad.{
  World, M, Result, ok, err, Error, Alert, pure, raise, go_on, recover, roll_back, ◌>>=◌, catch,
  stmt, query, update, transaction, notify, require,
}

pub record Keeps (R : Tables → Tables → Type 0) {A : Type 0} (m : M A) : Type 0 where
  pub at : (w : World) → R w.tables (m w).1.tables

pub record Preorder (R : Tables → Tables → Type 0) : Type 0 where
  pub same : (t : Tables) → R t t
  pub chain : {t u v : Tables} → R t u → R u v → R t v

module _ {R : Tables → Tables → Type 0} (p : Preorder R) where
  pub pure-Keeps : {A : Type 0} (a : A) → Keeps R (pure a)
  pure-Keeps a = record { at = λ w. p.same w.tables }

  pub raise-Keeps : {A : Type 0} (e : Error) → Keeps R (raise {A = A} e)
  raise-Keeps e = record { at = λ w. p.same w.tables }

  pub notify-Keeps : (a : Alert) → Keeps R (notify a)
  notify-Keeps a = record { at = λ w. p.same w.tables }

  pub require-Keeps : {A : Type 0} (o : Option A) (e : Error) → Keeps R (require o e)
  require-Keeps none e = raise-Keeps e
  require-Keeps (some a) e = pure-Keeps a

  after :
      {A B : Type 0} {t : Tables} (r : Result A × World) (f : A → M B)
      → R t r.1.tables
      → ((a : A) → Keeps R (f a))
      → R t (go_on r f).1.tables
  after (ok a, w) f h k = p.chain h ((k a).at w)
  after (err e, w) f h k = h

  pub bind-Keeps :
      {A B : Type 0} (m : M A) (f : A → M B)
      → Keeps R m
      → ((a : A) → Keeps R (f a))
      → Keeps R (m >>= f)
  bind-Keeps m f h k = record { at = λ w. after (m w) f (h.at w) k }

  pub if-Keeps :
      {A : Type 0} (b : Bool) {m n : M A} → Keeps R m → Keeps R n → Keeps R (if b then m else n)
  if-Keeps true h k = h
  if-Keeps false h k = k

  recovered :
      {A : Type 0} {t : Tables} (r : Result A × World) (f : Error → M A)
      → R t r.1.tables
      → ((e : Error) → Keeps R (f e))
      → R t (recover r f).1.tables
  recovered (ok a, w) f h k = h
  recovered (err e, w) f h k = p.chain h ((k e).at w)

  pub catch-Keeps :
      {A : Type 0} (m : M A) (f : Error → M A)
      → Keeps R m
      → ((e : Error) → Keeps R (f e))
      → Keeps R (catch m f)
  catch-Keeps m f h k = record { at = λ w. recovered (m w) f (h.at w) k }

  stmt_same : (w : World) → (stmt w).1.tables ≡ w.tables
  unfolding stmt
  stmt_same w = ground arith

  pub stmt-Keeps : Keeps R stmt
  stmt-Keeps = record { at = λ w. rw (stmt_same w) (p.same w.tables) }

  pub query-Keeps : {A : Type 0} (f : Tables → A) → Keeps R (query f)
  unfolding query
  query-Keeps f = bind-Keeps stmt _ stmt-Keeps (λ _. record { at = λ w. p.same w.tables })

  -- An update keeps what its change of the tables keeps.
  pub update-Keeps :
      {A : Type 0} (f : Tables → A × Tables) → ((t : Tables) → R t (f t).1) → Keeps R (update f)
  unfolding update
  update-Keeps f h = bind-Keeps stmt _ stmt-Keeps (λ _. record { at = λ w. h w.tables })

  committed :
      {A : Type 0} {t : Tables} (r : Result A × World)
      → R t r.1.tables
      → R t (roll_back t r).1.tables
  committed (ok a, w) h = h
  committed {t = t} (err e, w) h = p.same t

  pub transaction-Keeps : {A : Type 0} (m : M A) → Keeps R m → Keeps R (transaction m)
  unfolding transaction
  transaction-Keeps m h = record {
    at = λ w.
        committed ((m >>= λ a. stmt >>= λ _. pure a) w)
          ((bind-Keeps m _ h (λ a. bind-Keeps stmt _ stmt-Keeps (λ _. pure-Keeps a))).at w);
  }

-- A transaction that reports an error has changed no row, whatever statement failed.
pub transaction_atomic :
    {A : Type 0} (m : M A) (w : World) {e : Error}
    → (transaction m w).0 ≡ err e
    → (transaction m w).1.tables ≡ w.tables
unfolding transaction
transaction_atomic m w h = ground arith

-- The relation of an operation that only reads.
abbrev pub Unchanged : Tables → Tables → Type 0
Unchanged t u = t ≡ u

pub Unchanged-preorder : Preorder Unchanged
Unchanged-preorder = record { same = λ t. refl; chain = λ {t} {u} {v} h k. h ∙ k }
