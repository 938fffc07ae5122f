-- ===== src/Store/Outcome.antt =====
-- What a successful operation ensures, for every list of faults: from tables that meet `P` it
-- returns a value and tables that meet `Q`. An error ensures nothing.
use vn_bot.Base.{
  Bool, true, false, ◌≡◌, refl, subst, Option, none, some, List, [], ◌∷◌, if◌then◌else◌,
}
use vn_bot.Store.Types.{Tables}
use vn_bot.Store.Monad.{
  World, M, Result, ok, err, Error, pure, raise, go_on, roll_back, ◌>>=◌, stmt, query, update,
  transaction, require, attempt, notify, drop_cached, Alert, Invalidation,
}
use vn_bot.Store.Frame.{Keeps}

abbrev pub Post : {A : Type 0} → (A → Tables → Type 0) → Result A × World → Type 0
Post Q (ok a, w) = Q a w.tables
Post Q (err e, w) = Unit {0}

pub record Returns {A : Type 0} (P : Tables → Type 0) (m : M A) (Q : A → Tables → Type 0)
    : Type 0 where
  pub at : (w : World) → P w.tables → Post Q (m w)

module _ {A : Type 0} {P : Tables → Type 0} {Q : A → Tables → Type 0} where
  pub pure-Returns : (a : A) → ((t : Tables) → P t → Q a t) → Returns P (pure a) Q
  pure-Returns a h = record { at = λ w p. h w.tables p }

  pub raise-Returns : (e : Error) → Returns P (raise e) Q
  raise-Returns e = record { at = λ w p. tt }

  pub require-Returns :
      (o : Option A) (e : Error)
      → ((a : A) (t : Tables) → o ≡ some a → P t → Q a t)
      → Returns P (require o e) Q
  require-Returns none e h = raise-Returns e
  require-Returns (some a) e h = pure-Returns a (λ t p. h a t refl p)

  pub if-Returns :
      (b : Bool) {m n : M A}
      → (b ≡ true → Returns P m Q)
      → (b ≡ false → Returns P n Q)
      → Returns P (if b then m else n) Q
  if-Returns true h k = h refl
  if-Returns false h k = k refl

go_on-Post :
    {A B : Type 0} {P : A → Tables → Type 0} (S : B → Tables → Type 0) (r : Result A × World)
    (f : A → M B)
    → Post P r
    → ((a : A) → Returns (P a) (f a) S)
    → Post S (go_on r f)
go_on-Post S (ok a, w) f q h = (h a).at w q
go_on-Post S (err e, w) f q h = tt

module _ {A B : Type 0} {P : Tables → Type 0} {Q : A → Tables → Type 0}
    {S : B → Tables → Type 0} where
  pub bind-Returns :
      (m : M A) (f : A → M B)
      → Returns P m Q
      → ((a : A) → Returns (Q a) (f a) S)
      → Returns P (m >>= f) S
  bind-Returns m f h k = record { at = λ w p. go_on-Post {P = Q} S (m w) f (h.at w p) k }

stmt-Post :
    (P : Tables → Type 0) (faults : List Bool) (w : World)
    → w.faults ≡ faults
    → P w.tables
    → Post (λ _. P) (stmt w)
unfolding stmt
stmt-Post P [] w e p = rw e p
stmt-Post P (true ∷ r) w e p = rw e tt
stmt-Post P (false ∷ r) w e p = rw e p

pub stmt-Returns : (P : Tables → Type 0) → Returns P stmt (λ _. P)
stmt-Returns P = record { at = λ w p. stmt-Post P w.faults w refl p }

rolled_back :
    {A : Type 0} (Q : A → Tables → Type 0) (t : Tables) (r : Result A × World)
    → Post Q r
    → Post Q (roll_back t r)
rolled_back Q t (ok a, w) q = q
rolled_back Q t (err e, w) q = tt

module _ {A : Type 0} {P : Tables → Type 0} {Q : A → Tables → Type 0} where
  pub update-Returns :
      (f : Tables → A × Tables) → ((t : Tables) → P t → Q (f t).0 (f t).1) → Returns P (update f) Q
  unfolding update
  update-Returns f h =
      bind-Returns stmt _ (stmt-Returns P) (λ _. record { at = λ w p. h w.tables p })

  pub query-Returns : (f : Tables → A) → ((t : Tables) → P t → Q (f t) t) → Returns P (query f) Q
  unfolding query
  query-Returns f h =
      bind-Returns stmt _ (stmt-Returns P) (λ _. record { at = λ w p. h w.tables p })

  pub transaction-Returns : (m : M A) → Returns P m Q → Returns P (transaction m) Q
  unfolding transaction
  transaction-Returns m h = record {
    at = λ w p. rolled_back Q w.tables _ (
        (bind-Returns m _ h
            (λ a. bind-Returns stmt _ (stmt-Returns (Q a)) (λ _. pure-Returns a (λ t q. q)))).at
          w p);
  }

keep-Post :
    {A : Type 0} (P : Tables → Type 0) (r : Result A × World) → P r.1.tables → Post (λ _. P) r
keep-Post P (ok a, w) p = p
keep-Post P (err e, w) p = tt

-- A predicate that a kept relation carries over is carried over by the operation.
pub Keeps-Returns :
    {A : Type 0} (R : Tables → Tables → Type 0) (P : Tables → Type 0) (m : M A)
    → Keeps R m
    → ((t u : Tables) → R t u → P t → P u)
    → Returns P m (λ _. P)
Keeps-Returns R P m k h = record {
  at = λ w p. keep-Post P (m w) (h w.tables (m w).1.tables (k.at w) p);
}

weaker :
    {A : Type 0} {Q : A → Tables → Type 0} (S : A → Tables → Type 0) (r : Result A × World)
    → Post Q r
    → ((a : A) (t : Tables) → Q a t → S a t)
    → Post S r
weaker S (ok a, w) q h = h a w.tables q
weaker S (err e, w) q h = tt

pub weaken-Returns :
    {A : Type 0} {P : Tables → Type 0} {Q : A → Tables → Type 0} {S : A → Tables → Type 0} {m : M A}
    → Returns P m Q
    → ((a : A) (t : Tables) → Q a t → S a t)
    → Returns P m S
weaken-Returns {Q = Q} {S = S} {m = m} r h = record {
  at = λ w p. weaker {Q = Q} S (m w) (r.at w p) h;
}

always :
    {A : Type 0} {S : A → Tables → Type 0} (r : Result A × World)
    → ((a : A) (t : Tables) → S a t)
    → Post S r
always (ok a, w) h = h a w.tables
always (err e, w) h = tt

pub always-Returns :
    {A : Type 0} {P : Tables → Type 0} {S : A → Tables → Type 0} (m : M A)
    → ((a : A) (t : Tables) → S a t)
    → Returns P m S
always-Returns m h = record { at = λ w p. always (m w) h }

-- An attempt succeeds always; behind an error nothing is known but what `S` says of it anyway.
attempted_post :
    {A : Type 0} {Q : A → Tables → Type 0} (S : Result A → Tables → Type 0) (r : Result A × World)
    → Post Q r
    → ((a : A) (t : Tables) → Q a t → S (ok a) t)
    → ((e : Error) (t : Tables) → S (err e) t)
    → S r.0 r.1.tables
attempted_post S (ok a, w) q h k = h a w.tables q
attempted_post S (err e, w) q h k = k e w.tables

pub attempt-Returns :
    {A : Type 0} {P : Tables → Type 0} {Q : A → Tables → Type 0} (S : Result A → Tables → Type 0)
    {m : M A}
    → Returns P m Q
    → ((a : A) (t : Tables) → Q a t → S (ok a) t)
    → ((e : Error) (t : Tables) → S (err e) t)
    → Returns P (attempt m) S
attempt-Returns {Q = Q} S {m = m} r h k = record {
  at = λ w p. attempted_post {Q = Q} S (m w) (r.at w p) h k;
}

pub notify-Returns : {P : Tables → Type 0} (a : Alert) → Returns P (notify a) (λ _. P)
notify-Returns a = record { at = λ w p. p }

pub drop_cached-Returns :
    {P : Tables → Type 0} (i : Invalidation) → Returns P (drop_cached i) (λ _. P)
drop_cached-Returns i = record { at = λ w p. p }

-- What a successful operation ensures, read off its result.
pub Returns-ok :
    {A : Type 0} {P : Tables → Type 0} {Q : A → Tables → Type 0} {m : M A} {a : A} (w : World)
    → Returns P m Q
    → P w.tables
    → (m w).0 ≡ ok a
    → Q a (m w).1.tables
Returns-ok {Q = Q} {m = m} {a = a} w h p e = subst (λ r. Post Q (r, (m w).1)) e (h.at w p)
