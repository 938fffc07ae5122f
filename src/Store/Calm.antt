-- ===== src/Store/Calm.antt =====
-- What an operation does when no statement fails: from tables that meet `P` it succeeds, with a value and
-- tables that meet `Q`.
use vn_bot.Base.{Bool, true, false, ◌≡◌, refl, Option, none, some, [], if◌then◌else◌}
use vn_bot.Store.Types.{Tables}
use vn_bot.Store.Monad.{
  World, M, Result, ok, err, Error, Alert, Invalidation, pure, go_on, recover, roll_back, ◌>>=◌,
  catch, stmt, query, update, transaction, require, attempt, notify, drop_cached,
}

abbrev pub Success : {A : Type 0} → (A → Tables → Type 0) → Result A × World → Type 0
Success Q (ok a, w) = (w.faults ≡ []) × Q a w.tables
Success Q (err e, w) = ⊥

pub record Works {A : Type 0} (P : Tables → Type 0) (m : M A) (Q : A → Tables → Type 0)
    : Type 0 where
  pub at : (w : World) → w.faults ≡ [] → P w.tables → Success Q (m w)

pub pure-Works :
    {A : Type 0} {P : Tables → Type 0} {Q : A → Tables → Type 0} (a : A)
    → ((t : Tables) → P t → Q a t)
    → Works P (pure a) Q
pure-Works a h = record { at = λ w f p. (f, h w.tables p) }

go_on-Success :
    {A B : Type 0} {P : A → Tables → Type 0} (S : B → Tables → Type 0) (r : Result A × World)
    (f : A → M B)
    → Success P r
    → ((a : A) → Works (P a) (f a) S)
    → Success S (go_on r f)
go_on-Success S (ok a, w) f q h = (h a).at w q.0 q.1
go_on-Success S (err e, w) f q h = absurd q

pub bind-Works :
    {A B : Type 0} {P : Tables → Type 0} {Q : A → Tables → Type 0} {S : B → Tables → Type 0}
    (m : M A) (f : A → M B)
    → Works P m Q
    → ((a : A) → Works (Q a) (f a) S)
    → Works P (m >>= f) S
bind-Works {Q = Q} {S = S} m f h k = record {
  at = λ w e p. go_on-Success {P = Q} S (m w) f (h.at w e p) k;
}

stmt-Success :
    (P : Tables → Type 0) (w : World) → w.faults ≡ [] → P w.tables → Success (λ _. P) (stmt w)
unfolding stmt
stmt-Success P w e p = rw e (refl, p)

stmt-Works : (P : Tables → Type 0) → Works P stmt (λ _. P)
stmt-Works P = record { at = stmt-Success P }

pub query-Works :
    {A : Type 0} {P : Tables → Type 0} {Q : A → Tables → Type 0} (f : Tables → A)
    → ((t : Tables) → P t → Q (f t) t)
    → Works P (query f) Q
unfolding query
query-Works {P = P} f h =
    bind-Works stmt _ (stmt-Works P) (λ _. record { at = λ w e p. (e, h w.tables p) })

pub update-Works :
    {A : Type 0} {P : Tables → Type 0} {Q : A → Tables → Type 0} (f : Tables → A × Tables)
    → ((t : Tables) → P t → Q (f t).0 (f t).1)
    → Works P (update f) Q
unfolding update
update-Works {P = P} f h =
    bind-Works stmt _ (stmt-Works P) (λ _. record { at = λ w e p. (e, h w.tables p) })

committed :
    {A : Type 0} (Q : A → Tables → Type 0) (t : Tables) (r : Result A × World)
    → Success Q r
    → Success Q (roll_back t r)
committed Q t (ok a, w) q = q
committed Q t (err e, w) q = absurd q

pub transaction-Works :
    {A : Type 0} {P : Tables → Type 0} {Q : A → Tables → Type 0} (m : M A)
    → Works P m Q
    → Works P (transaction m) Q
unfolding transaction
transaction-Works {Q = Q} m h = record {
  at = λ w e p. committed Q w.tables _ (
      (bind-Works m _ h
          (λ a. bind-Works stmt _ (stmt-Works (Q a)) (λ _. pure-Works a (λ t q. q)))).at
        w e p);
}

recovered :
    {A : Type 0} (Q : A → Tables → Type 0) (r : Result A × World) (f : Error → M A)
    → Success Q r
    → Success Q (recover r f)
recovered Q (ok a, w) f q = q
recovered Q (err e, w) f q = absurd q

pub catch-Works :
    {A : Type 0} {P : Tables → Type 0} {Q : A → Tables → Type 0} (m : M A) (f : Error → M A)
    → Works P m Q
    → Works P (catch m f) Q
catch-Works {Q = Q} m f h = record { at = λ w e p. recovered Q (m w) f (h.at w e p) }

-- The error of an attempt never comes.
abbrev pub IfOk : {A : Type 0} → (A → Tables → Type 0) → Result A → Tables → Type 0
IfOk Q (ok a) t = Q a t
IfOk Q (err e) t = ⊥

attempted :
    {A : Type 0} (Q : A → Tables → Type 0) (r : Result A × World)
    → Success Q r
    → (r.1.faults ≡ []) × IfOk Q r.0 r.1.tables
attempted Q (ok a, w) q = q
attempted Q (err e, w) q = absurd q

pub attempt-Works :
    {A : Type 0} {P : Tables → Type 0} {Q : A → Tables → Type 0} (m : M A)
    → Works P m Q
    → Works P (attempt m) (IfOk Q)
attempt-Works {Q = Q} m h = record { at = λ w e p. attempted Q (m w) (h.at w e p) }

pub notify-Works : {P : Tables → Type 0} (a : Alert) → Works P (notify a) (λ _. P)
notify-Works a = record { at = λ w e p. (e, p) }

pub drop_cached-Works : {P : Tables → Type 0} (i : Invalidation) → Works P (drop_cached i) (λ _. P)
drop_cached-Works i = record { at = λ w e p. (e, p) }

pub if-Works :
    {A : Type 0} {P : Tables → Type 0} {Q : A → Tables → Type 0} (b : Bool) {m n : M A}
    → (b ≡ true → Works P m Q)
    → (b ≡ false → Works P n Q)
    → Works P (if b then m else n) Q
if-Works true h k = h refl
if-Works false h k = k refl

-- What rests on an impossible state.
pub never-Works :
    {A : Type 0} {P : Tables → Type 0} {Q : A → Tables → Type 0} (m : M A)
    → ((t : Tables) → P t → ⊥)
    → Works P m Q
never-Works m h = record { at = λ w e p. absurd (h w.tables p) }

-- A lookup of a row that is there.
pub lookup-Works :
    {A : Type 0} {P : Tables → Type 0} (f : Tables → Option A) (e : Error) (a : A)
    → ((t : Tables) → P t → f t ≡ some a)
    → Works P (query f >>= λ found. require found e) (λ x t. (x ≡ a) × P t)
lookup-Works {A} {P} f e a h =
    bind-Works {Q = λ found t. (found ≡ some a) × P t} _ _ (query-Works f (λ t p. (h t p, p))) go
  where
    go :
        (found : Option A)
        → Works (λ t. (found ≡ some a) × P t) (require found e) (λ x t. (x ≡ a) × P t)
    go none = never-Works _ (λ t p. cc p.0)
    go (some x) = pure-Works x (λ t p. (cc p.0, p.1))
