-- ===== src/Payments/Lock.antt =====
-- internal/service/order.go: `lockPayment` and `dropPaymentWaiter`, as the steps of any number of
-- callbacks over the shared map of locks. A step is a critical section of `paymentLocksMu`, or one send
-- or receive on the channel of a lock, or the end of the wait. The channel holds one token at most.
-- That a second call of the release does nothing is left out: a callback releases once.
use vn_bot.Base.{
  ℕ, zero, suc, ◌+◌, ◌-◌, ◌≡◌, String, Bool, true, false, none, some, List, [], ◌∷◌, ◌++◌, ◌==◌,
  if◌then◌else◌,
}
use vn_bot.Base.Maps.{Entry, text_key, lookup, store, delete}

-- Where a callback stands, with the payment and the address of the lock that it has in hand.
pub data Place : Type 0 where
  outside : Place
  waiting : String → ℕ → Place  -- at the `select`
  holding : String → ℕ → Place
  dropping : String → ℕ → Place  -- about to call `dropPaymentWaiter`

pub record Locks : Type 0 where
  pub entries : List (Entry String ℕ)  -- `paymentLocks`
  pub token : ℕ → Bool  -- the channel is full
  pub waiters : ℕ → ℕ
  pub next : ℕ  -- an address without a lock
  pub callbacks : List Place

abbrev pub put {ℓ} : {A : Type ℓ} → ℕ → A → (ℕ → A) → ℕ → A
put a v f x = if x == a then v else f x

-- The locks before any callback.
abbrev pub no_locks : List Place → Locks
no_locks callbacks = record {
  entries = [];
  token = λ _. false;
  waiters = λ _. 0;
  next = 0;
  callbacks = callbacks;
}

abbrev pub idle : ℕ → List Place
idle zero = []
idle (suc n) = outside ∷ idle n

-- The first section of `lockPayment`, with and without an entry of the payment, ...
abbrev pub created : String → List Place → Locks → Locks
created id callbacks s = record {
  entries = store id s.next s.entries;
  token = put s.next true s.token;
  waiters = put s.next 1 s.waiters;
  next = suc s.next;
  callbacks = callbacks;
}

abbrev pub joined : ℕ → List Place → Locks → Locks
joined a callbacks s = record s {
  waiters = put a (s.waiters a + 1) s.waiters;
  callbacks = callbacks;
}

-- ... the receive and the send, ...
abbrev pub with_token : Bool → ℕ → List Place → Locks → Locks
with_token full a callbacks s = record s { token = put a full s.token; callbacks = callbacks }

-- ... and `dropPaymentWaiter`.
abbrev pub dropped : String → ℕ → List Place → Locks → Locks
dropped id a callbacks s = record s {
  waiters = put a (s.waiters a - 1) s.waiters;
  entries = if s.waiters a - 1 == 0 then delete id s.entries else s.entries;
  callbacks = callbacks;
}

-- One callback moves, those before and after it in the list stay.
pub data Step (s : Locks) : Locks → Type 0 where
  create :
      (id : String) (before after : List Place)
      → s.callbacks ≡ before ++ outside ∷ after
      → lookup id s.entries ≡ none
      → Step s (created id (before ++ waiting id s.next ∷ after) s)
  join :
      (id : String) (a : ℕ) (before after : List Place)
      → s.callbacks ≡ before ++ outside ∷ after
      → lookup id s.entries ≡ some a
      → Step s (joined a (before ++ waiting id a ∷ after) s)
  acquire :
      (id : String) (a : ℕ) (before after : List Place)
      → s.callbacks ≡ before ++ waiting id a ∷ after
      → s.token a ≡ true
      → Step s (with_token false a (before ++ holding id a ∷ after) s)
  give_up :
      (id : String) (a : ℕ) (before after : List Place)
      → s.callbacks ≡ before ++ waiting id a ∷ after
      → Step s (record s { callbacks = before ++ dropping id a ∷ after })
  release :
      (id : String) (a : ℕ) (before after : List Place)
      → s.callbacks ≡ before ++ holding id a ∷ after
      → s.token a ≡ false
      → Step s (with_token true a (before ++ dropping id a ∷ after) s)
  drop :
      (id : String) (a : ℕ) (before after : List Place)
      → s.callbacks ≡ before ++ dropping id a ∷ after
      → Step s (dropped id a (before ++ outside ∷ after) s)

-- The states that callbacks reach which all start outside.
pub data Reach : Locks → Type 0 where
  start : (n : ℕ) → Reach (no_locks (idle n))
  later : {s t : Locks} → Reach s → Step s t → Reach t
