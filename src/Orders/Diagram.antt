-- ===== src/Orders/Diagram.antt =====
-- The life of an order row: the transitions that the repository makes, and the columns that no
-- operation changes.
use vn_bot.Base.{
  ℕ, Bool, true, false, ◌||◌, ◌≡◌, refl, All, List, [], ◌∷◌, ◌++◌, ◌≤◌, arith, inl, inr, Bool-cases,
  count, if◌then◌else◌, update_where, any,
}
use vn_bot.Store.{Order, OrderStatus, Tables, is_pending, is_expired, Preorder}
use vn_bot.Orders.Intent.{is_intent}
use vn_bot.Orders.Chargeback.{same_status}

infix 40 ◌⟶◌ ◌⟶*◌
pub data ◌⟶◌ : OrderStatus → OrderStatus → Type 0 where
  pay : OrderStatus.pending ⟶ OrderStatus.paid
  settle : OrderStatus.expired ⟶ OrderStatus.paid
  expire : OrderStatus.pending ⟶ OrderStatus.expired
  cancel : OrderStatus.pending ⟶ OrderStatus.canceled
  charge_back : OrderStatus.paid ⟶ OrderStatus.canceled

pub data ◌⟶*◌ : OrderStatus → OrderStatus → Type 0 where
  here : {s : OrderStatus} → s ⟶* s
  step : {s t u : OrderStatus} → s ⟶ t → t ⟶* u → s ⟶* u

join : {s t u : OrderStatus} → s ⟶* t → t ⟶* u → s ⟶* u
join here r = r
join (step e q) r = step e (join q r)

-- A canceled order stays canceled, and a paid one is paid or canceled.
pub canceled_final :
    {s t : OrderStatus} → s ⟶* t → s ≡ OrderStatus.canceled → t ≡ OrderStatus.canceled
canceled_final here e = e
canceled_final (step pay r) e = cc
canceled_final (step settle r) e = cc
canceled_final (step expire r) e = cc
canceled_final (step cancel r) e = canceled_final r refl
canceled_final (step charge_back r) e = cc

-- What an operation may do to one row.
pub record RowStep (o o' : Order) : Type 0 where
  pub same_id : o'.id ≡ o.id
  pub same_subscription : o'.subscription_id ≡ o.subscription_id
  pub same_product : o'.product_id ≡ o.product_id
  pub same_amount : o'.amount_cents ≡ o.amount_cents
  pub same_currency : o'.currency ≡ o.currency
  pub same_provider : o'.payment_provider ≡ o.payment_provider
  pub moved : o.status ⟶* o'.status

-- Row by row; rows whose id is `next` or more may be added at the end.
abbrev pub RowsFollow : ℕ → List Order → List Order → Type 0
RowsFollow next [] ys = All (λ o. next ≤ o.id) ys
RowsFollow next (x ∷ xs) [] = ⊥
RowsFollow next (x ∷ xs) (y ∷ ys) = RowStep x y × RowsFollow next xs ys

-- At most one payment intent for each subscription and product.
abbrev pub OneIntent : List Order → Type 0
OneIntent xs = (subscription product : ℕ) → count (is_intent subscription product) xs ≤ 1

-- What every operation may do to the tables.
abbrev pub Follows : Tables → Tables → Type 0
Follows t u =
    (t.next_order ≤ u.next_order)
    × RowsFollow t.next_order t.orders u.orders
    × (OneIntent t.orders → OneIntent u.orders)

pub RowStep-same : (o : Order) → RowStep o o
RowStep-same o = record {
  same_id = refl;
  same_subscription = refl;
  same_product = refl;
  same_amount = refl;
  same_currency = refl;
  same_provider = refl;
  moved = here;
}

RowStep-trans : {a b c : Order} → RowStep a b → RowStep b c → RowStep a c
RowStep-trans h k = record {
  same_id = cc (h.same_id, k.same_id);
  same_subscription = cc (h.same_subscription, k.same_subscription);
  same_product = cc (h.same_product, k.same_product);
  same_amount = cc (h.same_amount, k.same_amount);
  same_currency = cc (h.same_currency, k.same_currency);
  same_provider = cc (h.same_provider, k.same_provider);
  moved = join h.moved k.moved;
}

pub RowsFollow-same : (next : ℕ) (xs : List Order) → RowsFollow next xs xs
RowsFollow-same next [] = tt
RowsFollow-same next (x ∷ xs) = (RowStep-same x, RowsFollow-same next xs)

All-RowsFollow :
    (n m : ℕ) (ys zs : List Order)
    → n ≤ m
    → All (λ o. n ≤ o.id) ys
    → RowsFollow m ys zs
    → All (λ o. n ≤ o.id) zs
All-RowsFollow n m [] [] le h k = tt
All-RowsFollow n m [] (z ∷ zs) le h k = (omega arith, All-RowsFollow n m [] zs le h k.1)
All-RowsFollow n m (y ∷ ys) [] le h k = absurd k
All-RowsFollow n m (y ∷ ys) (z ∷ zs) le h k =
    (rw k.0.same_id h.0, All-RowsFollow n m ys zs le h.1 k.1)

RowsFollow-trans :
    (n m : ℕ) (xs ys zs : List Order)
    → n ≤ m
    → RowsFollow n xs ys
    → RowsFollow m ys zs
    → RowsFollow n xs zs
RowsFollow-trans n m [] ys zs le h k = All-RowsFollow n m ys zs le h k
RowsFollow-trans n m (x ∷ xs) [] zs le h k = absurd h
RowsFollow-trans n m (x ∷ xs) (y ∷ ys) [] le h k = absurd k
RowsFollow-trans n m (x ∷ xs) (y ∷ ys) (z ∷ zs) le h k =
    (RowStep-trans h.0 k.0, RowsFollow-trans n m xs ys zs le h.1 k.1)

pub Follows-same : (t : Tables) → Follows t t
Follows-same t = (omega arith, RowsFollow-same t.next_order t.orders, λ h. h)

pub Follows-preorder : Preorder Follows
Follows-preorder = record {
  same = Follows-same;
  chain = λ {t} {u} {v} h k. (
    omega arith,
    RowsFollow-trans t.next_order u.next_order t.orders u.orders v.orders h.0 h.1 k.1,
    λ one. k.2 (h.2 one),
  );
}

pub RowsFollow-append :
    (next : ℕ) (xs : List Order) (o : Order) → next ≤ o.id → RowsFollow next xs (xs ++ o ∷ [])
RowsFollow-append next [] o h = (h, tt)
RowsFollow-append next (x ∷ xs) o h = (RowStep-same x, RowsFollow-append next xs o h)

if-RowStep : (b : Bool) (o o' : Order) → (b ≡ true → RowStep o o') → RowStep o (if b then o' else o)
if-RowStep true o o' h = h refl
if-RowStep false o o' h = RowStep-same o

-- An update follows the diagram if it does so on the rows that meet its condition.
RowsFollow-update_where :
    (next : ℕ) (p : Order → Bool) (f : Order → Order) (xs : List Order)
    → ((o : Order) → p o ≡ true → RowStep o (f o))
    → RowsFollow next xs (update_where p f xs)
RowsFollow-update_where next p f [] h = tt
RowsFollow-update_where next p f (x ∷ xs) h =
    (if-RowStep (p x) x (f x) (h x), RowsFollow-update_where next p f xs h)

-- Nothing comes back to `pending`.
pending_first : {s t : OrderStatus} → s ⟶* t → is_pending t ≡ true → is_pending s ≡ true
pending_first here h = h
pending_first (step pay r) h = refl
pending_first (step settle r) h = cc (pending_first r h)
pending_first (step expire r) h = refl
pending_first (step cancel r) h = refl
pending_first (step charge_back r) h = cc (pending_first r h)

intent_back :
    (subscription product : ℕ) {o o' : Order}
    → RowStep o o'
    → is_intent subscription product o' ≡ true
    → is_intent subscription product o ≡ true
intent_back subscription product r h =
    rw (← r.same_subscription, ← r.same_product, ← r.same_provider)
      (ground (arith, pending_first r.moved))

-- So an update makes no new intent.
pub count-update_where-le :
    (subscription product : ℕ) (p : Order → Bool) (f : Order → Order) (xs : List Order)
    → ((o : Order) → p o ≡ true → RowStep o (f o))
    → count (is_intent subscription product) (update_where p f xs)
      ≤ count (is_intent subscription product) xs
count-update_where-le subscription product p f [] h = omega arith
count-update_where-le subscription product p f (x ∷ xs) h = elim (Bool-cases (p x)) [
  | inl e ↦ ground (
    arith,
    count-update_where-le subscription product p f xs h,
    intent_back subscription product (h x e),
  )
  | inr e ↦ ground (arith, count-update_where-le subscription product p f xs h)
]

pub Follows-update_where :
    (p : Order → Bool) (f : Order → Order) (t : Tables)
    → ((o : Order) → p o ≡ true → RowStep o (f o))
    → Follows t (record t { orders = update_where p f t.orders })
Follows-update_where p f t h = (
  omega arith,
  RowsFollow-update_where t.next_order p f t.orders h,
  λ one s q. omega (arith, count-update_where-le s q p f t.orders h, one s q),
)

-- A change of the status alone, along a path of the diagram.
pub RowStep-status :
    (o : Order) {s : OrderStatus} → o.status ⟶* s → RowStep o (record o { status = s })
RowStep-status o r = record {
  same_id = refl;
  same_subscription = refl;
  same_product = refl;
  same_amount = refl;
  same_currency = refl;
  same_provider = refl;
  moved = r;
}

pub pending_expires : (s : OrderStatus) → is_pending s ≡ true → s ⟶* OrderStatus.expired
pending_expires OrderStatus.pending h = step expire here
pending_expires OrderStatus.paid h = cc
pending_expires OrderStatus.expired h = cc
pending_expires OrderStatus.canceled h = cc

pub confirmed_pays :
    (s : OrderStatus) → (is_pending s || is_expired s) ≡ true → s ⟶* OrderStatus.paid
confirmed_pays OrderStatus.pending h = step pay here
confirmed_pays OrderStatus.paid h = cc
confirmed_pays OrderStatus.expired h = step settle here
confirmed_pays OrderStatus.canceled h = cc

-- The chargeback compares with `paid` or `pending`.
pub charged_back_cancels :
    (b : Bool) (s : OrderStatus)
    → same_status (if b then OrderStatus.paid else OrderStatus.pending) s ≡ true
    → s ⟶* OrderStatus.canceled
charged_back_cancels b OrderStatus.pending h = step cancel here
charged_back_cancels b OrderStatus.paid h = step charge_back here
charged_back_cancels true OrderStatus.expired h = cc
charged_back_cancels false OrderStatus.expired h = cc
charged_back_cancels b OrderStatus.canceled h = here

-- The states from which a callback may cancel.
abbrev pub is_cancelable : OrderStatus → Bool
is_cancelable OrderStatus.expired = false
is_cancelable _ = true

pub cancelable_cancels :
    (from : List OrderStatus) (s : OrderStatus)
    → any is_expired from ≡ false
    → any (λ q. same_status q s) from ≡ true
    → s ⟶* OrderStatus.canceled
cancelable_cancels from OrderStatus.pending n h = step cancel here
cancelable_cancels from OrderStatus.paid n h = step charge_back here
cancelable_cancels [] OrderStatus.expired n h = cc
cancelable_cancels (OrderStatus.pending ∷ from) OrderStatus.expired n h =
    cancelable_cancels from OrderStatus.expired n h
cancelable_cancels (OrderStatus.paid ∷ from) OrderStatus.expired n h =
    cancelable_cancels from OrderStatus.expired n h
cancelable_cancels (OrderStatus.expired ∷ from) OrderStatus.expired n h = cc
cancelable_cancels (OrderStatus.canceled ∷ from) OrderStatus.expired n h =
    cancelable_cancels from OrderStatus.expired n h
cancelable_cancels from OrderStatus.canceled n h = here
