-- ===== src/Orders/Follow.antt =====
-- The parts of an operation of the order repository follow the diagram of `Diagram`: queries,
-- results, branches, transactions, the updates of the tables. `Intent` and `Paid` put the
-- operations together and `Any` runs any sequence of them.
pub mod Intent
pub mod Paid
pub mod Any
use vn_bot.Base.{
  ℕ, String, Bool, true, false, not, ◌&&◌, ◌≡◌, refl, Option, none, some, List, [], ◌∷◌, ℤ, arith,
  ◌==◌, if◌then◌else◌, find, any, count, inl, inr, Bool-cases, count-append, ◌++◌, ◌||◌, ltb,
}
use vn_bot.Store.{
  Order, OrderStatus, Subscription, Product, Tables, JournalType, DedupFamily, is_pending,
  is_expired, M, World, Error, db_fault, unique_violation, raise, pure, query, update, transaction,
  require, catch, ◌>>=◌, ◌>>◌, Keeps, Preorder, pure-Keeps, raise-Keeps, require-Keeps, bind-Keeps,
  if-Keeps, catch-Keeps, query-Keeps, update-Keeps, transaction-Keeps,
}
use vn_bot.Orders.Rows.{
  update_orders, update_subscriptions, save_order_payment_amounts, with_amounts, order_by_id,
}
use vn_bot.Orders.Intent.{
  is_intent, past_deadline, set_status, settle_intent, find_pending_payment_order, new_intent,
  add_row, insert_order, reuse_or_create, read_winner, find_or_create_pending_payment_order,
  may_mark, mark_payment_creation_uncertain, with_details, save_payment_details,
}
use vn_bot.Orders.Expiry.{calculate_payment_expiry}
use vn_bot.Orders.Journal.{
  add_journal, record_journal, journal_payment, record_payment_journal,
  record_order_canceled_journal, record_chargeback_journal,
}
use vn_bot.Orders.Confirm.{may_confirm, confirmed, grant, confirm_with, confirm_order_paid_cas}
use vn_bot.Orders.Chargeback.{
  downgrade_unless_covered, after_cancel, cancel_row, charge_back, same_status,
  cancel_paid_order_and_downgrade_cas, journal_canceled, cancel_order_cas,
}
use vn_bot.Orders.Diagram.{
  RowStep, RowsFollow, Follows, Follows-preorder, RowStep-same, RowStep-status,
  Follows-update_where, OneIntent, RowsFollow-append, Follows-same, pending_expires, confirmed_pays,
  charged_back_cancels, cancelable_cancels, here,
}

abbrev pub FollowsM : {A : Type 0} → M A → Type 0
FollowsM m = Keeps Follows m

pub asked : {A : Type 0} (f : Tables → A) → FollowsM (query f)
asked f = query-Keeps Follows-preorder f

pub done : {A : Type 0} (a : A) → FollowsM (pure a)
done a = pure-Keeps Follows-preorder a

pub raised : {A : Type 0} (e : Error) → FollowsM (raise {A = A} e)
raised e = raise-Keeps Follows-preorder e

pub needed : {A : Type 0} (o : Option A) (e : Error) → FollowsM (require o e)
needed o e = require-Keeps Follows-preorder o e

pub chained :
    {A B : Type 0} {m : M A} {f : A → M B}
    → FollowsM m
    → ((a : A) → FollowsM (f a))
    → FollowsM (m >>= f)
chained {m = m} {f = f} h k = bind-Keeps Follows-preorder m f h k

pub branched :
    {A : Type 0} (b : Bool) {m n : M A} → FollowsM m → FollowsM n → FollowsM (if b then m else n)
branched b h k = if-Keeps Follows-preorder b h k

pub caught :
    {A : Type 0} {m : M A} {f : Error → M A}
    → FollowsM m
    → ((e : Error) → FollowsM (f e))
    → FollowsM (catch m f)
caught {m = m} {f = f} h k = catch-Keeps Follows-preorder m f h k

pub in_transaction : {A : Type 0} {m : M A} → FollowsM m → FollowsM (transaction m)
in_transaction {m = m} h = transaction-Keeps Follows-preorder m h

pub changed :
    (p : Order → Bool) (f : Order → Order)
    → ((o : Order) → p o ≡ true → RowStep o (f o))
    → FollowsM (update_orders p f)
unfolding update_orders
changed p f h = update-Keeps Follows-preorder _ (λ t. Follows-update_where p f t h)

pub subscribed :
    (p : Subscription → Bool) (f : Subscription → Subscription)
    → FollowsM (update_subscriptions p f)
unfolding update_subscriptions
subscribed p f = update-Keeps Follows-preorder _ (λ t. (Follows-same t))

count-eq-zero_of_any : (p : Order → Bool) (xs : List Order) → any p xs ≡ false → count p xs ≡ 0
count-eq-zero_of_any p [] h = refl
count-eq-zero_of_any p (x ∷ xs) h = ground (arith, count-eq-zero_of_any p xs)

add_row-OneIntent :
    (o : Order) (xs : List Order) (n : ℕ)
    → any (is_intent o.subscription_id o.product_id) xs ≡ false
    → OneIntent xs
    → OneIntent (xs ++ record o { id = n } ∷ [])
add_row-OneIntent o xs n h one s q = elim (Bool-cases (is_intent s q o)) [
  | inl e ↦
      rw (count-append (is_intent s q) xs (record o { id = n } ∷ []))
        (ground (arith, count-eq-zero_of_any (is_intent s q) xs, h))
  | inr e ↦
      rw (count-append (is_intent s q) xs (record o { id = n } ∷ [])) (ground (arith, one s q))
]

pub inserted : (o : Order) → FollowsM (insert_order o)
unfolding insert_order
inserted o = chained (update-Keeps Follows-preorder (add_row o) go) (λ row. needed row _)
  where
    go : (t : Tables) → Follows t (add_row o t).1
    go t = elim (Bool-cases (any (is_intent o.subscription_id o.product_id) t.orders)) [
      | inl e ↦ rw e (Follows-same t)
      | inr e ↦ rw e (
        omega arith,
        RowsFollow-append t.next_order t.orders (record o { id = t.next_order }) (omega arith),
        add_row-OneIntent o t.orders t.next_order e,
      )
    ]

-- A write that leaves the status and the fixed columns alone.
pub unmoved :
    (o o' : Order)
    → o'.id ≡ o.id
    → o'.subscription_id ≡ o.subscription_id
    → o'.product_id ≡ o.product_id
    → o'.amount_cents ≡ o.amount_cents
    → o'.currency ≡ o.currency
    → o'.payment_provider ≡ o.payment_provider
    → o'.status ≡ o.status
    → RowStep o o'
unmoved o o' a b c d e f g = record {
  same_id = a;
  same_subscription = b;
  same_product = c;
  same_amount = d;
  same_currency = e;
  same_provider = f;
  moved = rw g here;
}
