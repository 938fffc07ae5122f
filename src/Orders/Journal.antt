-- ===== src/Orders/Journal.antt =====
-- internal/database/orders.go: the journal rows of a payment. `recordJournal` is best effort, so a
-- failed statement writes no row, and a dedup key that is present is not written again. The texts
-- of the rows and the plan names looked up for them are left out.
pub mod Aside
use vn_bot.Base.{
  ℕ, Bool, true, false, ◌&&◌, ◌||◌, Option, none, some, [], ◌∷◌, ◌++◌, pos, ltb_ℤ, ◌==◌,
  if◌then◌else◌, is_some, find, any,
}
use vn_bot.Store.{
  Order, Subscription, Product, Tables, JournalRow, JournalType, DedupFamily, payment_succeeded,
  payment_failed, payment_refunded, paid_activated, renewed, order_paid, order_activated,
  order_canceled, M, pure, ◌>>=◌, ◌>>◌, catch, query, update,
}
use vn_bot.Orders.Rows.{order_by_id}

abbrev pub same_family : DedupFamily → DedupFamily → Bool
same_family order_paid order_paid = true
same_family order_activated order_activated = true
same_family order_canceled order_canceled = true
same_family _ _ = false

unfoldable pub add_journal : JournalRow → Tables → Unit {0} × Tables
add_journal row t = (
  tt,
  if any (λ j. same_family j.family row.family && j.order_id == row.order_id) t.journal
      then t
      else record t { journal = t.journal ++ row ∷ [] },
)

-- `recordJournal`.
unfoldable pub record_journal : JournalType → DedupFamily → ℕ → M (Unit {0})
unfolding add_journal
record_journal type family order =
    catch (update (add_journal (record { type = type; family = family; order_id = order })))
      (λ _. pure tt)

-- A renewal: the subscription already held a paid term of the bought plan.
abbrev pub is_same_plan_renewal : Subscription → Product → Bool
is_same_plan_renewal prior product =
    prior.plan_id == product.plan_id
    && (is_some prior.product_id || ltb_ℤ (pos 0) prior.price_paid_cents)

unfoldable pub journal_payment : ℕ → Bool → Option Order → M (Unit {0})
unfolding record_journal
journal_payment id renewal none = pure tt
journal_payment id renewal (some o) =
    record_journal payment_succeeded order_paid o.id
    >> record_journal (if renewal then renewed else paid_activated) order_activated o.id

-- `recordPaymentJournal`.
unfoldable pub record_payment_journal : ℕ → Subscription → Product → M (Unit {0})
unfolding journal_payment
record_payment_journal id prior product =
    catch
      (query (λ t. find (order_by_id id) t.orders)
        >>= journal_payment id (is_same_plan_renewal prior product))
      (λ _. pure tt)

-- `recordOrderCanceledJournal`.
unfoldable pub record_order_canceled_journal : ℕ → M (Unit {0})
unfolding record_journal
record_order_canceled_journal id = record_journal payment_failed order_canceled id

-- `recordChargebackJournal`.
unfoldable pub record_chargeback_journal : ℕ → M (Unit {0})
unfolding record_journal
record_chargeback_journal id = record_journal payment_refunded order_canceled id
