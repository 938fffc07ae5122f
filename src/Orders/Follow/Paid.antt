-- ===== src/Orders/Follow/Paid.antt =====
-- The confirmation, the cancellation and the chargeback of an order (orders.go) follow the diagram.
use vn_bot.Base.{
  ℕ, String, Bool, true, false, ◌&&◌, ◌≡◌, refl, Option, none, some, List, ℤ, arith, ◌==◌, any, inl,
  inr, Bool-cases,
}
use vn_bot.Store.{
  Order, OrderStatus, Subscription, Product, Tables, JournalType, DedupFamily, JournalRow, is_paid,
  is_expired, is_active, update-Keeps,
}
use vn_bot.Orders.Journal.{
  add_journal, record_journal, journal_payment, record_payment_journal,
  record_order_canceled_journal, record_chargeback_journal, same_family,
}
use vn_bot.Orders.Confirm.{may_confirm, confirmed, confirm_with, confirm_order_paid_cas}
use vn_bot.Orders.Chargeback.{
  downgrade_unless_covered, after_cancel, cancel_row, charge_back,
  cancel_paid_order_and_downgrade_cas, journal_canceled, cancel_order_cas,
}
use vn_bot.Orders.Diagram.{
  RowStep, Follows, Follows-preorder, RowStep-status, Follows-same, confirmed_pays,
  charged_back_cancels, cancelable_cancels,
}
use vn_bot.Orders.Follow.{
  FollowsM, asked, done, raised, needed, chained, branched, caught, in_transaction, changed,
  subscribed,
}

journaled :
    (type : JournalType) (family : DedupFamily) (id : ℕ) → FollowsM (record_journal type family id)
unfolding record_journal
journaled type family id = caught (update-Keeps Follows-preorder _ go) (λ _. done tt)
  where
    row : JournalRow
    row = record { type = type; family = family; order_id = id }

    go : (t : Tables) → Follows t (add_journal row t).1
    go t =
        elim (Bool-cases (any (λ j. same_family j.family family && j.order_id == id) t.journal)) [
          | inl e ↦ rw e (Follows-same t)
          | inr e ↦ rw e (omega arith, (Follows-same t).1, λ one. one)
        ]

payment_journaled :
    (id : ℕ) (renewal : Bool) (o : Option Order) → FollowsM (journal_payment id renewal o)
unfolding journal_payment
payment_journaled id renewal none = done tt
payment_journaled id renewal (some o) = chained (journaled _ _ _) (λ _. journaled _ _ _)

recorded_payment :
    (id : ℕ) (prior : Subscription) (product : Product)
    → FollowsM (record_payment_journal id prior product)
unfolding record_payment_journal
recorded_payment id prior product =
    caught (chained (asked _) (payment_journaled id _)) (λ _. done tt)

pub confirm_order_paid_cas-Follows :
    (id paid_at activated_at : ℕ) (sub : Subscription) (product : Product) (amount : ℤ)
    → FollowsM (confirm_order_paid_cas id paid_at activated_at sub product amount)
unfolding confirm_order_paid_cas
confirm_order_paid_cas-Follows id paid_at activated_at sub product amount =
    in_transaction (chained (asked _) (λ found. chained (needed found _) go))
  where
    moved :
        (expiry : ℕ) (o : Order)
        → may_confirm id o ≡ true
        → RowStep o (confirmed paid_at activated_at expiry amount o)
    moved expiry o h = record {
      same_id = refl;
      same_subscription = refl;
      same_product = refl;
      same_amount = refl;
      same_currency = refl;
      same_provider = refl;
      moved = confirmed_pays o.status (ground arith);
    }

    go :
        (current : Subscription)
        → FollowsM (confirm_with id paid_at activated_at sub product amount current)
    go current = chained (changed _ _ (moved _)) (λ n. branched _ (done _) (
        chained (subscribed _ _) (λ m.
          branched _ (raised _) (chained (recorded_payment id current product) (λ _. done _)))))

journal_cancel : (o : Option Order) → FollowsM (journal_canceled o)
unfolding journal_canceled record_order_canceled_journal
journal_cancel none = done tt
journal_cancel (some o) =
    caught (chained (asked _) (λ found. chained (needed found _) (λ _. journaled _ _ _)))
      (λ _. done tt)

-- `cancel_order_cas` follows the diagram from every list of states without `expired`.
pub cancel_order_cas-Follows :
    (provider payment : String) (from : List OrderStatus)
    → any is_expired from ≡ false
    → FollowsM (cancel_order_cas provider payment from)
unfolding cancel_order_cas
cancel_order_cas-Follows provider payment from n = in_transaction (
    chained
      (changed _ _ (λ o h. RowStep-status o (cancelable_cancels from o.status n (ground arith))))
      (λ k.
        branched _
          (chained (caught (chained (asked _) journal_cancel) (λ _. done tt)) (λ _. done _))
          (done _)))

decided : (o : Order) (free_plan n : ℕ) → FollowsM (downgrade_unless_covered o free_plan n)
unfolding downgrade_unless_covered record_chargeback_journal
decided o free_plan n = branched _ (chained (journaled _ _ _) (λ _. done _)) (
    chained (subscribed _ _) (λ m. branched _ (raised _) (chained (journaled _ _ _) (λ _. done _))))

finished :
    (o : Order) (current : Subscription) (now free_plan n : ℕ)
    → FollowsM (after_cancel o current now free_plan n)
unfolding after_cancel record_chargeback_journal record_order_canceled_journal
finished o current now free_plan n = branched (n == 0) (done _) (
    branched (is_paid o.status)
      (branched (is_active current.status) (chained (asked _) (decided _ free_plan))
        (chained (journaled _ _ _) (λ _. done _)))
      (chained (journaled _ _ _) (λ _. done _)))

row_canceled :
    (current : Subscription) (now free_plan : ℕ) (o : Order)
    → FollowsM (cancel_row current now free_plan o)
unfolding cancel_row
row_canceled current now free_plan o =
    chained
      (changed _ _
        (λ r h. RowStep-status r (charged_back_cancels (is_paid o.status) r.status (ground arith))))
      (finished o current now free_plan)

pub cancel_paid_order_and_downgrade_cas-Follows :
    (provider payment : String) (now free_plan : ℕ)
    → FollowsM (cancel_paid_order_and_downgrade_cas provider payment now free_plan)
unfolding cancel_paid_order_and_downgrade_cas
cancel_paid_order_and_downgrade_cas-Follows provider payment now free_plan =
    in_transaction (chained (asked _) go)
  where
    go : (o : Option Order) → FollowsM (charge_back now free_plan o)
    go none = done _
    go (some o) = chained (asked _) (λ found. chained (needed found _) (λ current.
        chained (asked _) (λ again.
          chained (needed again _)
            (λ row. chained (row_canceled current now free_plan row) (λ _. done _)))))
