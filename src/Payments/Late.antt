-- ===== src/Payments/Late.antt =====
-- internal/service/order.go: callbacks that come too late, or for an order that has moved on.
use vn_bot.Base.{
  Bool-cases, inl, inr, ℕ, ◌+◌, ◌<◌, ◌⊎◌, Option, ◌≡◌, refl, String, Bool, true, false, not, ◌&&◌,
  ◌||◌, none, some, List, [], ◌∷◌, ℤ, arith, str_eq, find, count, any, update_where, ◌≤◌,
}
use vn_bot.Store.{
  Order, OrderStatus, World, ok, calm, query, update, stmt, transaction, is_pending, is_expired,
  is_canceled, is_paid, late_confirmed_callback,
}
use vn_bot.Money.Text.{Text}
use vn_bot.Money.Amount.{parse_callback_amount}
use vn_bot.Orders.Rows.{
  by_provider_payment, get_order_by_provider_payment_id, get_by_id, update_orders,
}
use vn_bot.Orders.Chargeback.{cancel_order_cas, same_status}
use vn_bot.Orders.Intent.{set_status}
use vn_bot.Payments.Outside.{Outside}
use vn_bot.Payments.Confirm.{
  confirmation, callback_cents, within_settlement_grace, within_deadline, settle_callback,
  with_order, confirm_payment, nil_uuid,
}
use vn_bot.Payments.Cancel.{
  with_canceled_order, apply_status, after_cancel, cancel_payment_by_provider,
}
use vn_bot.Payments.Decisions.{callback_fits}

-- What the checks of a fitting callback leave.
pub fits_passes :
    (o : Order) (amount : Text) (currency : String) (cents : ℤ) (w : World)
    → callback_fits o amount currency ≡ true
    → parse_callback_amount amount ≡ some cents
    → callback_cents o amount currency w ≡ (ok cents, w)
unfolding callback_cents
fits_passes o amount currency cents w h e = ground arith

-- What `CancelOrderCAS` updates for a cancellation.
abbrev cancelable : String → Order → Bool
cancelable payment o =
    by_provider_payment "platega" payment o
    && any (λ s. same_status s o.status) (OrderStatus.pending ∷ [])

-- No other row has the payment id of a row that is not pending, so a cancellation finds none.
none_pending :
    (payment : String) (xs : List Order) (o : Order)
    → find (by_provider_payment "platega" payment) xs ≡ some o
    → count (by_provider_payment "platega" payment) xs ≤ 1
    → is_pending o.status ≡ false
    → count (cancelable payment) xs ≡ 0
none_pending payment [] o f c n = refl
none_pending payment (x ∷ xs) o f c n =
    elim (Bool-cases (by_provider_payment "platega" payment x)) [
      | inl e ↦ ground (arith, none_of_count payment xs)
      | inr e ↦ ground (arith, none_pending payment xs o)
    ]
  where
    none_of_count :
        (payment : String) (xs : List Order)
        → count (by_provider_payment "platega" payment) xs ≡ 0
        → count (cancelable payment) xs ≡ 0
    none_of_count payment [] h = refl
    none_of_count payment (x ∷ xs) h = ground (arith, none_of_count payment xs)

no_change :
    (p : Order → Bool) (f : Order → Order) (xs : List Order)
    → count p xs ≡ 0
    → update_where p f xs ≡ xs
no_change p f [] h = refl
no_change p f (x ∷ xs) h = ground (arith, no_change p f xs)

nothing_canceled :
    (payment : String) (w : World) (o : Order)
    → find (by_provider_payment "platega" payment) w.tables.orders ≡ some o
    → count (by_provider_payment "platega" payment) w.tables.orders ≤ 1
    → is_pending o.status ≡ false
    → cancel_order_cas "platega" payment (OrderStatus.pending ∷ []) (calm w) ≡ (ok false, calm w)
unfolding cancel_order_cas query update stmt transaction update_orders
nothing_canceled payment w o found one settled =
    let absent = none_pending payment w.tables.orders o found one settled in
    rw absent (
      rw (no_change (cancelable payment) (set_status OrderStatus.canceled) w.tables.orders absent)
        refl)

-- A payment link without a deadline, or with one that passed more than 300 seconds ago.
abbrev pub IsPastGrace : Option ℕ → ℕ → Type 0
IsPastGrace none now = Unit {0}
IsPastGrace (some deadline) now = deadline + 300 < now

-- A callback for this order comes too late: the order is canceled, whatever its deadline, or expired and
-- past the grace.
abbrev pub IsLate : Order → ℕ → Type 0
IsLate o now =
    (o.status ≡ OrderStatus.canceled)
    ⊎ ((o.status ≡ OrderStatus.expired) × IsPastGrace o.payment_expires_at now)

past_deadline : (d : Option ℕ) (now : ℕ) → IsPastGrace d now → within_deadline d now ≡ false
past_deadline none now h = refl
past_deadline (some deadline) now h = ground (arith, h)

late_unsettled :
    (o : Order) (now : ℕ)
    → IsLate o now
    → (is_paid o.status ≡ false)
      × (((is_expired o.status || is_canceled o.status) && not (within_settlement_grace o now))
          ≡ true)
late_unsettled o now (inl e) = rw e (refl, refl)
late_unsettled o now (inr (e, h)) = rw (e, past_deadline o.payment_expires_at now h) (refl, refl)

module _ (env : Outside) (payment : String) (amount : Text) (currency : String) (cents : ℤ)
    (w : World) (o : Order) (enabled : env.payment_enabled ≡ true)
    (locked : env.lock_granted ≡ true) (known : str_eq payment nil_uuid ≡ false)
    (found : find (by_provider_payment "platega" payment) w.tables.orders ≡ some o)
    (read : parse_callback_amount amount ≡ some cents)
    (fits : callback_fits o amount currency ≡ true) where
  -- A fitting confirmation of an order that is canceled, or expired with no deadline or one more than
  -- 300 seconds ago, is acknowledged and changes no table: the order stays as it is, and the
  -- administrator is told. No statement fails, the lock is granted and payments are enabled.
  pub late_callback_acknowledged :
      IsLate o env.now
      → let (r, w') = confirm_payment env payment amount currency (calm w) in
        (r ≡ ok (confirmation (some o) false))
        × (w'.tables ≡ w.tables)
        × (w'.alerts ≡ late_confirmed_callback ∷ w.alerts)
  unfolding confirm_payment with_order settle_callback get_order_by_provider_payment_id query stmt
      get_by_id
  late_callback_acknowledged late =
      let unsettled = late_unsettled o env.now late in
      rw enabled (
        rw locked (
          rw known (
            rw found (rw (fits_passes o amount currency cents (calm w) fits read) (ground arith)))))

  -- A fitting cancellation of an order that is not pending, whose payment id no other row has, changes
  -- no table and reports no transition: paid access is never taken away by it. No statement fails,
  -- the lock is granted and payments are enabled.
  pub cancel_spares_settled :
      is_pending o.status ≡ false
      → count (by_provider_payment "platega" payment) w.tables.orders ≤ 1
      → let (r, w') = cancel_payment_by_provider env payment "CANCELED" amount currency (calm w) in
        (r ≡ ok (none, false)) × (w'.tables ≡ w.tables)
  unfolding cancel_payment_by_provider with_canceled_order apply_status after_cancel
      get_order_by_provider_payment_id query stmt
  cancel_spares_settled settled one = rw enabled (
      rw locked (
        rw known (
          rw found (
            rw (fits_passes o amount currency cents (calm w) fits read)
              (rw (nothing_canceled payment w o found one settled) (refl, refl))))))
