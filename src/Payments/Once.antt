-- ===== src/Payments/Once.antt =====
-- internal/service/order.go: of the confirmations that the provider delivers for an order, at most one
-- reports that it activated the order.
use vn_bot.Base.{
  ℕ, String, Bool, true, false, not, ◌&&◌, ◌||◌, ◌≡◌, refl, Option, none, some, ℤ, ltb_ℤ, str_eq,
  subst,
}
use vn_bot.Store.{
  pure, late_confirmed_callback, Keeps, Unchanged, Unchanged-preorder, bind-Keeps, query-Keeps,
  require-Keeps, Order, Subscription, Product, Tables, M, Result, ok, err, Alert, is_paid,
  is_pending, is_expired, is_canceled, attempt, notify, ◌>>◌, Returns, pure-Returns, raise-Returns,
  if-Returns, bind-Returns, attempt-Returns, notify-Returns, order_not_found, product_not_found,
  subscription_not_found,
}
use vn_bot.Money.Text.{Text}
use vn_bot.Money.Amount.{parse_callback_amount}
use vn_bot.Orders.Rows.{get_order_by_provider_payment_id, get_product_by_id, get_by_id}
use vn_bot.Orders.Confirm.{confirm_order_paid_cas}
use vn_bot.Payments.Outside.{Outside}
use vn_bot.Payments.Confirm.{
  PaymentConfirmation, confirmation, nil_uuid, within_settlement_grace, callback_cents,
  covering_amount, mirror_expiry, mirror_order_from_subscription_after_cas, is_renewal,
  after_confirm, with_subscription, with_product, settle_callback, with_order, confirm_payment,
}

-- A confirmation that activated an order names it, and `Q` holds of its id.
abbrev pub Reports : (ℕ → Tables → Type 0) → PaymentConfirmation → Tables → Type 0
Reports Q c t = c.activated ≡ true → (o : Order) × (c.order ≡ some o) × Q o.id t

mirrored_id :
    (o : Order) (sub : Subscription) (now : ℕ)
    → (mirror_order_from_subscription_after_cas o sub now).id ≡ o.id
mirrored_id o sub now = go sub.expires_at
  where
    go : (e : Option ℕ) → (mirror_expiry e o).id ≡ o.id
    go none = refl
    go (some e) = refl

order_read :
    (provider payment : String)
    → Keeps Unchanged (get_order_by_provider_payment_id provider payment)
unfolding get_order_by_provider_payment_id
order_read provider payment =
    bind-Keeps Unchanged-preorder _ _ (query-Keeps Unchanged-preorder _)
      (λ found. require-Keeps Unchanged-preorder found _)

product_read : (id : ℕ) → Keeps Unchanged (get_product_by_id id)
unfolding get_product_by_id
product_read id =
    bind-Keeps Unchanged-preorder _ _ (query-Keeps Unchanged-preorder _)
      (λ found. require-Keeps Unchanged-preorder found _)

subscription_read : (id : ℕ) → Keeps Unchanged (get_by_id id)
unfolding get_by_id
subscription_read id =
    bind-Keeps Unchanged-preorder _ _ (query-Keeps Unchanged-preorder _)
      (λ found. require-Keeps Unchanged-preorder found _)

module _ (P : Tables → Type 0) (Q : ℕ → Tables → Type 0) where
  -- What the compare-and-swap ensures of the order that it activates.
  abbrev pub Activates : Type 0
  Activates =
      (id paid_at activated_at : ℕ) (sub : Subscription) (product : Product) (amount : ℤ)
      → Returns P (confirm_order_paid_cas id paid_at activated_at sub product amount)
          (λ r t. r.0 ≡ true → Q id t)

  abbrev Swapped : Order → Result (Bool × Subscription) → Tables → Type 0
  Swapped o (ok (b, sub)) t = b ≡ true → Q o.id t
  Swapped o (err e) t = Unit {0}

  noted :
      {A : Type 0} {S : A → Tables → Type 0} (a : Alert) {m : M A}
      → Returns P m S
      → Returns P (notify a >> m) S
  noted a h = bind-Returns {Q = λ _. P} _ _ (notify-Returns a) (λ _. h)

  reported :
      (env : Outside) (o : Order) (renewal : Bool) (r : Result (Bool × Subscription))
      → Returns (Swapped o r) (after_confirm env o renewal r) (Reports Q)
  unfolding after_confirm
  reported env o renewal (err e) =
      bind-Returns {Q = λ _ _. Unit {0}} _ _ (notify-Returns _) (λ _. raise-Returns e)
  reported env o renewal (ok (false, sub)) = pure-Returns _ (λ t p e. absurd (cc e))
  reported env o renewal (ok (true, sub)) =
      bind-Returns {Q = λ _. Q o.id} _ _
        (bind-Returns {Q = λ _. Q o.id} _ _
          (if-Returns (env.has_sub_service && not (str_eq sub.subscription_id ""))
            (λ _. record { at = λ w p. p refl }) (λ _. record { at = λ w p. p refl }))
          (λ _. notify-Returns _))
        (λ _. pure-Returns _ (λ t p e. (
          mirror_order_from_subscription_after_cas o sub env.now,
          refl,
          rw (mirrored_id o sub env.now) p,
        )))

  -- A read leaves the tables as they are, whether it succeeds or fails.
  read_kept : {A : Type 0} (m : M A) → Keeps Unchanged m → Returns P (attempt m) (λ _. P)
  read_kept m k = record { at = λ w p. subst P (k.at w) p }

  unactivated : (c : Option Order) → Returns P (pure (confirmation c false)) (Reports Q)
  unactivated c = pure-Returns _ (λ t p e. absurd (cc e))

  module _ (swap : Activates) where
    subscribed :
        (env : Outside) (o : Order) (cents : ℤ) (product : Product) (r : Result Subscription)
        → Returns P (with_subscription env o cents product r) (Reports Q)
    unfolding with_subscription
    subscribed env o cents product (err subscription_not_found) = noted _ (unactivated none)
    subscribed env o cents product (err e) = noted _ (raise-Returns e)
    subscribed env o cents product (ok sub) =
        bind-Returns {Q = Swapped o} _ _
          (attempt-Returns (Swapped o) (swap o.id env.now env.now sub product cents) (λ r t q. q)
            (λ e t. tt))
          (reported env o (is_renewal sub))

    produced :
        (env : Outside) (o : Order) (cents : ℤ) (r : Result Product)
        → Returns P (with_product env o cents r) (Reports Q)
    unfolding with_product
    produced env o cents (err product_not_found) = noted _ (unactivated none)
    produced env o cents (err e) = noted _ (raise-Returns e)
    produced env o cents (ok product) =
        bind-Returns {Q = λ _. P} _ _ (read_kept _ (subscription_read o.subscription_id))
          (subscribed env o cents product)

    settled :
        (env : Outside) (o : Order) (cents : ℤ)
        → Returns P (settle_callback env o cents) (Reports Q)
    unfolding settle_callback
    settled env o cents =
        if-Returns (is_paid o.status) (λ _. unactivated (some o))
          (λ _.
            if-Returns
              ((is_expired o.status || is_canceled o.status)
                && not (within_settlement_grace o env.now))
              (λ _.
                bind-Returns {Q = λ _. P} _ _
                  (bind-Returns {Q = λ _. P} _ _ (read_kept _ (subscription_read o.subscription_id))
                    (λ _. notify-Returns late_confirmed_callback))
                  (λ _. unactivated (some o)))
              (λ _.
                if-Returns (not (is_pending o.status) && not (is_expired o.status))
                  (λ _. raise-Returns _)
                  (λ _.
                    bind-Returns {Q = λ _. P} _ _ (read_kept _ (product_read o.product_id))
                      (produced env o cents))))

    covered : (o : Order) (found : Option ℤ) → Returns P (covering_amount o found) (λ _. P)
    covered o none = noted _ (raise-Returns _)
    covered o (some cents) =
        if-Returns (ltb_ℤ cents o.amount_cents) (λ _. noted _ (raise-Returns _))
          (λ _. pure-Returns cents (λ t p. p))

    ordered :
        (env : Outside) (amount : Text) (currency : String) (r : Result Order)
        → Returns P (with_order env amount currency r) (Reports Q)
    unfolding with_order callback_cents
    ordered env amount currency (err order_not_found) = noted _ (unactivated none)
    ordered env amount currency (err e) = noted _ (raise-Returns e)
    ordered env amount currency (ok o) =
        bind-Returns {Q = λ _. P} _ _
          (if-Returns (not (str_eq o.currency currency)) (λ _. noted _ (raise-Returns _))
            (λ _. covered o (parse_callback_amount amount)))
          (settled env o)

    pub confirm_payment-Reports :
        (env : Outside) (payment : String) (amount : Text) (currency : String)
        → Returns P (confirm_payment env payment amount currency) (Reports Q)
    unfolding confirm_payment
    confirm_payment-Reports env payment amount currency =
        if-Returns (not env.payment_enabled) (λ _. raise-Returns _)
          (λ _.
            if-Returns (not env.lock_granted) (λ _. raise-Returns _)
              (λ _.
                if-Returns (str_eq payment nil_uuid) (λ _. noted _ (raise-Returns _))
                  (λ _.
                    bind-Returns {Q = λ _. P} _ _ (read_kept _ (order_read "platega" payment))
                      (ordered env amount currency))))
