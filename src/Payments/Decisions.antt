-- ===== src/Payments/Decisions.antt =====
-- internal/service/order.go: what the callbacks of the provider do with an order that they must not
-- settle.
use vn_bot.Base.{
  ◌≡◌, ◌⊎◌, inl, inr, refl, subst, String, Bool, true, false, not, ◌&&◌, Option, none, some, List,
  [], ◌∷◌, ℤ, arith, ltb_ℤ, if◌then◌else◌, str_eq, find, Bool-cases,
}
use vn_bot.Store.{Error, M, go_on, db_fault, Order, Tables, World, Result, ok, err, query, stmt}
use vn_bot.Money.Text.{Text}
use vn_bot.Money.Amount.{parse_callback_amount}
use vn_bot.Orders.Rows.{by_provider_payment, get_order_by_provider_payment_id}
use vn_bot.Payments.Outside.{Outside}
use vn_bot.Payments.Confirm.{callback_cents, covering_amount, with_order, confirm_payment, nil_uuid}
use vn_bot.Payments.Cancel.{with_canceled_order, cancel_payment_by_provider}

-- Whether the callback names the order's currency and an amount that covers its price.
abbrev amount_covers : Option ℤ → Order → Bool
amount_covers none o = false
amount_covers (some cents) o = not (ltb_ℤ cents o.amount_cents)

abbrev pub callback_fits : Order → Text → String → Bool
callback_fits o amount currency =
    str_eq o.currency currency && amount_covers (parse_callback_amount amount) o

abbrev is_ok : {A : Type 0} → Result A → Bool
is_ok (ok a) = true
is_ok (err e) = false

-- An operation that ends in an error and leaves the tables as they were.
abbrev pub Refused : {A : Type 0} → Tables → Result A × World → Type 0
Refused t r = (is_ok r.0 ≡ false) × (r.1.tables ≡ t)

covering_refuses :
    (o : Order) (found : Option ℤ) (w : World)
    → amount_covers found o ≡ false
    → Refused w.tables (covering_amount o found w)
covering_refuses o none w h = (refl, refl)
covering_refuses o (some cents) w h = ground arith

callback_refuses :
    (o : Order) (amount : Text) (currency : String) (w : World)
    → callback_fits o amount currency ≡ false
    → Refused w.tables (callback_cents o amount currency w)
unfolding callback_cents
callback_refuses o amount currency w h = elim (Bool-cases (str_eq o.currency currency)) [
  | inl e ↦ rw e (
      covering_refuses o (parse_callback_amount amount) w
        (subst (λ b. (b && amount_covers (parse_callback_amount amount) o) ≡ false) e h))
  | inr e ↦ rw e (refl, refl)
]

Refused-on :
    {A B : Type 0} (t : Tables) (r : Result A × World) (f : A → M B)
    → Refused t r
    → Refused t (go_on r f)
Refused-on t (ok a, w) f h = absurd (cc h.0)
Refused-on t (err e, w) f h = (refl, h.1)

-- The order of a payment id is read, or the database fails.
abbrev IsRead : Order → Tables → Result Order × World → Type 0
IsRead o t r = ((r.0 ≡ ok o) ⊎ (r.0 ≡ err db_fault)) × (r.1.tables ≡ t)

order-IsRead :
    (payment : String) (o : Order) (w : World)
    → find (by_provider_payment "platega" payment) w.tables.orders ≡ some o
    → IsRead o w.tables (get_order_by_provider_payment_id "platega" payment w)
unfolding get_order_by_provider_payment_id query stmt
order-IsRead payment o w found = go w.faults refl
  where
    go :
        (faults : List Bool)
        → w.faults ≡ faults
        → IsRead o w.tables (get_order_by_provider_payment_id "platega" payment w)
    go [] e = rw e (rw found (inl refl, refl))
    go (true ∷ rest) e = rw e (inr refl, refl)
    go (false ∷ rest) e = rw e (rw found (inl refl, refl))

if-Refused :
    {A : Type 0} {t : Tables} (b : Bool) (m n : M A) (w : World)
    → Refused t (m w)
    → Refused t (n w)
    → Refused t ((if b then m else n) w)
if-Refused true m n w h k = h
if-Refused false m n w h k = k

ok_inj : {p o : Order} → ok p ≡ ok o → p ≡ o
ok_inj e = cc e

err_inj : {f g : Error} → Path (Result Order) (err f) (err g) → f ≡ g
err_inj e = cc e

module _ (env : Outside) (payment : String) (amount : Text) (currency : String) (w : World)
    (o : Order) (found : find (by_provider_payment "platega" payment) w.tables.orders ≡ some o)
    (bad : callback_fits o amount currency ≡ false) where
  checked :
      (p : Order) (v : World)
      → p ≡ o
      → v.tables ≡ w.tables
      → Refused w.tables (callback_cents p amount currency v)
  checked p v e same =
      subst (λ t. Refused t (callback_cents p amount currency v)) same
        (callback_refuses p amount currency v (rw e bad))

  confirm_read :
      (r : Result Order × World)
      → IsRead o w.tables r
      → Refused w.tables (with_order env amount currency r.0 r.1)
  unfolding with_order
  confirm_read (ok p, v) (inl e, same) = Refused-on w.tables _ _ (checked p v (ok_inj e) same)
  confirm_read (ok p, v) (inr e, same) = absurd (cc e)
  confirm_read (err f, v) (inl e, same) = absurd (cc e)
  confirm_read (err f, v) (inr e, same) = rw (err_inj e) (refl, same)

  cancel_read :
      (status : String) (r : Result Order × World)
      → IsRead o w.tables r
      → Refused w.tables (with_canceled_order env payment status amount currency r.0 r.1)
  unfolding with_canceled_order
  cancel_read status (ok p, v) (inl e, same) = Refused-on w.tables _ _ (checked p v (ok_inj e) same)
  cancel_read status (ok p, v) (inr e, same) = absurd (cc e)
  cancel_read status (err f, v) (inl e, same) = absurd (cc e)
  cancel_read status (err f, v) (inr e, same) = rw (err_inj e) (refl, same)

  -- A callback whose currency is not the order's, whose amount cannot be read or whose amount is
  -- below the order's price ends in an error and changes no table: a confirmation as well as a
  -- cancellation or a chargeback of any status, whatever statements fail.
  pub misfit-Refused :
      (status : String)
      → Refused w.tables (confirm_payment env payment amount currency w)
        × Refused w.tables (cancel_payment_by_provider env payment status amount currency w)
  unfolding confirm_payment cancel_payment_by_provider
  misfit-Refused status =
      let r = get_order_by_provider_payment_id "platega" payment w in
      let h : IsRead o w.tables r = order-IsRead payment o w found in
      (
        if-Refused (not env.payment_enabled) _ _ w (refl, refl)
            (if-Refused (not env.lock_granted) _ _ w (refl, refl)
              (if-Refused (str_eq payment nil_uuid) _ _ w (refl, refl) (confirm_read r h))),
        if-Refused (not env.payment_enabled) _ _ w (refl, refl)
            (if-Refused (str_eq payment nil_uuid) _ _ w (refl, refl)
              (if-Refused (not env.lock_granted) _ _ w (refl, refl) (cancel_read status r h))),
      )
