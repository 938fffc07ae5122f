-- ===== src/Orders/Intent/Total.antt =====
-- `FindOrCreatePendingPaymentOrder` always ends with an intent that can be used.
use vn_bot.Base.{
  ℕ, String, Bool, true, false, not, ◌&&◌, ◌≤◌, ◌≡◌, ◌⊎◌, inl, inr, refl, none, some, List, [], ◌∷◌,
  ℤ, arith, ◌==◌, find, any, count, update_where, find-test, Bool-cases, Option-cases,
}
use vn_bot.Store.{Order, OrderStatus, World, ok, is_pending, query, update, transaction, stmt}
use vn_bot.Orders.Rows.{update_orders}
use vn_bot.Orders.Intent.{
  is_intent, past_deadline, set_status, new_intent, find_or_create_pending_payment_order,
}
use vn_bot.Orders.Diagram.{
  OneIntent, count-update_where-le, RowStep, RowStep-status, pending_expires,
}

any_of_find : (p : Order → Bool) (xs : List Order) → find p xs ≡ none → any p xs ≡ false
any_of_find p [] h = refl
any_of_find p (x ∷ xs) h = ground (arith, any_of_find p xs)

any_of_count : (p : Order → Bool) (xs : List Order) → count p xs ≡ 0 → any p xs ≡ false
any_of_count p [] h = refl
any_of_count p (x ∷ xs) h = ground (arith, any_of_count p xs)

abbrev expired_row : ℕ → Order → Bool
expired_row id r = r.id == id && is_pending r.status

expired_row-RowStep :
    (id : ℕ) (r : Order) → expired_row id r ≡ true → RowStep r (set_status OrderStatus.expired r)
expired_row-RowStep id r h = RowStep-status r (pending_expires r.status (ground arith))

-- When the only intent expires, none is left.
none_left :
    (s p : ℕ) (xs : List Order) {o : Order}
    → find (is_intent s p) xs ≡ some o
    → count (is_intent s p) xs ≤ 1
    → count (is_intent s p) (update_where (expired_row o.id) (set_status OrderStatus.expired) xs)
      ≡ 0
none_left s p [] f c = cc
none_left s p (x ∷ xs) {o} f c = elim (Bool-cases (is_intent s p x)) [
  | inl e ↦ ground (
    arith,
    count-update_where-le s p (expired_row o.id) (set_status OrderStatus.expired) xs
        (expired_row-RowStep o.id),
  )
  | inr e ↦ ground (arith, none_left s p xs {o = o})
]

abbrev pub IsUsable : ℕ → Order → Type 0
IsUsable now o =
    (o.payment_creation_uncertain ≡ true) ⊎ (past_deadline o.payment_expires_at now ≡ false)

-- With no database failure and at most one intent for the pair, the call returns an intent of the
-- subscription and the product, whose request is uncertain or whose deadline has not passed: the
-- one that was there, or a new one with the price that was asked for.
pub find_or_create_total :
    (s p : ℕ) (amount : ℤ) (currency : String) (now : ℕ) (w : World)
    → w.faults ≡ []
    → OneIntent w.tables.orders
    → (o : Order) × ((find_or_create_pending_payment_order s p amount currency now w).0 ≡ ok o)
      × (is_intent s p o ≡ true)
      × IsUsable now o
      × ((find (is_intent s p) w.tables.orders ≡ some o)
          ⊎ (o ≡ record (new_intent s p amount currency now) { id = w.tables.next_order }))
unfolding find_or_create_pending_payment_order query update transaction stmt update_orders
find_or_create_total s p amount currency now w quiet one =
    elim (Option-cases (find (is_intent s p) w.tables.orders)) [
      | inl absent ↦ (
        record (new_intent s p amount currency now) { id = w.tables.next_order },
        ground (arith, any_of_find (is_intent s p) w.tables.orders),
        ground arith,
        inr refl,
        inr refl,
      )
      | inr (o, found) ↦
          elim (Bool-cases
            (not o.payment_creation_uncertain && past_deadline o.payment_expires_at now)) [
              | inl stale ↦ (
                record (new_intent s p amount currency now) { id = w.tables.next_order },
                ground (
                  arith,
                  any_of_count (is_intent s p) (
                      update_where (expired_row o.id) (set_status OrderStatus.expired)
                        w.tables.orders),
                  none_left s p w.tables.orders found (one s p),
                ),
                ground arith,
                inr refl,
                inr refl,
              )
              | inr fresh ↦ (
                o,
                ground arith,
                find-test (is_intent s p) w.tables.orders found,
                ground arith,
                inl found,
              )
            ]
    ]
