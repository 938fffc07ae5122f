-- ===== src/Orders/Follow/Intent.antt =====
-- The operations on payment intents (orders.go) follow the diagram.
use vn_bot.Base.{ℕ, String, Bool, true, ◌≡◌, refl, Option, none, some, ℤ, arith, ◌==◌}
use vn_bot.Store.{Order, Error, unique_violation}
use vn_bot.Orders.Rows.{save_order_payment_amounts, with_amounts, order_by_id}
use vn_bot.Orders.Intent.{
  settle_intent, find_pending_payment_order, new_intent, reuse_or_create, read_winner,
  find_or_create_pending_payment_order, mark_payment_creation_uncertain, save_payment_details,
}
use vn_bot.Orders.Diagram.{RowStep, RowStep-status, pending_expires}
use vn_bot.Orders.Follow.{
  FollowsM, asked, done, raised, needed, chained, branched, caught, in_transaction, changed,
  inserted, unmoved,
}

pub find_pending_payment_order-Follows :
    (subscription product now : ℕ) → FollowsM (find_pending_payment_order subscription product now)
unfolding find_pending_payment_order
find_pending_payment_order-Follows subscription product now = chained (asked _) go
  where
    go : (o : Option Order) → FollowsM (settle_intent now o)
    go none = done none
    go (some o) =
        branched _
          (chained (changed _ _ (λ r h. RowStep-status r (pending_expires r.status (ground arith))))
            (λ n.
              branched (n == 1) (done _)
                (chained (asked _) (λ c. chained (needed c _) (λ row. done _)))))
          (done _)

winner_read : (subscription product : ℕ) (e : Error) → FollowsM (read_winner subscription product e)
unfolding read_winner
winner_read subscription product unique_violation = chained (asked _) (λ row. needed row _)
winner_read subscription product _ = raised _

pub find_or_create_pending_payment_order-Follows :
    (subscription product : ℕ) (amount : ℤ) (currency : String) (now : ℕ)
    → FollowsM (find_or_create_pending_payment_order subscription product amount currency now)
unfolding find_or_create_pending_payment_order
find_or_create_pending_payment_order-Follows subscription product amount currency now =
    caught (in_transaction (chained (asked _) go)) (winner_read subscription product)
  where
    fresh : Order
    fresh = new_intent subscription product amount currency now

    go : (o : Option Order) → FollowsM (reuse_or_create fresh now o)
    go none = inserted fresh
    go (some o) = branched _ (done o) (
        branched _
          (chained (changed _ _ (λ r h. RowStep-status r (pending_expires r.status (ground arith))))
            (λ _. inserted fresh))
          (done o))

pub mark_payment_creation_uncertain-Follows :
    (id : ℕ) (uncertain : Bool) → FollowsM (mark_payment_creation_uncertain id uncertain)
unfolding mark_payment_creation_uncertain
mark_payment_creation_uncertain-Follows id uncertain =
    chained (changed _ _ (λ o h. unmoved o _ refl refl refl refl refl refl refl)) (λ n. done _)

pub save_payment_details-Follows :
    (id : ℕ) (payment url : String) (deadline : ℕ)
    → FollowsM (save_payment_details id payment url deadline)
unfolding save_payment_details
save_payment_details-Follows id payment url deadline = chained (asked _) (λ taken.
    chained
      (branched taken (raised _)
        (changed _ _ (λ o h. unmoved o _ refl refl refl refl refl refl refl)))
      (λ n. branched _ (raised _) (done _)))

pub save_order_payment_amounts-Follows :
    (id : ℕ) (amount : ℤ) (fee : Option ℤ) → FollowsM (save_order_payment_amounts id amount fee)
unfolding save_order_payment_amounts
save_order_payment_amounts-Follows id amount fee = chained (changed _ _ (go fee)) (λ _. done _)
  where
    go : (f : Option ℤ) (o : Order) → order_by_id id o ≡ true → RowStep o (with_amounts amount f o)
    go none o h = unmoved o _ refl refl refl refl refl refl refl
    go (some x) o h = unmoved o _ refl refl refl refl refl refl refl
