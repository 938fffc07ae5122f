-- ===== src/Payments/Follows/Request.antt =====
-- internal/service/order.go: the request of a payment link follows the diagram of Orders.Diagram too,
-- if the subscription service does.
use vn_bot.Base.{ℕ, String, true, false, not, ◌||◌, Option, none, some, ℤ, pos, ltb_ℤ, ◌==◌, str_eq}
use vn_bot.Store.{
  Order, Subscription, Product, M, Result, ok, err, Alert, is_pending, is_expired, attempt, ◌>>=◌,
  subscription_not_found,
}
use vn_bot.Orders.Follow.{FollowsM, asked, done, needed, chained, branched}
use vn_bot.Orders.Follow.Intent.{
  find_pending_payment_order-Follows, find_or_create_pending_payment_order-Follows,
  mark_payment_creation_uncertain-Follows, save_payment_details-Follows,
}
use vn_bot.Payments.Outside.{Outside, Transaction, CreateReply, refused, failed, empty, created}
use vn_bot.Payments.Request.{
  Outcome, continue_or, get_by_telegram_id, is_sellable, plan_is_sellable, if_sellable,
  has_payment_id, has_valid_link, stored_link, reuse_link, link_by,
}
use vn_bot.Payments.Provider.{
  payment_url, save_link, with_expiry, with_transaction_id, after_call, provider_call,
  call_provider, lost_claim, after_claim, claim_and_call,
}
use vn_bot.Payments.Link.{
  open_intent, create_intent, with_intent, with_payer, resolve_payer, with_canonical,
  request_payment,
}
use vn_bot.Payments.Follows.{
  attempted, notified, called, alerted, order_read, product_read, plan_read,
}

continued :
    {A : Type 0} (a : Alert) (o : Option Order) {f : A → M Outcome}
    → ((v : A) → FollowsM (f v))
    → (r : Result A) → FollowsM (continue_or a o f r)
continued a o h (err e) = alerted (done _)
continued a o h (ok v) = h v

tried :
    {A : Type 0} {m : M A} (a : Alert) (o : Option Order) {f : A → M Outcome}
    → FollowsM m
    → ((v : A) → FollowsM (f v))
    → FollowsM (attempt m >>= continue_or a o f)
tried a o h k = chained (attempted h) (continued a o k)

payer_read : (telegram : ℤ) → FollowsM (get_by_telegram_id telegram)
unfolding get_by_telegram_id
payer_read telegram = chained (asked _) (λ found. needed found _)

sold : (p : Product) (o : Option Order) {m : M Outcome} → FollowsM m → FollowsM (if_sellable p o m)
unfolding if_sellable
sold p o h =
    branched (not (is_sellable p)) (done _)
      (tried _ o (plan_read p.plan_id) (λ plan. branched (plan_is_sellable plan) h (done _)))

reused : (env : Outside) {m : M (Unit {0})} (o : Order) → FollowsM m → FollowsM (reuse_link env m o)
unfolding reuse_link
reused env {m} o h = go (env.uuid_v4 (env.trim o.provider_payment_id))
  where
    stored : (payment : String) (deadline : Option ℕ) → FollowsM (stored_link payment deadline o)
    stored payment (some deadline) = done _
    stored payment none = done _

    go : (found : Option String) → FollowsM (link_by m o found)
    go none = chained h (λ _. done _)
    go (some payment) = stored payment o.payment_expires_at

saved :
    (o : Order) (payment url : String) (deadline : ℕ) → FollowsM (save_link o payment url deadline)
unfolding save_link
saved o payment url deadline =
    tried _ (some o) (save_payment_details-Follows o.id payment url deadline) (λ _. done _)

expiring :
    (env : Outside) (o : Order) (payment url : String) (seconds : Option ℕ)
    → FollowsM (with_expiry env o payment url seconds)
unfolding with_expiry
expiring env o payment url none = alerted (done _)
expiring env o payment url (some seconds) = saved o payment url _

identified :
    (env : Outside) (o : Order) (t : Transaction) (found : Option String)
    → FollowsM (with_transaction_id env o t found)
unfolding with_transaction_id
identified env o t none = alerted (done _)
identified env o t (some payment) =
    branched (str_eq (payment_url env t) "") (alerted (done _)) (expiring env o payment _ _)

answered : (env : Outside) (o : Order) (reply : CreateReply) → FollowsM (after_call env o reply)
unfolding after_call
answered env o refused =
    alerted (tried _ (some o) (mark_payment_creation_uncertain-Follows o.id false) (λ _. done _))
answered env o failed = alerted (done _)
answered env o empty = alerted (done _)
answered env o (created t) = identified env o t _

lost : (env : Outside) (o : Order) → FollowsM (lost_claim env o)
unfolding lost_claim
lost env o =
    branched o.payment_creation_uncertain (done _)
      (branched (has_valid_link env o) (reused env o (done tt)) (done _))

claimed : (env : Outside) (product : Product) (o : Order) → FollowsM (claim_and_call env product o)
unfolding claim_and_call after_claim call_provider
claimed env product o = tried _ (some o) (mark_payment_creation_uncertain-Follows o.id true) (λ won.
    branched won
      (chained (called _) (λ _. answered env o (env.create_transaction (provider_call product o))))
      (tried _ (some o) (order_read o.id) (lost env)))

opened : (env : Outside) (product : Product) (o : Order) → FollowsM (open_intent env product o)
unfolding open_intent
opened env product o = branched o.payment_creation_uncertain (alerted (done _)) (
    branched (has_valid_link env o) (reused env o (notified _))
      (branched (has_payment_id env o) (done _) (sold product (some o) (claimed env product o))))

intended :
    (env : Outside) (product : Product) (sub : Subscription)
    → FollowsM (create_intent env product sub)
unfolding create_intent
intended env product sub = sold product none (
    tried _ none
      (find_or_create_pending_payment_order-Follows sub.id product.id product.price_cents
        product.currency env.now)
      (opened env product))

paying :
    (env : Outside) (product : Product) (sub : Subscription) → FollowsM (with_payer env product sub)
unfolding with_payer with_intent
paying env product sub =
    tried _ none (find_pending_payment_order-Follows sub.id product.id env.now) go
  where
    go : (found : Option Order) → FollowsM (with_intent env product sub found)
    go none = intended env product sub
    go (some o) =
        branched (is_expired o.status) (intended env product sub)
          (branched (is_pending o.status) (opened env product o) (done _))

resolved :
    (env : Outside) (telegram : ℤ) (username : String) (product : Product) (r : Result Subscription)
    → FollowsM (env.get_or_create_subscription telegram username)
    → FollowsM (resolve_payer env telegram username product r)
unfolding resolve_payer
resolved env telegram username product (err subscription_not_found) h =
    sold product none
      (branched env.has_sub_service (tried _ none h (paying env product)) (alerted (done _)))
resolved env telegram username product (err e) h = alerted (done _)
resolved env telegram username product (ok sub) h = paying env product sub

pub request_payment-Follows :
    (env : Outside) (telegram : ℤ) (username : String) (product : ℕ)
    → FollowsM (env.get_or_create_subscription telegram username)
    → FollowsM (request_payment env telegram username product)
unfolding request_payment with_canonical
request_payment-Follows env telegram username product h =
    branched (not env.payment_enabled) (done _) (
      branched (not (ltb_ℤ (pos 0) telegram) || product == 0) (done _) (
        tried _ none (product_read product) (λ canonical.
          branched (str_eq canonical.currency "XTR") (done _) (
            chained (attempted (payer_read telegram))
              (λ r. resolved env telegram username canonical r h)))))
