-- ===== src/Payments/Quiet.antt =====
-- internal/service/order.go: the parts of `requestPayment` that do not call the provider.
use vn_bot.Base.{
  ℕ, ◌+◌, ◌≡◌, refl, ◌∙◌, String, Bool, true, false, Option, none, some, List, arith, ◌==◌,
  if◌then◌else◌, str_eq,
}
use vn_bot.Store.{
  clear_payment_uncertainty_failed, provider_rejected, invalid_provider_id, Order, Tables, World, M,
  Result, ok, err, Error, Alert, ProviderCall, pure, raise, go_on, ◌>>=◌, attempt, notify, require,
  stmt, query, update,
}
use vn_bot.Orders.Rows.{get_order_by_id, update_orders}
use vn_bot.Orders.Intent.{mark_payment_creation_uncertain, save_payment_details}
use vn_bot.Payments.Outside.{Outside, Transaction, CreateReply, refused, failed, empty, created}
use vn_bot.Payments.Request.{
  Outcome, refuse, alarm, continue_or, has_valid_link, stored_link, link_by, reuse_link,
}
use vn_bot.Payments.Provider.{
  parse_expires_in, payment_url, save_link, with_expiry, with_transaction_id, after_call,
  lost_claim,
}

-- No call of the provider.
pub record Quiet {A : Type 0} (m : M A) : Type 0 where
  pub at : (w : World) → (m w).1.calls ≡ w.calls

go_on-Quiet :
    {A B : Type 0} (calls : List ProviderCall) (r : Result A × World) (f : A → M B)
    → r.1.calls ≡ calls
    → ((a : A) → Quiet (f a))
    → (go_on r f).1.calls ≡ calls
go_on-Quiet calls (ok a, w) f h k = (k a).at w ∙ h
go_on-Quiet calls (err e, w) f h k = h

pub bound :
    {A B : Type 0} {m : M A} {f : A → M B} → Quiet m → ((a : A) → Quiet (f a)) → Quiet (m >>= f)
bound {m = m} {f = f} h k = record { at = λ w. go_on-Quiet w.calls (m w) f (h.at w) k }

pub still : {A : Type 0} (a : A) → Quiet (pure a)
still a = record { at = λ w. refl }

failing : {A : Type 0} (e : Error) → Quiet (raise {A = A} e)
failing e = record { at = λ w. refl }

noted : (a : Alert) → Quiet (notify a)
noted a = record { at = λ w. refl }

pub tried : {A : Type 0} {m : M A} → Quiet m → Quiet (attempt m)
tried h = record { at = λ w. h.at w }

split : {A : Type 0} (b : Bool) {m n : M A} → Quiet m → Quiet n → Quiet (if b then m else n)
split true h k = h
split false h k = k

needed : {A : Type 0} (o : Option A) (e : Error) → Quiet (require o e)
needed none e = failing e
needed (some a) e = still a

stated : Quiet stmt
unfolding stmt
stated = record { at = λ w. ground arith }

asked : {A : Type 0} (f : Tables → A) → Quiet (query f)
unfolding query
asked f = bound stated (λ _. record { at = λ w. refl })

changed : (p : Order → Bool) (f : Order → Order) → Quiet (update_orders p f)
unfolding update_orders update
changed p f = bound stated (λ _. record { at = λ w. refl })

pub marked : (id : ℕ) (b : Bool) → Quiet (mark_payment_creation_uncertain id b)
unfolding mark_payment_creation_uncertain
marked id b = bound (changed _ _) (λ n. still _)

pub refusing : (e : Error) (o : Option Order) → Quiet (refuse e o)
refusing e o = record { at = λ w. refl }

pub alarming : (a : Alert) (e : Error) (o : Option Order) → Quiet (alarm a e o)
alarming a e o = record { at = λ w. refl }

pub continued :
    {A : Type 0} (a : Alert) (o : Option Order) {f : A → M Outcome}
    → ((v : A) → Quiet (f v))
    → (r : Result A) → Quiet (continue_or a o f r)
continued a o h (err e) = alarming a e o
continued a o h (ok v) = h v

saved : (o : Order) (payment url : String) (deadline : ℕ) → Quiet (save_link o payment url deadline)
unfolding save_link save_payment_details
saved o payment url deadline =
    bound
      (tried (
        bound (asked _) (λ taken.
          bound (split taken (failing _) (changed _ _))
            (λ n. split (n == 0) (failing _) (still tt)))))
      (continued _ (some o) (λ _. still _))

pub lost : (env : Outside) (o : Order) → Quiet (lost_claim env o)
unfolding lost_claim reuse_link
lost env o =
    split o.payment_creation_uncertain (still _) (
      split (has_valid_link env o) (linked (env.uuid_v4 (env.trim o.provider_payment_id)))
        (still _))
  where
    stored : (payment : String) (deadline : Option ℕ) → Quiet (stored_link payment deadline o)
    stored payment (some deadline) = still _
    stored payment none = still _

    linked : (found : Option String) → Quiet (link_by (pure tt) o found)
    linked none = bound (still tt) (λ _. refusing invalid_provider_id (some o))
    linked (some payment) = stored payment o.payment_expires_at

identified :
    (env : Outside) (o : Order) (t : Transaction) (found : Option String)
    → Quiet (with_transaction_id env o t found)
unfolding with_transaction_id with_expiry
identified env o t none = alarming _ _ _
identified env o t (some payment) =
    split (str_eq (payment_url env t) "") (alarming _ _ _)
      (expiring (parse_expires_in env t.expires_in))
  where
    expiring : (seconds : Option ℕ) → Quiet (with_expiry env o payment (payment_url env t) seconds)
    expiring none = alarming _ _ _
    expiring (some s) = saved o payment (payment_url env t) (env.answered_at + s)

pub answered : (env : Outside) (o : Order) (reply : CreateReply) → Quiet (after_call env o reply)
unfolding after_call
answered env o refused = bound (noted _) (λ _. bound (tried (marked o.id false)) (
    continued clear_payment_uncertainty_failed (some o) (λ _. refusing provider_rejected (some o))))
answered env o failed = alarming _ _ _
answered env o empty = alarming _ _ _
answered env o (created t) = identified env o t (env.uuid_v4 (env.trim t.transaction_id))

pub order_asked : (id : ℕ) → Quiet (get_order_by_id id)
unfolding get_order_by_id
order_asked id = bound (asked _) (λ found. needed found _)
