-- ===== src/Payments/Blocked.antt =====
-- internal/service/order.go: an intent that no request can claim stays so, behind the provider's answer.
use vn_bot.Base.{
  ℕ, ◌+◌, ◌≡◌, ◌≢◌, refl, String, Bool, true, false, Option, none, some, List, [], ◌∷◌, arith, ◌==◌,
  if◌then◌else◌, str_eq, count, update_where,
}
use vn_bot.Store.{
  payment_details_save_failed, Returns, bind-Returns, update-Returns, pure-Returns, Order, Tables,
  M, Result, ok, err, Error, Alert, pure, raise, ◌>>=◌, attempt, Keeps, Preorder, bind-Keeps,
  pure-Keeps, raise-Keeps, if-Keeps, query-Keeps, update-Keeps,
}
use vn_bot.Orders.Rows.{update_orders}
use vn_bot.Orders.Intent.{
  may_mark, mark_payment_creation_uncertain, save_payment_details, with_details,
}
use vn_bot.Payments.Outside.{Outside, Transaction, CreateReply, refused, failed, empty, created}
use vn_bot.Payments.Request.{link, alarm, continue_or}
use vn_bot.Payments.Provider.{
  parse_expires_in, payment_url, save_link, with_expiry, with_transaction_id, after_call,
}

-- No request can claim the intent of this id.
abbrev pub Blocked : ℕ → Tables → Type 0
Blocked id t = count (may_mark id true) t.orders ≡ 0

abbrev pub StaysBlocked : ℕ → Tables → Tables → Type 0
StaysBlocked id t u = Blocked id t → Blocked id u

Blocked-preorder : (id : ℕ) → Preorder (StaysBlocked id)
Blocked-preorder id = record { same = λ t h. h; chain = λ {t} {u} {v} h k b. k (h b) }

count-update_where-none :
    (p q : Order → Bool) (f : Order → Order) (xs : List Order)
    → ((o : Order) → p o ≡ false → p (f o) ≡ false)
    → count p xs ≡ 0
    → count p (update_where q f xs) ≡ 0
count-update_where-none p q f [] h c = refl
count-update_where-none p q f (x ∷ xs) h c = ground (arith, h x, count-update_where-none p q f xs h)

count-update_where-all :
    (p : Order → Bool) (f : Order → Order) (xs : List Order)
    → ((o : Order) → p (f o) ≡ false)
    → count p (update_where p f xs) ≡ 0
count-update_where-all p f [] h = refl
count-update_where-all p f (x ∷ xs) h = ground (arith, h x, count-update_where-all p f xs h)

details_block :
    (id : ℕ) (payment url : String) (deadline : ℕ) (o : Order)
    → str_eq payment "" ≡ false
    → may_mark id true (with_details payment url deadline o) ≡ false
details_block id payment url deadline o h = ground arith

-- A claim leaves nothing to claim, and fails where there was nothing.
pub claim_blocks :
    (id : ℕ) → Returns (λ _. Unit {0}) (mark_payment_creation_uncertain id true) (λ _. Blocked id)
unfolding mark_payment_creation_uncertain update_orders
claim_blocks id =
    bind-Returns {Q = λ _. Blocked id} _ _
      (update-Returns _
        (λ t p. count-update_where-all (may_mark id true) _ t.orders (λ o. ground arith)))
      (λ n. pure-Returns _ (λ t p. p))

pub claim_fails :
    (id : ℕ) → Returns (Blocked id) (mark_payment_creation_uncertain id true) (λ b _. b ≡ false)
unfolding mark_payment_creation_uncertain update_orders
claim_fails id =
    bind-Returns {Q = λ n _. n ≡ 0} _ _ (update-Returns _ (λ t p. p))
      (λ n. pure-Returns _ (λ t p. rw p refl))

module _ (id : ℕ) where
  chained :
      {A B : Type 0} {m : M A} {f : A → M B}
      → Keeps (StaysBlocked id) m
      → ((a : A) → Keeps (StaysBlocked id) (f a))
      → Keeps (StaysBlocked id) (m >>= f)
  chained h k = bind-Keeps (Blocked-preorder id) _ _ h k

  done : {A : Type 0} (a : A) → Keeps (StaysBlocked id) (pure a)
  done a = pure-Keeps (Blocked-preorder id) a

  raised : {A : Type 0} (e : Error) → Keeps (StaysBlocked id) (raise {A = A} e)
  raised e = raise-Keeps (Blocked-preorder id) e

  branched :
      {A : Type 0} (b : Bool) {m n : M A}
      → Keeps (StaysBlocked id) m
      → Keeps (StaysBlocked id) n
      → Keeps (StaysBlocked id) (if b then m else n)
  branched b h k = if-Keeps (Blocked-preorder id) b h k

  alarmed : (a : Alert) (e : Error) (o : Option Order) → Keeps (StaysBlocked id) (alarm a e o)
  alarmed a e o = record { at = λ w h. h }

  detailed :
      (o : Order) (payment url : String) (deadline : ℕ)
      → str_eq payment "" ≡ false
      → Keeps (StaysBlocked id) (save_payment_details o.id payment url deadline)
  unfolding save_payment_details update_orders
  detailed o payment url deadline h = chained (query-Keeps (Blocked-preorder id) _) (λ taken.
      chained
        (branched taken (raised _) (
          update-Keeps (Blocked-preorder id) _ (λ t.
            count-update_where-none (may_mark id true) _ (with_details payment url deadline)
              t.orders (λ r e. details_block id payment url deadline r h))))
        (λ n. branched (n == 0) (raised _) (done tt)))

  settled :
      (o : Order) (payment url : String) (deadline : ℕ) (r : Result (Unit {0}))
      → Keeps (StaysBlocked id) (
          continue_or payment_details_save_failed
            (some o)
            (λ _. link payment url deadline (with_details payment url deadline o))
            r)
  settled o payment url deadline (err e) = alarmed payment_details_save_failed e (some o)
  settled o payment url deadline (ok v) = done _

  details-Keeps :
      (o : Order) (payment url : String) (deadline : ℕ)
      → str_eq payment "" ≡ false
      → Keeps (StaysBlocked id) (save_link o payment url deadline)
  unfolding save_link
  details-Keeps o payment url deadline h =
      chained {m = attempt (save_payment_details o.id payment url deadline)}
        (record { at = (detailed o payment url deadline h).at }) (settled o payment url deadline)

  expiry-Keeps :
      (env : Outside) (o : Order) (payment url : String) (seconds : Option ℕ)
      → str_eq payment "" ≡ false
      → Keeps (StaysBlocked id) (with_expiry env o payment url seconds)
  unfolding with_expiry
  expiry-Keeps env o payment url none h = alarmed _ _ _
  expiry-Keeps env o payment url (some s) h = details-Keeps o payment url (env.answered_at + s) h

  transaction-Keeps :
      (env : Outside) (o : Order) (t : Transaction) (found : Option String)
      → ((p : String) → found ≡ some p → str_eq p "" ≡ false)
      → Keeps (StaysBlocked id) (with_transaction_id env o t found)
  unfolding with_transaction_id
  transaction-Keeps env o t none h = alarmed _ _ _
  transaction-Keeps env o t (some p) h =
      branched (str_eq (payment_url env t) "") (alarmed _ _ _)
        (expiry-Keeps env o p (payment_url env t) (parse_expires_in env t.expires_in) (h p refl))

  pub answer-Keeps :
      (env : Outside) (o : Order) (reply : CreateReply)
      → reply ≢ refused
      → ((s p : String) → env.uuid_v4 s ≡ some p → str_eq p "" ≡ false)
      → Keeps (StaysBlocked id) (after_call env o reply)
  unfolding after_call
  answer-Keeps env o refused n h = absurd (n refl)
  answer-Keeps env o failed n h = alarmed _ _ _
  answer-Keeps env o empty n h = alarmed _ _ _
  answer-Keeps env o (created t) n h =
      transaction-Keeps env o t (env.uuid_v4 (env.trim t.transaction_id))
        (h (env.trim t.transaction_id))
