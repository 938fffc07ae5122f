-- ===== src/Payments/Uncertain.antt =====
-- internal/service/order.go: how often the provider is asked for one payment intent.
use vn_bot.Base.{
  ℕ, ◌+◌, ◌≤◌, ◌≡◌, ◌≢◌, ◌⊎◌, inl, inr, ◌∙◌, String, Bool, true, false, some, List, ◌∷◌, arith,
  str_eq, length, ap,
}
use vn_bot.Store.{
  reload_pending_order_failed, claim_payment_creation_failed, Post, Order, Product, World, M,
  Result, ok, err, ProviderCall, ◌>>=◌, attempt,
}
use vn_bot.Orders.Rows.{get_order_by_id}
use vn_bot.Orders.Intent.{mark_payment_creation_uncertain}
use vn_bot.Payments.Outside.{Outside, refused}
use vn_bot.Payments.Request.{continue_or}
use vn_bot.Payments.Provider.{provider_call, call_provider, lost_claim, after_claim, claim_and_call}
use vn_bot.Payments.Quiet.{Quiet, bound, tried, marked, continued, lost, answered, order_asked}
use vn_bot.Payments.Blocked.{Blocked, claim_blocks, claim_fails, answer-Keeps}

-- No call, or one call behind which nothing is left to claim.
abbrev Spent : ℕ → List ProviderCall → World → Type 0
Spent id calls w =
    (w.calls ≡ calls) ⊎ ((c : ProviderCall) × (w.calls ≡ c ∷ calls) × Blocked id w.tables)

quiet_end :
    {A : Type 0} (id : ℕ) (calls : List ProviderCall) {m : M A} (w : World)
    → Quiet m
    → w.calls ≡ calls
    → Spent id calls (m w).1
quiet_end id calls w q h = inl (q.at w ∙ h)

claim_unwon :
    (env : Outside) (product : Product) (o : Order)
    → Quiet (
        attempt (get_order_by_id o.id)
        >>= continue_or reload_pending_order_failed (some o) (lost_claim env))
claim_unwon env product o =
    bound (tried (order_asked o.id)) (continued reload_pending_order_failed (some o) (lost env))

module _ (env : Outside) (product : Product) (o : Order)
    (taken : env.create_transaction (provider_call product o) ≢ refused)
    (named : (s p : String) → env.uuid_v4 s ≡ some p → str_eq p "" ≡ false) where
  claim_spends : (w : World) → Spent o.id w.calls (claim_and_call env product o w).1
  unfolding claim_and_call after_claim call_provider
  claim_spends w =
      go (mark_payment_creation_uncertain o.id true w) ((claim_blocks o.id).at w tt)
        ((marked o.id true).at w)
    where
      go :
          (r : Result Bool × World)
          → Post (λ _. Blocked o.id) r
          → r.1.calls ≡ w.calls
          → Spent o.id w.calls
              (continue_or claim_payment_creation_failed
                (some o)
                (after_claim env product o)
                r.0
                r.1).1
      go (err e, v) h k = inl k
      go (ok false, v) h k = inl ((claim_unwon env product o).at v ∙ k)
      go (ok true, v) h k =
          let c = provider_call product o in
          let v' : World = record v { calls = c ∷ v.calls } in
          inr (
            c,
            (answered env o (env.create_transaction c)).at v' ∙ ap (λ l. c ∷ l) k,
            (answer-Keeps o.id env o (env.create_transaction c) taken named).at v' h,
          )

Blocked-silent :
    (env : Outside) (product : Product) (o : Order) (w : World)
    → Blocked o.id w.tables
    → (claim_and_call env product o w).1.calls ≡ w.calls
unfolding claim_and_call after_claim
Blocked-silent env product o w b =
    go (mark_payment_creation_uncertain o.id true w) ((claim_fails o.id).at w b)
      ((marked o.id true).at w)
  where
    go :
        (r : Result Bool × World)
        → Post (λ b _. b ≡ false) r
        → r.1.calls ≡ w.calls
        → (continue_or claim_payment_creation_failed
            (some o)
            (after_claim env product o)
            r.0
            r.1).1.calls
          ≡ w.calls
    go (err e, v) h k = k
    go (ok false, v) h k = (claim_unwon env product o).at v ∙ k
    go (ok true, v) h k = absurd (cc h)

-- One request calls the provider once at most.
called_once :
    (env : Outside) (product : Product) (o : Order) (w : World)
    → length (claim_and_call env product o w).1.calls ≤ length w.calls + 1
unfolding claim_and_call after_claim call_provider
called_once env product o w =
    go (mark_payment_creation_uncertain o.id true w) ((marked o.id true).at w)
  where
    go :
        (r : Result Bool × World)
        → r.1.calls ≡ w.calls
        → length
            (continue_or claim_payment_creation_failed
              (some o)
              (after_claim env product o)
              r.0
              r.1).1.calls
          ≤ length w.calls + 1
    go (err e, v) k = ground (arith, ap length k)
    go (ok false, v) k = ground (arith, ap length ((claim_unwon env product o).at v ∙ k))
    go (ok true, v) k =
        let c = provider_call product o in
        let v' : World = record v { calls = c ∷ v.calls } in
        ground
          (arith, ap length ((answered env o (env.create_transaction c)).at v' ∙ ap (λ l. c ∷ l) k))

-- Of two requests for one payment intent at most one calls the provider, whatever statements fail and
-- whatever the provider answers, unless it refuses the first call: not behind a success, and not
-- behind a failure whose outcome is uncertain. A UUID that the first request gets is assumed not to be
-- the empty text.
pub one_call_for_an_intent :
    (env env' : Outside) (product product' : Product) (o : Order) (w : World)
    → env.create_transaction (provider_call product o) ≢ refused
    → ((s p : String) → env.uuid_v4 s ≡ some p → str_eq p "" ≡ false)
    → let w' = (claim_and_call env product o w).1 in
      length (claim_and_call env' product' o w').1.calls ≤ length w.calls + 1
one_call_for_an_intent env env' product product' o w taken named =
    let w' : World = (claim_and_call env product o w).1 in
    elim (claim_spends env product o taken named w) [
      | inl same ↦ ground (arith, ap length same, called_once env' product' o w')
      | inr (c, more, b) ↦
          ground (arith, ap length more, ap length (Blocked-silent env' product' o w' b))
    ]
