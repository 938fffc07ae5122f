-- ===== src/Terms/Once.antt =====
-- internal/service/subscription_reminders.go: calls of SendExpiryReminder one after another.
use vn_bot.Base.{
  ℕ, ◌≡◌, ◌≢◌, refl, ◌∙◌, Bool, true, false, Option, none, some, List, [], ◌∷◌, arith, inl, inr,
  Bool-cases, ==_iff,
}
use vn_bot.Store.{
  Subscription, Tables, World, Result, ok, err, go_on, send_failed, Keeps, bind-Keeps, if-Keeps,
  raise-Keeps, pure-Keeps, catch-Keeps, Returns, Post, bind-Returns, if-Returns, pure-Returns,
  raise-Returns, Returns-ok, always-Returns, weaken-Returns,
}
use vn_bot.Terms.Reminders.{
  Window, three_days, one_day, three_hours, claim_reminder, send, claim_and_send, send_before,
  is_zero_id, send_expiry_reminder,
}
use vn_bot.Terms.Reminded.{
  Taken, Stays, Stays-preorder, same_window, same_reminder, claim-Keeps, release-Keeps,
  claim-Returns, claimed-Returns,
}

pub record ReminderCall : Type 0 where
  pub sub : Subscription
  pub window : Window
  pub bot : Option Bool

unfoldable pub run_reminders : List ReminderCall → World → World
run_reminders [] w = w
run_reminders (c ∷ rest) w = run_reminders rest (send_expiry_reminder c.sub c.window c.bot w).1

window-same : (w v : Window) → same_window w v ≡ true → v ≡ w
window-same three_days three_days h = refl
window-same one_day one_day h = refl
window-same three_hours three_hours h = refl
window-same three_days one_day h = absurd (ground (arith, h))
window-same three_days three_hours h = absurd (ground (arith, h))
window-same one_day three_days h = absurd (ground (arith, h))
window-same one_day three_hours h = absurd (ground (arith, h))
window-same three_hours three_days h = absurd (ground (arith, h))
window-same three_hours one_day h = absurd (ground (arith, h))

module _ (id : ℕ) (w : Window) (e : ℕ) where
  send-Keeps :
      (id' : ℕ) (v : Window) (e' : ℕ) (delivered claimed : Bool)
      → same_reminder id w e id' v e' ≡ false
      → Keeps (Stays id w e) (send id' v e' delivered claimed)
  send-Keeps id' v e' delivered false d = pure-Keeps (Stays-preorder id w e) false
  send-Keeps id' v e' delivered true d =
      if-Keeps (Stays-preorder id w e) delivered (pure-Keeps (Stays-preorder id w e) true) (
        bind-Keeps (Stays-preorder id w e) _ _
          (catch-Keeps (Stays-preorder id w e) _ _ (release-Keeps id w e id' v e' d)
            (λ _. pure-Keeps (Stays-preorder id w e) tt))
          (λ _. raise-Keeps (Stays-preorder id w e) send_failed))

  -- A reminder that is taken is not claimed again, so nothing is released.
  not_released :
      (delivered : Bool) (r : Result Bool × World)
      → Taken id w e r.1.tables
      → Post (λ b t. b ≡ false) r
      → Taken id w e (go_on r (send id w e delivered)).1.tables
  not_released delivered (ok false, u) p q = p
  not_released delivered (ok true, u) p q = absurd (ground (arith, q))
  not_released delivered (err x, u) p q = p

  claim_and_send-Keeps :
      (id' : ℕ) (v : Window) (e' : ℕ) (delivered : Bool)
      → Keeps (Stays id w e) (claim_and_send id' v e' delivered)
  claim_and_send-Keeps id' v e' delivered = elim (Bool-cases (same_reminder id w e id' v e')) [
    | inr d ↦
        bind-Keeps (Stays-preorder id w e) _ _ (claim-Keeps id w e id' v e')
          (λ b. send-Keeps id' v e' delivered b d)
    | inl d ↦
        let same_id : id' ≡ id = ground (arith, d, ==_iff id' id) in
        let same_end : e' ≡ e = ground (arith, d, ==_iff e' e) in
        let same_w : v ≡ w = window-same w v (ground (arith, d)) in
        rw (same_id, same_end, same_w)
          (record {
            at = λ u p.
                not_released delivered (claim_reminder id w e u)
                  ((claim-Keeps id w e id w e).at u p) ((claim-Returns id w e).at u p);
          })
  ]

  send_before-Keeps :
      (id' : ℕ) (v : Window) (bot : Option Bool) (ends : Option ℕ)
      → Keeps (Stays id w e) (send_before id' v bot ends)
  send_before-Keeps id' v none ends = pure-Keeps (Stays-preorder id w e) false
  send_before-Keeps id' v (some b) none = pure-Keeps (Stays-preorder id w e) false
  send_before-Keeps id' v (some b) (some e') = claim_and_send-Keeps id' v e' b

  send_expiry_reminder-Keeps :
      (s : Subscription) (v : Window) (bot : Option Bool)
      → Keeps (Stays id w e) (send_expiry_reminder s v bot)
  unfolding send_expiry_reminder
  send_expiry_reminder-Keeps s v bot =
      if-Keeps (Stays-preorder id w e) (is_zero_id s.telegram_id)
        (pure-Keeps (Stays-preorder id w e) false) (send_before-Keeps s.id v bot s.expires_at)

  run_reminders-Taken :
      (calls : List ReminderCall) (u : World)
      → Taken id w e u.tables
      → Taken id w e (run_reminders calls u).tables
  unfolding run_reminders
  run_reminders-Taken [] u p = p
  run_reminders-Taken (c ∷ rest) u p =
      run_reminders-Taken rest (send_expiry_reminder c.sub c.window c.bot u).1
        ((send_expiry_reminder-Keeps c.sub c.window c.bot).at u p)

  -- What goes out is taken afterwards, and was not before.
  send-Returns :
      (delivered claimed : Bool)
      → Returns
          (λ t. claimed ≡ true → Taken id w e t)
          (send id w e delivered claimed)
          (λ b t. b ≡ true → Taken id w e t)
  send-Returns delivered false = pure-Returns false (λ t p h. absurd (ground (arith, h)))
  send-Returns false true =
      bind-Returns {Q = λ _ _. Unit {0}} _ _ (always-Returns _ (λ a t. tt))
        (λ _. raise-Returns send_failed)
  send-Returns true true = pure-Returns true (λ t p h. p h)

  send_taken-Returns :
      (delivered claimed : Bool)
      → Returns (λ t. claimed ≡ false) (send id w e delivered claimed) (λ b t. b ≡ false)
  send_taken-Returns delivered false = pure-Returns false (λ t p. refl)
  send_taken-Returns delivered true = record { at = λ u p. absurd (ground (arith, p)) }

-- The reminder of a term that has an end is taken.
abbrev pub Gone : ℕ → Window → Option ℕ → Tables → Type 0
Gone id w ends t = (e : ℕ) × (ends ≡ some e) × Taken id w e t

module _ (id : ℕ) (w : Window) where
  send_before-Returns :
      (bot : Option Bool) (ends : Option ℕ)
      → Returns (λ _. Unit {0}) (send_before id w bot ends) (λ b t. b ≡ true → Gone id w ends t)
  send_before-Returns none ends = pure-Returns false (λ t p h. absurd (ground (arith, h)))
  send_before-Returns (some d) none = pure-Returns false (λ t p h. absurd (ground (arith, h)))
  send_before-Returns (some d) (some e) =
      weaken-Returns
        (bind-Returns {Q = λ b t. b ≡ true → Taken id w e t} _ _ (claimed-Returns id w e)
          (send-Returns id w e d))
        (λ b t p h. (e, refl, p h))

  send_before_again :
      (bot : Option Bool) (ends : Option ℕ)
      → Returns (Gone id w ends) (send_before id w bot ends) (λ b t. b ≡ false)
  send_before_again none ends = pure-Returns false (λ t p. refl)
  send_before_again (some d) none = pure-Returns false (λ t p. refl)
  send_before_again (some d) (some e) =
      bind-Returns {Q = λ b t. b ≡ false} _ _
        (record { at = λ u p. (claim-Returns id w e).at u (taken_end u.tables p) })
        (send_taken-Returns id w e d)
    where
      taken_end : (t : Tables) → Gone id w (some e) t → Taken id w e t
      taken_end t (x, same, p) = let same_end : e ≡ x = ground (arith, same) in rw same_end p

module _ (s : Subscription) (w : Window) (bot : Option Bool) where
  sent-Returns :
      Returns
        (λ _. Unit {0})
        (send_expiry_reminder s w bot)
        (λ b t. b ≡ true → Gone s.id w s.expires_at t)
  unfolding send_expiry_reminder
  sent-Returns =
      if-Returns (is_zero_id s.telegram_id)
        (λ _. pure-Returns false (λ t p h. absurd (ground (arith, h))))
        (λ _. send_before-Returns s.id w bot s.expires_at)

  again-Returns :
      Returns (Gone s.id w s.expires_at) (send_expiry_reminder s w bot) (λ b t. b ≡ false)
  unfolding send_expiry_reminder
  again-Returns =
      if-Returns (is_zero_id s.telegram_id) (λ _. pure-Returns false (λ t p. refl))
        (λ _. send_before_again s.id w bot s.expires_at)

-- A reminder that went out does not go out again for the same subscription, window and end of the term,
-- whatever other reminders the bot handles in between, whether or not it delivers them, and whatever
-- statements fail.
pub reminder_sent_once :
    (s later : Subscription) (w : Window) (bot bot' : Option Bool) (calls : List ReminderCall)
    (u : World)
    → (send_expiry_reminder s w bot u).0 ≡ ok true
    → later.id ≡ s.id
    → later.expires_at ≡ s.expires_at
    → (send_expiry_reminder later w bot' (run_reminders calls (send_expiry_reminder s w bot u).1)).0
      ≢ ok true
reminder_sent_once s later w bot bot' calls u h same_row same_term k =
    let (e, ends, taken) = Returns-ok u (sent-Returns s w bot) tt h refl in
    let still = run_reminders-Taken s.id w e calls (send_expiry_reminder s w bot u).1 taken in
    let no =
      Returns-ok (run_reminders calls (send_expiry_reminder s w bot u).1)
        (again-Returns later w bot') (e, same_term ∙ ends, rw same_row still) k in
    absurd (ground (arith, no))
