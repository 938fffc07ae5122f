-- ===== src/Orders/Journal/Aside.antt =====
-- The journal stands aside: its operations change no order and no subscription.
use vn_bot.Base.{ℕ, Bool, ◌&&◌, ◌≡◌, refl, ◌∙◌, Option, none, some, ◌==◌, any, inl, inr, Bool-cases}
use vn_bot.Store.{
  Order, Subscription, Product, Tables, JournalType, DedupFamily, JournalRow, Keeps, Preorder,
  pure-Keeps, bind-Keeps, catch-Keeps, query-Keeps, update-Keeps,
}
use vn_bot.Orders.Journal.{
  same_family, add_journal, record_journal, journal_payment, record_payment_journal,
}

abbrev pub SameRows : Tables → Tables → Type 0
SameRows t u = (u.orders ≡ t.orders) × (u.subscriptions ≡ t.subscriptions)

SameRows-preorder : Preorder SameRows
SameRows-preorder = record {
  same = λ t. (refl, refl);
  chain = λ {t} {u} {v} h k. (k.0 ∙ h.0, k.1 ∙ h.1);
}

pub record_journal-SameRows :
    (type : JournalType) (family : DedupFamily) (id : ℕ)
    → Keeps SameRows (record_journal type family id)
unfolding record_journal
record_journal-SameRows type family id =
    catch-Keeps SameRows-preorder _ _ (update-Keeps SameRows-preorder _ go)
      (λ _. pure-Keeps SameRows-preorder tt)
  where
    row : JournalRow
    row = record { type = type; family = family; order_id = id }

    go : (t : Tables) → SameRows t (add_journal row t).1
    go t =
        elim (Bool-cases (any (λ j. same_family j.family family && j.order_id == id) t.journal)) [
          | inl e ↦ rw e (refl, refl)
          | inr e ↦ rw e (refl, refl)
        ]

payment_journaled :
    (id : ℕ) (renewal : Bool) (o : Option Order) → Keeps SameRows (journal_payment id renewal o)
unfolding journal_payment
payment_journaled id renewal none = pure-Keeps SameRows-preorder tt
payment_journaled id renewal (some o) =
    bind-Keeps SameRows-preorder _ _ (record_journal-SameRows _ _ _)
      (λ _. record_journal-SameRows _ _ _)

pub record_payment_journal-SameRows :
    (id : ℕ) (prior : Subscription) (product : Product)
    → Keeps SameRows (record_payment_journal id prior product)
unfolding record_payment_journal
record_payment_journal-SameRows id prior product =
    catch-Keeps SameRows-preorder _ _
      (bind-Keeps SameRows-preorder _ _ (query-Keeps SameRows-preorder _) (payment_journaled id _))
      (λ _. pure-Keeps SameRows-preorder tt)
