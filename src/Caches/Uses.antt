-- ===== src/Caches/Uses.antt =====
-- internal/bot/cache.go: sequences of calls of `SubscriptionCache`, beside the list of `Rows`.
use vn_bot.Base.{
  ℕ, ◌≤◌, ◌≡◌, refl, ap, ◌∙◌, String, false, Option, none, some, List, [], ◌∷◌, All, ℤ, arith,
  str_eq,
}
use vn_bot.Base.Maps.{integer_key, text_key, lookup}
use vn_bot.Store.{Subscription}
use vn_bot.Caches.Elements.{
  Item, Cache, new_subscription_cache, get, set, invalidate, invalidate_by_sub_id, clear, cleanup,
}
use vn_bot.Caches.Linked.{Linked}
use vn_bot.Caches.Rows.{rows_of, rows, drop_user, get_row, set_row, drop_sub, drop_past}
use vn_bot.Caches.Refines.{Shows, unchanged, invalidate-Shows, get-Shows}
use vn_bot.Caches.Setting.{invalidate_by_sub_id-Shows, set_section-Shows}
use vn_bot.Caches.Sweep.{cleanup-Shows}

pub data Call : Type 0 where
  get_call : ℤ → ℕ → ℕ → Call
  set_call : ℤ → Option Subscription → ℕ → Call
  invalidate_call : ℤ → Call
  invalidate_sub_call : String → Call
  clear_call : Call
  cleanup_call : ℕ → Call

unfoldable pub call : Call → Cache → Option Subscription × Cache
call (get_call t now later) c = get t now later c
call (set_call t sub now) c = (none, set t sub now c)
call (invalidate_call t) c = (none, invalidate t c)
call (invalidate_sub_call x) c = (none, invalidate_by_sub_id x c)
call clear_call c = (none, clear c)
call (cleanup_call now) c = (none, cleanup now c)

-- The same on the list, for a size and a lifetime.
unfoldable pub list_call : ℕ → ℕ → Call → List Item → Option Subscription × List Item
list_call most ttl (get_call t now later) is = get_row t now is
list_call most ttl (set_call t none now) is = (none, is)
list_call most ttl (set_call t (some sub) now) is = (none, set_row most ttl t sub now is)
list_call most ttl (invalidate_call t) is = (none, drop_user t is)
list_call most ttl (invalidate_sub_call x) is = (none, drop_sub x is)
list_call most ttl clear_call is = (none, [])
list_call most ttl (cleanup_call now) is = (none, drop_past now is)

unfoldable pub run_calls : List Call → Cache → List (Option Subscription) × Cache
run_calls [] c = ([], c)
run_calls (k ∷ ks) c =
    let (answer, c') = call k c in let (answers, c'') = run_calls ks c' in (answer ∷ answers, c'')

unfoldable pub list_calls : ℕ → ℕ → List Call → List Item → List (Option Subscription) × List Item
list_calls most ttl [] is = ([], is)
list_calls most ttl (k ∷ ks) is =
    let (answer, is') = list_call most ttl k is in
    let (answers, is'') = list_calls most ttl ks is' in (answer ∷ answers, is'')

-- The clock does not go back within a call, and a subscription that is set has an identifier, which
-- belongs to the user it is set for.
abbrev pub IsProper : (String → ℤ) → Call → Type 0
IsProper owner (get_call t now later) = now ≤ later
IsProper owner (set_call t (some sub) now) =
    (str_eq sub.subscription_id "" ≡ false) × (owner sub.subscription_id ≡ t)
IsProper owner _ = Unit

emptied-Linked : (owner : String → ℤ) (c : Cache) → Linked owner (clear c)
unfolding lookup
emptied-Linked owner c = record {
  users = λ t e h. absurd (ground arith);
  subs = λ x e h. absurd (ground arith);
  by_user = λ e h. absurd (ground arith);
  by_sub = λ e h. absurd (ground arith);
  named = λ e h. absurd (ground arith);
  owned = λ e h. absurd (ground arith);
  carried = λ e h. absurd (ground arith);
  used = λ e h. absurd (ground arith);
  distinct = tt;
  unique = tt;
  sizes = refl;
}

-- A new cache fits.
pub new_subscription_cache-Linked :
    (owner : String → ℤ) (memory : ℕ → Item) (max_size ttl : ℕ)
    → Linked owner (new_subscription_cache memory max_size ttl)
new_subscription_cache-Linked owner memory max_size ttl =
    emptied-Linked owner (new_subscription_cache memory max_size ttl)

cleared : (owner : String → ℤ) (c : Cache) → Shows owner c (clear c) []
unfolding rows_of
cleared owner c = record { linked = emptied-Linked owner c; shown = refl; size = refl; life = refl }

pub call-Shows :
    (owner : String → ℤ) (k : Call) (c : Cache)
    → Linked owner c
    → IsProper owner k
    → Shows owner c (call k c).1 (list_call c.max_size c.ttl k (rows c)).1
      × ((call k c).0 ≡ (list_call c.max_size c.ttl k (rows c)).0)
unfolding call list_call set
call-Shows owner (get_call t now later) c l p = get-Shows owner c l t now later p
call-Shows owner (set_call t none now) c l p = (unchanged owner c l, refl)
call-Shows owner (set_call t (some sub) now) c l p =
    (set_section-Shows owner c l t sub now p.0 p.1, refl)
call-Shows owner (invalidate_call t) c l p = (invalidate-Shows owner c l t, refl)
call-Shows owner (invalidate_sub_call x) c l p = (invalidate_by_sub_id-Shows owner c l x, refl)
call-Shows owner clear_call c l p = (cleared owner c, refl)
call-Shows owner (cleanup_call now) c l p = (cleanup-Shows owner now c l, refl)

-- From a state in which the maps, the list and the elements fit, and for calls that are proper
-- (the clock does not go back in a call, and a subscription that is set has an identifier of its
-- user), the cache answers every sequence of calls as one list of items does, from the least to
-- the most recently used, and leaves the rows of that list.
pub run_calls-Shows :
    (owner : String → ℤ) (ks : List Call) (c : Cache)
    → Linked owner c
    → All (IsProper owner) ks
    → ((run_calls ks c).0 ≡ (list_calls c.max_size c.ttl ks (rows c)).0)
      × (rows (run_calls ks c).1 ≡ (list_calls c.max_size c.ttl ks (rows c)).1)
unfolding run_calls list_calls
run_calls-Shows owner [] c l p = (refl, refl)
run_calls-Shows owner (k ∷ ks) c l p =
    let (s, answer) = call-Shows owner k c l p.0 in
    let (answers, left) = run_calls-Shows owner ks (call k c).1 s.linked p.1 in
    let at = λ (most ttl : ℕ) (is : List Item). list_calls most ttl ks is in
    let same : list_calls (call k c).1.max_size (call k c).1.ttl ks (rows (call k c).1)
        ≡ list_calls c.max_size c.ttl ks (list_call c.max_size c.ttl k (rows c)).1 =
      λ i. at (s.size i) (s.life i) (s.shown i) in
    (λ i. answer i ∷ (answers ∙ ap (λ r. r.0) same) i, left ∙ ap (λ r. r.1) same)
