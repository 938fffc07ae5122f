-- ===== src/Caches/Elements.antt =====
-- internal/bot/cache.go: the state of `SubscriptionCache` and its operations. An element of the list
-- is an address; `memory` has what each address points to, also those that left the list. The list
-- goes from the least to the most recently used. Each critical section is one function; the counters
-- of hits and misses are left out.
use vn_bot.Base.{
  ℕ, suc, ◌+◌, String, Bool, true, false, not, Option, none, some, List, [], ◌∷◌, ◌++◌, ℤ, ltb, leb,
  ◌==◌, if◌then◌else◌, str_eq, length, filter,
}
use vn_bot.Base.Maps.{Entry, integer_key, text_key, lookup, store, delete}
use vn_bot.Store.{Subscription}

-- `lruItem` with its `cacheEntry`.
pub record Item : Type 0 where
  pub telegram_id : ℤ
  pub sub_id : String
  pub sub : Subscription
  pub expires_at : ℕ

pub record Cache : Type 0 where
  pub items : List (Entry ℤ ℕ)
  pub by_sub_id : List (Entry String ℕ)
  pub lru : List ℕ
  pub memory : ℕ → Item
  pub next : ℕ  -- an address that no element had
  pub max_size : ℕ
  pub ttl : ℕ

-- `NewSubscriptionCache`, over a memory in which no address is taken.
abbrev pub new_subscription_cache : (ℕ → Item) → ℕ → ℕ → Cache
new_subscription_cache memory max_size ttl = record {
  items = [];
  by_sub_id = [];
  lru = [];
  memory = memory;
  next = 0;
  max_size = max_size;
  ttl = ttl;
}

abbrev pub has : ℕ → List ℕ → Bool
has e [] = false
has e (x ∷ xs) = if x == e then true else has e xs

abbrev pub without : ℕ → List ℕ → List ℕ
without e = filter (λ x. not (x == e))

-- `list.MoveToBack`.
abbrev pub move_to_back : ℕ → Cache → Cache
move_to_back e c = if has e c.lru then record c { lru = without e c.lru ++ e ∷ [] } else c

abbrev pub write : ℕ → Item → (ℕ → Item) → ℕ → Item
write e i m x = if x == e then i else m x

-- `removeElement`.
abbrev pub remove_element : ℕ → Cache → Cache
remove_element e c = record c {
  lru = without e c.lru;
  items = delete (c.memory e).telegram_id c.items;
  by_sub_id =
      if str_eq (c.memory e).sub_id "" then c.by_sub_id else delete (c.memory e).sub_id c.by_sub_id;
}

-- `now.After(expiresAt)`.
abbrev pub is_past : ℕ → Item → Bool
is_past now i = ltb i.expires_at now

-- The first section of `Get`: the subscription, and whether it has expired.
abbrev pub read : Cache → Option ℕ → ℕ → Option (Bool × Subscription)
read c none now = none
read c (some e) now = some (is_past now (c.memory e), (c.memory e).sub)

abbrev pub drop_found : Option ℕ → ℕ → Cache → Cache
drop_found none now c = c
drop_found (some e) now c = if is_past now (c.memory e) then remove_element e c else c

-- The section of `Get` for an entry that was found expired.
unfoldable pub drop_expired : ℤ → ℕ → Cache → Cache
drop_expired t now c = drop_found (lookup t c.items) now c

abbrev pub use_found : Option ℕ → Cache → Cache
use_found none c = c
use_found (some e) c = move_to_back e c

-- The section of `Get` for an entry that was found alive.
unfoldable pub touch : ℤ → Cache → Cache
touch t c = use_found (lookup t c.items) c

abbrev pub get_read : ℤ → ℕ → Option (Bool × Subscription) → Cache → Option Subscription × Cache
get_read t later none c = (none, c)
get_read t later (some (true, sub)) c = (none, drop_expired t later c)
get_read t later (some (false, sub)) c = (some sub, touch t c)

-- `Get`, with the clock at its two readings, when no other call comes in between.
unfoldable pub get : ℤ → ℕ → ℕ → Cache → Option Subscription × Cache
get t now later c = get_read t later (read c (lookup t c.items) now) c

abbrev pub new_item : ℤ → Subscription → ℕ → ℕ → Item
new_item t sub now ttl = record {
  telegram_id = t;
  sub_id = sub.subscription_id;
  sub = sub;
  expires_at = now + ttl;
}

-- `Set` for a user that has an element.
abbrev pub set_known : ℕ → Subscription → ℕ → Cache → Cache
set_known e sub now c = move_to_back e (record c {
  memory =
      write e
        (record (c.memory e) { sub_id = sub.subscription_id; sub = sub; expires_at = now + c.ttl })
        c.memory;
  by_sub_id = store sub.subscription_id e (delete (c.memory e).sub_id c.by_sub_id);
})

abbrev pub push_back : ℤ → Subscription → ℕ → Cache → Cache
push_back t sub now c = record c {
  lru = c.lru ++ c.next ∷ [];
  memory = write c.next (new_item t sub now c.ttl) c.memory;
  next = suc c.next;
  items = store t c.next c.items;
  by_sub_id = store sub.subscription_id c.next c.by_sub_id;
}

abbrev pub evict_first : List ℕ → Cache → Cache
evict_first [] c = c
evict_first (e ∷ _) c = remove_element e c

abbrev pub make_room : Cache → Cache
make_room c = if leb c.max_size (length c.items) then evict_first c.lru c else c

abbrev pub set_found : Option ℕ → ℤ → Subscription → ℕ → Cache → Cache
set_found (some e) t sub now c = set_known e sub now c
set_found none t sub now c = push_back t sub now (make_room c)

abbrev pub set_section : ℤ → Subscription → ℕ → Cache → Cache
set_section t sub now c = set_found (lookup t c.items) t sub now c

-- `Set`; nothing is stored for a nil subscription.
unfoldable pub set : ℤ → Option Subscription → ℕ → Cache → Cache
set t none now c = c
set t (some sub) now c = set_section t sub now c

abbrev pub remove_found : Option ℕ → Cache → Cache
remove_found none c = c
remove_found (some e) c = remove_element e c

-- `Invalidate`.
unfoldable pub invalidate : ℤ → Cache → Cache
invalidate t c = remove_found (lookup t c.items) c

-- `InvalidateBySubID`.
unfoldable pub invalidate_by_sub_id : String → Cache → Cache
invalidate_by_sub_id x c = remove_found (lookup x c.by_sub_id) c

-- `Clear`.
abbrev pub clear : Cache → Cache
clear c = record c { items = []; by_sub_id = []; lru = [] }

-- The loop of `Cleanup`, over the elements that stood in the list when it began.
unfoldable pub cleanup_from : ℕ → List ℕ → Cache → Cache
cleanup_from now [] c = c
cleanup_from now (e ∷ es) c =
    cleanup_from now es (if is_past now (c.memory e) then remove_element e c else c)

-- `Cleanup`.
abbrev pub cleanup : ℕ → Cache → Cache
cleanup now c = cleanup_from now c.lru c
