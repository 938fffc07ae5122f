-- ===== src/AdminAuth/Limiter.antt =====
-- internal/adminauth/limiter.go: `allow`. The peer is the text that the address of the request gives;
-- `net.ParseIP` and `net.SplitHostPort` are not modelled.
use vn_bot.Base.{
  ℕ, ◌+◌, String, Bool, true, false, Option, none, some, is_some, List, ◌∷◌, ltb, leb,
  if◌then◌else◌, str_eq, find, filter, update_where, length,
}

pub record AttemptWindow : Type 0 where
  pub start : ℕ
  pub count : ℕ

-- An entry of the map from peers to their windows.
pub record Peer : Type 0 where
  pub name : String
  pub window : AttemptWindow

pub record Limiter : Type 0 where
  pub peers : List Peer
  pub global : AttemptWindow

-- A window is a minute long.
abbrev pub is_open : ℕ → AttemptWindow → Bool
is_open now w = ltb now (w.start + 60)

abbrev pub fresh_window : ℕ → AttemptWindow
fresh_window now = record { start = now; count = 0 }

abbrev pub current_window : ℕ → AttemptWindow → AttemptWindow
current_window now w = if is_open now w then w else fresh_window now

abbrev pub by_name : String → Peer → Bool
by_name name p = str_eq p.name name

abbrev pub one_more : AttemptWindow → AttemptWindow
one_more w = record w { count = w.count + 1 }

-- `l.peers[peer] = window`.
abbrev pub put : String → AttemptWindow → List Peer → List Peer
put name w ps =
    if is_some (find (by_name name) ps)
    then update_where (by_name name) (λ p. record p { window = w }) ps
    else record { name = name; window = w } ∷ ps

-- The last guard, with the window of the peer.
unfoldable pub admit : String → ℕ → AttemptWindow → List Peer → AttemptWindow → Bool × Limiter
admit name per_peer global ps w =
    if leb per_peer w.count
    then (false, record { peers = ps; global = global })
    else (true, record { peers = put name (one_more w) ps; global = one_more global })

unfoldable pub admit_peer :
    String → ℕ → ℕ → AttemptWindow → List Peer → Option Peer → Bool × Limiter
unfolding admit
admit_peer name now per_peer global ps none =
    if leb 4096 (length ps)
    then (false, record { peers = ps; global = global })
    else admit name per_peer global ps (fresh_window now)
admit_peer name now per_peer global ps (some p) = admit name per_peer global ps p.window

-- Behind the renewal of the global window: closed windows of peers go.
unfoldable pub allow_in : String → ℕ → ℕ → ℕ → AttemptWindow → List Peer → Bool × Limiter
unfolding admit_peer
allow_in name now per_peer total global ps =
    if leb total global.count
    then (false, record { peers = ps; global = global })
    else admit_peer name now per_peer global (filter (λ p. is_open now p.window) ps)
        (find (by_name name) (filter (λ p. is_open now p.window) ps))

-- `allow`.
unfoldable pub allow : Limiter → String → ℕ → ℕ → ℕ → Bool × Limiter
unfolding allow_in
allow l name now per_peer total =
    allow_in name now per_peer total (current_window now l.global) l.peers
