-- ===== src/AdminAuth/Sessions.antt =====
-- internal/adminauth/session.go: the store of browser sessions. Times are seconds. The random tokens
-- are a sequence of texts, of which the store has drawn a first part; what makes them distinct is not
-- modelled.
use Prim.Native.String.{len}
use vn_bot.Base.{
  ℕ, zero, suc, ◌+◌, String, Bool, false, not, ◌&&◌, ◌||◌, Option, none, some, is_some, List, [],
  ◌∷◌, ltb, leb, ◌==◌, if◌then◌else◌, str_eq, length,
}
use vn_bot.Base.Maps.{Entry, text_key, lookup, store, delete}

pub record Session : Type 0 where
  pub csrf : String
  pub authenticated : Bool
  pub created : ℕ
  pub last_seen : ℕ

abbrev pub Sessions : Type 0
Sessions = List (Entry String Session)

abbrev pub idle_ttl : ℕ
idle_ttl = 1800

abbrev pub absolute_ttl : ℕ
absolute_ttl = 43200

abbrev pub login_ttl : ℕ
login_ttl = 600

abbrev pub max_sessions : ℕ
max_sessions = 1024

abbrev pub expired : ℕ → Session → Bool
expired now s =
    if s.authenticated
    then not (ltb now (s.created + absolute_ttl)) || not (ltb now (s.last_seen + idle_ttl))
    else not (ltb now (s.created + login_ttl))

-- `sessionID`: the only cookie of the name, if it is 43 bytes long.
unfoldable pub session_id : List String → String
session_id (v ∷ []) = if len v == 43 then v else ""
session_id [] = ""
session_id (_ ∷ _ ∷ _) = ""

abbrev pub touched : Bool → ℕ → Session → Session
touched touch now s = if touch && ltb s.last_seen now then record s { last_seen = now } else s

-- The entry is found and has not expired.
abbrev pub get_live :
    String → ℕ → String → Bool → Bool → Sessions → Session → Option Session × Sessions
get_live id now csrf require_csrf touch es s =
    if require_csrf && not (str_eq s.csrf csrf)
    then (none, es)
    else if touch && ltb s.last_seen now
    then (some (touched touch now s), store id (touched touch now s) es)
    else (some s, es)

abbrev pub get_found :
    String → ℕ → String → Bool → Bool → Sessions → Option Session → Option Session × Sessions
get_found id now csrf require_csrf touch es none = (none, es)
get_found id now csrf require_csrf touch es (some s) =
    if expired now s then (none, delete id es) else get_live id now csrf require_csrf touch es s

-- `get`.
unfoldable pub get : String → ℕ → String → Bool → Bool → Sessions → Option Session × Sessions
get id now csrf require_csrf touch es = get_found id now csrf require_csrf touch es (lookup id es)

-- The sessions that have not expired.
unfoldable pub live : ℕ → Sessions → Sessions
live now [] = []
live now (e ∷ es) = let rest = live now es in if expired now e.value then rest else e ∷ rest

-- The loop that draws until the identifier is new: the place of the token it takes. `fuel` bounds the
-- draws; without any left there is no result.
unfoldable pub fresh_token : (ℕ → String) → ℕ → ℕ → Sessions → Option ℕ
fresh_token token zero drawn es = none
fresh_token token (suc fuel) drawn es =
    let rest = fresh_token token fuel (suc drawn) es in
    if is_some (lookup (token drawn) es) then rest else some drawn

pub data Issue : Type 0 where
  refused : Issue
  drawing : Issue  -- the loop has not met a new identifier
  issued : String → Session → Issue

-- `issue` returns its answer, the entries, and how many tokens are drawn.
pub record Issued : Type 0 where
  pub answer : Issue
  pub entries : Sessions
  pub drawn : ℕ

-- The session of an answer, with the token after the one that names it.
abbrev pub new_session : (ℕ → String) → ℕ → Bool → ℕ → Session
new_session token at authenticated now = record {
  csrf = token (suc at);
  authenticated = authenticated;
  created = now;
  last_seen = now;
}

abbrev pub issue_at : (ℕ → String) → String → Bool → ℕ → Sessions → ℕ → Option ℕ → Issued
issue_at token old authenticated now es drawn none = record {
  answer = drawing;
  entries = es;
  drawn = drawn;
}
issue_at token old authenticated now es drawn (some at) = record {
  answer = issued (token at) (new_session token at authenticated now);
  entries = store (token at) (new_session token at authenticated now) (delete old es);
  drawn = suc (suc at);
}

abbrev pub holds_csrf : String → Option Session → Bool
holds_csrf csrf none = false
holds_csrf csrf (some s) = str_eq s.csrf csrf

-- The guards of `issue`, on the sessions that have not expired.
abbrev pub may_issue : String → String → Bool → Sessions → Bool
may_issue old csrf authenticated es =
    if authenticated then holds_csrf csrf (lookup old es) else not (leb max_sessions (length es))

abbrev pub issue_in : (ℕ → String) → String → String → Bool → ℕ → Sessions → ℕ → Issued
issue_in token old csrf authenticated now es drawn =
    if may_issue old csrf authenticated es
    then issue_at token old authenticated now es drawn
        (fresh_token token (suc (length es)) drawn es)
    else record { answer = refused; entries = es; drawn = drawn }

-- `issue`.
unfoldable pub issue : (ℕ → String) → String → String → Bool → ℕ → Sessions → ℕ → Issued
issue token old csrf authenticated now es drawn =
    issue_in token old csrf authenticated now (live now es) drawn
