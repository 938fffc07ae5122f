-- ===== src/AdminAuth/SessionTests.antt =====
-- A visitor, a login and a protected request of one site.
use Prim.Native.String.len.{cons as len_cons}
use Prim.Native.String.{len, [] as empty, ◌∷◌ as cons}
use vn_bot.Base.{
  ℕ, zero, suc, ◌≤◌, ◌≡◌, ◌≢◌, refl, sym, ap, ◌∙◌, String, true, false, none, some, [], ◌∷◌, All,
  arith, str_eq, length,
}
use vn_bot.Base.Maps.{text_key, lookup, store, delete}
use vn_bot.AdminAuth.Limiter.{Limiter, allow}
use vn_bot.AdminAuth.Sessions.{
  Session, get, live, fresh_token, drawing, issue, max_sessions, session_id,
}
use vn_bot.AdminAuth.Tokens.{issue_ends}
use vn_bot.AdminAuth.Lookups.{lookup-get}
use vn_bot.AdminAuth.Handler.{
  get_method, post_method, not_json, credentials, Request, written, served, Site, Admin, csrf_token,
  middleware, bootstrap, login, routes,
}
use vn_bot.AdminAuth.Guard.{Credited}
use vn_bot.AdminAuth.Visits.{
  run_requests, run_requests-IsBounded, served_credited, strangers_not_served,
}
use vn_bot.AdminAuth.Login.{login_opens, rejected_extends_nothing}

-- Tokens that are all different: as many letters as their number.
letters : ℕ → String
letters zero = empty
letters (suc n) = cons "a" (letters n)

len-letters : (n : ℕ) → len (letters n) ≡ n
unfolding letters
len-letters zero = refl
len-letters (suc n) = rw (len_cons "a" (letters n)) (omega (arith, len-letters n))

issue_ends_example : (issue letters "" "" false 100 [] 0).answer ≢ drawing
issue_ends_example =
    issue_ends letters (λ i j e. sym (len-letters i) ∙ ap len e ∙ len-letters j) "" "" false 100 []
      0

abbrev token : ℕ → String
token zero = "aaaaaaaaaaaaaaaaaaaaaaaaaaaaaaaaaaaaaaaaaaa"
token (suc zero) = "bbbbbbbbbbbbbbbbbbbbbbbbbbbbbbbbbbbbbbbbbbb"
token (suc (suc zero)) = "ccccccccccccccccccccccccccccccccccccccccccc"
token (suc (suc (suc n))) = "ddddddddddddddddddddddddddddddddddddddddddd"

abbrev site : Site
site = record {
  enabled = true;
  origin = "https://a.example";
  username = "admin";
  password_ok = λ s. str_eq s "secret";
  token = token;
}

abbrev idle_limiter : Limiter
idle_limiter = record { peers = []; global = record { start = 0; count = 0 } }

abbrev empty_admin : Admin
empty_admin = record { sessions = []; drawn = 0; logins = idle_limiter; bootstraps = idle_limiter }

abbrev first_visit : Request
first_visit = record {
  path = "/admin/login";
  method = get_method;
  cross_site = false;
  origins = [];
  cookies = [];
  csrf_headers = [];
  peer = "10.0.0.1";
  body = not_json;
  slot_free = true;
  now = 100;
  looked_at = 100;
  issued_at = 100;
}

abbrev sign_in : Request
sign_in = record first_visit {
  method = post_method;
  origins = "https://a.example" ∷ [];
  cookies = token 0 ∷ [];
  csrf_headers = token 1 ∷ [];
  body = credentials "admin" "secret";
  now = 110;
  looked_at = 110;
  issued_at = 111;
}

abbrev panel : Request
panel = record first_visit { path = "/admin/panel"; cookies = token 2 ∷ []; now = 200 }

abbrev greeted : Admin
greeted = (routes site first_visit empty_admin).1

abbrev signed : Admin
signed = (login site sign_in greeted).1

-- A visit, a login and a request of the panel, answered in turn.
three_replies :
    (run_requests site (first_visit ∷ sign_in ∷ panel ∷ []) empty_admin).0
    ≡ written
        (some (token 0))
        (record { csrf = token 1; authenticated = false; created = 100; last_seen = 100 })
      ∷ written
          (some (token 2))
          (record { csrf = token 3; authenticated = true; created = 111; last_seen = 111 })
      ∷ served
      ∷ []
unfolding run_requests routes bootstrap login middleware allow get lookup issue live fresh_token
    store delete session_id csrf_token
three_replies = refl

run_requests-IsBounded_example :
    length (run_requests site (first_visit ∷ sign_in ∷ []) empty_admin).1.sessions ≤ max_sessions
run_requests-IsBounded_example =
    run_requests-IsBounded site (first_visit ∷ sign_in ∷ []) empty_admin (omega arith)

served_credited_example : Credited site panel signed
unfolding routes bootstrap login middleware allow get lookup issue live fresh_token store delete
    session_id csrf_token
served_credited_example = served_credited site panel signed refl

strangers_not_served_example :
    All (λ reply. reply ≢ served) (run_requests site (first_visit ∷ panel ∷ []) empty_admin).0
strangers_not_served_example =
    strangers_not_served site (first_visit ∷ panel ∷ []) empty_admin (refl, (refl, tt)) tt

-- A change without the CSRF token.
abbrev forged : Request
forged = record panel { method = post_method; origins = "https://a.example" ∷ [] }

rejected_extends_nothing_example :
    lookup (token 2) signed.sessions
    ≡ some (record { csrf = token 3; authenticated = true; created = 111; last_seen = 111 })
unfolding routes bootstrap login middleware allow get lookup issue live fresh_token store delete
    session_id csrf_token
rejected_extends_nothing_example =
    rejected_extends_nothing site forged signed refl refl (λ e. ground (arith, e)) (token 2) refl

login_opens_example :
    (str_eq "secret" "secret" ≡ true)
    × (lookup (token 0) signed.sessions ≡ none)
    × ((routes site panel signed).0 ≡ served)
unfolding routes bootstrap login middleware allow get lookup issue live fresh_token store delete
    session_id csrf_token
login_opens_example = login_opens site sign_in panel greeted refl refl refl refl refl refl refl

lookup-get_example :
    (old : Session) × (lookup (token 2) signed.sessions ≡ some old)
    × (old.last_seen ≤ 200)
    × (record { csrf = token 3; authenticated = true; created = 111; last_seen = 200 }
        ≡ record old { last_seen = 200 })
unfolding routes bootstrap login middleware allow get lookup issue live fresh_token store delete
    session_id csrf_token
lookup-get_example = lookup-get (token 2) 200 "" false true signed.sessions (token 2) refl
