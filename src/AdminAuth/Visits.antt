-- ===== src/AdminAuth/Visits.antt =====
-- internal/adminauth/handler.go: `Routes` over sequences of requests.
use vn_bot.Base.{
  ℕ, suc, ◌≤◌, ◌≡◌, ◌≢◌, refl, String, Bool, true, false, List, [], ◌∷◌, All, arith, inl, inr,
  Bool-cases, Option-cases, str_eq, length, not, ◌&&◌, ltb,
}
use vn_bot.Base.Maps.{
  Entry, text_key, lookup, delete, length-delete-le, All-lookup, All-delete, All-store,
}
use vn_bot.AdminAuth.Sessions.{
  Session, Sessions, expired, get, live, Issue, issue, new_session, may_issue, fresh_token,
  max_sessions,
}
use vn_bot.AdminAuth.Tokens.{length-get-le}
use vn_bot.AdminAuth.Lookups.{length-issue-le}
use vn_bot.AdminAuth.Guard.{Credited, middleware-cases}
use vn_bot.AdminAuth.Handler.{
  Request, Reply, served, Site, Admin, csrf_token, id_of, middleware, bootstrap, login, logout,
  current, routes, Body, log_in, answered,
}
use vn_bot.AdminAuth.Keeps.{knows, routes_keeps}

-- The replies to a sequence of requests, and the state behind them.
unfoldable pub run_requests : Site → List Request → Admin → List Reply × Admin
run_requests site [] a = ([], a)
run_requests site (r ∷ rs) a =
    let (reply, b) = routes site r a in
    let (replies, c) = run_requests site rs b in (reply ∷ replies, c)

abbrev IsBounded : Sessions → Type 0
IsBounded es = length es ≤ max_sessions

-- A store of at most 1024 sessions stays one through any sequence of requests.
pub run_requests-IsBounded :
    (site : Site) (rs : List Request) (a : Admin)
    → length a.sessions ≤ max_sessions
    → length (run_requests site rs a).1.sessions ≤ max_sessions
unfolding run_requests
run_requests-IsBounded site [] a h = h
run_requests-IsBounded site (r ∷ rs) a h = run_requests-IsBounded site rs (routes site r a).1 (
    routes_keeps IsBounded
      (λ id now csrf require touch es k. omega (arith, length-get-le id now csrf require touch es))
      (λ id es k. omega (arith, length-delete-le id es)) site
      (λ now es drawn. length-issue-le site.token "" "" false now es drawn) r
      (λ _ es drawn.
        length-issue-le site.token (id_of r) (csrf_token r.csrf_headers) true r.issued_at es drawn)
      a h)

-- No session is authenticated.
abbrev pub Anonymous : Session → Type 0
Anonymous s = s.authenticated ≡ false

abbrev pub AreAnonymous : Sessions → Type 0
AreAnonymous = All (λ (e : Entry String Session). Anonymous e.value)

get-AreAnonymous :
    (id : String) (now : ℕ) (csrf : String) (require touch : Bool) (es : Sessions)
    → AreAnonymous es
    → AreAnonymous (get id now csrf require touch es).1
unfolding get
get-AreAnonymous id now csrf require touch es h = elim (Option-cases (lookup id es)) [
  | inl e ↦ rw e h
  | inr (s, e) ↦ elim (Bool-cases (expired now s)) [
    | inl x ↦ rw (e, x) (All-delete Anonymous id es h)
    | inr x ↦ elim (Bool-cases (require && not (str_eq s.csrf csrf))) [
      | inl q ↦ rw (e, x, q) h
      | inr q ↦ elim (Bool-cases (touch && ltb s.last_seen now)) [
        | inr t ↦ rw (e, x, q, t) h
        | inl t ↦
            let known : s.authenticated ≡ false = All-lookup Anonymous id es h e in
            rw (e, x, q, t) (All-store Anonymous id (record s { last_seen = now }) es known h)
      ]
    ]
  ]
]

live-AreAnonymous : (now : ℕ) (es : Sessions) → AreAnonymous es → AreAnonymous (live now es)
unfolding live
live-AreAnonymous now [] h = tt
live-AreAnonymous now (e ∷ es) h = elim (Bool-cases (expired now e.value)) [
  | inl x ↦ rw x (live-AreAnonymous now es h.1)
  | inr x ↦ rw x (h.0, live-AreAnonymous now es h.1)
]

issue-AreAnonymous :
    (token : ℕ → String) (old csrf : String) (now : ℕ) (es : Sessions) (drawn : ℕ)
    → AreAnonymous es
    → AreAnonymous (issue token old csrf false now es drawn).entries
unfolding issue
issue-AreAnonymous token old csrf now es drawn h =
    let k = live-AreAnonymous now es h in
    elim (Bool-cases (may_issue old csrf false (live now es))) [
      | inr m ↦ rw m k
      | inl m ↦
          elim (Option-cases (fresh_token token (suc (length (live now es))) drawn (live now es))) [
            | inl f ↦ rw (m, f) k
            | inr (at, f) ↦
                rw (m, f)
                  (All-store Anonymous (token at) (new_session token at false now)
                    (delete old (live now es)) refl (All-delete Anonymous old (live now es) k))
          ]
    ]

answered_unserved : (status : ℕ) (code : String) (i : Issue) → answered status code i ≢ served
answered_unserved status code i e = ground arith

bootstrap_unserved : (site : Site) (r : Request) (a : Admin) → (bootstrap site r a).0 ≢ served
unfolding bootstrap
bootstrap_unserved site r a e = ground arith

log_in_unserved :
    (site : Site) (r : Request) (a : Admin) (b : Body) → (log_in site r a b).0 ≢ served
log_in_unserved site r a b e = ground arith

login_unserved : (site : Site) (r : Request) (a : Admin) → (login site r a).0 ≢ served
unfolding login
login_unserved site r a e = ground arith

middleware_credited :
    (site : Site) (next : Admin → Reply × Admin) (r : Request) (a : Admin)
    → (middleware site next r a).0 ≡ served
    → Credited site r a
middleware_credited site next r a h = elim (middleware-cases site r a next) [
  | inr (c, _) ↦ c
  | inl refused ↦ absurd (ground (arith, refused.reply))
]

-- A request that is served has the identifier of a session that is stored, authenticated and not
-- expired; if its method changes something, it also has the one origin of the site and the CSRF
-- token of that session.
pub served_credited :
    (site : Site) (r : Request) (a : Admin) → (routes site r a).0 ≡ served → Credited site r a
unfolding routes
served_credited site r a h = elim (Bool-cases site.enabled) [
  | inr e ↦ absurd (ground (arith, e))
  | inl e ↦ elim (Bool-cases (str_eq r.path "/admin/login")) [
    | inl p ↦ absurd (ground (arith, e, p, bootstrap_unserved site r a, login_unserved site r a))
    | inr p ↦ elim (Bool-cases (str_eq r.path "/admin/logout")) [
      | inl q ↦ middleware_credited site (logout r) r a (ground (arith, e, p, q))
      | inr q ↦ elim (Bool-cases (str_eq r.path "/admin/session")) [
        | inl s ↦ middleware_credited site (current r) r a (ground (arith, e, p, q, s))
        | inr s ↦ middleware_credited site (λ b. (served, b)) r a (ground (arith, e, p, q, s))
      ]
    ]
  ]
]

-- While no stored session is authenticated and no request of a sequence carries a user name and a
-- password that the site takes, none of them is served.
pub strangers_not_served :
    (site : Site) (rs : List Request) (a : Admin)
    → All (λ r. knows site r ≡ false) rs
    → AreAnonymous a.sessions
    → All (λ reply. reply ≢ served) (run_requests site rs a).0
unfolding run_requests
strangers_not_served site [] a k h = tt
strangers_not_served site (r ∷ rs) a k h = (
  λ e.
      let c = served_credited site r a e in
      absurd (ground (arith, All-lookup Anonymous (id_of r) a.sessions h c.kept, c.authenticated)),
  strangers_not_served site rs (routes site r a).1 k.1 (
      routes_keeps AreAnonymous get-AreAnonymous (All-delete Anonymous) site
        (issue-AreAnonymous site.token "" "") r (λ known. absurd (ground (arith, known, k.0))) a h),
)
