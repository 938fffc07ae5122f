-- ===== src/AdminAuth/Login.antt =====
-- internal/adminauth/handler.go: what a session lets through, and what a login gives.
use vn_bot.Base.{
  ℕ, ◌≡◌, ◌≢◌, refl, String, Bool, true, false, not, ◌&&◌, ◌||◌, none, some, arith, inl, inr,
  if◌then◌else◌, str_eq,
}
use vn_bot.Base.Maps.{text_key, lookup}
use vn_bot.AdminAuth.Sessions.{Session, Sessions, expired, touched, get, issued, issue}
use vn_bot.AdminAuth.Lookups.{login_replaces}
use vn_bot.AdminAuth.Guard.{Credited, get_look, middleware-cases}
use vn_bot.AdminAuth.Handler.{
  Body, not_json, unreadable, credentials, Request, written, served, Site, Admin, is_unsafe,
  valid_origin, csrf_token, id_of, middleware, login, routes,
}
use vn_bot.AdminAuth.Keeps.{knows}

-- None of the paths that the handler answers itself.
abbrev pub is_protected : String → Bool
is_protected path =
    not (str_eq path "/admin/login" || str_eq path "/admin/logout" || str_eq path "/admin/session")

routes_protected :
    (site : Site) (r : Request) (a : Admin)
    → site.enabled ≡ true
    → is_protected r.path ≡ true
    → routes site r a ≡ middleware site (λ b. (served, b)) r a
unfolding routes
routes_protected site r a e p = ground arith

-- A look that finds a live session with the right token answers.
get_answers :
    (id : String) (now : ℕ) (csrf : String) (require touch : Bool) (es : Sessions) {s : Session}
    → lookup id es ≡ some s
    → expired now s ≡ false
    → (if require then str_eq s.csrf csrf else true) ≡ true
    → (get id now csrf require touch es).0 ≡ some (touched touch now s)
unfolding get
get_answers id now csrf require touch es {s} e x m = ground (arith, e, x, m)

-- A protected request of a live authenticated session is served, with a proper origin and, where the
-- method changes something, the CSRF token of the session.
pub credited_served :
    (site : Site) (r : Request) (a : Admin)
    → site.enabled ≡ true
    → is_protected r.path ≡ true
    → valid_origin site r (is_unsafe r.method) ≡ true
    → Credited site r a
    → (routes site r a).0 ≡ served
unfolding middleware
credited_served site r a e p v c =
    let first = get_answers (id_of r) r.now "" false false a.sessions c.kept c.fresh refl in
    let second =
      get_answers (id_of r) r.now (csrf_token r.csrf_headers) (is_unsafe r.method) true a.sessions
        c.kept c.fresh (ground (arith, c.matched)) in
    let look = get_look (id_of r) r.now a.sessions first in
    rw (routes_protected site r a e p)
      (ground (arith, e, v, first, look.0, second, c.authenticated))

-- If a request for a protected path of an enabled site is not served, then each session that is
-- stored afterwards was stored before, the same in every field.
pub rejected_extends_nothing :
    (site : Site) (r : Request) (a : Admin)
    → site.enabled ≡ true
    → is_protected r.path ≡ true
    → (routes site r a).0 ≢ served
    → (j : String) {s : Session} → lookup j (routes site r a).1.sessions ≡ some s
    → lookup j a.sessions ≡ some s
rejected_extends_nothing site r a e p h j {s} k =
    let q = routes_protected site r a e p in
    elim (middleware-cases site r a (λ b. (served, b))) [
      | inl stopped ↦ stopped.spared j s (rw (← q) k)
      | inr (c, f) ↦ absurd (h (rw (q, f) refl))
    ]

-- What a login that writes a session has gone through.
pub record LoggedIn (site : Site) (r : Request) (a : Admin) (id : String) (s : Session)
    : Type 0 where
  pub es : Sessions
  pub known : knows site r ≡ true
  pub answer :
      (issue site.token (id_of r) (csrf_token r.csrf_headers) true r.issued_at es a.drawn).answer
      ≡ issued id s
  pub left :
      (login site r a).1.sessions
      ≡ (issue site.token (id_of r) (csrf_token r.csrf_headers) true r.issued_at es a.drawn).entries

logged_in :
    (site : Site) (r : Request) (a : Admin) {id : String} {s : Session}
    → (login site r a).0 ≡ written (some id) s
    → LoggedIn site r a id s
unfolding login
logged_in site r a {id} {s} h = by_body r.body refl
  where
    es : Sessions
    es = (get (id_of r) r.looked_at (csrf_token r.csrf_headers) true false a.sessions).1

    by_body : (b : Body) → r.body ≡ b → LoggedIn site r a id s
    by_body not_json e = absurd (ground (arith, e))
    by_body unreadable e = absurd (ground (arith, e))
    by_body (credentials user password) e = record {
      es = es;
      known = ground (arith, e);
      answer = ground (arith, e);
      left = ground (arith, e);
    }

-- Right behind a login that answers with a session, on an enabled site: the request carried
-- credentials that the site takes, the session it came from is gone, and a request for a protected
-- path with the new identifier, a proper origin and, where its method changes something, the CSRF
-- token of the new session is served while that session has not expired.
pub login_opens :
    (site : Site) (r visit : Request) (a : Admin) {id : String} {s : Session}
    → (login site r a).0 ≡ written (some id) s
    → site.enabled ≡ true
    → is_protected visit.path ≡ true
    → valid_origin site visit (is_unsafe visit.method) ≡ true
    → id_of visit ≡ id
    → expired visit.now s ≡ false
    → (is_unsafe visit.method && not (str_eq s.csrf (csrf_token visit.csrf_headers))) ≡ false
    → (knows site r ≡ true)
      × (lookup (id_of r) (login site r a).1.sessions ≡ none)
      × ((routes site visit (login site r a).1).0 ≡ served)
login_opens site r visit a {id} {s} h e p v i x m =
    let l = logged_in site r a h in
    let (_, gone, new, auth) =
      login_replaces site.token (id_of r) (csrf_token r.csrf_headers) true r.issued_at l.es a.drawn
        refl l.answer in
    (
      l.known,
      rw (l.left) gone,
      credited_served site visit (login site r a).1 e p v (record {
        session = s;
        kept = rw (l.left, i) new;
        authenticated = auth;
        fresh = x;
        matched = ground (arith, m, v);
      }),
    )
