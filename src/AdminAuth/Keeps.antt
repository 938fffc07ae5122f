-- ===== src/AdminAuth/Keeps.antt =====
-- internal/adminauth/handler.go: an invariant of the session store, kept by every request.
use vn_bot.Base.{
  ℕ, ◌≡◌, refl, String, Bool, true, false, not, ◌&&◌, Option, none, some, inl, inr, Bool-cases,
  Option-cases, if◌then◌else◌, str_eq,
}
use vn_bot.Base.Maps.{text_key, delete}
use vn_bot.AdminAuth.Limiter.{allow}
use vn_bot.AdminAuth.Sessions.{Session, Sessions, get, issue}
use vn_bot.AdminAuth.Guard.{middleware-cases}
use vn_bot.AdminAuth.Handler.{
  Method, get_method, head_method, options_method, post_method, other_method, Body, not_json,
  unreadable, credentials, Request, Reply, error, served, Site, Admin, valid_origin, csrf_token,
  fits, id_of, middleware, bootstrap, log_in, login, logout, show_session, current, login_route,
  routes,
}

-- The request carries credentials that the site takes.
abbrev pub knows : Site → Request → Bool
knows site r = elim r.body [
  | credentials user password ↦ site.password_ok password && str_eq user site.username
  | _ ↦ false
]

-- An invariant of the store that every operation keeps, a login only for a request that knows the
-- credentials.
module _ (I : Sessions → Type 0)
    (get_keeps : (id : String) (now : ℕ) (csrf : String) (require touch : Bool) (es : Sessions)
      → I es
      → I (get id now csrf require touch es).1)
    (delete_keeps : (id : String) (es : Sessions) → I es → I (delete id es)) (site : Site)
    (issue_keeps : (now : ℕ) (es : Sessions) (drawn : ℕ)
      → I es
      → I (issue site.token "" "" false now es drawn).entries)
    (r : Request)
    (login_keeps : knows site r ≡ true
      → (es : Sessions) (drawn : ℕ) → I es
      → I
          (issue site.token
            (id_of r)
            (csrf_token r.csrf_headers)
            true
            r.issued_at
            es
            drawn).entries) where
  middleware_keeps :
      (next : Admin → Reply × Admin) (a : Admin)
      → ((b : Admin) → I b.sessions → I (next b).1.sessions)
      → I a.sessions
      → I (middleware site next r a).1.sessions
  middleware_keeps next a k h = elim (middleware-cases site r a next) [
    | inr (c, e) ↦ rw e (k _ (get_keeps _ _ _ _ _ _ h))
    | inl refused ↦ elim refused.looked_at [
      | inl e ↦ rw e h
      | inr (csrf, require, touch, e) ↦ rw e (get_keeps _ _ csrf require touch _ h)
    ]
  ]

  bootstrap_keeps : (a : Admin) → I a.sessions → I (bootstrap site r a).1.sessions
  unfolding bootstrap
  bootstrap_keeps a h = elim (Bool-cases (valid_origin site r false)) [
    | inr v ↦ rw v h
    | inl v ↦ elim (Bool-cases (allow a.bootstraps r.peer r.now 20 200).0) [
      | inr f ↦ rw (v, f) h
      | inl f ↦
          let k = get_keeps (id_of r) r.now "" false false a.sessions h in
          elim (Option-cases (get (id_of r) r.now "" false false a.sessions).0) [
            | inl g ↦ rw (v, f, g) (issue_keeps _ _ _ k)
            | inr (s, g) ↦ rw (v, f, g) k
          ]
    ]
  ]

  log_in_keeps :
      (b : Body) → b ≡ r.body → (a : Admin) → I a.sessions → I (log_in site r a b).1.sessions
  log_in_keeps not_json e a h = h
  log_in_keeps unreadable e a h = h
  log_in_keeps (credentials user password) e a h =
      elim (Bool-cases (fits 64 user && fits 72 password)) [
        | inr f ↦ rw f h
        | inl f ↦ elim (Bool-cases r.slot_free) [
          | inr g ↦ rw (f, g) h
          | inl g ↦ elim (Bool-cases (site.password_ok password && str_eq user site.username)) [
            | inr p ↦ rw (f, g, p) h
            | inl p ↦ rw (f, g, p) (login_keeps (rw (← e) p) _ _ h)
          ]
        ]
      ]

  login_call_keeps : (a : Admin) → I a.sessions → I (login site r a).1.sessions
  unfolding login
  login_call_keeps a h = elim (Bool-cases (valid_origin site r true)) [
    | inr v ↦ rw v h
    | inl v ↦ elim (Bool-cases (allow a.logins r.peer r.now 5 20).0) [
      | inr f ↦ rw (v, f) h
      | inl f ↦
          let csrf = csrf_token r.csrf_headers in
          let k = get_keeps (id_of r) r.looked_at csrf true false a.sessions h in
          elim (Option-cases (get (id_of r) r.looked_at csrf true false a.sessions).0) [
            | inl g ↦ rw (v, f, g) k
            | inr (s, g) ↦ rw (v, f, g) (log_in_keeps r.body refl _ k)
          ]
    ]
  ]

  current_keeps : (a : Admin) → I a.sessions → I (current r a).1.sessions
  current_keeps a h = by_method r.method
    where
      looked : Option Session × Sessions
      looked = get (id_of r) r.looked_at "" false false a.sessions

      shown : (s : Option Session) → I looked.1 → I (show_session a (s, looked.1)).1.sessions
      shown none k = k
      shown (some s) k = elim (Bool-cases s.authenticated) [ inl e ↦ rw e k | inr e ↦ rw e k ]

      by_method :
          (m : Method)
          → I
              (elim m as (λ _. Reply × Admin) [
                | get_method ↦ show_session a looked
                | _ ↦ (error 405 "method_not_allowed", a)
              ]).1.sessions
      by_method get_method =
          shown looked.0 (get_keeps (id_of r) r.looked_at "" false false a.sessions h)
      by_method head_method = h
      by_method options_method = h
      by_method post_method = h
      by_method other_method = h

  logout_keeps : (a : Admin) → I a.sessions → I (logout r a).1.sessions
  logout_keeps a h = elim r.method as (λ m. I (logout (record r { method = m }) a).1.sessions) [
    | post_method ↦ delete_keeps (id_of r) a.sessions h
    | get_method ↦ h
    | head_method ↦ h
    | options_method ↦ h
    | other_method ↦ h
  ]

  login_route_keeps : (a : Admin) → I a.sessions → I (login_route site r a).1.sessions
  login_route_keeps a h = by_method r.method
    where
      by_method :
          (m : Method)
          → I
              (elim m as (λ _. Reply × Admin) [
                | get_method ↦ bootstrap site r a
                | post_method ↦ login site r a
                | _ ↦ (error 405 "method_not_allowed", a)
              ]).1.sessions
      by_method get_method = bootstrap_keeps a h
      by_method post_method = login_call_keeps a h
      by_method head_method = h
      by_method options_method = h
      by_method other_method = h

  pub routes_keeps : (a : Admin) → I a.sessions → I (routes site r a).1.sessions
  unfolding routes
  routes_keeps a h = chosen (not site.enabled) _ _ h (
      chosen (str_eq r.path "/admin/login") _ _ (login_route_keeps a h) (
        chosen (str_eq r.path "/admin/logout") _ _ (middleware_keeps (logout r) a logout_keeps h) (
          chosen (str_eq r.path "/admin/session") _ _
            (middleware_keeps (current r) a current_keeps h)
            (middleware_keeps (λ b. (served, b)) a (λ b k. k) h))))
    where
      chosen :
          (b : Bool) (x y : Reply × Admin)
          → I x.1.sessions
          → I y.1.sessions
          → I (if b then x else y).1.sessions
      chosen true x y hx hy = hx
      chosen false x y hx hy = hy
