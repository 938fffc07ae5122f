-- ===== src/AdminAuth/Guard.antt =====
-- internal/adminauth/handler.go: what the middleware lets through, and what it does not.
use vn_bot.Base.{
  ℕ, ◌≡◌, ◌⊎◌, refl, String, Bool, true, false, ◌&&◌, Option, none, some, arith, inl, inr,
  Bool-cases, Option-cases, if◌then◌else◌, str_eq,
}
use vn_bot.Base.Maps.{text_key, lookup}
use vn_bot.AdminAuth.Sessions.{Session, Sessions, expired, get}
use vn_bot.AdminAuth.Lookups.{get-Answered, lookup-get-none}
use vn_bot.AdminAuth.Handler.{
  Request, Reply, error, Site, Admin, is_unsafe, single_origin, valid_origin, csrf_token,
  with_sessions, id_of, middleware,
}

-- A look that neither tests the CSRF token nor touches leaves the store as it is.
pub get_look :
    (id : String) (now : ℕ) (es : Sessions) {s : Session}
    → (get id now "" false false es).0 ≡ some s
    → ((get id now "" false false es).1 ≡ es) × (lookup id es ≡ some s) × (expired now s ≡ false)
unfolding get
get_look id now es h = elim (Option-cases (lookup id es)) [
  | inl e ↦ absurd (ground (arith, e))
  | inr (s', e) ↦ (ground (arith, e), ground (arith, e), ground (arith, e))
]

module _ (site : Site) (r : Request) (a : Admin) where
  -- What a request that passes has shown.
  pub record Credited : Type 0 where
    pub session : Session
    pub kept : lookup (id_of r) a.sessions ≡ some session
    pub authenticated : session.authenticated ≡ true
    pub fresh : expired r.now session ≡ false
    pub matched :
        (if is_unsafe r.method
          then single_origin site.origin true r.origins
            && str_eq session.csrf (csrf_token r.csrf_headers)
          else true)
        ≡ true

  abbrev second_look : Sessions
  second_look =
      (get (id_of r) r.now (csrf_token r.csrf_headers) (is_unsafe r.method) true a.sessions).1

  -- What an error leaves: the store as it was, or as a look at the session leaves it.
  pub record Refused (out : Reply × Admin) : Type 0 where
    pub status : ℕ
    pub code : String
    pub reply : out.0 ≡ error status code
    pub others : out.1 ≡ record a { sessions = out.1.sessions }
    pub looked_at :
        (out.1.sessions ≡ a.sessions)
        ⊎ ((csrf : String) × (require : Bool) × (touch : Bool) × (out.1.sessions
              ≡ (get (id_of r) r.now csrf require touch a.sessions).1))
    pub spared :
        (j : String) (s : Session) → lookup j out.1.sessions ≡ some s → lookup j a.sessions ≡ some s

  module _ (next : Admin → Reply × Admin) where
    abbrev out : Reply × Admin
    out = middleware site next r a

    unmoved : (status : ℕ) (code : String) → out ≡ (error status code, a) → Refused out
    unmoved status code e = rw e (record {
      status = status;
      code = code;
      reply = refl;
      others = refl;
      looked_at = inl refl;
      spared = λ j s h. h;
    })

    -- The sessions of a failed look, behind the guards on the origin.
    looked :
        (status : ℕ) (code csrf : String) (require touch : Bool)
        → (get (id_of r) r.now csrf require touch a.sessions).0 ≡ none
        → out ≡ (
          error status code,
          with_sessions a (get (id_of r) r.now csrf require touch a.sessions).1,
        )
        → Refused out
    looked status code csrf require touch h e = rw e (record {
      status = status;
      code = code;
      reply = refl;
      others = refl;
      looked_at = inr (csrf, require, touch, refl);
      spared = λ j s. lookup-get-none (id_of r) r.now csrf require touch a.sessions j h;
    })

    abbrev first : Option Session × Sessions
    first = get (id_of r) r.now "" false false a.sessions

    abbrev second : Option Session × Sessions
    second = get (id_of r) r.now (csrf_token r.csrf_headers) (is_unsafe r.method) true a.sessions

    credited :
        {s t : Session}
        → valid_origin site r (is_unsafe r.method) ≡ true
        → first.0 ≡ some s
        → s.authenticated ≡ true
        → second.0 ≡ some t
        → Credited
    credited {s} v f auth g =
        let look = get_look (id_of r) r.now a.sessions f in
        let w =
          (get-Answered (id_of r) r.now (csrf_token r.csrf_headers) (is_unsafe r.method) true
            a.sessions g).0 in
        let found = w.kept in
        record {
          session = s;
          kept = look.1;
          authenticated = auth;
          fresh = look.2;
          matched = ground (arith, look.1, found, w.matched);
        }

    -- The middleware answers an error and extends no session, or passes a request that has shown a
    -- session on, with that session touched.
    pub middleware-cases : Refused out ⊎ (Credited × (out ≡ next (with_sessions a second_look)))
    unfolding middleware
    middleware-cases = elim (Bool-cases site.enabled) [
      | inr e ↦ inl (unmoved 404 "not_found" (rw e refl))
      | inl e ↦ elim (Bool-cases (valid_origin site r (is_unsafe r.method))) [
        | inr v ↦ inl (unmoved 403 "forbidden" (rw (e, v) refl))
        | inl v ↦ elim (Option-cases first.0) [
          | inl f ↦ inl (looked 401 "unauthorized" "" false false f (rw (e, v, f) refl))
          | inr (s, f) ↦ elim (Bool-cases s.authenticated) [
            | inr auth ↦ inl (
                unmoved 401 "unauthorized"
                  (rw (e, v, f, (get_look (id_of r) r.now a.sessions f).0, auth) refl))
            | inl auth ↦ elim (Option-cases second.0) [
              | inl g ↦ inl (
                  looked 403 "forbidden" (csrf_token r.csrf_headers) (is_unsafe r.method) true g
                    (rw (e, v, f, (get_look (id_of r) r.now a.sessions f).0, auth, g) refl))
              | inr (t, g) ↦ inr (
                credited v f auth g,
                rw (e, v, f, (get_look (id_of r) r.now a.sessions f).0, auth, g) refl,
              )
            ]
          ]
        ]
      ]
    ]
