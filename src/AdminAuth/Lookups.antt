-- ===== src/AdminAuth/Lookups.antt =====
-- internal/adminauth/session.go: what `get` and `issue` answer, and what they leave of the store.
use vn_bot.Base.{
  ℕ, suc, ◌≤◌, ◌≡◌, refl, String, Bool, true, false, none, some, arith, inl, inr, Bool-cases,
  Option-cases, if◌then◌else◌, str_eq, eq_iff, length,
}
use vn_bot.Base.Maps.{
  text_key, lookup, store, delete, lookup-delete, lookup-store, length-delete-le, length-delete-lt,
  length-store-le, same_refl,
}
use vn_bot.AdminAuth.Sessions.{
  Session, Sessions, expired, touched, get, live, fresh_token, issued, Issued, issue, new_session,
  may_issue, holds_csrf, max_sessions,
}
use vn_bot.AdminAuth.Tokens.{length-live-le, fresh_token_new}

-- The session that `get` answered, as the store had it.
pub record Answered (id : String) (now : ℕ) (csrf : String) (require : Bool) (es : Sessions)
    : Type 0 where
  pub session : Session
  pub kept : lookup id es ≡ some session
  pub fresh : expired now session ≡ false
  pub matched : (if require then str_eq session.csrf csrf else true) ≡ true

module _ (id : String) (now : ℕ) (csrf : String) (require touch : Bool) (es : Sessions) where
  pub get-Answered :
      {s : Session}
      → (get id now csrf require touch es).0 ≡ some s
      → (w : Answered id now csrf require es) × (s ≡ touched touch now w.session)
  unfolding get
  get-Answered {s} h = elim (Option-cases (lookup id es)) [
    | inl e ↦ absurd (ground (arith, e))
    | inr (s', e) ↦ (
      record { session = s'; kept = e; fresh = ground (arith, e); matched = ground (arith, e) },
      ground (arith, e),
    )
  ]

  -- A look that answers nothing changes no session, but for one that it drops.
  pub lookup-get-none :
      (j : String) {s : Session}
      → (get id now csrf require touch es).0 ≡ none
      → lookup j (get id now csrf require touch es).1 ≡ some s
      → lookup j es ≡ some s
  unfolding get
  lookup-get-none j h k = elim (Option-cases (lookup id es)) [
    | inl e ↦ ground (arith, e)
    | inr (s', e) ↦ ground (arith, e, lookup-delete id j es)
  ]

  -- Nor does a look that does not touch.
  pub lookup-get_untouched :
      (j : String) {s : Session}
      → touch ≡ false
      → lookup j (get id now csrf require touch es).1 ≡ some s
      → lookup j es ≡ some s
  unfolding get
  lookup-get_untouched j h k = elim (Option-cases (lookup id es)) [
    | inl e ↦ ground (arith, e)
    | inr (s', e) ↦ ground (arith, e, lookup-delete id j es)
  ]

  -- A session that is stored behind a look of `get`, at whatever time and for whatever session,
  -- was stored before with no later time of last use, and is otherwise the same.
  pub lookup-get :
      (j : String) {s : Session}
      → lookup j (get id now csrf require touch es).1 ≡ some s
      → (old : Session) × (lookup j es ≡ some old)
        × (old.last_seen ≤ s.last_seen)
        × (s ≡ record old { last_seen = s.last_seen })
  unfolding get
  lookup-get j {s} k = elim (Option-cases (lookup id es)) [
    | inl e ↦ (s, ground (arith, e), omega arith, refl)
    | inr (s', e) ↦ elim (Bool-cases (str_eq id j)) [
      | inl p ↦
          let q : lookup j es ≡ some s' = rw (← (eq_iff id j).0 p) e in
          (
            s',
            q,
            ground (
              arith,
              e,
              p,
              q,
              lookup-delete id j es,
              lookup-store id j (touched touch now s') es,
            ),
            ground (
              arith,
              e,
              p,
              q,
              lookup-delete id j es,
              lookup-store id j (touched touch now s') es,
            ),
          )
      | inr p ↦ (
        s,
        ground (arith, e, p, lookup-delete id j es, lookup-store id j (touched touch now s') es),
        omega arith,
        refl,
      )
    ]
  ]

module _ (token : ℕ → String) (old csrf : String) (authenticated : Bool) (now : ℕ) (es : Sessions)
    (drawn : ℕ) where
  abbrev issue_of : Issued
  issue_of = issue token old csrf authenticated now es drawn

  -- The identifier and the session of an answer, and the draw that gave them.
  pub issue-answer :
      {id : String} {s : Session}
      → issue_of.answer ≡ issued id s
      → (at : ℕ) × (fresh_token token (suc (length (live now es))) drawn (live now es) ≡ some at)
        × (id ≡ token at)
        × (s ≡ new_session token at authenticated now)
        × (may_issue old csrf authenticated (live now es) ≡ true)
        × (issue_of.entries ≡ store id s (delete old (live now es)))
  unfolding issue
  issue-answer h = elim (Bool-cases (may_issue old csrf authenticated (live now es))) [
    | inl e ↦
        elim (Option-cases (fresh_token token (suc (length (live now es))) drawn (live now es))) [
          | inl f ↦ absurd (ground (arith, e, f))
          | inr (at, f) ↦
              (at, f, ground (arith, e, f), ground (arith, e, f), e, ground (arith, e, f))
        ]
    | inr e ↦ absurd (ground (arith, e))
  ]

  pub length-issue-le : length es ≤ max_sessions → length issue_of.entries ≤ max_sessions
  unfolding issue
  length-issue-le le =
      elim (Option-cases (fresh_token token (suc (length (live now es))) drawn (live now es))) [
        | inl f ↦ ground (arith, f, length-live-le now es)
        | inr (at, f) ↦
            let added =
              length-store-le (token at) (new_session token at authenticated now)
                (delete old (live now es)) in
            elim (Option-cases (lookup old (live now es))) [
              | inl e ↦
                  ground
                    (arith, f, e, length-live-le now es, added, length-delete-le old (live now es))
              | inr (s, e) ↦
                  ground (
                    arith,
                    f,
                    e,
                    length-live-le now es,
                    added,
                    length-delete-lt old (live now es) e,
                  )
            ]
      ]

  -- A login that succeeds had the CSRF token of a session that was alive, which is gone; the new
  -- session is authenticated.
  pub login_replaces :
      {id : String} {s : Session}
      → authenticated ≡ true
      → issue_of.answer ≡ issued id s
      → (holds_csrf csrf (lookup old (live now es)) ≡ true)
        × (lookup old issue_of.entries ≡ none)
        × (lookup id issue_of.entries ≡ some s)
        × (s.authenticated ≡ true)
  login_replaces {id} {s} auth h =
      let (at, found, name, made, may, entries) = issue-answer h in
      let new = fresh_token_new token (suc (length (live now es))) drawn (live now es) found in
      (
        ground (arith, may),
        rw entries (
            ground (
              arith,
              may,
              name,
              new,
              eq_iff id old,
              lookup-store id old s (delete old (live now es)),
              lookup-delete old old (live now es),
              same_refl old,
            )),
        rw (entries, lookup-store id id s (delete old (live now es)), same_refl id) refl,
        rw (made) auth,
      )
