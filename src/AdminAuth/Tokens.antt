-- ===== src/AdminAuth/Tokens.antt =====
-- internal/adminauth/session.go: the store stays small, the loop of `issue` ends, and a login
-- replaces the session it came from.
use vn_bot.Base.{
  ℕ, zero, suc, ◌≤◌, ◌<◌, ◌≡◌, ◌≢◌, refl, String, Bool, true, false, none, some, is_some, [], ◌∷◌,
  arith, inl, inr, Bool-cases, Option-cases, str_eq, eq_iff, length,
}
use vn_bot.Base.Maps.{
  text_key, lookup, delete, lookup-delete, length-delete-le, length-delete-lt, length-store,
}
use vn_bot.AdminAuth.Sessions.{Sessions, touched, get, live, fresh_token, drawing, issue}

pub length-live-le : (now : ℕ) (es : Sessions) → length (live now es) ≤ length es
unfolding live
length-live-le now [] = omega arith
length-live-le now (e ∷ es) = ground (arith, length-live-le now es)

pub length-get-le :
    (id : String) (now : ℕ) (csrf : String) (require touch : Bool) (es : Sessions)
    → length (get id now csrf require touch es).1 ≤ length es
unfolding get
length-get-le id now csrf require touch es = elim (Option-cases (lookup id es)) [
  | inl e ↦ rw e (omega arith)
  | inr (s, e) ↦
      rw e (ground (arith, e, length-delete-le id es, length-store id (touched touch now s) es))
]

-- A token that the loop takes is no key of the map.
pub fresh_token_new :
    (token : ℕ → String) (fuel drawn : ℕ) (es : Sessions) {at : ℕ}
    → fresh_token token fuel drawn es ≡ some at
    → lookup (token at) es ≡ none
unfolding fresh_token
fresh_token_new token zero drawn es h = cc
fresh_token_new token (suc fuel) drawn es {at} h = elim (Option-cases (lookup (token drawn) es)) [
  | inl e ↦ ground (arith, e)
  | inr (s, e) ↦ fresh_token_new token fuel (suc drawn) es (ground (arith, e))
]

module _ (token : ℕ → String) (distinct : (i j : ℕ) → token i ≡ token j → i ≡ j) where
  other_token : (i j : ℕ) → i < j → str_eq (token i) (token j) ≡ false
  other_token i j lt = elim (Bool-cases (str_eq (token i) (token j))) [
    | inl e ↦ absurd (omega (arith, distinct i j ((eq_iff (token i) (token j)).0 e)))
    | inr e ↦ e
  ]

  -- A token drawn before does not come again.
  fresh_token-delete :
      (fuel before drawn : ℕ) (es : Sessions)
      → before < drawn
      → fresh_token token fuel drawn (delete (token before) es) ≡ fresh_token token fuel drawn es
  unfolding fresh_token
  fresh_token-delete zero before drawn es lt = refl
  fresh_token-delete (suc fuel) before drawn es lt =
      rw (lookup-delete (token before) (token drawn) es, other_token before drawn lt)
        (ground (arith, fresh_token-delete fuel before (suc drawn) es (omega arith)))

  pub fresh_token_found :
      (fuel drawn : ℕ) (es : Sessions)
      → length es < fuel
      → is_some (fresh_token token fuel drawn es) ≡ true
  unfolding fresh_token
  fresh_token_found zero drawn es lt = absurd (omega arith)
  fresh_token_found (suc fuel) drawn es lt = elim (Option-cases (lookup (token drawn) es)) [
    | inl e ↦ ground (arith, e)
    | inr (s, e) ↦
        let less = length-delete-lt (token drawn) es {v = s} e in
        let ih =
          fresh_token_found fuel (suc drawn) (delete (token drawn) es) (omega (arith, less)) in
        rw e (rw (← fresh_token-delete fuel drawn (suc drawn) es (omega arith)) ih)
  ]

  -- If no two tokens are the same, the loop of `issue` meets a new identifier within one draw more
  -- than there are sessions: it never runs out of its fuel.
  pub issue_ends :
      (old csrf : String) (authenticated : Bool) (now : ℕ) (es : Sessions) (drawn : ℕ)
      → (issue token old csrf authenticated now es drawn).answer ≢ drawing
  unfolding issue
  issue_ends old csrf authenticated now es drawn =
      ground
        (arith, fresh_token_found (suc (length (live now es))) drawn (live now es) (omega arith))
