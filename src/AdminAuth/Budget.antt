-- ===== src/AdminAuth/Budget.antt =====
-- internal/adminauth/limiter.go: how many attempts are admitted.
use vn_bot.Base.{
  ℕ, ◌+◌, ◌≤◌, ◌<◌, ◌≡◌, String, Bool, true, Option, none, some, List, [], ◌∷◌, All, arith,
  if◌then◌else◌, find, filter,
}
use vn_bot.AdminAuth.Limiter.{
  AttemptWindow, Peer, Limiter, is_open, fresh_window, by_name, admit, admit_peer, allow_in, allow,
}

-- The attempts of the peers, each with its time: how many are admitted, and the limiter behind them.
unfoldable pub run_attempts : ℕ → ℕ → List (String × ℕ) → Limiter → ℕ × Limiter
run_attempts per_peer total [] l = (0, l)
run_attempts per_peer total ((name, now) ∷ rest) l =
    let (admitted, l') = allow l name now per_peer total in
    let (n, l'') = run_attempts per_peer total rest l' in ((if admitted then 1 else 0) + n, l'')

-- What one attempt does to a global window that is open and within the budget.
abbrev Counts : ℕ → AttemptWindow → Bool × Limiter → Type 0
Counts total g r =
    (r.1.global.start ≡ g.start)
    × (r.1.global.count ≡ g.count + (if r.0 then 1 else 0))
    × (r.1.global.count ≤ total)

admit-Counts :
    (name : String) (per_peer total : ℕ) (g : AttemptWindow) (ps : List Peer) (w : AttemptWindow)
    → g.count < total
    → Counts total g (admit name per_peer g ps w)
unfolding admit
admit-Counts name per_peer total g ps w lt = ground arith

admit_peer-Counts :
    (name : String) (now per_peer total : ℕ) (g : AttemptWindow) (ps : List Peer)
    (found : Option Peer)
    → g.count < total
    → Counts total g (admit_peer name now per_peer g ps found)
unfolding admit_peer
admit_peer-Counts name now per_peer total g ps none lt =
    ground (arith, admit-Counts name per_peer total g ps (fresh_window now) lt)
admit_peer-Counts name now per_peer total g ps (some p) lt =
    admit-Counts name per_peer total g ps p.window lt

allow-Counts :
    (l : Limiter) (name : String) (now per_peer total : ℕ)
    → is_open now l.global ≡ true
    → l.global.count ≤ total
    → Counts total l.global (allow l name now per_peer total)
unfolding allow allow_in
allow-Counts l name now per_peer total o le = rw o (
    ground (
      arith,
      admit_peer-Counts name now per_peer total l.global
          (filter (λ p. is_open now p.window) l.peers)
          (find (by_name name) (filter (λ p. is_open now p.window) l.peers)),
    ))

-- However many peers try within one global window, no more attempts are admitted than the total leaves:
-- those counted before and those admitted now stay within it.
pub attempts_within_total :
    (per_peer total : ℕ) (attempts : List (String × ℕ)) (l : Limiter)
    → All (λ a. is_open a.1 l.global ≡ true) attempts
    → l.global.count ≤ total
    → l.global.count + (run_attempts per_peer total attempts l).0 ≤ total
unfolding run_attempts
attempts_within_total per_peer total [] l h le = omega (arith, le)
attempts_within_total per_peer total ((name, now) ∷ rest) l h le =
    let l' : Limiter = (allow l name now per_peer total).1 in
    let step = allow-Counts l name now per_peer total h.0 le in
    let later = attempts_within_total per_peer total rest l' (moved l' rest h.1 step.0) step.2 in
    omega (arith, step.1, later)
  where
    moved :
        (l' : Limiter) (xs : List (String × ℕ))
        → All (λ a. is_open a.1 l.global ≡ true) xs
        → l'.global.start ≡ l.global.start
        → All (λ a. is_open a.1 l'.global ≡ true) xs
    moved l' [] h e = tt
    moved l' (x ∷ xs) h e = (rw e h.0, moved l' xs h.1 e)
