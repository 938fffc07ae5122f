-- ===== src/Payments/Release.antt =====
-- internal/service/order.go: the way out of a lock of a payment, and what the locks promise.
use vn_bot.Base.{
  ℕ, zero, suc, ◌-◌, ◌≡◌, refl, ap, subst, String, true, false, ◌&&◌, some, List, ◌∷◌, ◌++◌, arith,
  inl, inr, Bool-cases, ◌==◌, ==_iff, if◌then◌else◌, str_eq, eq_iff,
}
use vn_bot.Base.Maps.{text_key, lookup, delete, lookup-delete, same_refl}
use vn_bot.Payments.Lock.{
  Place, outside, waiting, holding, dropping, Locks, idle, with_token, dropped, Step, create, join,
  acquire, give_up, release, drop, Reach, start, later,
}
use vn_bot.Payments.Exclusion.{uses, holds, users, IsSound, at_place, had, create-IsSound}
use vn_bot.Payments.Joining.{join-IsSound, acquire-IsSound}

module _ (s : Locks) (i : IsSound s) (id : String) (a : ℕ) (before after : List Place) where
  -- The lock that a callback has in hand is the one of its payment.
  in_map :
      (p : Place)
      → uses id a p ≡ true
      → s.callbacks ≡ before ++ p ∷ after
      → lookup id s.entries ≡ some a
  in_map p u q = i.mapped id a (ground (arith, had s i id before after (uses id a) p q, u))

  give_up-IsSound :
      s.callbacks ≡ before ++ waiting id a ∷ after
      → IsSound (record s { callbacks = before ++ dropping id a ∷ after })
  give_up-IsSound q = record {
    mapped = λ x b k. ground (
      arith,
      k,
      i.mapped x b,
      had s i id before after (uses x b) (waiting id a) q,
      at_place s i id before after (uses x b) (dropping id a),
    );
    counted = λ x b k. ground (
      arith,
      i.counted x b k,
      had s i id before after (uses x b) (waiting id a) q,
      at_place s i id before after (uses x b) (dropping id a),
    );
    wanted = i.wanted;
    single = λ x b k. ground (
      arith,
      i.single x b k,
      had s i id before after (holds x b) (waiting id a) q,
      at_place s i id before after (holds x b) (dropping id a),
    );
    taken = i.taken;
    apart = i.apart;
  }

  release-IsSound :
      s.callbacks ≡ before ++ holding id a ∷ after
      → s.token a ≡ false
      → IsSound (with_token true a (before ++ dropping id a ∷ after) s)
  release-IsSound q h =
      let held =
        in_map (holding id a) (ground (arith, same_refl ⦃k = text_key⦄ id, ==_iff a a)) q in
      record {
        mapped = λ x b k. ground (
          arith,
          k,
          i.mapped x b,
          had s i id before after (uses x b) (holding id a) q,
          at_place s i id before after (uses x b) (dropping id a),
        );
        counted = λ x b k. ground (
          arith,
          i.counted x b k,
          had s i id before after (uses x b) (holding id a) q,
          at_place s i id before after (uses x b) (dropping id a),
        );
        wanted = i.wanted;
        single = λ x b k. ground (
          arith,
          i.single x b k,
          h,
          had s i id before after (holds x b) (holding id a) q,
          at_place s i id before after (holds x b) (dropping id a),
          ==_iff b a,
          ==_iff a b,
          eq_iff id x,
          i.apart id x a held,
        );
        taken = i.taken;
        apart = i.apart;
      }

  -- The entries behind `drop` are entries from before; the one of the lock is there only if a callback
  -- still counts on it.
  entry_of_drop :
      (x : String) (b : ℕ)
      → lookup x (if s.waiters a - 1 == 0 then delete id s.entries else s.entries) ≡ some b
      → (lookup x s.entries ≡ some b) × ((str_eq id x && s.waiters a - 1 == 0) ≡ false)
  entry_of_drop x b k = elim (Bool-cases (s.waiters a - 1 == 0)) [
    | inl e ↦ (
      ground (arith, e, k, lookup-delete id x s.entries),
      ground (arith, e, k, lookup-delete id x s.entries),
    )
    | inr e ↦ (ground (arith, e, k), ground (arith, e))
  ]

  drop-IsSound :
      s.callbacks ≡ before ++ dropping id a ∷ after
      → IsSound (dropped id a (before ++ outside ∷ after) s)
  drop-IsSound q =
      let held =
        in_map (dropping id a) (ground (arith, same_refl ⦃k = text_key⦄ id, ==_iff a a)) q in
      record {
        mapped = λ x b k.
            let was = had s i id before after (uses x b) (dropping id a) q in
            let now = at_place s i id before after (uses x b) outside in
            let old = i.mapped x b (ground (arith, k, was, now)) in
            elim (Bool-cases (str_eq id x)) [
              | inr e ↦ ground (arith, e, old, lookup-delete id x s.entries)
              | inl e ↦
                  let mine : lookup x s.entries ≡ some a =
                    subst (λ y. lookup y s.entries ≡ some a) ((eq_iff id x).0 e) held in
                  let same : b ≡ a = ground (arith, mine, old) in
                  ground
                    (arith, e, old, k, was, now, i.counted x b old, ap s.waiters same, ==_iff a b)
            ];
        counted = λ x b k.
            let (old, left) = entry_of_drop x b k in
            ground (
              arith,
              old,
              left,
              i.counted x b old,
              i.wanted id a held,
              had s i id before after (uses x b) (dropping id a) q,
              at_place s i id before after (uses x b) outside,
              ==_iff b a,
              ==_iff a b,
              eq_iff id x,
              i.apart id x a held,
            );
        wanted = λ x b k.
            let (old, left) = entry_of_drop x b k in
            ground (
              arith,
              old,
              left,
              i.wanted x b old,
              ==_iff b a,
              eq_iff id x,
              i.apart id x a held,
              same_refl ⦃k = text_key⦄ id,
            );
        single = λ x b k.
            let (old, left) = entry_of_drop x b k in
            ground (
              arith,
              old,
              i.single x b old,
              had s i id before after (holds x b) (dropping id a) q,
              at_place s i id before after (holds x b) outside,
            );
        taken = λ x b k. i.taken x b (entry_of_drop x b k).0;
        apart = λ x y b k m. i.apart x y b (entry_of_drop x b k).0 (entry_of_drop y b m).0;
      }

Step-IsSound : {s t : Locks} → Step s t → IsSound s → IsSound t
Step-IsSound {s} (create id before after q h) i = create-IsSound s i id before after q h
Step-IsSound {s} (join id a before after q h) i = join-IsSound s i id before after a q h
Step-IsSound {s} (acquire id a before after q h) i = acquire-IsSound s i id before after a q h
Step-IsSound {s} (give_up id a before after q) i = give_up-IsSound s i id a before after q
Step-IsSound {s} (release id a before after q h) i = release-IsSound s i id a before after q h
Step-IsSound {s} (drop id a before after q) i = drop-IsSound s i id a before after q

nobody_uses : (id : String) (a n : ℕ) → users id a (idle n) ≡ 0
nobody_uses id a zero = refl
nobody_uses id a (suc n) = omega (arith, nobody_uses id a n)

pub Reach-IsSound : {s : Locks} → Reach s → IsSound s
unfolding lookup
Reach-IsSound (start n) = record {
  mapped = λ x b k. absurd (omega (arith, k, nobody_uses x b n));
  counted = λ x b k. absurd (ground (arith, k));
  wanted = λ x b k. absurd (ground (arith, k));
  single = λ x b k. absurd (ground (arith, k));
  taken = λ x b k. absurd (ground (arith, k));
  apart = λ x y b k m. absurd (ground (arith, k));
}
Reach-IsSound (later r st) = Step-IsSound st (Reach-IsSound r)
