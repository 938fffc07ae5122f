-- ===== src/Payments/Joining.antt =====
-- internal/service/order.go: a callback that finds the lock of its payment, and one that receives its
-- token.
use vn_bot.Base.{ℕ, ◌≡◌, String, true, false, some, List, ◌∷◌, ◌++◌, arith, ==_iff, eq_iff}
use vn_bot.Base.Maps.{text_key, lookup, same_refl}
use vn_bot.Payments.Lock.{Place, outside, waiting, holding, Locks, joined, with_token}
use vn_bot.Payments.Exclusion.{uses, holds, IsSound, at_place, had}

module _ (s : Locks) (i : IsSound s) (id : String) (before after : List Place) (a : ℕ) where
  pub join-IsSound :
      s.callbacks ≡ before ++ outside ∷ after
      → lookup id s.entries ≡ some a
      → IsSound (joined a (before ++ waiting id a ∷ after) s)
  join-IsSound q h = record {
    mapped = λ x b k. ground (
      arith,
      k,
      h,
      i.mapped x b,
      had s i id before after (uses x b) outside q,
      at_place s i id before after (uses x b) (waiting id a),
      eq_iff id x,
      ==_iff a b,
    );
    counted = λ x b k. ground (
      arith,
      k,
      i.counted x b k,
      had s i id before after (uses x b) outside q,
      at_place s i id before after (uses x b) (waiting id a),
      ==_iff b a,
      ==_iff a b,
      i.apart id x a h,
      eq_iff id x,
    );
    wanted = λ x b k. ground (arith, i.wanted x b k);
    single = λ x b k. ground (
      arith,
      i.single x b k,
      had s i id before after (holds x b) outside q,
      at_place s i id before after (holds x b) (waiting id a),
    );
    taken = i.taken;
    apart = i.apart;
  }

  pub acquire-IsSound :
      s.callbacks ≡ before ++ waiting id a ∷ after
      → s.token a ≡ true
      → IsSound (with_token false a (before ++ holding id a ∷ after) s)
  acquire-IsSound q h = record {
    mapped = λ x b k. ground (
      arith,
      k,
      i.mapped x b,
      had s i id before after (uses x b) (waiting id a) q,
      at_place s i id before after (uses x b) (holding id a),
    );
    counted = λ x b k. ground (
      arith,
      i.counted x b k,
      had s i id before after (uses x b) (waiting id a) q,
      at_place s i id before after (uses x b) (holding id a),
    );
    wanted = i.wanted;
    single = λ x b k. ground (
      arith,
      i.single x b k,
      h,
      had s i id before after (holds x b) (waiting id a) q,
      at_place s i id before after (holds x b) (holding id a),
      ==_iff b a,
      ==_iff a b,
      eq_iff id x,
      i.apart id x a held,
    );
    taken = i.taken;
    apart = i.apart;
  }
    where
      held : lookup id s.entries ≡ some a
      held = i.mapped id a (
          ground (
            arith,
            had s i id before after (uses id a) (waiting id a) q,
            ==_iff a a,
            same_refl ⦃k = text_key⦄ id,
          ))
