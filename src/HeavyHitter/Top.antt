-- ===== src/HeavyHitter/Top.antt =====
-- After any stream of additions the slots of include/heavyhitter.h have the best items.
use hm.Prelude.{
  ℕ, zero, suc, ◌+◌, ◌≤◌, ◌<◌, List, [], ◌∷◌, Bool, none, length, replicate, ltb, ◌≡◌, refl, arith,
  ◌⊎◌, inl, inr, Bool-cases, Option-cases, All,
}
use hm.Bytes.{Bytes}
use hm.HeavyHitter.{
  Item, empty_item, Loop, Place, hit, missing, find_slot, loop_start, add_hit, add_new, add, clear,
}
use hm.HeavyHitter.Order.{worth, comp-worth, worth-le, at, Seen, Finds, found}
use hm.HeavyHitter.Slots.{held, slots, slots-none, held-none}
use hm.HeavyHitter.Best.{AtLeast, IsBest, better, AtLeast-le}
use hm.HeavyHitter.Taken.{unchanged, filled, replaced}
use hm.HeavyHitter.Raised.{kept, raised}

module _ (up : Bool) (hh : List Item) (item : Bytes) (score : ℕ) (pos : 0 < length item) (y : Bytes)
    (b : ℕ) (t : IsBest up hh y b) where
  add_hit-IsBest :
      (k : ℕ)
      → Finds up hh item (hit k)
      → IsBest up (add_hit up hh k score).0 y (better up item score y b)
  unfolding add_hit
  add_hit-IsBest k (l, h) =
      let c = comp-worth up score (at hh k).score in
      elim (Bool-cases (ltb (worth up (at hh k).score) (worth up score))) [
        | inl e ↦ rw (c, e) (raised up hh item score y b t k l h (ground (arith, e)))
        | inr e ↦ rw (c, e) (kept up hh item score y b t k l h (ground (arith, e)))
      ]

  module _ (st : Loop) (s : Seen up hh item (length hh) st) where
    none_held : slots hh item ≡ 0
    none_held = slots-none hh item s.not_held

    -- without a free slot no slot has less than the lowest score
    all_above : st.index_empty_slot ≡ none → AtLeast up (worth up st.min_score + 1) hh
    all_above e k l = let live = s.full e k l in (live, omega (arith, s.least k l live))

    add_new-IsBest : IsBest up (add_new up hh item score st).0 y (better up item score y b)
    unfolding add_new
    add_new-IsBest = elim (Option-cases st.index_empty_slot) [
      | inr (k, e) ↦
          let (l, free) = s.vacant k e in
          rw e (filled up hh item score pos y b t k none_held l free)
      | inl e ↦ elim (Option-cases st.index_min_score) [
        | inl n ↦
            let low =
              AtLeast-le up (worth up score + 1) (worth up st.min_score + 1) hh
                (omega (arith, s.none_lower n, worth-le up score)) (all_above e) in
            rw (e, n) (unchanged up hh item score pos y b t none_held low)
        | inr (k, n) ↦
            let (l, live, same) = s.lowest k n in
            let c = comp-worth up score st.min_score in
            elim (Bool-cases (ltb (worth up st.min_score) (worth up score))) [
              | inr d ↦
                  let low =
                    AtLeast-le up (worth up score + 1) (worth up st.min_score + 1) hh
                      (ground (arith, d)) (all_above e) in
                  rw (e, n, c, d) (unchanged up hh item score pos y b t none_held low)
              | inl d ↦
                  let lt : worth up (at hh k).score < worth up score =
                    rw same (ground (arith, d)) in
                  rw (e, n, c, d)
                    (replaced up hh item score pos y b t k none_held l lt (rw same (all_above e)))
            ]
      ]
    ]

  abbrev outcome : Place → List Item × Bool
  outcome (hit k) = add_hit up hh k score
  outcome (missing st) = add_new up hh item score st

  outcome-IsBest :
      (p : Place) → Finds up hh item p → IsBest up (outcome p).0 y (better up item score y b)
  outcome-IsBest (hit k) f = add_hit-IsBest k f
  outcome-IsBest (missing st) f = add_new-IsBest st f

  add-outcome : add up hh item score ≡ outcome (find_slot up hh item 0 (loop_start up))
  unfolding add
  add-outcome = refl

  pub add-IsBest : IsBest up (add up hh item score).0 y (better up item score y b)
  add-IsBest =
      rw add-outcome (outcome-IsBest (find_slot up hh item 0 (loop_start up)) (found up hh item))

-- a stream of additions
unfoldable pub run : Bool → List Item → List (Bytes × ℕ) → List Item
unfolding add
run up hh [] = hh
run up hh ((item, score) ∷ adds) = run up (add up hh item score).0 adds

-- one more than the worth of the best score that the stream has for an item, or 0 where it has none
unfoldable pub best_from : Bool → ℕ → List (Bytes × ℕ) → Bytes → ℕ
best_from up b [] y = b
best_from up b ((item, score) ∷ adds) y = best_from up (better up item score y b) adds y

run-IsBest :
    (up : Bool) (adds : List (Bytes × ℕ)) (hh : List Item) (y : Bytes) (b : ℕ)
    → All (λ a. 0 < length a.0) adds
    → IsBest up hh y b
    → IsBest up (run up hh adds) y (best_from up b adds y)
unfolding run best_from
run-IsBest up [] hh y b v t = t
run-IsBest up ((item, score) ∷ adds) hh y b v t =
    run-IsBest up adds (add up hh item score).0 y (better up item score y b) v.1
      (add-IsBest up hh item score v.0 y b t)

slots-clear : (size : ℕ) (y : Bytes) → slots (replicate size empty_item) y ≡ 0
unfolding slots
slots-clear zero y = refl
slots-clear (suc size) y = omega (arith, slots-clear size y)

-- After a stream of additions of items that are not empty to cleared slots, each item is held by at most one
-- slot; and for each item either the slots hold its best score in the stream, or they do not hold it, all are in use, and
-- no score in them is worse than that best score. What is best is the largest signed number or, with Up false, the smallest.
pub run-top :
    (up : Bool) (size : ℕ) (adds : List (Bytes × ℕ)) (y : Bytes)
    → All (λ a. 0 < length a.0) adds
    → (slots (run up (clear size) adds) y ≤ 1)
      × ((held up (run up (clear size) adds) y ≡ best_from up 0 adds y)
          ⊎ ((held up (run up (clear size) adds) y ≡ 0)
              × AtLeast up (best_from up 0 adds y) (run up (clear size) adds)))
unfolding clear
run-top up size adds y v =
    let z = slots-clear size y in
    run-IsBest up adds (replicate size empty_item) y 0 v
      (omega (arith, z), inl (held-none up (replicate size empty_item) y z))
