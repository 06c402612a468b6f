-- ===== src/HeavyHitter/Raised.antt =====
-- An addition of include/heavyhitter.h to the slot that holds the item.
use hm.Prelude.{
  ℕ, ◌+◌, ◌≤◌, ◌<◌, List, Bool, true, false, length, set, ◌≡◌, refl, sym, ◌∙◌, ap, arith, inl, inr,
  Bool-cases,
}
use hm.Bytes.{Bytes, equals_bytes}
use hm.MisraGries.Slots.{equals-eq, equals_refl}
use hm.HeavyHitter.{Item, is_item, cmp_item}
use hm.HeavyHitter.Order.{worth, at, holds}
use hm.HeavyHitter.Slots.{share, indicator, held, held-set, slots-set, held-at}
use hm.HeavyHitter.Best.{IsBest, larger, better, AtLeast-set}

module _ (up : Bool) (hh : List Item) (item : Bytes) (score : ℕ) (y : Bytes) (b : ℕ)
    (t : IsBest up hh y b) (k : ℕ) (l : k < length hh) (h : holds hh item k ≡ true) where
  own_slot : equals_bytes y item ≡ true → holds hh y k ≡ true
  own_slot c = ap (λ z. holds hh z k) (equals-eq y item c) ∙ h

  -- whatever the slot holds is the item
  own_item : holds hh y k ≡ true → equals_bytes y item ≡ true
  unfolding cmp_item
  own_item o =
      let a : y ≡ (at hh k).item = equals-eq y (at hh k).item (ground (arith, o)) in
      let d : item ≡ (at hh k).item = equals-eq item (at hh k).item (ground (arith, h)) in
      ap (λ z. equals_bytes z item) (a ∙ sym d) ∙ equals_refl item

  best_held : holds hh y k ≡ true → (b ≡ worth up (at hh k).score + 1) × (held up hh y ≡ b)
  best_held o =
      let all_held = held-at up hh y k t.0 l o in
      elim t.1 [ inl e ↦ (sym e ∙ all_held, e) | inr (z, a) ↦ absurd (omega (arith, z, all_held)) ]

  pub kept : worth up score ≤ worth up (at hh k).score → IsBest up hh y (better up item score y b)
  kept le = elim (Bool-cases (equals_bytes y item)) [
    | inr c ↦ rw c t
    | inl c ↦
        let r = best_held (own_slot c) in
        let top : larger b (worth up score + 1) ≡ b = ground (arith, r.0, le) in rw (c, top) t
  ]

  abbrev pub better_slot : Item
  better_slot = record (at hh k) { score = score }

  slot_live : is_item (at hh k) ≡ true
  slot_live = ground (arith, h)

  pub raised :
      worth up (at hh k).score < worth up score
      → IsBest up (set hh k better_slot) y (better up item score y b)
  unfolding cmp_item
  raised lt =
      let hs' = held-set up hh k better_slot y l in
      let ss' = slots-set hh k better_slot y l in
      elim (Bool-cases (holds hh y k)) [
        | inl o ↦
            let r = best_held o in
            let so : share up (at hh k) y ≡ worth up (at hh k).score + 1 = rw o refl in
            let sn : share up better_slot y ≡ worth up score + 1 = rw o refl in
            let si : indicator better_slot y ≡ indicator (at hh k) y = refl in
            let top : larger b (worth up score + 1) ≡ worth up score + 1 =
              ground (arith, r.0, lt) in
            rw (own_item o, top)
              (omega (arith, ss', si, t.0), inl (omega (arith, hs', so, sn, r.0, r.1)))
        | inr o ↦
            let so : share up (at hh k) y ≡ 0 = rw o refl in
            let sn : share up better_slot y ≡ 0 = rw o refl in
            let si : indicator better_slot y ≡ indicator (at hh k) y = refl in
            let same : held up (set hh k better_slot) y ≡ held up hh y =
              omega (arith, hs', so, sn) in
            let c : equals_bytes y item ≡ false = elim (Bool-cases (equals_bytes y item)) [
              | inr e ↦ e
              | inl e ↦ absurd (let q = own_slot e in cc)
            ] in
            rw c (
              omega (arith, ss', si, t.0),
              elim t.1 [
                | inl e ↦ inl (same ∙ e)
                | inr (z, a) ↦ inr (
                  same ∙ z,
                  AtLeast-set up b hh k better_slot l slot_live (omega (arith, (a k l).1, lt)) a,
                )
              ],
            )
      ]
