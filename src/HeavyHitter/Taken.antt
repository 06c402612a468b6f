-- ===== src/HeavyHitter/Taken.antt =====
-- An addition of include/heavyhitter.h that takes a slot for a new item, or leaves all as they are.
use hm.Prelude.{
  ℕ, ◌+◌, ◌≤◌, ◌<◌, List, Bool, true, false, length, set, ltb, ◌&&◌, ◌≡◌, refl, sym, ◌∙◌, ap, arith,
  ◌⊎◌, inl, inr, Bool-cases,
}
use hm.Bytes.{Bytes, equals_bytes}
use hm.MisraGries.Slots.{equals-eq}
use hm.HeavyHitter.{Item, is_item, cmp_item}
use hm.HeavyHitter.Order.{worth, at, holds}
use hm.HeavyHitter.Slots.{
  share, indicator, held, slots, held-set, slots-set, held-none, held-at, slots-some,
}
use hm.HeavyHitter.Best.{AtLeast, IsBest, larger, better, AtLeast-le, AtLeast-set}

module _ (up : Bool) (hh : List Item) (item : Bytes) (score : ℕ) (pos : 0 < length item) where
  abbrev pub new : Item
  new = record { score = score; item = item }

  new_live : is_item new ≡ true
  new_live = ground (arith, pos)

  abbrev pub w : ℕ
  w = worth up score + 1

  -- what the new slot has of an item
  new-holds : (y : Bytes) → (is_item new && cmp_item new y) ≡ equals_bytes y item
  unfolding cmp_item
  new-holds y = rw new_live refl

  not_held : (y : Bytes) (k : ℕ) → slots hh y ≡ 0 → k < length hh → holds hh y k ≡ false
  not_held y k z l = elim (Bool-cases (holds hh y k)) [
    | inr e ↦ e
    | inl e ↦ absurd (omega (arith, slots-some hh y k l e, z))
  ]

  module _ (y : Bytes) (b : ℕ) (t : IsBest up hh y b) where
    -- nothing is written, where what is added is no better than any slot
    pub unchanged : slots hh item ≡ 0 → AtLeast up w hh → IsBest up hh y (better up item score y b)
    unchanged none_held low = elim (Bool-cases (equals_bytes y item)) [
      | inr c ↦ rw c t
      | inl c ↦
          let same : y ≡ item = equals-eq y item c in
          let z : held up hh y ≡ 0 = held-none up hh y (ap (slots hh) same ∙ none_held) in
          let worse : AtLeast up (larger b (worth up score + 1)) hh =
            elim (Bool-cases (ltb b (worth up score + 1))) [
              | inl e ↦ rw e low
              | inr e ↦
                  rw e (elim t.1 [ inl h ↦ absurd (ground (arith, e, h, z)) | inr (h, a) ↦ a ])
            ] in
          rw c (t.0, inr (z, worse))
    ]

    -- a slot is taken for a new item
    module _ (k : ℕ) (none_held : slots hh item ≡ 0) (l : k < length hh) where
      hs : held up (set hh k new) y + share up (at hh k) y ≡ held up hh y + share up new y
      hs = held-set up hh k new y l

      ss : slots (set hh k new) y + indicator (at hh k) y ≡ slots hh y + indicator new y
      ss = slots-set hh k new y l

      -- the new item itself
      own :
          equals_bytes y item ≡ true
          → (b ≡ 0) ⊎ (b < w)
          → IsBest up (set hh k new) y (larger b (worth up score + 1))
      own c lt =
          let z : slots hh y ≡ 0 = ap (slots hh) (equals-eq y item c) ∙ none_held in
          let n : (is_item new && cmp_item new y) ≡ true = new-holds y ∙ c in
          let o = not_held y k z l in
          let si : indicator new y ≡ 1 = rw n refl in
          let sn : share up new y ≡ worth up score + 1 = rw n refl in
          let so : share up (at hh k) y ≡ 0 = rw o refl in
          let top : larger b (worth up score + 1) ≡ worth up score + 1 = ground (arith, lt) in
          rw top (omega (arith, ss, si, z), inl (omega (arith, hs, sn, so, held-none up hh y z)))

      -- another item, which the slot did not hold
      other :
          equals_bytes y item ≡ false
          → holds hh y k ≡ false
          → (slots (set hh k new) y ≤ 1) × (held up (set hh k new) y ≡ held up hh y)
      other c o =
          let n : (is_item new && cmp_item new y) ≡ false = new-holds y ∙ c in
          let si : indicator new y ≡ 0 = rw n refl in
          let sn : share up new y ≡ 0 = rw n refl in
          let so : share up (at hh k) y ≡ 0 = rw o refl in
          (omega (arith, ss, si, t.0), omega (arith, hs, sn, so))

      -- the item that the slot held
      evicted :
          equals_bytes y item ≡ false
          → holds hh y k ≡ true
          → worth up (at hh k).score < worth up score
          → AtLeast up (worth up (at hh k).score + 1) hh
          → IsBest up (set hh k new) y b
      evicted c o lt low =
          let n : (is_item new && cmp_item new y) ≡ false = new-holds y ∙ c in
          let si : indicator new y ≡ 0 = rw n refl in
          let sn : share up new y ≡ 0 = rw n refl in
          let so : share up (at hh k) y ≡ worth up (at hh k).score + 1 = rw o refl in
          let all_held = held-at up hh y k t.0 l o in
          let old : b ≡ worth up (at hh k).score + 1 = elim t.1 [
            | inl h ↦ sym h ∙ all_held
            | inr (z, a) ↦ absurd (omega (arith, z, all_held))
          ] in
          let worse = AtLeast-le up b (worth up (at hh k).score + 1) hh (omega (arith, old)) low in
          (
            omega (arith, ss, si, t.0),
            inr (
              omega (arith, hs, sn, so, all_held),
              AtLeast-set up b hh k new l new_live (omega (arith, old, lt)) worse,
            ),
          )

      pub filled : is_item (at hh k) ≡ false → IsBest up (set hh k new) y (better up item score y b)
      filled free =
          let o : holds hh y k ≡ false = rw free refl in
          elim t.1 [
            | inr (z, a) ↦ absurd (let live = (a k l).0 in cc)
            | inl h ↦ elim (Bool-cases (equals_bytes y item)) [
              | inl c ↦
                  let z : slots hh y ≡ 0 = ap (slots hh) (equals-eq y item c) ∙ none_held in
                  rw c (own c (inl (sym h ∙ held-none up hh y z)))
              | inr c ↦ let r = other c o in rw c (r.0, inl (r.1 ∙ h))
            ]
          ]

      pub replaced :
          worth up (at hh k).score < worth up score
          → AtLeast up (worth up (at hh k).score + 1) hh
          → IsBest up (set hh k new) y (better up item score y b)
      replaced lt low = elim (Bool-cases (equals_bytes y item)) [
        | inl c ↦
            let z : slots hh y ≡ 0 = ap (slots hh) (equals-eq y item c) ∙ none_held in
            rw c (
              own c (elim t.1 [
                | inl h ↦ inl (sym h ∙ held-none up hh y z)
                | inr (h, a) ↦ inr (omega (arith, (a k l).1, lt))
              ]))
        | inr c ↦ elim (Bool-cases (holds hh y k)) [
          | inl o ↦ rw c (evicted c o lt low)
          | inr o ↦
              let r = other c o in
              rw c (
                r.0,
                elim t.1 [
                  | inl h ↦ inl (r.1 ∙ h)
                  | inr (h, a) ↦ inr (
                    r.1 ∙ h,
                    AtLeast-set up b hh k new l new_live (omega (arith, (a k l).1, lt)) a,
                  )
                ],
              )
        ]
      ]
