-- ===== src/HeavyHitter/Order.antt =====
-- What the loop of `add` in include/heavyhitter.h finds.
use hm.Prelude.{
  ℕ, suc, ◌+◌, ◌-◌, ◌^◌, ◌≤◌, ◌<◌, List, [], ◌∷◌, Bool, true, false, none, some, length, get_or,
  ltb, ◌==◌, ◌&&◌, ◌≡◌, refl, sym, ◌∙◌, ap, subst, arith, inl, inr, Bool-cases,
}
use hm.Bytes.{Bytes}
use hm.HeavyHitter.{
  Item, is_item, cmp_item, empty_item, signed_rank, comp, start, Loop, Place, hit, missing, pass,
  find_slot, loop_start,
}

-- how good a score is: the better of two scores has the larger worth
abbrev pub worth : Bool → ℕ → ℕ
worth true score = signed_rank score
worth false score = (2 ^ 64 - 1) - signed_rank score

pub comp-worth : (up : Bool) (a b : ℕ) → comp up a b ≡ ltb (worth up b) (worth up a)
unfolding comp
comp-worth true a b = refl
comp-worth false a b = ground arith

pub worth-le : (up : Bool) (a : ℕ) → worth up a ≤ 2 ^ 64 - 1
worth-le true a = omega arith
worth-le false a = omega arith

start-worth : (up : Bool) → worth up (start up) ≡ 2 ^ 64 - 1
start-worth true = omega arith
start-worth false = omega arith

abbrev pub at : List Item → ℕ → Item
at hh k = get_or hh k empty_item

-- slot `k` is in use and holds the item
abbrev pub holds : List Item → Bytes → ℕ → Bool
holds hh y k = is_item (at hh k) && cmp_item (at hh k) y

module _ (up : Bool) (hh : List Item) (item : Bytes) where
  -- what the loop knows of the slots before `i`
  pub record Seen (i : ℕ) (l : Loop) : Type 0 where
    pub not_held : (k : ℕ) → k < i → holds hh item k ≡ false
    pub vacant : (e : ℕ) → l.index_empty_slot ≡ some e → (e < i) × (is_item (at hh e) ≡ false)
    pub full : l.index_empty_slot ≡ none → (k : ℕ) → k < i → is_item (at hh k) ≡ true
    pub least :
        (k : ℕ) → k < i → is_item (at hh k) ≡ true → worth up l.min_score ≤ worth up (at hh k).score
    pub lowest :
        (m : ℕ)
        → l.index_min_score ≡ some m
        → (m < i) × (is_item (at hh m) ≡ true) × ((at hh m).score ≡ l.min_score)
    pub none_lower : l.index_min_score ≡ none → worth up l.min_score ≡ 2 ^ 64 - 1

  pub Seen-start : Seen 0 (loop_start up)
  Seen-start = record {
    not_held = λ k h. absurd (omega (arith, h));
    vacant = λ e h. absurd (cc);
    full = λ h k l. absurd (omega (arith, l));
    least = λ k h. absurd (omega (arith, h));
    lowest = λ m h. absurd (cc);
    none_lower = λ h. start-worth up;
  }

  -- what holds of the slots before `i`, and of slot `i`, holds of those before `i + 1`
  extend : (P : ℕ → Type 0) (i : ℕ) → ((k : ℕ) → k < i → P k) → P i → (k : ℕ) → k < i + 1 → P k
  extend P i f p k h = elim (Bool-cases (k == i)) [
    | inl e ↦ let same : i ≡ k = ground (arith, e) in subst P same p
    | inr e ↦ f k (ground (arith, e, h))
  ]

  module _ (i : ℕ) (l : Loop) (s : Seen i l) (miss : holds hh item i ≡ false) where
    Seen-empty : is_item (at hh i) ≡ false → Seen (i + 1) (record l { index_empty_slot = some i })
    Seen-empty e = record {
      not_held = extend (λ k. holds hh item k ≡ false) i s.not_held miss;
      vacant = λ k h. let same : i ≡ k = ground (arith, h) in (omega arith, rw (← same) e);
      full = λ h k b. absurd (cc);
      least =
          extend (λ k. is_item (at hh k) ≡ true → worth up l.min_score ≤ worth up (at hh k).score) i
            s.least (λ t. absurd (ground (arith, t, e)));
      lowest = λ m h. let r = s.lowest m h in (omega (arith, r.0), r.1, r.2);
      none_lower = s.none_lower;
    }

    still_vacant : (e : ℕ) → l.index_empty_slot ≡ some e → (e < i + 1) × (is_item (at hh e) ≡ false)
    still_vacant e h = let r = s.vacant e h in (omega (arith, r.0), r.1)

    Seen-higher :
        is_item (at hh i) ≡ true → worth up l.min_score ≤ worth up (at hh i).score → Seen (i + 1) l
    Seen-higher e le = record {
      not_held = extend (λ k. holds hh item k ≡ false) i s.not_held miss;
      vacant = still_vacant;
      full = λ h. extend (λ k. is_item (at hh k) ≡ true) i (s.full h) e;
      least =
          extend (λ k. is_item (at hh k) ≡ true → worth up l.min_score ≤ worth up (at hh k).score) i
            s.least (λ t. le);
      lowest = λ m h. let r = s.lowest m h in (omega (arith, r.0), r.1, r.2);
      none_lower = s.none_lower;
    }

    Seen-lower :
        is_item (at hh i) ≡ true
        → worth up (at hh i).score < worth up l.min_score
        → Seen (i + 1) (record l { min_score = (at hh i).score; index_min_score = some i })
    Seen-lower e lt = record {
      not_held = extend (λ k. holds hh item k ≡ false) i s.not_held miss;
      vacant = still_vacant;
      full = λ h. extend (λ k. is_item (at hh k) ≡ true) i (s.full h) e;
      least =
          extend
            (λ k. is_item (at hh k) ≡ true → worth up (at hh i).score ≤ worth up (at hh k).score) i
            (λ k b t. omega (arith, s.least k b t, lt)) (λ t. omega arith);
      lowest = λ m h.
          let same : i ≡ m = ground (arith, h) in
          (omega (arith, ap (λ n. n) same), rw (← same) e, ap (λ n. (at hh n).score) (sym same));
      none_lower = λ h. absurd (cc);
    }

    Seen-pass : Seen (i + 1) (pass up l i (at hh i))
    unfolding pass
    Seen-pass = elim (Bool-cases (is_item (at hh i))) [
      | inr e ↦ rw e (Seen-empty e)
      | inl e ↦
          let c = comp-worth up l.min_score (at hh i).score in
          elim (Bool-cases (ltb (worth up (at hh i).score) (worth up l.min_score))) [
            | inl lt ↦ rw (e, c, lt) (Seen-lower e (ground (arith, lt)))
            | inr le ↦ rw (e, c, le) (Seen-higher e (ground (arith, le)))
          ]
    ]

  -- what the loop finds
  abbrev pub Finds : Place → Type 0
  Finds (hit k) = (k < length hh) × (holds hh item k ≡ true)
  Finds (missing l) = Seen (length hh) l

  find_slot-Finds :
      (xs : List Item) (i : ℕ) (l : Loop)
      → ((k : ℕ) → get_or xs k empty_item ≡ at hh (i + k))
      → i + length xs ≡ length hh
      → Seen i l
      → Finds (find_slot up xs item i l)
  unfolding find_slot
  find_slot-Finds [] i l e n s = subst (λ j. Seen j l) (omega (arith, n)) s
  find_slot-Finds (x ∷ xs) i l e n s =
      let here : x ≡ at hh i = e 0 ∙ ap (at hh) (omega arith) in
      elim (Bool-cases (is_item x && cmp_item x item)) [
        | inl t ↦ rw t (omega (arith, n), rw (← here) t)
        | inr t ↦
            let next = Seen-pass i l s (rw (← here) t) in
            rw t (
              find_slot-Finds xs (i + 1) (pass up l i x) (λ k. e (suc k) ∙ ap (at hh) (omega arith))
                (omega (arith, n)) (subst (λ y. Seen (i + 1) (pass up l i y)) (sym here) next))
      ]

  pub found : Finds (find_slot up hh item 0 (loop_start up))
  found =
      find_slot-Finds hh 0 (loop_start up) (λ k. ap (at hh) (omega arith)) (omega arith) Seen-start
