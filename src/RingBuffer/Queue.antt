-- ===== src/RingBuffer/Queue.antt =====
-- include/ringbuffer.h: how many items a push leaves.
use hm.Prelude.{
  ℕ, ◌+◌, ◌-◌, ◌<◌, List, Bool, true, false, ltb, leb, ◌==◌, ◌&&◌, length, get_or, set,
  get_or-set_self, length-set, get_or-set_ne, if◌then◌else◌, ◌≡◌, ◌≢◌, refl, sym, ◌∙◌, ap, arith,
  Bool-cases, inl, inr,
}
use hm.Bytes.{Bytes}
use hm.RingBuffer.{
  Item, RingBuffer, no_item, is_item, set_item, is_item_valid, slot, next_index, check, count, push,
}

-- how far behind the read index an item stands
abbrev pub distance : ℕ → ℕ → ℕ → ℕ
distance size tail i = if leb tail i then i - tail else (i + size) - tail

-- count, of the indexes and of whether the item at the read index is set
abbrev pub count_of : ℕ → ℕ → ℕ → Bool → ℕ
count_of size h t u =
    if ltb h size && ltb t size
    then (if h == t then (if u then size else 0) else (if ltb t h then h - t else (size - t) + h))
    else 0

-- the read index after a push
abbrev pub tail_of : ℕ → ℕ → ℕ → Bool → ℕ
tail_of size h t u = if h == t && u then next_index size 0 t else t

count_step :
    (size h t : ℕ) (u o w : Bool)
    → h < size
    → t < size
    → w ≡ (if tail_of size h t u == h then true else o)
    → o ≡ ltb (distance size t (tail_of size h t u)) (count_of size h t u)
    → count_of size (next_index size 0 h) (tail_of size h t u) w
      ≡ (if count_of size h t u == size then size else count_of size h t u + 1)
count_step size h t u o w a b e f = ground (arith, a, b, e, f)

used_step :
    (size h t i : ℕ) (u : Bool)
    → h < size
    → t < size
    → i < size
    → u ≡ ltb (distance size t t) (count_of size h t u)
    → (if i == h then true else ltb (distance size t i) (count_of size h t u))
      ≡ ltb
          (distance size (tail_of size h t u) i)
          (if count_of size h t u == size then size else count_of size h t u + 1)
used_step size h t i u a b c e = ground (arith, a, b, c, e)

next_in_range : (size i : ℕ) → i < size → next_index size 0 i < size
next_in_range size i h = ground (arith, h)

tail_in_range : (size h t : ℕ) (u : Bool) → t < size → tail_of size h t u < size
tail_in_range size h t u b = ground (arith, b)

module _ (size max_item : ℕ) where
  -- The indexes are in range, and exactly the `count` items from the read index on are set.
  pub record IsValid (rb : RingBuffer) : Type 0 where
    pub items : length rb.items ≡ size
    pub head : rb.head < size
    pub tail : rb.tail < size
    pub used :
        (i : ℕ)
        → i < size
        → is_item (slot size max_item rb i) ≡ ltb (distance size rb.tail i) (count size max_item rb)

  module _ (rb : RingBuffer) (sv : Bytes) (v : IsValid rb)
      (ok : is_item_valid max_item sv ≡ true) where
    abbrev pub unread : Bool
    unread = is_item (slot size max_item rb rb.tail)

    abbrev pub pushed : List Item
    pushed = set rb.items rb.head (set_item (slot size max_item rb rb.head) sv)

    count_now : count size max_item rb ≡ count_of size rb.head rb.tail unread
    unfolding count
    count_now = refl

    pub push_valid : push size max_item rb sv ≡ record {
      head = next_index size 0 rb.head;
      tail = tail_of size rb.head rb.tail unread;
      items = pushed;
    }
    unfolding push
    push_valid = let c : check size max_item rb ≡ true = ground (arith, v.head, v.tail) in rw c refl

    abbrev pub new : Item
    new = set_item (slot size max_item rb rb.head) sv

    pub new_set : is_item new ≡ true
    new_set = ground (arith, ok)

    hit : (i : ℕ) → (i == rb.head) ≡ true → is_item (get_or pushed i no_item) ≡ true
    hit i e =
        let same : rb.head ≡ i = ground (arith, e) in
        ap (λ j. is_item (get_or pushed j no_item)) (sym same)
        ∙ ap is_item (get_or-set_self rb.items rb.head new no_item (omega (arith, v.head, v.items)))
        ∙ new_set

    ne : (i : ℕ) → (i == rb.head) ≡ false → rb.head ≢ i
    ne i e = ground (arith, e)

    slot-pushed :
        (i : ℕ)
        → is_item (get_or pushed i no_item)
          ≡ (if i == rb.head then true else is_item (slot size max_item rb i))
    slot-pushed i = elim (Bool-cases (i == rb.head)) [
      | inl e ↦ rw e (hit i e)
      | inr e ↦ rw e (ap is_item (get_or-set_ne rb.items rb.head i new no_item (ne i e)))
    ]

    used_now :
        (i : ℕ)
        → i < size
        → is_item (slot size max_item rb i)
          ≡ ltb (distance size rb.tail i) (count_of size rb.head rb.tail unread)
    used_now i h = v.used i h ∙ ap (ltb (distance size rb.tail i)) count_now

    pub count_pushed :
        count size max_item (push size max_item rb sv)
        ≡ (if count size max_item rb == size then size else count size max_item rb + 1)
    unfolding count
    count_pushed =
        let h = rb.head in
        let t' = tail_of size h rb.tail unread in
        ap (count size max_item) push_valid
        ∙ count_step size h rb.tail unread (is_item (slot size max_item rb t'))
            (is_item (get_or pushed t' no_item)) v.head v.tail (slot-pushed t')
            (used_now t' (tail_in_range size h rb.tail unread v.tail))

    used_pushed :
        (i : ℕ)
        → i < size
        → is_item (get_or pushed i no_item)
          ≡ ltb
              (distance size (tail_of size rb.head rb.tail unread) i)
              (count size max_item (push size max_item rb sv))
    unfolding count
    used_pushed i b =
        let h = rb.head in
        slot-pushed i
        ∙ ap (λ w. if i == h then true else w) (used_now i b)
        ∙ used_step size h rb.tail i unread v.head v.tail b (used_now rb.tail v.tail)
        ∙ ap (ltb (distance size (tail_of size h rb.tail unread) i)) (sym count_pushed)

    -- A push of a valid item into a valid buffer leaves it valid, with one item more, or with as many
    -- where it was full.
    pub push-IsValid :
        IsValid (push size max_item rb sv)
        × (count size max_item (push size max_item rb sv)
            ≡ (if count size max_item rb == size then size else count size max_item rb + 1))
    push-IsValid = (
      record {
        items = ap (λ b. length b.items) push_valid ∙ length-set rb.items rb.head new ∙ v.items;
        head = rw push_valid (next_in_range size rb.head v.head);
        tail = rw push_valid (tail_in_range size rb.head rb.tail unread v.tail);
        used = λ i b.
            ap (λ r. is_item (slot size max_item r i)) push_valid
            ∙ used_pushed i b
            ∙ ap
                (λ r. ltb (distance size r.tail i) (count size max_item (push size max_item rb sv)))
                (sym push_valid);
      },
      count_pushed,
    )
