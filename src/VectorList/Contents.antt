-- ===== src/VectorList/Contents.antt =====
-- What insertF, erase___ and clear of hm4/vectorlist.cc do to the contents of the list.
use hm.Prelude.{
  ℕ, ◌%◌, ◌^◌, Bool, List, [], ◌∷◌, true, false, Option, none, some, length, get_elem?, set, ◌≡◌,
  refl, arith, if◌then◌else◌, Bool-cases, inl, inr, Ordering-cases, is_lt, is_eq, is_gt, length-set,
}
use hm.Bytes.{Bytes, compare_bytes}
use hm.Bytes.Order.{compare_eq}
use hm.Pair.{Pair, pair_bytes}
use hm.Pair.Factory.{
  Factory, get_key, get_created, factory_bytes, create, create_hint, IsUsable, valid-IsUsable,
  get_key-IsUsable, key-create, key-create_hint, factory_bytes-le,
}
use hm.IList.{
  InsertResult, result_updated_in_place, result_replaced, is_valid_for_replace, can_insert_hint,
}
use hm.ListCounter.{inc, upd}
use hm.Arena
use hm.Arena.{Arena, xallocate, xallocate-IsValid}
use hm.VectorList.{VectorList, insert_f, overwrite, replace, add}
use hm.VectorList.Sorted.{
  IsSorted, same_key, lookup, scan, total_bytes, set-IsSorted, insert_at-IsSorted, lookup-set,
  lookup-insert_at, total-set, total-insert_at,
}
use hm.VectorList.Search.{search-scan}

-- The vector ascends strictly, and the counters are those of its pairs, as size_t.
pub record IsValid (l : VectorList) : Type 0 where
  pub sorted : IsSorted l.vec
  pub count : l.lc.count ≡ length l.vec % 2 ^ 64
  pub bytes : l.lc.bytes ≡ total_bytes l.vec % 2 ^ 64
  pub room : Arena.IsValid l.arena

-- The contents after a pair with this key was written, if one was.
abbrev pub after : Bytes → Option Pair → List Pair → Bytes → Option Pair
after key none ps j = lookup ps j
after key (some p) ps j = if same_key key j then some p else lookup ps j

pub record Wrote (l : VectorList) (key : Bytes) (out : VectorList × InsertResult) : Type 0 where
  pub valid : IsValid out.0
  pub contents : (j : Bytes) → lookup out.0.vec j ≡ after key out.1.pair l.vec j
  pub keyed : (p : Pair) → out.1.pair ≡ some p → p.key ≡ key

-- where a key is found, there is a pair with that key
pub scan-found :
    (ps : List Pair) (key : Bytes)
    → (scan ps key).found ≡ true
    → (old : Pair) × (get_elem? ps (scan ps key).it ≡ some old) × (old.key ≡ key)
unfolding scan
scan-found [] key h = absurd (ground arith)
scan-found (p ∷ ps) key h = elim (Ordering-cases (compare_bytes p.key key)) [
  | is_lt c ↦ rw (c, scan) (scan-found ps key (ground arith))
  | is_eq c ↦ rw (c, scan) (p, refl, compare_eq p.key key c)
  | is_gt c ↦ absurd (ground arith)
]

module _ (grows : Bool) (now : ℕ) (l : VectorList) (f : Factory) (v : IsValid l)
    (u : IsUsable f) where
  module _ (missing : (scan l.vec (get_key f)).found ≡ false) where
    pub add-Wrote :
        (a : Option ℕ × Arena)
        → Arena.IsValid a.1
        → Wrote l (get_key f) (add grows now l f (scan l.vec (get_key f)).it a)
    unfolding add inc
    add-Wrote (none, arena) w = record {
      valid = record { sorted = v.sorted; count = v.count; bytes = v.bytes; room = w };
      contents = λ j. refl;
      keyed = λ p e. cc;
    }
    add-Wrote (some p, arena) w = elim (Bool-cases grows) [
      | inr stuck ↦ rw stuck (record {
        valid = record { sorted = v.sorted; count = v.count; bytes = v.bytes; room = w };
        contents = λ j. refl;
        keyed = λ p e. cc;
      })
      | inl grown ↦
          let k : (create now f).key ≡ get_key f = key-create now f u in
          let t = total-insert_at l.vec (scan l.vec (get_key f)).it (create now f) in
          rw grown (record {
            valid = record {
              sorted = insert_at-IsSorted (create now f) l.vec (get_key f) k missing v.sorted;
              count = omega (arith, v.count, t.1);
              bytes = omega (arith, v.bytes, t.0);
              room = w;
            };
            contents = λ j. lookup-insert_at (create now f) l.vec (get_key f) j k missing;
            keyed = λ p e. cc (k);
          })
    ]

  module _ (present : (scan l.vec (get_key f)).found ≡ true) (old : Pair)
      (at : get_elem? l.vec (scan l.vec (get_key f)).it ≡ some old)
      (same : old.key ≡ get_key f) where
    -- a new pair in the slot of the old one
    set-Wrote :
        (new : Pair) (arena : Arena) (r : InsertResult)
        → new.key ≡ get_key f
        → r.pair ≡ some new
        → Arena.IsValid arena
        → Wrote l (get_key f) (
          record {
            vec = set l.vec (scan l.vec (get_key f)).it new;
            lc = upd l.lc (pair_bytes old) (pair_bytes new);
            arena = arena;
          },
          r,
        )
    unfolding upd
    set-Wrote new arena r k e w =
        let t = total-set l.vec (scan l.vec (get_key f)).it old new at in
        let n = length-set l.vec (scan l.vec (get_key f)).it new in
        record {
          valid = record {
            sorted = set-IsSorted new l.vec (get_key f) k present v.sorted;
            count = rw n v.count;
            bytes = omega (arith, v.bytes, t);
            room = w;
          };
          contents = λ j. rw e (lookup-set new l.vec (get_key f) j k present);
          keyed = λ p e'. cc (k);
        }

    replace-Wrote :
        (a : Option ℕ × Arena)
        → Arena.IsValid a.1
        → Wrote l (get_key f) (replace now l f (scan l.vec (get_key f)).it old a)
    unfolding replace
    replace-Wrote (none, arena) w = record {
      valid = record { sorted = v.sorted; count = v.count; bytes = v.bytes; room = w };
      contents = λ j. refl;
      keyed = λ p e. cc;
    }
    replace-Wrote (some p, arena) w =
        set-Wrote (create now f) arena (result_replaced (create now f)) (key-create now f u) refl w

    overwrite-Wrote : Wrote l (get_key f) (overwrite now l f (scan l.vec (get_key f)).it (some old))
    unfolding overwrite
    overwrite-Wrote = elim (Bool-cases (is_valid_for_replace (get_created f) old)) [
      | inr older ↦ rw older (record { valid = v; contents = λ j. refl; keyed = λ p e. cc })
      | inl newer ↦ rw newer (elim (Bool-cases (can_insert_hint old f)) [
        | inl fits ↦ rw fits (
            set-Wrote (create_hint now f old) l.arena
              (result_updated_in_place (create_hint now f old)) (key-create_hint now f old same)
              refl v.room)
        | inr no_room ↦ rw no_room (
            replace-Wrote (xallocate l.arena (factory_bytes f))
              (xallocate-IsValid l.arena (factory_bytes f) v.room (factory_bytes-le f u)))
      ])
    ]

  pub add-unchanged :
      (it : ℕ) (a : Option ℕ × Arena)
      → (add grows now l f it a).1.pair ≡ none
      → (add grows now l f it a).0.vec ≡ l.vec
  unfolding add
  add-unchanged it (none, arena) h = refl
  add-unchanged it (some p, arena) h = elim (Bool-cases grows) [
    | inl grown ↦ absurd (let no = rw grown at h in cc)
    | inr stuck ↦ rw stuck refl
  ]

  replace-unchanged :
      (it : ℕ) (old : Pair) (a : Option ℕ × Arena)
      → (replace now l f it old a).1.pair ≡ none
      → (replace now l f it old a).0.vec ≡ l.vec
  unfolding replace
  replace-unchanged it old (none, arena) h = refl
  replace-unchanged it old (some p, arena) h = absurd (cc)

  overwrite-unchanged :
      (it : ℕ) (old : Pair)
      → (overwrite now l f it (some old)).1.pair ≡ none
      → (overwrite now l f it (some old)).0.vec ≡ l.vec
  unfolding overwrite
  overwrite-unchanged it old h =
      ground (arith, replace-unchanged it old (xallocate l.arena (factory_bytes f)))

  pub insert_f_found :
      (old : Pair)
      → (scan l.vec (get_key f)).found ≡ true
      → get_elem? l.vec (scan l.vec (get_key f)).it ≡ some old
      → insert_f grows now l f ≡ overwrite now l f (scan l.vec (get_key f)).it (some old)
  unfolding insert_f
  insert_f_found old e g =
      rw (valid-IsUsable f u, search-scan (get_key f) (get_key-IsUsable f u) l.vec v.sorted, e, g)

  pub insert_f_missing :
      (scan l.vec (get_key f)).found ≡ false
      → insert_f grows now l f
        ≡ add grows now l f (scan l.vec (get_key f)).it (xallocate l.arena (factory_bytes f))
  unfolding insert_f
  insert_f_missing e =
      rw (valid-IsUsable f u, search-scan (get_key f) (get_key-IsUsable f u) l.vec v.sorted, e)

  -- insertF keeps the invariant, changes the pair of its own key alone, to the pair that it
  -- reports, and changes no pair where it reports none.
  pub insert_f-Wrote : Wrote l (get_key f) (insert_f grows now l f)
  insert_f-Wrote = elim (Bool-cases (scan l.vec (get_key f)).found) [
    | inr e ↦ rw (insert_f_missing e) (
        add-Wrote e (xallocate l.arena (factory_bytes f))
          (xallocate-IsValid l.arena (factory_bytes f) v.room (factory_bytes-le f u)))
    | inl e ↦
        let (old, g, k) = scan-found l.vec (get_key f) e in
        rw (insert_f_found old e g) (overwrite-Wrote e old g k)
  ]

  -- Where insertF of a usable factory into a valid list reports no pair, the vector is as it
  -- was.
  pub insert_f-unchanged :
      (insert_f grows now l f).1.pair ≡ none → (insert_f grows now l f).0.vec ≡ l.vec
  insert_f-unchanged h = elim (Bool-cases (scan l.vec (get_key f)).found) [
    | inr e ↦ rw (insert_f_missing e) (
        add-unchanged (scan l.vec (get_key f)).it (xallocate l.arena (factory_bytes f))
          (rw (insert_f_missing e) at h))
    | inl e ↦
        let (old, g, k) = scan-found l.vec (get_key f) e in
        rw (insert_f_found old e g)
          (overwrite-unchanged (scan l.vec (get_key f)).it old (rw (insert_f_found old e g) at h))
  ]
