-- ===== src/VectorList/Erase.antt =====
-- erase___ and clear of hm4/vectorlist.cc as their callers see them.
use hm.Prelude.{
  [], true, false, none, some, get_elem?, ◌≡◌, refl, ◌∙◌, arith, if◌then◌else◌, Bool-cases, inl,
  inr,
}
use hm.Bytes.{Bytes}
use hm.Bytes.Order.{compare_eq}
use hm.Pair.{Pair, is_key_valid}
use hm.IList.{InsertResult, result_deleted, result_skip_deleted}
use hm.ListCounter.{dec}
use hm.Arena.{reset}
use hm.VectorList.{VectorList, get_pair, erase, drop_at, clear}
use hm.VectorList.Sorted.{
  same_key, lookup, scan, total_bytes, scan-lookup, erase_at-IsSorted, lookup-erase_at,
  total-erase_at,
}
use hm.VectorList.Search.{search-scan, get_pair-lookup}
use hm.VectorList.Contents.{IsValid, scan-found}

module _ (l : VectorList) (key : Bytes) (v : IsValid l) (k : is_key_valid key ≡ true) where
  erase_missing : (scan l.vec key).found ≡ false → erase l key ≡ (l, result_skip_deleted)
  unfolding erase
  erase_missing e = rw (search-scan key k l.vec v.sorted, e)

  erase_found :
      (old : Pair)
      → (scan l.vec key).found ≡ true
      → get_elem? l.vec (scan l.vec key).it ≡ some old
      → erase l key ≡ drop_at l (scan l.vec key).it (some old)
  unfolding erase
  erase_found old e g = rw (search-scan key k l.vec v.sorted, e, g)

  drop_at-IsValid :
      (old : Pair)
      → get_elem? l.vec (scan l.vec key).it ≡ some old
      → IsValid (drop_at l (scan l.vec key).it (some old)).0
  unfolding drop_at dec
  drop_at-IsValid old g =
      let t = total-erase_at l.vec (scan l.vec key).it old g in
      record {
        sorted = erase_at-IsSorted l.vec (scan l.vec key).it v.sorted;
        count = omega (arith, v.count, t.1);
        bytes = omega (arith, v.bytes, t.0);
        room = v.room;
      }

  -- what erase___ does, told by one pass over the keys
  pub record Erased (out : VectorList × InsertResult) : Type 0 where
    pub valid : IsValid out.0
    pub contents :
        (j : Bytes) → lookup out.0.vec j ≡ (if same_key key j then none else lookup l.vec j)
    pub result :
        out.1 ≡ elim (lookup l.vec key) [ none ↦ result_skip_deleted | some p ↦ result_deleted ]

  pub erase-Erased : Erased (erase l key)
  unfolding drop_at
  erase-Erased = elim (Bool-cases (scan l.vec key).found) [
    | inr e ↦
        let gone : lookup l.vec key ≡ none = rw (scan-lookup l.vec key v.sorted, e) in
        rw (erase_missing e)
          (record { valid = v; contents = λ j. ground (arith, compare_eq key j); result = rw gone })
    | inl e ↦
        let (old, g, same) = scan-found l.vec key e in
        let there : lookup l.vec key ≡ some old = rw (scan-lookup l.vec key v.sorted, e, g) in
        rw (erase_found old e g) (record {
          valid = drop_at-IsValid old g;
          contents = λ j. lookup-erase_at l.vec key j v.sorted e;
          result = rw there;
        })
  ]

  -- After erase___ of a valid key from a valid list the list is valid, a read of that key finds
  -- nothing and a read of any other valid key what it found before; the result is DELETED if the
  -- key was there, and SKIP_DELETED if it was not.
  pub erase_lem :
      (j : Bytes)
      → is_key_valid j ≡ true
      → let (l', r) = erase l key in
        IsValid l'
        × (get_pair l' j ≡ (if same_key key j then none else get_pair l j))
        × (r ≡ elim (get_pair l key) [ none ↦ result_skip_deleted | some p ↦ result_deleted ])
  erase_lem j h =
      let r = erase-Erased in
      (
        r.valid,
        get_pair-lookup j h (erase l key).0 r.valid.sorted
            ∙ rw (get_pair-lookup j h l v.sorted) (r.contents j),
        rw (get_pair-lookup key k l v.sorted) r.result,
      )

-- clear empties the list, its counters and its arena, and keeps the invariant.
pub clear-IsValid : (l : VectorList) → IsValid l → IsValid (clear l) × ((clear l).vec ≡ [])
unfolding clear total_bytes reset
clear-IsValid l v = (
  record {
    sorted = tt;
    count = refl;
    bytes = refl;
    room = record { small = v.room.small; whole = v.room.whole; within = omega arith };
  },
  refl,
)

pub vec-clear : (l : VectorList) → (clear l).vec ≡ []
unfolding clear
vec-clear l = refl

pub arena-clear : (l : VectorList) → (clear l).arena ≡ reset l.arena
unfolding clear
arena-clear l = refl
