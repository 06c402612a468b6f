-- ===== src/MemList/Vector.antt =====
-- hm4/vectorlist.cc has what is asked of a memory list, where its vector has the memory to grow.
use hm.Prelude.{
  ℕ, Option, none, some, leb, inl, inr, sym, Bool-cases, Option-cases, List, ◌∷◌, All, ◌+◌, ◌≤◌, [],
  true, ◌≡◌, arith, ap, ◌∙◌,
}
use hm.Pair.{Pair, pair_bytes, prepare_create_time_simulate, is_key_valid}
use hm.Pair.Factory.{
  Factory, get_key, get_created, factory_bytes, create, IsUsable, get_key-IsUsable,
  factory_bytes-le,
}
use hm.IList.{InsertResult, error_no_memory, result_inserted}
use hm.Arena.{get_free_memory, xallocate, xallocate_room}
use hm.VectorList
use hm.VectorList.{VectorList, clear}
use hm.VectorList.Sorted.{lookup}
use hm.VectorList.Search.{get_pair-lookup}
use hm.VectorList.Contents.{IsValid, insert_f-Wrote, insert_f-unchanged}
use hm.VectorList.Insert.{
  outcome, vector_outcome-true, insert_f-outcome, outcome-no_memory, size-insert_f,
}
use hm.VectorList.Erase.{clear-IsValid, erase-Erased, vec-clear, arena-clear}
use hm.MemList.{MemList, IsMade}

pub unchanged :
    (now : ℕ) (l : VectorList) (f : Factory)
    → IsValid l
    → IsUsable f
    → (VectorList.insert_f true now l f).1.status ≡ error_no_memory
    → (VectorList.insert_f true now l f).0.vec ≡ l.vec
unchanged now l f v u h =
    let e =
      insert_f-outcome true now l f v u
      ∙ vector_outcome-true now f (VectorList.get_pair l (get_key f))
          (xallocate l.arena (factory_bytes f)).0 in
    let n =
      outcome-no_memory now f (VectorList.get_pair l (get_key f))
        (xallocate l.arena (factory_bytes f)).0 (rw e at h) in
    insert_f-unchanged true now l f v u (ap (λ (r : InsertResult). r.pair) e ∙ n)

pub fresh :
    (now : ℕ) (l : VectorList) (f : Factory)
    → IsValid l
    → IsUsable f
    → l.vec ≡ []
    → factory_bytes f + 0 + 16 ≤ get_free_memory l.arena
    → (VectorList.insert_f true now l f).1 ≡ result_inserted (create now f)
unfolding outcome lookup
fresh now l f v u e room =
    let (p, a) =
      xallocate_room l.arena (factory_bytes f) v.room (factory_bytes-le f u) (omega arith) in
    insert_f-outcome true now l f v u
    ∙ vector_outcome-true now f (VectorList.get_pair l (get_key f))
        (xallocate l.arena (factory_bytes f)).0
    ∙ rw (get_pair-lookup (get_key f) (get_key-IsUsable f u) l v.sorted, e, a)

pub anything : (ps : List Pair) → All (λ p. Unit {0}) ps
anything [] = tt
anything (p ∷ ps) = (tt, anything ps)

pub outcome-IsMade :
    (now : ℕ) (f : Factory) (o : Option Pair) (room : Option ℕ) (p : Pair)
    → (outcome now f o room).pair ≡ some p
    → IsMade now f p
unfolding outcome
outcome-IsMade now f none none p h = absurd (cc)
outcome-IsMade now f none (some a) p h = inl (ground arith)
outcome-IsMade now f (some old) room p h =
    elim (Bool-cases (leb old.created (prepare_create_time_simulate (get_created f)))) [
      | inr e ↦ absurd (let h' = rw e at h in cc)
      | inl e ↦ elim (Bool-cases (leb (factory_bytes f) (pair_bytes old))) [
        | inl b ↦ inr (old, let h' = rw (e, b) at h in ground (arith, h'))
        | inr b ↦ elim (Option-cases room) [
          | inl r ↦ absurd (let h' = rw (e, b, r) at h in cc)
          | inr (a, r) ↦ inl (let h' = rw (e, b, r) at h in ground (arith, h'))
        ]
      ]
    ]

abbrev pub vector_list : MemList VectorList
vector_list = record {
  Admits = λ key. is_key_valid key ≡ true;
  Stores = λ key. Unit;
  stored = λ l v. anything l.vec;
  admits-valid = λ key k. k;
  IsValid = IsValid;
  pairs = λ l. l.vec;
  arena = λ l. l.arena;
  node_size = 0;
  get_pair = VectorList.get_pair;
  insert_f = VectorList.insert_f true;
  erase = VectorList.erase;
  clear = VectorList.clear;
  sorted = λ l v. v.sorted;
  arena_valid = λ l v. v.room;
  node_small = omega arith;
  get_pair-lookup = λ l key v h. get_pair-lookup key h l v.sorted;
  insert_f-IsValid = λ now l f v u a. (insert_f-Wrote true now l f v u).valid;
  insert_f-after = λ now l f j v u a. (insert_f-Wrote true now l f v u).contents j;
  insert_f-key = λ now l f p v u a. (insert_f-Wrote true now l f v u).keyed p;
  insert_f-made = λ now l f p v u a e.
      outcome-IsMade now f (VectorList.get_pair l (get_key f))
        (xallocate l.arena (factory_bytes f)).0 p
        (sym (
            ap (λ (r : InsertResult). r.pair)
              (insert_f-outcome true now l f v u
                ∙ vector_outcome-true now f (VectorList.get_pair l (get_key f))
                    (xallocate l.arena (factory_bytes f)).0))
          ∙ e);
  insert_f-size = size-insert_f true;
  insert_f-unchanged = λ now l f v u a. unchanged now l f v u;
  insert_f-fresh = λ now l f v u a. fresh now l f v u;
  erase-IsValid = λ l key v k. (erase-Erased l key v k).valid;
  erase-after = λ l key j v k. (erase-Erased l key v k).contents j;
  erase-result = λ l key v k. (erase-Erased l key v k).result;
  clear-IsValid = λ l v. (clear-IsValid l v).0;
  clear-pairs = vec-clear;
  clear-arena = arena-clear;
}
