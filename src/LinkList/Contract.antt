-- ===== src/LinkList/Contract.antt =====
-- hm4/linklist.cc as its callers see it: reads and results, as those of the vector list.
use hm.Prelude.{
  ℕ, ◌+◌, ◌≤◌, [], true, false, Option, none, some, get_elem?, ◌≡◌, refl, sym, ap, subst, ◌∙◌,
  if◌then◌else◌, Bool-cases, inl, inr,
}
use hm.Bytes.{Bytes}
use hm.Pair.{Pair, is_key_valid}
use hm.Pair.HPair.{IsAscii}
use hm.Pair.Factory.{
  Factory, get_key, factory_bytes, create, IsUsable, get_key-IsUsable, factory_bytes-le,
}
use hm.IList.{InsertResult, error_no_memory, result_inserted, result_deleted, result_skip_deleted}
use hm.Arena.{Arena, xallocate, get_free_memory}
use hm.VectorList.Sorted.{scan, scan-lookup, lookup, same_key}
use hm.VectorList.Contents
use hm.VectorList.Contents.{after, add-unchanged, scan-found}
use hm.VectorList.Insert
use hm.VectorList.Insert.{outcome, seen, add-outcome, outcome-no_memory, after-seen}
use hm.VectorList.Erase.{erase-Erased}
use hm.LinkList.{internal_node_size, LinkList, get_pair, insert_f, erase}
use hm.LinkList.View.{pairs_of, view}
use hm.LinkList.Agree.{IsValid, get_pair-view, node_room, get_pair-scanned, nodes-erase, erase-view}
use hm.LinkList.Insert.{insert_f-Linked, insert_f-view}
use hm.LinkList.Room.{node_room_fits}

-- The memory that insertF asks for, from what the key's pair was: a new key also takes a node.
unfoldable pub room_for : Arena → Factory → Option Pair → Option ℕ
unfolding node_room
room_for arena f none = (node_room (xallocate arena (factory_bytes f))).0
room_for arena f (some old) = (xallocate arena (factory_bytes f)).0

module _ (now : ℕ) (l : LinkList) (f : Factory) (v : IsValid l) (u : IsUsable f)
    (a : IsAscii (get_key f)) where
  added : (scan (pairs_of l.head) (get_key f)).found ≡ false → get_pair l (get_key f) ≡ none
  added e =
      get_pair-scanned l (get_key f) v (get_key-IsUsable f u) a
      ∙ rw (scan-lookup (pairs_of l.head) (get_key f) v.vec.sorted, e) refl

  there :
      (old : Pair)
      → (scan (pairs_of l.head) (get_key f)).found ≡ true
      → get_elem? (pairs_of l.head) (scan (pairs_of l.head) (get_key f)).it ≡ some old
      → get_pair l (get_key f) ≡ some old
  there old e g =
      get_pair-scanned l (get_key f) v (get_key-IsUsable f u) a
      ∙ rw (scan-lookup (pairs_of l.head) (get_key f) v.vec.sorted, e, g) refl

  -- The result of insertF of a usable factory with an ASCII key into a valid linked list is, on
  -- every branch, that of the vector list, but that a new key needs room for the pair and then
  -- for its node.
  pub outcome-insert_f :
      (insert_f now l f).1
      ≡ outcome now f (get_pair l (get_key f)) (room_for l.arena f (get_pair l (get_key f)))
  unfolding room_for Insert.vector_outcome outcome
  outcome-insert_f = elim (Bool-cases (scan (pairs_of l.head) (get_key f)).found) [
    | inr e ↦
        ap (λ out. out.1) (insert_f-view now l f v u a)
        ∙ rw (e, added e)
            (add-outcome true now (view l) f (scan (pairs_of l.head) (get_key f)).it
              (node_room (xallocate l.arena (factory_bytes f))))
    | inl e ↦
        let (old, g, k) = scan-found (pairs_of l.head) (get_key f) e in
        ap (λ out. out.1) (insert_f-view now l f v u a)
        ∙ rw (e, there old e g)
            (Insert.insert_f-outcome true now (view l) f v.vec u
              ∙ ap (λ o. outcome now f o (xallocate l.arena (factory_bytes f)).0)
                  (sym (get_pair-view l (get_key f) v (get_key-IsUsable f u) a) ∙ there old e g))
  ]

  -- After insertF of a usable factory with an ASCII key into a valid linked list, the list is valid;
  -- a read of any valid ASCII key returns the pair that insertF reported, if it reported one and the
  -- key is the factory's, and otherwise what it returned before; and the pair reported has the
  -- factory's key.
  pub get_pair-insert_f :
      (j : Bytes)
      → is_key_valid j ≡ true
      → IsAscii j
      → let (l', r) = insert_f now l f in
        IsValid l'
        × (get_pair l' j ≡ seen (get_key f) r.pair j (get_pair l j))
        × ((p : Pair) → r.pair ≡ some p → p.key ≡ get_key f)
  get_pair-insert_f j k b =
      let w = insert_f-Linked now l f v u a in
      let v' : IsValid (insert_f now l f).0 = record { vec = w.wrote.valid; nodes = w.nodes } in
      (
        v',
        get_pair-scanned (insert_f now l f).0 j v' k b
            ∙ w.wrote.contents j
            ∙ after-seen true now (view l) f v.vec u (insert_f now l f).1.pair j k
            ∙ ap (seen (get_key f) (insert_f now l f).1.pair j) (sym (get_pair-view l j v k b)),
        w.wrote.keyed,
      )

  -- an insertion that met no memory leaves the pairs as they were
  pub unchanged :
      (insert_f now l f).1.status ≡ error_no_memory
      → pairs_of (insert_f now l f).0.head ≡ pairs_of l.head
  unchanged h =
      let n =
        ap (λ (r : InsertResult). r.pair) outcome-insert_f
        ∙ outcome-no_memory now f (get_pair l (get_key f))
            (room_for l.arena f (get_pair l (get_key f))) (rw outcome-insert_f at h) in
      let e = insert_f-view now l f v u a in
      elim (Bool-cases (scan (pairs_of l.head) (get_key f)).found) [
        | inr m ↦
            let e' = rw m at e in
            ap (λ out. out.0.vec) e'
            ∙ add-unchanged true now (view l) f v.vec u (scan (pairs_of l.head) (get_key f)).it
                (node_room (xallocate l.arena (factory_bytes f)))
                (sym (ap (λ out. out.1.pair) e') ∙ n)
        | inl m ↦
            let e' = rw m at e in
            ap (λ out. out.0.vec) e'
            ∙ Contents.insert_f-unchanged true now (view l) f v.vec u
                (sym (ap (λ out. out.1.pair) e') ∙ n)
      ]

  -- into an empty list with room enough the pair is inserted
  pub fresh :
      pairs_of l.head ≡ []
      → factory_bytes f + internal_node_size + 16 ≤ get_free_memory l.arena
      → (insert_f now l f).1 ≡ result_inserted (create now f)
  unfolding outcome lookup room_for
  fresh e h =
      let (p, r) = node_room_fits l.arena (factory_bytes f) v.vec.room (factory_bytes-le f u) h in
      outcome-insert_f ∙ rw (get_pair-scanned l (get_key f) v (get_key-IsUsable f u) a, e, r) refl

-- what erase___ does, told by the pairs
pub record LinkErased (l : LinkList) (key : Bytes) (out : LinkList × InsertResult) : Type 0 where
  pub valid : IsValid out.0
  pub contents :
      (j : Bytes)
      → lookup (pairs_of out.0.head) j
        ≡ (if same_key key j then none else lookup (pairs_of l.head) j)
  pub result :
      out.1
      ≡ elim (lookup (pairs_of l.head) key) [ none ↦ result_skip_deleted | some p ↦ result_deleted ]

pub erase-LinkErased :
    (l : LinkList) (key : Bytes)
    → IsValid l
    → is_key_valid key ≡ true
    → IsAscii key
    → LinkErased l key (erase l key)
erase-LinkErased l key v k a =
    let e = erase-view l key v k a in
    let r = erase-Erased (view l) key v.vec k in
    record {
      valid = record {
        vec = subst (λ out. Contents.IsValid out.0) (sym e) r.valid;
        nodes = nodes-erase l key v k a;
      };
      contents = λ j. ap (λ out. lookup out.0.vec j) e ∙ r.contents j;
      result = ap (λ out. out.1) e ∙ r.result;
    }

-- After erase___ of a valid ASCII key from a valid linked list the list is valid, a read of that key
-- finds nothing and a read of any other valid ASCII key what it found before; the result is DELETED
-- if the key was there, and SKIP_DELETED if it was not.
pub get_pair-erase :
    (l : LinkList) (key j : Bytes)
    → IsValid l
    → is_key_valid key ≡ true
    → IsAscii key
    → is_key_valid j ≡ true
    → IsAscii j
    → let (l', r) = erase l key in
      IsValid l'
      × (get_pair l' j ≡ (if same_key key j then none else get_pair l j))
      × (r ≡ elim (get_pair l key) [ none ↦ result_skip_deleted | some p ↦ result_deleted ])
get_pair-erase l key j v k a k' a' =
    let w = erase-LinkErased l key v k a in
    (
      w.valid,
      get_pair-scanned (erase l key).0 j w.valid k' a'
          ∙ w.contents j
          ∙ rw (get_pair-scanned l j v k' a') refl,
      w.result ∙ rw (get_pair-scanned l key v k a) refl,
    )
