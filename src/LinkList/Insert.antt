-- ===== src/LinkList/Insert.antt =====
-- insertF of hm4/linklist.cc: the vector list's insertF, but that a new key also takes a node.
use hm.Prelude.{
  ℕ, true, false, Option, none, some, get_elem?, ◌≡◌, refl, sym, ◌∙◌, arith, All, if◌then◌else◌,
  Bool-cases, inl, inr,
}
use hm.Pair.{Pair}
use hm.Pair.HPair.{hkey_of, IsAscii}
use hm.Pair.Factory.{
  Factory, get_key, factory_bytes, create, create_hint, IsUsable, valid-IsUsable, get_key-IsUsable,
  key-create, key-create_hint, factory_bytes-le,
}
use hm.IList.{InsertResult}
use hm.Arena
use hm.Arena.{Arena, xallocate, xallocate-IsValid}
use hm.VectorList
use hm.VectorList.{VectorList}
use hm.VectorList.Sorted.{scan}
use hm.VectorList.Contents.{Wrote, add-Wrote, insert_f-Wrote}
use hm.VectorList.Contents
use hm.LinkList.{Node, LinkList, insert_f, overwrite, replace, add, link, internal_node_size}
use hm.LinkList.View.{
  get_elem-pairs_of, pairs_of, view, IsNode, All-set, All-insert_at, All-get_elem,
}
use hm.LinkList.Agree.{IsValid, view_of, node_room, located, found_node, overwrite-view, add-view}

node_room-IsValid : (r : Option ℕ × Arena) → Arena.IsValid r.1 → Arena.IsValid (node_room r).1
unfolding node_room
node_room-IsValid (none, arena) w = w
node_room-IsValid (some p, arena) w = xallocate-IsValid arena internal_node_size w (omega arith)

module _ (now : ℕ) (l : LinkList) (f : Factory) (v : IsValid l) (u : IsUsable f)
    (a : IsAscii (get_key f)) where
  insert_f_missing :
      (scan (pairs_of l.head) (get_key f)).found ≡ false
      → insert_f now l f
        ≡ add now l f (scan (pairs_of l.head) (get_key f)).it (xallocate l.arena (factory_bytes f))
  unfolding insert_f
  insert_f_missing e =
      rw
        (
          insert_f,
          valid-IsUsable f u,
          located l (get_key f) a v.nodes,
          e,
          located l (get_key f) a v.nodes,
        )
        refl

  insert_f_found :
      (n : Node)
      → (scan (pairs_of l.head) (get_key f)).found ≡ true
      → get_elem? l.head (scan (pairs_of l.head) (get_key f)).it ≡ some n
      → insert_f now l f ≡ overwrite now l f (scan (pairs_of l.head) (get_key f)).it n
  unfolding insert_f
  insert_f_found n e g =
      rw
        (
          insert_f,
          valid-IsUsable f u,
          located l (get_key f) a v.nodes,
          e,
          g,
          located l (get_key f) a v.nodes,
        )
        refl

  -- what insertF does, told on the vector list with the same pairs
  pub insert_f-view : view_of (insert_f now l f) ≡ (
      if (scan (pairs_of l.head) (get_key f)).found
      then VectorList.insert_f true now (view l) f
      else VectorList.add true now
          (view l)
          f
          (scan (pairs_of l.head) (get_key f)).it
          (node_room (xallocate l.arena (factory_bytes f))))
  insert_f-view = elim (Bool-cases (scan (pairs_of l.head) (get_key f)).found) [
    | inr e ↦
        rw (insert_f_missing e, e)
          (add-view now l f (scan (pairs_of l.head) (get_key f)).it
            (xallocate l.arena (factory_bytes f)))
    | inl e ↦
        let (n, at, same) = found_node l.head (get_key f) e in
        rw (insert_f_found n e at, e)
          (overwrite-view now l f (scan (pairs_of l.head) (get_key f)).it n
            ∙ sym (
                Contents.insert_f_found true now (view l) f v.vec u n.pair e
                  (get_elem-pairs_of l.head (scan (pairs_of l.head) (get_key f)).it n at)))
  ]

  IsNode-new :
      (p : Pair) (h : ℕ)
      → p.key ≡ get_key f
      → h ≡ hkey_of (get_key f)
      → IsNode (record { hkey = h; pair = p })
  IsNode-new p h e k = rw e (k, (get_key-IsUsable f u, a))

  module _ (i : ℕ) where
    nodes-link : (r : Option ℕ × Arena) → All IsNode (link now l f i r).0.head
    unfolding link
    nodes-link (none, arena) = v.nodes
    nodes-link (some p, arena) =
        All-insert_at IsNode l.head i (record { hkey = hkey_of (get_key f); pair = create now f })
          (IsNode-new (create now f) (hkey_of (get_key f)) (key-create now f u) refl) v.nodes

    nodes-add : (r : Option ℕ × Arena) → All IsNode (add now l f i r).0.head
    unfolding add
    nodes-add (none, arena) = v.nodes
    nodes-add (some p, arena) = nodes-link (xallocate arena internal_node_size)

    nodes-replace :
        (old : Pair) (r : Option ℕ × Arena) → All IsNode (replace now l f i old r).0.head
    unfolding replace
    nodes-replace old (none, arena) = v.nodes
    nodes-replace old (some p, arena) =
        All-set IsNode l.head i (record { hkey = hkey_of (get_key f); pair = create now f })
          (IsNode-new (create now f) (hkey_of (get_key f)) (key-create now f u) refl) v.nodes

    nodes-overwrite :
        (n : Node)
        → get_elem? l.head i ≡ some n
        → n.pair.key ≡ get_key f
        → All IsNode (overwrite now l f i n).0.head
    unfolding overwrite
    nodes-overwrite n g same =
        let k = All-get_elem IsNode l.head i n g v.nodes in
        let neo = create_hint now f n.pair in
        ground (
          arith,
          All-set IsNode l.head i (record n { pair = neo })
              (IsNode-new neo n.hkey (key-create_hint now f n.pair same) (rw same at k.0)) v.nodes,
          nodes-replace n.pair (xallocate l.arena (factory_bytes f)),
          v.nodes,
        )

  -- the vector list's contract, and the numbers of the nodes
  pub record Linked (out : LinkList × InsertResult) : Type 0 where
    pub wrote : Wrote (view l) (get_key f) (view_of out)
    pub nodes : All IsNode out.0.head

  pub insert_f-Linked : Linked (insert_f now l f)
  insert_f-Linked = elim (Bool-cases (scan (pairs_of l.head) (get_key f)).found) [
    | inr e ↦ record {
      wrote =
          rw (insert_f-view, e)
            (add-Wrote true now (view l) f v.vec u e
              (node_room (xallocate l.arena (factory_bytes f)))
              (node_room-IsValid (xallocate l.arena (factory_bytes f))
                (xallocate-IsValid l.arena (factory_bytes f) v.vec.room (factory_bytes-le f u))));
      nodes =
          rw (insert_f_missing e) (
            nodes-add (scan (pairs_of l.head) (get_key f)).it
              (xallocate l.arena (factory_bytes f)));
    }
    | inl e ↦
        let (n, at, same) = found_node l.head (get_key f) e in
        record {
          wrote = rw (insert_f-view, e) (insert_f-Wrote true now (view l) f v.vec u);
          nodes =
              rw (insert_f_found n e at)
                (nodes-overwrite (scan (pairs_of l.head) (get_key f)).it n at same);
        }
  ]
