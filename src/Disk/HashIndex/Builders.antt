-- ===== src/Disk/HashIndex/Builders.antt =====
-- Both builders of a hash index put every pair of the table where a search finds it.
use mathlib.Core.List.{Permᴰ}
use hm.Prelude.{
  ◌-◌, false, ◌^◌, ◌≤◌, ℕ, ◌*◌, ◌/◌, ◌<◌, List, [], ◌∷◌, ◌++◌, length, replicate, length-replicate,
  All, leb, ◌==◌, ◌≡◌, refl, ◌∙◌, subst, arith, inl, inr, Bool-cases,
}
use hm.Pair.{Pair}
use hm.Disk.HashIndex.{
  HashNode, free, insert, next_pos, node_of, standard_from, flush, finish, multi_pass_from,
  select_width, helper_size, build_index,
}
use hm.Disk.HashIndex.Cells.{
  Extends, Extends-refl, Extends-trans, IsPlaced, IsPlaced-Extends, insert-Extends, insert-IsPlaced,
  insert_all-Extends, insert_all-IsPlaced,
}

-- the nodes of a table's pairs, from a position on
abbrev pub nodes_of : ℕ → ℕ → List Pair → List HashNode
nodes_of width pos [] = []
nodes_of width pos (pair ∷ pairs) = node_of pair pos ∷ nodes_of width (next_pos width pos) pairs

All-Extends :
    (old new vector : List HashNode)
    → Extends old new
    → All (IsPlaced old) vector
    → All (IsPlaced new) vector
All-Extends old new [] e h = tt
All-Extends old new (node ∷ vector) e h =
    (IsPlaced-Extends old new node e h.0, All-Extends old new vector e h.1)

All-perm {ℓ} : (P : HashNode → Type ℓ) {xs ys : List HashNode} → Permᴰ xs ys → All P xs → All P ys
All-perm P Permᴰ.nil h = tt
All-perm P (Permᴰ.cons e p) h = (subst P e h.0, All-perm P p h.1)
All-perm P (Permᴰ.swap e f) h = (subst P f h.1.0, (subst P e h.0, h.1.1))
All-perm P (Permᴰ.trans p q) h = All-perm P q (All-perm P p h)

All-left : (P : HashNode → Type 0) (xs ys : List HashNode) → All P (xs ++ ys) → All P xs
All-left P [] ys h = tt
All-left P (x ∷ xs) ys h = (h.0, All-left P xs ys h.1)

All-right : (P : HashNode → Type 0) (xs ys : List HashNode) → All P (xs ++ ys) → All P ys
All-right P [] ys h = h
All-right P (x ∷ xs) ys h = All-right P xs ys h.1

-- `end` is `nodes` and more, with all of two lists in it
abbrev Done : List HashNode → List HashNode → List HashNode → List HashNode → Type 0
Done nodes end vector later =
    Extends nodes end × All (IsPlaced end) vector × All (IsPlaced end) later

standard-IsPlaced :
    (width pos : ℕ) (nodes : List HashNode) (pairs : List Pair)
    → 0 < length nodes
    → Extends nodes (standard_from width pos nodes pairs)
      × All (IsPlaced (standard_from width pos nodes pairs)) (nodes_of width pos pairs)
unfolding standard_from
standard-IsPlaced width pos nodes [] h = (Extends-refl nodes, tt)
standard-IsPlaced width pos nodes (pair ∷ pairs) h =
    let node = node_of pair pos in
    let nodes' = insert node nodes in
    let ext = insert-Extends node nodes in
    let (later, placed) =
      standard-IsPlaced width (next_pos width pos) nodes' pairs (omega (arith, ext.size)) in
    let end = standard_from width (next_pos width pos) nodes' pairs in
    (
      Extends-trans nodes nodes' end ext later,
      (IsPlaced-Extends nodes' end node later (insert-IsPlaced node nodes h), placed),
    )

module _ (sort : ℕ → List HashNode → List HashNode)
    (sort-perm : (n : ℕ) (xs : List HashNode) → Permᴰ (sort n xs) xs) where
  flush-IsPlaced :
      (vector nodes : List HashNode)
      → 0 < length nodes
      → Extends nodes (flush sort vector nodes) × All (IsPlaced (flush sort vector nodes)) vector
  unfolding flush
  flush-IsPlaced vector nodes h = (
    insert_all-Extends (sort (length nodes) vector) nodes,
    All-perm (IsPlaced (flush sort vector nodes)) (sort-perm (length nodes) vector)
        (insert_all-IsPlaced (sort (length nodes) vector) nodes h),
  )

  finish-IsPlaced :
      (vector nodes : List HashNode)
      → 0 < length nodes
      → Extends nodes (finish sort vector nodes) × All (IsPlaced (finish sort vector nodes)) vector
  unfolding finish
  finish-IsPlaced [] nodes h = (Extends-refl nodes, tt)
  finish-IsPlaced (node ∷ vector) nodes h = flush-IsPlaced (node ∷ vector) nodes h

  multi_pass-IsPlaced :
      (width capacity pos : ℕ) (vector nodes : List HashNode) (pairs : List Pair)
      → 0 < length nodes
      → (capacity == 0) ≡ false
      → Done nodes
          (multi_pass_from sort width capacity pos vector nodes pairs)
          vector
          (nodes_of width pos pairs)
  unfolding multi_pass_from
  multi_pass-IsPlaced width capacity pos vector nodes [] h c =
      let (ext, placed) = finish-IsPlaced vector nodes h in (ext, placed, tt)
  multi_pass-IsPlaced width capacity pos vector nodes (pair ∷ pairs) h c =
      let node = node_of pair pos in
      let v' = vector ++ (node ∷ []) in
      let pos' = next_pos width pos in
      let end = multi_pass_from sort width capacity pos vector nodes (pair ∷ pairs) in
      let Goal : List HashNode → Type 0 =
        λ end. Done nodes end vector (node ∷ nodes_of width pos' pairs) in
      elim (Bool-cases (length v' == capacity)) [
        | inr e ↦
            let more = multi_pass_from sort width capacity pos' v' nodes pairs in
            let same : more ≡ end = rw (c, e) refl in
            let (ext, placed, later) = multi_pass-IsPlaced width capacity pos' v' nodes pairs h c in
            subst Goal same (
              ext,
              All-left (IsPlaced more) vector (node ∷ []) placed,
              ((All-right (IsPlaced more) vector (node ∷ []) placed).0, later),
            )
        | inl e ↦
            let nodes' = flush sort v' nodes in
            let full = multi_pass_from sort width capacity pos' [] nodes' pairs in
            let same : full ≡ end = rw (c, e) refl in
            let (ext, placed) = flush-IsPlaced v' nodes h in
            let (ext', none_left, later) =
              multi_pass-IsPlaced width capacity pos' [] nodes' pairs (omega (arith, ext.size)) c in
            let kept = All-Extends nodes' full v' ext' placed in
            subst Goal same (
              Extends-trans nodes nodes' full ext ext',
              All-left (IsPlaced full) vector (node ∷ []) kept,
              ((All-right (IsPlaced full) vector (node ∷ []) kept).0, later),
            )
      ]

  -- a buffer of a node's size holds one
  positive :
      (nodes_count buffer_size : ℕ)
      → helper_size (select_width nodes_count) ≤ buffer_size
      → (buffer_size / helper_size (select_width nodes_count) == 0) ≡ false
  positive nodes_count buffer_size h = elim (Bool-cases (leb nodes_count (2 ^ 32 - 1))) [
    | inl e ↦ rw e (ground (arith, rw e at h))
    | inr e ↦ rw e (ground (arith, rw e at h))
  ]

  -- Every pair of the table is where a search finds it, whichever builder the size of the buffer selects.
  pub build_index-IsPlaced :
      (nodes_count buffer_size : ℕ) (pairs : List Pair)
      → 0 < nodes_count
      → helper_size (select_width nodes_count) ≤ buffer_size
      → (length (build_index sort nodes_count buffer_size pairs) ≡ nodes_count)
        × All
            (IsPlaced (build_index sort nodes_count buffer_size pairs))
            (nodes_of (select_width nodes_count) 0 pairs)
  unfolding build_index
  build_index-IsPlaced nodes_count buffer_size pairs h fits =
      let width = select_width nodes_count in
      let nodes = replicate nodes_count free in
      let size : length nodes ≡ nodes_count = length-replicate nodes_count free in
      let some_room : 0 < length nodes = omega (arith, size, h) in
      elim (Bool-cases (leb (nodes_count * helper_size width) buffer_size)) [
        | inl e ↦
            let (ext, placed) = standard-IsPlaced width 0 nodes pairs some_room in
            rw e (ext.size ∙ size, placed)
        | inr e ↦
            let (ext, pending, placed) =
              multi_pass-IsPlaced width (buffer_size / helper_size width) 0 [] nodes pairs some_room
                (positive nodes_count buffer_size fits) in
            rw e (ext.size ∙ size, placed)
      ]
