-- ===== src/Disk/HashIndex/Cells.antt =====
-- Where a node of a hash index stands: in a cell that a search for it comes to.
use hm.Prelude.{
  ℕ, zero, suc, ◌+◌, ◌<◌, List, [], ◌∷◌, length, get_or, set, length-set, get_or-set_self,
  get_or-set_ne, All, ◌==◌, ◌≡◌, ◌≢◌, refl, sym, ◌∙◌, ap, arith, ◌⊎◌, inl, inr, Bool-cases,
}
use hm.Disk.HashIndex.{
  HashNode, free, cell, node_at, open_addresses, insert_from, insert, insert_all,
}

-- nothing but free cells was changed
pub record Extends (old new : List HashNode) : Type 0 where
  pub size : length new ≡ length old
  pub taken : (c : ℕ) → (get_or old c free).hash ≢ 0 → get_or new c free ≡ get_or old c free

pub Extends-refl : (nodes : List HashNode) → Extends nodes nodes
Extends-refl nodes = record { size = refl; taken = λ c h. refl }

pub Extends-trans : (a b c : List HashNode) → Extends a b → Extends b c → Extends a c
Extends-trans a b c h k = record {
  size = k.size ∙ h.size;
  taken = λ i t. k.taken i (rw (h.taken i t) t) ∙ h.taken i t;
}

-- a node in one of the next `left` cells, behind cells that are not free, or no free cell among them
abbrev pub Placed : ℕ → ℕ → List HashNode → HashNode → Type 0
Placed zero i nodes node = Unit
Placed (suc left) i nodes node =
    (node_at nodes node.hash i ≡ node)
    ⊎ (((node_at nodes node.hash i).hash ≢ 0) × Placed left (i + 1) nodes node)

Placed-Extends :
    (left i : ℕ) (old new : List HashNode) (node : HashNode)
    → node.hash ≢ 0
    → Extends old new
    → Placed left i old node
    → Placed left i new node
Placed-Extends zero i old new node h e p = tt
Placed-Extends (suc left) i old new node h e (inl p) =
    let same = e.taken (cell (length old) node.hash i) (rw p h) in inl (rw e.size (same ∙ p))
Placed-Extends (suc left) i old new node h e (inr (t, p)) =
    let same = e.taken (cell (length old) node.hash i) t in
    inr (rw (e.size, same) t, Placed-Extends left (i + 1) old new node h e p)

-- a node with a hash stands where a search finds it
abbrev pub IsPlaced : List HashNode → HashNode → Type 0
IsPlaced nodes node = node.hash ≢ 0 → Placed open_addresses 0 nodes node

pub IsPlaced-Extends :
    (old new : List HashNode) (node : HashNode)
    → Extends old new
    → IsPlaced old node
    → IsPlaced new node
IsPlaced-Extends old new node e p h = Placed-Extends open_addresses 0 old new node h e (p h)

cell_in_range : (n hc i : ℕ) → 0 < n → cell n hc i < n
cell_in_range n hc i h = grind arith

set-Extends :
    (nodes : List HashNode) (c : ℕ) (node : HashNode)
    → (get_or nodes c free).hash ≡ 0
    → Extends nodes (set nodes c node)
set-Extends nodes c node f = record {
  size = length-set nodes c node;
  taken = λ i t.
      get_or-set_ne nodes c i node free (λ e. t (ap (λ j. (get_or nodes j free).hash) (sym e) ∙ f));
}

insert_from-Extends :
    (left i : ℕ) (node : HashNode) (nodes : List HashNode)
    → Extends nodes (insert_from left i node nodes)
unfolding insert_from
insert_from-Extends zero i node nodes = Extends-refl nodes
insert_from-Extends (suc left) i node nodes =
    elim (Bool-cases ((node_at nodes node.hash i).hash == 0)) [
      | inl e ↦ rw e (set-Extends nodes (cell (length nodes) node.hash i) node (ground arith))
      | inr e ↦ rw e (insert_from-Extends left (i + 1) node nodes)
    ]

insert_from-Placed :
    (left i : ℕ) (node : HashNode) (nodes : List HashNode)
    → 0 < length nodes
    → node.hash ≢ 0
    → Placed left i (insert_from left i node nodes) node
unfolding insert_from
insert_from-Placed zero i node nodes h k = tt
insert_from-Placed (suc left) i node nodes h k =
    let c = cell (length nodes) node.hash i in
    elim (Bool-cases ((node_at nodes node.hash i).hash == 0)) [
      | inl e ↦ rw e (
          inl (
            rw (length-set nodes c node)
              (get_or-set_self nodes c node free (cell_in_range (length nodes) node.hash i h))))
      | inr e ↦
          let ext = insert_from-Extends left (i + 1) node nodes in
          let t : (node_at nodes node.hash i).hash ≢ 0 = ground (arith, e) in
          rw e
            (inr (rw (ext.size, ext.taken c t) t, insert_from-Placed left (i + 1) node nodes h k))
    ]

pub insert-Extends : (node : HashNode) (nodes : List HashNode) → Extends nodes (insert node nodes)
unfolding insert
insert-Extends node nodes = insert_from-Extends open_addresses 0 node nodes

pub insert-IsPlaced :
    (node : HashNode) (nodes : List HashNode) → 0 < length nodes → IsPlaced (insert node nodes) node
unfolding insert
insert-IsPlaced node nodes h k = insert_from-Placed open_addresses 0 node nodes h k

pub insert_all-Extends : (vector nodes : List HashNode) → Extends nodes (insert_all vector nodes)
unfolding insert_all
insert_all-Extends [] nodes = Extends-refl nodes
insert_all-Extends (node ∷ vector) nodes =
    Extends-trans nodes (insert node nodes) (insert_all vector (insert node nodes))
      (insert-Extends node nodes) (insert_all-Extends vector (insert node nodes))

pub insert_all-IsPlaced :
    (vector nodes : List HashNode)
    → 0 < length nodes
    → All (IsPlaced (insert_all vector nodes)) vector
unfolding insert_all
insert_all-IsPlaced [] nodes h = tt
insert_all-IsPlaced (node ∷ vector) nodes h =
    let nodes' = insert node nodes in
    let ext = insert-Extends node nodes in
    (
      IsPlaced-Extends nodes' (insert_all vector nodes') node (insert_all-Extends vector nodes')
          (insert-IsPlaced node nodes h),
      insert_all-IsPlaced vector nodes' (omega (arith, ext.size)),
    )
