-- ===== src/LinkList/Room.antt =====
-- The arena of a linked list of hm4/linklist.cc: its size, and what fits in it.
use hm.Prelude.{
  ℕ, ◌+◌, ◌^◌, ◌≤◌, Option, none, some, add64, ◌≡◌, refl, ◌∙◌, arith, Option-cases, inl, inr,
}
use hm.Pair.{Pair}
use hm.Pair.HPair.{hkey_of}
use hm.Pair.Factory.{Factory, get_key, factory_bytes}
use hm.Arena
use hm.Arena.{Arena, xallocate, align, get_free_memory, size-xallocate}
use hm.LinkList.{
  internal_node_size, Node, LinkList, locate, link, add, replace, overwrite, insert_f,
}
use hm.LinkList.Agree.{node_room}

-- an arena that has room for the pair and its node
pub node_room_fits :
    (arena : Arena) (bytes : ℕ)
    → Arena.IsValid arena
    → bytes ≤ 2 ^ 32
    → bytes + internal_node_size + 16 ≤ get_free_memory arena
    → (p : ℕ) × ((node_room (xallocate arena bytes)).0 ≡ some p)
unfolding xallocate node_room
node_room_fits arena bytes v small h = (align (add64 (align arena.pos) bytes), ground arith)

size-link :
    (now : ℕ) (l : LinkList) (f : Factory) (i : ℕ) (r : Option ℕ × Arena)
    → (link now l f i r).0.arena.size ≡ r.1.size
unfolding link
size-link now l f i (none, arena) = refl
size-link now l f i (some p, arena) = refl

size-add :
    (now : ℕ) (l : LinkList) (f : Factory) (i : ℕ) (r : Option ℕ × Arena)
    → (add now l f i r).0.arena.size ≡ r.1.size
unfolding add
size-add now l f i (none, arena) = refl
size-add now l f i (some p, arena) =
    size-link now l f i (xallocate arena internal_node_size)
    ∙ size-xallocate arena internal_node_size

size-replace :
    (now : ℕ) (l : LinkList) (f : Factory) (i : ℕ) (old : Pair) (r : Option ℕ × Arena)
    → (replace now l f i old r).0.arena.size ≡ r.1.size
unfolding replace
size-replace now l f i old (none, arena) = refl
size-replace now l f i old (some p, arena) = refl

size-overwrite :
    (now : ℕ) (l : LinkList) (f : Factory) (i : ℕ) (n : Node)
    → (overwrite now l f i n).0.arena.size ≡ l.arena.size
unfolding overwrite
size-overwrite now l f i n = ground (
  arith,
  size-replace now l f i n.pair (xallocate l.arena (factory_bytes f)),
  size-xallocate l.arena (factory_bytes f),
)

-- The arena keeps its size.
pub size-insert_f :
    (now : ℕ) (l : LinkList) (f : Factory) → (insert_f now l f).0.arena.size ≡ l.arena.size
unfolding insert_f
size-insert_f now l f =
    let nl = locate l.head (hkey_of (get_key f)) (get_key f) 0 in
    let r = xallocate l.arena (factory_bytes f) in
    elim (Option-cases nl.node) [
      | inl e ↦
          ground (arith, e, size-add now l f nl.prev r, size-xallocate l.arena (factory_bytes f))
      | inr (n, e) ↦ ground (arith, e, size-overwrite now l f nl.prev n)
    ]
