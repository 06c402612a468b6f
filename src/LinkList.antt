-- ===== src/LinkList.antt =====
-- hm4/linklist.h and hm4/linklist.cc: the memory list as a chain of nodes in ascending order, over
-- the arena allocator, whose deallocation does nothing. The chain from `head_` is a list of nodes; a
-- Node ** is the index of the node that it points to, and an iterator is the rest of the chain.
pub mod View
pub mod Agree
pub mod Insert
pub mod Room
pub mod Contract
pub mod Divergence
use hm.Prelude.{
  ℕ, ◌+◌, List, [], ◌∷◌, Bool, true, false, Ordering, Option, none, some, set, insert_at, erase_at,
  leb, ◌==◌, if◌then◌else◌,
}
use hm.Bytes.{Bytes}
use hm.Pair.{Pair, pair_bytes}
use hm.Pair.HPair.{hkey_of, hpair_cmp}
use hm.Pair.Factory.{Factory, get_key, get_created, factory_bytes, valid, create, create_hint}
use hm.IList.{
  InsertResult, result_inserted, result_deleted, result_updated_in_place, result_replaced,
  result_skip_inserted, result_skip_deleted, result_error_no_memory, result_error_invalid,
  is_valid_for_replace, can_insert_hint, get_newest_pair,
}
use hm.ListCounter.{ListCounter, clr, inc, dec, upd}
use hm.Arena.{Arena, xallocate, reset}

-- `pair` is the field `data`
pub record Node : Type 0 where
  pub hkey : ℕ
  pub pair : Pair

pub record LinkList : Type 0 where
  pub head : List Node
  pub lc : ListCounter
  pub arena : Arena

pub record NodeLocator : Type 0 where
  pub prev : ℕ
  pub node : Option Node

-- sizeof(Node): the number and two pointers
abbrev pub internal_node_size : ℕ
internal_node_size = 24

-- the loop of locate_, `jtable` being the place that points to the chain
unfoldable pub locate : List Node → ℕ → Bytes → ℕ → NodeLocator
locate [] hkey key jtable = record { prev = jtable; node = none }
locate (node ∷ next) hkey key jtable =
    let rest = locate next hkey key (jtable + 1) in
    if leb hkey node.hkey
    then elim (hpair_cmp node.hkey node.pair hkey key) [
      | Ordering.lt ↦ rest
      | Ordering.eq ↦ record { prev = jtable; node = some node }
      | Ordering.gt ↦ record { prev = jtable; node = none }
    ]
    else rest

-- find_: with an exact evaluation, or to where the key would stand
unfoldable pub find_ : Bool → List Node → ℕ → Bytes → List Node
find_ exact [] hkey key = []
find_ exact (node ∷ next) hkey key =
    let rest = find_ exact next hkey key in
    if leb hkey node.hkey
    then elim (hpair_cmp node.hkey node.pair hkey key) [
      | Ordering.lt ↦ rest
      | Ordering.eq ↦ node ∷ next
      | Ordering.gt ↦ if exact then [] else node ∷ next
    ]
    else rest

abbrev pub size : LinkList → ℕ
size l = l.lc.count

abbrev pub empty : LinkList → Bool
empty l = size l == 0

abbrev pub bytes : LinkList → ℕ
bytes l = l.lc.bytes

-- find
unfoldable pub find : LinkList → Bytes → List Node
unfolding find_
find l key = find_ false l.head (hkey_of key) key

-- the pair of an iterator, null at the end
unfoldable pub get_data : List Node → Option Pair
get_data [] = none
get_data (node ∷ next) = some node.pair

-- getPair___
unfoldable pub get_pair : LinkList → Bytes → Option Pair
unfolding find_ get_data
get_pair l key = get_data (find_ true l.head (hkey_of key) key)

-- getPair___ with the best pair so far
unfoldable pub get_pair_best : LinkList → Bytes → Option Pair → Option Pair
unfolding get_pair get_newest_pair
get_pair_best l key best = get_newest_pair (get_pair l key) best

-- insertF where the key exists and the old pair has no room: a new pair in the old node
pub replace : ℕ → LinkList → Factory → ℕ → Pair → Option ℕ × Arena → LinkList × InsertResult
replace now l f prev old (none, arena) = (record l { arena = arena }, result_error_no_memory)
replace now l f prev old (some p, arena) =
    let neo = create now f in
    (
      record {
        head = set l.head prev (record { hkey = hkey_of (get_key f); pair = neo });
        lc = upd l.lc (pair_bytes old) (pair_bytes neo);
        arena = arena;
      },
      result_replaced neo,
    )

-- insertF where the key exists
pub overwrite : ℕ → LinkList → Factory → ℕ → Node → LinkList × InsertResult
unfolding replace
overwrite now l f prev node =
    let old = node.pair in
    if is_valid_for_replace (get_created f) old
    then (if can_insert_hint old f
        then (let neo = create_hint now f old in
            (
              record l {
                head = set l.head prev (record node { pair = neo });
                lc = upd l.lc (pair_bytes old) (pair_bytes neo);
              },
              result_updated_in_place neo,
            ))
        else replace now l f prev old (xallocate l.arena (factory_bytes f)))
    else (l, result_skip_inserted)

-- insertF where the key does not exist, the pair being allocated: the new node
pub link : ℕ → LinkList → Factory → ℕ → Option ℕ × Arena → LinkList × InsertResult
link now l f prev (none, arena) = (record l { arena = arena }, result_error_no_memory)
link now l f prev (some p, arena) =
    let neo = create now f in
    (
      record {
        head = insert_at l.head prev (record { hkey = hkey_of (get_key f); pair = neo });
        lc = inc l.lc (pair_bytes neo);
        arena = arena;
      },
      result_inserted neo,
    )

-- insertF where the key does not exist: the pair first, then the node
pub add : ℕ → LinkList → Factory → ℕ → Option ℕ × Arena → LinkList × InsertResult
unfolding link
add now l f prev (none, arena) = (record l { arena = arena }, result_error_no_memory)
add now l f prev (some p, arena) = link now l f prev (xallocate arena internal_node_size)

-- insertF
unfoldable pub insert_f : ℕ → LinkList → Factory → LinkList × InsertResult
unfolding locate overwrite add
insert_f now l f =
    if valid f
    then (let nl = locate l.head (hkey_of (get_key f)) (get_key f) 0 in
        elim nl.node [
          | some node ↦ overwrite now l f nl.prev node
          | none ↦ add now l f nl.prev (xallocate l.arena (factory_bytes f))
        ])
    else (l, result_error_invalid)

-- erase___
unfoldable pub erase : LinkList → Bytes → LinkList × InsertResult
unfolding locate
erase l key =
    let nl = locate l.head (hkey_of key) key 0 in
    elim nl.node [
      | none ↦ (l, result_skip_deleted)
      | some node ↦ (
        record l { head = erase_at l.head nl.prev; lc = dec l.lc (pair_bytes node.pair) },
        result_deleted,
      )
    ]

-- clear, over an allocator that can be reset
unfoldable pub clear : LinkList → LinkList
unfolding reset
clear l = record { head = []; lc = clr; arena = reset l.arena }

-- mutable_notify
unfoldable pub mutable_notify : LinkList → ℕ → ℕ → LinkList
mutable_notify l bytes_old bytes_new = record l { lc = upd l.lc bytes_old bytes_new }
