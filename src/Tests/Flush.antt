-- ===== src/Tests/Flush.antt =====
-- The list that flushes.
use hm.Prelude.{none, some, ◌≡◌, ◌≢◌, ◌⊎◌, true, inl, inr, refl, sym, ◌∙◌, arith}
use hm.Bytes.{compare_bytes}
use hm.Pair.{Pair, cmp}
use hm.BinarySearch.{binary_search}
use hm.Arena.{xallocate}
use hm.LinkList
use hm.Pair.HPair.{create_hash, hpair_cmp}
use hm.Pair.Factory.{tombstone, create_hint, valid, create, get_key, get_created, factory_bytes}
use hm.MyTime.{to64}
use hm.DualList.{erase, insert_ts, erase_tombstone}
use hm.DualList.Hidden.{get_pair_ptr-erase}
use hm.IList.{get_pair_ptr, error_no_memory, result_inserted}
use hm.VectorList.Sorted.{lookup}
use hm.Disk.Exact.{binary_table, binary_table-IsSearch}
use hm.MemList.Linked.{link_list}
use hm.Multi.Newest.{newest_of, NoTies, Has}
use hm.FlushList.{flush, insert_f, insert_f_, predicate, is_no_memory, get_pair}
use hm.FlushList.Reads.{IsValid, found, get_pair-newest_of}
use hm.FlushList.Flush.{get_pair-flush}
use hm.FlushList.Insert.{
  insert_f-IsValid, get_pair-insert_f_other, get_pair-insert_f_self, insert_f-ne-no_memory,
}
use hm.Tests.Data.{
  pair_b, key_a, key_b, normal_b, flush_list, linked_ab-IsValid, ascii-IsTable, pair_a, ascii_a,
  ascii_b, ascii-IsTable,
}

flush_list-IsValid : IsValid link_list flush_list
flush_list-IsValid = record { list = linked_ab-IsValid; tables = (ascii-IsTable, tt) }

only_a : (p : Pair) → Has p (found link_list flush_list key_a) → pair_a ≡ p
unfolding lookup compare_bytes
only_a p (inl e) = cc
only_a p (inr (inl e)) = absurd (cc)
only_a p (inr (inr e)) = elim e [ ]

-- the only pair of `key_a` is in the memory list
key_a-NoTies : NoTies (found link_list flush_list key_a)
key_a-NoTies p q h k e = sym (only_a p h) ∙ only_a q k

get_pair-newest_of_example :
    get_pair link_list binary_table flush_list key_b
    ≡ newest_of none (found link_list flush_list key_b)
get_pair-newest_of_example =
    get_pair-newest_of link_list binary_table flush_list key_b binary_table-IsSearch
      flush_list-IsValid ascii_b

get_pair-flush_example :
    get_pair link_list binary_table (flush link_list 5 flush_list) key_a
    ≡ get_pair link_list binary_table flush_list key_a
get_pair-flush_example =
    get_pair-flush link_list 5 flush_list flush_list-IsValid binary_table key_a
      binary_table-IsSearch ascii_a key_a-NoTies

insert_f-IsValid_example : IsValid link_list (insert_f link_list 5 flush_list normal_b).0
unfolding valid get_key
insert_f-IsValid_example =
    insert_f-IsValid link_list 5 flush_list normal_b flush_list-IsValid refl ascii_b binary_table
      binary_table-IsSearch

get_pair-insert_f_other_example :
    get_pair link_list binary_table (insert_f link_list 5 flush_list normal_b).0 key_a
    ≡ get_pair link_list binary_table flush_list key_a
unfolding valid get_key compare_bytes
get_pair-insert_f_other_example =
    get_pair-insert_f_other link_list 5 flush_list normal_b flush_list-IsValid refl ascii_b
      binary_table binary_table-IsSearch key_a ascii_a key_a-NoTies refl

get_pair-insert_f_self_example :
    get_pair link_list binary_table (insert_f link_list 5 flush_list normal_b).0 (get_key normal_b)
    ≡ some (create 5 normal_b)
unfolding valid get_key create lookup compare_bytes insert_f factory_bytes binary_search cmp
    get_created xallocate LinkList.insert_f create_hash hpair_cmp
get_pair-insert_f_self_example =
    get_pair-insert_f_self link_list 5 flush_list normal_b flush_list-IsValid refl ascii_b
      binary_table binary_table-IsSearch (create 5 normal_b) refl (omega arith, (omega arith, tt))

insert_f-ne-no_memory_example :
    ((insert_f link_list 5 flush_list normal_b).1.status ≢ error_no_memory)
    × ((predicate link_list flush_list.list (factory_bytes normal_b) ≡ true)
          ⊎ (is_no_memory (insert_f_ link_list 5 flush_list normal_b).1.status ≡ true)
        → (insert_f link_list 5 flush_list normal_b).1 ≡ result_inserted (create 5 normal_b))
unfolding valid factory_bytes get_key
insert_f-ne-no_memory_example =
    insert_f-ne-no_memory link_list 5 flush_list normal_b flush_list-IsValid refl ascii_b
      binary_table binary_table-IsSearch (omega arith)

get_pair_ptr-erase_example :
    get_pair_ptr 9 (
      get_pair link_list binary_table
        (erase link_list erase_tombstone (to64 1800000000) flush_list key_b).0
        key_b)
    ≡ none
unfolding valid get_key create lookup compare_bytes insert_f factory_bytes get_created xallocate
    LinkList.insert_f create_hash hpair_cmp create_hint erase insert_ts
get_pair_ptr-erase_example =
    get_pair_ptr-erase link_list (to64 1800000000) binary_table binary_table-IsSearch flush_list
      key_b flush_list-IsValid ascii_b 9 (create_hint (to64 1800000000) (tombstone key_b 0) pair_b)
      refl (omega arith, (omega arith, tt))
