-- ===== src/Tests/Lists.antt =====
-- The vector list, the choice of the newest pair, the joined pass and the tables.
use hm.Prelude.{true, none, some, ◌≡◌, refl, if◌then◌else◌}
use hm.Bytes.{Bytes}
use hm.Pair.{Pair}
use hm.Pair.Factory.{factory_bytes, valid, get_key}
use hm.IList.{get_newest_pair, result_deleted, result_skip_deleted}
use hm.Arena.{xallocate}
use hm.VectorList.{get_pair, insert_f, erase}
use hm.VectorList.Sorted.{IsSorted, lookup, same_key}
use hm.VectorList.Contents.{IsValid}
use hm.VectorList.Insert.{seen, vector_outcome, insert_f_lem, insert_f-outcome}
use hm.VectorList.Erase.{erase_lem}
use hm.Multi.DualIterator.{traverse}
use hm.Multi.DualIterator.Merge.{traverse_lem}
use hm.Tests.Data.{key_a, key_b, normal_b, list_ab, list_ab-IsValid, table_bc, table_bc-IsTable}

insert_f_lem_example :
    let (l, r) = insert_f true 5 list_ab normal_b in
    IsValid l
    × (get_pair l key_b ≡ seen (get_key normal_b) r.pair key_b (get_pair list_ab key_b))
    × ((p : Pair) → r.pair ≡ some p → p.key ≡ get_key normal_b)
unfolding valid
insert_f_lem_example = insert_f_lem true 5 list_ab normal_b list_ab-IsValid refl key_b refl

insert_f-outcome_example :
    (insert_f true 5 list_ab normal_b).1
    ≡ vector_outcome true 5 normal_b
        (get_pair list_ab (get_key normal_b))
        (xallocate list_ab.arena (factory_bytes normal_b)).0
unfolding valid
insert_f-outcome_example = insert_f-outcome true 5 list_ab normal_b list_ab-IsValid refl

erase_lem_example :
    let (l, r) = erase list_ab key_a in
    IsValid l
    × (get_pair l key_b ≡ (if same_key key_a key_b then none else get_pair list_ab key_b))
    × (r ≡ elim (get_pair list_ab key_a) [ none ↦ result_skip_deleted | some p ↦ result_deleted ])
erase_lem_example = erase_lem list_ab key_a list_ab-IsValid refl key_b refl

traverse_lem_example :
    IsSorted (traverse list_ab.vec table_bc.pairs)
    × ((k : Bytes)
        → lookup (traverse list_ab.vec table_bc.pairs) k
          ≡ get_newest_pair (lookup table_bc.pairs k) (lookup list_ab.vec k))
traverse_lem_example =
    traverse_lem list_ab.vec table_bc.pairs list_ab-IsValid.sorted table_bc-IsTable.sorted
      (refl, (refl, tt)) (refl, (refl, tt))
