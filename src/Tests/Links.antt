-- ===== src/Tests/Links.antt =====
-- The linked list and the binary search of a table.
use hm.Prelude.{
  ℕ, ◌<◌, ap, inr, List, [], ◌∷◌, arith, some, none, ◌≡◌, refl, length, if◌then◌else◌, take, ◌++◌,
  Ordering,
}
use hm.Bytes.{Bytes, compare_bytes}
use hm.Pair.{Pair}
use hm.Pair.HPair.{IsAsciiKey, hkey_of, hpair_cmp}
use hm.Pair.Factory.{valid, get_key}
use hm.IList.{result_deleted, result_skip_deleted}
use hm.VectorList.Insert.{seen}
use hm.VectorList.Sorted.{scan, same_key}
use hm.LinkList.{get_pair, insert_f, erase}
use hm.LinkList.Agree.{IsValid}
use hm.LinkList.Divergence.{hpair_cmp-compare_signed}
use hm.Lcp.{cmp_lcp}
use hm.LinkList.Contract.{get_pair-insert_f, get_pair-erase}
use hm.Disk.Search.{search_binary}
use hm.Disk.HotLine.{build_line, search_hot_line}
use hm.Disk.HotLine.Exact.{search_hot_line-scan}
use hm.Disk.Exact.{search_binary-scan}
use hm.Tests.Data.{
  key_a, key_b, pair_a, normal_b, linked_ab, linked_ab-IsValid, table_bc, ascii_a, ascii_b,
  ascii-IsTable,
}

get_pair-insert_f_example :
    let (l', r) = insert_f 5 linked_ab normal_b in
    IsValid l'
    × (get_pair l' key_a ≡ seen (get_key normal_b) r.pair key_a (get_pair linked_ab key_a))
    × ((p : Pair) → r.pair ≡ some p → p.key ≡ get_key normal_b)
unfolding valid get_key
get_pair-insert_f_example =
    get_pair-insert_f 5 linked_ab normal_b linked_ab-IsValid refl ascii_b.1 key_a refl ascii_a.1

get_pair-erase_example :
    let (l', r) = erase linked_ab key_a in
    IsValid l'
    × (get_pair l' key_b ≡ (if same_key key_a key_b then none else get_pair linked_ab key_b))
    × (r ≡ elim (get_pair linked_ab key_a) [ none ↦ result_skip_deleted | some p ↦ result_deleted ])
get_pair-erase_example =
    get_pair-erase linked_ab key_a key_b linked_ab-IsValid refl ascii_a.1 refl ascii_b.1

search_binary-scan_example :
    search_binary table_bc.pairs key_b 0 0 (length table_bc.pairs) ≡ scan table_bc.pairs key_b
search_binary-scan_example =
    search_binary-scan table_bc.pairs key_b ascii-IsTable.sorted ascii-IsTable.stored ascii_b

-- two keys with the same first eight bytes
abbrev key_x : Bytes
key_x = 97 ∷ 97 ∷ 97 ∷ 97 ∷ 97 ∷ 97 ∷ 97 ∷ 97 ∷ 98 ∷ []

abbrev key_y : Bytes
key_y = 97 ∷ 97 ∷ 97 ∷ 97 ∷ 97 ∷ 97 ∷ 97 ∷ 97 ∷ 99 ∷ []

abbrev two_long : List Pair
two_long = record pair_a { key = key_x } ∷ record pair_a { key = key_y } ∷ []

letters : (c : ℕ) → 0 < c → c < 128 → IsAsciiKey (97 ∷ 97 ∷ 97 ∷ 97 ∷ 97 ∷ 97 ∷ 97 ∷ 97 ∷ c ∷ [])
letters c h k =
    let a : (0 < 97) × (97 < 128) = (omega arith, omega arith) in
    (refl, (a, (a, (a, (a, (a, (a, (a, (a, ((h, k), tt))))))))))

search_hot_line-scan_example :
    search_hot_line two_long (build_line two_long) key_y ≡ scan two_long key_y
unfolding compare_bytes
search_hot_line-scan_example =
    search_hot_line-scan two_long key_y ((refl, tt), (tt, tt))
      (letters 98 (omega arith) (omega arith), (letters 99 (omega arith) (omega arith), tt))
      (letters 99 (omega arith) (omega arith))
      (inr ((λ e. omega (arith, ap length e)), ((λ e. omega (arith, ap length e)), tt)))

-- a byte that is not ASCII behind eight that are
abbrev signed_key : Bytes
signed_key = take 8 key_x ++ (200 ∷ [])

hpair_cmp-compare_signed_example :
    (hpair_cmp (hkey_of key_x) (record pair_a { key = key_x }) (hkey_of signed_key) signed_key
      ≡ Ordering.gt)
    × (compare_bytes key_x signed_key ≡ Ordering.lt)
    × ((cmp_lcp key_x signed_key).0 ≡ Ordering.lt)
hpair_cmp-compare_signed_example =
    hpair_cmp-compare_signed (take 8 key_x) refl (record pair_a { key = key_x }) 98 [] 200 []
      (let c : (0 < 97) × (97 < 128) = (omega arith, omega arith) in
        (c, (c, (c, (c, (c, (c, (c, (c, tt)))))))))
      refl (omega arith) (omega arith) (omega arith)
