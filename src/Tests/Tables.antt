-- ===== src/Tests/Tables.antt =====
-- The orders of keys and the search in a table.
use hm.Prelude.{List, [], ◌∷◌, true, Ordering, ◌≡◌, ◌≢◌, refl, arith}
use hm.Bytes.{Bytes, compare_bytes}
use hm.Pair.{Pair}
use hm.Lcp.{cmp_lcp, cmp_lcp-compare_signed}
use hm.Disk.Search.{search_binary, search_binary-short}
use hm.Tests.Data.{key_a}

cmp_lcp-compare_signed_example :
    ((cmp_lcp key_a (195 ∷ 169 ∷ [])).0 ≡ Ordering.lt)
    × (compare_bytes key_a (195 ∷ 169 ∷ []) ≡ Ordering.gt)
cmp_lcp-compare_signed_example =
    cmp_lcp-compare_signed 97 [] 195 (169 ∷ []) (omega arith) (omega arith) (omega arith)

-- "user0001"
abbrev user_1 : Bytes
user_1 = 117 ∷ 115 ∷ 101 ∷ 114 ∷ 48 ∷ 48 ∷ 48 ∷ 49 ∷ []

-- "user00012"
abbrev user_12 : Bytes
user_12 = 117 ∷ 115 ∷ 101 ∷ 114 ∷ 48 ∷ 48 ∷ 48 ∷ 49 ∷ 50 ∷ []

abbrev pair_of : Bytes → Pair
pair_of key = record { created = 1; expires = 0; key = key; val = key }

abbrev users : List Pair
users = pair_of user_1 ∷ pair_of user_12 ∷ []

search_binary-short_example :
    (search_binary users user_12 8 0 2 ≡ record { found = true; it = 0 }) × (user_1 ≢ user_12)
search_binary-short_example =
    search_binary-short users user_12 (pair_of user_1) 0 2 refl (omega arith) (omega arith)
      (omega arith)
