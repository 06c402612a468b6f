-- ===== src/Tests/Data.antt =====
-- Keys, pairs, lists and tables that the other test modules share.
use hm.Prelude.{[], ◌∷◌, true, ◌≡◌, refl, arith}
use hm.Bytes.{Bytes, compare_bytes}
use hm.MyTime.{to64, to64_usec}
use hm.Pair.{Pair, is_key_valid}
use hm.Pair.Factory.{Factory, normal}
use hm.Arena
use hm.Arena.{Arena}
use hm.VectorList.{VectorList}
use hm.Pair.HPair.{IsAsciiKey, create_hash}
use hm.LinkList.{LinkList}
use hm.LinkList.Agree.{IsValid as LinkIsValid}
use hm.VectorList.Sorted.{lookup, total_bytes}
use hm.VectorList.Contents.{IsValid}
use hm.Disk.FileBuilder.{DiskTable}
use hm.Disk.DiskTable.{Search, IsSearch, IsTable}
use hm.FlushList.{FlushList}

abbrev pub key_a : Bytes
key_a = 97 ∷ []

abbrev pub key_b : Bytes
key_b = 98 ∷ []

abbrev pub key_c : Bytes
key_c = 99 ∷ []

abbrev pub pair_a : Pair
pair_a = record { created = to64 1700000000; expires = 0; key = key_a; val = 120 ∷ [] }

-- a later version of `pair_a`, with microseconds
abbrev pub pair_a_later : Pair
pair_a_later = record {
  created = to64_usec 1700000009 250000;
  expires = 0;
  key = key_a;
  val = 121 ∷ [];
}

abbrev pub pair_b : Pair
pair_b = record { created = to64 1700000001; expires = 0; key = key_b; val = 122 ∷ [] }

abbrev pub pair_c : Pair
pair_c = record { created = to64 1600000000; expires = 60; key = key_c; val = 123 ∷ [] }

abbrev pub normal_b : Factory
normal_b = normal key_b (119 ∷ 119 ∷ []) 0 1800000000

abbrev pub arena : Arena
arena = record { size = 4096; pos = 48 }

pub arena-IsValid : Arena.IsValid arena
arena-IsValid = record { small = omega arith; whole = refl; within = omega arith }

abbrev pub list_ab : VectorList
list_ab = record {
  vec = pair_a ∷ pair_b ∷ [];
  lc = record { count = 2; bytes = 44 };
  arena = arena;
}

pub list_ab-IsValid : IsValid list_ab
unfolding compare_bytes total_bytes
list_ab-IsValid = record {
  sorted = ((refl, tt), (tt, tt));
  count = refl;
  bytes = refl;
  room = arena-IsValid;
}

abbrev pub table_bc : DiskTable
table_bc = record {
  pairs = pair_b ∷ pair_c ∷ [];
  created_min = to64 1600000000;
  created_max = to64 1700000001;
  count = 2;
  tombstones = 0;
}

pub table_bc-IsTable : IsTable (λ key. Unit) table_bc
unfolding compare_bytes
table_bc-IsTable = record {
  sorted = ((refl, tt), (tt, tt));
  stored = (tt, (tt, tt));
  newest = (omega arith, (omega arith, tt));
}

-- a search that reads the table from its beginning
abbrev pub scan_table : Search
scan_table t key = lookup t.pairs key

pub scan_table-IsSearch : IsSearch (λ key. Unit) (λ key. is_key_valid key ≡ true) scan_table
scan_table-IsSearch = record { exact = λ t key s h k. refl }

abbrev pub linked_ab : LinkList
linked_ab = record {
  head =
      record { hkey = 6989586621679009792; pair = pair_a }
      ∷ record { hkey = 7061644215716937728; pair = pair_b }
      ∷ [];
  lc = record { count = 2; bytes = 44 };
  arena = arena;
}

pub linked_ab-IsValid : LinkIsValid linked_ab
unfolding create_hash
linked_ab-IsValid = record {
  vec = list_ab-IsValid;
  nodes = (
    (refl, (refl, ((omega arith, omega arith), tt))),
    ((refl, (refl, ((omega arith, omega arith), tt))), tt),
  );
}

pub ascii_b : IsAsciiKey key_b
ascii_b = (refl, ((omega arith, omega arith), tt))

pub ascii_a : IsAsciiKey key_a
ascii_a = (refl, ((omega arith, omega arith), tt))

pub ascii-IsTable : IsTable IsAsciiKey table_bc
unfolding compare_bytes
ascii-IsTable = record {
  sorted = ((refl, tt), (tt, tt));
  stored = (ascii_b, ((refl, ((omega arith, omega arith), tt)), tt));
  newest = (omega arith, (omega arith, tt));
}

-- a linked list over a table that is searched by its keys
abbrev pub flush_list : FlushList LinkList
flush_list = record { list = linked_ab; tables = table_bc ∷ []; version = 1 }
