-- ===== src/IList.antt =====
-- hm4/ilist.h: results of an insertion, which of two pairs is newer, and reads through a list.
use hm.Prelude.{
  ℕ, Bool, true, false, Ordering, leb, ◌==◌, ◌&&◌, length, if◌then◌else◌, Option, none, some, [],
}
use hm.Bytes.{Bytes}
use hm.Pair.{Pair, cmp_time, prepare_create_time_simulate, is_ok, pair_bytes}
use hm.Pair.Factory.{Factory, factory_bytes}

pub data Status : Type 0 where
  inserted deleted updated_in_place replaced skip_inserted skip_deleted : Status
  error_no_memory error_invalid error : Status

pub record InsertResult : Type 0 where
  pub ok : Bool
  pub status : Status
  pub pair : Option Pair

abbrev pub result_inserted : Pair → InsertResult
result_inserted p = record { ok = true; status = inserted; pair = some p }

abbrev pub result_deleted : InsertResult
result_deleted = record { ok = true; status = deleted; pair = none }

abbrev pub result_updated_in_place : Pair → InsertResult
result_updated_in_place p = record { ok = true; status = updated_in_place; pair = some p }

abbrev pub result_replaced : Pair → InsertResult
result_replaced p = record { ok = true; status = replaced; pair = some p }

abbrev pub result_skip_inserted : InsertResult
result_skip_inserted = record { ok = true; status = skip_inserted; pair = none }

abbrev pub result_skip_deleted : InsertResult
result_skip_deleted = record { ok = false; status = skip_deleted; pair = none }

abbrev pub result_error_no_memory : InsertResult
result_error_no_memory = record { ok = false; status = error_no_memory; pair = none }

abbrev pub result_error_invalid : InsertResult
result_error_invalid = record { ok = false; status = error_invalid; pair = none }

abbrev pub result_error : InsertResult
result_error = record { ok = false; status = error; pair = none }

-- isValidForReplace, on a 32-bit time of creation
abbrev pub is_valid_for_replace : ℕ → Pair → Bool
is_valid_for_replace created old = leb old.created (prepare_create_time_simulate created)

-- canInsertHintAllocatorF, for a pair that the list's own allocator owns
abbrev pub can_insert_hint : Pair → Factory → Bool
can_insert_hint p f = leb (factory_bytes f) (pair_bytes p)

-- getNewestPair_: the first pair wins only if it is strictly newer
unfoldable pub get_newest_pair : Option Pair → Option Pair → Option Pair
get_newest_pair none q = q
get_newest_pair (some p) none = some p
get_newest_pair (some p) (some q) = elim (cmp_time p q) [ Ordering.gt ↦ some p | _ ↦ some q ]

-- getPairPtr: only a pair that is OK is shown
unfoldable pub get_pair_ptr : ℕ → Option Pair → Option Pair
get_pair_ptr now none = none
get_pair_ptr now (some p) = if is_ok now p then some p else none

-- getPairVal: its value, or the empty string
unfoldable pub get_pair_val : ℕ → Option Pair → Bytes
get_pair_val now none = []
get_pair_val now (some p) = if is_ok now p then p.val else []

-- getPairPtrWithSize
unfoldable pub get_pair_ptr_with_size : ℕ → Option Pair → ℕ → Option Pair
get_pair_ptr_with_size now none size = none
get_pair_ptr_with_size now (some p) size =
    if is_ok now p && length p.val == size then some p else none
