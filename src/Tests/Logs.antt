-- ===== src/Tests/Logs.antt =====
-- The logged list and the replay of its log.
use hm.Prelude.{List, [], ◌∷◌, some, ◌≡◌, refl, arith}
use hm.Bytes.{compare_bytes}
use hm.Pair.{cmp}
use hm.Pair.Factory.{valid, get_key, clone}
use hm.BinarySearch.{binary_search}
use hm.VectorList
use hm.VectorList.{VectorList}
use hm.VectorList.Sorted.{lookup}
use hm.VectorList.Erase.{clear-IsValid}
use hm.MemList.Vector.{vector_list}
use hm.BinLog.{BinLogList, replay}
use hm.BinLog.Sync.{Command, insert, remove, InSync, run, run-InSync, last_of}
use hm.BinLog.Replay.{IsLater, replay-loses}
use hm.Tests.Data.{key_a, pair_a, pair_a_later, normal_b, list_ab, list_ab-IsValid}

abbrev logged : BinLogList VectorList
logged = record { list = VectorList.clear list_ab; log = [] }

logged-InSync : InSync vector_list 5 logged
unfolding VectorList.clear lookup last_of
logged-InSync = record { valid = (clear-IsValid list_ab list_ab-IsValid).0; shows = λ j. refl }

abbrev commands : List Command
commands = insert normal_b ∷ insert (clone pair_a) ∷ remove key_a ∷ insert (clone pair_a_later) ∷ []

run-InSync_example : InSync vector_list 5 (run vector_list 5 logged commands)
unfolding valid get_key
run-InSync_example =
    run-InSync vector_list 5 logged commands logged-InSync
      ((refl, refl), (((refl, refl), refl), (refl, (((refl, refl), refl), tt))))

pair_a_later-IsLater : IsLater pair_a pair_a_later
pair_a_later-IsLater = record {
  usable = (refl, refl);
  keyed = refl;
  later = omega arith;
  fraction = omega arith;
  microseconds = omega arith;
}

replay-loses_example :
    ((replay vector_list 5 list_ab (pair_a_later ∷ [])).vec ≡ list_ab.vec)
    × (VectorList.get_pair (replay vector_list 5 list_ab (pair_a_later ∷ [])) key_a ≡ some pair_a)
unfolding VectorList.get_pair binary_search cmp compare_bytes
replay-loses_example =
    replay-loses 5 pair_a (omega arith) list_ab (pair_a_later ∷ []) list_ab-IsValid refl
      (pair_a_later-IsLater, tt)
