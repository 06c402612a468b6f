-- ===== src/Tests/Streams.antt =====
-- The counters of frequent items, the best items of a stream, and the sizes of hash indexes.
use hm.Prelude.{ℕ, ◌+◌, ◌-◌, ◌*◌, ◌^◌, ◌≤◌, List, [], ◌∷◌, true, some, length, arith, ◌≡◌, ◌⊎◌}
use hm.Bytes.{Bytes}
use hm.MisraGries.{clear}
use hm.MisraGries.Slots.{estimate}
use hm.MisraGries.Stream.{count, run, estimate-run}
use hm.HeavyHitter.{clear as clear_hitters}
use hm.HeavyHitter.Slots.{held, slots}
use hm.HeavyHitter.Best.{AtLeast}
use hm.HeavyHitter.Top.{best_from, run-top, run as run_hitters}
use hm.Oprime.{next, IsNext, next-IsNext}
use hm.Tests.Data.{key_a, key_b, key_c}

-- three items over two slots
abbrev stream : List Bytes
stream = key_a ∷ key_b ∷ key_a ∷ key_c ∷ key_a ∷ []

estimate-run_example :
    let held = estimate (run (clear 2) stream) key_a in
    (held ≤ count stream key_a) × ((2 + 1) * (count stream key_a - held) ≤ length stream)
estimate-run_example = estimate-run 2 stream key_a (omega arith)

-- five additions to two slots; the last score is -1
abbrev scored : List (Bytes × ℕ)
scored = (key_a, 5) ∷ (key_b, 7) ∷ (key_c, 6) ∷ (key_a, 9) ∷ (key_b, 2 ^ 64 - 1) ∷ []

run-top_example :
    (slots (run_hitters true (clear_hitters 2) scored) key_c ≤ 1)
    × ((held true (run_hitters true (clear_hitters 2) scored) key_c ≡ best_from true 0 scored key_c)
        ⊎ ((held true (run_hitters true (clear_hitters 2) scored) key_c ≡ 0)
            × AtLeast true
                (best_from true 0 scored key_c)
                (run_hitters true (clear_hitters 2) scored)))
run-top_example =
    run-top true 2 scored key_c
      (omega arith, (omega arith, (omega arith, (omega arith, (omega arith, tt)))))

next-IsNext_example : (r : ℕ) × (next (2 ^ 63) 4 ≡ some r) × IsNext 4 r
next-IsNext_example = next-IsNext (2 ^ 63) 4 (omega arith) (omega arith) (omega arith)
