-- ===== src/ListCounter.antt =====
-- hm4/listcounter.h: the number of pairs of a list and their bytes, as size_t counters.
use hm.Prelude.{ℕ, add64, sub64}

pub record ListCounter : Type 0 where
  pub count : ℕ
  pub bytes : ℕ

abbrev pub clr : ListCounter
clr = record { count = 0; bytes = 0 }

unfoldable pub inc : ListCounter → ℕ → ListCounter
inc lc s = record { count = add64 lc.count 1; bytes = add64 lc.bytes s }

unfoldable pub dec : ListCounter → ℕ → ListCounter
dec lc s = record { count = sub64 lc.count 1; bytes = sub64 lc.bytes s }

unfoldable pub upd : ListCounter → ℕ → ℕ → ListCounter
upd lc so sn = record { count = lc.count; bytes = add64 (sub64 lc.bytes so) sn }
