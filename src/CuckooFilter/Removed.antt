-- ===== src/CuckooFilter/Removed.antt =====
-- What a removal of include/cuckoofilter.h takes out of the table.
use hm.Prelude.{
  ℕ, zero, suc, ◌+◌, [], ◌∷◌, Bool, true, false, Option, none, some, ◌≡◌, ◌≢◌, refl, sym, arith,
  ◌==◌, get_or, set, if◌then◌else◌,
}
use hm.CuckooFilter.{Bucket, Table, ix, put, take_out}

-- in how many slots the fingerprint is
unfoldable pub copies : ℕ → Bucket → ℕ
copies fp [] = 0
copies fp (x ∷ b) = (if x == fp then 1 else 0) + copies fp b

unfoldable pub copies_in : ℕ → Table → ℕ
unfolding copies
copies_in fp [] = 0
copies_in fp (b ∷ table) = copies fp b + copies_in fp table

copies-set_self :
    (b : Bucket) (slot fp : ℕ)
    → fp ≢ 0
    → get_or b slot 0 ≡ fp
    → copies fp b ≡ suc (copies fp (set b slot 0))
unfolding copies
copies-set_self [] slot fp n h = absurd (n (sym h))
copies-set_self (x ∷ b) zero fp n h = ground (arith, n, h)
copies-set_self (x ∷ b) (suc slot) fp n h = omega (arith, copies-set_self b slot fp n h)

copies-set_other :
    (b : Bucket) (slot fp g : ℕ)
    → g ≢ 0
    → g ≢ fp
    → get_or b slot 0 ≡ fp
    → copies g (set b slot 0) ≡ copies g b
unfolding copies
copies-set_other [] slot fp g n d h = refl
copies-set_other (x ∷ b) zero fp g n d h = ground (arith, n, d, h)
copies-set_other (x ∷ b) (suc slot) fp g n d h = omega (arith, copies-set_other b slot fp g n d h)

copies-put_self :
    (table : Table) (index slot fp : ℕ)
    → fp ≢ 0
    → get_or (ix table index) slot 0 ≡ fp
    → copies_in fp table ≡ suc (copies_in fp (put table index slot 0))
unfolding copies_in put
copies-put_self [] index slot fp n h = absurd (n (sym h))
copies-put_self (b ∷ table) zero slot fp n h = omega (arith, copies-set_self b slot fp n h)
copies-put_self (b ∷ table) (suc index) slot fp n h =
    omega (arith, copies-put_self table index slot fp n h)

copies-put_other :
    (table : Table) (index slot fp g : ℕ)
    → g ≢ 0
    → g ≢ fp
    → get_or (ix table index) slot 0 ≡ fp
    → copies_in g (put table index slot 0) ≡ copies_in g table
unfolding copies_in put
copies-put_other [] index slot fp g n d h = refl
copies-put_other (b ∷ table) zero slot fp g n d h =
    omega (arith, copies-set_other b slot fp g n d h)
copies-put_other (b ∷ table) (suc index) slot fp g n d h =
    omega (arith, copies-put_other table index slot fp g n d h)

-- of the fingerprint one copy less is left, and of any other as many; or nothing has changed
abbrev pub TakesOne : ℕ → Table → Table × Bool → Type 0
TakesOne fp table r =
    (r.1 ≡ true
      → (copies_in fp table ≡ suc (copies_in fp r.0))
        × ((g : ℕ) → g ≢ 0 → g ≢ fp → copies_in g r.0 ≡ copies_in g table))
    × (r.1 ≡ false → r.0 ≡ table)

pub take_out-TakesOne :
    (table : Table) (index fp : ℕ) (o : Option ℕ) (more : Table × Bool)
    → fp ≢ 0
    → ((slot : ℕ) → o ≡ some slot → get_or (ix table index) slot 0 ≡ fp)
    → TakesOne fp table more
    → TakesOne fp table (take_out table index o more)
unfolding take_out
take_out-TakesOne table index fp none more n at m = m
take_out-TakesOne table index fp (some slot) more n at m = (
  λ e. (
    copies-put_self table index slot fp n (at slot refl),
    λ g z d. copies-put_other table index slot fp g z d (at slot refl),
  ),
  λ e. absurd (cc),
)
