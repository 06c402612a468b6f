-- ===== src/CuckooFilter/Bucket.antt =====
-- Which fingerprints the buckets of include/cuckoofilter.h hold.
use hm.Prelude.{
  ℕ, zero, suc, ◌<◌, [], ◌∷◌, Bool, true, false, some, ◌≡◌, ◌≢◌, ◌↔◌, refl, sym, ◌∙◌, ap, subst,
  arith, ◌⊎◌, inl, inr, ◌==◌, length, get_or, set, All, length-set, get_or-set_self, get_or-set_ne,
  Bool-cases, Option-cases, ==_iff, ◌&&◌,
}
use hm.CuckooFilter.{Bucket, Table, ix, try_insert, try_find, is_found}

-- the fingerprint is in the bucket
abbrev pub In : ℕ → Bucket → Type 0
In fp [] = ⊥
In fp (x ∷ b) = (x ≡ fp) ⊎ In fp b

pub find-In : (fp : ℕ) (b : Bucket) → is_found (try_find fp b) ≡ true ↔ In fp b
unfolding try_find
find-In fp [] = (λ h. absurd (cc), λ h. absurd h)
find-In fp (x ∷ b) =
    let ih = find-In fp b in
    elim (Bool-cases (x == fp)) [
      | inl e ↦ (λ h. inl (ground (arith, e)), λ h. ground (arith, e))
      | inr e ↦ (
        λ h. inr (
            ih.0 (elim (Option-cases (try_find fp b)) [
              | inl n ↦ ground (arith, e, n, h)
              | inr (i, n) ↦ ap is_found n
            ])),
        λ h. elim h [
          | inl same ↦ absurd (ground (arith, e, same))
          | inr m ↦
              let found = ih.1 m in
              elim (Option-cases (try_find fp b)) [
                | inl n ↦ absurd (let no : false ≡ true = sym (ap is_found n) ∙ found in cc)
                | inr (i, n) ↦ ground (arith, e, n)
              ]
        ],
      )
    ]

-- `r` holds the fingerprint and what `b` holds
abbrev pub Takes : ℕ → Bucket → Bucket → Type 0
Takes fp b r = In fp r × (length r ≡ length b) × ((g : ℕ) → g ≢ 0 → In g b → In g r)

Takes-free : (fp x : ℕ) (b : Bucket) → x ≡ 0 → Takes fp (x ∷ b) (fp ∷ b)
Takes-free fp x b h =
    (inl refl, refl, λ g n m. elim m [ inl e ↦ absurd (n (sym e ∙ h)) | inr k ↦ inr k ])

Takes-behind : (fp x : ℕ) (b r : Bucket) → Takes fp b r → Takes fp (x ∷ b) (x ∷ r)
Takes-behind fp x b r (i, l, k) =
    (inr i, ap suc l, λ g n m. elim m [ inl e ↦ inl e | inr o ↦ inr (k g n o) ])

-- An insertion takes the place of nothing.
pub try_insert-Takes :
    (initial : Bool) (fp : ℕ) (b r : Bucket) → try_insert initial fp b ≡ some r → Takes fp b r
unfolding try_insert
try_insert-Takes initial fp [] r h = absurd (cc)
try_insert-Takes initial fp (x ∷ b) r h = elim (Bool-cases (initial && (x == fp))) [
  | inl e ↦
      let there : x ≡ fp = ground (arith, e) in
      let same : x ∷ b ≡ r = ground (arith, e, h) in
      subst (Takes fp (x ∷ b)) same (inl there, refl, λ g n m. m)
  | inr e ↦ elim (Bool-cases (x == 0)) [
    | inl z ↦
        let same : fp ∷ b ≡ r = ground (arith, e, z, h) in
        subst (Takes fp (x ∷ b)) same (Takes-free fp x b ((==_iff x 0).0 z))
    | inr z ↦ elim (Option-cases (try_insert initial fp b)) [
      | inl n ↦ absurd (ground (arith, e, z, n, h))
      | inr (q, n) ↦
          let same : x ∷ q ≡ r = ground (arith, e, z, n, h) in
          subst (Takes fp (x ∷ b)) same (Takes-behind fp x b q (try_insert-Takes initial fp b q n))
    ]
  ]
]

pub set-In : (fp : ℕ) (b : Bucket) (slot : ℕ) → slot < length b → In fp (set b slot fp)
set-In fp [] slot h = absurd (omega (arith, h))
set-In fp (x ∷ b) zero h = inl refl
set-In fp (x ∷ b) (suc slot) h = inr (set-In fp b slot (omega (arith, h)))

-- a write loses nothing but what it overwrites
pub In-set :
    (g fp : ℕ) (b : Bucket) (slot : ℕ) → In g b → In g (set b slot fp) ⊎ (get_or b slot 0 ≡ g)
In-set g fp [] slot h = absurd h
In-set g fp (x ∷ b) zero (inl e) = inr e
In-set g fp (x ∷ b) zero (inr m) = inl (inr m)
In-set g fp (x ∷ b) (suc slot) (inl e) = inl (inl e)
In-set g fp (x ∷ b) (suc slot) (inr m) = elim (In-set g fp b slot m) [
  | inl k ↦ inl (inr k)
  | inr k ↦ inr k
]

-- so many buckets of so many slots
pub record IsTable (slots size : ℕ) (table : Table) : Type 0 where
  pub buckets : length table ≡ size
  pub full : All (λ b. length b ≡ slots) table

pub All-get :
    (slots : ℕ) (table : Table) (i : ℕ)
    → All (λ b. length b ≡ slots) table
    → i < length table
    → length (ix table i) ≡ slots
All-get slots [] i a h = absurd (omega (arith, h))
All-get slots (b ∷ table) zero a h = a.0
All-get slots (b ∷ table) (suc i) a h = All-get slots table i a.1 (omega (arith, h))

All-set :
    (slots : ℕ) (table : Table) (i : ℕ) (b : Bucket)
    → All (λ b. length b ≡ slots) table
    → length b ≡ slots
    → All (λ b. length b ≡ slots) (set table i b)
All-set slots [] i b a h = tt
All-set slots (c ∷ table) zero b a h = (h, a.1)
All-set slots (c ∷ table) (suc i) b a h = (a.0, All-set slots table i b a.1 h)

pub set-IsTable :
    (slots size : ℕ) (table : Table) (i : ℕ) (b : Bucket)
    → IsTable slots size table
    → length b ≡ slots
    → IsTable slots size (set table i b)
set-IsTable slots size table i b t h = record {
  buckets = length-set table i b ∙ t.buckets;
  full = All-set slots table i b t.full h;
}

-- A bucket is replaced by one that holds the same fingerprint.
pub ix-set :
    (table : Table) (i j : ℕ) (b : Bucket) (g : ℕ)
    → i < length table
    → In g (ix table j)
    → (i ≡ j → In g b)
    → In g (ix (set table i b) j)
ix-set table i j b g h m f = elim (Bool-cases (i == j)) [
  | inl d ↦
      let e = (==_iff i j).0 d in
      subst (λ t. In g (ix (set table i b) t)) e
        (subst (In g) (sym (get_or-set_self table i b [] h)) (f e))
  | inr d ↦
      let n : i ≢ j = λ e. let no : true ≡ false = sym ((==_iff i j).1 e) ∙ d in absurd (cc) in
      subst (In g) (sym (get_or-set_ne table i j b [] n)) m
]
