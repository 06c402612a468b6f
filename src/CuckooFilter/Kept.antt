-- ===== src/CuckooFilter/Kept.antt =====
-- What include/cuckoofilter.h keeps when it inserts.
use hm.Prelude.{
  ℕ, zero, suc, ◌<◌, List, [], ◌∷◌, Bool, true, false, Option, none, some, ◌≡◌, ◌≢◌, refl, sym, ◌∙◌,
  ap, subst, arith, ◌⊎◌, inl, inr, ◌==◌, length, get_or, set, length-set, get_or-set_self,
  Bool-cases,
}
use hm.CuckooFilter.{
  Bucket, Table, RollBack, ix, put, try_insert, settle, hash_alt_index, rand, kick,
}
use hm.CuckooFilter.Bucket.{
  In, try_insert-Takes, set-In, In-set, IsTable, All-get, set-IsTable, ix-set,
}

put-In_self :
    (table : Table) (index slot fp : ℕ)
    → index < length table
    → slot < length (ix table index)
    → In fp (ix (put table index slot fp) index)
unfolding put
put-In_self table index slot fp h k =
    subst (In fp) (sym (get_or-set_self table index (set (ix table index) slot fp) [] h))
      (set-In fp (ix table index) slot k)

-- a write to a slot loses what was in it at most
pub put-In :
    (table : Table) (index slot fp g j : ℕ)
    → index < length table
    → In g (ix table j)
    → In g (ix (put table index slot fp) j) ⊎ ((j ≡ index) × (get_or (ix table index) slot 0 ≡ g))
unfolding put
put-In table index slot fp g j h m = elim (Bool-cases (index == j)) [
  | inl d ↦
      let e : index ≡ j = ground (arith, d) in
      elim (In-set g fp (ix table index) slot (subst (λ t. In g (ix table t)) (sym e) m)) [
        | inl k ↦ inl (ix-set table index j (set (ix table index) slot fp) g h m (λ e. k))
        | inr k ↦ inr (sym e, k)
      ]
  | inr d ↦ inl (
      ix-set table index j (set (ix table index) slot fp) g h m
        (λ e. absurd (ground (arith, d, e))))
]

put-IsTable :
    (slots size : ℕ) (table : Table) (index slot fp : ℕ)
    → IsTable slots size table
    → length (ix table index) ≡ slots
    → IsTable slots size (put table index slot fp)
unfolding put
put-IsTable slots size table index slot fp t full =
    set-IsTable slots size table index (set (ix table index) slot fp) t
      (length-set (ix table index) slot fp ∙ full)

module _ (fp_bytes slots size : ℕ) where
  -- the other bucket of the other bucket is the bucket
  abbrev pub IsPaired : Type 0
  IsPaired =
      (i fp : ℕ)
      → i < size
      → hash_alt_index fp_bytes slots size (hash_alt_index fp_bytes slots size i fp) fp ≡ i

  -- the fingerprint is in one of its buckets
  abbrev pub Held : Table → ℕ → ℕ → Type 0
  Held table g j = In g (ix table j) ⊎ In g (ix table (hash_alt_index fp_bytes slots size j g))

  -- it is, or it is the one to be put into the bucket `index`
  abbrev pub Waits : ℕ → ℕ → Table → ℕ → ℕ → Type 0
  Waits g j table fp index =
      Held table g j ⊎ ((g ≡ fp) × ((j ≡ index) ⊎ (hash_alt_index fp_bytes slots size j g ≡ index)))

  -- an insertion that reports true holds it
  abbrev pub Good : ℕ → ℕ → Table × Bool → Type 0
  Good g j r = r.1 ≡ true → IsTable slots size r.0 × Held r.0 g j

  pub settle-Good :
      (g j : ℕ) (table : Table) (index : ℕ) (o : Option Bucket) (more : Table × Bool)
      → ((b : Bucket) → o ≡ some b → Good g j (set table index b, true))
      → Good g j more
      → Good g j (settle table index o more)
  unfolding settle
  settle-Good g j table index (some b) more f m = f b refl
  settle-Good g j table index none more f m = m

  pub alt_below : (i fp : ℕ) → 0 < size → hash_alt_index fp_bytes slots size i fp < size
  unfolding hash_alt_index
  alt_below i fp h = omega (arith, h)

  pub taken :
      (initial : Bool) (g j : ℕ) (table : Table) (fp index : ℕ) (b : Bucket)
      → IsTable slots size table
      → index < size
      → g ≢ 0
      → Waits g j table fp index
      → try_insert initial fp (ix table index) ≡ some b
      → Good g j (set table index b, true)
  taken initial g j table fp index b t h n w e true_again =
      let (into, long, keeps) = try_insert-Takes initial fp (ix table index) b e in
      let inside : index < length table = omega (arith, t.buckets, h) in
      let keep : (k : ℕ) → In g (ix table k) → In g (ix (set table index b) k) = λ k m.
        ix-set table index k b g inside m
          (λ e. keeps g n (subst (λ t. In g (ix table t)) (sym e) m)) in
      let there : g ≡ fp → In g (ix (set table index b) index) = λ s.
        subst (λ t. In t (ix (set table index b) index)) (sym s)
          (subst (In fp) (sym (get_or-set_self table index b [] inside)) into) in
      (
        set-IsTable slots size table index b t (long ∙ All-get slots table index t.full inside),
        elim w [
          | inl x ↦ elim x [
            | inl m ↦ inl (keep j m)
            | inr m ↦ inr (keep (hash_alt_index fp_bytes slots size j g) m)
          ]
          | inr (s, x) ↦ elim x [
            | inl e ↦ inl (subst (λ t. In g (ix (set table index b) t)) (sym e) (there s))
            | inr e ↦ inr (subst (λ t. In g (ix (set table index b) t)) (sym e) (there s))
          ]
        ],
      )

  -- a kick puts one in and leaves another to be put
  kicked-Waits :
      (g j : ℕ) (table : Table) (fp index slot : ℕ)
      → IsPaired
      → IsTable slots size table
      → index < size
      → slot < slots
      → j < size
      → Waits g j table fp index
      → Waits g j
          (put table index slot fp)
          (get_or (ix table index) slot 0)
          (hash_alt_index fp_bytes slots size index (get_or (ix table index) slot 0))
  kicked-Waits g j table fp index slot pair t h k l w =
      let alt = hash_alt_index fp_bytes slots size in
      let inside : index < length table = omega (arith, t.buckets, h) in
      let there : g ≡ fp → In g (ix (put table index slot fp) index) = λ s.
        subst (λ t. In t (ix (put table index slot fp) index)) (sym s)
          (put-In_self table index slot fp inside
            (omega (arith, k, All-get slots table index t.full inside))) in
      elim w [
        | inl x ↦ elim x [
          | inl m ↦ elim (put-In table index slot fp g j inside m) [
            | inl o ↦ inl (inl o)
            | inr (e, o) ↦ inr (sym o, inr (ap (λ t. alt t g) e ∙ ap (alt index) (sym o)))
          ]
          | inr m ↦ elim (put-In table index slot fp g (alt j g) inside m) [
            | inl o ↦ inl (inr o)
            | inr (e, o) ↦
                inr (sym o, inl (sym (pair j g l) ∙ ap (λ t. alt t g) e ∙ ap (alt index) (sym o)))
          ]
        ]
        | inr (s, x) ↦ elim x [
          | inl e ↦ inl (inl (subst (λ t. In g (ix (put table index slot fp) t)) (sym e) (there s)))
          | inr e ↦ inl (inr (subst (λ t. In g (ix (put table index slot fp) t)) (sym e) (there s)))
        ]
      ]

  pub kick-Good :
      (g j left i : ℕ) (table : Table) (fp index : ℕ) (rollback : List RollBack)
      → IsPaired
      → 0 < slots
      → 0 < size
      → IsTable slots size table
      → index < size
      → j < size
      → g ≢ 0
      → Waits g j table fp index
      → Good g j (kick fp_bytes slots size left i table fp index rollback)
  unfolding kick rand
  kick-Good g j zero i table fp index rollback pair s z t h l n w = λ no. absurd (cc)
  kick-Good g j (suc left) i table fp index rollback pair s z t h l n w =
      let slot = rand fp_bytes slots size fp i in
      let small : slot < slots = omega (arith, s) in
      let old = get_or (ix table index) slot 0 in
      let kicked = put table index slot fp in
      let next = hash_alt_index fp_bytes slots size index old in
      let note : RollBack = record { index = index; fp = old; slot = slot } in
      let inside : index < length table = omega (arith, t.buckets, h) in
      let full = All-get slots table index t.full inside in
      let t' : IsTable slots size kicked = put-IsTable slots size table index slot fp t full in
      let w' = kicked-Waits g j table fp index slot pair t h small l w in
      let below = alt_below index old z in
      settle-Good g j kicked next (try_insert false old (ix kicked next))
        (kick fp_bytes slots size left (suc i) kicked old next (note ∷ rollback))
        (λ b e. taken false g j kicked old next b t' below n w' e)
        (kick-Good g j left (suc i) kicked old next (note ∷ rollback) pair s z t' below l n w')
