-- ===== src/Disk/Search.antt =====
-- The binary search of hm4/disk/disklist.cc in a range of a table, with its comparator that skips the
-- bytes known to be common.
use hm.Prelude.{
  ℕ, zero, suc, ◌+◌, ◌-◌, ◌/◌, ◌≤◌, ◌<◌, List, [], ◌∷◌, true, false, Ordering, none, some, length,
  drop, get_elem?, min, ltb, if◌then◌else◌, ◌≡◌, ◌≢◌, refl, arith, ap, ◌∙◌,
}
use hm.Bytes.{Bytes}
use hm.Pair.{Pair}
use hm.Lcp.{cmp_lcp_from, cmp_lcp}
use hm.BinarySearch.{SearchResult, minimum_distance}

-- Pair::cmpLCP
unfoldable pub pair_cmp_lcp : Pair → Bytes → ℕ → Ordering × ℕ
pair_cmp_lcp p [] start = (Ordering.lt, 0)
pair_cmp_lcp p (c ∷ key) start = cmp_lcp_from p.key (c ∷ key) start

-- PairLCPCompare: the prefixes that the key has in common with the bounds of the search
pub record PairLcpCompare : Type 0 where
  pub prefix_l : ℕ
  pub prefix_r : ℕ

-- operator()
unfoldable pub lcp_compare : PairLcpCompare → Pair → Bytes → Ordering × PairLcpCompare
unfolding pair_cmp_lcp
lcp_compare s p key =
    let pr = min s.prefix_l s.prefix_r in
    let (comp, pref) = pair_cmp_lcp p key pr in
    (
      comp,
      record {
        prefix_l = elim comp [ Ordering.lt ↦ s.prefix_l | _ ↦ pr + pref ];
        prefix_r = elim comp [ Ordering.gt ↦ s.prefix_r | _ ↦ pr + pref ];
      },
    )

cmp_lcp-nil : (b : Bytes) → cmp_lcp [] b ≡ (Ordering.eq, 0)
unfolding cmp_lcp
cmp_lcp-nil b = ground arith

drop-length : (a : Bytes) → drop (length a) a ≡ []
drop-length [] = refl
drop-length (x ∷ a) = drop-length a

-- where the pair's key ends at the offset, nothing is compared
pair_cmp_lcp-short :
    (p : Pair) (key : Bytes)
    → length p.key < length key
    → pair_cmp_lcp p key (length p.key) ≡ (Ordering.eq, 0)
unfolding pair_cmp_lcp cmp_lcp_from
pair_cmp_lcp-short p [] h = absurd (omega (arith, h))
pair_cmp_lcp-short p (c ∷ key) h =
    ap (λ a. cmp_lcp a (drop (length p.key) (c ∷ key))) (drop-length p.key)
    ∙ cmp_lcp-nil (drop (length p.key) (c ∷ key))

module _ (ps : List Pair) (key : Bytes) where
  -- linearSearch with that comparator, over `count` pairs from `first` on
  unfoldable pub linear_search_lcp : PairLcpCompare → ℕ → ℕ → SearchResult
  unfolding lcp_compare
  linear_search_lcp s first zero = record { found = false; it = first }
  linear_search_lcp s first (suc count) = elim (get_elem? ps first) [
    | none ↦ record { found = false; it = first }
    | some p ↦
        let (comp, s') = lcp_compare s p key in
        elim comp [
          | Ordering.lt ↦ linear_search_lcp s' (first + 1) count
          | Ordering.eq ↦ record { found = true; it = first }
          | Ordering.gt ↦ record { found = false; it = first }
        ]
  ]

  -- binarySearch with that comparator; the fuel is the width of the range
  unfoldable pub search_loop_lcp : ℕ → PairLcpCompare → ℕ → ℕ → SearchResult
  unfolding linear_search_lcp lcp_compare
  search_loop_lcp zero s start end = linear_search_lcp s start (end - start)
  search_loop_lcp (suc fuel) s start end =
      let mid = start + (end - start) / 2 in
      if ltb (start + minimum_distance) end
      then elim (get_elem? ps mid) [
        | none ↦ record { found = false; it = mid }
        | some p ↦
            let (comp, s') = lcp_compare s p key in
            let right = search_loop_lcp fuel s' (mid + 1) end in
            let left = search_loop_lcp fuel s' start mid in
            elim comp [
              | Ordering.lt ↦ right
              | Ordering.gt ↦ left
              | Ordering.eq ↦ record { found = true; it = mid }
            ]
      ]
      else linear_search_lcp s start (end - start)

  -- searchBinary<start> in the range [first, last)
  unfoldable pub search_binary : ℕ → ℕ → ℕ → SearchResult
  unfolding search_loop_lcp
  search_binary start first last =
      search_loop_lcp (last - first) (record { prefix_l = start; prefix_r = start }) first last

  short_compare :
      (p : Pair) (n : ℕ)
      → n ≡ length p.key
      → length p.key < length key
      → (lcp_compare (record { prefix_l = n; prefix_r = n }) p key).0 ≡ Ordering.eq
  unfolding lcp_compare
  short_compare p n e h =
      let z : min n n ≡ length p.key = omega (arith, e) in
      ap (λ i. (pair_cmp_lcp p key i).0) z ∙ ap (λ r. r.0) (pair_cmp_lcp-short p key h)

  linear_search_lcp-found :
      (s : PairLcpCompare) (p : Pair) (first count : ℕ)
      → get_elem? ps first ≡ some p
      → (lcp_compare s p key).0 ≡ Ordering.eq
      → linear_search_lcp s first (suc count) ≡ record { found = true; it = first }
  unfolding linear_search_lcp
  linear_search_lcp-found s p first count g c = rw (linear_search_lcp, g, c)

  -- a narrow range is searched from its beginning
  search_loop_lcp-narrow :
      (fuel : ℕ) (s : PairLcpCompare) (first last : ℕ)
      → last ≤ first + 5
      → search_loop_lcp fuel s first last ≡ linear_search_lcp s first (last - first)
  unfolding search_loop_lcp
  search_loop_lcp-narrow zero s first last w = refl
  search_loop_lcp-narrow (suc fuel) s first last w = ground (arith, w)

  -- The search takes a pair for the one looked for whose key ends where the comparison starts: in a
  -- range of at most five pairs, the first of which has a key of `start` bytes, every longer key is
  -- found at the first pair, although that pair has another key.
  pub search_binary-short :
      (p : Pair) (first last : ℕ)
      → get_elem? ps first ≡ some p
      → first < last
      → last ≤ first + 5
      → length p.key < length key
      → (search_binary (length p.key) first last ≡ record { found = true; it = first })
        × (p.key ≢ key)
  unfolding search_binary
  search_binary-short p first last g l w h =
      let n = length p.key in
      let s : PairLcpCompare = record { prefix_l = n; prefix_r = n } in
      let count : last - first ≡ suc (last - first - 1) = omega (arith, l) in
      (
        search_loop_lcp-narrow (last - first) s first last w
            ∙ ap (linear_search_lcp s first) count
            ∙ linear_search_lcp-found s p first (last - first - 1) g (short_compare p n refl h),
        λ e. omega (arith, h, ap length e),
      )
