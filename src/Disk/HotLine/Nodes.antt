-- ===== src/Disk/HotLine/Nodes.antt =====
-- Where the nodes of a hot line point, and what its binary search finds in it.
use hm.Prelude.{
  ℕ, suc, ◌+◌, ◌≤◌, ◌<◌, List, [], ◌∷◌, Bool, true, false, Ordering, none, some, length, get_elem?,
  ltb, leb, ◌==◌, if◌then◌else◌, All, ◌≡◌, refl, sym, ap, ◌∙◌, arith, Ordering-cases, is_lt, is_eq,
  is_gt, compare, Bool-cases, inl, inr, subst,
}
use hm.Bytes.{Bytes, compare_bytes}
use hm.Bytes.Order.{compare_swap}
use hm.Pair.{Pair}
use hm.Pair.HPair.{hkey_of, hkey_of-lt, IsAscii, IsAsciiKey}
use hm.VectorList.Sorted.{IsSorted, Above}
use hm.BinarySearch.{SearchResult}
use hm.Disk.HotLine.{LineNode, line_from}

-- the number of pairs at the beginning with a test
unfoldable pub leading : (Pair → Bool) → List Pair → ℕ
leading t [] = 0
leading t (p ∷ ps) = if t p then suc (leading t ps) else 0

-- the pairs with smaller numbers, and those with numbers that are not larger
abbrev pub before : ℕ → List Pair → ℕ
before h = leading (λ p. ltb (hkey_of p.key) h)

abbrev pub up_to : ℕ → List Pair → ℕ
up_to h = leading (λ p. leb (hkey_of p.key) h)

-- the numbers of the pairs ascend from `h` on
abbrev pub Climbs : ℕ → List Pair → Type 0
Climbs h [] = Unit
Climbs h (p ∷ ps) = (h ≤ hkey_of p.key) × Climbs (hkey_of p.key) ps

pub hkey_of-le :
    (a b : Bytes) → IsAscii a → IsAscii b → compare_bytes a b ≡ Ordering.lt → hkey_of a ≤ hkey_of b
hkey_of-le a b h k c = ground (arith, hkey_of-lt b a k h, compare_swap a b)

pub Climbs-Above :
    (a : Bytes) (ps : List Pair)
    → IsAscii a
    → Above a ps
    → IsSorted ps
    → All (λ p. IsAsciiKey p.key) ps
    → Climbs (hkey_of a) ps
Climbs-Above a [] h k s as_ = tt
Climbs-Above a (p ∷ ps) h k s as_ =
    (hkey_of-le a p.key h as_.0.1 k.0, Climbs-Above p.key ps as_.0.1 s.0 s.1 as_.1)

-- one pass over the nodes
unfoldable pub scan_nodes : List LineNode → ℕ → SearchResult
scan_nodes [] h = record { found = false; it = 0 }
scan_nodes (x ∷ xs) h =
    let r = scan_nodes xs h in
    elim (compare x.key h) [
      | Ordering.lt ↦ record { found = r.found; it = suc r.it }
      | Ordering.eq ↦ record { found = true; it = 0 }
      | Ordering.gt ↦ record { found = false; it = 0 }
    ]

-- where the next node points, or the end
abbrev pub next_pos : List LineNode → ℕ → ℕ → ℕ
next_pos nodes i end = elim (get_elem? nodes i) [ none ↦ end | some node ↦ node.pos ]

-- a node stands before the pairs of its number, or before larger ones
pub next_pos-line_from :
    (ps : List Pair) (h pos end : ℕ)
    → Climbs h ps
    → end ≡ pos + length ps
    → next_pos (line_from h pos ps) 0 end ≡ pos + up_to h ps
unfolding line_from leading
next_pos-line_from [] h pos end c e = omega (arith, e)
next_pos-line_from (p ∷ ps) h pos end c e = elim (Bool-cases (h == hkey_of p.key)) [
  | inl s ↦
      let same : hkey_of p.key ≡ h = ground arith in
      let next =
        next_pos-line_from ps h (pos + 1) end (subst (λ n. Climbs n ps) same c.1)
          (omega (arith, e)) in
      rw (s, line_from) (next ∙ ground (arith, same))
  | inr s ↦ rw (s, line_from) (ground (arith, c.0, s))
]

-- What a pass over the nodes of a line finds of the pairs, which begin at `base`.
pub data Points (ns : List LineNode) (ps : List Pair) (h base : ℕ) (r : SearchResult) : Type 0 where
  behind :
      get_elem? ns r.it ≡ none → r.found ≡ false → before h ps ≡ length ps → Points ns ps h base r
  at :
      (node : LineNode) (p : Pair)
      → get_elem? ns r.it ≡ some node
      → get_elem? ps (before h ps) ≡ some p
      → node.pos ≡ base + before h ps
      → r.found ≡ (hkey_of p.key == h)
      → (r.found ≡ true → next_pos ns (r.it + 1) (base + length ps) ≡ base + up_to h ps)
      → Points ns ps h base r

-- a pair with a smaller number in front, without a node of its own or with one
Points-same :
    (ns : List LineNode) (p : Pair) (ps : List Pair) (h base : ℕ) (r : SearchResult)
    → hkey_of p.key < h
    → Points ns ps h (base + 1) r
    → Points ns (p ∷ ps) h base r
unfolding leading
Points-same ns p ps h base r l (behind a b c) = behind a b (ground (arith, l, c))
Points-same ns p ps h base r l (at node q a b c d e) =
    let n : before h (p ∷ ps) ≡ suc (before h ps) = ground (arith, l) in
    let m : up_to h (p ∷ ps) ≡ suc (up_to h ps) = ground (arith, l) in
    let z : base + suc (length ps) ≡ base + 1 + length ps = omega arith in
    at node q a (ap (get_elem? (p ∷ ps)) n ∙ b) (omega (arith, c, n)) d
      (λ f. ap (next_pos ns (r.it + 1)) z ∙ e f ∙ omega (arith, m))

Points-more :
    (x : LineNode) (ns : List LineNode) (ps : List Pair) (h base : ℕ) (r : SearchResult)
    → Points ns ps h base r
    → Points (x ∷ ns) ps h base (record { found = r.found; it = suc r.it })
Points-more x ns ps h base r (behind a b c) = behind a b c
Points-more x ns ps h base r (at node q a b c d e) =
    let z : suc r.it + 1 ≡ suc (r.it + 1) = omega arith in
    at node q a b c d (λ f. ap (λ i. next_pos (x ∷ ns) i (base + length ps)) z ∙ e f)

-- the node of the first pair, which has the number looked for or a larger one
Points-first :
    (p : Pair) (ps : List Pair) (h base : ℕ)
    → Climbs (hkey_of p.key) ps
    → hkey_of p.key ≡ h
    → Points
        (record { key = hkey_of p.key; pos = base } ∷ line_from (hkey_of p.key) (base + 1) ps)
        (p ∷ ps)
        h
        base
        (record { found = true; it = 0 })
unfolding leading
Points-first p ps h base c e =
    let n : before h (p ∷ ps) ≡ 0 = ground (arith, e) in
    let m : up_to h (p ∷ ps) ≡ suc (up_to h ps) = ground (arith, e) in
    let one : ◌≡◌ {A = ℕ} (0 + 1) 1 = refl in
    at (record { key = hkey_of p.key; pos = base }) p refl (ap (get_elem? (p ∷ ps)) n)
      (omega (arith, n)) (ground (arith, e))
      (λ f.
        next_pos-line_from ps (hkey_of p.key) (base + 1) (base + suc (length ps)) c (omega arith)
        ∙ ap (λ i. base + 1 + up_to i ps) e
        ∙ omega (arith, m))

Points-larger :
    (p : Pair) (ps : List Pair) (h base : ℕ) (xs : List LineNode)
    → h < hkey_of p.key
    → Points
        (record { key = hkey_of p.key; pos = base } ∷ xs)
        (p ∷ ps)
        h
        base
        (record { found = false; it = 0 })
unfolding leading
Points-larger p ps h base xs l =
    let n : before h (p ∷ ps) ≡ 0 = ground (arith, l) in
    at (record { key = hkey_of p.key; pos = base }) p refl (ap (get_elem? (p ∷ ps)) n)
      (omega (arith, n)) (ground (arith, l)) (λ f. absurd (cc))

-- For nodes of pairs whose numbers ascend from a smaller one on, the pass finds the pairs with
-- the number looked for.
pub line_from-Points :
    (ps : List Pair) (last base h : ℕ)
    → Climbs last ps
    → last < h
    → Points (line_from last base ps) ps h base (scan_nodes (line_from last base ps) h)
unfolding line_from scan_nodes leading
line_from-Points [] last base h c l = behind refl refl refl
line_from-Points (p ∷ ps) last base h c l = elim (Bool-cases (last == hkey_of p.key)) [
  | inl s ↦
      let same : last ≡ hkey_of p.key = ground arith in
      rw (s, line_from)
        (Points-same (line_from last (base + 1) ps) p ps h base
          (scan_nodes (line_from last (base + 1) ps) h) (omega (arith, same))
          (line_from-Points ps last (base + 1) h (subst (λ n. Climbs n ps) (sym same) c.1) l))
  | inr s ↦
      let x : LineNode = record { key = hkey_of p.key; pos = base } in
      let xs = line_from (hkey_of p.key) (base + 1) ps in
      elim (Ordering-cases (compare (hkey_of p.key) h)) [
        | is_lt o ↦
            let small : hkey_of p.key < h = ground arith in
            rw (s, o, line_from, scan_nodes)
              (Points-more x xs (p ∷ ps) h base (scan_nodes xs h) (
                Points-same xs p ps h base (scan_nodes xs h) small
                  (line_from-Points ps (hkey_of p.key) (base + 1) h c.1 small)))
        | is_eq o ↦ rw (s, o, line_from, scan_nodes) (Points-first p ps h base c.1 (ground arith))
        | is_gt o ↦ rw (s, o, line_from, scan_nodes) (Points-larger p ps h base xs (ground arith))
      ]
]
