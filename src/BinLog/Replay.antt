-- ===== src/BinLog/Replay.antt =====
-- hm4/binlogreplay.h into a vector list.
use hm.Prelude.{
  ℕ, ◌%◌, ◌^◌, ◌≤◌, ◌<◌, List, [], ◌∷◌, true, false, Option, some, ◌≡◌, refl, ◌∙◌, arith, All, ap,
  if◌then◌else◌,
}
use hm.Pair.{Pair, is_key_valid, is_key_empty}
use hm.Pair.Factory.{clone, get_key, get_created, factory_bytes, IsUsable}
use hm.IList.{InsertResult, result_skip_inserted}
use hm.Arena.{xallocate}
use hm.VectorList
use hm.VectorList.{VectorList}
use hm.VectorList.Contents.{IsValid, insert_f-Wrote, insert_f-unchanged}
use hm.VectorList.Insert.{outcome, vector_outcome-true, insert_f-outcome}
use hm.MemList.Vector.{vector_list}
use hm.BinLog.{replay}

-- A pair that was made after `old`, with the same key and at a time with a part of a second.
pub record IsLater (old p : Pair) : Type 0 where
  pub usable : IsUsable (clone p)
  pub keyed : p.key ≡ old.key
  pub later : old.created < p.created
  pub fraction : 0 < p.created % 2 ^ 32
  pub microseconds : p.created % 2 ^ 32 < 1000000

skip_outcome :
    (now : ℕ) (old p : Pair) (room : Option ℕ)
    → IsLater old p
    → 2 ^ 52 ≤ old.created
    → outcome now (clone p) (some old) room ≡ result_skip_inserted
unfolding outcome get_created
skip_outcome now old p room h t = ground (arith, h.fraction, h.microseconds, t)

-- a valid key is not the empty one
not_empty : (p : Pair) → is_key_valid p.key ≡ true → is_key_empty p ≡ false
unfolding is_key_empty
not_empty p h = ground (arith, h)

replay_step :
    (now : ℕ) (l : VectorList) (p : Pair) (ps : List Pair)
    → is_key_valid p.key ≡ true
    → replay vector_list now l (p ∷ ps)
      ≡ replay vector_list now (VectorList.insert_f true now l (clone p)).0 ps
unfolding replay
replay_step now l p ps h =
    ap
      (λ b.
        replay vector_list now (if b then l else (VectorList.insert_f true now l (clone p)).0) ps)
      (not_empty p h)

module _ (now : ℕ) (old : Pair) (dated : 2 ^ 52 ≤ old.created) where
  module _ (l : VectorList) (v : IsValid l) (there : VectorList.get_pair l old.key ≡ some old) where
    insert_later :
        (p : Pair)
        → IsLater old p
        → (VectorList.insert_f true now l (clone p)).1 ≡ result_skip_inserted
    unfolding get_key
    insert_later p h =
        let found : VectorList.get_pair l p.key ≡ some old =
          ap (VectorList.get_pair l) h.keyed ∙ there in
        insert_f-outcome true now l (clone p) v h.usable
        ∙ vector_outcome-true now (clone p) (VectorList.get_pair l p.key)
            (xallocate l.arena (factory_bytes (clone p))).0
        ∙ rw found (skip_outcome now old p (xallocate l.arena (factory_bytes (clone p))).0 h dated)

    vec-insert_later :
        (p : Pair) → IsLater old p → (VectorList.insert_f true now l (clone p)).0.vec ≡ l.vec
    vec-insert_later p h =
        insert_f-unchanged true now l (clone p) v h.usable
          (ap (λ (r : InsertResult). r.pair) (insert_later p h))

  get_pair-vec :
      (l k : VectorList)
      → l.vec ≡ k.vec
      → VectorList.get_pair l old.key ≡ VectorList.get_pair k old.key
  unfolding VectorList.get_pair
  get_pair-vec l k e = rw e refl

  -- A replay loses updates. Where a valid list holds a pair that was made after February 1970, the
  -- replay of any number of later pairs with that key, each made at a time with a part of a second,
  -- leaves the vector as it was, so that a read of the key still returns the first pair.
  pub replay-loses :
      (l : VectorList) (ps : List Pair)
      → IsValid l
      → VectorList.get_pair l old.key ≡ some old
      → All (IsLater old) ps
      → ((replay vector_list now l ps).vec ≡ l.vec)
        × (VectorList.get_pair (replay vector_list now l ps) old.key ≡ some old)
  replay-loses l [] v there h = unfold replay in (refl, there)
  replay-loses l (p ∷ ps) v there h =
      let next = (VectorList.insert_f true now l (clone p)).0 in
      let same = vec-insert_later l v there p h.0 in
      let (e, g) =
        replay-loses next ps (insert_f-Wrote true now l (clone p) v h.0.usable).valid
          (get_pair-vec next l same ∙ there) h.1 in
      rw (replay_step now l p ps h.0.usable.0) (e ∙ same, g)
