-- ===== src/VectorList/Insert.antt =====
-- insertF of hm4/vectorlist.cc as its callers see it, through getPair___ and the result.
use hm.Prelude.{
  ℕ, Bool, true, false, Option, none, some, get_elem?, leb, ◌≡◌, refl, sym, ◌∙◌, arith,
  if◌then◌else◌, Bool-cases, inl, inr,
}
use hm.Bytes.{Bytes}
use hm.Pair.{Pair, pair_bytes, is_key_valid, prepare_create_time_simulate}
use hm.Pair.Factory.{
  Factory, get_key, get_created, factory_bytes, create, create_hint, IsUsable, get_key-IsUsable,
}
use hm.IList.{
  InsertResult, result_inserted, result_updated_in_place, result_replaced, result_skip_inserted,
  result_error_no_memory, result_error, error_no_memory,
}
use hm.Arena.{Arena, xallocate, size-xallocate}
use hm.VectorList.{VectorList, search, get_pair, insert_f, overwrite, replace, add}
use hm.VectorList.Sorted.{same_key, scan, scan-lookup}
use hm.VectorList.Search.{get_pair-lookup}
use hm.VectorList.Contents.{
  IsValid, after, scan-found, insert_f-Wrote, insert_f_found, insert_f_missing,
}

-- What a read of key `j` finds once a pair with this key was written, if one was.
abbrev pub seen : Bytes → Option Pair → Bytes → Option Pair → Option Pair
seen key none j before = before
seen key (some p) j before = if same_key key j then some p else before

-- The result of insertF, from what the key's pair was and from whether the arena has room.
unfoldable pub outcome : ℕ → Factory → Option Pair → Option ℕ → InsertResult
outcome now f none none = result_error_no_memory
outcome now f none (some p) = result_inserted (create now f)
outcome now f (some old) room =
    if leb old.created (prepare_create_time_simulate (get_created f))
    then (if leb (factory_bytes f) (pair_bytes old)
        then result_updated_in_place (create_hint now f old)
        else elim room [ none ↦ result_error_no_memory | some p ↦ result_replaced (create now f) ])
    else result_skip_inserted

-- an insertion that met no memory reports no pair
pub outcome-no_memory :
    (now : ℕ) (f : Factory) (old : Option Pair) (room : Option ℕ)
    → (outcome now f old room).status ≡ error_no_memory
    → (outcome now f old room).pair ≡ none
unfolding outcome
outcome-no_memory now f none none h = refl
outcome-no_memory now f none (some p) h = absurd (cc)
outcome-no_memory now f (some old) none h = ground arith
outcome-no_memory now f (some old) (some p) h = ground arith

-- The result of insertF of the vector list: where a key is new and the arena has room, the vector
-- may yet be unable to grow.
unfoldable pub vector_outcome : Bool → ℕ → Factory → Option Pair → Option ℕ → InsertResult
unfolding outcome
vector_outcome false now f none (some p) = result_error
vector_outcome grows now f old room = outcome now f old room

size-add :
    (grows : Bool) (now : ℕ) (l : VectorList) (f : Factory) (it : ℕ) (a : Option ℕ × Arena)
    → (add grows now l f it a).0.arena.size ≡ a.1.size
unfolding add
size-add grows now l f it (none, arena) = refl
size-add false now l f it (some p, arena) = refl
size-add true now l f it (some p, arena) = refl

size-replace :
    (now : ℕ) (l : VectorList) (f : Factory) (it : ℕ) (old : Pair) (a : Option ℕ × Arena)
    → (replace now l f it old a).0.arena.size ≡ a.1.size
unfolding replace
size-replace now l f it old (none, arena) = refl
size-replace now l f it old (some p, arena) = refl

size-overwrite :
    (now : ℕ) (l : VectorList) (f : Factory) (it : ℕ) (old : Option Pair)
    → (overwrite now l f it old).0.arena.size ≡ l.arena.size
unfolding overwrite
size-overwrite now l f it none = refl
size-overwrite now l f it (some old) = ground (
  arith,
  size-replace now l f it old (xallocate l.arena (factory_bytes f)),
  size-xallocate l.arena (factory_bytes f),
)

-- The arena keeps its size.
pub size-insert_f :
    (grows : Bool) (now : ℕ) (l : VectorList) (f : Factory)
    → (insert_f grows now l f).0.arena.size ≡ l.arena.size
unfolding insert_f
size-insert_f grows now l f =
    let r = search l.vec (get_key f) in
    ground (
      arith,
      size-overwrite now l f r.it (get_elem? l.vec r.it),
      size-add grows now l f r.it (xallocate l.arena (factory_bytes f)),
      size-xallocate l.arena (factory_bytes f),
    )

pub add-outcome :
    (grows : Bool) (now : ℕ) (l : VectorList) (f : Factory) (it : ℕ) (a : Option ℕ × Arena)
    → (add grows now l f it a).1 ≡ vector_outcome grows now f none a.0
unfolding add outcome vector_outcome
add-outcome false now l f it (none, arena) = refl
add-outcome true now l f it (none, arena) = refl
add-outcome false now l f it (some p, arena) = refl
add-outcome true now l f it (some p, arena) = refl

pub vector_outcome-true :
    (now : ℕ) (f : Factory) (old : Option Pair) (room : Option ℕ)
    → vector_outcome true now f old room ≡ outcome now f old room
unfolding vector_outcome
vector_outcome-true now f old room = refl

vector_outcome-some :
    (grows : Bool) (now : ℕ) (f : Factory) (old : Pair) (room : Option ℕ)
    → vector_outcome grows now f (some old) room ≡ outcome now f (some old) room
unfolding vector_outcome
vector_outcome-some false now f old room = refl
vector_outcome-some true now f old room = refl

replace-outcome :
    (now : ℕ) (l : VectorList) (f : Factory) (it : ℕ) (old : Pair) (a : Option ℕ × Arena)
    → (replace now l f it old a).1
      ≡ elim a.0 [ none ↦ result_error_no_memory | some p ↦ result_replaced (create now f) ]
unfolding replace
replace-outcome now l f it old (none, arena) = refl
replace-outcome now l f it old (some p, arena) = refl

pub overwrite-outcome :
    (now : ℕ) (l : VectorList) (f : Factory) (it : ℕ) (old : Pair)
    → (overwrite now l f it (some old)).1
      ≡ outcome now f (some old) (xallocate l.arena (factory_bytes f)).0
unfolding overwrite outcome
overwrite-outcome now l f it old =
    ground (arith, replace-outcome now l f it old (xallocate l.arena (factory_bytes f)))

module _ (grows : Bool) (now : ℕ) (l : VectorList) (f : Factory) (v : IsValid l)
    (u : IsUsable f) where
  pub after-seen :
      (r : Option Pair) (j : Bytes)
      → is_key_valid j ≡ true
      → after (get_key f) r l.vec j ≡ seen (get_key f) r j (get_pair l j)
  after-seen none j h = sym (get_pair-lookup j h l v.sorted)
  after-seen (some p) j h = rw (get_pair-lookup j h l v.sorted)

  -- After insertF of a usable factory into a valid list, the list is valid; a read of any valid key
  -- returns the pair that insertF reported, if it reported one and the key is the factory's, and
  -- otherwise what it returned before; and the pair reported has the factory's key.
  pub insert_f_lem :
      (j : Bytes)
      → is_key_valid j ≡ true
      → let (l', r) = insert_f grows now l f in
        IsValid l'
        × (get_pair l' j ≡ seen (get_key f) r.pair j (get_pair l j))
        × ((p : Pair) → r.pair ≡ some p → p.key ≡ get_key f)
  insert_f_lem j h =
      let w = insert_f-Wrote grows now l f v u in
      (
        w.valid,
        get_pair-lookup j h (insert_f grows now l f).0 w.valid.sorted
            ∙ w.contents j
            ∙ after-seen (insert_f grows now l f).1.pair j h,
        w.keyed,
      )

  found_before : get_pair l (get_key f) ≡ (
      if (scan l.vec (get_key f)).found then get_elem? l.vec (scan l.vec (get_key f)).it else none)
  found_before =
      get_pair-lookup (get_key f) (get_key-IsUsable f u) l v.sorted
      ∙ scan-lookup l.vec (get_key f) v.sorted

  -- The result of insertF of a usable factory into a valid list, on every branch: a new key is
  -- inserted; a key whose pair is newer is skipped; otherwise the pair is updated in place where
  -- it is large enough, and replaced where it is not; where a new pair is needed and the
  -- arena has no room, the result is ERROR_NO_MEMORY; and where a new key cannot be inserted since the vector has
  -- no memory to grow, it is ERROR.
  pub insert_f-outcome :
      (insert_f grows now l f).1
      ≡ vector_outcome grows now f (get_pair l (get_key f)) (xallocate l.arena (factory_bytes f)).0
  insert_f-outcome = elim (Bool-cases (scan l.vec (get_key f)).found) [
    | inr e ↦
        rw (insert_f_missing grows now l f v u e, found_before, e)
          (add-outcome grows now l f (scan l.vec (get_key f)).it
            (xallocate l.arena (factory_bytes f)))
    | inl e ↦
        let (old, g, k) = scan-found l.vec (get_key f) e in
        rw (insert_f_found grows now l f v u old e g, found_before, e, g)
          (overwrite-outcome now l f (scan l.vec (get_key f)).it old
            ∙ sym (vector_outcome-some grows now f old (xallocate l.arena (factory_bytes f)).0))
  ]
