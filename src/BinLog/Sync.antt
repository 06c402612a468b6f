-- ===== src/BinLog/Sync.antt =====
-- hm4/binloglist.h: the log keeps up with the list.
use hm.Prelude.{
  ℕ, List, [], ◌∷◌, true, Option, none, some, ◌≡◌, ◌⊎◌, inl, inr, refl, sym, ◌∙◌, arith, All, ap,
  Bool-cases, Option-cases, if◌then◌else◌, subst,
}
use hm.Bytes.{Bytes}
use hm.Bytes.Order.{compare_eq}
use hm.Pair.{Pair, is_key_valid, create_full}
use hm.Pair.Factory.{Factory, get_key, IsUsable, stored_key_lem}
use hm.VectorList.Sorted.{lookup, same_key}
use hm.VectorList.Contents.{after}
use hm.MemList.{MemList}
use hm.BinLog.{
  BinLogList, make_pair_tombstone, append, append_pair, is_deleted, insert_f, erase, clear,
}

-- The last pair of a log with the given key.
unfoldable pub last_of : List Pair → Bytes → Option Pair
last_of [] key = none
last_of (p ∷ ps) key =
    let later = last_of ps key in
    elim later [ some q ↦ some q | none ↦ if same_key p.key key then some p else none ]

-- What a list holds for a key, and the last of the log for it: the same, or nothing and a pair
-- without a value.
abbrev pub Shows : Option Pair → Option Pair → Type 0
Shows o (some t) = (o ≡ some t) ⊎ ((o ≡ none) × (t.val ≡ []))
Shows o none = o ≡ none

last_of-append :
    (ps : List Pair) (p : Pair) (key : Bytes)
    → last_of (append ps p) key ≡ (if same_key p.key key then some p else last_of ps key)
unfolding last_of
last_of-append [] p key = ground arith
last_of-append (q ∷ ps) p key = ground (arith, last_of-append ps p key)

key-tombstone :
    (now : ℕ) (key : Bytes) → is_key_valid key ≡ true → (make_pair_tombstone now key).key ≡ key
unfolding make_pair_tombstone create_full
key-tombstone now key k = stored_key_lem key k

val-tombstone : (now : ℕ) (key : Bytes) → (make_pair_tombstone now key).val ≡ []
unfolding make_pair_tombstone create_full
val-tombstone now key = refl

same_key_eq : (a b : Bytes) → same_key a b ≡ true → a ≡ b
same_key_eq a b h = ground (arith, compare_eq a b)

-- the operations of the list that change it
pub data Command : Type 0 where
  insert : Factory → Command
  remove : Bytes → Command
  clear_all : Command

module _ {L : Type 0} (m : MemList L) (now : ℕ) where
  abbrev pub IsUsableCommand : Command → Type 0
  IsUsableCommand (insert f) = IsUsable f × m.Admits (get_key f)
  IsUsableCommand (remove key) = m.Admits key
  IsUsableCommand clear_all = Unit

  unfoldable pub step : BinLogList L → Command → BinLogList L
  step db (insert f) = (insert_f m now db f).0
  step db (remove key) = (erase m now db key).0
  step db clear_all = clear m db

  unfoldable pub run : BinLogList L → List Command → BinLogList L
  unfolding step
  run db [] = db
  run db (c ∷ cs) = run (step db c) cs

  pub record InSync (db : BinLogList L) : Type 0 where
    pub valid : m.IsValid db.list
    pub shows : (j : Bytes) → Shows (lookup (m.pairs db.list) j) (last_of db.log j)

  module _ (db : BinLogList L) (s : InSync db) where
    insert-Shows :
        (f : Factory) (j : Bytes) (r : Option Pair)
        → ((p : Pair) → r ≡ some p → p.key ≡ get_key f)
        → Shows (after (get_key f) r (m.pairs db.list) j) (last_of (append_pair db.log r) j)
    unfolding append_pair
    insert-Shows f j none k = s.shows j
    insert-Shows f j (some p) k =
        rw (last_of-append db.log p j, k p refl)
          (elim (Bool-cases (same_key (get_key f) j)) [
            | inl e ↦ rw e (inl refl)
            | inr e ↦ rw e (s.shows j)
          ])

    insert_f-InSync :
        (f : Factory) → IsUsable f → m.Admits (get_key f) → InSync (insert_f m now db f).0
    unfolding insert_f
    insert_f-InSync f u a = record {
      valid = m.insert_f-IsValid now db.list f s.valid u a;
      shows = λ j. rw (m.insert_f-after now db.list f j s.valid u a) (
          insert-Shows f j (m.insert_f now db.list f).1.pair
            (λ p e. m.insert_f-key now db.list f p s.valid u a e));
    }

    -- where the key was not there, nothing is logged
    missing-Shows :
        (key j : Bytes)
        → lookup (m.pairs db.list) key ≡ none
        → Shows (if same_key key j then none else lookup (m.pairs db.list) j) (last_of db.log j)
    missing-Shows key j h = elim (Bool-cases (same_key key j)) [
      | inl e ↦ rw e (
          subst (λ o. Shows o (last_of db.log j))
            (ap (lookup (m.pairs db.list)) (sym (same_key_eq key j e)) ∙ h) (s.shows j))
      | inr e ↦ rw e (s.shows j)
    ]

    -- where it was there, a tombstone is logged
    present-Shows :
        (key j : Bytes)
        → m.Admits key
        → Shows
            (if same_key key j then none else lookup (m.pairs db.list) j)
            (last_of (append db.log (make_pair_tombstone now key)) j)
    present-Shows key j k =
        rw
          (
            last_of-append db.log (make_pair_tombstone now key) j,
            key-tombstone now key (m.admits-valid key k),
          )
          (elim (Bool-cases (same_key key j)) [
            | inl e ↦ rw e (inr (refl, val-tombstone now key))
            | inr e ↦ rw e (s.shows j)
          ])

    erase-Shows :
        (key j : Bytes)
        → m.Admits key
        → Shows
            (if same_key key j then none else lookup (m.pairs db.list) j)
            (last_of (erase m now db key).0.log j)
    unfolding erase is_deleted append_pair
    erase-Shows key j k =
        let r = m.erase-result db.list key s.valid k in
        elim (Option-cases (lookup (m.pairs db.list) key)) [
          | inl h ↦ rw (r, h) (missing-Shows key j h)
          | inr (p, h) ↦ rw (r, h) (present-Shows key j k)
        ]

    erase-InSync : (key : Bytes) → m.Admits key → InSync (erase m now db key).0
    unfolding erase
    erase-InSync key k = record {
      valid = m.erase-IsValid db.list key s.valid k;
      shows = λ j. rw (m.erase-after db.list key j s.valid k) (erase-Shows key j k);
    }

    clear-InSync : InSync (clear m db)
    unfolding clear lookup last_of
    clear-InSync = record {
      valid = m.clear-IsValid db.list s.valid;
      shows = λ j. rw (m.clear-pairs db.list) refl;
    }

  step-InSync :
      (db : BinLogList L) (c : Command) → InSync db → IsUsableCommand c → InSync (step db c)
  unfolding step
  step-InSync db (insert f) s u = insert_f-InSync db s f u.0 u.1
  step-InSync db (remove key) s k = erase-InSync db s key k
  step-InSync db clear_all s u = clear-InSync db s

  -- The log keeps up with the list through every sequence of insertions of usable factories, erasures
  -- and clearings, of keys that the list admits: the list stays valid, and what it holds for a key is the last pair of
  -- the log with that key, where for a key that it does not hold, the log has no pair or ends in one
  -- without a value.
  pub run-InSync :
      (db : BinLogList L) (cs : List Command)
      → InSync db
      → All IsUsableCommand cs
      → InSync (run db cs)
  unfolding run
  run-InSync db [] s u = s
  run-InSync db (c ∷ cs) s u = run-InSync (step db c) cs (step-InSync db c s u.0) u.1
