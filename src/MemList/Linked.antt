-- ===== src/MemList/Linked.antt =====
-- hm4/linklist.cc has what is asked of a memory list, for ASCII keys.
use hm.Prelude.{sym, ap, ◌∙◌, [], ◌≡◌, refl, arith}
use hm.Pair.HPair.{IsAsciiKey}
use hm.Pair.Factory.{get_key}
use hm.IList.{InsertResult}
use hm.MemList.Vector.{outcome-IsMade}
use hm.Arena.{reset}
use hm.VectorList.Sorted.{total_bytes}
use hm.LinkList
use hm.LinkList.{LinkList, internal_node_size, clear}
use hm.LinkList.View.{pairs_of, stored-pairs_of}
use hm.LinkList.Agree.{IsValid, get_pair-scanned}
use hm.LinkList.Insert.{insert_f-Linked}
use hm.LinkList.Room.{size-insert_f}
use hm.LinkList.Contract.{room_for, outcome-insert_f, unchanged, fresh, erase-LinkErased}
use hm.MemList.{MemList}

pub clear-valid : (l : LinkList) → IsValid l → IsValid (clear l)
unfolding clear reset total_bytes
clear-valid l v = record {
  vec = record {
    sorted = tt;
    count = refl;
    bytes = refl;
    room = record { small = v.vec.room.small; whole = v.vec.room.whole; within = omega arith };
  };
  nodes = tt;
}

pub pairs-clear : (l : LinkList) → pairs_of (clear l).head ≡ []
unfolding clear
pairs-clear l = refl

pub arena-link_clear : (l : LinkList) → (clear l).arena ≡ reset l.arena
unfolding clear
arena-link_clear l = refl

abbrev pub link_list : MemList LinkList
link_list = record {
  Admits = IsAsciiKey;
  Stores = IsAsciiKey;
  stored = λ l v. stored-pairs_of l.head v.nodes;
  admits-valid = λ key k. k.0;
  IsValid = IsValid;
  pairs = λ l. pairs_of l.head;
  arena = λ l. l.arena;
  node_size = internal_node_size;
  get_pair = LinkList.get_pair;
  insert_f = LinkList.insert_f;
  erase = LinkList.erase;
  clear = LinkList.clear;
  sorted = λ l v. v.vec.sorted;
  arena_valid = λ l v. v.vec.room;
  node_small = omega arith;
  get_pair-lookup = λ l key v k. get_pair-scanned l key v k.0 k.1;
  insert_f-IsValid = λ now l f v u a.
      (let w = insert_f-Linked now l f v u a.1 in record { vec = w.wrote.valid; nodes = w.nodes });
  insert_f-after = λ now l f j v u a. (insert_f-Linked now l f v u a.1).wrote.contents j;
  insert_f-key = λ now l f p v u a. (insert_f-Linked now l f v u a.1).wrote.keyed p;
  insert_f-made = λ now l f p v u a e.
      outcome-IsMade now f (LinkList.get_pair l (get_key f))
        (room_for l.arena f (LinkList.get_pair l (get_key f))) p
        (sym (ap (λ (r : InsertResult). r.pair) (outcome-insert_f now l f v u a.1)) ∙ e);
  insert_f-size = size-insert_f;
  insert_f-unchanged = λ now l f v u a. unchanged now l f v u a.1;
  insert_f-fresh = λ now l f v u a. fresh now l f v u a.1;
  erase-IsValid = λ l key v k. (erase-LinkErased l key v k.0 k.1).valid;
  erase-after = λ l key j v k. (erase-LinkErased l key v k.0 k.1).contents j;
  erase-result = λ l key v k. (erase-LinkErased l key v k.0 k.1).result;
  clear-IsValid = clear-valid;
  clear-pairs = pairs-clear;
  clear-arena = arena-link_clear;
}
