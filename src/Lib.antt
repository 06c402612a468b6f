-- ===== src/Lib.antt =====
-- HM4 is a key/value store: pairs with a time of creation and an expiry, held in a memory list, flushed
-- to sorted tables on the disk when the list's arena is full, and read through both, where the newest
-- pair of a key counts; a server speaks the Redis protocol before it. This library models its core.
--
-- Prelude: names of the libraries, tests, lists over native numbers, 64-bit arithmetic.
-- MyTime: time stamps of common/mytime.h. Functions that read the clock take the time as an argument.
-- Bytes: compare, equals and same_prefix of include/mystring.h; Bytes/Order has their order.
-- Decimal: to_string of include/mystring.h, and atoi as the parser of requests uses it.
-- Pair: Pair of hm4/pair.h and hm4/pair.cc; Pair/Factory the factories, Pair/Life the life of a pair,
--   Pair/HPair the keys whose first eight bytes are one number: hm4/hpair.h and include/stringhash.h.
-- IList, ListCounter: InsertResult, the choice of the newest pair and the reads of hm4/ilist.h, and the
--   counters of hm4/listcounter.h.
-- Lcp: cmpLCP of include/cmplcp.h, by which the tables are searched.
-- Arena: ArenaAllocator of myallocator/arenaallocator.h. Addresses are offsets in its buffer.
-- BinarySearch: linearSearch and binarySearch of include/binarysearch.h.cc.
-- VectorList: hm4/vectorlist.h and hm4/vectorlist.cc: find, getPair___, insertF, erase___, clear and
--   mutable_notify are find, get_pair, insert_f, erase, clear and mutable_notify. A pointer to a pair is
--   the pair. Sorted is about ascending lists in general.
-- LinkList: hm4/linklist.h and hm4/linklist.cc, with the same names: locate_ is locate and find_ is find_.
--   View sees the chain as a vector of pairs, Agree compares the operations with those of VectorList,
--   Divergence the orders of the two on keys with bytes of 128 and more.
-- MemList: what the layers above ask of a memory list; MemList/Vector gives it for the vector list, for
--   all valid keys, and MemList/Linked for the linked list, for ASCII keys.
-- Multi: getNewestPair_ over many lists, and the joined pass of hm4/multi/dualiterator.h.
--   Multi/CollectionIterator: hm4/multi/collectioniterator.h over hm4/multi/iteratorpair.h; the heap of
--   the standard library is an argument, Heap, and Whole is about whole lists.
-- Disk: the tables that hm4/disk/filebuilder.h and filebuilder.cc write, reads that skip a table, and
--   in Disk/Search the binary search of hm4/disk/disklist.cc; Common, Near and Exact are about what its
--   comparator skips. Disk/HotLine: searchHotLine, and FileLineBuilder of hm4/disk/filebuilder.cc, which
--   writes the line. Disk/HashIndex: searchHashIndex and the builders of hm4/disk/hashindexbuilder.h, over
--   MurmurHash, include/murmur_hash_64a.h, and Oprime, include/oprime.h; Lost is about keys that the
--   index loses. Disk/BTree: searchBTree and include/bfslookup.h, for any tree
--   whose entries are those of the table. Disk/DiskList: openNormal_, calcSearchMode_, ra_find_ and getPair___ of disklist.cc.
-- FlushList: hm4/flushlist.h and hm4/flushlistbase.h over a memory list, with the tables that the
--   flusher of hm4/flusher writes, in the order of hm4/listloader/baselistloader.h, read as
--   hm4/multi/duallist.h and hm4/multi/collectionlist.h read them.
-- DualList: the erasures of hm4/multi/duallist.h over the flush list and its tables.
-- BinLog: hm4/binloglist.h, the log of hm4/binlogger/diskfilebinlogger.h and hm4/binlogreplay.h.
-- RedisProtocol: the parser of net/protocol/redisprotocol.cc and the replies of redisprotocol.h.
-- HexConvert: toHex, fromHex and fromHexBytes of include/hexconvert.h.
-- CuckooFilter: include/cuckoofilter.h, with the number of bytes of a fingerprint, of slots and of buckets as
--   parameters; Paired is about the other bucket, Negatives and Stream about what is found.
-- RingBuffer: include/ringbuffer.h. MisraGries: include/misragries.h. HeavyHitter:
--   include/heavyhitter.h; Top is about whole streams.
-- Tests: the theorems at concrete inputs.
--
-- A list enters the layers above it as a record of operations and laws (MemList); the flush list and
-- the logged list are modelled over any such list. The state of an operation is passed explicitly, and
-- errors are the statuses of InsertResult and ProtocolStatus.
--
-- Bounds and fuel. The arena is a multiple of 8 bytes, of at most 2 ^ 63; counters wrap at 2 ^ 64. The
-- loop of the binary search has the array's length as fuel, which bounds the distance of its ends; the
-- joined pass has the sum of both lengths, and every step takes a pair, and so has the pass over many
-- lists; a cuckoo filter has the 256 kicks of the code; the search in a node of the B-tree has its 7 levels,
-- and that in the tree the number of nodes and one, since it goes to later nodes only; to_string has 20, the
-- digits of the largest 64-bit number.
--
-- Keys. The memory lists and the tables compare keys in different ways, which agree on ASCII keys. A memory
-- list says for which keys its laws hold (Admits) and which it stores (Stores), and the flush list takes a
-- search within one table that finds what a sorted table of such keys holds: the binary search is one.
--
-- Memory of the process. std::vector may throw in insertF of the vector list, which is an argument there; the
-- memory list that MemList/Vector gives to the layers above is the one whose vector can grow. A read of
-- the B-tree's keys that passes the guard of include/blobguard.h since its end wraps around gives no result.
--
-- Not modelled. The builder of the B-tree, hm4/disk/btreeindexbuilder.h.cc, has no model: the theorems on the
-- tree are about files with keys of the table at their places. The guards on MaxItemSize in the items of
-- MisraGries and HeavyHitter, which items that isItemValid accepts pass, are left out. Nor have models the file system, the other memory lists, threads, the
-- commands of the server and its sockets. The bytes of a pair in memory are its fields. Calls of the
-- logger are left out.
pub mod Prelude
pub mod Bytes
pub mod MyTime
pub mod Pair
pub mod IList
pub mod ListCounter
pub mod Arena
pub mod BinarySearch
pub mod LinkList
pub mod VectorList
pub mod MisraGries
pub mod MurmurHash
pub mod CuckooFilter
pub mod HeavyHitter
pub mod Oprime
pub mod Multi
pub mod Disk
pub mod MemList
pub mod DualList
pub mod FlushList
pub mod Decimal
pub mod RedisProtocol
pub mod BinLog
pub mod Tests
pub mod Lcp
pub mod HexConvert
pub mod RingBuffer
