-- ===== src/Lib.antt =====
-- cpp_util: a model of the containers and of the RESP codec, with the theorems that make them
-- correct.
--
-- The parts, from the repository's root:
-- - immutable_container/include/immutable_container/immutable_tree.h, a persistent AVL tree, is
--   ImmutableTree. Its functions keep their names (MakeNode is make_node, InsertNode is
--   insert_node). A node never changes once made, so a pointer to a node is the node itself, and
--   null is the null pointer. What throws is an Outcome. Sizes wrap at 2 ^ 32 and heights at
--   2 ^ 16, as the casts do. Its child modules are about: the shape (Avl), the rotations (Rotate), the
--   guards of MakeNode (Bounds), the rebalancing (Balance), each operation's change of the entries (Insert, Update, Erase, over
--   Change), reading (Read), construction (Build), the public contract (Refine), and the tree as
--   an instance of the interface below (AsStore).
-- - imt_map.h and imt_set.h beside it are ImtMap and ImtSet. Their template argument Tree is a Store
--   (Container/Store): the operations of an ordered tree with the laws that a map relies on. So they
--   serve every tree that keeps the laws.
-- - redis/include/redis/resp.h, packing and unpacking of RESP2, is Resp: Types, Number (decimal
--   numbers), Line (lines that end in CRLF), Pack, Parse (ParseValueAt) and Unpack (UnpackOne). A
--   byte is a number below 256, a string_view into the input is an offset and a length, and a
--   pointer into the scratch buffer is an index.
-- - immutable_block_tree.h beside them, the persistent AVL tree of blocks, is ImmutableBlockTree, with
--   the same conventions and the source's names. It stands over Blocks (Container/Blocks), the
--   operations of a block with the laws that the tree relies on. Its child modules are about: the shape
--   (Avl), the rotations (Rotate), the rebalancing (Balance), trees of any heights put together (Join),
--   the merging of blocks (Normalize), a change within one block (InBlock), which way a walk goes
--   (Sides, Passed), each operation's change of the entries (Insert, Change for an update,
--   Erase, Set), the public contract (Refine), reading (Read), construction (Build), and the tree as a
--   Store (AsStore, and Zipped over the blocks of zip_list.h).
-- - zip_list.h, the block of such a tree, is ZipList: its primary template, with the capacity as a
--   parameter. The storage is the list of the constructed entries; a read behind them, or a
--   construction beyond the capacity, throws. Its child modules are about the binary search (Bound),
--   the copies with a change (Edit), splits and packing (Split), and the block as an instance of
--   Blocks (AsBlocks).
-- - shared_ptr.h and ref_count_policy.h of the same directory are SharedPtr: a heap of objects, each with
--   its count and its members while it lives, and of the pointers that are variables, with one function
--   per constructor and assignment, and programs as lists of steps. A deletion destroys the members at
--   once. Counts wrap at 2 ^ 64. An access to a deleted object throws `dangling`. Its child modules are
--   about counts (Counted), a change of one object (Objects), retaining and releasing (Release), what
--   variables hold (Values), constructors and destructors (Sound), assignments (Assign) and programs (Run).
-- - concurrent_queue/include/concurrent_queue/two_lock_queue.h is TwoLockQueue: threads that enqueue and
--   dequeue as steps (lock_tail, link_node, move_tail; lock_head, read_next, take_value, delete_node),
--   in any order. Each access to a shared field is one step, in one order for all threads. A node is
--   an index into the list of the nodes that were linked. An abstract queue, a list of values, replays
--   the events. Its child modules are about the linked nodes (Links), single steps (Linear), and the
--   taking of a value and whole interleavings (Run).
-- - Container holds what the containers share: the comparator that the templates take, sorted
--   association lists, which are the abstract view of a tree (Assoc), and the results of calls that
--   can throw (Outcome). Util holds lemmas on lists, numbers and Boolean tests.
--
-- Fuel and bounds: build_balanced takes as fuel the number of entries plus one, more than the depth
-- of its recursion. The fuel of normalize_node is three times
-- the entries of its subtrees plus two: an erasure takes an entry at least from the subtree that it
-- goes on with. erase_here gives erase_min three times the entries of its subtree. pack_from has a
-- round for each entry and one more, as each block takes an entry. bound_loop has the count plus one,
-- as its range shrinks in each round. The loop of destroy_nodes has a round
-- for each node and one more. release has fuel for every object: a member points to an object made
-- before its own, so that deletions nest no deeper. emit_digits has the 32 bytes of the source's buffer as its bound, against 20
-- digits and a sign at most. decimal_length has 32
-- rounds, against 20 digits at most. unpack_loop takes the length of the input plus one, as each
-- round reads a byte at least (Resp/Parse/Progress, Resp/Unpack/Total).
--
-- The comparator is assumed to be a strict weak ordering, as the C++ standard requires of it, and
-- std::sort to permute its input into order. Element types are assumed to copy faithfully.
--
-- Not modelled: the specialisation of zip_list.h for PackedString, packed_string.h; moves and
-- destruction of containers (of SharedPtr they are modelled) and the counters of the test builds;
-- threads that share an atomic counter, and assignments to members of objects; the other queues of concurrent_queue (moodycamel.h is a copy of
-- another project's library); conn_util, which wraps system calls; computational_geometry, which is
-- about floating-point numbers; tests, benchmarks and scripts.
pub mod Util
pub mod Container
pub mod ImmutableTree
pub mod ZipList
pub mod ImmutableBlockTree
pub mod ImtMap
pub mod ImtSet
pub mod Resp
pub mod SharedPtr
pub mod TwoLockQueue
