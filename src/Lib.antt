-- ===== src/Lib.antt =====
-- A model of the core of SPHDE, the Shared Persistent Heap Data Environment.
--
-- SPHDE keeps data structures in memory regions that processes share at one address. The parts
-- modelled are those that every client of a region goes through:
--
-- FreeNode is the free list of a heap block (src/freenode.c, src/freenode.h). `init`,
-- `dealloc_space`, `alloc_space` and the totals are the functions freeNode_init,
-- freeNode_deallocSpace, freeNode_allocSpace and so on. The list reached through nextNode is a list
-- of nodes, each with its address and its nodeSize.
-- Entry is the lock-free entry (src/sphlfentry.h), a header with bit fields and the data behind it.
-- Entry.Header has the header, its completion and its readers, Entry.Handle the functions
-- SPHLFEntryAdd* and SPHLFEntryGetNext*, over the bytes of Entry.Memory.
-- PcQueue is the queue between one producer and one consumer (src/sphsinglepcqueue.cpp), a ring of
-- entries in place, with the direct functions of src/sphdirectpcqueue.h. PcQueue.Fifo says what
-- it promises; PcQueue.Ring and PcQueue.Refine connect the ring to it.
--
-- Bitv is the allocation of units from the bits of a word (src/bitv.c, src/bitv_priv.h): Bitv.Units
-- has the control block, the sizes and the masks, Bitv.Alloc bitv_alloc and bitv_alloc_marked,
-- Bitv.Aligned the two aligned allocations, Bitv.Free bitv_dealloc and bitv_free_marked. A word is its
-- bits, the most significant first, and what other threads do between two tries is the list of the
-- words that the tries to swap find.
-- UlongTree is the search tree of addresses (src/ultree.h, src/ultree.cpp): UlongTree.Defs has
-- insertNode, removeNode and the searches, on the tree that a node pointer reaches, with a path from
-- the root for a pointer to a pointer.
--
-- Index is SASIndex: Index.Map its operations over a header (src/sasindex.cpp), the rest the B-tree of
-- its nodes (src/sasindexnode.cpp) with its keys (src/sasindexkey.h). Index.Nodes
-- has the node and the search in it, SASIndexNodeSearchNode, Index.Search the five searches down the
-- tree, Index.Insert SASIndexNodePushIn to SASIndexNodeInsert, Index.Delete SASIndexNodeRemove to
-- SASIndexNodeDelete. The order of keys is an interface, Index.Order.KeyOrder, which Index.Keys gives
-- for the keys of unsigned numbers. A tree is well formed, Index.Shape.IsTree, where its leaves are
-- at one depth, the keys in order within two bounds, and the counts of the nodes in theirs.
--
-- Index.Enum is the enumeration (src/sasindexenum.cpp), with the references that the searches leave,
-- Index.EnumAll a client that goes on while there is more.
--
-- StringBtree is SASStringBTree: StringBtree.Nodes the B-tree of src/sasstringbtreenode.cpp,
-- StringBtree.Map the operations over its header (src/sasstringbtree.cpp), StringBtree.Text the strings
-- and strcmp. The code is that of the index with strcmp for the comparison, and the definitions are
-- those of Index at these keys. StringBtree.Enum is its enumeration (src/sasstringbtreeenum.cpp), that of
-- the index with a count and a start at a string.
--
-- Heaps has the blocks of a region and the heaps made of one: Heaps.Block the header of a block
-- (src/sasalloc.h), Heaps.Simple the heap over the free list of FreeNode (src/sassimpleheap.cpp),
-- Heaps.Stack the stack (src/sassimplestack.cpp) and Heaps.Space the space (src/sassimplespace.cpp).
-- Heaps.SimpleUse puts a heap together with its clients: its steps are the allocations and the frees of
-- what is in use, in any order.
--
-- The queue's entries are those of Entry: a producer's handle comes from the queue, is filled by the
-- functions of Entry.Handle, and is completed through the queue.
--
-- Numbers are natural numbers. An `unsigned long` and an address have 64 bits, an `unsigned short` 16,
-- and their wrap-around is written out. `x & ~(a - 1)` is `x / a * a` for the powers of two a that the
-- code uses. Types are of a 64-bit platform, each aligned to its size, the least significant byte
-- first. A pointer that may be NULL is an option.
--
-- The loop of strlen in Entry.Handle has 2 ^ 64 rounds, one for each byte that an address can reach. The
-- length that it gives is kept in an `int`, whose wrap-around is written out, as is that of the `int`
-- offsets of the bit vector. The loops of bitv_alloc and of the
-- aligned allocations take their fuel as an argument. The loop of bitv_alloc_marked needs none, since
-- each try but the last uses up a word of the list, and the scans of a word go over 64 bits at most.
-- The two loops of the search in a node of the index have 16 rounds, more than the doublings and the
-- halvings up to the 63 keys that a node can have, and the recursion down the tree is structural.
--
-- The loop for the size of a space's block takes its fuel as an argument; 52 rounds are enough for every
-- size where it stops.
--
-- Not modelled: the barriers, which order the accesses of one thread for the others, and with them the
-- interleaving of the two sides of a queue, whose calls are whole steps here; the spinning variants of
-- the queue's calls; the debug printing; the system calls of the region manager, the near allocation,
-- the compound heap, the logger and the locks; the place in the
-- blocks of the nodes and of the copies of the keys, whose allocation is taken to succeed.
pub mod Base
pub mod Bitv
pub mod Entry
pub mod FreeNode
pub mod Heaps
pub mod Index
pub mod PcQueue
pub mod StringBtree
pub mod UlongTree
