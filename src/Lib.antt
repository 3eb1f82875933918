-- ===== src/Lib.antt =====
-- Contrees: copy-on-write search trees with fat leaves, under a controller that runs one update after
-- the other and publishes a root for each.
--
-- A client registers an update (a key, a value). The controller gives it a version, hands the handlers
-- of a tree the root of the version before, and runs them in stages until the new root is complete
-- (lib/conctrl/seqcow.hpp, `exec_task_`). A reader takes a root and a version, its snapshot: it waits
-- for no update, but `pin` tries again while a publication is under way. Where fat leaves are on, an
-- update first tries to append a record to the sidecar of the leaf for its key, which older roots
-- share; only if the sidecar is full is the search path copied, and the leaf materialized together with
-- its records.
--
-- ArrayOps is lib/common/arrayops.hpp. Btree models lib/trees/btree:
--   Btree/Node         node.hpp: nodes, search, split and insertion of a child
--   Btree/Delta        node.hpp: the sidecar, `delta_block`, its append and its reservation
--   Btree/Query        query.hpp: `find` at a snapshot
--   Btree/Worker       handlers.hpp: `handle_fat_append`, the publication of a slot that
--                      `pipeline_fat_reserve` of src/adapters/btree.hpp reserved
--   Btree/Inplace      update_inplace.hpp: the update that writes into the nodes it meets
--   Btree/Materialize  update_cow.hpp, `materialize_leaf_cow`
--   Btree/Cow          update_cow.hpp and handlers.hpp: the update on a copied path, its stages, and
--                      `exec_task_` of lib/conctrl/seqcow.hpp
--   Btree/Sequence     `init_task_` and the loop of `worker_main_` in lib/conctrl/seqcow.hpp
--   Btree/Scan         query.hpp: range scans at a snapshot
--   Btree/Build        build.hpp: the bulk build, with `std::sort` as a sort by insertion
-- Art models lib/trees/art, the adaptive radix tree, on the bytes of 64-bit keys:
--   Art/Key            node.hpp: `partial_key`, `prefix_mask`, `prefix_match`
--   Art/Index          node4.hpp, node16.hpp, node48.hpp, node256.hpp, node_wrapper.hpp: the index by
--                      which a byte finds a child
--   Art/Node           the same files: the children, added, copied and moved to the next node type
--   Art/Tree           leaf.hpp, update_inplace.hpp, build.hpp, and `find` of query.hpp
--   Art/Cow            update_cow.hpp, handlers.hpp, fat_lookup.hpp: the update on a copied path, its
--                      handlers, and `exec_task_` over them
--   Art/Scan           query.hpp: `scan`
-- Conctrl models lib/conctrl:
--   Conctrl/Retired      context.hpp: the list of the nodes that an update replaced
--   Conctrl/Reclamation  reclamation.hpp: batches of such nodes, and when they are freed, one operation
--                        after the other
--   Conctrl/Epoch        reclamation.hpp: `publish`, `pin` and the scans for the oldest reader, step by
--                        step and interleaved
--   Conctrl/Mpsc         mpsc_list.hpp: the list of waiting tasks
-- FatValue is lib/common/fat_value.hpp, the versions of one value: `read` and `append`.
-- Btree/Shape says what a tree holds for a snapshot and when it is well formed, Btree/Focus, Fill,
-- Leaves and Leaf carry the lemmas, and Btree/Update and Btree/Plain state what an update promises.
-- SortedMap is the abstract view: a sequence of entries in the order of their keys.
--
-- The handlers of a tree put the nodes they replace into the context of the update; the controller
-- makes a batch of them, which waits until no reader and no writer is behind its version.
--
-- Representation. A node is a value: a leaf is its version, its used entries and its sidecar, an
-- internal node its version and its children with the separators between them. The parallel arrays of
-- keys and values are one list of pairs. A path copy is a new value beside the old one; an append in
-- place, which the old roots also see, is the same change in the tree of either root. Keys are below
-- 2^64 and versions of records below 2^63, as `DELTA_PENDING` demands. The sort of at most nine records
-- in a materialization, and of at most 23 in a scan, is a sort by insertion. A `Tree` of btree is never
-- null, so the test of a null root in `find` has no counterpart.
--
-- In the radix tree an array of children is a function of the position, which is null where nothing was
-- written; `node_copy` leaves the children out, and `copych` fills them in. The loops of
-- `node16_find` and `node16_findgt` stand for their vector instructions too, and `__builtin_clzll` is a
-- count of digits. A read through a null pointer, as `scan_append` of one, has no result.
--
-- The atomic accesses of reclamation.hpp are sequentially consistent in the source, and are single steps
-- of one thread here. The publication sequence is taken not to wrap around, which takes 2^63
-- publications.
--
-- Bounds. `update_internal_inplace` and the loop of `exec_task_` run on fuel, the height of the tree:
-- each round goes one level down. Over the radix tree that loop has fuel nine: each handler moves at
-- least one of the eight bytes of the key on, and one more ends. The bulk build has fuel for as many
-- rounds as there are elements, where each level has an eighth of the nodes of the one below.
--
-- Not modelled: allocation and release of memory; the flag `cow_ready` and the worker mode in which a
-- materialization is finished by another thread; the fat merges of btree and art; the trees betree and
-- aert; the pipelined controllers; the command line, the benchmarks and the YCSB driver.
pub mod Prelude
pub mod ArrayOps
pub mod SortedMap
pub mod Btree
pub mod Art
pub mod Conctrl
pub mod FatValue
