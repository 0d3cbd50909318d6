-- ===== src/Lib.antt =====
-- mpsoc_axidma: scatter-gather transfers from an AXI DMA engine into the memory of a Linux user program.
--
-- The program has three parts. The pinner driver (modules/pinner/pinner.c) pins the pages of a user
-- buffer and tells the user their physical addresses, as a physlist (include/pinner.h). The user
-- library (src/axidma.c, include/axidma.h, src/pinner_fns.c) takes two physlists, one of a buffer for
-- descriptors and one of a data buffer, builds a list of descriptors in memory, writes them, starts the
-- engine and walks over what it returns. The UIO driver (modules/axidma/axidma.c) gives the user the
-- engine's registers and its interrupt.
--
-- The files:
-- - Base: names that the others share, machine words of 32 bits (add32, sub32), lists and Boolean tests.
-- - Physlist: get_entry_index, virt_to_phys and find_contiguous_aligned_after of src/axidma.c. A
--   physlist is the list of its entries, so num_entries is the length. Layout says what bytes it
--   describes; Lookup, Align, Find and Overrun have the theorems, and Bytes the lemmas on take and drop.
--   Room says which buffers hold descriptors, and from which offsets rounding up stays in an entry, and
--   Steady in which of them the places for descriptors are 64 bytes apart.
-- - Heap: the memory of the sg_entry nodes, and commands on it that fault on a block that is not
--   allocated. Ring says which nodes a circular list has. malloc is a parameter that gives the address
--   of a free block, or NULL; a call that fails for lack of memory names the memory in which it asked.
-- - SgList: the list helpers, axidma_list_new, axidma_list_del and axidma_add_entry. Links and Free
--   have the theorems on the helpers. Plan states as a function of the physlists which descriptors a
--   call is to make; Loop, Mark, Finish, Leave and AddEntry show that the code makes those, and Tile
--   and Covers what they describe; Refusal says when a plan fails. Slots and Range say where its
--   descriptors stand and that they fit into one, Packed how far they reach, and Frame that they are one
--   frame; Invariant and
--   State have the invariant of a list, and Stack the local list's block.
-- - PinnerApi: the requests of src/pinner_fns.c, with the size that each is written with.
-- - Dma: axidma_write_sg_list, axidma_s2mm_transfer, axidma_dequeue_s2mm_buf and
--   axidma_reset_lst_traversal. Write and Start have the theorems on the first two, Chain what the engine
--   reads, Engine what it is relied on to do with that, Filling an engine for the tests, Dmacr the value
--   of the control register, and Dequeue and Walk the theorem on the walk. What the descriptors hold does
--   not change during the walk.
-- - Context: axidma_open and axidma_close of src/axidma.c. Session compares what the process holds.
-- - Pinner: the geometry of a pinning (num_pages, pinner_alloc_and_fill_sglist, the entries of
--   pinner_send_physlist); Memory has what the driver takes from the kernel, Ops the commands, and
--   Files loading, opens, releases and removal. The state is the list of users with their pinnings,
--   how many references to each page and blocks of memory the driver has, and whether its device is
--   registered. What the kernel answers is a parameter (Replies). A step on a pointer that is not
--   valid is the outcome bad_pointer. Account, Driver, RoundTrip and Requests have the
--   theorems on the commands, User and Returns lemmas for programs that use the driver. Geometry and
--   Buffer have the lemmas on the list that the driver fills, and Mapping the theorems on the physlist
--   that it sends, behind dma_map_sg: that they meet what Physlist.Room and SgList.Invariant ask of
--   them. What dma_map_sg returns is a parameter; where addresses matter it is assumed to set each
--   dma_address to the physical address of the entry's first byte, as the kernel documents for a device
--   that sees physical addresses, which the driver then adds the offset to once more.
-- - Uio: axidma_init and axidma_exit, the single user, and the three attribute files; Irq has the
--   interrupt handler. Params has the invariant, Show the show functions, and Acknowledge the theorem on
--   the handler. What a write to a register of the engine does is a parameter.
-- - UioTutorial: an earlier copy of that driver, extra_info/uio_with_sysfs/axidma_module.c; only its
--   interrupt handler differs, on which Claims has the theorem.
-- - Example: the loop of example.c over axidma_add_entry, and the one over axidma_dequeue_s2mm_buf,
--   and what stands before and between them. Fill, Receive and Pipeline have the theorems on the
--   parts, Deliver says when the frames received are the buffers added, Sent and Whole have the
--   theorem on all parts together and Pinned that on pinned buffers; Split has the frames of a list.
--   Main is the whole of main, over the driver of Pinner and the process of Context, with pinner_open
--   and pinner_close of src/pinner_fns.c; Granted says what it asks for and Session, with Counts, has the theorem on
--   it. What the engine makes of the descriptors, for the writes to
--   its registers, is a parameter.
-- - PinExample: modules/pinner/userspace_example.c, as calls into the driver of Pinner, with its file and
--   its buffer. Account has the theorem.
-- - UserExample: virt_to_phys and write_physlist_sg of modules/axidma/user_example.c; Chain has the
--   theorems.
-- - AxiTimer: the loading and the removal of the tutorial's driver, extra_info/uio/axitimer_module.c, and
--   its interrupt handler; User is its program, extra_info/uio/axitimer_user.c. Load and Stops have the
--   theorems.
--
-- Fuel: the loops over a circular list run on fuel. The loop of axidma_free_list takes one unit for each
-- node and one for the end, and axidma_add_entry makes at most one node for each entry of the data
-- physlist, so more units than entries are enough; the loop of axidma_dequeue_s2mm_buf needs one unit
-- for each node left, and those of axidma_write_sg_list and axidma_s2mm_transfer take one for each node
-- and one for the end. The loop of example.c that receives takes a round for each buffer and one for the
-- end; a list has no more buffers than nodes, and no more nodes for a buffer than the data physlist has
-- entries. The other loops are structural.
--
-- Machine words: offsets, lengths and sizes are 32 bits wide and wrap as written; physical addresses are
-- 64 bits wide. PAGE_SIZE is 4096.
--
-- Not modelled: debug output; what dma_unmap_sg and the cache operations do; locking; the descriptors'
-- unused and application words, which no code reads or writes; and the main of
-- modules/axidma/user_example.c, which does not compile, and its copies of the requests.
pub mod Base
pub mod Physlist
pub mod Heap
pub mod SgList
pub mod PinnerApi
pub mod Dma
pub mod Context
pub mod Pinner
pub mod PinExample
pub mod Uio
pub mod UioTutorial
pub mod Example
pub mod UserExample
pub mod AxiTimer
