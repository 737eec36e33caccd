-- ===== src/Lib.antt =====
-- NAOFS: a Unix-style file system on blocks of 1024 bytes.
--
-- The disk is an array of blocks, in memory or on a device. Its layout is block 0 unused, the
-- super block, the head of the list of free blocks, the list of free inodes, the inode blocks,
-- and data. A file's inode leads to its blocks through ten direct entries and a single, a double
-- and a triple indirect block. Inodes in use are copied to a pool of 32 buffers, which are found
-- through hash queues and reused through a free list; open files stand in a global table. The
-- operations on paths and on open files are built on these: a path is walked name by name from
-- inode 0, each name searched in a directory, and the file is locked, changed and given back.
--
-- Which file models which part (paths from the root of the repository):
--   Params      include/mandsk/params.h, include/mkfs/diskParams.h, src/mandsk/params.c
--   Disk        src/dsk/mdisk.c, src/dsk/diskAccess.c, src/dsk/blkfetch.c
--   Inode       include/inode/*.h, src/inode/iNode.c, src/inode/inCoreiNode.c
--   Meta        src/mkfs/metaBlocks.c, src/mkfs/freeBlockList.c
--   Blocks      src/dsk/alloc.c, src/dsk/free.c
--   InodeTable  src/mkfs/iNodeManager.c
--   InodeList   src/mkfs/ialloc.c, src/mkfs/ifree.c
--   Mkfs        src/mkfs/mkfs.c
--   Tree        src/incoreInodeOps/iNodeManager.c, src/incoreInodeOps/bmap.c
--   Pool        src/incoreInodeOps/freeList.c, src/incoreInodeOps/hashQ.c
--   Files       src/fdTable/globalFileTable.c
--   Cache       src/incoreInodeOps/iget.c, src/incoreInodeOps/iput.c
--   Truncate    src/interface/truncate.c, without truncateFile, which is in Io
--   Directory   src/trav/directory.c
--   System      the calls of these parts as the operations below make them
--   Namei       src/trav/namei.c, and the two functions on paths of src/utils/utils.c
--   Attributes  src/interface/getAttr.c
--   Create      src/interface/create.c
--   Unlink      src/interface/unlink.c
--   Rename      src/interface/rename.c
--   Io          src/interface/open.c, close.c, read.c, write.c, and truncateFile
--   Listing     readDirectory of read.c, and the search of directory.c without a name
--   Callbacks   the callbacks of src/main.c and the table of them, src/interface/link.c
--   Start       the start in src/main.c, and src/mkfs/exec-mkfs.c
--   Utils       string_split of src/utils/utils.c
--   Tools       src/mkfs/diskReader.c
-- A definition has the name of the C function in snake case. The state of a part is a record
-- that its functions take and return: Disk for the static variables of src/dsk, Pool for the
-- nodes with the free list and the queues, FileTable for the table, Fs for Pool and Disk
-- together. An operation is a step from Fs to a result and Fs that may also meet NULL, or wait
-- for ever for a mutex; what time returns and fresh memory holds stays the same within one
-- operation (Env). A call that fills a buffer returns the buffer. Blocks are lists of bytes,
-- words in them are little-endian; size_t is 8 bytes. Prelude holds the list, byte and integer
-- helpers that the parts share, Tests the theorems at concrete data.
--
-- Loops recurse on the list or on the number of rounds left. Where the source bounds no rounds,
-- fuel does: the blocks up to the end of the inode blocks in searchINodes, one list block per
-- round of initializeDiskBlocks, one byte or more per round of increaseFileSizeBy and
-- decreaseFileSizeBy, one block per round of a directory search, one byte or more per round of
-- readBytes and writeToFile and per name of a path. A walk of the free list or of a hash queue
-- that has not ended after the 32 nodes there are has no result, as a member of NULL has none:
-- on a list that runs in a circle it should not, the source walks for ever. How deep
-- validateAndEmptyDirectoryIfNeeded calls itself is an argument, past which the stack overflows.
--
-- A request to the program is a value of the type Request, with what FUSE passes to the
-- callback; a run of the program is a sequence of requests that are answered (Callbacks/Trace).
-- What a name of a device opens, and what the kernel and the C library answer, are arguments.
--
-- The sizes of files are taken to be at most what the triple indirect tree has room for: past it
-- bmap reads offsets that calculateOffset never set. The int that writeToFile counts in wraps at
-- 2 ^ 31, as in the source; readBytes is read below 2 ^ 63, where its ssize_t keeps what it is
-- given.
--
-- Not modelled: allocation failure but that of strdup in string_split, what printf prints but
-- for diskReader, and the interleaving of threads (a function under a mutex is one step; the
-- mutex of an inode is a bit, and locking a locked one is a deadlock); fuse_main itself; and
-- src/fdTable/fileTables.c, which is commented out.
pub mod Prelude
pub mod Params
pub mod Disk
pub mod Inode
pub mod Meta
pub mod Blocks
pub mod InodeTable
pub mod InodeList
pub mod Mkfs
pub mod Tree
pub mod Pool
pub mod Files
pub mod Cache
pub mod Truncate
pub mod Directory
pub mod System
pub mod Namei
pub mod Attributes
pub mod Create
pub mod Unlink
pub mod Rename
pub mod Io
pub mod Listing
pub mod Callbacks
pub mod Start
pub mod Utils
pub mod Tools
pub mod Tests
