-- ===== src/Lib.antt =====
-- A verification library for the file system of this repository: an ext2-like file system in one
-- image file, with 4096-byte blocks, behind the FUSE operations of homework.c.
--
-- The image has the superblock in block 0, a bitmap of used blocks in block 1, the root inode in
-- block 2, and inodes, directory blocks and file blocks behind them. homework.c keeps the superblock
-- and the bitmap in memory, splits and translates paths, searches directories, and reads and writes
-- whole blocks by `block_read` and `block_write` of misc.c.
--
-- The parts, each with the lemmas about it in the modules below it:
--   Common, Outcome   native numbers, lists, and the result of an operation: a value, an errno, or a
--                     crash, which is undefined behaviour of C or a failed assertion.
--   Disk              misc.c: `block_read` and `block_write`, on an image that is a length and a
--                     function from block numbers to blocks; a block is a function from offsets to
--                     bytes. Two fields say which blocks the medium fails to read or write.
--                     `block_init` has the system's `open` as an argument.
--   Bitmap            homework.c: `bit_set`, `bit_clear`, `bit_test` and the loops over the bitmap.
--   Format            fs5600.h: `fs_super`, `fs_inode` and `fs_dirent` as bytes of a block.
--   Path              homework.c: `pathparse`, `resolve_path` and the parent path.
--   Dir               homework.c: the loops over the blocks and entries of a directory.
--   Translate         homework.c: `translate`, with its stack of parent directories.
--   State             the globals of homework.c, and the monad of the operations: what was written
--                     before an error stays written.
--   Init              `fs_init`, and the start of a process.
--   Query             `fs_getattr`, `fs_readdir`, `fs_statfs`.
--   Create            `fs_create`, `fs_mkdir`.
--   Remove            `fs_unlink`, `fs_rmdir`.
--   Rename            `fs_rename`.
--   Attr              `fs_chmod`, `fs_utime`, `fs_truncate`.
--   Read, Write       `fs_read`, `fs_write`.
--   Layout            no code of its own: which block belongs to what (`Kind`), when an image is
--                     consistent (`IsConsistent`), and that each call, however it ends, leaves it so;
--                     it needs no condition on the medium but for `fs_truncate`, and the conditions
--                     on the arguments that `IsAllowed` names. A directory has one block, as
--                     `fs_mkdir` makes it and no call changes it.
--   Calls             `fs_ops`: sessions of the calls that can change the state, and a start from the
--                     image that a call left.
--   Tests             a small image, runs on it, and the theorems at concrete inputs.
--
-- Numbers are natural numbers with the wrap-around of their C types written out. The loops of
-- `fs_read` and `fs_write` move at least one byte a round, so fuel of the number of bytes that are
-- left is enough. The other loops are bounded by a count that is known when they start.
--
-- A name is read up to its NUL. Where it has none before the end of its block, `strcmp` and the
-- filler of `fs_readdir` would read past the buffer, which is a crash of the model; a consistent image
-- has no such name, and neither does a directory that a result calls sound or readable.
--
-- Not modelled: the heap (`malloc` and `strdup` do not fail, and leaks have no effect), messages to
-- stderr, the options of the program in hw3fuse.c and FUSE, and the Python tools and C tests. A path
-- and a buffer are lists of byte values.
pub mod Common
pub mod Outcome
pub mod Disk
pub mod Bitmap
pub mod Format
pub mod Path
pub mod Dir
pub mod Translate
pub mod State
pub mod Init
pub mod Query
pub mod Create
pub mod Remove
pub mod Rename
pub mod Attr
pub mod Read
pub mod Write
pub mod Layout
pub mod Calls
pub mod Tests
