-- ===== src/Lib.antt =====
-- yaf, a small Linux file system: the kernel driver (driver/, include/) and `mkfs` (tool/).
--
-- Layout: the superblock's sizes, the section bounds of include/fs.h and the conversions of
--   include/bitmap.h and include/inode.h (macros `IDXI2BID`, `INO2BID`, `DNO2BID`, ...) keep their
--   names in lower case. `unsigned long` arithmetic wraps modulo `2 ^ 64`.
-- Machine: the state that the driver shares with the kernel (`Sb`: the bytes of every buffer, the
--   in-memory inodes by number, dirty marks), commands over it, and the kernel's services as the
--   parameter `Kernel`. A command panics at a failed `assert` and at an access outside an array.
--   A service that can fail is an oracle over the number of the call, so each call may fail or
--   succeed by itself. `Machine.Bits` states the documented behaviour of the bit operations,
--   `Machine.Bytes` the little-endian fields of a block, `Machine.Example` a kernel for tests.
-- Bitmap: driver/bitmap.c. `get_free_bit`, `put_bit`, `get_free_inode`, `put_inode`,
--   `get_free_dblock`, `put_dblock` are the functions with the prefix `yaf_`. The loop over the
--   bitmap blocks has one round for each block and one for the test that ends it. In
--   `yaf_get_free_dblock` the buffer is released before it is marked dirty (`mark_released`): if the
--   kernel drops the buffer then, which `Kernel.stays_cached` tells, the mark and the bit are lost.
--   The theorems on creations and writes ask for free bits in the first block of a bitmap, and for
--   data blocks that the buffer is not dropped; Exhausted says what the code does when that block
--   is full.
-- Inode: `yaf_iget` and `yaf_new_inode` of driver/inode.c, `yaf_write_inode` of driver/super.c.
-- File: driver/file.c. `count_used` and `fill_blocks` are the two loops of `yaf_get_block`;
--   `block_write_begin` and `generic_write_end` are parameters of `write_begin` and `write_end`. Own,
--   Extend and Resize follow the blocks of a file through a sequential write, Extents through the
--   allocation of any of its blocks. The comparison of `yaf_write_begin` is signed.
-- Dentry: an entry of a directory (`Yaf_Dentry` of include/inode.h), the names in it, and the two
--   nested loops over entries (`scan_entries`, `scan_dir`), which `yaf_get_free_dentry` and
--   `_yaf_lookup` of driver/inode.c share up to the test. The outer loop has one round more than
--   the directory has blocks, and one for a last block that is not full.
-- Dir: the other directory functions of driver/inode.c: `get_free_dentry`, `create_entry`
--   (`_yaf_create`), `mkdir`, `create`, `lookup_offset` (`_yaf_lookup`), `lookup`, `delete`,
--   `rmdir`, `unlink`. An index outside `i_block` is a panic. A directory is seen as a partial map
--   from names to inode numbers (`Dir.Refine.Dict`): `Refines m s dir` says that the used entries of
--   `dir` are those of `m`, `Dir.View.IsDir` that the directory is well-formed. Create, Find and
--   Delete relate the operations to this map; their parts are in Slots, Fill, Grow, Append, Insert,
--   Remove, Release and Drop. `Dir.Frame` and `Dir.Tree` say what stays of the other inodes
--   and their blocks (`IsTree`). `Dir.Sample` has a small file system for tests.
-- Readdir: `yaf_iterate_shared` of driver/dir.c. `emit_entries` and `emit_blocks` are its loops,
--   `iterate_from` what follows the dots. The VFS's `dir_emit` and `dir_emit_dots` are parameters
--   over the state of any actor. The outer loop has the rounds of `scan_dir`. `Readdir.Listing` says
--   which entries a run of offsets gives, `Readdir.Names` what that is for the map of the directory.
-- Registration: the module's life, `yaf_init`, `yaf_exit` and `yaf_mount` of driver/fs.c, the slab
--   cache and `yaf_kill_sb` of driver/super.c. What the kernel's functions return are arguments;
--   `Registration.Lifetime.Step` is one call by the kernel.
-- Mkfs: tool/mkfs.c, on a disk that is a function from block numbers to blocks: the sizes of
--   `write_superblock` (`superblock_info`), the superblock, the bitmaps and the root inode.
--   `Mkfs.Sections` has the section bounds of include/fs.h as the tool computes them; the rest of
--   Mkfs uses the driver's, which are the same on a little-endian host.
-- Mkfs.Tool: the same functions and `main` as a process: the bytes of the device, the file offset
--   and `errno`. `Host` says with which errno each call of `open`, `fstat`, `ioctl`, `lseek` and
--   `write` fails and how much is written, an oracle over the number of the call; `write_at` is the
--   pair of `lseek` and `write` with its error paths. Store relates bytes to blocks, Calls, Steps,
--   Written and Outcome follow the calls, Main has `main`. `Mkfs.Arguments` is tool/arguments.c, with
--   glibc's `argp_parse` as a parameter.
-- Super: `yaf_fill_super` of driver/super.c. Whether `kzalloc` and `d_make_root` succeed are
--   arguments. Its root inode comes from `yaf_iget` of Inode, its superblock from Mkfs. `Super.First`
--   composes `mkfs`, the mount and `_yaf_create` in the root, `Super.Run` any run of
--   `_yaf_create`, `yaf_delete`, `yaf_write_inode`, `yaf_get_block` and `yaf_write_end` in it, as the
--   relation `Reachable`.
--
-- Not modelled: logging, which is taken to leave errno as it is; the reference counts of buffers
-- (`brelse`), but for its place in `yaf_get_free_dblock`, and the inode lock (`unlock_new_inode`),
-- which no other result depends on; the tables of
-- operations and the read functions of driver/file.c, which only hand functions to the kernel.
pub mod Base
pub mod Layout
pub mod Machine
pub mod Bitmap
pub mod Inode
pub mod File
pub mod Dentry
pub mod Dir
pub mod Readdir
pub mod Mkfs
pub mod Super
pub mod Registration
