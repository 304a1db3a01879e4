-- ===== src/Lib.antt =====
-- A model of the FAT32 driver for IRIX, and the theorems that make its parts correct.
--
-- The driver's parts, and where each is modelled. fat32_cls.c reads and writes the file allocation
-- table and keeps the chains of clusters; fat32_util.c holds conversions of times, names and numbers;
-- fat32_file.c resizes a file and checks access; fat32_dir.c keeps directory entries; fat32_vfs.c mounts
-- and unmounts a volume; fat32_vnode.c serves the kernel's calls on a file or directory. The buffer cache
-- of the kernel lies below all of them.
--
--   Shared, Bytes   tests and casts of C, arrays as functions; RLE16 .. WLE32 of fat32.h
--   Device          the buffer cache (bread, bdwrite), a parameter with what the driver relies on
--   Fat             fat32_rmw_cluster: one entry in all copies of the table; the results and the
--                   state that the operations share
--   Cluster         the rest of fat32_cls.c: Search, Allocate, Follow, Free and Ends hold what is
--                   proved of the search, the allocation, the walk and the freeing
--   Vnode           fat32fs_vnode_t, fat32_vnode_init, fat32_vnode_reset, fat32_make_vnode, fat32_touch
--                   and fat32_faccess; Vnode.Cache has fat32_vnode_update_cache and
--                   fat32_vnode_seek_cluster, Vnode.Truncate has fat32_truncate
--   Dir             fat32_read_fdentry, fat32_write_fdentry, fat32_write_lfn_fdentry and fat32_init_dir;
--                   Dir.Update has fat32_update_fdentry, Dir.Alloc has fat32_alloc_fdentry, and
--                   Dir.Dirent has fat32_get_dirent and fat32_find_dirent, and Dir.Create has
--                   fat32_create_fdentry
--   File            fat32_read, with the request and the kernel's copying; File.Write has fat32_write
--   Ops             fat32_dirempty, fat32_delete_fdentry_chain, fat32_remove_common, and fat32_remove and
--                   fat32_rmdir, which call it
--   Make            fat32_lookup, fat32_create and fat32_mkdir
--   Rename          fat32_rename
--   Readdir         fat32_readdir, and fat32_emit_dirent of fat32_dir.c
--   Calls           fat32_open, fat32_close, fat32_seek, fat32_cmp and fat32_inactive, and
--                   fat32_vnode_delete of fat32_util.c
--   Check           fat32_check_dir_integrity of fat32_dir.c
--   Attr            fat32_getattr, fat32_setattr, fat32_access and fat32_fsync; fat32_sync_metadata
--   Boot            fat32_read_boot: the partition, the boot sector and the FSInfo sector
--   Mount           fat32_mount, with its options, fat32_root and fat32_unmount
--   Lfn             the entries of a long name, and fat32_set_dname as fat32_get_dirent calls it
--   ShortName       fat32_name_is_short, fat32_checksum, fat32_generate_short_name, the formatting in
--                   fat32_create_fdentry and the reading in fat32_get_dirent
--   Time            fat32_unix_to_fat_time and fat32_fat_to_unix_time
--   Ino, Log2       fat32_pack_ino, fat32_unpack_ino, fat32_log2
--   Tests           a device in memory, runs of the code, and the theorems at concrete inputs
--
-- State. An operation takes the volume (the device and the cached FSInfo fields) and returns what the
-- function returns with the volume it leaves, also where it fails: `ok` with the output, `err` with
-- the error number, or `stuck` where a loop of the model runs out of fuel. Functions on a node take the
-- node with the volume. A number of the program is a natural number with the wrap-around of its type
-- written out.
--
-- Fuel. The loop of fat32_free_clusters gets the number of clusters and three rounds more; it is
-- proved to end. The loops of the time conversion get the number of days, and their theorem shows
-- that this is enough. The search of fat32_alloc_fdentry gets one round for each cluster; a
-- directory whose chain runs in a circle makes the driver loop for ever. fat32_get_dirent,
-- fat32_dirempty, fat32_getattr and fat32_check_dir_integrity get the clusters of the volume and one
-- more in the same way, fat32_find_dirent the entries these can hold. The loops of fat32_read and
-- fat32_write get the bytes that are left, of which each round moves one at least, the loop of fat32_readdir the bytes of
-- the request and one more, of which each entry takes one at least, and the loop over the mount
-- options gets one round for each character.
--
-- The kernel's part is a parameter: the buffer cache, the copying to and from the user (uiomove), the
-- format of the records that fat32_readdir gives, and the calls of fat32_mount on paths, devices,
-- numbers and vnodes.
--
-- Not modelled: locks (an operation runs alone, as they make it) and messages; the operations of
-- fat32_vnode.c that only return ENOSYS or do nothing; the debug checks of a node's pointer;
-- mount_fat32.c, a user program, and fat32fs.c, which registers the driver. fat32_write and
-- fat32_truncate are modelled with their growing branches, on which nothing is proved.
pub mod Attr
pub mod Boot
pub mod Bytes
pub mod Calls
pub mod Check
pub mod Cluster
pub mod Device
pub mod Dir
pub mod Fat
pub mod File
pub mod Ino
pub mod Lfn
pub mod Log2
pub mod Make
pub mod Mount
pub mod Ops
pub mod Readdir
pub mod Rename
pub mod Shared
pub mod ShortName
mod Tests
pub mod Time
pub mod Vnode
