-- ===== src/Dir.antt =====
-- Directory entries on disk, after fat32_dir.c: an entry of 32 bytes at an offset of a directory,
-- the entries of a name, a new directory, the update of an entry from its node, and the search for
-- free entries.
pub mod Slots
pub mod Scan
pub mod Update
pub mod Flush
pub mod Alloc
pub mod Dirent
pub mod Named
pub mod Find
pub mod Within
pub mod Listed
pub mod Placed
pub mod Created
pub mod Laid
pub mod Laying
pub mod Create
use fat.Shared.{
  ℕ, zero, suc, ◌+◌, ◌-◌, ◌*◌, ◌/◌, Bool, ◌&&◌, Option, none, some, List, [], ◌∷◌, ltb, leb, ◌==◌,
  if◌then◌else◌, u16, u32, ◌>>>◌, length, get_or, update, bit_and,
}
use fat.Bytes.{Bytes, wle16}
use fat.Device.{Buf, BlockIo, buf_errno}
use fat.Fat.{Info, Volume, Ret, ok, err, stuck, M, pure, diverge, and_then, ◌>>=◌, ◌>>◌}
use fat.Cluster.{no_flags, cluster_to_sector, read_cluster, clear_cluster, seek_cluster}
use fat.Time.{Timespec, FatTime, unix_to_fat_time}
use fat.ShortName.{space, dot, checksum}
use fat.Lfn.{lfn_entry, num_lfn}

-- FAT32_DENTRY_SIZE
abbrev pub dentry_size : ℕ
dentry_size = 32

-- The fields of fat32_dirent83_t that the driver writes, by their offsets.
abbrev pub attr_at : ℕ
attr_at = 11

abbrev pub create_time_tenth_at : ℕ
create_time_tenth_at = 13

abbrev pub create_time_at : ℕ
create_time_at = 14

abbrev pub create_date_at : ℕ
create_date_at = 16

abbrev pub last_access_date_at : ℕ
last_access_date_at = 18

abbrev pub first_cluster_hi_at : ℕ
first_cluster_hi_at = 20

abbrev pub write_time_at : ℕ
write_time_at = 22

abbrev pub write_date_at : ℕ
write_date_at = 24

abbrev pub first_cluster_lo_at : ℕ
first_cluster_lo_at = 26

abbrev pub file_size_at : ℕ
file_size_at = 28

-- bcopy of 32 bytes out of a block, and into it.
abbrev pub copy_out : Bytes → ℕ → Bytes
copy_out b off i = b (off + i)

abbrev pub copy_in : Bytes → ℕ → Bytes → Bytes
copy_in entry off b i = if leb off i && ltb i (off + dentry_size) then entry (i - off) else b i

abbrev pub skip_of : Info → ℕ → ℕ
skip_of fsi offset = offset >>> fsi.cluster_shift

abbrev pub place_of : Info → ℕ → ℕ
place_of fsi offset = bit_and offset fsi.cluster_mask

-- The two halves of a first cluster.
abbrev pub set_cluster : ℕ → Bytes → Bytes
set_cluster c d = wle16 (u16 c) (wle16 (u16 (c >>> 16)) d first_cluster_hi_at) first_cluster_lo_at

-- The times of a new entry.
abbrev pub set_times : FatTime → Bytes → Bytes
set_times t d =
    wle16 t.date
      (wle16 t.time
        (wle16 t.date
          (update (wle16 t.time (wle16 t.date d create_date_at) create_time_at) create_time_tenth_at
            t.tenths)
          write_date_at)
        write_time_at)
      last_access_date_at

module _ {D : Type 0} (io : BlockIo D) (fsi : Info) where
  -- What fat32_read_fdentry and fat32_write_fdentry do with the cluster that they found.
  unfoldable pub read_at : ℕ → ℕ → M D Bytes
  read_at target place v =
      let bp = read_cluster io fsi v.disk target in
      if bp.failed then (err (buf_errno bp), v) else (ok (copy_out bp.bytes place), v)

  unfoldable pub write_at : Bytes → ℕ → ℕ → M D (Unit {0})
  write_at entry target place v =
      let bp = read_cluster io fsi v.disk target in
      if bp.failed then (err (buf_errno bp), v) else (
        ok tt,
        record v {
          disk =
              io.bdwrite v.disk (cluster_to_sector fsi target) fsi.sectors_per_cluster
                (copy_in entry place bp.bytes);
        },
      )

  -- fat32_read_fdentry
  unfoldable pub read_fdentry : ℕ → ℕ → M D Bytes
  read_fdentry dir_cluster offset = do
    target_cluster ← seek_cluster io fsi dir_cluster (skip_of fsi offset) no_flags
    read_at target_cluster (place_of fsi offset)

  -- fat32_write_fdentry
  unfoldable pub write_fdentry : ℕ → ℕ → Bytes → M D (Unit {0})
  write_fdentry dir_cluster offset entry = do
    target_cluster ← seek_cluster io fsi dir_cluster (skip_of fsi offset) no_flags
    write_at entry target_cluster (place_of fsi offset)

  -- The loop of fat32_write_lfn_fdentry, from entry `i` down to 1.
  unfoldable pub write_lfns : ℕ → ℕ → List ℕ → ℕ → ℕ → M D (Unit {0})
  write_lfns dir_cluster start_offset long_name sum zero = pure tt
  write_lfns dir_cluster start_offset long_name sum (suc i) = do
    write_fdentry dir_cluster (u32 (start_offset + (num_lfn long_name - suc i) * dentry_size))
        (lfn_entry long_name sum (suc i))
    write_lfns dir_cluster start_offset long_name sum i

  -- fat32_write_lfn_fdentry
  unfoldable pub write_lfn_fdentry : ℕ → ℕ → Bytes → List ℕ → M D (Unit {0})
  write_lfn_fdentry dir_cluster start_offset d83 long_name = do
    write_lfns dir_cluster start_offset long_name (checksum d83) (num_lfn long_name)
    write_fdentry dir_cluster (u32 (start_offset + num_lfn long_name * dentry_size)) d83

  -- The entry for `.` in fat32_init_dir, and what makes it the one for `..`.
  abbrev pub dot_entry : FatTime → ℕ → Bytes
  dot_entry t new_cluster = set_cluster new_cluster (
      set_times t
        (λ i. if i == 0 then dot else if ltb i 11 then space else if i == 11 then 0x10 else 0))

  abbrev pub dotdot_entry : FatTime → ℕ → ℕ → Bytes
  dotdot_entry t new_cluster parent_cluster =
      set_cluster (if parent_cluster == fsi.root_cluster then 0 else parent_cluster)
        (update (dot_entry t new_cluster) 1 dot)

  -- fat32_init_dir; `now` is what nanotime gives.
  unfoldable pub init_dir : Timespec → ℕ → ℕ → M D (Unit {0})
  init_dir now new_cluster parent_cluster =
      let written : FatTime → M D (Unit {0}) = λ t. do
        write_fdentry new_cluster 0 (dot_entry t new_cluster)
        write_fdentry new_cluster 32 (dotdot_entry t new_cluster parent_cluster)
      in do
        clear_cluster io fsi new_cluster
        elim (unix_to_fat_time now) [ none ↦ diverge | some t ↦ written t ]
