-- ===== src/Boot.antt =====
-- fat32_read_boot of fat32_vfs.c: where the file system starts on the device, and what its boot sector
-- and its FSInfo sector say. The fields of fat32_mbr_t, fat32_br_t and fat32_fsinfo_t are given by
-- their offsets in the sector. The files below hold what is proved of it.
pub mod Locate
pub mod Geometry
use fat.Shared.{
  ℕ, zero, suc, ◌+◌, ◌*◌, ◌/◌, Bool, ◌&&◌, ◌||◌, not, Option, none, some, ◌==◌, ltb, if◌then◌else◌,
  u32, sub32,
}
use fat.Bytes.{Bytes, rle16, rle32}
use fat.Device.{Buf, BlockIo, buf_errno}
use fat.Log2.{log2}
use fat.Fat.{Info, Ret, ok, err, stuck, einval}

abbrev pub sector_signature : ℕ
sector_signature = 0xaa55

-- signature, at the end of both kinds of sector
abbrev pub signature_at : ℕ
signature_at = 510

-- fat32_br_t
abbrev pub bytes_per_sector_at : ℕ
bytes_per_sector_at = 11

abbrev pub sectors_per_cluster_at : ℕ
sectors_per_cluster_at = 13

abbrev pub reserved_sectors_at : ℕ
reserved_sectors_at = 14

abbrev pub num_fats_at : ℕ
num_fats_at = 16

abbrev pub total_sectors_32_at : ℕ
total_sectors_32_at = 32

abbrev pub fat_size_32_at : ℕ
fat_size_32_at = 36

abbrev pub root_cluster_at : ℕ
root_cluster_at = 44

abbrev pub fs_info_at : ℕ
fs_info_at = 48

-- `fs_type` begins with the four characters that the driver compares.
abbrev pub is_fat32_type : Bytes → Bool
is_fat32_type b = (b 82 == b'F') && (b 83 == b'A') && (b 84 == b'T') && (b 85 == b'3')

-- fat32_mbr_partition_t: system_id and relative_sector of entry `i`.
abbrev pub system_id : Bytes → ℕ → ℕ
system_id b i = b (446 + 16 * i + 4)

abbrev pub relative_sector : Bytes → ℕ → ℕ
relative_sector b i = rle32 b (446 + 16 * i + 8)

abbrev pub is_fat32_id : ℕ → Bool
is_fat32_id x = (x == 0x0c) || (x == 0x0b)

-- The loop over the entries, with `left` = 4 - i.
unfoldable pub detect_partition : ℕ → ℕ → Bytes → Option ℕ
detect_partition zero i b = none
detect_partition (suc left) i b =
    let rest = detect_partition left (i + 1) b in
    if is_fat32_id (system_id b i) then some i else rest

-- part_to_use; `requested` is fsi_partition_num, `none` for -1.
unfoldable pub part_to_use : Option ℕ → Bytes → Option ℕ
unfolding detect_partition
part_to_use none b = detect_partition 4 0 b
part_to_use (some n) b = if ltb n 4 then some n else detect_partition 4 0 b

-- lead_signature, struct_signature and trail_signature of fat32_fsinfo_t.
abbrev pub is_fsinfo : Bytes → Bool
is_fsinfo b =
    (rle32 b 0 == 0x41615252) && (rle32 b 484 == 0x61417272) && (rle32 b 508 == 0xaa550000)

-- What a mount knows of the volume: the fields that stay, and the two that change.
pub record Found : Type 0 where
  pub info : Info
  pub free_count : ℕ
  pub next_free : ℕ

-- The parameters of the boot sector `b` of a partition that starts at `offset`. A division by zero has
-- no result in C, `stuck` here.
unfoldable pub boot_info : ℕ → Bytes → Ret Info
boot_info offset b =
    let bytes_per_sector = rle16 b bytes_per_sector_at in
    let sectors_per_cluster = b sectors_per_cluster_at in
    let reserved_sectors = rle16 b reserved_sectors_at in
    let num_fats = b num_fats_at in
    let fat_size = rle32 b fat_size_32_at in
    let total_sectors = rle32 b total_sectors_32_at in
    let bytes_per_cluster = u32 (bytes_per_sector * sectors_per_cluster) in
    let shift : ℕ → ℕ = λ n. elim (log2 n) [ some k ↦ k | none ↦ 0 ] in
    let data_start = u32 (reserved_sectors + u32 (num_fats * fat_size)) in
    if sectors_per_cluster == 0
    then stuck
    else ok (record {
      partition_offset = offset;
      fsinfo_sector = u32 (offset + rle16 b fs_info_at);
      fat_start = u32 (offset + reserved_sectors);
      bytes_per_sector = bytes_per_sector;
      sectors_per_cluster = sectors_per_cluster;
      bytes_per_cluster = bytes_per_cluster;
      reserved_sectors = reserved_sectors;
      sector_shift = shift bytes_per_sector;
      sector_mask = sub32 bytes_per_sector 1;
      cluster_shift = shift bytes_per_cluster;
      cluster_mask = sub32 bytes_per_cluster 1;
      spc_shift = shift sectors_per_cluster;
      num_fats = num_fats;
      fat_size = fat_size;
      root_cluster = rle32 b root_cluster_at;
      total_sectors = total_sectors;
      data_start = u32 (data_start + offset);
      cluster_count = sub32 total_sectors data_start / sectors_per_cluster;
    })

module _ {D : Type 0} (io : BlockIo D) where
  -- The partition `i` of the boot record `b`, and its boot sector.
  unfoldable pub open_partition : D → Bytes → ℕ → Ret (ℕ × Bytes)
  open_partition d b i =
      let offset = relative_sector b i in
      let bp = io.bread d offset 1 in
      if not (is_fat32_id (system_id b i))
      then err einval
      else if bp.failed
      then err (buf_errno bp)
      else ok (offset, bp.bytes)

  -- The first half of fat32_read_boot: fsi_partition_offset and the boot sector.
  unfoldable pub locate : D → Option ℕ → Ret (ℕ × Bytes)
  unfolding part_to_use open_partition
  locate d requested =
      let bp = io.bread d 0 1 in
      let b = bp.bytes in
      if bp.failed
      then err (buf_errno bp)
      else if not (rle16 b signature_at == sector_signature)
      then err einval
      else if is_fat32_type b
      then ok (0, b)
      else elim (part_to_use requested b) [ none ↦ err einval | some i ↦ open_partition d b i ]

  -- The FSInfo sector: fsi_free_count and fsi_next_free, all ones where it cannot be used.
  unfoldable pub read_fsinfo : D → ℕ → ℕ × ℕ
  read_fsinfo d sector =
      let bp = io.bread d sector 1 in
      let unknown : ℕ × ℕ = (0xffffffff, 0xffffffff) in
      if bp.failed
      then unknown
      else if not (is_fsinfo bp.bytes)
      then unknown
      else (rle32 bp.bytes 488, rle32 bp.bytes 492)

  -- The second half, with the boot sector at hand.
  unfoldable pub parse_boot : D → Ret (ℕ × Bytes) → Ret Found
  unfolding boot_info read_fsinfo
  parse_boot d (err e) = err e
  parse_boot d stuck = stuck
  parse_boot d (ok (offset, b)) =
      let with_counts : Info → Found = λ info.
        let counts = read_fsinfo d info.fsinfo_sector in
        record { info = info; free_count = counts.0; next_free = counts.1 } in
      if not (rle16 b signature_at == sector_signature)
      then err einval
      else elim (boot_info offset b) [
        | ok info ↦ ok (with_counts info)
        | err e ↦ err e
        | stuck ↦ stuck
      ]

  -- fat32_read_boot. A wrong boot_signature is only reported.
  unfoldable pub read_boot : D → Option ℕ → Ret Found
  unfolding locate parse_boot
  read_boot d requested = parse_boot d (locate d requested)
