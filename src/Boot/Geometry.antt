-- ===== src/Boot/Geometry.antt =====
-- The layout that a boot sector describes, without wrap-around, and that mounting finds it.
use fat.Shared.{
  true, false, ◌⊎◌, inl, inr, ◌↔◌, Bool-cases, ℕ, zero, suc, ◌+◌, ◌-◌, ◌*◌, ◌/◌, ◌^◌, ◌≤◌, ◌<◌, ◌≡◌,
  refl, ap, false, Option, some, arith, u32, sub32, ◌==◌, ==_true,
}
use fat.Shared.Bits.{pow_pos}
use native.Mathlib.Nat.{pow-succ', pow-le-pow_right, div-mul-le_self}
use fat.Bytes.{Bytes, rle16, rle32}
use fat.Device.{BlockIo}
use fat.Log2.{log2, log2_lem}
use fat.Fat.{Info, ok, cluster_bad}
use fat.Fat.Entry.{IsGeometry}
use fat.Boot.{
  is_fsinfo, sector_signature, signature_at, bytes_per_sector_at, sectors_per_cluster_at,
  reserved_sectors_at, num_fats_at, total_sectors_32_at, fat_size_32_at, root_cluster_at,
  fs_info_at, boot_info, locate, parse_boot, read_boot, read_fsinfo,
}

-- The sectors before the first cluster, counted from the start of the partition.
abbrev pub system_sectors : Bytes → ℕ
system_sectors b = rle16 b reserved_sectors_at + b num_fats_at * rle32 b fat_size_32_at

-- The clusters that the boot sector describes, of 2 ^ k sectors each.
abbrev pub clusters : ℕ → Bytes → ℕ
clusters k b = (rle32 b total_sectors_32_at - system_sectors b) / 2 ^ k

-- A boot sector of a partition at `offset`, as the FAT32 specification asks for: sectors of 512 bytes,
-- clusters of 2 ^ k sectors, 64 KB at most, a table with an entry for each cluster, the FSInfo sector
-- among the reserved ones, and sector numbers that stay below 2 ^ 32.
pub record IsBootSector (offset k : ℕ) (b : Bytes) : Type 0 where
  pub signed : rle16 b signature_at ≡ sector_signature
  pub sector : rle16 b bytes_per_sector_at ≡ 512
  pub cluster : b sectors_per_cluster_at ≡ 2 ^ k
  pub small : k < 8
  pub copies : 1 ≤ b num_fats_at
  pub info_inside : rle16 b fs_info_at < rle16 b reserved_sectors_at
  pub room : system_sectors b ≤ rle32 b total_sectors_32_at
  pub ends : offset + rle32 b total_sectors_32_at + rle32 b fat_size_32_at + 2 ^ k < 2 ^ 32
  pub few : clusters k b + 1 < cluster_bad
  pub fits : (clusters k b + 2) * 4 ≤ rle32 b fat_size_32_at * 512

-- Clusters of a power of two bytes, with the shift and the mask for it.
pub record IsAligned (fsi : Info) : Type 0 where
  pub size : fsi.bytes_per_cluster ≡ 2 ^ fsi.cluster_shift
  pub blocks : fsi.bytes_per_cluster ≡ fsi.sectors_per_cluster * 512
  pub mask : fsi.cluster_mask ≡ 2 ^ fsi.cluster_shift - 1
  pub small : fsi.bytes_per_cluster < 2 ^ 32

-- A sector with the three signatures of an FSInfo sector.
abbrev pub IsSigned : Bytes → Type 0
IsSigned f = (rle32 f 0 ≡ 0x41615252) × (rle32 f 484 ≡ 0x61417272) × (rle32 f 508 ≡ 0xaa550000)

-- The free count and the hint that the sector `at` gives.
abbrev pub Counts : {D : Type 0} → BlockIo D → D → ℕ → ℕ → ℕ → Type 0
Counts io d at free_count next_free =
    let bp = io.bread d at 1 in
    (((bp.failed ≡ false) × IsSigned bp.bytes)
      × (free_count ≡ rle32 bp.bytes 488)
      × (next_free ≡ rle32 bp.bytes 492))
    ⊎ (¬ ((bp.failed ≡ false) × IsSigned bp.bytes)
        × (free_count ≡ 0xffffffff)
        × (next_free ≡ 0xffffffff))

signatures : (f : Bytes) → (is_fsinfo f ≡ true) ↔ IsSigned f
signatures f = (λ p. ground arith, λ p. ground arith)

read_fsinfo-Counts :
    {D : Type 0} (io : BlockIo D) (d : D) (at : ℕ)
    → Counts io d at (read_fsinfo io d at).0 (read_fsinfo io d at).1
unfolding read_fsinfo
read_fsinfo-Counts io d at = elim (Bool-cases (io.bread d at 1).failed) [
  | inl p ↦ rw p (inr ((λ q. cc), refl, refl))
  | inr p ↦ elim (Bool-cases (is_fsinfo (io.bread d at 1).bytes)) [
    | inl q ↦ rw (p, q) (inl ((refl, (signatures (io.bread d at 1).bytes).0 q), refl, refl))
    | inr q ↦
        rw (p, q)
          (inr ((λ s. let t = (signatures (io.bread d at 1).bytes).1 s.1 in cc), refl, refl))
  ]
]

-- The layout that the boot sector `b` of a partition at `offset` describes.
abbrev pub layout : ℕ → ℕ → Bytes → Info
layout offset k b = record {
  partition_offset = offset;
  fsinfo_sector = offset + rle16 b fs_info_at;
  fat_start = offset + rle16 b reserved_sectors_at;
  bytes_per_sector = 512;
  sectors_per_cluster = 2 ^ k;
  bytes_per_cluster = 2 ^ (9 + k);
  reserved_sectors = rle16 b reserved_sectors_at;
  sector_shift = 9;
  sector_mask = 511;
  cluster_shift = 9 + k;
  cluster_mask = 2 ^ (9 + k) - 1;
  spc_shift = k;
  num_fats = b num_fats_at;
  fat_size = rle32 b fat_size_32_at;
  root_cluster = rle32 b root_cluster_at;
  total_sectors = rle32 b total_sectors_32_at;
  data_start = offset + system_sectors b;
  cluster_count = clusters k b;
}

-- 2 ^ (9 + k), in the form that arithmetic reads.
pow9 : (k : ℕ) → 2 ^ (9 + k) ≡ 512 * 2 ^ k
pow9 zero = refl
pow9 (suc k) =
    let e : 9 + suc k ≡ suc (9 + k) = omega arith in
    rw (e, pow-succ' 2 (9 + k), pow-succ' 2 k) (omega (arith, pow9 k))

small_pow : (k : ℕ) → k < 8 → 2 ^ k < 256
small_pow k h = omega (arith, pow-le-pow_right {n = 2} (omega arith) {i = k} {j = 7} (omega arith))

log2_pow : (k : ℕ) → k < 32 → 2 ^ k < 2 ^ 32 → log2 (2 ^ k) ≡ some k
log2_pow k h b = log2_lem (2 ^ k) k b h (omega arith) (omega (arith, pow-succ' 2 k, pow_pos k))

module _ (offset k : ℕ) (b : Bytes) (boot : IsBootSector offset k b) where
  boot_info-layout : boot_info offset b ≡ ok (layout offset k b)
  unfolding boot_info
  boot_info-layout = rw (
    boot.cluster,
    boot.sector,
    not_zero,
    bytes,
    log2_pow 9 (omega arith) (omega arith),
    log2_pow (9 + k) (omega (arith, boot.small))
        (rw (pow9 k) (omega (arith, small_pow k boot.small))),
    log2_pow k (omega (arith, boot.small)) (omega (arith, small_pow k boot.small)),
    mask,
    fsinfo,
    fat,
    start,
    first,
    count,
  )
    where
      not_zero : (2 ^ k == 0) ≡ false
      not_zero = ground (arith, pow_pos k)

      bytes : u32 (512 * 2 ^ k) ≡ 2 ^ (9 + k)
      bytes = omega (arith, pow9 k, small_pow k boot.small)

      mask : sub32 (2 ^ (9 + k)) 1 ≡ 2 ^ (9 + k) - 1
      mask = omega (arith, pow9 k, small_pow k boot.small, pow_pos k)

      fsinfo : u32 (offset + rle16 b fs_info_at) ≡ offset + rle16 b fs_info_at
      fsinfo = omega (arith, boot.room, boot.ends, boot.info_inside)

      fat : u32 (offset + rle16 b reserved_sectors_at) ≡ offset + rle16 b reserved_sectors_at
      fat = omega (arith, boot.room, boot.ends)

      start :
          u32 (rle16 b reserved_sectors_at + u32 (b num_fats_at * rle32 b fat_size_32_at))
          ≡ system_sectors b
      start = omega (arith, boot.room, boot.ends)

      first : u32 (system_sectors b + offset) ≡ offset + system_sectors b
      first = omega (arith, boot.room, boot.ends)

      count : sub32 (rle32 b total_sectors_32_at) (system_sectors b) / 2 ^ k ≡ clusters k b
      count = ap (λ x. x / 2 ^ k) (omega (arith, boot.room, boot.ends))

  layout-IsGeometry : IsGeometry (layout offset k b)
  layout-IsGeometry = record {
    shift = refl;
    mask = refl;
    clusters = boot.few;
    fits = boot.fits;
    copies = boot.copies;
    bound = omega (arith, boot.room, boot.ends);
    info_before = omega (arith, boot.info_inside);
    data_after = omega arith;
    cluster_blocks = refl;
    data_bound = last;
  }
    where
      last : offset + system_sectors b + (clusters k b + 1) * 2 ^ k < 2 ^ 32
      last =
          let parts : (clusters k b + 1) * 2 ^ k ≡ clusters k b * 2 ^ k + 2 ^ k = grind arith in
          omega (
            arith,
            boot.room,
            boot.ends,
            div-mul-le_self (rle32 b total_sectors_32_at - system_sectors b) (2 ^ k),
          )

  layout-IsAligned : IsAligned (layout offset k b)
  layout-IsAligned = record {
    size = refl;
    blocks = rw (pow9 k) (omega arith);
    mask = refl;
    small = rw (pow9 k) (omega (arith, small_pow k boot.small));
  }

  -- Where the search for a boot sector gives one that describes clusters of 2 ^ k sectors as the FAT32
  -- specification asks for, mounting succeeds, with just the layout that the sector describes, and
  -- that layout is one on which no sector number wraps around and the table, the FSInfo sector and
  -- the clusters do not overlap. The free count and the hint are the 32-bit numbers at 488 and at 492
  -- of the FSInfo sector; where that cannot be read, or lacks a signature at 0, 484 or 508, both are
  -- 0xffffffff, unknown.
  pub read_boot-layout :
      {D : Type 0} (io : BlockIo D) (d : D) (requested : Option ℕ)
      → locate io d requested ≡ ok (offset, b)
      → (free_count : ℕ) × (next_free : ℕ) × (read_boot io d requested
          ≡ ok
              (record { info = layout offset k b; free_count = free_count; next_free = next_free }))
        × Counts io d (offset + rle16 b fs_info_at) free_count next_free
        × IsGeometry (layout offset k b)
        × IsAligned (layout offset k b)
  unfolding read_boot parse_boot
  read_boot-layout io d requested found = (
    (read_fsinfo io d (offset + rle16 b fs_info_at)).0,
    (read_fsinfo io d (offset + rle16 b fs_info_at)).1,
    rw (found, ==_true boot.signed, boot_info-layout),
    read_fsinfo-Counts io d (offset + rle16 b fs_info_at),
    layout-IsGeometry,
    layout-IsAligned,
  )
