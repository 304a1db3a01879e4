-- ===== src/Fat.antt =====
-- Access to single entries of the file allocation table, `fat32_rmw_cluster` of fat32_cls.c, with
-- the state and the error results that the other components share. Locks and log messages have no
-- counterpart: an operation runs alone, as the driver's locks make it.
pub mod Copies
pub mod Entry
use fat.Shared.{
  ℕ, zero, suc, ◌+◌, ◌-◌, ◌*◌, ◌%◌, ◌^◌, Bool, true, false, ◌||◌, Option, none, some, bit_and, ltb,
  if◌then◌else◌, u32, ◌>>>◌,
}
use fat.Bytes.{Bytes, rle32, wle32}
use fat.Device.{Buf, BlockIo, buf_errno}

abbrev pub einval : ℕ
einval = 22

abbrev pub enospc : ℕ
enospc = 28

abbrev pub cluster_free : ℕ
cluster_free = 0

abbrev pub cluster_min : ℕ
cluster_min = 2

abbrev pub cluster_bad : ℕ
cluster_bad = 0x0ffffff7

abbrev pub cluster_eoc_min : ℕ
cluster_eoc_min = 0x0ffffff8

abbrev pub cluster_eoc : ℕ
cluster_eoc = 0x0fffffff

-- The fields of fat32fs_info_t that mounting sets and nothing changes afterwards.
pub record Info : Type 0 where
  pub partition_offset : ℕ
  pub fsinfo_sector : ℕ
  pub fat_start : ℕ
  pub bytes_per_sector : ℕ
  pub sectors_per_cluster : ℕ
  pub bytes_per_cluster : ℕ
  pub reserved_sectors : ℕ
  pub sector_shift : ℕ
  pub sector_mask : ℕ
  pub cluster_shift : ℕ
  pub cluster_mask : ℕ
  pub spc_shift : ℕ
  pub num_fats : ℕ
  pub fat_size : ℕ
  pub root_cluster : ℕ
  pub total_sectors : ℕ
  pub data_start : ℕ
  pub cluster_count : ℕ

-- The state of a mounted volume: the device, and the two cached FSInfo fields.
pub record Volume (D : Type 0) : Type 0 where
  pub disk : D
  pub free_count : ℕ
  pub next_free : ℕ

-- What a function returns: 0 with its output, an error number, or `stuck` where a loop of the model
-- ran out of fuel.
pub data Ret {ℓ} (A : Type ℓ) : Type ℓ where
  ok : A → Ret A
  err : ℕ → Ret A
  stuck : Ret A

abbrev pub M : Type 0 → Type 0 → Type 0
M D A = Volume D → Ret A × Volume D

abbrev pub pure : {D A : Type 0} → A → M D A
pure a v = (ok a, v)

abbrev pub fail : {D A : Type 0} → ℕ → M D A
fail e v = (err e, v)

abbrev pub diverge : {D A : Type 0} → M D A
diverge v = (stuck, v)

abbrev pub and_then : {D A B : Type 0} → Ret A × Volume D → (A → M D B) → Ret B × Volume D
and_then (ok a, v) f = f a v
and_then (err e, v) f = (err e, v)
and_then (stuck, v) f = (stuck, v)

infixl 5 ◌>>=◌ ◌>>◌
abbrev pub ◌>>=◌ : {D A B : Type 0} → M D A → (A → M D B) → M D B
◌>>=◌ m f v = and_then (m v) f

abbrev pub ◌>>◌ : {D B : Type 0} → M D (Unit {0}) → M D B → M D B
m >> k = m >>= λ _. k

-- `if (error) { ...; return error; }` with the cleanup `h`, whose own result is dropped.
abbrev pub after_error : {D A B : Type 0} → Ret A × Volume D → M D B → Ret A × Volume D
after_error (ok a, v) h = (ok a, v)
after_error (err e, v) h = (err e, (h v).1)
after_error (stuck, v) h = (stuck, v)

module _ {D : Type 0} (io : BlockIo D) (fsi : Info) where
  -- The loop over the copies, with `left` = fsi_num_fats - fat_num. The first copy's buffer has been
  -- read before; the others are read here.
  unfoldable pub write_copies : ℕ → ℕ → ℕ → Option Buf → ℕ → M D (Unit {0})
  write_copies new entry_offset zero bp0 fat_sector v = (ok tt, v)
  write_copies new entry_offset (suc left) bp0 fat_sector v =
      let bp : Buf = elim bp0 [ some b ↦ b | none ↦ io.bread v.disk fat_sector 1 ] in
      let bytes = wle32 new bp.bytes entry_offset in
      let v' : Volume D = record v { disk = io.bdwrite v.disk fat_sector 1 bytes } in
      let rest = write_copies new entry_offset left none (u32 (fat_sector + fsi.fat_size)) v' in
      if bp.failed then (err (buf_errno bp), v) else rest

  -- fat32_rmw_cluster: the old value is the result.
  unfoldable pub rmw_cluster : ℕ → Option ℕ → M D ℕ
  unfolding write_copies
  rmw_cluster cluster new_value v =
      let fat_offset = u32 (cluster * 4) in
      let fat_sector = u32 (fsi.fat_start + (fat_offset >>> fsi.sector_shift)) in
      let entry_offset = bit_and fat_offset fsi.sector_mask in
      let bp = io.bread v.disk fat_sector 1 in
      let value = rle32 bp.bytes entry_offset % 2 ^ 28 in
      let written : M D ℕ = elim new_value [
        | none ↦ pure value
        | some new ↦ do write_copies new entry_offset fsi.num_fats (some bp) fat_sector; pure value
      ] in
      if ltb cluster cluster_min || ltb (u32 (fsi.cluster_count + 1)) cluster
      then (err einval, v)
      else if bp.failed
      then (err (buf_errno bp), v)
      else written v
