-- ===== src/Boot/Locate.antt =====
-- Which boot sector a mount takes.
use fat.Shared.{ℕ, ◌≤◌, ◌<◌, ◌≡◌, ◌≢◌, ◌⊎◌, true, false, Option, none, some}
use fat.Bytes.{Bytes, rle16}
use fat.Device.{BlockIo}
use fat.Fat.{Ret, ok, err, stuck, einval}
use fat.Boot.{
  sector_signature, signature_at, is_fat32_type, system_id, relative_sector, is_fat32_id,
}

-- Entry `i` is marked as a FAT32 partition.
abbrev pub Marked : Bytes → ℕ → Type 0
Marked b i = is_fat32_id (system_id b i) ≡ true

-- What looking for a marked entry from `i` up to below `n` finds: the first one.
abbrev FirstMarked : Bytes → ℕ → ℕ → Option ℕ → Type 0
FirstMarked b i n none = (j : ℕ) → i ≤ j → j < n → ¬ Marked b j
FirstMarked b i n (some k) =
    (i ≤ k) × (k < n) × Marked b k × ((j : ℕ) → i ≤ j → j < k → ¬ Marked b j)

-- The entry that a mount is to take from the partition table `b`: the requested one if its number is
-- below 4 and it is marked, and else the first of the four that is marked.
abbrev pub Chosen : Bytes → Option ℕ → ℕ → Type 0
Chosen b none k = (k < 4) × Marked b k × ((j : ℕ) → j < k → ¬ Marked b j)
Chosen b (some n) k =
    (k < 4) × Marked b k × (((n < 4) × (k ≡ n)) ⊎ ((4 ≤ n) × ((j : ℕ) → j < k → ¬ Marked b j)))

module _ {D : Type 0} (io : BlockIo D) where
  -- What the search for the boot sector on the device `d` answers.
  abbrev pub Located : D → Option ℕ → Ret (ℕ × Bytes) → Type 0
  Located d requested (ok (offset, b)) =
      ((rle16 (io.bread d 0 1).bytes signature_at ≡ sector_signature)
        × (b ≡ (io.bread d offset 1).bytes))
      × (((offset ≡ 0) × (is_fat32_type (io.bread d 0 1).bytes ≡ true))
          ⊎ ((is_fat32_type (io.bread d 0 1).bytes ≡ false)
              × ((k : ℕ) × Chosen (io.bread d 0 1).bytes requested k
                  × (offset ≡ relative_sector (io.bread d 0 1).bytes k))))
  Located d requested (err e) =
      (e ≡ einval)
      × ((rle16 (io.bread d 0 1).bytes signature_at ≢ sector_signature)
          ⊎ ((is_fat32_type (io.bread d 0 1).bytes ≡ false)
              × ((k : ℕ) → ¬ Chosen (io.bread d 0 1).bytes requested k)))
  Located d requested stuck = ⊥
