-- ===== src/Tests/Boot.antt =====
-- The theorems on mounting, at a device whose second partition, from sector 3 on, is a FAT32 file system
-- with 12 clusters, and at options.
use fat.Shared.{
  ◌≢◌, ℕ, ◌+◌, ◌≡◌, refl, List, [], ◌∷◌, ◌==◌, if◌then◌else◌, arith, ℤ, pos, none, some, false,
  true, inr, All,
}
use fat.Bytes.{Bytes, rle16, rle32}
use fat.Fat.{ok}
use fat.Fat.Entry.{IsGeometry}
use fat.Boot.{locate, read_boot}
use fat.Boot.Geometry.{IsBootSector, IsAligned, Counts, layout, read_boot-layout}
use fat.Mount.{Kernel, mount, nothing}
use fat.Mount.Options.{parse_options}
use fat.Mount.Settings.{
  Setting, part, uid, other, gid, text, IsSetting, all_effects, written, parse_options-written,
}
use fat.Mount.References.{Balanced, mount-Balanced}
use fat.Tests.Disk.{Chunks, io}

code : Unit {0}
unfolding rle16 rle32 locate read_boot
code = tt

-- A sector from its bytes that are not 0.
abbrev sector : List (ℕ × ℕ) → Bytes
sector [] i = 0
sector ((j, b) ∷ rest) i = if i == j then b else sector rest i

abbrev boot_record : Bytes
boot_record = sector ((466, 0x0c) ∷ (470, 3) ∷ (510, 0x55) ∷ (511, 0xaa) ∷ [])

abbrev boot_sector : Bytes
boot_sector = sector (
    (12, 2)
    ∷ (13, 1)
    ∷ (14, 2)
    ∷ (16, 2)
    ∷ (32, 16)
    ∷ (36, 1)
    ∷ (44, 2)
    ∷ (48, 1)
    ∷ (82, b'F')
    ∷ (83, b'A')
    ∷ (84, b'T')
    ∷ (85, b'3')
    ∷ (510, 0x55)
    ∷ (511, 0xaa)
    ∷ [])

abbrev device : Chunks
device s n = if s == 0 then boot_record else if s == 3 then boot_sector else (λ _. 0)

found : locate io device none ≡ ok (3, boot_sector)
unfolding code
found = refl

boot_sector-IsBootSector : IsBootSector 3 0 boot_sector
unfolding code
boot_sector-IsBootSector = record {
  signed = refl;
  sector = refl;
  cluster = refl;
  small = omega arith;
  copies = omega arith;
  info_inside = omega arith;
  room = omega arith;
  ends = omega arith;
  few = omega arith;
  fits = omega arith;
}

read_boot-layout_example :
    (free_count : ℕ) × (next_free : ℕ) × (read_boot io device none
      ≡ ok (record {
        info = layout 3 0 boot_sector;
        free_count = free_count;
        next_free = next_free;
      }))
    × Counts io device (3 + rle16 boot_sector 48) free_count next_free
    × IsGeometry (layout 3 0 boot_sector)
    × IsAligned (layout 3 0 boot_sector)
read_boot-layout_example =
    read_boot-layout 3 0 boot_sector boot_sector-IsBootSector io device none found

-- A decimal digit.
abbrev digit : List ℕ → ℤ
digit [] = pos 0
digit (c ∷ cs) = pos (c + 0)

abbrev options : List Setting
options = part (1 ∷ []) ∷ other (b'x' ∷ []) ∷ uid (9 ∷ []) ∷ []

options-IsSetting : All IsSetting options
options-IsSetting = (
  (omega arith, tt),
  (
    ((omega arith, tt), λ n. ((λ e. no_part n e), (λ e. no_uid n e), (λ e. no_gid n e))),
    ((omega arith, tt), tt),
  ),
)
  where
    no_part : (n : List ℕ) → (b'x' ∷ []) ≢ text (part n)
    no_part n e = ground arith

    no_uid : (n : List ℕ) → (b'x' ∷ []) ≢ text (uid n)
    no_uid n e = ground arith

    no_gid : (n : List ℕ) → (b'x' ∷ []) ≢ text (gid n)
    no_gid n e = ground arith

parse_options-written_example :
    parse_options digit (written options)
    ≡ all_effects digit options
        (record { partition_num = none; owner = record { fsi_uid = 0; fsi_gid = 0 } })
parse_options-written_example = parse_options-written digit options options-IsSetting

abbrev kernel : Kernel
kernel = record {
  atoi = digit;
  dataptr = some (some (written options));
  lookupname = inr (record { is_block = true; v_rdev = 5 });
  vfs_devsearch = λ d. false;
  fsi_allocated = true;
  fv_allocated = true;
  vnode_allocated = true;
}

mount-Balanced_example : Balanced io kernel device nothing (mount io kernel device nothing)
mount-Balanced_example = mount-Balanced io kernel device nothing
