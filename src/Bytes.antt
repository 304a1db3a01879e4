-- ===== src/Bytes.antt =====
-- The little-endian accessors of fat32.h: RLE16, WLE16, RLE32 and WLE32. A byte array is a function
-- of the index, and a pointer into it is an offset.
pub mod Laws
use fat.Shared.{ℕ, ◌+◌, ◌*◌, ◌^◌, u8, ◌>>>◌, update}

abbrev pub Bytes : Type 0
Bytes = ℕ → ℕ

unfoldable pub rle16 : Bytes → ℕ → ℕ
rle16 b o = b o + b (o + 1) * 2 ^ 8

unfoldable pub wle16 : ℕ → Bytes → ℕ → Bytes
wle16 val b o = update (update b o (u8 val)) (o + 1) (u8 (val >>> 8))

unfoldable pub rle32 : Bytes → ℕ → ℕ
rle32 b o = b o + b (o + 1) * 2 ^ 8 + b (o + 2) * 2 ^ 16 + b (o + 3) * 2 ^ 24

unfoldable pub wle32 : ℕ → Bytes → ℕ → Bytes
wle32 val b o =
    update
      (update (update (update b o (u8 val)) (o + 1) (u8 (val >>> 8))) (o + 2) (u8 (val >>> 16)))
      (o + 3) (u8 (val >>> 24))
