-- ===== src/Bytes/Laws.antt =====
-- Round trips and frames of the little-endian accessors.
use fat.Shared.{ℕ, ◌+◌, ◌≤◌, ◌<◌, ◌≡◌, ◌⊎◌, arith, u16, u32}
use fat.Bytes.{Bytes, rle16, wle16, rle32, wle32}

-- Whatever the array held, reading back a 16-bit field that was written gives the value modulo
-- 2 ^ 16, and a 32-bit field the value modulo 2 ^ 32.
pub rle-wle :
    (b : Bytes) (o x y : ℕ) → (rle16 (wle16 x b o) o ≡ u16 x) × (rle32 (wle32 y b o) o ≡ u32 y)
unfolding rle16 wle16 rle32 wle32
rle-wle b o x y = (ground arith, ground arith)

pub wle32-frame : (b : Bytes) (o x i : ℕ) → (i < o) ⊎ (o + 4 ≤ i) → wle32 x b o i ≡ b i
unfolding wle32
wle32-frame b o x i h = ground arith

pub wle16-frame : (b : Bytes) (o x i : ℕ) → (i < o) ⊎ (o + 2 ≤ i) → wle16 x b o i ≡ b i
unfolding wle16
wle16-frame b o x i h = ground arith

-- A 32-bit read sees four bytes.
pub rle32-cong :
    (a b : Bytes) (o : ℕ)
    → a o ≡ b o
    → a (o + 1) ≡ b (o + 1)
    → a (o + 2) ≡ b (o + 2)
    → a (o + 3) ≡ b (o + 3)
    → rle32 a o ≡ rle32 b o
unfolding rle32
rle32-cong a b o p q r s = omega arith

pub rle32-wle32_other :
    (b : Bytes) (o x p : ℕ) → (p + 4 ≤ o) ⊎ (o + 4 ≤ p) → rle32 (wle32 x b o) p ≡ rle32 b p
unfolding rle32
rle32-wle32_other b o x p h = ground (
  arith,
  wle32-frame b o x p,
  wle32-frame b o x (p + 1),
  wle32-frame b o x (p + 2),
  wle32-frame b o x (p + 3),
)
