-- ===== src/Ino.antt =====
-- fat32_pack_ino and fat32_unpack_ino of fat32_util.c: the place of a directory entry as an inode
-- number. A mask of consecutive low bits is a remainder; `|` joins fields that share no bit.
use Prim.Native.Nat.{bit_or}
use fat.Shared.{
  ℕ, ◌+◌, ◌*◌, ◌/◌, ◌%◌, ◌^◌, ◌<◌, ◌≡◌, arith, u32, u64, ◌<<<◌, ◌>>>◌, low_bits, ◌∙◌, ap,
}
use fat.Shared.Bits.{bit_or-disjoint}

-- The inode number of the entry whose first slot lies at byte `offset` of the directory.
unfoldable pub pack_ino : ℕ → ℕ → ℕ → ℕ
pack_ino dir_cluster offset num_slots =
    bit_or (bit_or (u64 (low_bits dir_cluster 28 <<< 36)) (u64 (low_bits (offset / 32) 28 <<< 8)))
      (low_bits num_slots 8)

-- The directory's cluster, the byte offset and the number of slots.
unfoldable pub unpack_ino : ℕ → ℕ × ℕ × ℕ
unpack_ino ino =
    (u32 (low_bits (ino >>> 36) 28), u32 (low_bits (ino >>> 8) 28 * 32), u32 (low_bits ino 8))

-- With no bit shared the fields are added up.
pub pack_ino-sum :
    (c o s : ℕ) → o < 2 ^ 32 → pack_ino c o s ≡ c % 2 ^ 28 * 2 ^ 36 + o / 32 * 2 ^ 8 + s % 2 ^ 8
unfolding pack_ino
pack_ino-sum c o s h =
    ap (λ x. bit_or x (s % 2 ^ 8)) high
    ∙ bit_or-disjoint 8 (c % 2 ^ 28 * 2 ^ 28 + o / 32) (s % 2 ^ 8) (omega arith)
    ∙ omega arith
  where
    high :
        bit_or (u64 (c % 2 ^ 28 * 2 ^ 36)) (u64 (o / 32 % 2 ^ 28 * 2 ^ 8))
        ≡ (c % 2 ^ 28 * 2 ^ 28 + o / 32) * 2 ^ 8
    high =
        ap (λ x. bit_or x (u64 (o / 32 % 2 ^ 28 * 2 ^ 8)))
          (let e : u64 (c % 2 ^ 28 * 2 ^ 36) ≡ c % 2 ^ 28 * 2 ^ 36 = omega arith in e)
        ∙ bit_or-disjoint 36 (c % 2 ^ 28) (u64 (o / 32 % 2 ^ 28 * 2 ^ 8)) (omega arith)
        ∙ omega arith

-- Packing the place of an entry and unpacking it gives the place back: a cluster of 28 bits, the
-- offset of a slot, and fewer than 256 slots.
pub unpack_ino-pack_ino :
    (c o s : ℕ)
    → c < 2 ^ 28
    → o < 2 ^ 32
    → o % 32 ≡ 0
    → s < 2 ^ 8
    → unpack_ino (pack_ino c o s) ≡ (c, o, s)
unfolding unpack_ino
unpack_ino-pack_ino c o s hc ho aligned hs = rw (pack_ino-sum c o s ho) (ground arith)
