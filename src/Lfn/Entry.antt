-- ===== src/Lfn/Entry.antt =====
-- What stands in a long-name entry.
use fat.Shared.{ℕ, ◌+◌, ◌-◌, ◌*◌, ◌≡◌, refl, List, [], ◌∷◌, ◌==◌, if◌then◌else◌, u8, set_bit}
use fat.Bytes.{Bytes, rle16}
use fat.Lfn.{
  low_byte, high_byte, fill_chars, chunk_len_of, lfn_entry, char_offsets, num_lfn, last_bit,
}

-- Character `j` of a chunk, as the reader sees it.
abbrev pub char : List ℕ → ℕ → ℕ → ℕ → ℕ
char name start chunk j = low_byte name start chunk j + high_byte chunk j * 256

abbrev pub Holds : List ℕ → ℕ → ℕ → Bytes → ℕ → List ℕ → Type 0
Holds name start chunk e j [] = Unit
Holds name start chunk e j (o ∷ os) =
    (rle16 e o ≡ char name start chunk j) × Holds name start chunk e (j + 1) os

pub lfn_entry-Holds :
    (name : List ℕ) (checksum i : ℕ)
    → Holds name
        ((i - 1) * 13)
        (chunk_len_of name ((i - 1) * 13))
        (lfn_entry name checksum i)
        0
        char_offsets
unfolding fill_chars lfn_entry rle16
lfn_entry-Holds name checksum i = (
  refl,
  (
    refl,
    (refl, (refl, (refl, (refl, (refl, (refl, (refl, (refl, (refl, (refl, (refl, tt))))))))))),
  ),
)

pub lfn_entry-sequence :
    (name : List ℕ) (checksum i : ℕ)
    → lfn_entry name checksum i 0 ≡ (if i == num_lfn name then set_bit (u8 i) last_bit else u8 i)
unfolding fill_chars lfn_entry
lfn_entry-sequence name checksum i = refl
