-- ===== src/Lfn.antt =====
-- Long names: how fat32_write_lfn_fdentry (fat32_dir.c) lays thirteen characters out in an entry,
-- and how fat32_get_dirent (fat32_dir.c) collects them with fat32_set_dname (fat32_util.c). A name is
-- the list of its bytes, without the NUL; an entry is an array of 32 bytes.
pub mod Entry
pub mod RoundTrip
use fat.Shared.{
  ℕ, zero, suc, ◌+◌, ◌-◌, ◌*◌, ◌/◌, ◌%◌, ◌^◌, Bool, List, [], ◌∷◌, ltb, leb, ◌==◌, if◌then◌else◌,
  u8, u32, sub32, low_bits, test_bit, set_bit, get_or, length, update,
}
use fat.Bytes.{Bytes, rle16}

-- FAT32_ATTR_LONG_NAME
abbrev pub attr_long_name : ℕ
attr_long_name = 0x0f

-- FAT32_LFN_LAST, as a bit number, and the width of FAT32_LFN_SEQ_MASK.
abbrev pub last_bit : ℕ
last_bit = 6

abbrev pub seq_bits : ℕ
seq_bits = 5

-- FAT32_LFN_FILL
abbrev pub lfn_fill : ℕ
lfn_fill = 0xffff

abbrev pub num_lfn : List ℕ → ℕ
num_lfn long_name = (length long_name + 12) / 13

-- The three branches for character `j` of a chunk: its low and its high byte.
abbrev pub low_byte : List ℕ → ℕ → ℕ → ℕ → ℕ
low_byte long_name start_idx chunk_len j =
    if ltb j chunk_len
    then get_or long_name (start_idx + j) 0
    else if j == chunk_len
    then 0
    else 0xff

abbrev pub high_byte : ℕ → ℕ → ℕ
high_byte chunk_len j = if ltb j chunk_len then 0 else if j == chunk_len then 0 else 0xff

-- The loop over the characters of one name field: `left` of them from `j` on, at byte `at`.
unfoldable pub fill_chars : List ℕ → ℕ → ℕ → ℕ → ℕ → ℕ → Bytes → Bytes
fill_chars long_name start_idx chunk_len zero j at lfn = lfn
fill_chars long_name start_idx chunk_len (suc left) j at lfn =
    fill_chars long_name start_idx chunk_len left (j + 1) (at + 2) (
      update (update lfn at (low_byte long_name start_idx chunk_len j)) (at + 1)
        (high_byte chunk_len j))

abbrev pub chunk_len_of : List ℕ → ℕ → ℕ
chunk_len_of long_name start_idx =
    let chars_left = length long_name - start_idx in if ltb 13 chars_left then 13 else chars_left

-- Entry `i` of fat32_write_lfn_fdentry: i counts from 1.
unfoldable pub lfn_entry : List ℕ → ℕ → ℕ → Bytes
lfn_entry long_name checksum i =
    let start_idx = (i - 1) * 13 in
    let chunk_len = chunk_len_of long_name start_idx in
    let sequence = if i == num_lfn long_name then set_bit (u8 i) last_bit else u8 i in
    let header = update (update (update (λ _. 0) 11 attr_long_name) 13 checksum) 0 sequence in
    let name1 = fill_chars long_name start_idx chunk_len 5 0 1 header in
    let name2 = fill_chars long_name start_idx chunk_len 6 5 14 name1 in
    fill_chars long_name start_idx chunk_len 2 11 28 name2

-- The buffer for a name, and the bound that fat32_set_dname lowers.
pub record DName : Type 0 where
  pub d_name : Bytes
  pub name_size : ℕ

-- fat32_set_dname
unfoldable pub set_dname : ℕ → ℕ → DName → DName
set_dname pos s n =
    let c = if leb 128 s then b'?' else s in
    if leb n.name_size pos
    then n
    else if s == lfn_fill
    then n
    else record { d_name = update n.d_name pos c; name_size = if c == 0 then pos else n.name_size }

-- Where the characters stand in an entry: name1, name2, name3.
abbrev pub char_offsets : List ℕ
char_offsets = 1 ∷ 3 ∷ 5 ∷ 7 ∷ 9 ∷ 14 ∷ 16 ∷ 18 ∷ 20 ∷ 22 ∷ 24 ∷ 28 ∷ 30 ∷ []

-- The calls of fat32_set_dname for one entry.
unfoldable pub set_chars : List ℕ → ℕ → Bytes → DName → DName
set_chars [] pos lfn n = n
set_chars (o ∷ os) pos lfn n = set_chars os (u32 (pos + 1)) lfn (set_dname pos (rle16 lfn o) n)

-- The branch of fat32_get_dirent for a long-name entry; `d_name_size` is the size of the buffer.
unfoldable pub read_lfn : ℕ → Bytes → DName → DName
read_lfn d_name_size lfn n =
    let full_len = low_bits (lfn 0) seq_bits * 13 in
    let begun : DName =
      if test_bit (lfn 0) last_bit
      then (if ltb full_len d_name_size
          then record { d_name = update n.d_name full_len 0; name_size = full_len }
          else n)
      else n in
    set_chars char_offsets (u32 (sub32 (low_bits (lfn 0) seq_bits) 1 * 13)) lfn begun

-- The entries in the order of the disk, from number `i` down to 1.
unfoldable pub lfn_entries : List ℕ → ℕ → ℕ → List Bytes
lfn_entries long_name checksum zero = []
lfn_entries long_name checksum (suc i) =
    lfn_entry long_name checksum (suc i) ∷ lfn_entries long_name checksum i

unfoldable pub read_lfns : ℕ → List Bytes → DName → DName
read_lfns d_name_size [] n = n
read_lfns d_name_size (lfn ∷ lfns) n = read_lfns d_name_size lfns (read_lfn d_name_size lfn n)
