-- ===== src/ShortName.antt =====
-- Names of eight and three characters: fat32_name_is_short, fat32_checksum and
-- fat32_generate_short_name of fat32_util.c, the formatting of a short name in fat32_create_fdentry
-- and the reading of one in fat32_get_dirent (both of fat32_dir.c). A name is the list of its bytes,
-- without the NUL; the eleven bytes on disk are an array.
pub mod Format
pub mod Generated
use fat.Shared.{
  ℕ, zero, suc, ◌+◌, ◌-◌, ◌*◌, ◌/◌, ◌%◌, ◌^◌, Bool, true, false, not, ◌&&◌, ◌||◌, Option, none,
  some, List, [], ◌∷◌, ◌++◌, map, ltb, leb, ◌==◌, if◌then◌else◌, u8, ◌>>>◌, low_bits, get_or,
  length, update, bit_xor,
}
use fat.Bytes.{Bytes}

abbrev pub dot : ℕ
dot = b'.'

abbrev pub space : ℕ
space = b' '

-- The characters below 128 that a short name may hold.
unfoldable pub is_short_char : ℕ → Bool
is_short_char c =
    (leb b'A' c && leb c b'Z')
    || (leb b'0' c && leb c b'9')
    || c == b'$'
    || c == b'%'
    || c == b'\''
    || c == b'-'
    || c == b'_'
    || c == b'@'
    || c == b'~'
    || c == b'`'
    || c == b'!'
    || c == b'('
    || c == b')'
    || c == b'{'
    || c == b'}'
    || c == b'^'
    || c == b'#'
    || c == b'&'

-- The loop of fat32_name_is_short from index `i` on: `none` where it returns 0, else dot_pos.
unfoldable pub scan_short : List ℕ → ℕ → Option ℕ → Option (Option ℕ)
scan_short [] i dot_pos = some dot_pos
scan_short (c ∷ cs) i dot_pos =
    let rest = scan_short cs (i + 1) dot_pos in
    let after_dot = scan_short cs (i + 1) (some i) in
    if c == dot
    then elim dot_pos [ some p ↦ none | none ↦ after_dot ]
    else if leb b'a' c && leb c b'z'
    then none
    else if ltb c 128 && not (is_short_char c)
    then none
    else rest

-- The tests of the two lengths.
unfoldable pub lengths_fit : ℕ → Option ℕ → Bool
lengths_fit name_len none = not (ltb 8 name_len)
lengths_fit name_len (some base_len) =
    not (base_len == 0 || ltb 8 base_len)
    && not ((name_len - base_len - 1) == 0 || ltb 3 (name_len - base_len - 1))

-- `.` and `..`, and no other name that begins with a dot.
unfoldable pub is_dot_name : List ℕ → Bool
is_dot_name (c ∷ []) = c == dot
is_dot_name (c ∷ d ∷ []) = c == dot && d == dot
is_dot_name _ = false

-- fat32_name_is_short
unfoldable pub name_is_short : List ℕ → Bool
name_is_short name =
    let scanned : Bool = elim (scan_short name 0 none) [
      | none ↦ false
      | some dot_pos ↦ lengths_fit (length name) dot_pos
    ] in
    if get_or name 0 0 == dot
    then is_dot_name name
    else if ltb 12 (length name)
    then false
    else scanned

-- fat32_create_fdentry: eleven spaces, the base from 0 up to the first dot, the rest from 8.
unfoldable pub copy_at : List ℕ → ℕ → Bytes → Bytes
copy_at [] j d = d
copy_at (c ∷ cs) j d = copy_at cs (j + 1) (update d j c)

unfoldable pub before_dot : List ℕ → List ℕ
before_dot [] = []
before_dot (c ∷ cs) = if c == dot then [] else c ∷ before_dot cs

unfoldable pub after_dot : List ℕ → List ℕ
after_dot [] = []
after_dot (c ∷ cs) = if c == dot then cs else after_dot cs

unfoldable pub format_short : List ℕ → Bytes
format_short name = copy_at (after_dot name) 8 (copy_at (before_dot name) 0 (λ _. space))

-- fat32_get_dirent: `left` bytes from `i` on, up to the first space. The name buffer holds 255
-- characters and more, so that twelve always fit.
unfoldable pub until_space : ℕ → Bytes → ℕ → List ℕ
until_space zero d i = []
until_space (suc left) d i = if d i == space then [] else d i ∷ until_space left d (i + 1)

unfoldable pub read_short : Bytes → List ℕ
read_short d = until_space 8 d 0 ++ (if d 8 == space then [] else dot ∷ until_space 3 d 8)

-- The loop of fat32_checksum over `left` bytes from `i` on: a rotation to the right, plus the byte.
unfoldable pub checksum_loop : ℕ → Bytes → ℕ → ℕ → ℕ
checksum_loop zero name i sum = sum
checksum_loop (suc left) name i sum =
    checksum_loop left name (i + 1) (u8 (sum % 2 * 128 + sum / 2 + name i))

-- fat32_checksum
unfoldable pub checksum : Bytes → ℕ
checksum name = checksum_loop 11 name 0 0

abbrev pub hex_digits : List ℕ
hex_digits =
    b'0' ∷ b'1' ∷ b'2' ∷ b'3' ∷ b'4' ∷ b'5' ∷ b'6' ∷ b'7' ∷ b'8' ∷ b'9' ∷ b'A' ∷ b'B' ∷ b'C' ∷ b'D'
    ∷ b'E' ∷ b'F' ∷ []

-- c_nib[j] and o_nib[j]: seven nibbles, the highest first.
abbrev pub nibble : ℕ → ℕ → ℕ
nibble x j = low_bits (x >>> ((6 - j) * 4)) 4

unfoldable pub result_nibbles : ℕ → ℕ → List ℕ
result_nibbles c o =
    nibble c 0
    ∷ nibble c 1
    ∷ nibble c 2
    ∷ nibble c 3
    ∷ bit_xor (nibble c 4) (nibble o 0)
    ∷ bit_xor (nibble c 5) (nibble o 1)
    ∷ bit_xor (nibble c 6) (nibble o 2)
    ∷ nibble o 3
    ∷ nibble o 4
    ∷ nibble o 5
    ∷ nibble o 6
    ∷ []

-- fat32_generate_short_name
unfoldable pub generate_short_name : ℕ → ℕ → List ℕ
generate_short_name cluster offset =
    map (λ n. get_or hex_digits n 0) (result_nibbles cluster (offset / 32))
