-- ===== src/Tests/Util.antt =====
-- Tests of the functions of fat32_util.c, and their theorems at concrete inputs.
use fat.Shared.{◌≢◌, ℕ, ◌≡◌, refl, some, List, [], ◌∷◌, arith, ◌+◌, ◌/◌, ◌*◌, u16, u32}
use fat.Bytes.{rle16, wle16, rle32, wle32}
use fat.Bytes.Laws.{rle-wle}
use fat.Ino.{pack_ino, unpack_ino, unpack_ino-pack_ino}
use fat.Time.{
  Timespec, FatTime, is_leap, days_in_year, dim, find_year, find_month, pack_date, pack_time,
  unix_to_fat_time, add_years, add_months, fat_to_unix_time,
}
use fat.Time.RoundTrip.{fat_to_unix_time-unix_to_fat_time}
use fat.ShortName.{
  is_short_char, scan_short, lengths_fit, is_dot_name, name_is_short, copy_at, before_dot,
  after_dot, format_short, until_space, read_short, checksum_loop, checksum, result_nibbles,
  generate_short_name,
}
use fat.ShortName.Format.{read_short-format_short}
use fat.ShortName.Generated.{generate_short_name_inj}

code : Unit {0}
unfolding is_leap days_in_year dim find_year find_month pack_date pack_time unix_to_fat_time
    add_years add_months fat_to_unix_time is_short_char scan_short lengths_fit is_dot_name
    name_is_short copy_at before_dot after_dot format_short until_space read_short checksum_loop
    checksum result_nibbles generate_short_name
code = tt

abbrev readme : List ℕ
readme = b'R' ∷ b'E' ∷ b'A' ∷ b'D' ∷ b'M' ∷ b'E' ∷ b'.' ∷ b'M' ∷ b'D' ∷ []

abbrev leap_second : Timespec
leap_second = record { tv_sec = 951782401; tv_nsec = 30000000 }

-- 2000-02-29, 00:00:01.03
leap_run :
    unix_to_fat_time leap_second
    ≡ some (record { date = 20 * 512 + 2 * 32 + 29; time = 0; tenths = 103 })
unfolding code
leap_run = refl

generated_run :
    generate_short_name 0x123 0x40
    ≡ b'0' ∷ b'0' ∷ b'0' ∷ b'0' ∷ b'1' ∷ b'2' ∷ b'3' ∷ b'0' ∷ b'0' ∷ b'0' ∷ b'2' ∷ []
unfolding code
generated_run = refl

checksum_run : checksum (format_short readme) ≡ 0xf3
unfolding code
checksum_run = refl

rle-wle_example :
    (rle16 (wle16 0x12345 (λ _. 7) 4) 4 ≡ u16 0x12345)
    × (rle32 (wle32 0x12345 (λ _. 7) 4) 4 ≡ u32 0x12345)
rle-wle_example = rle-wle (λ _. 7) 4 0x12345 0x12345

unpack_ino-pack_ino_example : unpack_ino (pack_ino 5 96 3) ≡ (5, 96, 3)
unpack_ino-pack_ino_example =
    unpack_ino-pack_ino 5 96 3 (omega arith) (omega arith) refl (omega arith)

fat_to_unix_time-unix_to_fat_time_example :
    (t : FatTime) × (unix_to_fat_time leap_second ≡ some t)
    × (fat_to_unix_time t.date t.time t.tenths
        ≡ record { tv_sec = 951782401; tv_nsec = 30000000 / 10000000 * 10000000 })
fat_to_unix_time-unix_to_fat_time_example =
    fat_to_unix_time-unix_to_fat_time leap_second (omega arith) (omega arith) (omega arith)

read_short-format_short_example :
    (read_short (format_short readme) ≡ readme)
    × (format_short readme 0 ≢ 0xe5)
    × (format_short readme 0 ≢ 0)
unfolding code
read_short-format_short_example =
    read_short-format_short readme refl (omega arith) (omega arith) (omega arith)

generate_short_name_inj_example : 0x40 / 32 ≡ 0x5f / 32
unfolding code
generate_short_name_inj_example =
    generate_short_name_inj 0x123 0x40 0x5f (omega arith) (omega arith) refl
