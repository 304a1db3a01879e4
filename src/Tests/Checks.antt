-- ===== src/Tests/Checks.antt =====
-- The check of a directory, at the entries of a long name.
use fat.Shared.{◌+◌, ◌*◌, ◌≡◌, refl, false, [], ◌∷◌, arith, ℕ}
use fat.Bytes.{rle32}
use fat.ShortName.{checksum, checksum_loop}
use fat.Lfn.{num_lfn}
use fat.Dir.{dentry_size, copy_out}
use fat.Check.{Expected, broken, check_entries}
use fat.Check.Named.{IsProper, check_entries-Stand}
use fat.Tests.Nodes.{long_name}
use fat.Tests.Dirents.{short_entry, named_block, named_block-Stand}

code : Unit {0}
unfolding checksum checksum_loop rle32
code = tt

abbrev sum : ℕ
sum = checksum (short_entry (b'A' ∷ []))

abbrev start : Expected
start = record { in_lfn_sequence = false; lfn_seq = 0; lfn_checksum = 0 }

check_entries-Stand_example :
    (IsProper (copy_out (named_block sum) (0 + num_lfn long_name * 32)) sum
      → (y : Expected) × (check_entries (named_block sum) (num_lfn long_name + 14) 0 start
          ≡ check_entries (named_block sum) 13 (0 + num_lfn long_name * 32 + dentry_size) y)
        × (y.in_lfn_sequence ≡ false))
    × (¬ IsProper (copy_out (named_block sum) (0 + num_lfn long_name * 32)) sum
        → check_entries (named_block sum) (num_lfn long_name + 14) 0 start ≡ broken)
unfolding code
check_entries-Stand_example =
    check_entries-Stand long_name (named_block sum) sum 13 0 start (omega arith) (omega arith) refl
      (named_block-Stand sum) (omega arith, omega arith, omega arith, refl)
