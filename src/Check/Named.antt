-- ===== src/Check/Named.antt =====
-- The entries of a name, as the driver lays them out, pass the check of a directory.
use fat.Shared.{
  ℕ, zero, suc, ◌+◌, ◌*◌, ◌%◌, some, none, ◌≤◌, ◌<◌, ◌≡◌, ◌≢◌, inl, inr, Bool-cases, refl, ◌∙◌,
  true, false, ◌==◌, ==_true, ==_false, arith, length, test_bit, low_bits, List,
}
use native.Mathlib.Decide.{ℕ_discrete}
use fat.Bytes.{Bytes, rle32}
use fat.ShortName.{checksum}
use fat.Lfn.{lfn_entry, lfn_entries, num_lfn, attr_long_name, last_bit, fill_chars}
use fat.Lfn.Entry.{lfn_entry-sequence}
use fat.Dir.{attr_at, file_size_at, dentry_size, copy_out}
use fat.Dir.Dirent.{directory_bit}
use fat.Dir.Named.{Stand, IsShortEntry}
use fat.Check.{Expected, broken, at_rest, check_entry, check_entries}

-- The fields of an entry of a long name that the check reads.
fields :
    (name : List ℕ) (sum i : ℕ)
    → (lfn_entry name sum i attr_at ≡ attr_long_name) × (lfn_entry name sum i 13 ≡ sum)
unfolding lfn_entry fill_chars
fields name sum i = (refl, refl)

sequence :
    (name : List ℕ) (sum i : ℕ)
    → length name < 256
    → 0 < i
    → i ≤ num_lfn name
    → (lfn_entry name sum i 0 ≢ 0)
      × (lfn_entry name sum i 0 ≢ 0xe5)
      × (low_bits (lfn_entry name sum i 0) 5 ≡ i)
      × (test_bit (lfn_entry name sum i 0) last_bit ≡ (i == num_lfn name))
sequence name sum i short p le = elim (ℕ_discrete i (num_lfn name)) [
  | yes e ↦
      rw (lfn_entry-sequence name sum i, ==_true e)
        (ground arith, ground arith, ground arith, ground arith)
  | no e ↦
      rw (lfn_entry-sequence name sum i, ==_false e)
        (ground arith, ground arith, ground arith, ground arith)
]

-- Within the entries of a name, where number `i` is expected next.
abbrev running : ℕ → ℕ → Expected
running sum i = record { in_lfn_sequence = true; lfn_seq = i; lfn_checksum = sum }

module _ (d : Bytes) (sum i : ℕ) (kept : d 0 ≢ 0xe5) (attr : d attr_at ≡ attr_long_name)
    (summed : d 13 ≡ sum) (seq : low_bits (d 0) 5 ≡ suc i) (few : suc i < 256) where
  check_first :
      (x : Expected)
      → x.in_lfn_sequence ≡ false
      → test_bit (d 0) last_bit ≡ true
      → check_entry d x ≡ some (running sum i)
  check_first x rest last =
      let down : (suc i + 255) % 256 ≡ i = omega arith in
      rw
        (
          ==_false kept,
          attr,
          last,
          rest,
          seq,
          summed,
          ==_true {a = suc i} {b = suc i} refl,
          ==_true {a = sum} {b = sum} refl,
          down,
        )
        refl

  check_next :
      test_bit (d 0) last_bit ≡ false → check_entry d (running sum (suc i)) ≡ some (running sum i)
  check_next last =
      let down : (suc i + 255) % 256 ≡ i = omega arith in
      rw
        (
          ==_false kept,
          attr,
          last,
          seq,
          summed,
          ==_true {a = suc i} {b = suc i} refl,
          ==_true {a = sum} {b = sum} refl,
          down,
        )
        refl

-- An entry that the check lets pass.
check_pass :
    (b : Bytes) (left p : ℕ) (x y : Expected)
    → b (p + 0) ≢ 0
    → check_entry (copy_out b p) x ≡ some y
    → check_entries b (suc left) p x ≡ check_entries b left (p + dentry_size) y
unfolding check_entries
check_pass b left p x y used eq = rw (==_false used, eq) refl

module _ (name : List ℕ) (sum : ℕ) (short : length name < 256) where
  -- The entries from number `i` down to 1, behind the first one.
  check-rest :
      (b : Bytes) (i left p : ℕ)
      → i < num_lfn name
      → Stand b p (lfn_entries name sum i)
      → check_entries b (i + left) p (running sum i)
        ≡ check_entries b left (p + i * 32) (running sum 0)
  unfolding lfn_entries
  check-rest b zero left p le stand =
      let e : 0 + left ≡ left = omega arith in
      let e' : p + 0 * 32 ≡ p = omega arith in rw (e, e') refl
  check-rest b (suc i) left p le (here, rest) =
      let e : suc i + left ≡ suc (i + left) = omega arith in
      let e' : p + suc i * 32 ≡ p + 32 + i * 32 = omega arith in
      let (used, kept, seq, last) = sequence name sum (suc i) short (omega arith) (omega arith) in
      let (attr, summed) = fields name sum (suc i) in
      rw (e, e')
        (check_pass b (i + left) p (running sum (suc i)) (running sum i)
            (rw (here 0 (omega arith)) used)
            (check_next (copy_out b p) sum i (rw (here 0 (omega arith)) kept)
              (here attr_at (omega arith) ∙ attr) (here 13 (omega arith) ∙ summed)
              (rw (here 0 (omega arith)) seq) (omega arith)
              (rw (here 0 (omega arith))
                (last ∙ ==_false {a = suc i} {b = num_lfn name} (omega arith))))
          ∙ check-rest b i left (p + 32) (omega arith) rest)

  check-lfns :
      (b : Bytes) (i left p : ℕ) (x : Expected)
      → 0 < i
      → i ≡ num_lfn name
      → x.in_lfn_sequence ≡ false
      → Stand b p (lfn_entries name sum i)
      → check_entries b (i + left) p x ≡ check_entries b left (p + i * 32) (running sum 0)
  unfolding lfn_entries
  check-lfns b zero left p x more all rest stand = absurd (omega arith)
  check-lfns b (suc i) left p x more all rest (here, behind) =
      let e : suc i + left ≡ suc (i + left) = omega arith in
      let e' : p + suc i * 32 ≡ p + 32 + i * 32 = omega arith in
      let (used, kept, seq, last) = sequence name sum (suc i) short (omega arith) (omega arith) in
      let (attr, summed) = fields name sum (suc i) in
      rw (e, e')
        (check_pass b (i + left) p x (running sum i) (rw (here 0 (omega arith)) used) (
            check_first (copy_out b p) sum i (rw (here 0 (omega arith)) kept)
              (here attr_at (omega arith) ∙ attr) (here 13 (omega arith) ∙ summed)
              (rw (here 0 (omega arith)) seq) (omega arith) x rest
              (rw (here 0 (omega arith)) (last ∙ ==_true {a = suc i} {b = num_lfn name} all)))
          ∙ check-rest b i left (p + 32) (omega arith) behind)

-- The entry behind them.
check_last :
    (d : Bytes) (sum : ℕ)
    → IsShortEntry d
    → checksum d ≡ sum
    → (test_bit (d attr_at) directory_bit ≡ true → rle32 d file_size_at ≡ 0)
    → check_entry d (running sum 0) ≡ some (at_rest (running sum 0))
check_last d sum (used, kept, no_lfn, no_label) summed sized =
    elim (Bool-cases (test_bit (d attr_at) directory_bit)) [
      | inl p ↦
          rw (==_false kept, ==_false no_lfn, no_label, ==_true summed, p, ==_true (sized p)) refl
      | inr p ↦ rw (==_false kept, ==_false no_lfn, no_label, ==_true summed, p) refl
    ]

-- The entry behind them has the checksum, and the size 0 if it is a directory's.
abbrev pub IsProper : Bytes → ℕ → Type 0
IsProper d sum =
    (checksum d ≡ sum) × (test_bit (d attr_at) directory_bit ≡ true → rle32 d file_size_at ≡ 0)

check_last-none :
    (d : Bytes) (sum : ℕ) → IsShortEntry d → ¬ IsProper d sum → check_entry d (running sum 0) ≡ none
check_last-none d sum (used, kept, no_lfn, no_label) improper = elim (ℕ_discrete (checksum d) sum) [
  | no ne ↦ rw (==_false kept, ==_false no_lfn, no_label, ==_false ne) refl
  | yes e ↦ elim (Bool-cases (test_bit (d attr_at) directory_bit)) [
    | inr p ↦ absurd (improper (e, λ q. absurd (ground arith)))
    | inl p ↦ elim (ℕ_discrete (rle32 d file_size_at) 0) [
      | yes z ↦ absurd (improper (e, λ q. z))
      | no nz ↦ rw (==_false kept, ==_false no_lfn, no_label, ==_true e, p, ==_false nz) refl
    ]
  ]
]

-- An entry that the check refuses.
check_stop :
    (b : Bytes) (left p : ℕ) (x : Expected)
    → b (p + 0) ≢ 0
    → check_entry (copy_out b p) x ≡ none
    → check_entries b (suc left) p x ≡ broken
unfolding check_entries
check_stop b left p x used eq = rw (==_false used, eq) refl

-- Where the entries that fat32_write_lfn_fdentry makes of a name of 1 to 255 characters stand in front of
-- an entry that is in use and no label, the check of a directory that is not within another name passes
-- them all, and is again between two names behind them, if that entry has the checksum they carry and, as
-- a directory's, the size 0; if it has another checksum, or is a directory's with another size, the check
-- fails.
pub check_entries-Stand :
    (name : List ℕ) (b : Bytes) (sum left p : ℕ) (x : Expected)
    → 0 < length name
    → length name < 256
    → x.in_lfn_sequence ≡ false
    → Stand b p (lfn_entries name sum (num_lfn name))
    → IsShortEntry (copy_out b (p + num_lfn name * 32))
    → (IsProper (copy_out b (p + num_lfn name * 32)) sum
        → (y : Expected) × (check_entries b (num_lfn name + suc left) p x
            ≡ check_entries b left (p + num_lfn name * 32 + dentry_size) y)
          × (y.in_lfn_sequence ≡ false))
      × (¬ IsProper (copy_out b (p + num_lfn name * 32)) sum
          → check_entries b (num_lfn name + suc left) p x ≡ broken)
check_entries-Stand name b sum left p x more short rest stand entry =
    let d = copy_out b (p + num_lfn name * 32) in
    let up_to =
      check-lfns name sum short b (num_lfn name) (suc left) p x (omega arith) refl rest stand in
    (
      λ proper. (
        at_rest (running sum 0),
        up_to
            ∙ check_pass b left (p + num_lfn name * 32) (running sum 0) (at_rest (running sum 0))
                (entry.0) (check_last d sum entry proper.0 proper.1),
        refl,
      ),
      λ improper.
          up_to
          ∙ check_stop b left (p + num_lfn name * 32) (running sum 0) (entry.0)
              (check_last-none d sum entry improper),
    )
