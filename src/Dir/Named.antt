-- ===== src/Dir/Named.antt =====
-- fat32_get_dirent finds an entry with a long name as fat32_write_lfn_fdentry lays it out.
use fat.Shared.{
  ℕ, zero, suc, ◌+◌, ◌*◌, ◌/◌, ◌^◌, ◌≤◌, ◌<◌, ◌≡◌, ◌≢◌, refl, sym, ap, ◌∙◌, true, false, List, [],
  ◌∷◌, ◌==◌, ==_true, ==_false, arith, All, u32, sub32, length, get_or, test_bit,
}
use native.Mathlib.Decide.{ℕ_discrete}
use fat.Bytes.{Bytes, rle16}
use fat.Lfn.{
  DName, attr_long_name, last_bit, lfn_entry, fill_chars, lfn_entries, num_lfn, read_lfn, read_lfns,
  set_chars, char_offsets,
}
use fat.Lfn.Entry.{lfn_entry-sequence}
use fat.Lfn.RoundTrip.{IsPlain, read_lfns-lfn_entries}
use fat.Dir.{dentry_size, attr_at, copy_out}
use fat.Dir.Dirent.{
  Reader, Dirent, found, scan_dirents, pass_lfn, dirent_of, volume_id_bit, short_name,
}

-- The entries `es` stand in the block from `p` on.
abbrev pub Stand : Bytes → ℕ → List Bytes → Type 0
Stand b p [] = Unit
Stand b p (e ∷ es) = ((x : ℕ) → x < 32 → b (p + x) ≡ e x) × Stand b (p + dentry_size) es

-- Reading an entry takes only its 32 bytes.
abbrev Inside : List ℕ → Type 0
Inside os = All (λ o. o + 1 < 32) os

set_chars-cong :
    (os : List ℕ) (at : ℕ) (e f : Bytes) (n : DName)
    → ((x : ℕ) → x < 32 → e x ≡ f x)
    → Inside os
    → set_chars os at e n ≡ set_chars os at f n
unfolding set_chars rle16
set_chars-cong [] at e f n h _ = refl
set_chars-cong (o ∷ os) at e f n h (lt, rest) =
    rw (h o (omega arith), h (o + 1) lt) (set_chars-cong os (u32 (at + 1)) e f _ h rest)

read_lfn-cong :
    (size : ℕ) (e f : Bytes) (n : DName)
    → ((x : ℕ) → x < 32 → e x ≡ f x)
    → read_lfn size e n ≡ read_lfn size f n
unfolding read_lfn
read_lfn-cong size e f n h =
    rw (h 0 (omega arith)) (set_chars-cong char_offsets _ e f _ h (omega arith))

lfn_entry-attr :
    (name : List ℕ) (checksum i : ℕ) → lfn_entry name checksum i attr_at ≡ attr_long_name
unfolding lfn_entry fill_chars
lfn_entry-attr name checksum i = refl

pass_lfn-cong :
    (size : ℕ) (e f : Bytes) (r : Reader)
    → ((x : ℕ) → x < 32 → e x ≡ f x)
    → pass_lfn size e r ≡ pass_lfn size f r
pass_lfn-cong size e f r h = rw (h 0 (omega arith), read_lfn-cong size e f r.name h) refl

-- One entry of a long name is passed.
scan-lfn :
    (b e : Bytes) (size left p : ℕ) (r : Reader)
    → ((x : ℕ) → x < 32 → b (p + x) ≡ e x)
    → e 0 ≢ 0
    → e 0 ≢ 0xe5
    → e attr_at ≡ attr_long_name
    → scan_dirents b size (suc left) p r
      ≡ scan_dirents b size left (p + dentry_size) (pass_lfn size e r)
unfolding scan_dirents
scan-lfn b e size left p r h used kept attr =
    rw
      (
        ← pass_lfn-cong size (copy_out b p) e r h,
        h 0 (omega arith),
        h attr_at (omega arith),
        ==_false used,
        ==_false kept,
        attr,
      )
      refl

module _ (name : List ℕ) (checksum : ℕ) (short : length name < 256) where
  sequence_lem :
      (i : ℕ)
      → 0 < i
      → i ≤ num_lfn name
      → (lfn_entry name checksum i 0 ≢ 0)
        × (lfn_entry name checksum i 0 ≢ 0xe5)
        × (test_bit (lfn_entry name checksum i 0) last_bit ≡ (i == num_lfn name))
  sequence_lem i p le = elim (ℕ_discrete i (num_lfn name)) [
    | yes e ↦
        rw (lfn_entry-sequence name checksum i, ==_true e)
          (ground arith, ground arith, ground arith)
    | no e ↦
        rw (lfn_entry-sequence name checksum i, ==_false e)
          (ground arith, ground arith, ground arith)
  ]

  -- The reader after the entries from number `i` down to 1.
  after_lfns : ℕ → ℕ → Reader → Reader
  after_lfns size zero r = r
  after_lfns size (suc i) r = after_lfns size i (pass_lfn size (lfn_entry name checksum (suc i)) r)

  scan-lfns :
      (b : Bytes) (size i left p : ℕ) (r : Reader)
      → i ≤ num_lfn name
      → Stand b p (lfn_entries name checksum i)
      → scan_dirents b size (i + left) p r
        ≡ scan_dirents b size left (p + i * 32) (after_lfns size i r)
  unfolding scan_dirents lfn_entries after_lfns
  scan-lfns b size zero left p r le h =
      let e : 0 + left ≡ left = omega arith in
      let e' : p + 0 * 32 ≡ p = omega arith in rw (e, e') refl
  scan-lfns b size (suc i) left p r le (here, rest) =
      let e : suc i + left ≡ suc (i + left) = omega arith in
      let e' : p + suc i * 32 ≡ p + 32 + i * 32 = omega arith in
      let (used, kept, _) = sequence_lem (suc i) (omega arith) le in
      rw (e, e')
        (scan-lfn b (lfn_entry name checksum (suc i)) size (i + left) p r here used kept
            (lfn_entry-attr name checksum (suc i))
          ∙ scan-lfns b size i left (p + 32) (pass_lfn size (lfn_entry name checksum (suc i)) r)
              (omega arith) rest)

  abbrev collected : DName → ℕ → ℕ → Reader
  collected n start o = record { name = n; has_lfn = true; entry_start = start; offset = o }

  -- What the entries behind the first one leave in the reader.
  after_lfns_lem :
      (size i : ℕ) (n : DName) (start o : ℕ)
      → i < num_lfn name
      → o < 2 ^ 32
      → after_lfns size i (collected n start o)
        ≡ collected (read_lfns size (lfn_entries name checksum i) n) start (u32 (o + i * 32))
  unfolding after_lfns read_lfns lfn_entries
  after_lfns_lem size zero n start o le b = let e : u32 (o + 0 * 32) ≡ o = omega arith in rw e refl
  after_lfns_lem size (suc i) n start o le b =
      let (_, _, last) = sequence_lem (suc i) (omega arith) (omega arith) in
      let e : u32 (u32 (o + 32) + i * 32) ≡ u32 (o + suc i * 32) = omega arith in
      rw (last, ==_false {a = suc i} {b = num_lfn name} (omega arith))
        (after_lfns_lem size i (read_lfn size (lfn_entry name checksum (suc i)) n) start
            (u32 (o + 32)) (omega arith) (omega arith)
          ∙ ap (collected _ start) e)

  all_lfns :
      (size k : ℕ) (r : Reader)
      → suc k ≡ num_lfn name
      → after_lfns size (suc k) r
        ≡ collected
            (read_lfns size (lfn_entries name checksum (suc k)) r.name)
            r.offset
            (u32 (r.offset + suc k * 32))
  unfolding after_lfns read_lfns lfn_entries
  all_lfns size k r e =
      let (_, _, last) = sequence_lem (suc k) (omega arith) (omega arith) in
      let e' : u32 (u32 (r.offset + 32) + k * 32) ≡ u32 (r.offset + suc k * 32) = omega arith in
      rw (last, ==_true e)
        (after_lfns_lem size k (read_lfn size (lfn_entry name checksum (suc k)) r.name) r.offset
            (u32 (r.offset + 32)) (omega arith) (omega arith)
          ∙ ap (collected _ r.offset) e')

  all_entries :
      (size i : ℕ) (r : Reader)
      → 0 < i
      → i ≡ num_lfn name
      → after_lfns size i r
        ≡ collected
            (read_lfns size (lfn_entries name checksum i) r.name)
            r.offset
            (u32 (r.offset + i * 32))
  all_entries size zero r h e = absurd (omega arith)
  all_entries size (suc k) r h e = all_lfns size k r e

-- An entry that is neither free nor of a long name nor a label.
abbrev pub IsShortEntry : Bytes → Type 0
IsShortEntry e =
    (e 0 ≢ 0)
    × (e 0 ≢ 0xe5)
    × (e attr_at ≢ attr_long_name)
    × (test_bit (e attr_at) volume_id_bit ≡ false)

scan-short :
    (b : Bytes) (size left p : ℕ) (r : Reader)
    → IsShortEntry (copy_out b p)
    → scan_dirents b size (suc left) p r ≡ found (copy_out b p) r
unfolding scan_dirents
scan-short b size left p r (used, kept, short, label) =
    rw (==_false used, ==_false kept, ==_false short, label) refl

first_char : (name : List ℕ) → All IsPlain name → 0 < length name → get_or name 0 0 ≢ 0
first_char [] plain h = absurd (omega arith)
first_char (c ∷ cs) (p, plain) h = omega arith

keeps_name : (e : Bytes) (n : DName) → n.d_name 0 ≢ 0 → short_name e n ≡ n
keeps_name e n h = rw (==_false h) refl

-- What fat32_get_dirent stores for a long name at `offset`.
abbrev pub IsNamed : List ℕ → ℕ → Dirent → Type 0
IsNamed name offset d =
    (d.name.name_size ≡ length name)
    × ((x : ℕ) → x ≤ length name → d.name.d_name x ≡ get_or name x 0)
    × (d.entry_start ≡ offset)
    × (d.slots ≡ num_lfn name + 1)
    × (d.next_offset ≡ offset + (num_lfn name + 1) * 32)

-- Where the entries that fat32_write_lfn_fdentry makes of a name of 1 to 255 characters, all from 1
-- to 127, stand in a cluster in front of an entry that is in use and no label, the scan of
-- fat32_get_dirent that comes to the first of them stops at that entry; it stores the name with its
-- length, the offset of the first entry, the number of entries and the offset behind them. The bound of
-- the name is the size of the buffer beforehand (as it is unless entries of a long name whose short entry
-- is missing went before), the buffer has more bytes than the name, and the offsets do not wrap around.
pub scan_dirents-IsNamed :
    (name : List ℕ) (checksum dir_cluster : ℕ) (b : Bytes) (size left p : ℕ) (r : Reader)
    → All IsPlain name
    → 0 < length name
    → length name < 256
    → length name < size
    → r.name.name_size ≡ size
    → r.offset + (num_lfn name + 1) * 32 < 2 ^ 32
    → Stand b p (lfn_entries name checksum (num_lfn name))
    → IsShortEntry (copy_out b (p + num_lfn name * 32))
    → (r' : Reader) × (scan_dirents b size (num_lfn name + suc left) p r
        ≡ found (copy_out b (p + num_lfn name * 32)) r')
      × IsNamed name r.offset (dirent_of dir_cluster (copy_out b (p + num_lfn name * 32)) r')
scan_dirents-IsNamed name checksum dir_cluster b size left p r plain more short fits now room stand
      entry =
    let names = read_lfns-lfn_entries name plain more (omega arith) checksum size r.name fits now in
    let all = all_entries name checksum short size (num_lfn name) r (omega arith) refl in
    let begun : n.d_name 0 ≢ 0 =
      λ q. first_char name plain more (sym (names.1 0 (omega arith)) ∙ q) in
    let kept = keeps_name (copy_out b (p + num_lfn name * 32)) n begun in
    let slots : u32 (sub32 (u32 (r.offset + num_lfn name * 32)) r.offset / 32 + 1)
        ≡ num_lfn name + 1 =
      omega arith in
    let next : u32 (u32 (r.offset + num_lfn name * 32) + 32) ≡ r.offset + (num_lfn name + 1) * 32 =
      omega arith in
    (
      after_lfns name checksum short size (num_lfn name) r,
      scan-lfns name checksum short b size (num_lfn name) (suc left) p r (omega arith) stand
          ∙ scan-short b size left (p + num_lfn name * 32) _ entry,
      rw (all, kept) (names.0, names.1, refl, slots, next),
    )
  where
    n : DName
    n = read_lfns size (lfn_entries name checksum (num_lfn name)) r.name
