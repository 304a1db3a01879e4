-- ===== src/Lfn/RoundTrip.antt =====
-- Reading the long-name entries of a name gives the name back.
use fat.Shared.{
  ℕ, zero, suc, ◌+◌, ◌-◌, ◌*◌, ◌^◌, ◌≤◌, ◌&&◌, ◌<◌, ◌≡◌, refl, sym, ap, ◌∙◌, ◌⊎◌, inl, inr, arith,
  List, [], ◌∷◌, All, ltb, leb, ◌==◌, if◌then◌else◌, length, get_or, u32, sub32, low_bits, test_bit,
  update, ==_true, ==_false, lt→ltb, le→not_ltb, Bool-cases,
}
use native.Mathlib.Decide.{ℕ_discrete, dec_lt}
use fat.Bytes.{Bytes, rle16}
use fat.Lfn.{
  DName, chunk_len_of, lfn_entry, char_offsets, num_lfn, lfn_fill, set_dname, set_chars, read_lfn,
  lfn_entries, read_lfns, last_bit, seq_bits,
}
use fat.Lfn.Entry.{char, Holds, lfn_entry-Holds, lfn_entry-sequence}

-- A character that a long name brings back.
abbrev pub IsPlain : ℕ → Type 0
IsPlain c = (1 ≤ c) × (c < 128)

abbrev at : List ℕ → ℕ → ℕ
at name x = get_or name x 0

at-IsPlain : (name : List ℕ) (x : ℕ) → All IsPlain name → x < length name → IsPlain (at name x)
at-IsPlain [] x h lt = absurd (omega arith)
at-IsPlain (c ∷ cs) zero (p, h) lt = p
at-IsPlain (c ∷ cs) (suc x) (p, h) lt = at-IsPlain cs x h (omega arith)

at_end : (name : List ℕ) (x : ℕ) → length name ≤ x → at name x ≡ 0
at_end [] x h = refl
at_end (c ∷ cs) zero h = absurd (omega arith)
at_end (c ∷ cs) (suc x) h = at_end cs x (omega arith)

-- The character at place `x` of the entries.
abbrev value : List ℕ → ℕ → ℕ
value name x = if ltb x (length name) then at name x else if x == length name then 0 else lfn_fill

char-value :
    (name : List ℕ) (start j : ℕ)
    → j < 13
    → start ≤ length name
    → char name start (chunk_len_of name start) j ≡ value name (start + j)
char-value name start j lt le = ground arith

-- The bound before place `k`, when it began at `size`.
abbrev bound : List ℕ → ℕ → ℕ → ℕ
bound name size k = if leb k (length name) then size else length name

-- Either the bound leaves room for the NUL, or the NUL is not reached.
abbrev Room : List ℕ → ℕ → ℕ → Type 0
Room name size k = (length name < size) ⊎ ((k ≤ length name) × (length name ≤ size))

module _ (name : List ℕ) (plain : All IsPlain name) (size k : ℕ) (n : DName)
    (now : n.name_size ≡ bound name size k) (room : Room name size (k + 1)) where
  inside : k < length name → IsPlain (at name k)
  inside lt = at-IsPlain name k plain lt

  set_dname-size : (set_dname k (value name k) n).name_size ≡ bound name size (k + 1)
  unfolding set_dname
  set_dname-size = elim (dec_lt k (length name)) [
    | yes lt ↦ ground (arith, inside lt)
    | no ge ↦ ground arith
  ]

  set_dname-name :
      (x : ℕ)
      → x ≤ length name
      → (set_dname k (value name k) n).d_name x ≡ (if x == k then at name k else n.d_name x)
  unfolding set_dname
  set_dname-name x le = elim (dec_lt k (length name)) [
    | yes lt ↦ ground (arith, inside lt)
    | no ge ↦ ground (arith, at_end name k)
  ]

set_chars_step :
    (o : ℕ) (os : List ℕ) (k s : ℕ) (e : Bytes) (n : DName)
    → rle16 e o ≡ s
    → k + 1 < 2 ^ 32
    → set_chars (o ∷ os) k e n ≡ set_chars os (k + 1) e (set_dname k s n)
unfolding set_chars
set_chars_step o os k s e n c lt =
    let next : u32 (k + 1) ≡ k + 1 = omega arith in
    ap (λ y. set_chars os (u32 (k + 1)) e (set_dname k y n)) c
    ∙ ap (λ y. set_chars os y e (set_dname k s n)) next

-- The characters from place `k` on.
Room-head : (name : List ℕ) (size k m : ℕ) → Room name size (k + suc m) → Room name size (k + 1)
Room-head name size k m room = omega arith

Room-tail : (name : List ℕ) (size k m : ℕ) → Room name size (k + suc m) → Room name size (k + 1 + m)
Room-tail name size k m room = omega arith

set_chars_lem :
    (name : List ℕ) (size start j k : ℕ) (os : List ℕ) (e : Bytes) (n : DName)
    → All IsPlain name
    → start ≤ length name
    → k ≡ start + j
    → j + length os ≤ 13
    → k + length os < 2 ^ 32
    → Holds name start (chunk_len_of name start) e j os
    → n.name_size ≡ bound name size k
    → Room name size (k + length os)
    → ((set_chars os k e n).name_size ≡ bound name size (k + length os))
      × ((x : ℕ)
          → x ≤ length name
          → (set_chars os k e n).d_name x
            ≡ (if leb k x && ltb x (k + length os) then at name x else n.d_name x))
unfolding set_chars
set_chars_lem name size start j k [] e n plain le here fit top h now room =
    (rw now (ground arith), λ x lx. ground arith)
set_chars_lem name size start j k (o ∷ os) e n plain le here fit top (p, h) now room =
    let c : rle16 e o ≡ value name k =
      p ∙ char-value name start j (omega arith) le ∙ ap (value name) (sym here) in
    let n' = set_dname k (value name k) n in
    let one = set_dname-size name plain size k n now (Room-head name size k (length os) room) in
    let each = set_dname-name name plain size k n now (Room-head name size k (length os) room) in
    let rest =
      set_chars_lem name size start (j + 1) (k + 1) os e n' plain le (omega arith) (omega arith)
        (omega arith) h one (Room-tail name size k (length os) room) in
    rw (set_chars_step o os k _ e n c (omega arith)) (
      rest.0 ∙ ap (bound name size) (omega arith),
      λ x lx. rest.1 x lx ∙ join x (length os) _ _ (each x lx),
    )
  where
    join :
        (x m b c : ℕ)
        → b ≡ (if x == k then at name k else c)
        → (if leb (k + 1) x && ltb x (k + 1 + m) then at name x else b)
          ≡ (if leb k x && ltb x (k + suc m) then at name x else c)
    join x m b c h = elim (ℕ_discrete x k) [
      | yes p ↦ ground (arith, ap (at name) p)
      | no p ↦ ground arith
    ]

module _ (name : List ℕ) (plain : All IsPlain name) (some_char : 1 ≤ length name)
    (fits : length name ≤ 255) (checksum : ℕ) where
  abbrev entry : ℕ → Bytes
  entry i = lfn_entry name checksum i

  number : (i : ℕ) → i ≤ num_lfn name → low_bits (entry i 0) seq_bits ≡ i
  number i le = rw (lfn_entry-sequence name checksum i) (ground arith)

  last : (i : ℕ) → i ≤ num_lfn name → test_bit (entry i 0) last_bit ≡ (i == num_lfn name)
  last i le = rw (lfn_entry-sequence name checksum i) (ground arith)

  begin : (d_name_size : ℕ) → ℕ → DName → DName
  begin d_name_size i n =
      if i == num_lfn name
      then (if ltb (i * 13) d_name_size
          then record { d_name = update n.d_name (i * 13) 0; name_size = i * 13 }
          else n)
      else n

  read_lfn-set_chars :
      (d_name_size i : ℕ) (n : DName)
      → i < num_lfn name
      → read_lfn d_name_size (entry (suc i)) n
        ≡ set_chars char_offsets (i * 13) (entry (suc i)) (begin d_name_size (suc i) n)
  unfolding read_lfn begin
  read_lfn-set_chars d_name_size i n le =
      let place : u32 (sub32 (suc i) 1 * 13) ≡ i * 13 = omega arith in
      rw (number (suc i) (omega arith), last (suc i) (omega arith), place) refl

  abbrev after : ℕ → ℕ → DName → DName
  after d_name_size i n =
      set_chars char_offsets (i * 13) (entry (suc i)) (begin d_name_size (suc i) n)

  read_step :
      (d_name_size i : ℕ) (n : DName)
      → i < num_lfn name
      → read_lfns d_name_size (lfn_entries name checksum (suc i)) n
        ≡ read_lfns d_name_size (lfn_entries name checksum i) (after d_name_size i n)
  unfolding lfn_entries read_lfns
  read_step d_name_size i n lt =
      ap (read_lfns d_name_size (lfn_entries name checksum i))
        (read_lfn-set_chars d_name_size i n lt)

  begin_low :
      (d_name_size i : ℕ) (n : DName) → suc i < num_lfn name → begin d_name_size (suc i) n ≡ n
  unfolding begin
  begin_low d_name_size i n lt = rw (==_false {a = suc i} {b = num_lfn name} (omega arith)) refl

  begin_fits :
      (d_name_size i : ℕ) (n : DName)
      → suc i ≡ num_lfn name
      → suc i * 13 < d_name_size
      → begin d_name_size (suc i) n
        ≡ record { d_name = update n.d_name (suc i * 13) 0; name_size = suc i * 13 }
  unfolding begin
  begin_fits d_name_size i n top lt = rw (==_true top, lt→ltb _ _ lt) refl

  begin_full :
      (d_name_size i : ℕ) (n : DName) → d_name_size ≤ suc i * 13 → begin d_name_size (suc i) n ≡ n
  unfolding begin
  begin_full d_name_size i n ge =
      rw (le→not_ltb _ _ ge)
        (elim (Bool-cases (suc i == num_lfn name)) [ inl h ↦ rw h refl | inr h ↦ rw h refl ])

  -- One entry that is read with the bound `size`.
  entry_lem :
      (size i : ℕ) (n : DName)
      → i < num_lfn name
      → n.name_size ≡ size
      → Room name size (i * 13 + 13)
      → ((set_chars char_offsets (i * 13) (entry (suc i)) n).name_size
          ≡ bound name size (i * 13 + 13))
        × ((x : ℕ)
            → x ≤ length name
            → (set_chars char_offsets (i * 13) (entry (suc i)) n).d_name x
              ≡ (if leb (i * 13) x && ltb x (i * 13 + 13) then at name x else n.d_name x))
  entry_lem size i n le now room =
      set_chars_lem name size (i * 13) 0 (i * 13) char_offsets (entry (suc i)) n plain (omega arith)
        (omega arith) (omega arith) (omega arith)
        (let back : suc i - 1 ≡ i = omega arith in
          rw back at (lfn_entry-Holds name checksum (suc i)))
        (now ∙ start) room
    where
      start : size ≡ bound name size (i * 13)
      start = ground arith

  -- The entries below the last one.
  lower_lem :
      (d_name_size i : ℕ) (n : DName)
      → i < num_lfn name
      → n.name_size ≡ length name
      → ((x : ℕ) → i * 13 ≤ x → x ≤ length name → n.d_name x ≡ at name x)
      → ((read_lfns d_name_size (lfn_entries name checksum i) n).name_size ≡ length name)
        × ((x : ℕ)
            → x ≤ length name
            → (read_lfns d_name_size (lfn_entries name checksum i) n).d_name x ≡ at name x)
  unfolding lfn_entries read_lfns
  lower_lem d_name_size zero n lt now done = (now, λ x lx. done x (omega arith) lx)
  lower_lem d_name_size (suc i) n lt now done =
      let e = entry_lem (length name) i n (omega arith) now (omega arith) in
      let flat : bound name (length name) (i * 13 + 13) ≡ length name = ground arith in
      rw (read_step d_name_size i n (omega arith), begin_low d_name_size i n lt)
        (lower_lem d_name_size i (set_chars char_offsets (i * 13) (entry (suc i)) n) (omega arith)
          (e.0 ∙ flat) (λ x ge lx. e.1 x lx ∙ ground (arith, done x)))

  top_lem :
      (d_name_size m : ℕ) (n : DName)
      → length name < d_name_size
      → suc m ≡ num_lfn name
      → n.name_size ≡ d_name_size
      → ((read_lfns d_name_size (lfn_entries name checksum (suc m)) n).name_size ≡ length name)
        × ((x : ℕ)
            → x ≤ length name
            → (read_lfns d_name_size (lfn_entries name checksum (suc m)) n).d_name x ≡ at name x)
  top_lem d_name_size m n big top now =
      rw (read_step d_name_size m n (omega arith)) (elim (dec_lt (suc m * 13) d_name_size) [
        | yes lt ↦
            let n' : DName = record {
              d_name = update n.d_name (suc m * 13) 0;
              name_size = suc m * 13;
            } in
            let e = entry_lem (suc m * 13) m n' (omega arith) refl (omega arith) in
            rw (begin_fits d_name_size m n top lt) (
              lower_lem d_name_size m (set_chars char_offsets (m * 13) (entry (suc m)) n')
                (omega arith) (e.0 ∙ ground arith)
                (λ x ge lx. e.1 x lx ∙ ground (arith, at_end name x)))
        | no ge ↦
            let e = entry_lem d_name_size m n (omega arith) now (omega arith) in
            rw (begin_full d_name_size m n (omega arith)) (
              lower_lem d_name_size m (set_chars char_offsets (m * 13) (entry (suc m)) n)
                (omega arith) (e.0 ∙ ground arith) (λ x ge' lx. e.1 x lx ∙ ground arith))
      ])

  to_suc : (k : ℕ) → 1 ≤ k → (m : ℕ) × (suc m ≡ k)
  to_suc zero h = absurd (omega arith)
  to_suc (suc m) h = (m, refl)

  -- The entries that fat32_write_lfn_fdentry makes of a name of 1 to 255 characters, none of them NUL
  -- and all below 128, read in the order of the disk into a buffer with room for the name and a NUL,
  -- leave the name there with its NUL, and its length as the bound, whatever the buffer held before.
  pub read_lfns-lfn_entries :
      (d_name_size : ℕ) (n : DName)
      → length name < d_name_size
      → n.name_size ≡ d_name_size
      → ((read_lfns d_name_size (lfn_entries name checksum (num_lfn name)) n).name_size
          ≡ length name)
        × ((x : ℕ)
            → x ≤ length name
            → (read_lfns d_name_size (lfn_entries name checksum (num_lfn name)) n).d_name x
              ≡ get_or name x 0)
  read_lfns-lfn_entries d_name_size n big now =
      let t = to_suc (num_lfn name) (omega arith) in
      rw (sym t.1) (top_lem d_name_size t.0 n big t.1 now)
