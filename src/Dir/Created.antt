-- ===== src/Dir/Created.antt =====
-- What fat32_create_fdentry leaves on the disk.
use fat.Shared.{
  ℕ, ◌+◌, ◌≤◌, ◌<◌, ◌≡◌, ◌⊎◌, inl, inr, refl, ◌∙◌, List, [], ◌∷◌, arith, u16, ◌>>>◌, length, update,
  Bool-cases, some, zero, suc, ◌/◌, ◌%◌, true, false, ◌==◌, test_bit, get_or, lt→ltb,
}
use fat.Bytes.{Bytes, rle16, rle32, wle16}
use fat.Time.{Timespec}
use fat.Time.RoundTrip.{unix_to_fat_time-total}
use fat.ShortName.{
  name_is_short, copy_at, generate_short_name, result_nibbles, format_short, read_short,
  until_space, dot,
}
use fat.ShortName.Format.{read_formatted}
use fat.Vnode.{Vnode, owner_write_bit}
use fat.Dir.{
  attr_at, set_times, set_cluster, file_size_at, first_cluster_hi_at, first_cluster_lo_at,
}
use fat.Dir.Update.{put_ctime, put_mtime, put_atime}
use fat.Dir.Create.{CreFlags, name_entry, entry_attr, entry_times, new_entry}

copy_at-beyond :
    (cs : List ℕ) (j : ℕ) (d : Bytes) (i : ℕ) → j + length cs ≤ i → copy_at cs j d i ≡ d i
unfolding copy_at
copy_at-beyond [] j d i h = refl
copy_at-beyond (c ∷ cs) j d i h = copy_at-beyond cs (j + 1) _ i (omega arith) ∙ ground arith

-- Behind the name an entry is begun with zeros.
name_entry-zero :
    (dir offset : ℕ) (name : List ℕ) (i : ℕ) → 11 ≤ i → name_entry dir offset name i ≡ 0
unfolding name_entry generate_short_name result_nibbles
name_entry-zero dir offset name i h = elim (Bool-cases (name_is_short name)) [
  | inl p ↦ rw p (ground arith)
  | inr p ↦ rw p (copy_at-beyond _ 0 (λ _. 0) i h)
]

-- The fields of times lie between the attributes and the size.
abbrev TimesOnly : Bytes → Bytes → Type 0
TimesOnly d d' = (i : ℕ) → (i < 13) ⊎ (28 ≤ i) → d' i ≡ d i

entry_times-only :
    (flags : CreFlags) (now : Timespec) (fv : Vnode) (d : Bytes)
    → (d' : Bytes) × (entry_times flags now fv d ≡ some d') × TimesOnly d d'
unfolding wle16
entry_times-only flags now fv d = elim (Bool-cases flags.cre_rename) [
  | inl p ↦
      let (c, ec) = unix_to_fat_time-total fv.fv_ctime in
      let (m, em) = unix_to_fat_time-total fv.fv_mtime in
      let (a, ea) = unix_to_fat_time-total fv.fv_atime in
      rw (p, ec, em, ea)
        (put_atime 0 a (put_mtime 0 m (put_ctime 0 c d)), refl, λ i h. ground arith)
  | inr p ↦
      let (t, e) = unix_to_fat_time-total now in
      rw (p, e) (set_times t d, refl, λ i h. ground arith)
]

-- The attributes of a renamed entry, and those of a new file: read-only just if its mode lets the owner
-- not write (0200).
abbrev pub HasAttr : CreFlags → Vnode → ℕ → Type 0
HasAttr flags fv a =
    (flags.cre_rename ≡ true → a ≡ fv.fv_attr)
    × (flags.cre_rename ≡ false
        → flags.cre_dir ≡ false
        → (fv.fv_mode / 128 % 2 ≡ 0 → a ≡ 1) × (fv.fv_mode / 128 % 2 ≡ 1 → a ≡ 0))

pub entry_attr-HasAttr : (flags : CreFlags) (fv : Vnode) → HasAttr flags fv (entry_attr flags fv)
entry_attr-HasAttr flags fv =
    (λ p. rw p refl, λ p q. rw (p, q) ((λ h. rw (writable h) refl), (λ h. rw (owned h) refl)))
  where
    writable : fv.fv_mode / 128 % 2 ≡ 0 → test_bit fv.fv_mode owner_write_bit ≡ false
    writable h = ground arith

    owned : fv.fv_mode / 128 % 2 ≡ 1 → test_bit fv.fv_mode owner_write_bit ≡ true
    owned h = ground arith

-- The eleven bytes of an entry decide what is read from it.
until_space-cong :
    (left i : ℕ) (d e : Bytes)
    → ((x : ℕ) → x < i + left → d x ≡ e x)
    → until_space left d i ≡ until_space left e i
unfolding until_space
until_space-cong zero i d e h = refl
until_space-cong (suc left) i d e h =
    rw (h i (omega arith), until_space-cong left (i + 1) d e (λ x lt. h x (omega arith))) refl

read_short-cong : (d e : Bytes) → ((x : ℕ) → x < 11 → d x ≡ e x) → read_short d ≡ read_short e
unfolding read_short
read_short-cong d e h =
    rw
      (
        until_space-cong 8 0 d e (λ x lt. h x (omega arith)),
        until_space-cong 3 8 d e (λ x lt. h x (omega arith)),
        h 8 (omega arith),
      )
      refl

short_entry :
    (dir offset : ℕ) (name : List ℕ) (i : ℕ)
    → name_is_short name ≡ true
    → i < 11
    → name_entry dir offset name i ≡ format_short name i
unfolding name_entry
short_entry dir offset name i p lt = rw (p, lt→ltb i 11 lt) refl

generated_entry :
    (dir offset : ℕ) (name : List ℕ) (i : ℕ)
    → name_is_short name ≡ false
    → name_entry dir offset name i ≡ copy_at (generate_short_name dir offset) 0 (λ _. 0) i
unfolding name_entry
generated_entry dir offset name i p = rw p refl

-- The entry holds the name, the attributes and the first cluster, and a size of 0.
pub record Described (flags : CreFlags) (dir : ℕ) (fv : Vnode) (name : List ℕ) (start : ℕ)
    (d : Bytes) : Type 0 where
  pub named : (i : ℕ) → i < 11 → d i ≡ name_entry dir fv.fv_diroff name i
  pub short_named : name_is_short name ≡ true → (i : ℕ) → i < 11 → d i ≡ format_short name i
  pub read_back : name_is_short name ≡ true → (get_or name 0 0 == dot) ≡ false → read_short d ≡ name
  pub generated :
      name_is_short name ≡ false
      → (i : ℕ) → i < 11
      → d i ≡ copy_at (generate_short_name dir fv.fv_diroff) 0 (λ _. 0) i
  pub attr : d attr_at ≡ entry_attr flags fv
  pub has_attr : HasAttr flags fv (d attr_at)
  pub high : rle16 d first_cluster_hi_at ≡ u16 (start >>> 16)
  pub low : rle16 d first_cluster_lo_at ≡ u16 start
  pub size : rle32 d file_size_at ≡ 0

outside : (c : ℕ) (d : Bytes) (i : ℕ) → (i < 20) ⊎ (28 ≤ i) → set_cluster c d i ≡ d i
unfolding wle16
outside c d i h = ground arith

set_cluster-read :
    (c : ℕ) (d : Bytes)
    → (rle16 (set_cluster c d) first_cluster_hi_at ≡ u16 (c >>> 16))
      × (rle16 (set_cluster c d) first_cluster_lo_at ≡ u16 c)
unfolding wle16 rle16
set_cluster-read c d = (ground arith, ground arith)

no_size : (d : Bytes) → ((i : ℕ) → 28 ≤ i → d i ≡ 0) → rle32 d file_size_at ≡ 0
unfolding rle32
no_size d h =
    omega (arith, h 28 (omega arith), h 29 (omega arith), h 30 (omega arith), h 31 (omega arith))

pub new_entry-Described :
    (flags : CreFlags) (now : Timespec) (dir : ℕ) (fv : Vnode) (name : List ℕ) (start : ℕ)
    → (d : Bytes) × (new_entry flags now dir fv name start ≡ some d)
      × Described flags dir fv name start d
unfolding new_entry
new_entry-Described flags now dir fv name start =
    let named = name_entry dir fv.fv_diroff name in
    let (d, eq, only) =
      entry_times-only flags now fv (update named attr_at (entry_attr flags fv)) in
    let first : (i : ℕ) → i < 11 → set_cluster start d i ≡ name_entry dir fv.fv_diroff name i =
      λ i lt. outside start d i (inl (omega arith)) ∙ only i (inl (omega arith)) ∙ ground arith in
    let attr : set_cluster start d attr_at ≡ entry_attr flags fv =
      outside start d attr_at (inl (omega arith)) ∙ only attr_at (inl (omega arith)) ∙ refl in
    rw eq (
      set_cluster start d,
      refl,
      record {
        named = first;
        short_named = λ p i lt. first i lt ∙ short_entry dir fv.fv_diroff name i p lt;
        read_back = λ p q.
            read_short-cong (set_cluster start d) (format_short name)
              (λ i lt. first i lt ∙ short_entry dir fv.fv_diroff name i p lt)
            ∙ read_formatted name p q;
        generated = λ p i lt. first i lt ∙ generated_entry dir fv.fv_diroff name i p;
        attr = attr;
        has_attr = rw attr (entry_attr-HasAttr flags fv);
        high = (set_cluster-read start d).0;
        low = (set_cluster-read start d).1;
        size = no_size (set_cluster start d) λ i le.
            outside start d i (inr le)
            ∙ only i (inr le)
            ∙ passed named (entry_attr flags fv) i le
            ∙ name_entry-zero dir fv.fv_diroff name i (omega arith);
      },
    )
  where
    passed : (b : Bytes) (x i : ℕ) → 28 ≤ i → update b attr_at x i ≡ b i
    passed b x i le = ground arith
