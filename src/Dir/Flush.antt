-- ===== src/Dir/Flush.antt =====
-- What fat32_update_fdentry writes: the dirty fields of the entry, and no byte outside it.
mod Steps
use fat.Shared.{
  ℕ, ◌+◌, ◌≤◌, ◌<◌, ◌≡◌, ◌⊎◌, refl, ap, ◌∙◌, inl, inr, arith, Bool, true, false, Option, some,
  if◌then◌else◌, u16, u32, update, ◌>>>◌,
}
use fat.Bytes.{Bytes, rle16, rle32, wle16, wle32}
use fat.Bytes.Laws.{rle-wle, rle32-cong, wle32-frame}
use fat.Time.{Timespec, FatTime, unix_to_fat_time}
use fat.Time.RoundTrip.{unix_to_fat_time-total}
use fat.Vnode.{Vnode}
use fat.Dir.{dentry_size, attr_at, file_size_at}
use fat.Dir.Update.{stamp, bind, put_atime, put_mtime, put_ctime, put_cluster, update_entry}
use fat.Dir.Flush.Steps.{
  rle16-same, taken-same, taken-read, Beside, put_atime-same, put_mtime-same, put_ctime-same,
  put_cluster-same, put_atime-read, put_mtime-read, put_ctime-read, put_cluster-read,
}

-- Two blocks that agree but for `n` bytes from `place` on.
abbrev pub AgreeOutside : ℕ → ℕ → Bytes → Bytes → Type 0
AgreeOutside place n b b' = (i : ℕ) → (i < place) ⊎ (place + n ≤ i) → b' i ≡ b i

-- What the entry holds afterwards: each field anew if it is dirty, with the times `a`, `m` and `c` of the
-- last access, the modification and the creation, and as it was otherwise.
pub record Flushed (fv : Vnode) (a m c : FatTime) (place : ℕ) (b b' : Bytes) : Type 0 where
  pub outside : AgreeOutside place dentry_size b b'
  pub size :
      rle32 b' (place + 28)
      ≡ (if fv.fv_flags.size_dirty then u32 fv.fv_size else rle32 b (place + 28))
  pub cluster_high :
      rle16 b' (place + 20)
      ≡ (if fv.fv_flags.cluster_dirty then u16 (fv.fv_cluster >>> 16) else rle16 b (place + 20))
  pub cluster_low :
      rle16 b' (place + 26)
      ≡ (if fv.fv_flags.cluster_dirty then u16 fv.fv_cluster else rle16 b (place + 26))
  pub attr : b' (place + 11) ≡ (if fv.fv_flags.attr_dirty then fv.fv_attr else b (place + 11))
  pub access_date :
      rle16 b' (place + 18) ≡ (if fv.fv_flags.atime_dirty then u16 a.date else rle16 b (place + 18))
  pub write_date :
      rle16 b' (place + 24) ≡ (if fv.fv_flags.mtime_dirty then u16 m.date else rle16 b (place + 24))
  pub write_time :
      rle16 b' (place + 22) ≡ (if fv.fv_flags.mtime_dirty then u16 m.time else rle16 b (place + 22))
  pub create_date :
      rle16 b' (place + 16) ≡ (if fv.fv_flags.ctime_dirty then u16 c.date else rle16 b (place + 16))
  pub create_time :
      rle16 b' (place + 14) ≡ (if fv.fv_flags.ctime_dirty then u16 c.time else rle16 b (place + 14))
  pub create_tenths :
      b' (place + 13) ≡ (if fv.fv_flags.ctime_dirty then c.tenths else b (place + 13))

stamp-some :
    (dirty : Bool) (ts : Timespec) (t : FatTime) (put : FatTime → Bytes → Bytes) (b : Bytes)
    → unix_to_fat_time ts ≡ some t
    → stamp dirty ts put b ≡ some (if dirty then put t b else b)
stamp-some true ts t put b e = rw e refl
stamp-some false ts t put b e = refl

-- The steps behind the times.
abbrev finished : Vnode → ℕ → Bytes → Option Bytes
finished fv place b3 =
    let f = fv.fv_flags in
    let b4 = if f.attr_dirty then update b3 (place + attr_at) fv.fv_attr else b3 in
    let b5 = if f.size_dirty then wle32 fv.fv_size b4 (place + file_size_at) else b4 in
    some (if f.cluster_dirty then put_cluster place fv.fv_cluster b5 else b5)

module _ (fv : Vnode) (a m c : FatTime) (place : ℕ) (b : Bytes) where
  -- The entry behind each step.
  abbrev b1 : Bytes
  b1 = if fv.fv_flags.atime_dirty then put_atime place a b else b

  abbrev b2 : Bytes
  b2 = if fv.fv_flags.mtime_dirty then put_mtime place m b1 else b1

  abbrev b3 : Bytes
  b3 = if fv.fv_flags.ctime_dirty then put_ctime place c b2 else b2

  abbrev b4 : Bytes
  b4 = if fv.fv_flags.attr_dirty then update b3 (place + attr_at) fv.fv_attr else b3

  abbrev b5 : Bytes
  b5 = if fv.fv_flags.size_dirty then wle32 fv.fv_size b4 (place + file_size_at) else b4

  abbrev b6 : Bytes
  b6 = if fv.fv_flags.cluster_dirty then put_cluster place fv.fv_cluster b5 else b5

  s1 : (i : ℕ) → Beside place 18 20 i → b1 i ≡ b i
  s1 i h = taken-same fv.fv_flags.atime_dirty b _ i (put_atime-same place a b i h)

  s2 : (i : ℕ) → Beside place 22 26 i → b2 i ≡ b1 i
  s2 i h = taken-same fv.fv_flags.mtime_dirty b1 _ i (put_mtime-same place m b1 i h)

  s3 : (i : ℕ) → Beside place 13 18 i → b3 i ≡ b2 i
  s3 i h = taken-same fv.fv_flags.ctime_dirty b2 _ i (put_ctime-same place c b2 i h)

  s4 : (i : ℕ) → Beside place 11 12 i → b4 i ≡ b3 i
  s4 i h = taken-same fv.fv_flags.attr_dirty b3 _ i (marked b3 i h)
    where
      marked :
          (d : Bytes) (i : ℕ) → Beside place 11 12 i → update d (place + attr_at) fv.fv_attr i ≡ d i
      marked d i h = ground arith

  s5 : (i : ℕ) → Beside place 28 32 i → b5 i ≡ b4 i
  s5 i h =
      taken-same fv.fv_flags.size_dirty b4 _ i
        (wle32-frame b4 (place + file_size_at) fv.fv_size i (omega (arith, h)))

  s6 : (i : ℕ) → Beside place 20 22 i → Beside place 26 28 i → b6 i ≡ b5 i
  s6 i h k =
      taken-same fv.fv_flags.cluster_dirty b5 _ i (put_cluster-same place fv.fv_cluster b5 i h k)

  -- The fields that the last steps leave.
  from_b4 : (i : ℕ) → Beside place 20 22 i → Beside place 26 32 i → b6 i ≡ b4 i
  from_b4 i h k = s6 i h (omega (arith, k)) ∙ s5 i (omega (arith, k))

  from_b3 :
      (i : ℕ) → Beside place 11 12 i → Beside place 20 22 i → Beside place 26 32 i → b6 i ≡ b3 i
  from_b3 i f h k = from_b4 i h k ∙ s4 i f

  from_b2 :
      (i : ℕ) → Beside place 11 18 i → Beside place 20 22 i → Beside place 26 32 i → b6 i ≡ b2 i
  from_b2 i f h k = from_b3 i (omega (arith, f)) h k ∙ s3 i (omega (arith, f))

  from_b1 : (i : ℕ) → Beside place 11 18 i → Beside place 20 32 i → b6 i ≡ b1 i
  from_b1 i f h = from_b2 i f (omega (arith, h)) (omega (arith, h)) ∙ s2 i (omega (arith, h))

  first_same : (i : ℕ) → Beside place 11 20 i → Beside place 22 26 i → b4 i ≡ b i
  first_same i h k =
      s4 i (omega (arith, h)) ∙ s3 i (omega (arith, h)) ∙ s2 i k ∙ s1 i (omega (arith, h))

  -- A field of two bytes that one step writes, and no step behind or before it.
  field :
      (o : ℕ) (dirty : Bool) (before after : Bytes) (x : ℕ)
      → ((k : ℕ) → k < 2 → b6 (place + o + k) ≡ (if dirty then after else before) (place + o + k))
      → rle16 after (place + o) ≡ x
      → ((k : ℕ) → k < 2 → before (place + o + k) ≡ b (place + o + k))
      → rle16 b6 (place + o) ≡ (if dirty then x else rle16 b (place + o))
  field o dirty before after x behind read ahead =
      let e : place + o + 0 ≡ place + o = omega arith in
      rle16-same place o (if dirty then after else before) b6 (rw e at (behind 0 (omega arith)))
        (behind 1 (omega arith))
      ∙ taken-read dirty before after (λ d. rle16 d (place + o)) x read
      ∙ ap (λ y. if dirty then x else y)
          (rle16-same place o b before (rw e at (ahead 0 (omega arith))) (ahead 1 (omega arith)))

  mtime_field :
      (o : ℕ) (x : ℕ)
      → 22 ≤ o
      → o ≤ 24
      → rle16 (put_mtime place m b1) (place + o) ≡ x
      → rle16 b6 (place + o) ≡ (if fv.fv_flags.mtime_dirty then x else rle16 b (place + o))
  mtime_field o x low high read =
      field o fv.fv_flags.mtime_dirty b1 (put_mtime place m b1) x
        (λ k lt.
          from_b2 (place + o + k) (inr (omega arith)) (inr (omega arith)) (inl (omega arith)))
        read (λ k lt. s1 (place + o + k) (inr (omega arith)))

  ahead_ctime : (i : ℕ) → i < place + 18 → b2 i ≡ b i
  ahead_ctime i h = s2 i (inl (omega arith)) ∙ s1 i (inl (omega arith))

  ctime_field :
      (o : ℕ) (x : ℕ)
      → 13 ≤ o
      → o ≤ 16
      → rle16 (put_ctime place c b2) (place + o) ≡ x
      → rle16 b6 (place + o) ≡ (if fv.fv_flags.ctime_dirty then x else rle16 b (place + o))
  ctime_field o x low high read =
      field o fv.fv_flags.ctime_dirty b2 (put_ctime place c b2) x
        (λ k lt.
          from_b3 (place + o + k) (inr (omega arith)) (inl (omega arith)) (inl (omega arith)))
        read (λ k lt. ahead_ctime (place + o + k) (omega arith))

  cluster_field :
      (o : ℕ) (x : ℕ)
      → (o ≡ 20) ⊎ (o ≡ 26)
      → rle16 (put_cluster place fv.fv_cluster b5) (place + o) ≡ x
      → rle16 b6 (place + o) ≡ (if fv.fv_flags.cluster_dirty then x else rle16 b (place + o))
  cluster_field o x which read =
      field o fv.fv_flags.cluster_dirty b5 (put_cluster place fv.fv_cluster b5) x (λ k lt. refl)
        read
        (λ k lt.
          s5 (place + o + k) (omega (arith, which))
          ∙ first_same (place + o + k) (omega (arith, which)) (omega (arith, which)))

  size_field :
      rle32 b6 (place + 28)
      ≡ (if fv.fv_flags.size_dirty then u32 fv.fv_size else rle32 b (place + 28))
  size_field =
      rle32-cong b6 b5 (place + 28) (same (place + 28) (omega arith))
        (same (place + 28 + 1) (omega arith)) (same (place + 28 + 2) (omega arith))
        (same (place + 28 + 3) (omega arith))
      ∙ taken-read fv.fv_flags.size_dirty b4 (wle32 fv.fv_size b4 (place + 28))
          (λ d. rle32 d (place + 28)) (u32 fv.fv_size) (rle-wle b4 (place + 28) 0 fv.fv_size).1
      ∙ ap (λ y. if fv.fv_flags.size_dirty then u32 fv.fv_size else y)
          (rle32-cong b4 b (place + 28) (ahead (place + 28) (omega arith))
            (ahead (place + 28 + 1) (omega arith)) (ahead (place + 28 + 2) (omega arith))
            (ahead (place + 28 + 3) (omega arith)))
    where
      same : (i : ℕ) → place + 28 ≤ i → b6 i ≡ b5 i
      same i h = s6 i (inr (omega arith)) (inr (omega arith))

      ahead : (i : ℕ) → place + 28 ≤ i → b4 i ≡ b i
      ahead i h = first_same i (inr (omega arith)) (inr (omega arith))

  attr_field : b6 (place + 11) ≡ (if fv.fv_flags.attr_dirty then fv.fv_attr else b (place + 11))
  attr_field =
      from_b4 (place + 11) (inl (omega arith)) (inl (omega arith))
      ∙ taken-read fv.fv_flags.attr_dirty b3 (update b3 (place + attr_at) fv.fv_attr)
          (λ d. d (place + 11)) fv.fv_attr (wrote b3)
      ∙ ap (λ y. if fv.fv_flags.attr_dirty then fv.fv_attr else y)
          (s3 (place + 11) (inl (omega arith)) ∙ ahead_ctime (place + 11) (omega arith))
    where
      wrote : (d : Bytes) → update d (place + attr_at) fv.fv_attr (place + 11) ≡ fv.fv_attr
      wrote d = ground arith

  tenths_field : b6 (place + 13) ≡ (if fv.fv_flags.ctime_dirty then c.tenths else b (place + 13))
  tenths_field =
      from_b3 (place + 13) (inr (omega arith)) (inl (omega arith)) (inl (omega arith))
      ∙ taken-read fv.fv_flags.ctime_dirty b2 (put_ctime place c b2) (λ d. d (place + 13)) c.tenths
          (put_ctime-read place c b2).2
      ∙ ap (λ y. if fv.fv_flags.ctime_dirty then c.tenths else y)
          (ahead_ctime (place + 13) (omega arith))

  b6-Flushed : Flushed fv a m c place b b6
  b6-Flushed = record {
    outside = λ i h.
        from_b4 i (omega (arith, h)) (omega (arith, h))
        ∙ first_same i (omega (arith, h)) (omega (arith, h));
    size = size_field;
    cluster_high = cluster_field 20 _ (inl refl) (put_cluster-read place fv.fv_cluster b5).0;
    cluster_low = cluster_field 26 _ (inr refl) (put_cluster-read place fv.fv_cluster b5).1;
    attr = attr_field;
    access_date =
        field 18 fv.fv_flags.atime_dirty b (put_atime place a b) (u16 a.date)
          (λ k lt. from_b1 (place + 18 + k) (inr (omega arith)) (inl (omega arith)))
          (put_atime-read place a b) (λ k lt. refl);
    write_date = mtime_field 24 _ (omega arith) (omega arith) (put_mtime-read place m b1).0;
    write_time = mtime_field 22 _ (omega arith) (omega arith) (put_mtime-read place m b1).1;
    create_date = ctime_field 16 _ (omega arith) (omega arith) (put_ctime-read place c b2).0;
    create_time = ctime_field 14 _ (omega arith) (omega arith) (put_ctime-read place c b2).1;
    create_tenths = tenths_field;
  }

-- The update of an entry at a place of a block has a result, whatever the node and the block: the three
-- times have representations, and of the 32 bytes of the entry the size, both halves of the first cluster,
-- the attributes, the date of the last access, and the dates and times of the modification and the
-- creation are those of the node, in their widths, where the flag of the node for them is set, and as they
-- were where it is not; no byte outside of the entry changes.
pub update_entry-Flushed :
    (fv : Vnode) (place : ℕ) (b : Bytes)
    → (a : FatTime) × (m : FatTime) × (c : FatTime) × (b' : Bytes) × (unix_to_fat_time fv.fv_atime
        ≡ some a)
      × (unix_to_fat_time fv.fv_mtime ≡ some m)
      × (unix_to_fat_time fv.fv_ctime ≡ some c)
      × (update_entry fv place b ≡ some b')
      × Flushed fv a m c place b b'
unfolding update_entry
update_entry-Flushed fv place b =
    let (a, ea) = unix_to_fat_time-total fv.fv_atime in
    let (m, em) = unix_to_fat_time-total fv.fv_mtime in
    let (c, ec) = unix_to_fat_time-total fv.fv_ctime in
    let f = fv.fv_flags in
    (
      a,
      m,
      c,
      b6 fv a m c place b,
      ea,
      em,
      ec,
      ap
            (λ o. bind o λ d.
              bind (stamp f.mtime_dirty fv.fv_mtime (put_mtime place) d) λ d'.
                bind (stamp f.ctime_dirty fv.fv_ctime (put_ctime place) d') (finished fv place))
            (stamp-some f.atime_dirty fv.fv_atime a (put_atime place) b ea)
          ∙ ap
              (λ o. bind o λ d'.
                bind (stamp f.ctime_dirty fv.fv_ctime (put_ctime place) d') (finished fv place))
              (stamp-some f.mtime_dirty fv.fv_mtime m (put_mtime place) (b1 fv a m c place b) em)
          ∙ ap (λ o. bind o (finished fv place))
              (stamp-some f.ctime_dirty fv.fv_ctime c (put_ctime place) (b2 fv a m c place b) ec),
      b6-Flushed fv a m c place b,
    )
