-- ===== src/Attr/Mode.antt =====
-- The read-only attribute follows the mode that fat32_setattr sets.
use fat.Shared.{
  ap, ◌∙◌, if◌then◌else◌, ◌==◌, ℕ, ◌+◌, ◌-◌, ◌/◌, ◌%◌, ◌≡◌, refl, ◌⊎◌, inl, inr, true, false, not,
  Option, none, some, arith, test_bit, Bool-cases,
}
use fat.Time.{Timespec}
use fat.Bytes.{Bytes}
use fat.Device.{BlockIo}
use fat.Fat.{Info, Volume, Ret, ok, err, stuck, cluster_bad}
use fat.Cluster.{no_flags, cluster_to_sector, read_cluster, seek_cluster}
use fat.Dir.{skip_of}
use fat.Vnode.Cache.{Open, lift, chain}
use fat.Vnode.Truncate.{truncate}
use fat.Dir.Update.{target_offset, is_dirty, undirty, update_at, update_fdentry}
use fat.Vnode.{is_dir, erofs, Vnode, owner_write_bit, read_only_bit}
use fat.Attr.{setattr, Changes, set_mode, set_atime, set_mtime, set_ctime, given, set_fields}

-- The node has the mode, the read-only attribute is set just if the owner may not write, the other
-- attributes are those of `fv`, and a change of the attributes is noted.
abbrev pub Moded : ℕ → Vnode → Vnode → Type 0
Moded mode fv n =
    (n.fv_mode ≡ mode)
    × (test_bit n.fv_attr read_only_bit ≡ not (test_bit mode owner_write_bit))
    × (n.fv_attr / 2 ≡ fv.fv_attr / 2)
    × ((n.fv_attr ≡ fv.fv_attr) ⊎ (n.fv_flags.attr_dirty ≡ true))

odd : (a : ℕ) → test_bit a 0 ≡ true → a % 2 ≡ 1
odd a h = ground arith

even : (a : ℕ) → test_bit a 0 ≡ false → a % 2 ≡ 0
even a h = ground arith

cleared : (a : ℕ) → test_bit a 0 ≡ true → (test_bit (a - 1) 0 ≡ false) × ((a - 1) / 2 ≡ a / 2)
cleared a h = let e = odd a h in (ground arith, omega arith)

was_set : (a : ℕ) → test_bit a 0 ≡ false → (test_bit (a + 1) 0 ≡ true) × ((a + 1) / 2 ≡ a / 2)
was_set a h = let e = even a h in (ground arith, omega arith)

set_mode-Moded : (mode : ℕ) (fv : Vnode) → Moded mode fv (set_mode mode fv)
set_mode-Moded mode fv = elim (Bool-cases (test_bit mode owner_write_bit)) [
  | inl p ↦ elim (Bool-cases (test_bit fv.fv_attr read_only_bit)) [
    | inl q ↦ let (bit, rest) = cleared fv.fv_attr q in rw (p, q) (refl, bit, rest, inr refl)
    | inr q ↦ rw (p, q) (refl, q, refl, inl refl)
  ]
  | inr p ↦ elim (Bool-cases (test_bit fv.fv_attr read_only_bit)) [
    | inl q ↦ rw (p, q) (refl, q, refl, inl refl)
    | inr q ↦ let (bit, rest) = was_set fv.fv_attr q in rw (p, q) (refl, bit, rest, inr refl)
  ]
]

-- Setting another field keeps what was noted.
times-Moded :
    (mode : ℕ) (fv n : Vnode) (a m c : Option Timespec)
    → Moded mode fv n
    → Moded mode fv (given c set_ctime (given m set_mtime (given a set_atime n)))
times-Moded mode fv n none none none h = h
times-Moded mode fv n none none (some _) h = h
times-Moded mode fv n none (some _) none h = h
times-Moded mode fv n none (some _) (some _) h = h
times-Moded mode fv n (some _) none none h = h
times-Moded mode fv n (some _) none (some _) h = h
times-Moded mode fv n (some _) (some _) none h = h
times-Moded mode fv n (some _) (some _) (some _) h = h

owners-Moded :
    (mode : ℕ) (fv n : Vnode) (u g : Option ℕ)
    → Moded mode fv n
    → Moded mode fv (
        given g
          (λ gid f. record f { fv_gid = gid })
          (given u (λ uid f. record f { fv_uid = uid }) n))
owners-Moded mode fv n none none h = h
owners-Moded mode fv n none (some _) h = h
owners-Moded mode fv n (some _) none h = h
owners-Moded mode fv n (some _) (some _) h = h

-- The fields behind the size, before the flush.
set_fields-Moded :
    (c : Changes) (fv : Vnode) (mode : ℕ) → c.mode ≡ some mode → Moded mode fv (set_fields c fv)
unfolding set_fields
set_fields-Moded c fv mode h =
    times-Moded mode fv _ c.atime c.mtime c.ctime
      (owners-Moded mode fv _ c.uid c.gid (rw h (set_mode-Moded mode fv)))

-- The mode and the attributes of a node are those of another one.
abbrev Alike : Vnode → Vnode → Type 0
Alike n fv = (n.fv_mode ≡ fv.fv_mode) × (n.fv_attr ≡ fv.fv_attr)

module _ {D : Type 0} (io : BlockIo D) (fsi : Info) where
  update_at-Alike : (c : ℕ) (s : Open D) → Alike (update_at io fsi c s).1.fv s.fv
  unfolding update_at
  update_at-Alike c s = elim (Bool-cases (read_cluster io fsi s.vol.disk c).failed) [
    | inl p ↦ rw p (refl, refl)
    | inr p ↦ rw p (by_result _)
  ]
    where
      by_result :
          (o : Option Bytes)
          → Alike
              (elim o as (λ _. Ret (Unit {0}) × Open D) [
                | none ↦ (stuck, s)
                | some b ↦ (
                  ok tt,
                  record {
                    fv = undirty s.fv;
                    vol = record s.vol {
                      disk =
                          io.bdwrite s.vol.disk (cluster_to_sector fsi c) fsi.sectors_per_cluster b;
                    };
                  },
                )
              ]).1.fv
              s.fv
      by_result none = (refl, refl)
      by_result (some b) = (refl, refl)

  sought-Alike :
      (s : Open D) (r : Ret ℕ × Volume D)
      → Alike (chain {D = D} (lift (λ _. r) s) (update_at io fsi)).1.fv s.fv
  sought-Alike s (ok c, v) = update_at-Alike c (record s { vol = v })
  sought-Alike s (err e, v) = (refl, refl)
  sought-Alike s (stuck, v) = (refl, refl)

  update_fdentry-Alike : (s : Open D) → Alike (update_fdentry io fsi s).1.fv s.fv
  unfolding update_fdentry
  update_fdentry-Alike s = elim (Bool-cases (is_dirty s.fv.fv_flags)) [
    | inr p ↦ simp p (refl, refl)
    | inl p ↦ elim (Bool-cases s.fv.fv_flags.root) [
      | inl q ↦ simp (p, q) (refl, refl)
      | inr q ↦ elim (Bool-cases (s.fv.fv_parent_cluster == cluster_bad)) [
        | inl b ↦ simp (p, q, b) (refl, refl)
        | inr b ↦
            simp (p, q, b)
              (sought-Alike s (
                seek_cluster io fsi
                  (if s.fv.fv_parent_cluster == 0 then fsi.root_cluster else s.fv.fv_parent_cluster)
                  (skip_of fsi (target_offset s.fv)) no_flags s.vol))
      ]
    ]
  ]

  -- What the part for the size leaves.
  abbrev pub Sized : Changes → Open D → Open D → Type 0
  Sized c s t =
      ((c.size ≡ none) × (t ≡ s))
      ⊎ ((size : ℕ) × (c.size ≡ some size)
          × (is_dir s.fv.fv_type ≡ false)
          × (truncate io fsi size s ≡ (ok tt, t)))

  -- The changed node is written if it is dirty.
  abbrev pub flushed : Open D → Ret (Unit {0}) × Open D
  flushed t = if is_dirty t.fv.fv_flags then update_fdentry io fsi t else (ok tt, t)

  setattr-flushed :
      (c : Changes) (s t : Open D)
      → Sized c s t
      → setattr io fsi false c s ≡ flushed (record t { fv = set_fields c t.fv })
  unfolding setattr
  setattr-flushed c s t (inl (e, same)) = rw same (simp e refl)
  setattr-flushed c s t (inr (size, e, file, cut)) = simp (e, file, cut) refl

  refused : (c : Changes) (s : Open D) → setattr io fsi true c s ≡ (err erofs, s)
  unfolding setattr
  refused c s = refl

  flushed-Alike : (t : Open D) → Alike (flushed t).1.fv t.fv
  flushed-Alike t = elim (Bool-cases (is_dirty t.fv.fv_flags)) [
    | inl p ↦ simp p (update_fdentry-Alike t)
    | inr p ↦ simp p (refl, refl)
  ]

  -- A request to fat32_setattr that names a mode, whatever else it names, a size only for a file that
  -- fat32_truncate then cuts or extends without an error: on a volume that is not read-only, the node
  -- has the mode afterwards, its read-only attribute is set just if the mode lets the owner not write,
  -- and the other attributes are kept, whatever the answer is; the node that fat32_update_fdentry is
  -- called with, if anything of it is dirty, has these too, and is marked as dirty in its attributes if
  -- they have changed. On a read-only volume any request is refused with EROFS, and nothing changes.
  pub setattr-Moded :
      (c : Changes) (mode : ℕ) (s t : Open D)
      → c.mode ≡ some mode
      → Sized c s t
      → (n : Vnode) × Moded mode t.fv n
        × (setattr io fsi false c s ≡ flushed (record t { fv = n }))
        × ((setattr io fsi false c s).1.fv.fv_mode ≡ mode)
        × ((setattr io fsi false c s).1.fv.fv_attr ≡ n.fv_attr)
        × (setattr io fsi true c s ≡ (err erofs, s))
  setattr-Moded c mode s t named sized =
      let n = set_fields c t.fv in
      let moded = set_fields-Moded c t.fv mode named in
      let eq = setattr-flushed c s t sized in
      let alike = flushed-Alike (record t { fv = n }) in
      (
        n,
        moded,
        eq,
        ap (λ r. r.1.fv.fv_mode) eq ∙ alike.0 ∙ moded.0,
        ap (λ r. r.1.fv.fv_attr) eq ∙ alike.1,
        refused c s,
      )
