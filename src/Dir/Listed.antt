-- ===== src/Dir/Listed.antt =====
-- fat32_create_fdentry followed by the scan of fat32_get_dirent: an entry with a long name is listed
-- under its name.
use fat.Shared.{
  ℕ, suc, ◌+◌, ◌*◌, ◌%◌, ◌^◌, ◌≤◌, ◌<◌, ◌≡◌, refl, ◌∙◌, Bool, true, false, List, arith, All, u16,
  u32, ◌>>>◌, length, test_bit, get_or, leb, ◌&&◌, inl, inr, if◌then◌else◌,
}
use fat.Bytes.{Bytes, rle16, rle32}
use fat.Device.{BlockIo}
use fat.Time.{Timespec}
use fat.Fat.{Info, Volume, ok}
use fat.ShortName.{
  name_is_short, checksum, copy_at, generate_short_name, result_nibbles, nibble, hex_digits,
}
use fat.ShortName.Generated.{all_below, all_below-at}
use fat.Fat.Entry.{InRange}
use fat.Cluster.{read_cluster}
use fat.Cluster.View.{Works}
use fat.Cluster.Follow.{Follows}
use fat.Boot.Geometry.{IsAligned}
use fat.Lfn.{num_lfn}
use fat.Dir.{dentry_size, skip_of, copy_out}
use fat.Dir.Named.{IsShortEntry, IsNamed, scan_dirents-IsNamed}
use fat.Dir.{attr_at, file_size_at, first_cluster_hi_at, first_cluster_lo_at}
use fat.Dir.Dirent.{Reader, found, scan_dirents, dirent_of, first_cluster_of, volume_id_bit}
use fat.Vnode.{Vnode, Owner, owner_write_bit}
use fat.Vnode.Cache.{Open}
use fat.Lfn.{attr_long_name}
use fat.Lfn.RoundTrip.{IsPlain}
use fat.Dir.Create.{CreFlags, slots_of, name_entry, entry_attr, create_fdentry}
use fat.Dir.Created.{Described, HasAttr, entry_attr-HasAttr}
use fat.Dir.Placed.{
  IsFile, PlacedAt, placed_node, slot, own_cluster, new_node, create_fdentry-Created,
}
use fat.Dir.Within.{Within, Stood, Room-within, Laid-Stood, Stand-Stood, last-Stood}
use fat.Dir.Laid.{Laid, name_slot, at}

-- The first character of a generated name is a hexadecimal digit.
hex_digit : (n : ℕ) → n < 16 → (48 ≤ get_or hex_digits n 0) × (get_or hex_digits n 0 ≤ 70)
unfolding all_below
hex_digit n lt =
    let shown =
      all_below-at 16 (λ k. leb 48 (get_or hex_digits k 0) && leb (get_or hex_digits k 0) 70) n refl
        lt in
    (ground (arith, shown), ground (arith, shown))

generated-first :
    (cluster offset : ℕ) (d : Bytes)
    → copy_at (generate_short_name cluster offset) 0 d 0 ≡ get_or hex_digits (nibble cluster 0) 0
unfolding copy_at generate_short_name result_nibbles
generated-first cluster offset d = refl

-- The fields of an entry depend on its 32 bytes.
fields-cong :
    (e d : Bytes)
    → ((x : ℕ) → x < dentry_size → e x ≡ d x)
    → (first_cluster_of e ≡ first_cluster_of d) × (rle32 e file_size_at ≡ rle32 d file_size_at)
unfolding rle16 rle32
fields-cong e d h = (
  omega (arith, h 20 (omega arith), h 21 (omega arith), h 26 (omega arith), h 27 (omega arith)),
  omega (arith, h 28 (omega arith), h 29 (omega arith), h 30 (omega arith), h 31 (omega arith)),
)

-- The two halves of the first cluster.
joined :
    (d : Bytes) (start : ℕ)
    → rle16 d first_cluster_hi_at ≡ u16 (start >>> 16)
    → rle16 d first_cluster_lo_at ≡ u16 start
    → first_cluster_of d ≡ u32 start
joined d start high low = omega arith

pub unlabelled : (b : Bool) → test_bit (0 + (if b then 0 else 1)) volume_id_bit ≡ false
unlabelled true = refl
unlabelled false = refl

-- The entry behind a long name is in use and no label.
Described-IsShortEntry :
    (flags : CreFlags) (dir : ℕ) (fv : Vnode) (name : List ℕ) (start : ℕ) (d e : Bytes)
    → name_is_short name ≡ false
    → test_bit (entry_attr flags fv) volume_id_bit ≡ false
    → Described flags dir fv name start d
    → ((x : ℕ) → x < dentry_size → e x ≡ d x)
    → IsShortEntry e
unfolding name_entry
Described-IsShortEntry flags dir fv name start d e long plain desc same =
    let (low, high) = hex_digit (nibble dir 0) (omega arith) in
    let first : e 0 ≡ get_or hex_digits (nibble dir 0) 0 =
      same 0 (omega arith)
      ∙ desc.named 0 (omega arith)
      ∙ rw long (generated-first dir fv.fv_diroff (λ _. 0)) in
    let attr : e attr_at ≡ entry_attr flags fv = same attr_at (omega arith) ∙ desc.attr in
    rw (first, attr)
      (omega arith, omega arith, λ p. let t = label (entry_attr flags fv) p in cc, plain)
  where
    label : (a : ℕ) → a ≡ attr_long_name → test_bit a volume_id_bit ≡ true
    label a p = rw p refl

-- The attributes of a new file have no label bit, and those of a renamed one where the node's have none.
entry_attr-unlabelled :
    (flags : CreFlags) (allocated : Bool) (fv : Vnode)
    → IsFile flags allocated
    → (flags.cre_rename ≡ true → test_bit fv.fv_attr volume_id_bit ≡ false)
    → test_bit (entry_attr flags fv) volume_id_bit ≡ false
entry_attr-unlabelled flags allocated fv (inl p) h = rw p (h p)
entry_attr-unlabelled flags allocated fv (inr (p, q, _)) h =
    rw (p, q) (unlabelled (test_bit fv.fv_mode owner_write_bit))

module _ {D : Type 0} (io : BlockIo D) (fsi : Info) (w : Works io fsi) (al : IsAligned fsi) where
  -- A listing of the block `b` of the directory `dir`, with `left` more entries behind the ones at
  -- `offset`, finds the name there, with the attributes, the first cluster and the size 0.
  abbrev pub Found : ℕ → ℕ → List ℕ → ℕ → ℕ → Bytes → ℕ → ℕ → Reader → Type 0
  Found dir offset name attr start b size left r =
      (e : Bytes) × (r' : Reader) × (scan_dirents b size (num_lfn name + suc left)
          (offset % fsi.bytes_per_cluster) (record r { offset = offset })
        ≡ found e r')
      × IsNamed name offset (dirent_of dir e r')
      × (first_cluster_of e ≡ start)
      × (e attr_at ≡ attr)
      × (rle32 e file_size_at ≡ 0)

  pub Found-Stood :
      (flags : CreFlags) (dir offset c : ℕ) (fv : Vnode) (name : List ℕ) (d83 : Bytes)
      (u : Volume D) (size left : ℕ) (r : Reader)
      → fv.fv_diroff ≡ offset
      → name_is_short name ≡ false
      → All IsPlain name
      → 0 < length name
      → length name < 256
      → length name < size
      → test_bit (entry_attr flags fv) volume_id_bit ≡ false
      → offset + suc (num_lfn name) * 32 < 2 ^ 32
      → r.name.name_size ≡ size
      → Described flags dir fv name (own_cluster flags fv) d83
      → Stood io fsi w al offset c name d83 u
      → Found dir offset name
          (entry_attr flags fv)
          (u32 (own_cluster flags fv))
          (read_cluster io fsi u.disk c).bytes
          size
          left
          r
  Found-Stood flags dir offset c fv name d83 u size left r here long plain more short fits
        unlabelled small now desc stood =
      let p = offset % fsi.bytes_per_cluster in
      let b = (read_cluster io fsi u.disk c).bytes in
      let e = copy_out b (p + num_lfn name * 32) in
      let same = last-Stood io fsi w al offset c name d83 u stood in
      let stand =
        Stand-Stood io fsi w al offset c name d83 u stood (num_lfn name) 0 (omega arith) in
      let start : p + 0 * 32 ≡ p = omega arith in
      let short_entry =
        Described-IsShortEntry flags dir fv name (own_cluster flags fv) d83 e long unlabelled desc
          same in
      let (r', scanned, named) =
        scan_dirents-IsNamed name (checksum d83) dir b size left p (record r { offset = offset })
          plain more short fits now (omega arith) (rw start at stand) short_entry in
      let (cluster, no_size) = fields-cong e d83 same in
      (
        e,
        r',
        scanned,
        named,
        cluster ∙ joined d83 (own_cluster flags fv) desc.high desc.low,
        same attr_at (omega arith) ∙ desc.attr,
        no_size ∙ desc.size,
      )

  pub long_entries :
      (dir offset c : ℕ) (name : List ℕ) (d83 : Bytes) (v u : Volume D)
      → name_is_short name ≡ false
      → Laid io fsi w dir offset (slots_of name) (λ _. c) 0 (slots_of name) (slot name d83) v u
      → Laid io fsi w dir offset
          (suc (num_lfn name))
          (λ _. c)
          0
          (suc (num_lfn name))
          (name_slot name d83)
          v
          u
  unfolding slots_of
  long_entries dir offset c name d83 v u long h =
      let more : num_lfn name + 1 ≡ suc (num_lfn name) = omega arith in rw (long, more) at h

  -- On a volume whose layout is sound and a device without read errors (`Works`), with clusters of a
  -- power of two bytes: where fat32_create_fdentry makes a file, or renames a file or directory that has
  -- no label bit, under a name that is not short, of 1 to 255 characters from 1 to 127, at an offset
  -- from which on its entries fit into one cluster of the directory, it succeeds, and a listing that
  -- comes to the offset, with a buffer longer than the name and with the size of the buffer as the bound
  -- of the name (as it is unless entries of a long name whose short entry is missing went before), finds the
  -- name there, with its length, its offset, its number of entries and the offset behind them. The entry
  -- has the size 0, and it has the attributes and the first cluster of the node that is renamed; the one
  -- of a new file has the cluster 0, and the attribute for read-only just if the mode lets the owner not
  -- write, and no other.
  pub create_fdentry-Found :
      (flags : CreFlags) (owner : Owner) (now : Timespec) (allocated : Bool) (name : List ℕ)
      (fv : Vnode) (s : Open D) (offset : ℕ) (t : Open D) (c size left : ℕ) (r : Reader)
      → IsFile flags allocated
      → PlacedAt io fsi w flags now name fv s offset t
      → InRange fsi c
      → Follows io fsi t.vol (skip_of fsi offset) t.fv.fv_cluster c
      → Within io fsi w al t.fv.fv_cluster offset (suc (num_lfn name)) c
      → name_is_short name ≡ false
      → All IsPlain name
      → 0 < length name
      → length name < 256
      → length name < size
      → r.name.name_size ≡ size
      → (flags.cre_rename ≡ true → test_bit fv.fv_attr volume_id_bit ≡ false)
      → (fv' : Vnode) × (a : ℕ) × (u : Open D) × (create_fdentry io fsi flags owner now allocated
            name fv s
          ≡ (ok fv', u))
        × HasAttr flags fv a
        × Found t.fv.fv_cluster offset name a
            (u32 (own_cluster flags fv))
            (read_cluster io fsi u.vol.disk c).bytes
            size
            left
            r
  unfolding slots_of
  create_fdentry-Found flags owner now allocated name fv s offset t c size left r kind at rc f
        within long plain more short fits now_size no_label =
      let plain_attr = entry_attr-unlabelled flags allocated fv kind no_label in
      let slots : slots_of name ≡ suc (num_lfn name) = rw long (omega arith) in
      let node = placed_node offset name fv in
      let room =
        Room-within io fsi w al t.fv.fv_cluster offset (suc (num_lfn name)) c t.vol within rc f in
      let (u, d83, eq, made) =
        create_fdentry-Created io fsi w flags owner now allocated name fv s offset t (λ _. c) kind
          at (omega arith) (rw slots room) in
      (
        new_node io fsi w flags owner t.fv.fv_cluster node,
        entry_attr flags fv,
        u,
        eq,
        entry_attr-HasAttr flags fv,
        Found-Stood flags t.fv.fv_cluster offset c node name d83 u.vol size left r refl long plain
            more short fits plain_attr within.0 now_size made.entry
            (Laid-Stood io fsi w al offset c name d83 t.fv.fv_cluster (suc (num_lfn name)) t.vol
              u.vol (omega arith) within
              (long_entries t.fv.fv_cluster offset c name d83 t.vol u.vol long made.laid)),
      )
