-- ===== src/Make/New.antt =====
-- fat32_create where the name does not exist, followed by the scan of fat32_get_dirent.
use fat.Shared.{
  ℕ, suc, ◌<◌, ◌≡◌, inr, refl, ◌∙◌, Bool, true, false, Option, List, arith, All, length, test_bit,
  ◌+◌, if◌then◌else◌,
}
use fat.Device.{BlockIo}
use fat.Time.{Timespec}
use fat.Fat.{Info, ok, err}
use fat.Fat.Entry.{InRange}
use fat.Cluster.{read_cluster}
use fat.Cluster.View.{Works}
use fat.Cluster.Follow.{Follows}
use fat.Cluster.Blocks.{Kept}
use fat.Boot.Geometry.{IsAligned}
use fat.ShortName.{name_is_short}
use fat.Lfn.{DName, num_lfn}
use fat.Lfn.RoundTrip.{IsPlain}
use fat.Vnode.{
  owner_write_bit, Vnode, Owner, Wanted, Cred, vreg, vnode_init, vnode_reset, make_vnode, touch,
  faccess, is_dir,
}
use fat.Vnode.Cache.{Open}
use fat.Mount.{vnode_new, zeroed}
use fat.Dir.{skip_of}
use fat.Dir.Dirent.{Reader, enoent, find_dirent}
use fat.Dir.Alloc.{alloc_fdentry}
use fat.Dir.Create.{slots_of, create_fdentry}
use fat.Dir.Placed.{new_node, placed_node, create_fdentry-Created}
use fat.Dir.Within.{Within, Room-within, Laid-Stood}
use fat.Dir.Listed.{Found, Found-Stood, long_entries, unlabelled}
use fat.Make.{write_exec, file_flags, make_new, create}

no_more : (n : ℕ) → 0 + n ≡ n
no_more n = omega arith

module _ {D : Type 0} (io : BlockIo D) (fsi : Info) (w : Works io fsi) (al : IsAligned fsi) where
  module _ (owner : Owner) (now : Timespec) where
    -- The node that the creation begins with.
    abbrev pub blank : ℕ → Vnode
    blank va_mode = record (vnode_reset owner (vnode_init owner zeroed)) { fv_mode = va_mode }

    -- What a creation leaves of the directory `t`, whose entries for the name begin at `offset` in the
    -- cluster `c`: the new node, the directory and the volume.
    pub record Made (t : Open D) (name : List ℕ) (va_mode offset c size left : ℕ) (r : Reader)
        (fv : Vnode) (u : Open D) : Type 0 where
      pub place :
          (fv.fv_diroff ≡ offset)
          × (fv.fv_dirsz ≡ slots_of name)
          × (fv.fv_parent_cluster ≡ t.fv.fv_cluster)
      pub empty : (fv.fv_type ≡ vreg) × (fv.fv_cluster ≡ 0) × (fv.fv_size ≡ 0)
      pub stamps : (fv.fv_ctime ≡ now) × (fv.fv_mtime ≡ now) × (fv.fv_atime ≡ now)
      pub directory : u.fv ≡ touch now false true t.fv
      pub kept : Kept io fsi t.vol u.vol
      pub listed :
          Found io fsi w al t.fv.fv_cluster offset name
            (if test_bit va_mode owner_write_bit then 0 else 1)
            0
            (read_cluster io fsi u.vol.disk c).bytes
            size
            left
            r

    entered :
        (rdonly : Bool) (cr : Cred) (buffer : DName) (mode : Wanted) (excl : Bool) (va_mode : ℕ)
        (length_wanted : Option ℕ) (name : List ℕ) (s t : Open D)
        → is_dir s.fv.fv_type ≡ true
        → faccess rdonly write_exec cr s.fv ≡ 0
        → find_dirent io fsi name buffer s ≡ (err enoent, t)
        → create io fsi owner now true rdonly cr true buffer mode excl va_mode length_wanted name s
          ≡ make_new io fsi owner now true file_flags va_mode name (vnode_init owner zeroed) t
    unfolding create vnode_new
    entered rdonly cr buffer mode excl va_mode length_wanted name s t dir granted missing =
        rw (dir, granted, missing) refl

    made_new :
        (va_mode : ℕ) (name : List ℕ) (t u : Open D) (n : Vnode)
        → create_fdentry io fsi file_flags owner now true name (blank va_mode) t ≡ (ok n, u)
        → make_new io fsi owner now true file_flags va_mode name (vnode_init owner zeroed) t
          ≡ (ok (touch now false false n), record { fv = touch now false true u.fv; vol = u.vol })
    unfolding make_new
    made_new va_mode name t u n eq = rw eq refl

    node_facts :
        (dir offset va_mode : ℕ) (name : List ℕ) (n : Vnode)
        → n
          ≡ touch now false false
              (new_node io fsi w file_flags owner dir (placed_node offset name (blank va_mode)))
        → ((n.fv_diroff ≡ offset) × (n.fv_dirsz ≡ slots_of name) × (n.fv_parent_cluster ≡ dir))
          × ((n.fv_type ≡ vreg) × (n.fv_cluster ≡ 0) × (n.fv_size ≡ 0))
          × ((n.fv_ctime ≡ now) × (n.fv_mtime ≡ now) × (n.fv_atime ≡ now))
    unfolding make_vnode touch
    node_facts dir offset va_mode name n eq =
        rw eq ((refl, refl, refl), (refl, refl, refl), (refl, refl, refl))

    -- On a volume whose layout is sound and a device without read errors (`Works`), with clusters of a
    -- power of two bytes: where the directory may be written and searched, there is memory for the node
    -- and for the vnode, the search does not find the name, fat32_alloc_fdentry finds a place from which
    -- on the entries of the name fit into one cluster of the directory, and the name is not short and
    -- has 1 to 255 characters from 1 to 127: fat32_create succeeds, whatever the other arguments. The
    -- node is an empty file that knows the place of its entries and the cluster of the directory, with
    -- the present as its three times; the modification time of the directory is set; the table and the
    -- free count are as fat32_alloc_fdentry left them; and a listing that comes to the place, with a
    -- buffer longer than the name and with the size of the buffer as the bound of the name (as it is
    -- unless entries of a long name whose short entry is missing went before), finds the name there,
    -- with no first cluster, the size 0 and the attribute for read-only just if the mode lets the owner
    -- not write.
    pub create-Made :
        (rdonly : Bool) (cr : Cred) (buffer : DName) (mode : Wanted) (excl : Bool) (va_mode : ℕ)
        (length_wanted : Option ℕ) (name : List ℕ) (s t t2 : Open D) (offset c size left : ℕ)
        (r : Reader)
        → is_dir s.fv.fv_type ≡ true
        → faccess rdonly write_exec cr s.fv ≡ 0
        → find_dirent io fsi name buffer s ≡ (err enoent, t)
        → alloc_fdentry io fsi now (slots_of name) t ≡ (ok offset, t2)
        → InRange fsi c
        → Follows io fsi t2.vol (skip_of fsi offset) t2.fv.fv_cluster c
        → Within io fsi w al t2.fv.fv_cluster offset (slots_of name) c
        → name_is_short name ≡ false
        → All IsPlain name
        → 0 < length name
        → length name < 256
        → length name < size
        → r.name.name_size ≡ size
        → (fv : Vnode) × (u : Open D) × (create io fsi owner now true rdonly cr true buffer mode
              excl va_mode length_wanted name s
            ≡ (ok fv, u))
          × Made t2 name va_mode offset c size left r fv u
    unfolding slots_of
    create-Made rdonly cr buffer mode excl va_mode length_wanted name s t t2 offset c size left r
          dir granted missing placed rc f within long plain more short fits now_size =
        let slots : slots_of name ≡ suc (num_lfn name) = rw long (omega arith) in
        let node = placed_node offset name (blank va_mode) in
        let (u, d83, eq, made) =
          create_fdentry-Created io fsi w file_flags owner now true name (blank va_mode) t offset t2
            (λ _. c) (inr (refl, refl, refl)) (inr (refl, placed)) (omega (arith, within.0))
            (Room-within io fsi w al t2.fv.fv_cluster offset (slots_of name) c t2.vol within rc
              f) in
        let (place, empty, stamps) = node_facts t2.fv.fv_cluster offset va_mode name _ refl in
        let narrow : Within io fsi w al t2.fv.fv_cluster offset (suc (num_lfn name)) c =
          rw slots at within in
        let (e, r', scanned, named, first, attr, no_size) =
          Found-Stood io fsi w al file_flags t2.fv.fv_cluster offset c node name d83 u.vol size left
            r refl long plain more short fits (unlabelled (test_bit va_mode owner_write_bit))
            (omega (arith, narrow.0)) now_size made.entry
            (Laid-Stood io fsi w al offset c name d83 t2.fv.fv_cluster (suc (num_lfn name)) t2.vol
              u.vol (omega arith) narrow
              (long_entries io fsi w al t2.fv.fv_cluster offset c name d83 t2.vol u.vol long
                made.laid)) in
        (
          _,
          _,
          entered rdonly cr buffer mode excl va_mode length_wanted name s t dir granted missing
              ∙ made_new va_mode name t u _ eq,
          record {
            place = place;
            empty = empty;
            stamps = stamps;
            directory = rw made.directory refl;
            kept = made.laid.kept;
            listed = (e, r', scanned, named, first, attr ∙ no_more _, no_size);
          },
        )
