-- ===== src/Rename/Renamed.antt =====
-- fat32_rename within a directory as a whole, followed by the scan of fat32_get_dirent.
use fat.Shared.{
  ℕ, suc, ◌+◌, ◌*◌, ◌%◌, ◌≤◌, ◌<◌, ◌≡◌, ◌≢◌, ◌⊎◌, inl, inr, refl, ◌∙◌, Bool, true, false, List,
  none, arith, All, length, test_bit, leb, u32,
}
use fat.Bytes.{Bytes}
use fat.Device.{BlockIo}
use fat.Time.{Timespec}
use fat.Fat.{Info, Volume, ok, err}
use fat.Fat.Entry.{InRange}
use fat.Cluster.{read_cluster}
use fat.Cluster.View.{Works}
use fat.Cluster.Follow.{Follows}
use fat.Cluster.Blocks.{Kept, Kept-trans, Follows-same}
use fat.Boot.Geometry.{IsAligned}
use fat.ShortName.{name_is_short}
use fat.Lfn.{DName, num_lfn}
use fat.Lfn.RoundTrip.{IsPlain}
use fat.Vnode.{Vnode, Owner, Cred, vnode_init, touch, is_dir}
use fat.Vnode.Cache.{Open}
use fat.Mount.{zeroed}
use fat.Dir.{attr_at, skip_of}
use fat.Dir.Dirent.{Reader, Dirent, enoent, find_dirent, volume_id_bit, first_cluster_of}
use fat.Dir.Create.{slots_of}
use fat.Dir.Laid.{byte}
use fat.Dir.Placed.{Created, placed_node, create_fdentry-Created}
use fat.Dir.Within.{Within, at-within, Room-within, Laid-Stood}
use fat.Dir.Listed.{Found, Found-Stood, long_entries}
use fat.Make.{found_node}
use fat.Rename.{
  Dirs, rename_flags, rename_in_place, clear_target, settle, rename_found, rename, same_name,
}
use fat.Shared.{==_true, Bool-cases}
use fat.Rename.InPlace.{Cleared, in_place}

module _ {D : Type 0} (io : BlockIo D) (fsi : Info) (w : Works io fsi) (al : IsAligned fsi) where
  -- Both directories are the one of `s`.
  abbrev pub within_one : Open D → Dirs D
  within_one s = record { sdvp = s.fv; tdvp = none; vol = s.vol }

  -- Entries away from the `n` ones at the place.
  abbrev pub Beside : ℕ → ℕ → ℕ → ℕ → ℕ → Type 0
  Beside place n c e y = (c ≢ e) ⊎ ((y < place) ⊎ (place + n * 32 ≤ y))

  -- What a renaming leaves of the directory `s`, where `count` entries from `offset` on lie in the
  -- cluster `c`, the last with the attributes and the first cluster.
  pub record Renamed (now : Timespec) (s : Open D) (offset count attr start : ℕ) (name : List ℕ)
      (c size left : ℕ) (r : Reader) (p : Dirs D) : Type 0 where
    pub directory : p.sdvp ≡ touch now false true s.fv
    pub kept : Kept io fsi s.vol p.vol
    pub listed :
        Found io fsi w al s.fv.fv_cluster offset name attr start
          (read_cluster io fsi p.vol.disk c).bytes
          size
          left
          r
    pub gone :
        (k : ℕ)
        → slots_of name ≤ k
        → k < count
        → byte io fsi p.vol c (offset % fsi.bytes_per_cluster + k * 32) ≡ 0xe5
    pub elsewhere :
        (e y : ℕ)
        → InRange fsi e
        → y < fsi.sectors_per_cluster * 512
        → Beside (offset % fsi.bytes_per_cluster) count c e y
        → byte io fsi p.vol e y ≡ byte io fsi s.vol e y

  module _ (owner : Owner) (now : Timespec) where
    settled :
        (n : Vnode) (s : Open D)
        → settle io fsi owner now true n (within_one s)
          ≡ (ok tt, within_one (record { fv = touch now false true s.fv; vol = s.vol }))
    unfolding settle
    settled n s = elim (Bool-cases (is_dir n.fv_type)) [ inl p ↦ rw p refl | inr p ↦ rw p refl ]

    module _ (rdonly : Bool) (cr : Cred) (allocated : Bool) (removing : DName) where
      missing :
          (buffer : DName) (tnm : List ℕ) (fv n : Vnode) (t t2 u : Open D)
          → find_dirent io fsi tnm buffer t ≡ (err enoent, t2)
          → slots_of tnm ≤ fv.fv_dirsz
          → rename_in_place io fsi owner now tnm fv t2 ≡ (ok n, u)
          → rename_found io fsi owner now rdonly cr allocated buffer removing tnm true fv
              (within_one t)
            ≡ settle io fsi owner now true n (within_one u)
      unfolding rename_found clear_target
      missing buffer tnm fv n t t2 u none_there few made =
          let fits : leb (slots_of tnm) fv.fv_dirsz ≡ true = ground arith in
          rw (none_there, fits, made) refl

      located :
          (buffer buffer2 : DName) (snm tnm : List ℕ) (s t : Open D) (d : Dirent)
          → same_name snm tnm ≡ false
          → find_dirent io fsi snm buffer s ≡ (ok d, t)
          → rename io fsi owner now rdonly cr allocated buffer buffer2 removing snm tnm
              (within_one s)
            ≡ rename_found io fsi owner now rdonly cr allocated buffer2 removing tnm true
                (found_node owner (vnode_init owner zeroed) t d)
                (within_one t)
      unfolding rename
      located buffer buffer2 snm tnm s t d differ there =
          rw (==_true {a = s.fv.fv_cluster} {b = s.fv.fv_cluster} refl, differ, there) refl

    Renamed-Cleared :
        (tnm : List ℕ) (fv : Vnode) (s u : Open D) (c size left : ℕ) (r : Reader) (d83 : Bytes)
        (v' : Volume D)
        → InRange fsi c
        → Within io fsi w al s.fv.fv_cluster fv.fv_diroff fv.fv_dirsz c
        → slots_of tnm ≡ suc (num_lfn tnm)
        → slots_of tnm ≤ fv.fv_dirsz
        → name_is_short tnm ≡ false
        → All IsPlain tnm
        → 0 < length tnm
        → length tnm < 256
        → length tnm < size
        → r.name.name_size ≡ size
        → test_bit fv.fv_attr volume_id_bit ≡ false
        → Created io fsi w
            (rename_flags true fv)
            tnm
            (placed_node fv.fv_diroff tnm fv)
            (slots_of tnm)
            (λ _. c)
            s
            u
            d83
        → Cleared io fsi w
            (fv.fv_diroff % fsi.bytes_per_cluster)
            c
            (slots_of tnm)
            fv.fv_dirsz
            u.vol
            v'
        → Renamed now s fv.fv_diroff fv.fv_dirsz fv.fv_attr
            (u32 fv.fv_cluster)
            tnm
            c
            size
            left
            r
            (within_one (record { fv = touch now false true s.fv; vol = v' }))
    Renamed-Cleared tnm fv s u c size left r d83 v' rc within slots few long plain more short fits
          now_size unlabelled made cleared =
        let node = placed_node fv.fv_diroff tnm fv in
        let dir = s.fv.fv_cluster in
        let narrow : Within io fsi w al dir fv.fv_diroff (slots_of tnm) c =
          (omega (arith, within.0), omega (arith, within.1)) in
        let narrow' : Within io fsi w al dir fv.fv_diroff (suc (num_lfn tnm)) c =
          rw slots at narrow in
        let stood =
          Laid-Stood io fsi w al fv.fv_diroff c tnm d83 dir (suc (num_lfn tnm)) s.vol u.vol
            (omega arith) narrow'
            (long_entries io fsi w al dir fv.fv_diroff c tnm d83 s.vol u.vol long made.laid) in
        record {
          directory = refl;
          kept = Kept-trans io fsi s.vol u.vol v' made.laid.kept cleared.kept;
          listed =
              Found-Stood io fsi w al (rename_flags true fv) dir fv.fv_diroff c node tnm d83 v' size
                left r refl long plain more short fits unlabelled (omega (arith, narrow'.0))
                now_size made.entry
                (λ k x lk lt.
                  cleared.elsewhere c (fv.fv_diroff % fsi.bytes_per_cluster + k * 32 + x) rc
                    (omega (arith, narrow'.1, al.blocks)) (λ j hl hh. inr (λ q. omega arith))
                  ∙ stood k x lk lt);
          gone = cleared.gone;
          elsewhere = λ e y re ly away.
              cleared.elsewhere e y re ly (λ j hl hh. elim away [
                | inl ne ↦ inl ne
                | inr (inl lt) ↦ inr (λ q. omega arith)
                | inr (inr le) ↦ inr (λ q. omega arith)
              ])
              ∙ made.laid.elsewhere e y re ly (λ k hl hh.
                let (place, _) =
                  at-within io fsi w al dir fv.fv_diroff (slots_of tnm) c k hh narrow in
                elim away [
                  | inl ne ↦ inl ne
                  | inr (inl lt) ↦ inr (inl (omega arith))
                  | inr (inr le) ↦ inr (inr (omega arith))
                ]);
        }

    -- On a volume whose layout is sound and a device without read errors (`Works`), with clusters of a
    -- power of two bytes: where the two names differ, the search finds the old name with the entry `d`
    -- and not the new one, both directories are the same object, the entries of `d` lie in one cluster
    -- of it and are no labels, and the new name is not short, has 1 to 255 characters from 1 to 127 and
    -- needs no more entries: fat32_rename succeeds. The modification time of the directory is set, the
    -- table and the free count are as they were, the entries left over are marked as deleted, and no
    -- byte of a data cluster changes outside of the old entries. A listing that comes to the old place,
    -- with a buffer longer than the name and with the size of the buffer as the bound of the name (as it
    -- is unless entries of a long name whose short entry is missing went before), finds the new name there,
    -- with the attributes and the first cluster that the entry of `d` had, and the size 0, whatever the
    -- size was.
    pub rename-Renamed :
        (rdonly : Bool) (cr : Cred) (allocated : Bool) (buffer buffer2 removing : DName)
        (snm tnm : List ℕ) (s t t2 : Open D) (d : Dirent) (c size left : ℕ) (r : Reader)
        → same_name snm tnm ≡ false
        → find_dirent io fsi snm buffer s ≡ (ok d, t)
        → find_dirent io fsi tnm buffer2 t ≡ (err enoent, t2)
        → InRange fsi c
        → Follows io fsi t2.vol (skip_of fsi d.entry_start) t2.fv.fv_cluster c
        → Within io fsi w al t2.fv.fv_cluster d.entry_start d.slots c
        → slots_of tnm ≤ d.slots
        → name_is_short tnm ≡ false
        → All IsPlain tnm
        → 0 < length tnm
        → length tnm < 256
        → length tnm < size
        → r.name.name_size ≡ size
        → test_bit (d.entry attr_at) volume_id_bit ≡ false
        → (p : Dirs D) × (rename io fsi owner now rdonly cr allocated buffer buffer2 removing snm
              tnm
              (within_one s)
            ≡ (ok tt, p))
          × Renamed now t2 d.entry_start d.slots
              (d.entry attr_at)
              (u32 (first_cluster_of d.entry))
              tnm
              c
              size
              left
              r
              p
    unfolding slots_of
    rename-Renamed rdonly cr allocated buffer buffer2 removing snm tnm s t t2 d c size left r differ
          there none_there rc f within few long plain more short fits now_size unlabelled =
        let fv = found_node owner (vnode_init owner zeroed) t d in
        let slots : slots_of tnm ≡ suc (num_lfn tnm) = rw long (omega arith) in
        let narrow : Within io fsi w al t2.fv.fv_cluster d.entry_start (slots_of tnm) c =
          (omega (arith, within.0), omega (arith, within.1)) in
        let (u, d83, eq, made) =
          create_fdentry-Created io fsi w (rename_flags true fv) owner now true tnm fv t2
            d.entry_start t2 (λ _. c) (inl refl) (inl (refl, refl, refl)) (omega arith)
            (Room-within io fsi w al t2.fv.fv_cluster d.entry_start (slots_of tnm) c t2.vol narrow
              rc f) in
        let after =
          Follows-same io fsi t2.vol u.vol (skip_of fsi d.entry_start) t2.fv.fv_cluster c
            (λ e re. made.laid.kept.0 0 e (omega (arith, w.geo.copies)) re) f in
        let (v', placed, cleared) =
          in_place io fsi w al owner now tnm fv (placed_node d.entry_start tnm fv) t2 u c eq few rc
            within after in
        (
          _,
          located rdonly cr allocated removing buffer buffer2 snm tnm s t d differ there
              ∙ missing rdonly cr allocated removing buffer2 tnm fv
                  (placed_node d.entry_start tnm fv) t t2 (record { fv = u.fv; vol = v' })
                  none_there few placed
              ∙ rw made.directory
                  (settled (placed_node d.entry_start tnm fv) (record { fv = t2.fv; vol = v' })),
          Renamed-Cleared tnm fv t2 u c size left r d83 v' rc within slots few long plain more short
              fits now_size unlabelled made cleared,
        )
