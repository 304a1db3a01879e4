-- ===== src/Dir/Placed.antt =====
-- fat32_create_fdentry as a whole: where there is room for the entries, they stand there afterwards.
use fat.Shared.{
  ℕ, suc, ◌+◌, ◌*◌, ◌^◌, ◌≤◌, ◌<◌, ◌≡◌, ◌⊎◌, inl, inr, refl, ◌∙◌, Bool, true, false, List, arith,
  u32, if◌then◌else◌, Bool-cases, some,
}
use fat.Bytes.{Bytes}
use fat.Device.{BlockIo}
use fat.Time.{Timespec}
use fat.Fat.{Info, Volume, ok}
use fat.Cluster.View.{Works}
use fat.ShortName.{name_is_short}
use fat.Lfn.{num_lfn}
use fat.Vnode.{Vnode, Owner, vdir, vreg, make_vnode}
use fat.Vnode.Cache.{Open}
use fat.Dir.Alloc.{alloc_fdentry}
use fat.Dir.Laid.{Room, Laid, name_slot}
use fat.Dir.Laying.{write_fdentry-Laid, write_lfn_fdentry-Laid}
use fat.Dir.Create.{
  CreFlags, slots_of, new_entry, start_of, write_entries, finish, enter, create_at, create_fdentry,
}
use fat.Dir.Created.{Described, new_entry-Described}

-- What stands in the entries of a name, the last one `d83`.
abbrev pub slot : List ℕ → Bytes → ℕ → Bytes
slot name d83 = if name_is_short name then (λ k. d83) else name_slot name d83

-- The first cluster of the entry, where none is made for it.
abbrev pub own_cluster : CreFlags → Vnode → ℕ
own_cluster flags fv = if flags.cre_rename then fv.fv_cluster else 0

-- A renamed entry, or a new file for which there is a vnode.
abbrev pub IsFile : CreFlags → Bool → Type 0
IsFile flags allocated =
    (flags.cre_rename ≡ true)
    ⊎ ((flags.cre_rename ≡ false) × (flags.cre_dir ≡ false) × (allocated ≡ true))

-- The node with the place of its entries.
abbrev pub placed_node : ℕ → List ℕ → Vnode → Vnode
placed_node offset name fv = record fv { fv_dirsz = slots_of name; fv_diroff = offset }

module _ {D : Type 0} (io : BlockIo D) (fsi : Info) (w : Works io fsi) where
  write_entries-Laid :
      (dir offset n : ℕ) (cl : ℕ → ℕ) (name : List ℕ) (d83 : Bytes) (v : Volume D)
      → slots_of name ≤ n
      → offset < 2 ^ 32
      → Room io fsi w dir offset n cl v
      → (v' : Volume D) × (write_entries io fsi dir offset name d83 v ≡ (ok tt, v'))
        × Laid io fsi w dir offset n cl 0 (slots_of name) (slot name d83) v v'
  unfolding write_entries slots_of
  write_entries-Laid dir offset n cl name d83 v few small room =
      elim (Bool-cases (name_is_short name)) [
        | inl p ↦
            let first : u32 (offset + 0 * 32) ≡ offset = omega arith in
            rw p (
              rw first at (
                write_fdentry-Laid io fsi w dir offset n cl (λ k. d83) v
                  (omega (arith, rw p at few)) room))
        | inr p ↦
            let more : (num_lfn name) + 1 ≡ suc (num_lfn name) = omega arith in
            rw (p, more)
              (write_lfn_fdentry-Laid io fsi w dir offset n cl name d83 v
                (omega (arith, rw p at few)) room)
      ]

  -- The node that is handed back.
  abbrev pub new_node : CreFlags → Owner → ℕ → Vnode → Vnode
  new_node flags owner dir fv =
      if flags.cre_rename then fv else (make_vnode fsi owner true 0 vreg (some dir) fv).1

  -- What is left of the directory `s` when the entries of the name were written: the 8.3 entry `d83`
  -- describes the node, and the entries stand in their slots.
  pub record Created (flags : CreFlags) (name : List ℕ) (fv : Vnode) (n : ℕ) (cl : ℕ → ℕ)
      (s u : Open D) (d83 : Bytes) : Type 0 where
    pub directory : u.fv ≡ s.fv
    pub entry : Described flags s.fv.fv_cluster fv name (own_cluster flags fv) d83
    pub laid :
        Laid io fsi w s.fv.fv_cluster fv.fv_diroff n cl 0
          (slots_of name)
          (slot name d83)
          s.vol
          u.vol

  start_of-own :
      (flags : CreFlags) (now : Timespec) (allocated : Bool) (dir : ℕ) (fv : Vnode) (v : Volume D)
      → IsFile flags allocated
      → start_of io fsi flags now dir fv.fv_cluster v ≡ (ok (own_cluster flags fv), v)
  unfolding start_of
  start_of-own flags now allocated dir fv v (inl p) = rw p refl
  start_of-own flags now allocated dir fv v (inr (p, q, _)) = rw (p, q) refl

  -- Nothing of a new node but its kind depends on the arguments.
  make_vnode-file :
      (flags : CreFlags) (owner : Owner) (allocated : Bool) (dir : ℕ) (fv : Vnode)
      → flags.cre_rename ≡ false
      → flags.cre_dir ≡ false
      → allocated ≡ true
      → make_vnode fsi owner allocated
          (own_cluster flags fv)
          (if flags.cre_dir then vdir else vreg)
          (some dir)
          fv
        ≡ (ok tt, (make_vnode fsi owner true 0 vreg (some dir) fv).1)
  unfolding make_vnode
  make_vnode-file flags owner allocated dir fv p q a = rw (p, q, a) refl

  finish-new_node :
      (flags : CreFlags) (owner : Owner) (allocated : Bool) (fv : Vnode) (s : Open D)
      → IsFile flags allocated
      → finish io fsi flags owner allocated (own_cluster flags fv) fv s
        ≡ (ok (new_node flags owner s.fv.fv_cluster fv), s)
  unfolding finish
  finish-new_node flags owner allocated fv s (inl p) = rw p refl
  finish-new_node flags owner allocated fv s (inr (p, q, a)) =
      rw (make_vnode-file flags owner allocated s.fv.fv_cluster fv p q a) (rw p refl)

  entered :
      (flags : CreFlags) (owner : Owner) (allocated : Bool) (name : List ℕ) (fv : Vnode)
      (d83 : Bytes) (v' : Volume D) (s : Open D)
      → IsFile flags allocated
      → write_entries io fsi s.fv.fv_cluster fv.fv_diroff name d83 s.vol ≡ (ok tt, v')
      → enter io fsi flags owner allocated name fv (own_cluster flags fv) (some d83) s
        ≡ (ok (new_node flags owner s.fv.fv_cluster fv), record { fv = s.fv; vol = v' })
  unfolding enter
  entered flags owner allocated name fv d83 v' s kind written =
      rw written (finish-new_node flags owner allocated fv (record { fv = s.fv; vol = v' }) kind)

  started :
      (flags : CreFlags) (owner : Owner) (now : Timespec) (allocated : Bool) (name : List ℕ)
      (fv : Vnode) (s : Open D)
      → IsFile flags allocated
      → create_at io fsi flags owner now allocated name fv s
        ≡ enter io fsi flags owner allocated name fv
            (own_cluster flags fv)
            (new_entry flags now s.fv.fv_cluster fv name (own_cluster flags fv))
            s
  unfolding create_at
  started flags owner now allocated name fv s kind =
      rw (start_of-own flags now allocated s.fv.fv_cluster fv s.vol kind) refl

  create_at-Created :
      (flags : CreFlags) (owner : Owner) (now : Timespec) (allocated : Bool) (name : List ℕ)
      (fv : Vnode) (s : Open D) (n : ℕ) (cl : ℕ → ℕ)
      → IsFile flags allocated
      → slots_of name ≤ n
      → fv.fv_diroff < 2 ^ 32
      → Room io fsi w s.fv.fv_cluster fv.fv_diroff n cl s.vol
      → (u : Open D) × (d83 : Bytes) × (create_at io fsi flags owner now allocated name fv s
          ≡ (ok (new_node flags owner s.fv.fv_cluster fv), u))
        × Created flags name fv n cl s u d83
  create_at-Created flags owner now allocated name fv s n cl kind few small room =
      let (d83, eq, entry) =
        new_entry-Described flags now s.fv.fv_cluster fv name (own_cluster flags fv) in
      let (v', written, laid) =
        write_entries-Laid s.fv.fv_cluster fv.fv_diroff n cl name d83 s.vol few small room in
      let u : Open D = record { fv = s.fv; vol = v' } in
      (
        u,
        d83,
        started flags owner now allocated name fv s kind
            ∙ rw eq (entered flags owner allocated name fv d83 v' s kind written),
        record { directory = refl; entry = entry; laid = laid },
      )

  -- Where the entries go: to the node's own place, or to what fat32_alloc_fdentry finds.
  abbrev pub PlacedAt : CreFlags → Timespec → List ℕ → Vnode → Open D → ℕ → Open D → Type 0
  PlacedAt flags now name fv s offset t =
      ((flags.cre_reuse ≡ true) × (offset ≡ fv.fv_diroff) × (t ≡ s))
      ⊎ ((flags.cre_reuse ≡ false) × (alloc_fdentry io fsi now (slots_of name) s ≡ (ok offset, t)))

  placed :
      (flags : CreFlags) (owner : Owner) (now : Timespec) (allocated : Bool) (name : List ℕ)
      (fv : Vnode) (s : Open D) (offset : ℕ) (t : Open D)
      → PlacedAt flags now name fv s offset t
      → create_fdentry io fsi flags owner now allocated name fv s
        ≡ create_at io fsi flags owner now allocated name (placed_node offset name fv) t
  unfolding create_fdentry
  placed flags owner now allocated name fv s offset t (inl (p, o, same)) = rw (p, o, same) refl
  placed flags owner now allocated name fv s offset t (inr (p, found)) = rw (p, found) refl

  pub create_fdentry-Created :
      (flags : CreFlags) (owner : Owner) (now : Timespec) (allocated : Bool) (name : List ℕ)
      (fv : Vnode) (s : Open D) (offset : ℕ) (t : Open D) (cl : ℕ → ℕ)
      → IsFile flags allocated
      → PlacedAt flags now name fv s offset t
      → offset < 2 ^ 32
      → Room io fsi w t.fv.fv_cluster offset (slots_of name) cl t.vol
      → (u : Open D) × (d83 : Bytes) × (create_fdentry io fsi flags owner now allocated name fv s
          ≡ (ok (new_node flags owner t.fv.fv_cluster (placed_node offset name fv)), u))
        × Created flags name (placed_node offset name fv) (slots_of name) cl t u d83
  create_fdentry-Created flags owner now allocated name fv s offset t cl kind at small room =
      rw (placed flags owner now allocated name fv s offset t at) (
        create_at-Created flags owner now allocated name (placed_node offset name fv) t
          (slots_of name) cl kind (omega arith) small room)
