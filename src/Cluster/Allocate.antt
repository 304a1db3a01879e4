-- ===== src/Cluster/Allocate.antt =====
-- fat32_allocate_cluster: the new cluster was free, is marked and linked in every copy, and the counts
-- follow.
use fat.Shared.{
  ℕ, ◌+◌, ◌-◌, ◌*◌, ◌≤◌, ◌<◌, ◌≡◌, refl, ap, ◌∙◌, ◌≢◌, ◌⊎◌, inl, inr, Bool, true, false, some,
  arith, if◌then◌else◌, u32, sub32, ◌==◌, ltb, ==_true, ==_false,
}
use fat.Bytes.{wle32}
use fat.Device.{BlockIo}
use fat.Fat.{
  rmw_cluster, Info, Volume, Ret, ok, err, stuck, pure, ◌>>=◌, ◌>>◌, and_then, enospc, cluster_min,
  cluster_eoc,
}
use fat.Fat.Entry.{InRange, fat_entry, write_fat, write_fat-entry}
use fat.Cluster.{
  NcFlags, unknown, link_parent, note_allocated, clear_cluster, clear_blocks, cluster_to_sector,
  allocate_cluster, free_count_at, next_free_at,
}
use fat.Cluster.View.{
  Works, table, write, fat_entry-bdwrite, fat_entry-clear_blocks, cluster_to_sector_lem, last_entry,
}
use fat.Cluster.Search.{Searched, search_free-Searched}

module _ {D : Type 0} (io : BlockIo D) (fsi : Info) where
  -- Cluster `c` was free, and is now the end of a chain, behind `parent` unless that is 0; in every
  -- copy of the table, and no other entry has changed. One cluster less is free.
  pub record Fresh (parent : ℕ) (v : Volume D) (c : ℕ) (v' : Volume D) : Type 0 where
    pub range : InRange fsi c
    pub was_free : table io fsi v c ≡ 0
    pub entries :
        (k e : ℕ)
        → k < fsi.num_fats
        → InRange fsi e
        → fat_entry io fsi v'.disk k e
          ≡ (if e == parent then c else if e == c then cluster_eoc else fat_entry io fsi v.disk k e)
    pub count : v'.free_count + 1 ≡ v.free_count
    pub hint : InRange fsi v'.next_free

  abbrev pub Allocated : ℕ → Volume D → Ret ℕ × Volume D → Type 0
  Allocated parent v (ok c, v') = Fresh parent v c v'
  Allocated parent v (err e, v') =
      (v' ≡ v) × (e ≡ enospc) × ((c : ℕ) → InRange fsi c → table io fsi v c ≢ 0)
  Allocated parent v (stuck, v') = ⊥

  module _ (w : Works io fsi) (parent : ℕ) (linkable : (parent ≡ 0) ⊎ InRange fsi parent) where
    -- The device after the link, after the FSInfo update, and after the clearing.
    abbrev linked : ℕ → D → D
    linked c d = if parent == 0 then d else write_fat io fsi c parent d

    link_parent-linked :
        (c : ℕ) (v : Volume D)
        → link_parent io fsi parent c v ≡ (ok tt, record v { disk = linked c v.disk })
    unfolding link_parent
    link_parent-linked c v = pick linkable
      where
        pick :
            (parent ≡ 0) ⊎ InRange fsi parent
            → link_parent io fsi parent c v ≡ (ok tt, record v { disk = linked c v.disk })
        pick (inl z) = rw (==_true z)
        pick (inr r) = rw (==_false {a = parent} {b = 0} (omega arith), write io fsi w parent c v r)

    linked-entry :
        (c k e : ℕ) (d : D)
        → InRange fsi c
        → k < fsi.num_fats
        → InRange fsi e
        → fat_entry io fsi (linked c d) k e ≡ (if e == parent then c else fat_entry io fsi d k e)
    linked-entry c k e d rc hk re = pick linkable
      where
        pick :
            (parent ≡ 0) ⊎ InRange fsi parent
            → fat_entry io fsi (linked c d) k e
              ≡ (if e == parent then c else fat_entry io fsi d k e)
        pick (inl z) = rw (==_true z, ==_false {a = e} {b = parent} (omega arith))
        pick (inr r) =
            rw
              (
                ==_false {a = parent} {b = 0} (omega arith),
                write_fat-entry io fsi w.geo w.cache parent c k e d r re hk,
              )
              (ground (arith, w.geo.clusters))

    abbrev cleared : Bool → ℕ → D → D
    cleared b c d =
        if b then clear_blocks io fsi fsi.sectors_per_cluster (cluster_to_sector fsi c) d else d

    cleared-entry :
        (b : Bool) (c k e : ℕ) (d : D)
        → InRange fsi c
        → k < fsi.num_fats
        → InRange fsi e
        → fat_entry io fsi (cleared b c d) k e ≡ fat_entry io fsi d k e
    cleared-entry true c k e d rc hk re =
        fat_entry-clear_blocks io fsi w fsi.sectors_per_cluster (cluster_to_sector fsi c) d k e re
          hk (rw (cluster_to_sector_lem io fsi w c rc) (omega arith))
          (rw (cluster_to_sector_lem io fsi w c rc) (omega (arith, w.geo.data_bound, room)))
      where
        room :
            (c - 2) * fsi.sectors_per_cluster + fsi.sectors_per_cluster
            ≤ (fsi.cluster_count + 1) * fsi.sectors_per_cluster
        room = last_entry (c - 2) (fsi.cluster_count + 1) fsi.sectors_per_cluster (omega arith)
    cleared-entry false c k e d rc hk re = refl

    abbrev noted : ℕ → ℕ → Volume D → Volume D
    noted free_count c v =
        let up = u32 (c + 1) in
        let next = if ltb (u32 (fsi.cluster_count + 1)) up then cluster_min else up in
        record {
          disk = io.bdwrite v.disk fsi.fsinfo_sector 1 (
              wle32 next
                (wle32 (sub32 free_count 1) (io.bread v.disk fsi.fsinfo_sector 1).bytes
                  free_count_at)
                next_free_at);
          free_count = sub32 free_count 1;
          next_free = next;
        }

    note_allocated-noted :
        (free_count c : ℕ) (v : Volume D)
        → note_allocated io fsi free_count c v ≡ (ok tt, noted free_count c v)
    unfolding note_allocated
    note_allocated-noted free_count c v = rw (w.healthy.fine v.disk fsi.fsinfo_sector 1)

    clear_step :
        (b : Bool) (c : ℕ) (u : Volume D)
        → (if b then clear_cluster io fsi c else pure tt) u
          ≡ (ok tt, record u { disk = cleared b c u.disk })
    unfolding clear_cluster
    clear_step true c u = refl
    clear_step false c u = refl

    -- The volume that a successful allocation of `c` leaves.
    abbrev allocated : Bool → ℕ → Volume D → Volume D
    allocated b c v =
        let u =
          noted v.free_count c
            (record v { disk = linked c (write_fat io fsi cluster_eoc c v.disk) }) in
        record u { disk = cleared b c u.disk }

    allocated-Fresh :
        (b : Bool) (c : ℕ) (v : Volume D)
        → 0 < v.free_count
        → v.free_count < unknown
        → InRange fsi c
        → table io fsi v c ≡ 0
        → Fresh parent v c (allocated b c v)
    allocated-Fresh b c v pos known rc free = record {
      range = rc;
      was_free = free;
      entries = λ k e hk re.
          cleared-entry b c k e _ rc hk re
          ∙ fat_entry-bdwrite io fsi w _ fsi.fsinfo_sector 1 _ k e re hk
              (inl (omega (arith, w.geo.info_before)))
          ∙ linked-entry c k e _ rc hk re
          ∙ ap (λ x. if e == parent then c else x)
              (write_fat-entry io fsi w.geo w.cache c cluster_eoc k e v.disk rc re hk);
      count = omega arith;
      hint = ground (arith, w.geo.clusters);
    }

    finish :
        (flags : NcFlags) (v : Volume D)
        → 0 < v.free_count
        → v.free_count < unknown
        → (r : Ret ℕ × Volume D) → Searched io fsi v r
        → Allocated parent v (
            and_then {D = D} r λ new_cluster. do
              _ ← rmw_cluster io fsi new_cluster (some cluster_eoc)
              link_parent io fsi parent new_cluster
              note_allocated io fsi v.free_count new_cluster
              (if flags.clear then clear_cluster io fsi new_cluster else pure tt)
              pure new_cluster)
    finish flags v pos known (ok c, v') (same, rc, free) =
        rw
          (
            same,
            write io fsi w c cluster_eoc v rc,
            link_parent-linked c,
            note_allocated-noted v.free_count c,
            clear_step flags.clear c,
          )
          (allocated-Fresh flags.clear c v pos known rc free)
    finish flags v pos known (err e, v') f = f
    finish flags v pos known (stuck, v') f = absurd f

    -- On a volume whose layout is sound and a device without read errors (`Works`): with a free
    -- count that is known and not 0, and a parent that is 0 or a cluster, the call, whatever its
    -- flags, either returns a cluster that was free, which is now in every copy of the table the
    -- end of a chain, linked behind the parent if there is one, with all other entries as before,
    -- the free count lower by one, and a cluster as the next hint; or it reports ENOSPC, which it
    -- does only where no entry is free, and then changes nothing.
    pub allocate_cluster-Allocated :
        (flags : NcFlags) (v : Volume D)
        → 0 < v.free_count
        → v.free_count < unknown
        → Allocated parent v (allocate_cluster io fsi parent flags v)
    unfolding allocate_cluster
    allocate_cluster-Allocated flags v pos known =
        rw
          (
            ==_false {a = v.free_count} {b = 0} (omega arith),
            ==_false {a = v.free_count} {b = unknown} (omega arith),
          )
          (finish flags v pos known _ (search_free-Searched io fsi w v))
