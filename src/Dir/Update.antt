-- ===== src/Dir/Update.antt =====
-- fat32_update_fdentry: the dirty fields of a node go to its directory entry.
use fat.Shared.{
  ℕ, ◌+◌, ◌*◌, Bool, false, not, ◌||◌, Option, none, some, ◌==◌, if◌then◌else◌, u32, sub32, update,
  u16, ◌>>>◌,
}
use fat.Bytes.{Bytes, wle16, wle32}
use fat.Device.{BlockIo, buf_errno}
use fat.Fat.{Info, Ret, ok, err, stuck, einval, cluster_bad}
use fat.Cluster.{no_flags, cluster_to_sector, read_cluster, seek_cluster}
use fat.Time.{Timespec, FatTime, unix_to_fat_time}
use fat.Vnode.{Vnode, FvFlags}
use fat.Vnode.Cache.{Open, Vm, ◌>>=◌, lift}
use fat.Dir.{
  dentry_size, attr_at, create_time_tenth_at, create_time_at, create_date_at, last_access_date_at,
  write_time_at, write_date_at, file_size_at, skip_of, place_of, first_cluster_hi_at,
  first_cluster_lo_at,
}

-- FV_DIRTY_MASK
abbrev pub is_dirty : FvFlags → Bool
is_dirty f =
    f.atime_dirty || f.mtime_dirty || f.size_dirty || f.cluster_dirty || f.ctime_dirty
    || f.attr_dirty

abbrev pub undirtied : FvFlags → FvFlags
undirtied f = record f {
  atime_dirty = false;
  mtime_dirty = false;
  size_dirty = false;
  cluster_dirty = false;
  ctime_dirty = false;
  attr_dirty = false;
}

abbrev pub undirty : Vnode → Vnode
undirty fv = record fv { fv_flags = undirtied fv.fv_flags }

-- A time that is written where its flag is set; `none` only where the conversion of the model ends
-- without a result.
abbrev pub stamp : Bool → Timespec → (FatTime → Bytes → Bytes) → Bytes → Option Bytes
stamp dirty ts put b =
    let put_it : Option Bytes = elim (unix_to_fat_time ts) [
      | none ↦ none
      | some t ↦ some (put t b)
    ] in
    if dirty then put_it else some b

-- The fields of the entry at `place` of a block.
abbrev pub put_atime : ℕ → FatTime → Bytes → Bytes
put_atime place t b = wle16 t.date b (place + last_access_date_at)

abbrev pub put_mtime : ℕ → FatTime → Bytes → Bytes
put_mtime place t b = wle16 t.time (wle16 t.date b (place + write_date_at)) (place + write_time_at)

abbrev pub put_ctime : ℕ → FatTime → Bytes → Bytes
put_ctime place t b =
    update (wle16 t.time (wle16 t.date b (place + create_date_at)) (place + create_time_at))
      (place + create_time_tenth_at) t.tenths

abbrev pub put_cluster : ℕ → ℕ → Bytes → Bytes
put_cluster place c b =
    wle16 (u16 c) (wle16 (u16 (c >>> 16)) b (place + first_cluster_hi_at))
      (place + first_cluster_lo_at)

abbrev pub bind : Option Bytes → (Bytes → Option Bytes) → Option Bytes
bind none f = none
bind (some b) f = f b

-- The entry at `place` with its dirty fields replaced.
unfoldable pub update_entry : Vnode → ℕ → Bytes → Option Bytes
update_entry fv place b =
    let f = fv.fv_flags in
    bind (stamp f.atime_dirty fv.fv_atime (put_atime place) b) λ b1.
      bind (stamp f.mtime_dirty fv.fv_mtime (put_mtime place) b1) λ b2.
        bind (stamp f.ctime_dirty fv.fv_ctime (put_ctime place) b2) λ b3.
          let b4 = if f.attr_dirty then update b3 (place + attr_at) fv.fv_attr else b3 in
          let b5 = if f.size_dirty then wle32 fv.fv_size b4 (place + file_size_at) else b4 in
          some (if f.cluster_dirty then put_cluster place fv.fv_cluster b5 else b5)

-- Where the 8.3 entry of a node stands: the last of its entries.
abbrev pub target_offset : Vnode → ℕ
target_offset fv = u32 (fv.fv_diroff + u32 (sub32 fv.fv_dirsz 1 * dentry_size))

module _ {D : Type 0} (io : BlockIo D) (fsi : Info) where
  -- The part of fat32_update_fdentry behind the seek.
  unfoldable pub update_at : ℕ → Vm D (Unit {0})
  update_at target s =
      let bp = read_cluster io fsi s.vol.disk target in
      let updated : Ret (Unit {0}) × Open D =
        elim (update_entry s.fv (place_of fsi (target_offset s.fv)) bp.bytes) [
          | none ↦ (stuck, s)
          | some b ↦ (
            ok tt,
            record {
              fv = undirty s.fv;
              vol = record s.vol {
                disk =
                    io.bdwrite s.vol.disk (cluster_to_sector fsi target) fsi.sectors_per_cluster b;
              };
            },
          )
        ] in
      if bp.failed then (err (buf_errno bp), s) else updated

  -- fat32_update_fdentry
  unfoldable pub update_fdentry : Vm D (Unit {0})
  update_fdentry s =
      let parent_cluster =
        if s.fv.fv_parent_cluster == 0 then fsi.root_cluster else s.fv.fv_parent_cluster in
      let flushed : Vm D (Unit {0}) = do
        target_cluster ←
            lift (seek_cluster io fsi parent_cluster (skip_of fsi (target_offset s.fv)) no_flags)
        update_at target_cluster
      in if not (is_dirty s.fv.fv_flags)
        then (ok tt, s)
        else if s.fv.fv_flags.root
        then (ok tt, record s { fv = undirty s.fv })
        else if s.fv.fv_parent_cluster == cluster_bad
        then (err einval, record s { fv = undirty s.fv })
        else flushed s
