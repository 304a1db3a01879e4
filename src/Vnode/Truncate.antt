-- ===== src/Vnode/Truncate.antt =====
-- fat32_truncate of fat32_file.c.
use fat.Shared.{
  ℕ, ◌+◌, ◌-◌, true, false, not, ◌&&◌, map, ltb, leb, ◌==◌, if◌then◌else◌, u32, sub32, ◌>>>◌,
}
use fat.Device.{BlockIo}
use fat.Fat.{Info, Ret, ok, err, stuck, enospc, cluster_min, cluster_eoc_min}
use fat.Cluster.{NcFlags, no_flags, next_cluster, free_clusters}
use fat.Vnode.{Vnode, CacheEntry, empty_cache, is_dir}
use fat.Vnode.Cache.{Open, Vm, ret, ◌>>=◌, ◌>>◌, lift, modify, vnode_seek_cluster}

-- needed_clusters; the sum of an off_t does not overflow below 2 ^ 63.
unfoldable pub needed_clusters : Info → ℕ → ℕ
needed_clusters fsi size =
    if size == 0 then 0 else u32 ((size + fsi.bytes_per_cluster - 1) >>> fsi.cluster_shift)

-- `index >= needed_clusters` makes an entry unused.
abbrev pub drop_entry : ℕ → CacheEntry → CacheEntry
drop_entry needed e =
    if not (e.cluster == 0) && leb needed e.index then record e { cluster = 0 } else e

abbrev pub drop_beyond : ℕ → Vnode → Vnode
drop_beyond needed fv = record fv { fv_cls_cache = map (drop_entry needed) fv.fv_cls_cache }

abbrev pub emptied : Vnode → Vnode
emptied fv = record fv {
  fv_cls_cache = empty_cache;
  fv_size = 0;
  fv_flags = record fv.fv_flags { size_dirty = true; cluster_dirty = true; modified = true };
}

abbrev pub resized : ℕ → Vnode → Vnode
resized size fv = record fv {
  fv_size = if is_dir fv.fv_type then 0 else size;
  fv_flags = record fv.fv_flags { size_dirty = true; modified = true };
}

abbrev pub first_cluster : ℕ → Vnode → Vnode
first_cluster c fv = record fv {
  fv_cluster = c;
  fv_flags = record fv.fv_flags { cluster_dirty = true; modified = true };
}

module _ {D : Type 0} (io : BlockIo D) (fsi : Info) where
  -- The branch for no cluster at all.
  unfoldable pub truncate_to_zero : Vm D (Unit {0})
  truncate_to_zero s =
      let freed : Vm D (Unit {0}) = do
        lift (free_clusters io fsi s.fv.fv_cluster true)
        modify (λ fv. record fv { fv_cluster = 0 })
      in let all : Vm D (Unit {0}) = do
        (if leb cluster_min s.fv.fv_cluster then freed else ret tt)
        modify emptied
        in all s

  -- `if (fv->fv_cluster == 0)`: the first cluster.
  unfoldable pub ensure_first : NcFlags → Vm D (Unit {0})
  ensure_first flags s =
      let first : Vm D (Unit {0}) = do
        cluster ← lift (next_cluster io fsi 0 flags)
        modify (first_cluster cluster)
      in if s.fv.fv_cluster == 0 then first s else (ok tt, s)

  -- What follows the last needed cluster is freed. `r` is the answer of fat32_next_cluster for it.
  unfoldable pub free_extra : ℕ → ℕ → Ret ℕ × Open D → Ret (Unit {0}) × Open D
  free_extra needed cluster (ok next, s) =
      let freed : Vm D (Unit {0}) = do
        lift (free_clusters io fsi cluster false)
        modify (drop_beyond needed)
      in if leb cluster_min next && ltb next cluster_eoc_min then freed s else (ok tt, s)
  free_extra needed cluster (err e, s) = if e == enospc then (ok tt, s) else (err e, s)
  free_extra needed cluster (stuck, s) = (stuck, s)

  -- fat32_truncate
  unfoldable pub truncate : ℕ → Vm D (Unit {0})
  truncate size s =
      let needed = needed_clusters fsi size in
      let flags : NcFlags = record { alloc = true; clear = is_dir s.fv.fv_type } in
      let some_left : Vm D (Unit {0}) = do
        ensure_first flags
        cluster ← vnode_seek_cluster io fsi (sub32 needed 1) flags
        (λ t. free_extra needed cluster (lift (next_cluster io fsi cluster no_flags) t))
        modify (resized size)
      in if needed == 0 then truncate_to_zero s else some_left s
