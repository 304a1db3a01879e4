-- ===== src/Cluster.antt =====
-- Cluster chains, after fat32_cls.c: allocation, the next cluster of a chain, freeing a chain,
-- seeking along it, clearing a cluster.
pub mod View
pub mod Search
pub mod Allocate
pub mod Follow
pub mod Chain
pub mod Blocks
pub mod Free
pub mod Count
pub mod Ends
use fat.Shared.{
  ℕ, zero, suc, ◌+◌, Bool, false, ◌&&◌, ◌||◌, none, some, ltb, leb, ◌==◌, if◌then◌else◌, u32, sub32,
  ◌<<<◌,
}
use fat.Bytes.{wle32}
use fat.Device.{Buf, BlockIo, buf_errno, eio}
use fat.Fat.{
  Info, Volume, ok, err, M, pure, fail, diverge, and_then, after_error, ◌>>=◌, ◌>>◌, einval, enospc,
  cluster_free, cluster_min, cluster_bad, cluster_eoc_min, cluster_eoc, rmw_cluster,
}

-- Where fat32_fsinfo_t keeps free_count and next_free.
abbrev pub free_count_at : ℕ
free_count_at = 488

abbrev pub next_free_at : ℕ
next_free_at = 492

-- FSInfo's mark for an unknown count.
abbrev pub unknown : ℕ
unknown = 0xffffffff

-- NC_ALLOC and NC_CLEAR.
pub record NcFlags : Type 0 where
  pub alloc : Bool
  pub clear : Bool

abbrev pub no_flags : NcFlags
no_flags = record { alloc = false; clear = false }

-- fat32_cluster_to_sector
unfoldable pub cluster_to_sector : Info → ℕ → ℕ
cluster_to_sector fsi cluster =
    u32 (fsi.data_start + u32 (sub32 cluster cluster_min <<< fsi.spc_shift))

-- The range test of fat32_next_cluster and fat32_free_clusters.
abbrev pub out_of_range : Info → ℕ → Bool
out_of_range fsi c = ltb c cluster_min || ltb (u32 (fsi.cluster_count + 1)) c

module _ {D : Type 0} (io : BlockIo D) (fsi : Info) where
  -- fat32_read_cluster
  unfoldable pub read_cluster : D → ℕ → Buf
  read_cluster d cluster = io.bread d (cluster_to_sector fsi cluster) fsi.sectors_per_cluster

  -- The loop of fat32_clear_cluster over single blocks, `left` of them from `sector` on.
  unfoldable pub clear_blocks : ℕ → ℕ → D → D
  clear_blocks zero sector d = d
  clear_blocks (suc left) sector d =
      clear_blocks left (u32 (sector + 1)) (io.bdwrite d sector 1 (λ _. 0))

  -- fat32_clear_cluster
  unfoldable pub clear_cluster : ℕ → M D (Unit {0})
  clear_cluster cluster v = (
    ok tt,
    record v { disk = clear_blocks fsi.sectors_per_cluster (cluster_to_sector fsi cluster) v.disk },
  )

  -- The search loop of fat32_allocate_cluster, with `left` = fsi_cluster_count - clusters_searched.
  unfoldable pub search_free : ℕ → ℕ → ℕ → M D ℕ
  search_free start zero new_cluster = fail enospc
  search_free start (suc left) new_cluster = do
    value ← rmw_cluster io fsi new_cluster none
    let up = u32 (new_cluster + 1)
    let next = if ltb (u32 (fsi.cluster_count + 1)) up then cluster_min else up
    let rest = search_free start left next
    if value == cluster_free then pure new_cluster else if next == start then fail enospc else rest

  -- `if (parent != 0)`: the link, and the entry given back where that fails.
  unfoldable pub link_parent : ℕ → ℕ → M D (Unit {0})
  link_parent parent new_cluster v =
      if parent == 0
      then (ok tt, v)
      else after_error (and_then (rmw_cluster io fsi parent (some new_cluster) v) (λ _. pure tt))
          (rmw_cluster io fsi new_cluster (some cluster_free))

  -- The FSInfo update of fat32_allocate_cluster.
  unfoldable pub note_allocated : ℕ → ℕ → M D (Unit {0})
  note_allocated free_count new_cluster v =
      let bp = io.bread v.disk fsi.fsinfo_sector 1 in
      let new_free_count = sub32 free_count 1 in
      let up = u32 (new_cluster + 1) in
      let new_next_free = if ltb (u32 (fsi.cluster_count + 1)) up then cluster_min else up in
      let bytes = wle32 new_next_free (wle32 new_free_count bp.bytes free_count_at) next_free_at in
      if bp.failed then (err (buf_errno bp), v) else (
        ok tt,
        record {
          disk = io.bdwrite v.disk fsi.fsinfo_sector 1 bytes;
          free_count = new_free_count;
          next_free = new_next_free;
        },
      )

  -- Where the search starts: the hint of FSInfo, if it is a cluster number.
  abbrev pub search_start : Volume D → ℕ
  search_start v = if out_of_range fsi v.next_free then cluster_min else v.next_free

  -- fat32_allocate_cluster; `parent` 0 links nothing.
  unfoldable pub allocate_cluster : ℕ → NcFlags → M D ℕ
  allocate_cluster parent flags v =
      let allocated : M D ℕ = do
        new_cluster ← search_free (search_start v) fsi.cluster_count (search_start v)
        _ ← rmw_cluster io fsi new_cluster (some cluster_eoc)
        link_parent parent new_cluster
        note_allocated v.free_count new_cluster
        (if flags.clear then clear_cluster new_cluster else pure tt)
        pure new_cluster
      in if v.free_count == 0 || v.free_count == unknown then (err enospc, v) else allocated v

  -- fat32_next_cluster. On ENOSPC the source also stores the end mark in *next, which no caller reads.
  unfoldable pub next_cluster : ℕ → NcFlags → M D ℕ
  next_cluster current flags v =
      let followed : M D ℕ = do
        next ← rmw_cluster io fsi current none
        if leb cluster_eoc_min next
            then (if flags.alloc then allocate_cluster current flags else fail enospc)
            else if next == cluster_bad || next == cluster_free || out_of_range fsi next
            then fail eio
            else pure next
      in if current == 0
        then (if flags.alloc then allocate_cluster 0 flags v else (err einval, v))
        else if out_of_range fsi current
        then (err einval, v)
        else followed v

  -- The loop of fat32_free_clusters; the result is freed_count.
  unfoldable pub free_walk : ℕ → ℕ → ℕ → M D ℕ
  free_walk zero current freed = diverge
  free_walk (suc fuel) current freed =
      let step : M D ℕ = do
        next ← rmw_cluster io fsi current (some cluster_free)
        free_walk fuel next (u32 (freed + 1))
      in if leb cluster_min current && ltb current cluster_eoc_min then step else pure freed

  -- The FSInfo update of fat32_free_clusters; a failed read is passed over.
  unfoldable pub note_freed : ℕ → M D (Unit {0})
  note_freed freed v =
      let bp = io.bread v.disk fsi.fsinfo_sector 1 in
      let new_free_count = u32 (v.free_count + freed) in
      if freed == 0 || bp.failed || v.free_count == unknown then (ok tt, v) else (
        ok tt,
        record v {
          disk =
              io.bdwrite v.disk fsi.fsinfo_sector 1 (wle32 new_free_count bp.bytes free_count_at);
          free_count = new_free_count;
        },
      )

  -- Every round but the last frees an entry that was in use, so this is enough.
  abbrev pub free_fuel : ℕ
  free_fuel = fsi.cluster_count + 3

  -- fat32_free_clusters
  unfoldable pub free_clusters : ℕ → Bool → M D (Unit {0})
  free_clusters start free_start v =
      let whole : M D (Unit {0}) = (do freed ← free_walk free_fuel start 0; note_freed freed) in
      let tail : M D (Unit {0}) = do
        next ← rmw_cluster io fsi start (some cluster_eoc)
        let rest = (do freed ← free_walk free_fuel next 0; note_freed freed)
        if leb cluster_eoc_min next then pure tt else rest
      in if out_of_range fsi start then (err einval, v) else if free_start then whole v else tail v

  -- The loop of fat32_seek_cluster, with `left` clusters to skip.
  unfoldable pub seek_loop : ℕ → ℕ → NcFlags → M D ℕ
  seek_loop zero current flags = pure current
  seek_loop (suc left) current flags = do
    next ← next_cluster current flags
    seek_loop left next flags

  -- fat32_seek_cluster; the source's test for 0 clusters is the loop's first.
  unfoldable pub seek_cluster : ℕ → ℕ → NcFlags → M D ℕ
  seek_cluster start skip_clusters flags =
      if skip_clusters == 0 then pure start else seek_loop skip_clusters start flags
