-- ===== src/Dir/Alloc.antt =====
-- fat32_alloc_fdentry: the search for a run of free entries, and the growth of the directory.
use fat.Shared.{ℕ, zero, suc, ◌+◌, ◌*◌, true, ltb, ◌==◌, if◌then◌else◌, u32, sub32, ◌>>>◌}
use fat.Bytes.{Bytes}
use fat.Device.{BlockIo, buf_errno}
use fat.Fat.{Info, Volume, Ret, ok, err, stuck, M, pure, ◌>>=◌, ◌>>◌, einval, cluster_bad}
use fat.Cluster.{no_flags, read_cluster, next_cluster, free_clusters}
use fat.Time.{Timespec}
use fat.Vnode.Cache.{Open, Vm, chain, lift}
use fat.Dir.{dentry_size, init_dir}

-- What the scan of a cluster ends with: a run that is long enough, the end mark of the directory, or
-- the end of the cluster with the length of the run so far. Each has where the run begins.
pub data Scan : Type 0 where
  enough : ℕ → Scan
  marked : ℕ → Scan
  scanned : ℕ → ℕ → Scan

-- The loop over the entries of a cluster, with `left` of them from `entry_offset` on.
unfoldable pub scan_entries : Bytes → ℕ → ℕ → ℕ → ℕ → ℕ → ℕ → Scan
scan_entries bytes num_entries current_offset zero entry_offset consecutive_free start =
    scanned consecutive_free start
scan_entries bytes num_entries current_offset (suc left) entry_offset consecutive_free start =
    let first_char = bytes entry_offset in
    let start' = if consecutive_free == 0 then u32 (current_offset + entry_offset) else start in
    let grown =
      scan_entries bytes num_entries current_offset left (entry_offset + dentry_size)
        (consecutive_free + 1) start' in
    let broken =
      scan_entries bytes num_entries current_offset left (entry_offset + dentry_size) 0 start in
    if first_char == 0
    then marked start'
    else if first_char == 0xe5
    then (if consecutive_free + 1 == num_entries then enough start' else grown)
    else broken

-- How the search over the clusters ends: with a run, or at the end of the chain, where the last
-- cluster, the size of the directory, and the start of a run (or of the end mark) are known.
pub data Search : Type 0 where
  run_at : ℕ → Search
  chain_end : ℕ → ℕ → ℕ → Search

module _ {D : Type 0} (io : BlockIo D) (fsi : Info) where
  -- After a cluster: on to the next one, or the end of the chain. `onward` is the search from there.
  unfoldable pub go_on : ℕ → ℕ → ℕ → (ℕ → M D Search) → Ret ℕ × Volume D → Ret Search × Volume D
  go_on current_cluster current_offset start onward (ok next, v) = onward next v
  go_on current_cluster current_offset start onward (err e, v) =
      (ok (chain_end current_cluster current_offset start), v)
  go_on current_cluster current_offset start onward (stuck, v) = (stuck, v)

  -- The outer loop once the end mark was seen (scanning = 0).
  unfoldable pub follow_on : ℕ → ℕ → ℕ → ℕ → M D Search
  follow_on zero current_cluster current_offset start v = (stuck, v)
  follow_on (suc fuel) current_cluster current_offset start v =
      let offset' = u32 (current_offset + fsi.bytes_per_cluster) in
      go_on current_cluster offset' start (λ next. follow_on fuel next offset' start)
        (next_cluster io fsi current_cluster no_flags v)

  -- The outer loop while it scans. Without an end mark and an open run, the start is the end.
  unfoldable pub search_slots : ℕ → ℕ → ℕ → ℕ → ℕ → ℕ → M D Search
  search_slots num_entries zero current_cluster current_offset consecutive_free start v = (stuck, v)
  search_slots num_entries (suc fuel) current_cluster current_offset consecutive_free start v =
      let bp = read_cluster io fsi v.disk current_cluster in
      let offset' = u32 (current_offset + fsi.bytes_per_cluster) in
      let after = next_cluster io fsi current_cluster no_flags v in
      let result : Scan → Ret Search × Volume D = λ r. elim r [
        | enough at ↦ (ok (run_at at), v)
        | marked at ↦
            go_on current_cluster offset' at (λ next. follow_on fuel next offset' at) after
        | scanned free at ↦
            go_on current_cluster offset' (if free == 0 then offset' else at)
              (λ next. search_slots num_entries fuel next offset' free at) after
      ] in
      if bp.failed
      then (err (buf_errno bp), v)
      else result (
          scan_entries bp.bytes num_entries current_offset (fsi.bytes_per_cluster >>> 5) 0
            consecutive_free start)

  -- The loop that adds clusters, one at a time.
  unfoldable pub add_clusters : ℕ → ℕ → M D (Unit {0})
  add_clusters zero last_cluster = pure tt
  add_clusters (suc left) last_cluster = do
    new_cluster ← next_cluster io fsi last_cluster (record { alloc = true; clear = true })
    add_clusters left new_cluster

  -- What follows the search: the clusters that are missing up to needed_end.
  unfoldable pub grow : ℕ → Search → M D ℕ
  grow num_entries (run_at at) = pure at
  grow num_entries (chain_end last_cluster current_offset start) =
      let needed_end = u32 (start + u32 (num_entries * 32)) in
      let bytes_needed = sub32 needed_end current_offset in
      let clusters_needed =
        u32 (sub32 (u32 (bytes_needed + fsi.bytes_per_cluster)) 1) >>> fsi.cluster_shift in
      let grown : M D ℕ = (do add_clusters clusters_needed last_cluster; pure start) in
      if ltb current_offset needed_end then grown else pure start

  -- The branch for a directory with no cluster.
  unfoldable pub first_directory : Timespec → Vm D ℕ
  first_directory now s =
      let give_back : ℕ → ℕ → Open D → Ret ℕ × Open D =
        λ e c t. (err e, record t { vol = (free_clusters io fsi c true t.vol).1 }) in
      let made : ℕ → Ret (Unit {0}) × Volume D → Ret ℕ × Open D = λ c r.
        let t = record s { vol = r.1 } in
        elim r.0 [
          | ok u ↦ (
            ok 64,
            record t {
              fv = record s.fv {
                fv_cluster = c;
                fv_flags = record s.fv.fv_flags { cluster_dirty = true };
              };
            },
          )
          | err e ↦ give_back e c t
          | stuck ↦ (stuck, t)
        ] in
      chain {D = D} (lift (next_cluster io fsi 0 (record { alloc = true; clear = true })) s) λ c t.
        if s.fv.fv_parent_cluster == cluster_bad
        then give_back einval c t
        else made c (init_dir io fsi now c s.fv.fv_parent_cluster t.vol)

  -- A chain without a circle has fewer clusters than this.
  abbrev pub slots_fuel : ℕ
  slots_fuel = fsi.cluster_count + 1

  -- fat32_alloc_fdentry
  unfoldable pub alloc_fdentry : Timespec → ℕ → Vm D ℕ
  alloc_fdentry now num_entries s =
      let found : M D ℕ = do
        r ← search_slots num_entries slots_fuel s.fv.fv_cluster 0 0 0
        grow num_entries r
      in if s.fv.fv_cluster == 0 then first_directory now s else lift found s
