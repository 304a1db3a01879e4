-- ===== src/Ops.antt =====
-- The removal of files and directories in fat32_vnode.c: fat32_dirempty, fat32_delete_fdentry_chain,
-- fat32_remove_common, and fat32_remove and fat32_rmdir, which call it.
pub mod Empty
pub mod Marked
pub mod Deleted
pub mod Remove
use fat.Shared.{
  ℕ, zero, suc, ◌+◌, ◌-◌, ◌*◌, ◌/◌, Bool, true, false, not, ◌&&◌, ◌||◌, List, [], ◌∷◌, ◌==◌, leb,
  if◌then◌else◌, test_bit, update, get_or, Option, none, some,
}
use fat.Bytes.{Bytes}
use fat.Device.{BlockIo, buf_errno}
use fat.Time.{Timespec}
use fat.Fat.{Info, Volume, Ret, ok, err, stuck, M, einval, cluster_bad, and_then, ◌>>=◌}
use fat.Cluster.{
  no_flags, cluster_to_sector, read_cluster, next_cluster, seek_cluster, free_clusters,
}
use fat.Lfn.{DName}
use fat.Vnode.{enomem, Vnode, Owner, Wanted, Cred, vnode_reset, touch, faccess, is_dir}
use fat.Vnode.Cache.{Open, Vm, chain, lift, modify}
use fat.Mount.{vnode_new}
use fat.File.{eisdir}
use fat.Dir.{dentry_size, attr_at, skip_of, place_of}
use fat.Dir.Dirent.{Dirent, volume_id_bit, enotdir, dir_fuel, entries_left, populate, find_dirent}

-- The value of ENOTEMPTY in the kernel's header.
abbrev pub enotempty : ℕ
enotempty = 93

-- What the scan of a cluster in fat32_dirempty ends with.
pub data Look : Type 0 where
  end_mark : Look
  in_use : Look
  all_passed : Look

-- The loop over the entries of a cluster, with `left` of them from `offset` on.
unfoldable pub look : Bytes → ℕ → ℕ → Look
look bytes zero offset = all_passed
look bytes (suc left) offset =
    let rest = look bytes left (offset + dentry_size) in
    if bytes offset == 0
    then end_mark
    else if bytes offset == 0xe5
    then rest
    else if test_bit (bytes (offset + attr_at)) volume_id_bit
    then rest
    else if bytes (offset + attr_at) == 0x0f
    then in_use
    else if bytes offset == b'.'
    then rest
    else in_use

-- FAT32_LFN_DELETED in the first byte of an entry.
abbrev pub mark_deleted : ℕ → Bytes → Bytes
mark_deleted offset b = update b offset 0xe5

-- The variables of the loop in fat32_delete_fdentry_chain: the cluster, its buffer, and the place in it.
pub record Spot : Type 0 where
  pub cluster : ℕ
  pub bytes : Bytes
  pub cluster_off : ℕ

-- An error that is reported and passed over.
abbrev pub pass_over : {D : Type 0} → Ret (Unit {0}) × Volume D → Ret (Unit {0}) × Volume D
pass_over (ok x, v) = (ok x, v)
pass_over (err e, v) = (ok tt, v)
pass_over (stuck, v) = (stuck, v)

-- `.` and `..`, of a name that ends with its list.
abbrev pub is_dots : List ℕ → Bool
is_dots name =
    (get_or name 0 0 == b'.')
    && (get_or name 1 0 == 0 || (get_or name 1 0 == b'.' && get_or name 2 0 == 0))

-- Where the next cluster is an error, the loop of fat32_dirempty ends.
abbrev pub past_error :
    {D : Type 0} → (ℕ → M D (Unit {0})) → Ret ℕ × Volume D → Ret (Unit {0}) × Volume D
past_error onward (ok next, v) = onward next v
past_error onward (err e, v) = (ok tt, v)
past_error onward (stuck, v) = (stuck, v)

module _ {D : Type 0} (io : BlockIo D) (fsi : Info) where
  -- The loop of fat32_dirempty over the clusters. An error in the table ends it as the end does.
  unfoldable pub empty_loop : ℕ → ℕ → M D (Unit {0})
  unfolding look
  empty_loop zero current v = (stuck, v)
  empty_loop (suc fuel) current v =
      let bp = read_cluster io fsi v.disk current in
      let looked : Look → Ret (Unit {0}) × Volume D = λ l. elim l [
        | end_mark ↦ (ok tt, v)
        | in_use ↦ (err enotempty, v)
        | all_passed ↦ past_error (empty_loop fuel) (next_cluster io fsi current no_flags v)
      ] in
      if bp.failed then (err enotempty, v) else looked (look bp.bytes (entries_left io fsi 0) 0)

  -- fat32_dirempty
  unfoldable pub dirempty : Vnode → M D (Unit {0})
  unfolding empty_loop
  dirempty fv v =
      if not (is_dir fv.fv_type)
      then (err enotdir, v)
      else if fv.fv_cluster == 0
      then (ok tt, v)
      else empty_loop (dir_fuel io fsi) fv.fv_cluster v

  abbrev pub put_spot : Spot → Volume D → Volume D
  put_spot p v = record v {
    disk = io.bdwrite v.disk (cluster_to_sector fsi p.cluster) fsi.sectors_per_cluster p.bytes;
  }

  -- fat32_read_cluster with its test, into a buffer for the cluster.
  abbrev pub open_spot : ℕ → ℕ → M D Spot
  open_spot place target v =
      let bp = read_cluster io fsi v.disk target in
      if bp.failed
      then (err (buf_errno bp), v)
      else (ok (record { cluster = target; bytes = bp.bytes; cluster_off = place }), v)

  -- Behind the last entry of a cluster the buffer is written and the next cluster is read.
  unfoldable pub turn : Spot → M D Spot
  turn p v =
      let onward : M D Spot = do next ← next_cluster io fsi p.cluster no_flags; open_spot 0 next
      in if leb fsi.bytes_per_cluster p.cluster_off then onward (put_spot p v) else (ok p, v)

  -- The loop of fat32_delete_fdentry_chain.
  unfoldable pub delete_loop : ℕ → Spot → M D (Unit {0})
  unfolding turn
  delete_loop zero p v = (ok tt, put_spot p v)
  delete_loop (suc left) p v =
      let go : M D (Unit {0}) = do
        q ← turn p
        delete_loop left (record {
          cluster = q.cluster;
          bytes = mark_deleted q.cluster_off q.bytes;
          cluster_off = q.cluster_off + dentry_size;
        })
      in go v

  -- fat32_delete_fdentry_chain
  unfoldable pub delete_fdentry_chain : ℕ → ℕ → ℕ → M D (Unit {0})
  unfolding delete_loop
  delete_fdentry_chain dir_cluster offset count = do
    current_cluster ← seek_cluster io fsi dir_cluster (skip_of fsi offset) no_flags
    p ← open_spot (place_of fsi offset) current_cluster
    delete_loop count p

  -- The refusals of fat32_remove_common for the node that was found; `cdir` is the cluster of the
  -- current directory, where the caller gives one.
  abbrev pub refuse : Bool → Option ℕ → Vnode → M D (Unit {0})
  refuse dir cdir fv v =
      let current : Bool = elim cdir [ none ↦ false | some c ↦ fv.fv_cluster == c ] in
      if dir
      then (if not (is_dir fv.fv_type)
          then (err enotdir, v)
          else if current
          then (err einval, v)
          else dirempty fv v)
      else if is_dir fv.fv_type
      then (err eisdir, v)
      else (ok tt, v)

  -- Its last steps: the entries are marked and the clusters freed, with errors passed over.
  abbrev pub discard : Vnode → M D (Unit {0})
  discard fv v =
      let marked =
        pass_over (delete_fdentry_chain fv.fv_parent_cluster fv.fv_diroff fv.fv_dirsz v) in
      let freed : Ret (Unit {0}) × Volume D = and_then marked λ _ v'.
        if fv.fv_cluster == 0
        then (ok tt, v')
        else pass_over (free_clusters io fsi fv.fv_cluster true v') in
      if fv.fv_parent_cluster == cluster_bad then (err einval, v) else freed

  -- fat32_remove_common; `rdonly` is VFS_RDONLY, `allocated` whether there is room for a node, and
  -- `buffer` the local d_name of fat32_find_dirent.
  unfoldable pub remove_common :
      Owner → Timespec → Bool → Cred → Bool → DName → List ℕ → Bool → Option ℕ → Vm D (Unit {0})
  unfolding find_dirent delete_fdentry_chain dirempty
  remove_common owner now rdonly cr allocated buffer name dir cdir s =
      let denied_by =
        faccess rdonly (record { vread = false; vwrite = true; vexec = true }) cr s.fv in
      let removed : Vnode → Ret (Unit {0}) × Open D = λ fresh.
        chain {D = D} (find_dirent io fsi name buffer s) λ d t.
          let fv = populate t.fv.fv_cluster d (vnode_reset owner fresh) in
          chain {D = D} (lift (refuse dir cdir fv) t)
            λ _ t'. chain {D = D} (lift (discard fv) t') (λ _. modify (touch now false true)) in
      if is_dots name
      then (err einval, s)
      else if not (denied_by == 0)
      then (err denied_by, s)
      else elim (vnode_new owner allocated) [ none ↦ (err enomem, s) | some fresh ↦ removed fresh ]

  -- fat32_remove and fat32_rmdir
  abbrev pub remove : Owner → Timespec → Bool → Cred → Bool → DName → List ℕ → Vm D (Unit {0})
  remove owner now rdonly cr allocated buffer name =
      remove_common owner now rdonly cr allocated buffer name false none

  abbrev pub rmdir :
      Owner → Timespec → Bool → Cred → Bool → DName → List ℕ → Option ℕ → Vm D (Unit {0})
  rmdir owner now rdonly cr allocated buffer name cdir =
      remove_common owner now rdonly cr allocated buffer name true cdir
