-- ===== src/Attr.antt =====
-- The attributes of a node in fat32_vnode.c: fat32_getattr, fat32_setattr, fat32_access and fat32_fsync,
-- and fat32_sync_metadata of fat32_dir.c. A mask of fields is a record of its bits.
pub mod Size
pub mod Mode
use fat.Shared.{
  ℕ, zero, suc, ◌+◌, ◌-◌, ◌*◌, Bool, true, false, not, ◌&&◌, Option, none, some, ◌==◌, ltb, leb,
  if◌then◌else◌, u32, sub32, ◌>>>◌, test_bit, set_bit, clear_bit,
}
use fat.Device.{BlockIo}
use fat.Time.{Timespec}
use fat.Fat.{Info, Volume, Ret, ok, err, stuck, M, cluster_min, cluster_eoc_min}
use fat.Cluster.{no_flags, next_cluster}
use fat.Vnode.{
  Vnode, Vtype, FvFlags, Wanted, Cred, is_dir, faccess, erofs, owner_write_bit, read_only_bit,
}
use fat.Vnode.Cache.{Open, Vm, chain, lift}
use fat.Vnode.Truncate.{truncate}
use fat.File.{eisdir}
use fat.Dir.Update.{is_dirty, update_fdentry}

-- The fields of struct vattr that the driver fills in; those it sets to 0 are left out.
pub record Vattr : Type 0 where
  pub va_type : Vtype
  pub va_mode : ℕ
  pub va_uid : ℕ
  pub va_gid : ℕ
  pub va_fsid : ℕ
  pub va_nodeid : ℕ
  pub va_nlink : ℕ
  pub va_size : ℕ
  pub va_nblocks : ℕ
  pub va_atime : Timespec
  pub va_mtime : Timespec
  pub va_ctime : Timespec
  pub va_blksize : ℕ

-- A request to fat32_setattr: each field that its mask names.
pub record Changes : Type 0 where
  pub size : Option ℕ
  pub mode : Option ℕ
  pub uid : Option ℕ
  pub gid : Option ℕ
  pub atime : Option Timespec
  pub mtime : Option Timespec
  pub ctime : Option Timespec

-- The mode, and the read-only attribute that follows it.
abbrev pub set_mode : ℕ → Vnode → Vnode
set_mode mode fv =
    let attr = fv.fv_attr in
    let dirtied = record fv.fv_flags { attr_dirty = true } in
    let writable = test_bit mode owner_write_bit in
    let read_only = test_bit attr read_only_bit in
    if writable && read_only
    then record fv { fv_mode = mode; fv_attr = clear_bit attr read_only_bit; fv_flags = dirtied }
    else if not writable && not read_only
    then record fv { fv_mode = mode; fv_attr = set_bit attr read_only_bit; fv_flags = dirtied }
    else record fv { fv_mode = mode }

abbrev pub set_atime : Timespec → Vnode → Vnode
set_atime t fv = record fv { fv_atime = t; fv_flags = record fv.fv_flags { atime_dirty = true } }

abbrev pub set_mtime : Timespec → Vnode → Vnode
set_mtime t fv = record fv { fv_mtime = t; fv_flags = record fv.fv_flags { mtime_dirty = true } }

abbrev pub set_ctime : Timespec → Vnode → Vnode
set_ctime t fv = record fv { fv_ctime = t; fv_flags = record fv.fv_flags { ctime_dirty = true } }

-- A field is set where the mask names it.
abbrev pub given : {A : Type 0} → Option A → (A → Vnode → Vnode) → Vnode → Vnode
given none f fv = fv
given (some x) f fv = f x fv

-- The fields behind the size.
unfoldable pub set_fields : Changes → Vnode → Vnode
set_fields c fv =
    let moded = given c.mode set_mode fv in
    let owned = given c.uid (λ uid n. record n { fv_uid = uid }) moded in
    let grouped = given c.gid (λ gid n. record n { fv_gid = gid }) owned in
    given c.ctime set_ctime (given c.mtime set_mtime (given c.atime set_atime grouped))

-- fat32_access
abbrev pub access : Bool → Wanted → Cred → Vnode → ℕ
access rdonly wanted cr fv = faccess rdonly wanted cr fv

-- The loop of fat32_getattr behind a cluster: on to the next one, or the end of the count.
abbrev pub count_on : {D : Type 0} → (ℕ → M D ℕ) → ℕ → Ret ℕ × Volume D → Ret ℕ × Volume D
count_on onward counted (ok next, v) = onward next v
count_on onward counted (err e, v) = (ok counted, v)
count_on onward counted (stuck, v) = (stuck, v)

abbrev pub unreported : {D : Type 0} → Ret (Unit {0}) × Open D → Ret (Unit {0}) × Open D
unreported (ok x, s) = (ok tt, s)
unreported (err e, s) = (ok tt, s)
unreported (stuck, s) = (stuck, s)

module _ {D : Type 0} (io : BlockIo D) (fsi : Info) where
  -- The loop of fat32_getattr: the number of clusters from `current` on. An error ends the count.
  unfoldable pub count_loop : ℕ → ℕ → ℕ → M D ℕ
  count_loop zero current num_clusters v = (stuck, v)
  count_loop (suc fuel) current num_clusters v =
      let counted = u32 (num_clusters + 1) in
      if leb cluster_min current && ltb current cluster_eoc_min
      then count_on (λ next. count_loop fuel next counted) counted
          (next_cluster io fsi current no_flags v)
      else (ok num_clusters, v)

  abbrev pub count_fuel : ℕ
  count_fuel = fsi.cluster_count + 1

  abbrev pub vattr_of : ℕ → Vnode → ℕ → ℕ → Vattr
  vattr_of dev fv size nblocks = record {
    va_type = fv.fv_type;
    va_mode = fv.fv_mode;
    va_uid = fv.fv_uid;
    va_gid = fv.fv_gid;
    va_fsid = dev;
    va_nodeid = fv.fv_cluster;
    va_nlink = if is_dir fv.fv_type then 2 else 1;
    va_size = size;
    va_nblocks = nblocks;
    va_atime = fv.fv_atime;
    va_mtime = fv.fv_mtime;
    va_ctime = fv.fv_ctime;
    va_blksize = fsi.bytes_per_cluster;
  }

  -- At least one cluster.
  abbrev pub at_least_one : ℕ → ℕ
  at_least_one n = if n == 0 then 1 else n

  -- The size of a directory of so many clusters.
  abbrev pub counted_attr : ℕ → Vnode → Ret ℕ × Volume D → Ret Vattr × Volume D
  counted_attr dev fv (ok n, v) =
      (ok (vattr_of dev fv (u32 (at_least_one n * fsi.bytes_per_cluster)) (at_least_one n)), v)
  counted_attr dev fv (err e, v) = (err e, v)
  counted_attr dev fv (stuck, v) = (stuck, v)

  -- fat32_getattr; `dev` is fsi_dev.
  unfoldable pub getattr : ℕ → Vnode → M D Vattr
  unfolding count_loop
  getattr dev fv v =
      let blocks = (fv.fv_size + fsi.bytes_per_cluster - 1) >>> fsi.cluster_shift in
      if is_dir fv.fv_type
      then counted_attr dev fv (count_loop count_fuel fv.fv_cluster 0 v)
      else (ok (vattr_of dev fv fv.fv_size blocks), v)

  -- fat32_sync_metadata, as the locks let it run.
  abbrev pub sync_metadata : Vm D (Unit {0})
  sync_metadata = update_fdentry io fsi

  -- fat32_fsync: an error is passed over.
  unfoldable pub fsync : Vm D (Unit {0})
  fsync s = if is_dirty s.fv.fv_flags then unreported (sync_metadata s) else (ok tt, s)

  -- fat32_setattr; `rdonly` is VFS_RDONLY.
  unfoldable pub setattr : Bool → Changes → Vm D (Unit {0})
  unfolding set_fields
  setattr rdonly c s =
      let resize : Vm D (Unit {0}) = λ t. elim c.size [
        | none ↦ (ok tt, t)
        | some size ↦ if is_dir t.fv.fv_type then (err eisdir, t) else truncate io fsi size t
      ] in
      let flush : Vm D (Unit {0}) =
        λ t. if is_dirty t.fv.fv_flags then sync_metadata t else (ok tt, t) in
      let changed : Ret (Unit {0}) × Open D =
        chain {D = D} (resize s) λ _ t. flush (record t { fv = set_fields c t.fv }) in
      if rdonly then (err erofs, s) else changed
