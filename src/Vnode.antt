-- ===== src/Vnode.antt =====
-- The in-memory node of a file or directory: fat32fs_vnode_t of fat32fs.h, its set-up and reset
-- (fat32_util.c), and the functions of fat32_file.c. The flag word is a record of its bits, and the
-- kernel's own objects (the vnode and its behaviour descriptor, the locks, reference counts) have no
-- counterpart but whether a parent is held. The files below hold the cluster cache, truncation, and
-- what is proved of them.
pub mod Cache
pub mod Truncate
pub mod Sound
pub mod Kept
pub mod Cut
pub mod Shrink
pub mod Access
use fat.Shared.{
  ℕ, zero, suc, ◌+◌, Bool, true, false, not, ◌&&◌, ◌||◌, Option, none, some, List, [], ◌∷◌, ◌==◌,
  if◌then◌else◌, test_bit, arith,
}
use fat.Time.{Timespec}
use fat.Fat.{Info, Volume, Ret, ok, err, stuck, M, cluster_bad, einval}

-- vtype_t, as far as the driver uses it.
pub data Vtype : Type 0 where
  vnon : Vtype
  vreg : Vtype
  vdir : Vtype

abbrev pub is_dir : Vtype → Bool
is_dir vdir = true
is_dir _ = false

-- The FV_ flags.
pub record FvFlags : Type 0 where
  pub modified : Bool
  pub root : Bool
  pub atime_dirty : Bool
  pub mtime_dirty : Bool
  pub size_dirty : Bool
  pub cluster_dirty : Bool
  pub ctime_dirty : Bool
  pub attr_dirty : Bool

abbrev pub clean : FvFlags
clean = record {
  modified = false;
  root = false;
  atime_dirty = false;
  mtime_dirty = false;
  size_dirty = false;
  cluster_dirty = false;
  ctime_dirty = false;
  attr_dirty = false;
}

-- fat32_cls_cache_entry_t
pub record CacheEntry : Type 0 where
  pub index : ℕ
  pub cluster : ℕ

abbrev pub unused : CacheEntry
unused = record { index = 0; cluster = 0 }

-- FAT32_CLS_CACHE_SIZE entries, all unused.
abbrev pub cache_size : ℕ
cache_size = 16

abbrev pub repeat : ℕ → List CacheEntry
repeat zero = []
repeat (suc n) = unused ∷ repeat n

abbrev pub empty_cache : List CacheEntry
empty_cache = repeat cache_size

pub record Vnode : Type 0 where
  pub fv_cluster : ℕ
  pub fv_type : Vtype
  pub fv_mode : ℕ
  pub fv_uid : ℕ
  pub fv_gid : ℕ
  pub fv_size : ℕ
  pub fv_atime : Timespec
  pub fv_mtime : Timespec
  pub fv_ctime : Timespec
  pub fv_attr : ℕ
  pub fv_diroff : ℕ
  pub fv_dirsz : ℕ
  pub fv_parent_cluster : ℕ
  pub fv_parent_held : Bool
  pub fv_cls_cache : List CacheEntry
  pub fv_flags : FvFlags

-- The owner of all files, from the mount options.
pub record Owner : Type 0 where
  pub fsi_uid : ℕ
  pub fsi_gid : ℕ

abbrev pub no_time : Timespec
no_time = record { tv_sec = 0; tv_nsec = 0 }

-- fat32_vnode_init
abbrev pub vnode_init : Owner → Vnode → Vnode
vnode_init owner fv = record fv {
  fv_cluster = cluster_bad;
  fv_parent_cluster = cluster_bad;
  fv_uid = owner.fsi_uid;
  fv_gid = owner.fsi_gid;
  fv_cls_cache = empty_cache;
}

-- fat32_vnode_reset
abbrev pub vnode_reset : Owner → Vnode → Vnode
vnode_reset owner fv = record fv {
  fv_cluster = cluster_bad;
  fv_type = vnon;
  fv_mode = 0;
  fv_uid = owner.fsi_uid;
  fv_gid = owner.fsi_gid;
  fv_size = 0;
  fv_atime = no_time;
  fv_mtime = no_time;
  fv_ctime = no_time;
  fv_attr = 0;
  fv_diroff = 0;
  fv_dirsz = 0;
  fv_parent_cluster = cluster_bad;
  fv_parent_held = false;
  fv_flags = clean;
}

-- S_IFDIR | 0755, S_IFREG | 0644 and S_IFREG | 0444
abbrev pub dir_mode : ℕ
dir_mode = 0x41ed

abbrev pub reg_mode : ℕ
reg_mode = 0x81a4

abbrev pub reg_mode_read_only : ℕ
reg_mode_read_only = 0x8124

abbrev pub enomem : ℕ
enomem = 12

-- S_IWUSR, as a bit number.
abbrev pub owner_write_bit : ℕ
owner_write_bit = 7

-- fat32_make_vnode: `allocated` says whether vn_alloc succeeded, `parent` is the parent's first
-- cluster, where there is a parent. The error leaves the node as it was.
unfoldable pub make_vnode :
    Info → Owner → Bool → ℕ → Vtype → Option ℕ → Vnode → Ret (Unit {0}) × Vnode
make_vnode fsi owner allocated cluster type parent fv =
    let held : Bool = elim parent [ some c ↦ true | none ↦ false ] in
    let parent_cluster : ℕ = elim parent [ some c ↦ c | none ↦ 0 ] in
    let is_root = cluster == fsi.root_cluster && is_dir type in
    let mode =
      if is_root
      then dir_mode
      else if fv.fv_mode == 0
      then (if is_dir type then dir_mode else reg_mode)
      else fv.fv_mode in
    let flags = if is_root then record fv.fv_flags { root = true } else clean in
    if not allocated then (err enomem, fv) else (
      ok tt,
      record fv {
        fv_cluster = cluster;
        fv_type = type;
        fv_parent_held = held;
        fv_parent_cluster = parent_cluster;
        fv_mode = mode;
        fv_flags = flags;
        fv_uid = owner.fsi_uid;
        fv_gid = owner.fsi_gid;
      },
    )

-- fat32_touch; `now` is what nanotime gives, and the flags are FV_ATIME_DIRTY and FV_MTIME_DIRTY,
-- both out for a flag word of 0.
unfoldable pub touch : Timespec → Bool → Bool → Vnode → Vnode
touch now atime mtime fv =
    if not (atime || mtime)
    then record fv {
      fv_ctime = now;
      fv_mtime = now;
      fv_atime = now;
      fv_flags = record fv.fv_flags { mtime_dirty = true; atime_dirty = true; modified = true };
    }
    else record fv {
      fv_atime = if atime then now else fv.fv_atime;
      fv_mtime = if mtime then now else fv.fv_mtime;
      fv_flags = record fv.fv_flags {
        atime_dirty = fv.fv_flags.atime_dirty || atime;
        mtime_dirty = fv.fv_flags.mtime_dirty || mtime;
        modified = true;
      };
    }

-- VREAD, VWRITE and VEXEC of an access request.
pub record Wanted : Type 0 where
  pub vread : Bool
  pub vwrite : Bool
  pub vexec : Bool

-- What the driver reads of a cred_t, groupmember included.
pub record Cred : Type 0 where
  pub cr_uid : ℕ
  pub groupmember : ℕ → Bool

abbrev pub erofs : ℕ
erofs = 30

abbrev pub eacces : ℕ
eacces = 13

-- FAT32_ATTR_READ_ONLY, as a bit number.
abbrev pub read_only_bit : ℕ
read_only_bit = 0

-- The three tests of one class, with the numbers of its bits in st_mode: whether denied_mode is set.
abbrev pub denied : Wanted → ℕ → ℕ → ℕ → ℕ → Bool
denied wanted fmode r w x =
    (wanted.vread && not (test_bit fmode r))
    || (wanted.vwrite && not (test_bit fmode w))
    || (wanted.vexec && not (test_bit fmode x))

-- fat32_faccess; `rdonly` is VFS_RDONLY. The result is the error number, or 0.
unfoldable pub faccess : Bool → Wanted → Cred → Vnode → ℕ
faccess rdonly wanted cr fv =
    let denied_mode =
      if cr.cr_uid == fv.fv_uid
      then denied wanted fv.fv_mode 8 7 6
      else if cr.groupmember fv.fv_gid
      then denied wanted fv.fv_mode 5 4 3
      else denied wanted fv.fv_mode 2 1 0 in
    if wanted.vwrite && rdonly
    then erofs
    else if wanted.vwrite && test_bit fv.fv_attr read_only_bit
    then eacces
    else if cr.cr_uid == 0
    then 0
    else if denied_mode
    then eacces
    else 0
