-- ===== src/Mount.antt =====
-- Mounting and unmounting, fat32_mount, fat32_unmount and fat32_root of fat32_vfs.c. What the kernel
-- does for it (copyin, atoi, lookupname, vfs_devsearch, the allocations) is a parameter. The references
-- that the driver holds on the vnode of the device and on that of the root directory are counted. The
-- files below hold the mount options, and what is proved of both.
pub mod Settings
pub mod Options
pub mod References
use fat.Shared.{
  ℕ, ◌+◌, ◌-◌, ◌⊎◌, inl, inr, ℤ, pos, Bool, true, false, not, Option, none, some, List,
  if◌then◌else◌,
}
use fat.Device.{BlockIo}
use fat.Fat.{Info, Volume, Ret, ok, err, stuck}
use fat.Vnode.{
  Vnode, Owner, Vtype, vnon, vdir, no_time, empty_cache, clean, enomem, vnode_init, make_vnode,
}
use fat.Boot.{Found, read_boot}
use fat.Mount.Options.{MountOptions, defaults, parse_options}

abbrev pub efault : ℕ
efault = 14

abbrev pub enotblk : ℕ
enotblk = 15

abbrev pub ebusy : ℕ
ebusy = 16

-- What lookupname gives, if no error: v_type == VBLK, and v_rdev.
pub record DeviceNode : Type 0 where
  pub is_block : Bool
  pub v_rdev : ℕ

-- What the kernel answers to one call of fat32_mount. `dataptr` is `none` where there are no options,
-- `some none` where copyin fails.
pub record Kernel : Type 0 where
  pub atoi : List ℕ → ℤ
  pub dataptr : Option (Option (List ℕ))
  pub lookupname : ℕ ⊎ DeviceNode
  pub vfs_devsearch : ℕ → Bool
  pub fsi_allocated : Bool
  pub fv_allocated : Bool
  pub vnode_allocated : Bool

abbrev pub zeroed : Vnode
zeroed = record {
  fv_cluster = 0;
  fv_type = vnon;
  fv_mode = 0;
  fv_uid = 0;
  fv_gid = 0;
  fv_size = 0;
  fv_atime = no_time;
  fv_mtime = no_time;
  fv_ctime = no_time;
  fv_attr = 0;
  fv_diroff = 0;
  fv_dirsz = 0;
  fv_parent_cluster = 0;
  fv_parent_held = false;
  fv_cls_cache = empty_cache;
  fv_flags = clean;
}

-- fat32_vnode_new
unfoldable pub vnode_new : Owner → Bool → Option Vnode
vnode_new owner allocated = if allocated then some (vnode_init owner zeroed) else none

-- A mounted file system.
pub record Mounted (D : Type 0) : Type 0 where
  pub fsi : Info
  pub owner : Owner
  pub vol : Volume D
  pub root : Vnode
  pub vfs_bsize : ℕ
  pub vfs_dev : ℕ

-- What is held: the references on the device's vnode and on the root's, and the behaviours that are
-- attached to the vfs, each in the fat32fs_info_t of a file system.
pub record Held : Type 0 where
  pub device : ℕ
  pub root : ℕ
  pub behaviours : ℕ

abbrev pub nothing : Held
nothing = record { device = 0; root = 0; behaviours = 0 }

-- FAT32_VN_RELE on the vnode of the device.
abbrev pub rele_device : Held → Held
rele_device h = record h { device = h.device - 1 }

-- bhv_insert_initial
abbrev pub insert_behaviour : Held → Held
insert_behaviour h = record h { behaviours = h.behaviours + 1 }

-- The behaviour is attached, which no error takes back; then the root vnode, allocated with one reference,
-- with the extra one that unmounting releases.
unfoldable pub make_root :
    {D : Type 0} → Kernel → Owner → Volume D → Info → ℕ → Held → Ret (Mounted D) × Held
unfolding vnode_new make_vnode
make_root {D} k owner vol fsi dev held =
    let h = insert_behaviour held in
    elim (vnode_new owner k.fv_allocated) [
      | none ↦ (err enomem, rele_device h)
      | some fv ↦
          let made = make_vnode fsi owner k.vnode_allocated fsi.root_cluster vdir none fv in
          let mounted : Mounted D = record {
            fsi = fsi;
            owner = owner;
            vol = vol;
            root = made.1;
            vfs_bsize = fsi.bytes_per_cluster;
            vfs_dev = dev;
          } in
          elim made.0 [
            | ok _ ↦ (ok mounted, record h { root = h.root + 2 })
            | err e ↦ (err e, rele_device h)
            | stuck ↦ (stuck, h)
          ]
    ]

-- The options; copying them in may fail.
unfoldable pub mount_options : Kernel → Ret MountOptions
unfolding parse_options
mount_options k = elim k.dataptr [
  | none ↦ ok defaults
  | some none ↦ err efault
  | some (some opts) ↦ parse_options k.atoi opts
]

module _ {D : Type 0} (io : BlockIo D) where
  -- From the device on.
  unfoldable pub mount_device :
      Kernel → D → MountOptions → DeviceNode → Held → Ret (Mounted D) × Held
  unfolding read_boot make_root
  mount_device k d opts devvp h =
      let booted : Ret (Mounted D) × Held = elim (read_boot io d opts.partition_num) [
        | ok f ↦
            make_root k opts.owner
              (record { disk = d; free_count = f.free_count; next_free = f.next_free }) f.info
              devvp.v_rdev h
        | err e ↦ (err e, rele_device h)
        | stuck ↦ (stuck, h)
      ] in
      if not devvp.is_block
      then (err enotblk, rele_device h)
      else if k.vfs_devsearch devvp.v_rdev
      then (err ebusy, rele_device h)
      else if not k.fsi_allocated
      then (err enomem, rele_device h)
      else booted

  -- fat32_mount
  unfoldable pub mount : Kernel → D → Held → Ret (Mounted D) × Held
  unfolding mount_options mount_device
  mount k d h = elim (mount_options k) [
    | err e ↦ (err e, h)
    | stuck ↦ (stuck, h)
    | ok opts ↦ elim k.lookupname [
      | inl e ↦ (err e, h)
      | inr devvp ↦ mount_device k d opts devvp (record h { device = h.device + 1 })
    ]
  ]

-- fat32_root: the cached root with one more reference.
unfoldable pub get_root : {D : Type 0} → Mounted D → Held → Vnode × Held
get_root m h = (m.root, record h { root = h.root + 1 })

-- fat32_unmount; the file system has a root, a device and an attached behaviour.
unfoldable pub unmount : Held → Held
unmount h =
    let off : Held = record h { root = h.root - 1; behaviours = h.behaviours - 1 } in
    rele_device off
