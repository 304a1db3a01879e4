-- ===== src/Mount/References.antt =====
-- What mounting holds and gives back, on success and on each error.
use fat.Shared.{
  none, ℕ, ◌+◌, ◌-◌, ◌≡◌, refl, ◌≢◌, ◌⊎◌, inl, inr, true, false, arith, Bool-cases, Option-cases,
  ◌==◌,
}
use fat.Device.{BlockIo}
use fat.Fat.{Info, Volume, Ret, ok, err, stuck}
use fat.Vnode.{enomem, Vnode, vnode_init, Owner, vdir, make_vnode, dir_mode}
use fat.Boot.{Found, read_boot}
use fat.Mount.{
  zeroed, Kernel, DeviceNode, Mounted, Held, mount_options, mount_device, mount, make_root,
  vnode_new,
}
use fat.Mount.Options.{MountOptions, parse_options-ne-stuck}

module _ {D : Type 0} (io : BlockIo D) where
  -- The root of a mounted file system is its first directory, with no parent.
  abbrev pub IsRoot : Mounted D → Type 0
  IsRoot m =
      (m.root.fv_cluster ≡ m.fsi.root_cluster)
      × (m.root.fv_type ≡ vdir)
      × (m.root.fv_parent_held ≡ false)
      × (m.root.fv_mode ≡ dir_mode)
      × (m.root.fv_flags.root ≡ true)

  -- What mounting the device contents `d` answers: see below.
  abbrev pub Balanced : Kernel → D → Held → Ret (Mounted D) × Held → Type 0
  Balanced k d h (ok m, h') =
      (h' ≡ record { device = h.device + 1; root = h.root + 2; behaviours = h.behaviours + 1 })
      × IsRoot m
      × (m.vol.disk ≡ d)
      × (k.vfs_devsearch m.vfs_dev ≡ false)
      × ((opts : MountOptions) × (mount_options k ≡ ok opts)
          × (m.owner ≡ opts.owner)
          × (read_boot io d opts.partition_num
              ≡ ok (record {
                info = m.fsi;
                free_count = m.vol.free_count;
                next_free = m.vol.next_free;
              })))
  Balanced k d h (err e, h') =
      (h' ≡ h)
      ⊎ ((h' ≡ record h { behaviours = h.behaviours + 1 })
          × (e ≡ enomem)
          × ((k.fv_allocated ≡ false) ⊎ (k.vnode_allocated ≡ false)))
  Balanced k d h (stuck, h') =
      (opts : MountOptions) × (mount_options k ≡ ok opts)
      × (read_boot io d opts.partition_num ≡ stuck)

  released : (h : Held) → record h { device = h.device + 1 - 1 } ≡ h
  released h = ground arith

  left_over :
      (h : Held)
      → record h { device = h.device + 1 - 1; behaviours = h.behaviours + 1 }
        ≡ record h { behaviours = h.behaviours + 1 }
  left_over h = ground arith

  same : (n : ℕ) → (n == n) ≡ true
  same n = ground arith

  -- The node of the root.
  root_node : Owner → Info → Vnode
  root_node owner fsi =
      (make_vnode fsi owner true fsi.root_cluster vdir none (vnode_init owner zeroed)).1

  made :
      (k : Kernel) (owner : Owner) (vol : Volume D) (fsi : Info) (dev : ℕ) (h : Held)
      → k.fv_allocated ≡ true
      → k.vnode_allocated ≡ true
      → make_root k owner vol fsi dev h ≡ (
        ok (record {
          fsi = fsi;
          owner = owner;
          vol = vol;
          root = root_node owner fsi;
          vfs_bsize = fsi.bytes_per_cluster;
          vfs_dev = dev;
        }),
        record h { root = h.root + 2; behaviours = h.behaviours + 1 },
      )
  unfolding make_root vnode_new make_vnode root_node
  made k owner vol fsi dev h e e' = rw (e, e') refl

  unmade :
      (k : Kernel) (owner : Owner) (vol : Volume D) (fsi : Info) (dev : ℕ) (h : Held)
      → (k.fv_allocated ≡ false) ⊎ (k.vnode_allocated ≡ false)
      → make_root k owner vol fsi dev h
        ≡ (err enomem, record h { device = h.device - 1; behaviours = h.behaviours + 1 })
  unfolding make_root vnode_new make_vnode
  unmade k owner vol fsi dev h (inl e) = rw e refl
  unmade k owner vol fsi dev h (inr e) = elim (Bool-cases k.fv_allocated) [
    | inl e' ↦ rw (e', e) refl
    | inr e' ↦ rw e' refl
  ]

  root_facts :
      (owner : Owner) (fsi : Info)
      → ((root_node owner fsi).fv_cluster ≡ fsi.root_cluster)
        × ((root_node owner fsi).fv_type ≡ vdir)
        × ((root_node owner fsi).fv_parent_held ≡ false)
        × ((root_node owner fsi).fv_mode ≡ dir_mode)
        × ((root_node owner fsi).fv_flags.root ≡ true)
  unfolding make_vnode root_node
  root_facts owner fsi = rw (same fsi.root_cluster) (refl, refl, refl, refl, refl)

  make_root-Balanced :
      (k : Kernel) (opts : MountOptions) (vol : Volume D) (fsi : Info) (dev : ℕ) (h : Held)
      → k.vfs_devsearch dev ≡ false
      → mount_options k ≡ ok opts
      → read_boot io vol.disk opts.partition_num
        ≡ ok (record { info = fsi; free_count = vol.free_count; next_free = vol.next_free })
      → Balanced k vol.disk h
          (make_root k opts.owner vol fsi dev (record h { device = h.device + 1 }))
  unfolding make_root vnode_new make_vnode
  make_root-Balanced k opts vol fsi dev h free parsed boot = elim (Bool-cases k.fv_allocated) [
    | inr e ↦
        rw (unmade k opts.owner vol fsi dev (record h { device = h.device + 1 }) (inl e))
          (inr (left_over h, refl, inl e))
    | inl e ↦ elim (Bool-cases k.vnode_allocated) [
      | inr e' ↦
          rw (unmade k opts.owner vol fsi dev (record h { device = h.device + 1 }) (inr e'))
            (inr (left_over h, refl, inr e'))
      | inl e' ↦
          rw (made k opts.owner vol fsi dev (record h { device = h.device + 1 }) e e')
            (refl, root_facts opts.owner fsi, refl, free, (opts, parsed, refl, boot))
    ]
  ]

  after_boot : Kernel → D → MountOptions → ℕ → Held → Ret Found → Ret (Mounted D) × Held
  after_boot k d opts dev h (ok f) =
      make_root k opts.owner
        (record { disk = d; free_count = f.free_count; next_free = f.next_free }) f.info dev h
  after_boot k d opts dev h (err e) = (err e, record h { device = h.device - 1 })
  after_boot k d opts dev h stuck = (stuck, h)

  after_boot-Balanced :
      (k : Kernel) (d : D) (opts : MountOptions) (dev : ℕ) (h : Held) (r : Ret Found)
      → k.vfs_devsearch dev ≡ false
      → mount_options k ≡ ok opts
      → read_boot io d opts.partition_num ≡ r
      → Balanced k d h (after_boot k d opts dev (record h { device = h.device + 1 }) r)
  unfolding after_boot
  after_boot-Balanced k d opts dev h (ok f) free parsed e =
      make_root-Balanced k opts
        (record { disk = d; free_count = f.free_count; next_free = f.next_free }) f.info dev h free
        parsed e
  after_boot-Balanced k d opts dev h (err _) free parsed e = inl (released h)
  after_boot-Balanced k d opts dev h stuck free parsed e = (opts, parsed, e)

  mount_device-Balanced :
      (k : Kernel) (d : D) (opts : MountOptions) (devvp : DeviceNode) (h : Held)
      → mount_options k ≡ ok opts
      → Balanced k d h (mount_device io k d opts devvp (record h { device = h.device + 1 }))
  unfolding mount_device after_boot
  mount_device-Balanced k d opts devvp h parsed = elim (Bool-cases devvp.is_block) [
    | inr e ↦ rw e (inl (released h))
    | inl e ↦ rw e (elim (Bool-cases (k.vfs_devsearch devvp.v_rdev)) [
      | inl busy ↦ rw busy (inl (released h))
      | inr free ↦ rw free (elim (Bool-cases k.fsi_allocated) [
        | inr e' ↦ simp e' (inl (released h))
        | inl e' ↦ simp e' (
            after_boot-Balanced k d opts devvp.v_rdev h (read_boot io d opts.partition_num) free
              parsed refl)
      ])
    ])
  ]

  with_device :
      (k : Kernel) (d : D) (opts : MountOptions) (h : Held) (r : ℕ ⊎ DeviceNode)
      → mount_options k ≡ ok opts
      → Balanced k d h (elim r [
        | inl e ↦ (err e, h)
        | inr devvp ↦ mount_device io k d opts devvp (record h { device = h.device + 1 })
      ])
  with_device k d opts h (inl e) parsed = inl refl
  with_device k d opts h (inr devvp) parsed = mount_device-Balanced k d opts devvp h parsed

  mount_options-ne-stuck : (k : Kernel) → mount_options k ≢ stuck
  unfolding mount_options
  mount_options-ne-stuck k = elim (Option-cases k.dataptr) [
    | inl e ↦ rw e (λ q. cc)
    | inr (o, e) ↦ elim (Option-cases o) [
      | inl e' ↦ rw (e, e') (λ q. cc)
      | inr (text, e') ↦ rw (e, e') (parse_options-ne-stuck k.atoi text)
    ]
  ]

  with_options :
      (k : Kernel) (d : D) (h : Held) (r : Ret MountOptions)
      → r ≢ stuck
      → mount_options k ≡ r
      → Balanced k d h (elim r [
        | err e ↦ (err e, h)
        | stuck ↦ (stuck, h)
        | ok opts ↦ elim k.lookupname [
          | inl e ↦ (err e, h)
          | inr devvp ↦ mount_device io k d opts devvp (record h { device = h.device + 1 })
        ]
      ])
  with_options k d h (ok opts) ns parsed = with_device k d opts h k.lookupname parsed
  with_options k d h (err e) ns parsed = inl refl
  with_options k d h stuck ns parsed = absurd (ns refl)

  -- Mounting, whatever the kernel answers: on success one more reference on the vnode of the device is
  -- held, two more on the root's, and one more behaviour is attached to the vfs; the device is as it was
  -- and not mounted before, the owner is the one that the options give, the layout and the counts are
  -- those that reading the boot sector of the partition of the options gave, and the root is a
  -- directory at the root cluster with no parent. On an error nothing more is held than before, except
  -- where there is no memory for the node or the vnode of the root: then mounting fails with ENOMEM and
  -- the behaviour may stay attached. There is no other outcome but that reading that boot sector
  -- divides by zero.
  pub mount-Balanced : (k : Kernel) (d : D) (h : Held) → Balanced k d h (mount io k d h)
  unfolding mount
  mount-Balanced k d h = with_options k d h (mount_options k) (mount_options-ne-stuck k) refl
