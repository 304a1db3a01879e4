-- ===== src/Make.antt =====
-- fat32_lookup, fat32_create and fat32_mkdir of fat32_vnode.c. A name is the list of its bytes, without
-- the NUL; `allocated` says whether there is room for a node, `vn_allocated` whether vn_alloc succeeds,
-- `rdonly` is VFS_RDONLY, `buffer` the local d_name of fat32_find_dirent, and `now` what nanotime gives.
pub mod New
use fat.Shared.{
  ℕ, Bool, true, false, not, ◌&&◌, Option, none, some, List, ◌==◌, if◌then◌else◌, get_or,
}
use fat.Device.{BlockIo}
use fat.Time.{Timespec}
use fat.Fat.{Info, Ret, ok, err, stuck}
use fat.Lfn.{DName}
use fat.Vnode.{enomem, Vnode, Owner, Wanted, Cred, vnode_reset, make_vnode, touch, faccess, is_dir}
use fat.Vnode.Cache.{Open, Vm, chain}
use fat.Vnode.Truncate.{truncate}
use fat.Mount.{vnode_new}
use fat.File.{eisdir}
use fat.Dir.Dirent.{Dirent, enoent, enotdir, populate, find_dirent}
use fat.Dir.Create.{CreFlags, handed, create_fdentry}

-- The value of EEXIST in the kernel's header.
abbrev pub eexist : ℕ
eexist = 17

-- What fat32_lookup stores in *vpp: the directory, its parent, nothing, or a new node.
pub data Looked : Type 0 where
  itself : Looked
  parent : Looked
  unmodified : Looked
  entry_node : Vnode → Looked

abbrev pub is_dot : List ℕ → Bool
is_dot name = get_or name 0 0 == b'.' && get_or name 1 0 == 0

abbrev pub is_dotdot : List ℕ → Bool
is_dotdot name = get_or name 0 0 == b'.' && get_or name 1 0 == b'.' && get_or name 2 0 == 0

-- The answer to fat32_find_dirent: an entry, ENOENT, or another error, which is handed on.
abbrev pub answered :
    {D A : Type 0} → Ret Dirent × Open D → (Dirent → Vm D A) → Vm D A → Ret A × Open D
answered (ok d, t) there missing = there d t
answered (err e, t) there missing = if e == enoent then missing t else (err e, t)
answered (stuck, t) there missing = (stuck, t)

-- The node that fat32_find_dirent fills in for the entry, in the directory `t`.
abbrev pub found_node : {D : Type 0} → Owner → Vnode → Open D → Dirent → Vnode
found_node owner fresh t d = populate t.fv.fv_cluster d (vnode_reset owner fresh)

-- The directory and the volume behind a function on another node.
abbrev pub beside : {D : Type 0} → Vnode → Ret (Unit {0}) × Open D → Ret Vnode × Open D
beside dir (ok x, u) = (ok u.fv, record { fv = dir; vol = u.vol })
beside dir (err e, u) = (err e, record { fv = dir; vol = u.vol })
beside dir (stuck, u) = (stuck, record { fv = dir; vol = u.vol })

-- VWRITE | VEXEC
abbrev pub write_exec : Wanted
write_exec = record { vread = false; vwrite = true; vexec = true }

-- The flags of a new file, and of a new directory.
abbrev pub file_flags : CreFlags
file_flags = record { cre_dir = false; cre_rename = false; cre_reuse = false }

abbrev pub dir_flags : CreFlags
dir_flags = record { cre_dir = true; cre_rename = false; cre_reuse = false }

module _ {D : Type 0} (io : BlockIo D) (fsi : Info) (owner : Owner) where
  -- fat32_make_vnode for the entry that was found in the directory `t`.
  abbrev pub made : Bool → Vnode → Vm D Vnode
  made vn_allocated fv t =
      handed (make_vnode fsi owner vn_allocated fv.fv_cluster fv.fv_type (some t.fv.fv_cluster) fv)
        t

  -- fat32_lookup
  unfoldable pub lookup : Bool → Bool → DName → List ℕ → Vm D Looked
  lookup allocated vn_allocated buffer name s =
      let searched : Vnode → Ret Looked × Open D = λ fresh.
        chain {D = D} (find_dirent io fsi name buffer s) λ d t.
          chain {D = D} (made vn_allocated (found_node owner fresh t d) t)
            λ fv u. (ok (entry_node fv), u) in
      let up : Ret Looked × Open D =
        if s.fv.fv_flags.root
        then (ok unmodified, s)
        else if not s.fv.fv_parent_held
        then (err enoent, s)
        else (ok parent, s) in
      if not (is_dir s.fv.fv_type)
      then (err enotdir, s)
      else if is_dot name
      then (ok itself, s)
      else if is_dotdot name
      then up
      else elim (vnode_new owner allocated) [ none ↦ (err enomem, s) | some fresh ↦ searched fresh ]

  module _ (now : Timespec) (vn_allocated : Bool) where
    -- `if (vap->va_mask & AT_SIZE)`: the file is cut to the size.
    abbrev pub cut_to : Option ℕ → Vnode → Vm D Vnode
    cut_to none fv t = (ok fv, t)
    cut_to (some size) fv t = beside t.fv (truncate io fsi size (record { fv = fv; vol = t.vol }))

    -- The times of a file, and the modification time of its directory.
    abbrev pub stamped : Vnode → Vm D Vnode
    stamped fv u = (ok (touch now false false fv), record u { fv = touch now false true u.fv })

    -- fat32_create where the file exists; `mode` is what the caller wants to do, `excl` is VEXCL, and
    -- `size` the size that the caller gives.
    unfoldable pub open_existing : Bool → Cred → Wanted → Bool → Option ℕ → Vnode → Vm D Vnode
    open_existing rdonly cr mode excl size fv t =
        let denied_by = faccess rdonly mode cr fv in
        let shortened : Ret Vnode × Open D =
          chain {D = D} (cut_to size fv t)
            λ fv' u. chain {D = D} (stamped fv' u) (λ n u'. made vn_allocated n u') in
        if is_dir fv.fv_type
        then (if mode.vwrite then (err eisdir, t) else made vn_allocated fv t)
        else if excl
        then (err eexist, t)
        else if not (denied_by == 0)
        then (err denied_by, t)
        else shortened

    -- The creation of what does not exist yet.
    unfoldable pub make_new : CreFlags → ℕ → List ℕ → Vnode → Vm D Vnode
    make_new flags va_mode name fresh t =
        chain {D = D}
          (create_fdentry io fsi flags owner now vn_allocated name
            (record (vnode_reset owner fresh) { fv_mode = va_mode }) t)
          stamped

    -- The start of fat32_create and of fat32_mkdir: the tests, and the new node.
    abbrev pub entering : Bool → Cred → Bool → (Vnode → Vm D Vnode) → Vm D Vnode
    entering rdonly cr allocated go s =
        let denied_by = faccess rdonly write_exec cr s.fv in
        if not (is_dir s.fv.fv_type)
        then (err enotdir, s)
        else if not (denied_by == 0)
        then (err denied_by, s)
        else elim (vnode_new owner allocated) [ none ↦ (err enomem, s) | some fresh ↦ go fresh s ]

    -- fat32_create; `va_mode` and `size` are those of the struct vattr.
    unfoldable pub create :
        Bool → Cred → Bool → DName → Wanted → Bool → ℕ → Option ℕ → List ℕ → Vm D Vnode
    create rdonly cr allocated buffer mode excl va_mode size name =
        entering rdonly cr allocated λ fresh s.
          answered {D = D} (find_dirent io fsi name buffer s)
            (λ d t. open_existing rdonly cr mode excl size (found_node owner fresh t d) t)
            (make_new file_flags va_mode name fresh)

    -- fat32_mkdir
    unfoldable pub mkdir : Bool → Cred → Bool → DName → ℕ → List ℕ → Vm D Vnode
    mkdir rdonly cr allocated buffer va_mode name = entering rdonly cr allocated λ fresh s.
        answered {D = D} (find_dirent io fsi name buffer s)
          (λ d t.
            if not (is_dir (found_node owner fresh t d).fv_type)
            then (err enotdir, t)
            else (err eexist, t))
          (make_new dir_flags va_mode name fresh)
