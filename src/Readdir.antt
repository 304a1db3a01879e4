-- ===== src/Readdir.antt =====
-- fat32_readdir of fat32_vnode.c and fat32_emit_dirent of fat32_dir.c. What the kernel's headers say of
-- struct dirent and struct irix5_dirent is a parameter, as is the choice between the two.
pub mod Emit
pub mod Filled
pub mod Listing
use fat.Shared.{
  ℕ, zero, suc, ◌+◌, ◌-◌, Bool, true, false, not, ◌&&◌, List, [], ◌∷◌, ◌==◌, ltb, if◌then◌else◌,
  u16, u32, ℤ, pos, negsuc, update, ◌%◌, ◌^◌,
}
use fat.Bytes.{Bytes}
use fat.Device.{BlockIo}
use fat.Fat.{Info, Ret, ok, err, stuck, einval}
use fat.Lfn.{DName}
use fat.Vnode.{is_dir}
use fat.Vnode.Cache.{Open}
use fat.File.{UserIo, Session, Fm}
use fat.Dir.{dentry_size}
use fat.Dir.Dirent.{Dirent, enoent, enotdir, name_buffer, fresh_name, get_dirent}

-- The format of a record: whether it is that of 32 bits, DIRENTSIZE of a name, DIRENTBASESIZE, and the
-- bytes in front of the name for d_ino, d_off and d_reclen. DIRENTSIZE counts the base, the name and its
-- NUL, so that the padding is no negative number.
pub record Abi : Type 0 where
  pub is_irix5 : Bool
  pub direntsize : ℕ → ℕ
  pub direntbasesize : ℕ
  pub layout : ℕ → ℕ → ℕ → Bytes

-- The number as the record takes it.
abbrev pub ino_field : Abi → ℕ → ℕ
ino_field abi ino = if abi.is_irix5 then u32 ino else ino

-- `if (error) return error` behind uiomove.
abbrev pub unless_error : {U : Type 0} → ℕ × U → (U → ℕ × U) → ℕ × U
unless_error (e, u) go = if e == 0 then go u else (e, u)

-- The result of the loop of fat32_readdir: `error`, `offset` and *eofp.
pub record Outcome : Type 0 where
  pub error : ℕ
  pub offset : ℕ
  pub eof : Bool

-- The names that are made for the root directory.
abbrev pub dot_name : DName → DName
dot_name n = record { d_name = update (update n.d_name 0 b'.') 1 0; name_size = 1 }

abbrev pub dotdot_name : DName → DName
dotdot_name n = record {
  d_name = update (update (update n.d_name 0 b'.') 1 b'.') 2 0;
  name_size = 2;
}

module _ {U : Type 0} (user : UserIo U) (abi : Abi) where
  -- fat32_emit_dirent; the result is the error number, or 0.
  unfoldable pub emit_dirent : ℕ → ℕ → DName → U → ℕ × U
  emit_dirent d_ino d_off n u =
      let reclen = abi.direntsize n.name_size in
      let padding = reclen - (abi.direntbasesize + n.name_size + 1) in
      let head = abi.layout (ino_field abi d_ino) (u32 d_off) (u16 reclen) in
      let moved = unless_error (user.to_user head 0 abi.direntbasesize u) λ u1.
        unless_error (user.to_user n.d_name 0 (n.name_size + 1) u1)
          λ u2. if ltb 0 padding then user.to_user (λ _. 0) 0 padding u2 else (0, u2) in
      if ltb (user.uio_resid u) reclen then (einval, u) else moved

-- Where the entries are read from: in the root directory the first offsets stand for the made names.
abbrev pub disk_offset : Bool → ℕ → ℕ
disk_offset true offset = if ltb offset dentry_size then 0 else offset
disk_offset false offset = offset

module _ {D U : Type 0} where
  -- `break`, with what `error` and *eofp hold.
  abbrev pub leave : ℕ → ℕ → Bool → Session D U → Ret Outcome × Session D U
  leave offset error eof t = (ok (record { error = error; offset = offset; eof = eof }), t)

  -- Behind fat32_emit_dirent: EINVAL means that the request is full.
  abbrev pub past_emit : ℕ → ℕ → Open D → ℕ × U → Fm D U Outcome → Ret Outcome × Session D U
  past_emit offset nemitted node (e, u) rest =
      let t : Session D U = record { node = node; uio = u } in
      let on = rest t in
      if e == einval
      then leave offset (if ltb 0 nemitted then 0 else einval) false t
      else if not (e == 0)
      then leave offset e false t
      else on

  -- Behind fat32_get_dirent.
  abbrev pub past_dirent :
      ℕ
      → U
      → Ret Dirent × Open D
      → (Dirent → Open D → Ret Outcome × Session D U)
      → Ret Outcome × Session D U
  past_dirent offset u (ok d, node) go = go d node
  past_dirent offset u (err e, node) go =
      let t : Session D U = record { node = node; uio = u } in
      if e == enoent then leave offset 0 true t else leave offset e false t
  past_dirent offset u (stuck, node) go = (stuck, record { node = node; uio = u })

module _ {D : Type 0} (io : BlockIo D) (fsi : Info) {U : Type 0} (user : UserIo U) (abi : Abi) where
  -- The loop of fat32_readdir: `root` is FV_ROOT of the directory, which nothing changes on the way, and
  -- `error` what the variable holds.
  unfoldable pub readdir_loop : Bool → ℕ → ℕ → ℕ → ℕ → DName → Fm D U Outcome
  readdir_loop root zero error offset nemitted n s = (stuck, s)
  readdir_loop root (suc fuel) error offset nemitted n s =
      let on : ℕ → DName → Open D → ℕ × U → Ret Outcome × Session D U = λ next name node moved.
        past_emit offset nemitted node moved (readdir_loop root fuel 0 next (nemitted + 1) name) in
      let entry =
        past_dirent offset s.uio (get_dirent io fsi (disk_offset root offset) (fresh_name n) s.node)
          (λ d node.
            on d.next_offset d.name node
              (emit_dirent user abi d.d_ino d.next_offset d.name s.uio)) in
      if user.uio_resid s.uio == 0
      then leave offset error false s
      else if offset == 0 && root
      then on 1 (dot_name n) s.node (emit_dirent user abi 0 1 (dot_name n) s.uio)
      else if offset == 1 && root
      then on 2 (dotdot_name n) s.node (emit_dirent user abi 0 2 (dotdot_name n) s.uio)
      else entry

  -- The end of fat32_readdir: uio_offset is set; *eofp is the result where there is no error.
  abbrev pub finished : Ret Outcome × Session D U → Ret Bool × Session D U
  finished (ok out, s) =
      let t : Session D U = record s { uio = user.set_offset out.offset s.uio } in
      if out.error == 0 then (ok out.eof, t) else (err out.error, t)
  finished (err e, s) = (err e, s)
  finished (stuck, s) = (stuck, s)

  -- The cast of an off_t to 32 bits.
  abbrev pub to_offset : ℤ → ℕ
  to_offset (pos n) = u32 n
  to_offset (negsuc n) = 2 ^ 32 - 1 - u32 n

  -- fat32_readdir; `unset` is what the variable `error` holds at first, and `buffer` the local d_name. An
  -- entry takes a byte or more, so that uio_resid and one more is fuel enough.
  unfoldable pub readdir : ℕ → DName → Fm D U Bool
  readdir unset buffer s =
      if not (is_dir s.node.fv.fv_type)
      then (err enotdir, s)
      else finished (
          readdir_loop s.node.fv.fv_flags.root (user.uio_resid s.uio + 1) unset
            (to_offset (user.uio_offset s.uio)) 0 buffer s)
