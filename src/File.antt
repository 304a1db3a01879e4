-- ===== src/File.antt =====
-- fat32_read and fat32_write of fat32_vnode.c. The request, a struct uio, belongs to the kernel: a type
-- `U` with what the driver reads of it and with uiomove, as a parameter. The files below say what a
-- file holds, and what reading and writing do to that.
pub mod Content
pub mod Read
pub mod Request
pub mod Write
pub mod Patch
pub mod Overwrite
pub mod Rewrite
pub mod Store
use fat.Shared.{
  ℕ, zero, suc, ◌+◌, ◌-◌, ◌^◌, ℤ, pos, negsuc, Bool, true, false, not, ◌==◌, ltb, leb, bit_and,
  if◌then◌else◌, u32, sub32, ◌>>>◌,
}
use fat.Bytes.{Bytes}
use fat.Device.{BlockIo, buf_errno, eio}
use fat.Time.{Timespec}
use fat.Fat.{Info, Volume, Ret, ok, err, stuck, einval}
use fat.Cluster.{NcFlags, no_flags, cluster_to_sector, read_cluster, next_cluster}
use fat.Vnode.{Vnode, Vtype, vreg, vdir, vnon, touch}
use fat.Vnode.Cache.{Open, Vm, lift, modify, update_cache, with_cache, vnode_seek_cluster}

-- uio_offset, uio_resid, the assignment of uio_offset, and uiomove, which returns an error number or
-- 0: `to_user buf at n` moves n bytes of `buf` from `at` on to the user, `from_user` moves them the
-- other way, with the buffer as it then is.
pub record UserIo (U : Type 0) : Type 0 where
  pub uio_offset : U → ℤ
  pub uio_resid : U → ℕ
  pub set_offset : ℕ → U → U
  pub to_user : Bytes → ℕ → ℕ → U → ℕ × U
  pub from_user : Bytes → ℕ → ℕ → U → ℕ × U × Bytes

-- A node, the volume and the request.
pub record Session (D U : Type 0) : Type 0 where
  pub node : Open D
  pub uio : U

abbrev pub Fm : Type 0 → Type 0 → Type 0 → Type 0
Fm D U A = Session D U → Ret A × Session D U

abbrev pub follow : {D U A B : Type 0} → Ret A × Session D U → (A → Fm D U B) → Ret B × Session D U
follow (ok a, s) f = f a s
follow (err e, s) f = (err e, s)
follow (stuck, s) f = (stuck, s)

infixl 5 ◌>>=◌ ◌>>◌
abbrev pub ◌>>=◌ : {D U A B : Type 0} → Fm D U A → (A → Fm D U B) → Fm D U B
◌>>=◌ m f s = follow (m s) f

abbrev pub ◌>>◌ : {D U B : Type 0} → Fm D U (Unit {0}) → Fm D U B → Fm D U B
m >> k = m >>= λ _. k

abbrev pub with_uio : {D U A : Type 0} → U → Ret A × Open D → Ret A × Session D U
with_uio u (r, n) = (r, record { node = n; uio = u })

-- A function on the node and the volume.
abbrev pub on_node : {D U A : Type 0} → Vm D A → Fm D U A
on_node m s = with_uio s.uio (m s.node)

-- `if (error) return EIO`
abbrev pub as_eio : {S A : Type 0} → Ret A × S → Ret A × S
as_eio (ok a, s) = (ok a, s)
as_eio (err e, s) = (err eio, s)
as_eio (stuck, s) = (stuck, s)

abbrev pub eisdir : ℕ
eisdir = 21

abbrev pub is_reg : Vtype → Bool
is_reg vreg = true
is_reg _ = false

module _ {D : Type 0} (io : BlockIo D) (fsi : Info) {U : Type 0} (user : UserIo U) where
  -- bytes_to_copy
  unfoldable pub bytes_to_copy : ℕ → ℕ → ℕ
  bytes_to_copy offset_in_cluster remaining =
      let most = sub32 fsi.bytes_per_cluster offset_in_cluster in
      if ltb remaining most then u32 remaining else most

  -- The loop of fat32_read; the result is skip_clusters and current_cluster. Each round moves at least
  -- a byte, so that `remaining` is fuel enough.
  unfoldable pub read_loop : ℕ → ℕ → ℕ → ℕ → ℕ → Fm D U (ℕ × ℕ)
  unfolding bytes_to_copy
  read_loop zero remaining skip offset current s =
      if remaining == 0 then (ok (skip, current), s) else (stuck, s)
  read_loop (suc fuel) remaining skip offset current s =
      let bp = read_cluster io fsi s.node.vol.disk current in
      let n = bytes_to_copy offset remaining in
      let moved = user.to_user bp.bytes offset n s.uio in
      let after : Session D U = record s { uio = moved.1 } in
      let on : Fm D U (ℕ × ℕ) = do
        next ← (λ t. as_eio (on_node (lift (next_cluster io fsi current no_flags)) t))
        read_loop fuel (remaining - n) (u32 (skip + 1)) 0 next
      in if remaining == 0
        then (ok (skip, current), s)
        else if bp.failed
        then (err (buf_errno bp), s)
        else if not (moved.0 == 0)
        then (err moved.0, after)
        else if remaining - n == 0
        then (ok (skip, current), after)
        else on after

  -- fat32_vnode_update_cache, at the end of both loops.
  abbrev pub note : ℕ × ℕ → Fm D U (Unit {0})
  note place = on_node (modify (λ fv. with_cache (update_cache place.0 place.1 fv.fv_cls_cache) fv))

  -- From the seek on, for `remaining` bytes at `offset`.
  unfoldable pub read_from : ℕ → ℕ → Fm D U (Unit {0})
  unfolding read_loop
  read_from offset remaining = do
    current ← on_node (vnode_seek_cluster io fsi (u32 (offset >>> fsi.cluster_shift)) no_flags)
    place ←
        read_loop remaining remaining (u32 (offset >>> fsi.cluster_shift))
          (bit_and offset fsi.cluster_mask) current
    note place

  -- The tests of the offset, of type off_t.
  unfoldable pub read_at_offset : ℤ → Fm D U (Unit {0})
  unfolding read_from
  read_at_offset (negsuc _) s = (err einval, s)
  read_at_offset (pos offset) s =
      let size = s.node.fv.fv_size in
      let resid = user.uio_resid s.uio in
      let remaining = if ltb size (offset + resid) then size - offset else resid in
      if leb size offset
      then (ok tt, s)
      else if remaining == 0
      then (ok tt, s)
      else read_from offset remaining s

  -- fat32_read; `now` is what nanotime gives.
  unfoldable pub read : Timespec → Fm D U (Unit {0})
  unfolding touch read_at_offset
  read now s =
      let touched : Session D U = record s {
        node = record s.node { fv = touch now true false s.node.fv };
      } in
      if not (is_reg s.node.fv.fv_type)
      then (err eisdir, s)
      else read_at_offset (user.uio_offset s.uio) touched
