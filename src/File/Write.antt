-- ===== src/File/Write.antt =====
-- fat32_write of fat32_vnode.c. Where uiomove fails the buffer is released without being written; what
-- it moved of the bytes until then is not on the volume.
use fat.Shared.{
  ℕ, zero, suc, ◌+◌, ◌-◌, ◌^◌, ◌%◌, ℤ, pos, negsuc, Bool, true, false, not, ◌==◌, ltb, bit_and,
  if◌then◌else◌, u32, ◌>>>◌,
}
use fat.Bytes.{Bytes}
use fat.Device.{BlockIo, buf_errno}
use fat.Time.{Timespec}
use fat.Fat.{Info, ok, err, stuck}
use fat.Cluster.{NcFlags, cluster_to_sector, read_cluster, next_cluster}
use fat.Vnode.{Vnode, touch}
use fat.Vnode.Cache.{lift, modify, vnode_seek_cluster}
use fat.File.{UserIo, Session, Fm, ◌>>=◌, ◌>>◌, on_node, eisdir, is_reg, bytes_to_copy, note}

-- NC_ALLOC alone: a cluster that a write takes is not cleared.
abbrev pub nc_alloc : NcFlags
nc_alloc = record { alloc = true; clear = false }

-- The size after a move that ended at `offset`.
abbrev pub grown : ℤ → Vnode → Vnode
grown (negsuc _) fv = fv
grown (pos offset) fv =
    if ltb fv.fv_size offset
    then record fv { fv_size = offset; fv_flags = record fv.fv_flags { size_dirty = true } }
    else fv

-- (uint32_t)(file_offset >> shift) and (uint32_t)(file_offset & mask), for an off_t of 64 bits.
abbrev pub index_of : Info → ℤ → ℕ
index_of fsi (pos p) = u32 (p >>> fsi.cluster_shift)
index_of fsi (negsuc p) = 2 ^ 32 - 1 - u32 (p >>> fsi.cluster_shift)

abbrev pub rest_of : Info → ℤ → ℕ
rest_of fsi (pos p) = bit_and p fsi.cluster_mask
rest_of fsi (negsuc p) = bit_and (2 ^ 64 - 1 - p % 2 ^ 64) fsi.cluster_mask

abbrev pub first_of_file : ℕ → Vnode → Vnode
first_of_file c fv = record fv {
  fv_cluster = c;
  fv_flags = record fv.fv_flags { cluster_dirty = true };
}

module _ {D : Type 0} (io : BlockIo D) (fsi : Info) {U : Type 0} (user : UserIo U) where
  -- The session after the blocks of `current` were written from `buf`, and the size was noted.
  abbrev pub stored : ℕ → Bytes → U → Session D U → Session D U
  stored current buf uio s = record {
    node = record {
      fv = grown (user.uio_offset uio) s.node.fv;
      vol = record s.node.vol {
        disk =
            io.bdwrite s.node.vol.disk (cluster_to_sector fsi current) fsi.sectors_per_cluster buf;
      };
    };
    uio = uio;
  }

  -- The loop of fat32_write; the result is skip_clusters and current_cluster. Each round moves at
  -- least a byte, so that `remaining` is fuel enough.
  unfoldable pub write_loop : ℕ → ℕ → ℕ → ℕ → ℕ → Fm D U (ℕ × ℕ)
  unfolding bytes_to_copy
  write_loop zero remaining skip offset current s =
      if remaining == 0 then (ok (skip, current), s) else (stuck, s)
  write_loop (suc fuel) remaining skip offset current s =
      let bp = read_cluster io fsi s.node.vol.disk current in
      let n = bytes_to_copy io fsi user offset remaining in
      let moved = user.from_user bp.bytes offset n s.uio in
      let after = stored current moved.2 moved.1 s in
      let on : Fm D U (ℕ × ℕ) = do
        next ← on_node (lift (next_cluster io fsi current nc_alloc))
        write_loop fuel (remaining - n) (u32 (skip + 1)) 0 next
      in if remaining == 0
        then (ok (skip, current), s)
        else if bp.failed
        then (err (buf_errno bp), s)
        else if not (moved.0 == 0)
        then (err moved.0, record s { uio = moved.1 })
        else if remaining - n == 0
        then (ok (skip, current), after)
        else on after

  -- `if (fv->fv_cluster == 0)`: the first cluster of an empty file.
  unfoldable pub ensure_cluster : Fm D U (Unit {0})
  ensure_cluster s =
      let first : Fm D U (Unit {0}) = do
        c ← on_node (lift (next_cluster io fsi 0 nc_alloc))
        on_node (modify (first_of_file c))
      in if s.node.fv.fv_cluster == 0 then first s else (ok tt, s)

  -- From there on, for `remaining` bytes at `offset`.
  unfoldable pub write_from : ℤ → ℕ → Fm D U (Unit {0})
  unfolding ensure_cluster write_loop
  write_from offset remaining = do
    ensure_cluster
    current ← on_node (vnode_seek_cluster io fsi (index_of fsi offset) nc_alloc)
    place ← write_loop remaining remaining (index_of fsi offset) (rest_of fsi offset) current
    note io fsi user place

  -- fat32_write; `append` is IO_APPEND.
  unfoldable pub write : Timespec → Bool → Fm D U (Unit {0})
  unfolding touch write_from
  write now append s =
      let touched : Session D U = record s {
        node = record s.node { fv = touch now false true s.node.fv };
      } in
      let remaining = user.uio_resid s.uio in
      let size = s.node.fv.fv_size in
      if not (is_reg s.node.fv.fv_type)
      then (err eisdir, s)
      else if remaining == 0
      then (ok tt, touched)
      else if append
      then write_from (pos size) remaining (record touched { uio = user.set_offset size s.uio })
      else write_from (user.uio_offset s.uio) remaining touched
