-- ===== src/Calls.antt =====
-- The short operations of fat32_vnode.c: fat32_open, fat32_close, fat32_seek, fat32_cmp and
-- fat32_inactive, with fat32_vnode_delete of fat32_util.c.
use fat.Shared.{
  ℕ, ◌^◌, ◌%◌, ◌<◌, ◌≡◌, ◌↔◌, ap, ◌∙◌, sym, Bool, true, false, ◌&&◌, ◌||◌, ◌==◌, ==_iff, ltb,
  if◌then◌else◌, ℤ, pos, negsuc,
}
use fat.Device.{BlockIo}
use fat.Fat.{Info, Ret, ok, einval}
use fat.Ino.{pack_ino, unpack_ino, unpack_ino-pack_ino}
use fat.Vnode.{Vnode, is_dir}
use fat.Vnode.Cache.{Open, Vm, chain}
use fat.File.{eisdir}
use fat.Dir.Update.{is_dirty}
use fat.Attr.{sync_metadata, unreported}

-- fat32_open, for a mode with FWRITE or FTRUNC; the result is the error number, or 0.
abbrev pub open_node : Bool → Bool → Vnode → ℕ
open_node fwrite ftrunc fv = if is_dir fv.fv_type && (fwrite || ftrunc) then eisdir else 0

-- fat32_seek
abbrev pub seek : ℤ → ℕ
seek (pos n) = 0
seek (negsuc n) = einval

-- The inode number of a node's directory entry.
abbrev pub ino_of : Vnode → ℕ
ino_of fv = pack_ino fv.fv_parent_cluster fv.fv_diroff fv.fv_dirsz

-- fat32_cmp
unfoldable pub cmp : Vnode → Vnode → Bool
cmp fv1 fv2 =
    if fv1.fv_flags.root
    then fv2.fv_flags.root
    else if fv2.fv_flags.root
    then false
    else ino_of fv1 == ino_of fv2

-- fat32_vnode_delete: whether a reference of the parent is released. The node is gone.
abbrev pub vnode_delete : Vnode → Bool
vnode_delete fv = fv.fv_parent_held

-- What fat32_inactive answers: VN_INACTIVE_CACHE, or VN_INACTIVE_NOCACHE after the node was deleted.
pub data Inactive : Type 0 where
  cached : Inactive
  torn_down : Bool → Inactive

module _ {D : Type 0} (io : BlockIo D) (fsi : Info) where
  -- fat32_close; an error of fat32_sync_metadata is not looked at.
  unfoldable pub close : Bool → Vm D (Unit {0})
  close lastclose s =
      if lastclose && is_dirty s.fv.fv_flags
      then unreported (sync_metadata io fsi s)
      else (ok tt, s)

  -- fat32_inactive; `v_count` is the number of references.
  unfoldable pub inactive : ℕ → Vm D Inactive
  inactive v_count s =
      let flushed : Ret (Unit {0}) × Open D =
        if is_dirty s.fv.fv_flags then unreported (sync_metadata io fsi s) else (ok tt, s) in
      if ltb 0 v_count
      then (ok cached, s)
      else chain {D = D} flushed (λ _ t. (ok (torn_down (vnode_delete t.fv)), t))

-- A place of a directory entry that fits into an inode number.
abbrev pub IsPlaced : Vnode → Type 0
IsPlaced fv =
    (fv.fv_parent_cluster < 2 ^ 28)
    × (fv.fv_diroff < 2 ^ 32)
    × (fv.fv_diroff % 32 ≡ 0)
    × (fv.fv_dirsz < 2 ^ 8)

-- The place of a node's directory entry.
abbrev pub place : Vnode → ℕ × ℕ × ℕ
place fv = (fv.fv_parent_cluster, fv.fv_diroff, fv.fv_dirsz)

unpacked : (fv : Vnode) → IsPlaced fv → unpack_ino (ino_of fv) ≡ place fv
unpacked fv (c, o, aligned, s) =
    unpack_ino-pack_ino fv.fv_parent_cluster fv.fv_diroff fv.fv_dirsz c o aligned s

-- For two nodes that are not the root, whose entries lie in directories of 28-bit clusters, at offsets
-- of 32 bits that are multiples of 32, and take fewer than 256 slots: fat32_cmp finds them the same
-- just if their entries have the same directory, offset and number of slots.
pub cmp_lem :
    (fv1 fv2 : Vnode)
    → fv1.fv_flags.root ≡ false
    → fv2.fv_flags.root ≡ false
    → IsPlaced fv1
    → IsPlaced fv2
    → (cmp fv1 fv2 ≡ true) ↔ (place fv1 ≡ place fv2)
unfolding cmp
cmp_lem fv1 fv2 r1 r2 p1 p2 =
    rw (r1, r2)
      (
        λ h.
            sym (unpacked fv1 p1)
            ∙ ap unpack_ino ((==_iff (ino_of fv1) (ino_of fv2)).0 h)
            ∙ unpacked fv2 p2,
        λ h. (==_iff (ino_of fv1) (ino_of fv2)).1 (ap (λ (t : ℕ × ℕ × ℕ). pack_ino t.0 t.1 t.2) h),
      )
