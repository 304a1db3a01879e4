-- ===== src/File/Store.antt =====
-- fat32_write inside a file as a whole, through the cluster cache of the node.
use fat.Shared.{
  ℕ, ◌+◌, ◌*◌, ◌/◌, ◌%◌, ◌^◌, ◌≤◌, ◌<◌, ◌≡◌, refl, sym, ap, ◌∙◌, ◌≢◌, arith, pos, ==_false, ==_true,
  u32, ◌>>>◌, bit_and, true, false,
}
use native.Mathlib.Decide.{ℕ_discrete}
use native.Mathlib.Nat.{div-add-mod', div-le_self, mod-lt}
use fat.Shared.Bits.{pow_pos, bit_and-mask}
use fat.Device.{BlockIo}
use fat.Time.{Timespec}
use fat.Fat.{Info, Ret, ok, err, stuck}
use fat.Fat.Entry.{InRange, fat_entry}
use fat.Cluster.View.{Works}
use fat.Cluster.Follow.{Follows, seek_cluster-Follows}
use fat.Vnode.{vreg, touch}
use fat.Vnode.Cache.{Open, update_cache, with_cache, vnode_seek_cluster, chain, on_volume}
use fat.Vnode.Sound.{IsSound, noting, vnode_seek_cluster-plain_seek}
use fat.Boot.Geometry.{IsAligned}
use fat.File.{UserIo, Session, follow, note}
use fat.File.Write.{ensure_cluster, write_from, write, nc_alloc}
use fat.File.Content.{unit, IsFile}
use fat.File.Patch.{patch, IsUserGift, IsFile-ext, IsSimple}
use fat.File.Overwrite.{Taken, Patched, LoopWrote, IsGiftFault}
use fat.File.Rewrite.{write_loop-LoopWrote}

module _ {D : Type 0} (io : BlockIo D) (fsi : Info) {U : Type 0} (user : UserIo U)
    (given : U → ℕ → ℕ) where
  -- As `Patched`, but that the node's cache may differ.
  abbrev pub Rewritten : (ℕ → ℕ) → ℕ → ℕ → Session D U → Session D U → Type 0
  Rewritten f p n s t =
      IsFile io fsi t.node (patch f p n (given s.uio))
      × ((k e : ℕ)
          → k < fsi.num_fats
          → InRange fsi e
          → fat_entry io fsi t.node.vol.disk k e ≡ fat_entry io fsi s.node.vol.disk k e)
      × (t.node.vol.free_count ≡ s.node.vol.free_count)
      × (t.node.vol.next_free ≡ s.node.vol.next_free)
      × (t.node.fv ≡ with_cache t.node.fv.fv_cls_cache s.node.fv)

  abbrev pub Wrote : (ℕ → ℕ) → ℕ → ℕ → Session D U → Ret (Unit {0}) × Session D U → Type 0
  Wrote f p n s (ok _, t) = Rewritten f p n s t × Taken io fsi user given p n s.uio t.uio
  Wrote f p n s (err e, t) =
      IsGiftFault io fsi user given e × ((m : ℕ) × (m ≤ n) × Rewritten f p m s t)
  Wrote f p n s (stuck, t) = ⊥

  -- A node with another cache holds the same file.
  recached :
      (s : Open D) (f : ℕ → ℕ) (cache : _)
      → IsFile io fsi s f
      → IsFile io fsi (record s { fv = with_cache cache s.fv }) f
  recached s f cache file = record { reach = file.reach; holds = file.holds }

  Rewritten-Patched :
      (f : ℕ → ℕ) (p n : ℕ) (s t : Session D U) (cache : _)
      → Patched io fsi user given f p n
          (record s { node = record s.node { fv = with_cache cache s.node.fv } })
          t
      → Rewritten f p n s t
  Rewritten-Patched f p n s t cache (file, table, count, hint, fv) =
      (file, table, count, hint, rw fv refl)

  noted :
      (f : ℕ → ℕ) (p n : ℕ) (s : Session D U) (cache : _) (r : Ret (ℕ × ℕ) × Session D U)
      → LoopWrote io fsi user given f p n
          (record s { node = record s.node { fv = with_cache cache s.node.fv } })
          r
      → Wrote f p n s (follow {D = D} {U = U} r (note io fsi user))
  noted f p n s cache (ok (k, c), t) ((file, table, count, hint, fv), taken, at) = (
    (
      recached t.node _ (update_cache k c t.node.fv.fv_cls_cache) file,
      table,
      count,
      hint,
      rw fv refl,
    ),
    taken,
  )
  noted f p n s cache (err e, t) (fault, (m, le, d)) =
      (fault, (m, le, Rewritten-Patched f p m s t cache d))
  noted f p n s cache (stuck, t) h = h

  Wrote-none :
      (f : ℕ → ℕ) (p n : ℕ) (s : Session D U)
      → n ≡ 0
      → IsFile io fsi s.node f
      → user.uio_offset s.uio ≡ pos p
      → Wrote f p n s (ok tt, s)
  Wrote-none f p n s e file at = rw e (
    (IsFile-ext io fsi s.node f _ (λ i. ground arith) file, (λ k e hk re. refl), refl, refl, refl),
    ((λ i. ap (given s.uio) (omega arith)), omega arith, at ∙ ap pos (omega arith)),
  )

  placed :
      (f : ℕ → ℕ) (p q n : ℕ) (s : Session D U) (r : Ret (ℕ × ℕ) × Session D U)
      → p ≡ q
      → LoopWrote io fsi user given f p n s r
      → LoopWrote io fsi user given f q n s r
  placed f p q n s r e h = rw (← e) h

  module _ (w : Works io fsi) (al : IsAligned fsi) (laws : IsUserGift user given) (f : ℕ → ℕ) where
    -- The seek finds the cluster at index `k` and notes it.
    seek_lem :
        (k c : ℕ) (s : Open D)
        → k < 2 ^ 32
        → IsSound io fsi s
        → Follows io fsi s.vol k s.fv.fv_cluster c
        → vnode_seek_cluster io fsi k nc_alloc s
          ≡ (ok c, record s { fv = with_cache (update_cache k c s.fv.fv_cls_cache) s.fv })
    seek_lem k c s small sound at =
        vnode_seek_cluster-plain_seek io fsi w k nc_alloc s small sound
        ∙ ap (λ r. chain {D = D} (on_volume s.fv r) (noting io fsi k))
            (seek_cluster-Follows io fsi w s.vol k s.fv.fv_cluster c nc_alloc at)

    write_from-Wrote :
        (p n : ℕ) (s : Session D U)
        → IsFile io fsi s.node f
        → IsSimple io fsi s.node
        → IsSound io fsi s.node
        → s.node.fv.fv_size < 2 ^ 32
        → 0 < n
        → p + n ≤ s.node.fv.fv_size
        → n ≤ user.uio_resid s.uio
        → user.uio_offset s.uio ≡ pos p
        → Wrote f p n s (write_from io fsi user (pos p) n s)
    unfolding write_from ensure_cluster
    write_from-Wrote p n s file simple sound big more below room at =
        let (c, there, rc) = file.reach (p / unit fsi) (omega (arith, whole)) in
        let cache = update_cache (p / unit fsi) c s.node.fv.fv_cls_cache in
        rw
          (
            ==_false {a = s.node.fv.fv_cluster} {b = 0} begun,
            index,
            offset,
            seek_lem (p / unit fsi) c s.node small sound there,
          )
          (noted f p n s cache _ (
            placed f _ p n _ _ whole (
              write_loop-LoopWrote io fsi user given w al laws n n (p / unit fsi) (p % unit fsi) c f
                (record s { node = record s.node { fv = with_cache cache s.node.fv } })
                (recached s.node f cache file) simple big (omega arith) inside
                (omega (arith, whole)) room (at ∙ ap pos (sym whole)) there rc)))
      where
        begun : s.node.fv.fv_cluster ≢ 0
        begun = let (c, e, r) = file.reach 0 (omega arith) in λ z. absurd (omega (arith, e, r))

        small : p / unit fsi < 2 ^ 32
        small = omega (arith, div-le_self p (unit fsi))

        index : u32 (p >>> fsi.cluster_shift) ≡ p / unit fsi
        index = omega (arith, small)

        whole : p / unit fsi * unit fsi + p % unit fsi ≡ p
        whole = div-add-mod' p (unit fsi)

        inside : p % unit fsi < unit fsi
        inside = mod-lt p (pow_pos fsi.cluster_shift)

        offset : bit_and p fsi.cluster_mask ≡ p % unit fsi
        offset = rw al.mask (bit_and-mask fsi.cluster_shift p)

    -- On a volume whose layout is sound and aligned and a device without read errors (`Works`): a file
    -- of less than 2 ^ 32 bytes, whose clusters are all different, holds the sequence `f`; the cache of
    -- its node is sound. For a request, without IO_APPEND, for bytes that lie inside the file,
    -- from offset `p` on, fat32_write makes it hold `f` with just those bytes replaced by the ones that
    -- the user gives, and advances the request by them; or it ends with an error that uiomove gave,
    -- with some of the first bytes replaced. In both cases no entry of any copy of the table, no
    -- count, and nothing of the node but its modification time and its cache changes.
    pub write-Wrote :
        (now : Timespec) (p : ℕ) (s : Session D U)
        → s.node.fv.fv_type ≡ vreg
        → user.uio_offset s.uio ≡ pos p
        → IsFile io fsi s.node f
        → IsSimple io fsi s.node
        → IsSound io fsi s.node
        → s.node.fv.fv_size < 2 ^ 32
        → p + user.uio_resid s.uio ≤ s.node.fv.fv_size
        → Wrote f p
            (user.uio_resid s.uio)
            (record s { node = record s.node { fv = touch now false true s.node.fv } })
            (write io fsi user now false s)
    unfolding write touch
    write-Wrote now p s reg at file simple sound big below =
        elim (ℕ_discrete (user.uio_resid s.uio) 0) [
          | yes z ↦
              rw (reg, ==_true z)
                (Wrote-none f p _ _ z (record { reach = file.reach; holds = file.holds }) at)
          | no nz ↦
              rw (reg, ==_false nz, at)
                (write_from-Wrote p (user.uio_resid s.uio) _
                  (record { reach = file.reach; holds = file.holds }) simple sound big (omega arith)
                  below (omega arith) at)
        ]
