-- ===== src/File/Request.antt =====
-- fat32_read as a whole, through the cluster cache of the node.
use fat.Shared.{
  ℕ, ◌+◌, ◌-◌, ◌*◌, ◌/◌, ◌%◌, ◌^◌, ◌≤◌, ◌<◌, ◌≡◌, refl, sym, ap, ◌∙◌, List, arith, pos, min, u32,
  ◌>>>◌, bit_and, true, false, ltb, leb, ==_true, ==_false, if◌then◌else◌,
}
use mathlib.Core.List.{append-nil}
use native.Mathlib.Nat.{div-add-mod', div-le_self, mod-lt}
use fat.Shared.Bits.{pow_pos, bit_and-mask}
use native.Mathlib.Decide.{ℕ_discrete, dec_lt}
use fat.Device.{BlockIo}
use fat.Time.{Timespec}
use fat.Fat.{Info, Ret, ok, err, stuck}
use fat.Cluster.View.{Works}
use fat.Cluster.Follow.{Follows}
use fat.Vnode.{Vnode, vreg, touch}
use fat.Vnode.Cache.{Open, with_cache, update_cache}
use fat.Vnode.Sound.{IsRight, IsSound, Sought, All-update_cache, vnode_seek_cluster-Sought}
use fat.Boot.Geometry.{IsAligned}
use fat.File.{UserIo, Session, read_loop, read_from, read_at_offset, read, follow, with_uio, note}
use fat.File.Content.{unit, IsFile, IsUserIo}
use fat.File.Read.{Delivered, IsFault, LoopRead, read_loop-LoopRead}

le→leb : (a b : ℕ) → a ≤ b → leb a b ≡ true
le→leb a b h = ground arith

lt→not_leb : (a b : ℕ) → b < a → leb a b ≡ false
lt→not_leb a b h = ground arith

module _ {D : Type 0} (io : BlockIo D) (fsi : Info) {U : Type 0} (user : UserIo U)
    (got : U → List ℕ) where
  -- The volume, and of the node all but the cache, are as before; the cache is sound.
  abbrev pub Kept : Open D → Open D → Type 0
  Kept a b = (b.vol ≡ a.vol) × (b.fv ≡ with_cache b.fv.fv_cls_cache a.fv) × IsSound io fsi b

  -- What reading `n` bytes from `p` on answers.
  abbrev pub Served : (ℕ → ℕ) → ℕ → ℕ → Session D U → Ret (Unit {0}) × Session D U → Type 0
  Served f p n s (ok _, t) = Delivered io fsi user got f p n s.uio t.uio × Kept s.node t.node
  Served f p n s (err e, t) = IsFault io fsi user got e × Kept s.node t.node
  Served f p n s (stuck, t) = ⊥

  Kept-note :
      (a b : Open D) (k c : ℕ)
      → Kept a b
      → Follows io fsi b.vol k b.fv.fv_cluster c
      → Kept a (record b { fv = with_cache (update_cache k c b.fv.fv_cls_cache) b.fv })
  Kept-note a b k c (v, fv, sound) at = (
    v,
    ap (λ (x : Vnode). with_cache (update_cache k c b.fv.fv_cls_cache) x) fv,
    All-update_cache (IsRight io fsi b.vol b.fv.fv_cluster) k c b.fv.fv_cls_cache sound (λ nz. at),
  )

  noted :
      (f : ℕ → ℕ) (p n : ℕ) (a : Open D) (s : Session D U) (r : Ret (ℕ × ℕ) × Session D U)
      → Kept a s.node
      → LoopRead io fsi user got f p n s r
      → Served f p n (record s { node = a }) (follow {D = D} {U = U} r (note io fsi user))
  noted f p n a s (ok (k, c), t) kept (same, at, d) =
      (d, Kept-note a t.node k c (rw same (kept)) (rw same (at)))
  noted f p n a s (err e, t) kept (same, fault) = (fault, rw same (kept))
  noted f p n a s (stuck, t) kept h = h

  module _ (w : Works io fsi) (al : IsAligned fsi) (laws : IsUserIo user got) (f : ℕ → ℕ) where
    IsFile-Kept : (a b : Open D) → Kept a b → IsFile io fsi a f → IsFile io fsi b f
    IsFile-Kept a b (v, fv, _) file = record {
      reach = λ k h. rw (v, fv) (file.reach k (rw fv at h));
      holds = λ k o c lt h fo. rw v (file.holds k o c lt (rw fv at h) (rw (v, fv) at fo));
    }

    -- The loop and the note, where the seek has found the cluster.
    from_cluster :
        (n k o : ℕ) (s : Session D U) (r : Ret ℕ × Open D)
        → IsFile io fsi s.node f
        → s.node.fv.fv_size < 2 ^ 32
        → o < unit fsi
        → 0 < n
        → k * unit fsi + o + n ≤ s.node.fv.fv_size
        → n ≤ user.uio_resid s.uio
        → Sought io fsi k s.node r
        → Served f (k * unit fsi + o) n s (
            follow {D = D} {U = U}
              (with_uio s.uio r)
              λ c t. follow (read_loop io fsi user n n k o c t) (note io fsi user))
    from_cluster n k o s (ok c, t) file big inside more below room (v, fv, sound, at) =
        let kept : Kept s.node t = (v, fv, sound) in
        noted f (k * unit fsi + o) n s.node (record { node = t; uio = s.uio }) _ kept
          (read_loop-LoopRead io fsi user got w al laws f n n k o c
            (record { node = t; uio = s.uio }) (IsFile-Kept s.node t kept file) (rw fv (big))
            (omega arith) inside (rw fv (below)) room (rw (v, fv) (at)))
    from_cluster n k o s (err e, t) file big inside more below room (same, bad, none_there) =
        let (c, there, _) = file.reach k (omega arith) in absurd (none_there c there)
    from_cluster n k o s (stuck, t) file big inside more below room h = absurd h

    served_at :
        (f : ℕ → ℕ) (p q n : ℕ) (s : Session D U) (r : Ret (Unit {0}) × Session D U)
        → p ≡ q
        → Served f p n s r
        → Served f q n s r
    served_at f p q n s r e h = rw (← e) h

    served_len :
        (f : ℕ → ℕ) (p m n : ℕ) (s : Session D U) (r : Ret (Unit {0}) × Session D U)
        → m ≡ n
        → Served f p m s r
        → Served f p n s r
    served_len f p m n s r e h = rw (← e) h

    nothing :
        (p n : ℕ) (s : Session D U) → n ≡ 0 → IsSound io fsi s.node → Served f p n s (ok tt, s)
    nothing p n s e sound = rw e (
      (sym (append-nil (got s.uio)), omega arith, λ q. q ∙ ap pos (omega arith)),
      (refl, refl, sound),
    )

    read_from-Served :
        (p n : ℕ) (s : Session D U)
        → IsFile io fsi s.node f
        → IsSound io fsi s.node
        → s.node.fv.fv_size < 2 ^ 32
        → 0 < n
        → p + n ≤ s.node.fv.fv_size
        → n ≤ user.uio_resid s.uio
        → Served f p n s (read_from io fsi user p n s)
    unfolding read_from
    read_from-Served p n s file sound big more below room =
        rw (index, offset)
          (served_at f (p / unit fsi * unit fsi + p % unit fsi) p n s _ whole (
            from_cluster n (p / unit fsi) (p % unit fsi) s _ file big inside more
              (omega (arith, whole, below)) room
              (vnode_seek_cluster-Sought io fsi w (p / unit fsi) s.node small sound)))
      where
        small : p / unit fsi < 2 ^ 32
        small = omega (arith, div-le_self p (unit fsi))

        index : u32 (p >>> fsi.cluster_shift) ≡ p / unit fsi
        index = omega (arith, small)

        whole : p / unit fsi * unit fsi + p % unit fsi ≡ p
        whole = div-add-mod' p (unit fsi)

        inside : p % unit fsi < unit fsi
        inside = mod-lt p (pow_pos fsi.cluster_shift)

        offset : bit_and p fsi.cluster_mask ≡ p % unit fsi
        offset = rw al.mask (bit_and-mask fsi.cluster_shift p)

    read_at_offset-Served :
        (p : ℕ) (s : Session D U)
        → IsFile io fsi s.node f
        → IsSound io fsi s.node
        → s.node.fv.fv_size < 2 ^ 32
        → Served f p
            (min (user.uio_resid s.uio) (s.node.fv.fv_size - p))
            s
            (read_at_offset io fsi user (pos p) s)
    unfolding read_at_offset
    read_at_offset-Served p s file sound big = elim (dec_lt p s.node.fv.fv_size) [
      | no out ↦
          rw (le→leb s.node.fv.fv_size p (omega arith))
            (nothing p (min (user.uio_resid s.uio) (s.node.fv.fv_size - p)) s (omega arith) sound)
      | yes inside ↦
          rw (lt→not_leb s.node.fv.fv_size p inside, clipped inside)
            (elim (ℕ_discrete (min (user.uio_resid s.uio) (s.node.fv.fv_size - p)) 0) [
              | yes z ↦ rw (==_true z) (nothing p _ s z sound)
              | no nz ↦ rw (==_false nz) (
                  read_from-Served p (min (user.uio_resid s.uio) (s.node.fv.fv_size - p)) s file
                    sound big (omega arith) (omega arith) (omega arith))
            ])
    ]
      where
        clipped :
            p < s.node.fv.fv_size
            → (if ltb s.node.fv.fv_size (p + user.uio_resid s.uio)
                then s.node.fv.fv_size - p
                else user.uio_resid s.uio)
              ≡ min (user.uio_resid s.uio) (s.node.fv.fv_size - p)
        clipped h = ground arith

    -- A file of less than 2 ^ 32 bytes whose chain reaches its size holds a sequence of bytes, `f`. On
    -- a volume whose layout is sound and aligned, a device without read errors (`Works`) and a node
    -- whose cluster cache is sound, for a request at offset `p`: fat32_read gives the user just the
    -- bytes of `f` from `p` on, as many as are asked for or as there are up to the end of the file,
    -- and advances the request by them, or it ends with an error that uiomove gave. The volume is as
    -- before and so is the node, but for its access time and its cache, which is sound again.
    pub read-Served :
        (now : Timespec) (p : ℕ) (s : Session D U)
        → s.node.fv.fv_type ≡ vreg
        → user.uio_offset s.uio ≡ pos p
        → IsFile io fsi s.node f
        → IsSound io fsi s.node
        → s.node.fv.fv_size < 2 ^ 32
        → Served f p
            (min (user.uio_resid s.uio) (s.node.fv.fv_size - p))
            (record s { node = record s.node { fv = touch now true false s.node.fv } })
            (read io fsi user now s)
    unfolding read touch
    read-Served now p s reg at file sound big =
        rw (reg, at)
          (read_at_offset-Served p _ (record { reach = file.reach; holds = file.holds }) sound big)
