-- ===== src/File/Read.antt =====
-- Reading a file gives the bytes that the file holds.
use fat.Shared.{
  ℕ, zero, suc, ◌+◌, ◌-◌, ◌*◌, ◌^◌, ◌≤◌, ◌<◌, ◌≡◌, refl, sym, ap, ◌∙◌, ◌≢◌, List, ◌++◌, arith, pos,
  ==_false, ==_true, u32, false,
}
use native.Mathlib.Decide.{ℕ_discrete}
use mathlib.Core.List.{append_assoc, append-nil}
use fat.Shared.Bits.{pow_pos}
use fat.Bytes.{Bytes}
use fat.Device.{BlockIo}
use fat.Fat.{Info, Volume, Ret, ok, err, stuck}
use fat.Cluster.{no_flags, read_cluster, next_cluster}
use fat.Cluster.View.{Works, table}
use fat.Cluster.Follow.{Follows, IsLink, next_cluster-IsLink}
use fat.Vnode.Cache.{Open}
use fat.Boot.Geometry.{IsAligned}
use fat.File.{UserIo, Session, bytes_to_copy, read_loop}
use fat.File.Content.{slice, unit, IsFile, IsUserIo, slice-append, slice-cong}

module _ {D : Type 0} (io : BlockIo D) (fsi : Info) {U : Type 0} (user : UserIo U) where
  -- What one round moves: something, no more than is left or than the cluster holds, and the whole
  -- rest of the cluster where more is left.
  abbrev pub IsShare : ℕ → ℕ → ℕ → Type 0
  IsShare o rem n = (0 < n) × (n ≤ rem) × (o + n ≤ unit fsi) × ((rem - n ≢ 0) → o + n ≡ unit fsi)

  pub bytes_to_copy-IsShare :
      (o rem : ℕ)
      → IsAligned fsi
      → o < unit fsi
      → 0 < rem
      → IsShare o rem (bytes_to_copy io fsi user o rem)
  unfolding bytes_to_copy
  bytes_to_copy-IsShare o rem al h p = (
    ground (arith, al.size, al.small),
    ground (arith, al.size, al.small),
    ground (arith, al.size, al.small),
    λ q. ground (arith, al.size, al.small),
  )

  -- Along a chain: one link more.
  pub Follows-step :
      (v : Volume D) (k a c e : ℕ)
      → Follows io fsi v k a c
      → Follows io fsi v (suc k) a e
      → IsLink io fsi v c × (table io fsi v c ≡ e)
  Follows-step v zero a c e p (link, q) = rw (← p) (link, q)
  Follows-step v (suc k) a c e (_, p) (_, q) = Follows-step v k (table io fsi v a) c e p q

  module _ (got : U → List ℕ) where
    -- The request `u'` is `u` with the `n` bytes of `f` from `p` on delivered.
    abbrev pub Delivered : (ℕ → ℕ) → ℕ → ℕ → U → U → Type 0
    Delivered f p n u u' =
        (got u' ≡ got u ++ slice f p n)
        × (user.uio_resid u' + n ≡ user.uio_resid u)
        × (user.uio_offset u ≡ pos p → user.uio_offset u' ≡ pos (p + n))

    -- An error number that uiomove gave.
    abbrev pub IsFault : ℕ → Type 0
    IsFault e =
        (e ≢ 0) × ((b : Bytes) × (p : ℕ) × (n : ℕ) × (u : U) × ((user.to_user b p n u).0 ≡ e))

    abbrev pub LoopRead : (ℕ → ℕ) → ℕ → ℕ → Session D U → Ret (ℕ × ℕ) × Session D U → Type 0
    LoopRead f p n s (ok (k, c), t) =
        (t.node ≡ s.node)
        × Follows io fsi s.node.vol k s.node.fv.fv_cluster c
        × Delivered f p n s.uio t.uio
    LoopRead f p n s (err e, t) = (t.node ≡ s.node) × IsFault e
    LoopRead f p n s (stuck, t) = ⊥

    Delivered-append :
        (f : ℕ → ℕ) (p m n : ℕ) (u u' u'' : U)
        → Delivered f p m u u'
        → Delivered f (p + m) n u' u''
        → Delivered f p (m + n) u u''
    Delivered-append f p m n u u' u'' (g, r, o) (g', r', o') = (
      g'
          ∙ ap (λ xs. xs ++ slice f (p + m) n) g
          ∙ append_assoc (got u) (slice f p m) (slice f (p + m) n)
          ∙ ap (λ xs. got u ++ xs) (sym (slice-append f p m n)),
      omega arith,
      λ e. o' (o e) ∙ ap pos (omega arith),
    )

    LoopRead-append :
        (f : ℕ → ℕ) (p m n : ℕ) (s t : Session D U) (r : Ret (ℕ × ℕ) × Session D U)
        → t.node ≡ s.node
        → Delivered f p m s.uio t.uio
        → LoopRead f (p + m) n t r
        → LoopRead f p (m + n) s r
    LoopRead-append f p m n s t (ok (k, c), t') same d (same', at, d') =
        (same' ∙ same, rw same at (at), Delivered-append f p m n s.uio t.uio t'.uio d d')
    LoopRead-append f p m n s t (err e, t') same d (same', fault) = (same' ∙ same, fault)
    LoopRead-append f p m n s t (stuck, t') same d h = h

    sized : (f : ℕ → ℕ) (p m n : ℕ) (u u' : U) → m ≡ n → Delivered f p n u u' → Delivered f p m u u'
    sized f p m n u u' e h = rw e h

    -- The same where the second part's start and the sum are given otherwise.
    LoopRead-then :
        (f : ℕ → ℕ) (p m n q p' : ℕ) (s t : Session D U) (r : Ret (ℕ × ℕ) × Session D U)
        → q ≡ m + n
        → p + m ≡ p'
        → t.node ≡ s.node
        → Delivered f p m s.uio t.uio
        → LoopRead f p' n t r
        → LoopRead f p q s r
    LoopRead-then f p m n q p' s t r e e' same d h =
        rw e (LoopRead-append f p m n s t r same d (rw e' h))

    module _ (w : Works io fsi) (al : IsAligned fsi) (laws : IsUserIo user got) (f : ℕ → ℕ) where
      pub next_row : (k : ℕ) → suc k * unit fsi ≡ k * unit fsi + unit fsi
      next_row k = grind arith

      pub row : (k : ℕ) → k ≤ k * unit fsi
      row k = grind (arith, pow_pos fsi.cluster_shift)

      -- A move of `n` bytes of the cluster at index `k`, from `o` on.
      moved-Delivered :
          (k o c n : ℕ) (s : Session D U)
          → IsFile io fsi s.node f
          → o + n ≤ unit fsi
          → k * unit fsi + o + n ≤ s.node.fv.fv_size
          → n ≤ user.uio_resid s.uio
          → Follows io fsi s.node.vol k s.node.fv.fv_cluster c
          → (user.to_user (read_cluster io fsi s.node.vol.disk c).bytes o n s.uio).0 ≡ 0
          → Delivered f
              (k * unit fsi + o)
              n
              s.uio
              (user.to_user (read_cluster io fsi s.node.vol.disk c).bytes o n s.uio).1
      moved-Delivered k o c n s file inside below room at fine = (
        laws.bytes (read_cluster io fsi s.node.vol.disk c).bytes o n s.uio room fine
            ∙ ap (λ xs. got s.uio ++ xs)
                (slice-cong (read_cluster io fsi s.node.vol.disk c).bytes f o (k * unit fsi + o) n
                  λ i lt.
                    file.holds k (o + i) c (omega arith) (omega arith) at ∙ ap f (omega arith)),
        laws.resid (read_cluster io fsi s.node.vol.disk c).bytes o n s.uio room fine,
        laws.offset (read_cluster io fsi s.node.vol.disk c).bytes o n s.uio _ room fine,
      )

      LoopRead-zero :
          (p k c n : ℕ) (s : Session D U)
          → n ≡ 0
          → Follows io fsi s.node.vol k s.node.fv.fv_cluster c
          → LoopRead f p n s (ok (k, c), s)
      LoopRead-zero p k c n s e at =
          rw e
            (refl, at, (sym (append-nil (got s.uio)), omega arith, λ q. q ∙ ap pos (omega arith)))

      -- The next cluster, where the file goes on.
      step :
          (k c : ℕ) (s : Open D)
          → IsFile io fsi s f
          → suc k * unit fsi < s.fv.fv_size
          → Follows io fsi s.vol k s.fv.fv_cluster c
          → (e : ℕ) × (next_cluster io fsi c no_flags s.vol ≡ (ok e, s.vol))
            × Follows io fsi s.vol (suc k) s.fv.fv_cluster e
      step k c s file below at =
          let (e, there, _) = file.reach (suc k) below in
          let link = Follows-step s.vol k s.fv.fv_cluster c e at there in
          (
            e,
            next_cluster-IsLink io fsi w s.vol c no_flags link.0 ∙ ap (λ x. (ok x, s.vol)) link.1,
            there,
          )

      pub read_loop-LoopRead :
          (fuel rem k o c : ℕ) (s : Session D U)
          → IsFile io fsi s.node f
          → s.node.fv.fv_size < 2 ^ 32
          → rem ≤ fuel
          → o < unit fsi
          → k * unit fsi + o + rem ≤ s.node.fv.fv_size
          → rem ≤ user.uio_resid s.uio
          → Follows io fsi s.node.vol k s.node.fv.fv_cluster c
          → LoopRead f (k * unit fsi + o) rem s (read_loop io fsi user fuel rem k o c s)
      unfolding read_loop
      read_loop-LoopRead zero rem k o c s file big enough inside below room at =
          rw (==_true {a = rem} {b = 0} (omega arith)) (LoopRead-zero _ k c rem s (omega arith) at)
      read_loop-LoopRead (suc fuel) rem k o c s file big enough inside below room at =
          elim (ℕ_discrete rem 0) [
            | yes z ↦ rw (==_true z) (LoopRead-zero _ k c rem s z at)
            | no nz ↦
                rw (==_false nz, fine)
                  (elim (ℕ_discrete moved.0 0) [
                    | no bad ↦ rw (==_false bad) (refl, (bad, (buf, o, n, s.uio, refl)))
                    | yes good ↦
                        let sh = bytes_to_copy-IsShare o rem al inside (omega arith) in
                        let d =
                          moved-Delivered k o c n s file sh.2 (omega (arith, sh.1))
                            (omega (arith, sh.1)) at good in
                        rw (==_true good) (elim (ℕ_discrete (rem - n) 0) [
                          | yes last ↦
                              let all : n ≡ rem = omega (arith, sh.1) in
                              rw (==_true last) (
                                refl,
                                at,
                                sized f (k * unit fsi + o) rem n s.uio moved.1 (sym all) d,
                              )
                          | no more ↦
                              let full = sh.3 more in
                              let begins : k * unit fsi + o + n ≡ suc k * unit fsi + 0 =
                                omega (arith, next_row k) in
                              let next = step k c s.node file (omega (arith, sh.1)) at in
                              let no_wrap : u32 (k + 1) ≡ suc k = omega (arith, row k) in
                              let all : rem ≡ n + (rem - n) = omega (arith, sh.1) in
                              rw (==_false more, next.1, no_wrap)
                                (LoopRead-then f (k * unit fsi + o) n (rem - n) rem
                                  (suc k * unit fsi + 0) s (record s { uio = moved.1 }) _ all begins
                                  refl d
                                  (read_loop-LoopRead fuel (rem - n) (suc k) 0 next.0
                                    (record s { uio = moved.1 }) file big (omega (arith, sh.0))
                                    (omega (arith, pow_pos fsi.cluster_shift)) (omega (arith, sh.1))
                                    (omega (arith, sh.1, d.1)) next.2))
                        ])
                  ])
          ]
        where
          n : ℕ
          n = bytes_to_copy io fsi user o rem

          buf : Bytes
          buf = (read_cluster io fsi s.node.vol.disk c).bytes

          moved : ℕ × U
          moved = user.to_user buf o n s.uio

          fine : (read_cluster io fsi s.node.vol.disk c).failed ≡ false
          fine = unfold read_cluster in w.healthy.fine s.node.vol.disk _ _
