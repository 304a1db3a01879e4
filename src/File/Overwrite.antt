-- ===== src/File/Overwrite.antt =====
-- fat32_write inside a file.
use fat.Shared.{ℕ, ◌+◌, ◌*◌, ◌≤◌, ◌<◌, ◌≡◌, refl, ap, ◌∙◌, ◌≢◌, arith, pos, le→not_ltb}
use fat.Bytes.{Bytes}
use fat.Device.{BlockIo}
use fat.Fat.{Info, Ret, ok, err, stuck}
use fat.Fat.Entry.{InRange, fat_entry}
use fat.Cluster.{read_cluster}
use fat.Cluster.View.{Works, table}
use fat.Cluster.Follow.{Follows}
use fat.Cluster.Blocks.{with_block, fat_entry-with_block}
use fat.Vnode.{Vnode}
use fat.Boot.Geometry.{IsAligned}
use fat.File.{UserIo, Session}
use fat.File.Write.{stored, grown}
use fat.File.Content.{unit, IsFile}
use fat.File.Patch.{patch, IsUserGift, patch-patch, IsFile-ext, IsSimple, IsFile-with_block}

module _ {D : Type 0} (io : BlockIo D) (fsi : Info) {U : Type 0} (user : UserIo U)
    (given : U → ℕ → ℕ) where
  -- The request `u'` is `u` with `n` bytes taken from it.
  abbrev pub Taken : ℕ → ℕ → U → U → Type 0
  Taken p n u u' =
      ((i : ℕ) → given u' i ≡ given u (n + i))
      × (user.uio_resid u' + n ≡ user.uio_resid u)
      × (user.uio_offset u' ≡ pos (p + n))

  abbrev pub IsGiftFault : ℕ → Type 0
  IsGiftFault e =
      (e ≢ 0) × ((b : Bytes) × (p : ℕ) × (n : ℕ) × (u : U) × ((user.from_user b p n u).0 ≡ e))

  -- The session `t` is `s` with the file `f` changed by `n` bytes from `p` on; every entry of every copy
  -- of the table and the counts are as before, and so is the node.
  abbrev pub Patched : (ℕ → ℕ) → ℕ → ℕ → Session D U → Session D U → Type 0
  Patched f p n s t =
      IsFile io fsi t.node (patch f p n (given s.uio))
      × ((k e : ℕ)
          → k < fsi.num_fats
          → InRange fsi e
          → fat_entry io fsi t.node.vol.disk k e ≡ fat_entry io fsi s.node.vol.disk k e)
      × (t.node.vol.free_count ≡ s.node.vol.free_count)
      × (t.node.vol.next_free ≡ s.node.vol.next_free)
      × (t.node.fv ≡ s.node.fv)

  -- What the loop for `n` bytes at `p` answers: an error comes from uiomove, and then some of the first
  -- bytes are written.
  abbrev pub LoopWrote : (ℕ → ℕ) → ℕ → ℕ → Session D U → Ret (ℕ × ℕ) × Session D U → Type 0
  LoopWrote f p n s (ok (k, c), t) =
      Patched f p n s t × Taken p n s.uio t.uio × Follows io fsi t.node.vol k t.node.fv.fv_cluster c
  LoopWrote f p n s (err e, t) = IsGiftFault e × ((m : ℕ) × (m ≤ n) × Patched f p m s t)
  LoopWrote f p n s (stuck, t) = ⊥

  -- A part of the bytes is written.
  abbrev pub Advanced : (ℕ → ℕ) → ℕ → ℕ → Session D U → Session D U → Type 0
  Advanced f p n s t = Patched f p n s t × Taken p n s.uio t.uio

  carry :
      (f : ℕ → ℕ) (p n : ℕ) (s a t : Session D U) → a ≡ t → Advanced f p n s t → Advanced f p n s a
  carry f p n s a t e h = rw e h

  Patched-then :
      (f : ℕ → ℕ) (p m n : ℕ) (s t t' : Session D U)
      → Patched f p m s t
      → Taken p m s.uio t.uio
      → Patched (patch f p m (given s.uio)) (p + m) n t t'
      → Patched f p (m + n) s t'
  Patched-then f p m n s t t' (file, table, count, hint, fv) taken
        (file', table', count', hint', fv') =
      (
        IsFile-ext io fsi t'.node _ _
            (λ i. patch-patch f (given s.uio) (given t.uio) p m n i taken.0) file',
        (λ k e hk re. table' k e hk re ∙ table k e hk re),
        count' ∙ count,
        hint' ∙ hint,
        fv' ∙ fv,
      )

  LoopWrote-append :
      (f : ℕ → ℕ) (p m n : ℕ) (s t : Session D U) (r : Ret (ℕ × ℕ) × Session D U)
      → Patched f p m s t
      → Taken p m s.uio t.uio
      → LoopWrote (patch f p m (given s.uio)) (p + m) n t r
      → LoopWrote f p (m + n) s r
  LoopWrote-append f p m n s t (ok (k, c), t') d taken (d', taken', at) = (
    Patched-then f p m n s t t' d taken d',
    (
      (λ i. taken'.0 i ∙ taken.0 (n + i) ∙ ap (given s.uio) (omega arith)),
      omega (arith, taken.1, taken'.1),
      taken'.2 ∙ ap pos (omega arith),
    ),
    at,
  )
  LoopWrote-append f p m n s t (err x, t') d taken (fault, (j, le, d')) =
      (fault, (m + j, omega arith, Patched-then f p m j s t t' d taken d'))
  LoopWrote-append f p m n s t (stuck, t') d taken h = h

  pub LoopWrote-then :
      (f : ℕ → ℕ) (p m n q p' : ℕ) (s t : Session D U) (r : Ret (ℕ × ℕ) × Session D U)
      → q ≡ m + n
      → p + m ≡ p'
      → Patched f p m s t
      → Taken p m s.uio t.uio
      → LoopWrote (patch f p m (given s.uio)) p' n t r
      → LoopWrote f p q s r
  LoopWrote-then f p m n q p' s t r e e' d taken h =
      rw e (LoopWrote-append f p m n s t r d taken (rw e' h))

  pub sized :
      (f : ℕ → ℕ) (p m n : ℕ) (s t : Session D U) → m ≡ n → Advanced f p n s t → Advanced f p m s t
  sized f p m n s t e h = rw e h

  pub Patched-none :
      (f : ℕ → ℕ) (p : ℕ) (s t : Session D U)
      → t.node ≡ s.node
      → IsFile io fsi s.node f
      → Patched f p 0 s t
  Patched-none f p s t e file =
      rw e (
        IsFile-ext io fsi s.node f _ (λ i. ground arith) file,
        (λ k e hk re. refl),
        refl,
        refl,
        refl,
      )

  module _ (w : Works io fsi) (al : IsAligned fsi) (laws : IsUserGift user given) where
    -- One round that writes `n` bytes of the cluster at index `k`.
    pub stored-Patched :
        (f : ℕ → ℕ) (k o c n : ℕ) (s : Session D U)
        → IsFile io fsi s.node f
        → IsSimple io fsi s.node
        → InRange fsi c
        → o < unit fsi
        → o + n ≤ unit fsi
        → k * unit fsi + o + n ≤ s.node.fv.fv_size
        → 0 < n
        → n ≤ user.uio_resid s.uio
        → user.uio_offset s.uio ≡ pos (k * unit fsi + o)
        → Follows io fsi s.node.vol k s.node.fv.fv_cluster c
        → (user.from_user (read_cluster io fsi s.node.vol.disk c).bytes o n s.uio).0 ≡ 0
        → Advanced f (k * unit fsi + o) n s (
            stored io fsi user c
              (user.from_user (read_cluster io fsi s.node.vol.disk c).bytes o n s.uio).2
              (user.from_user (read_cluster io fsi s.node.vol.disk c).bytes o n s.uio).1
              s)
    stored-Patched f k o c n s file simple rc lt inside below more room at there fine =
        carry f (k * unit fsi + o) n s _ _ same_fv (
          (
            IsFile-with_block io fsi w al s.node f (given s.uio) k c o n moved.2 file simple rc
                (omega arith) inside there (λ i. laws.bytes buf o n s.uio i room fine),
            (λ j e hj re. fat_entry-with_block io fsi w moved.2 c j e s.node.vol rc hj re),
            refl,
            refl,
            refl,
          ),
          (
            (λ i. laws.later buf o n s.uio i room fine),
            laws.resid buf o n s.uio room fine,
            laws.offset buf o n s.uio (k * unit fsi + o) room fine at,
          ),
        )
      where
        buf : Bytes
        buf = (read_cluster io fsi s.node.vol.disk c).bytes

        moved : ℕ × U × Bytes
        moved = user.from_user buf o n s.uio

        no_growth : (fv : Vnode) (z : ℕ) → z ≤ fv.fv_size → grown (pos z) fv ≡ fv
        no_growth fv z h = rw (le→not_ltb fv.fv_size z h) refl

        ends : user.uio_offset moved.1 ≡ pos (k * unit fsi + o + n)
        ends = laws.offset buf o n s.uio (k * unit fsi + o) room fine at

        same_fv : stored io fsi user c moved.2 moved.1 s ≡ record {
          node = record { fv = s.node.fv; vol = with_block io fsi c moved.2 s.node.vol };
          uio = moved.1;
        }
        same_fv =
            ap
              (λ (fv : Vnode). record {
                node = record { fv = fv; vol = with_block io fsi c moved.2 s.node.vol };
                uio = moved.1;
              })
              (ap (λ z. grown z s.node.fv) ends ∙ no_growth s.node.fv (k * unit fsi + o + n) below)
