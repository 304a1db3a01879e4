-- ===== src/File/Rewrite.antt =====
-- The loop of fat32_write inside a file, and fat32_write there as a whole.
use fat.Shared.{
  ℕ, zero, suc, ◌+◌, ◌-◌, ◌*◌, ◌^◌, ◌≤◌, ◌<◌, ◌≡◌, refl, sym, ap, ◌∙◌, arith, pos, ==_false,
  ==_true, u32, ◌==◌, false, if◌then◌else◌,
}
use native.Mathlib.Decide.{ℕ_discrete}
use fat.Shared.Bits.{pow_pos}
use fat.Bytes.{Bytes}
use fat.Device.{BlockIo}
use fat.Fat.{Info, ok}
use fat.Fat.Entry.{InRange}
use fat.Cluster.{read_cluster, next_cluster}
use fat.Cluster.View.{Works}
use fat.Cluster.Follow.{Follows, next_cluster-IsLink}
use fat.Cluster.Blocks.{Follows-same}
use fat.Vnode.Cache.{Open, on_volume}
use fat.Boot.Geometry.{IsAligned}
use fat.File.{UserIo, Session, bytes_to_copy, follow, with_uio}
use fat.File.Write.{write_loop, stored, nc_alloc}
use fat.File.Content.{unit, IsFile}
use fat.File.Patch.{patch, IsUserGift, IsSimple}
use fat.File.Read.{IsShare, bytes_to_copy-IsShare, Follows-step}
use fat.File.Overwrite.{
  Taken, Patched, LoopWrote, LoopWrote-then, sized, Patched-none, stored-Patched,
}

module _ {D : Type 0} (io : BlockIo D) (fsi : Info) {U : Type 0} (user : UserIo U)
    (given : U → ℕ → ℕ) where
  module _ (w : Works io fsi) (al : IsAligned fsi) (laws : IsUserGift user given) where
    next_row : (k : ℕ) → suc k * unit fsi ≡ k * unit fsi + unit fsi
    next_row k = grind arith

    row : (k : ℕ) → k ≤ k * unit fsi
    row k = grind (arith, pow_pos fsi.cluster_shift)

    -- Where the table has not changed, the chain has not.
    onward :
        (f : ℕ → ℕ) (p n : ℕ) (s t : Session D U) (k c : ℕ)
        → Patched io fsi user given f p n s t
        → Follows io fsi s.node.vol k s.node.fv.fv_cluster c
        → Follows io fsi t.node.vol k t.node.fv.fv_cluster c
    onward f p n s t k c (_, table_same, _, _, fv) at = rw fv (
        Follows-same io fsi s.node.vol t.node.vol k s.node.fv.fv_cluster c
          (λ e re. table_same 0 e w.geo.copies re) at)

    back :
        (f : ℕ → ℕ) (p n : ℕ) (s t : Session D U) (k c : ℕ)
        → Patched io fsi user given f p n s t
        → Follows io fsi t.node.vol k t.node.fv.fv_cluster c
        → Follows io fsi s.node.vol k s.node.fv.fv_cluster c
    back f p n s t k c (_, table_same, _, _, fv) at =
        Follows-same io fsi t.node.vol s.node.vol k s.node.fv.fv_cluster c
          (λ e re. sym (table_same 0 e w.geo.copies re)) (rw fv at at)

    IsSimple-Patched :
        (f : ℕ → ℕ) (p n : ℕ) (s t : Session D U)
        → Patched io fsi user given f p n s t
        → IsSimple io fsi s.node
        → IsSimple io fsi t.node
    IsSimple-Patched f p n s t d simple = λ j k c hj hk fj fk.
        let size : t.node.fv.fv_size ≡ s.node.fv.fv_size = ap (λ v. v.fv_size) d.4 in
        simple j k c (omega (arith, size)) (omega (arith, size)) (back f p n s t j c d fj)
          (back f p n s t k c d fk)

    nothing :
        (f : ℕ → ℕ) (p k c n : ℕ) (s : Session D U)
        → n ≡ 0
        → IsFile io fsi s.node f
        → user.uio_offset s.uio ≡ pos p
        → Follows io fsi s.node.vol k s.node.fv.fv_cluster c
        → LoopWrote io fsi user given f p n s (ok (k, c), s)
    nothing f p k c n s e file at there = rw e (
      Patched-none io fsi user given f p s s refl file,
      ((λ i. ap (given s.uio) (omega arith)), omega arith, at ∙ ap pos (omega arith)),
      there,
    )

    -- The next cluster, where the file goes on: with NC_ALLOC too, nothing is allocated.
    step :
        (f : ℕ → ℕ) (k c : ℕ) (s : Open D)
        → IsFile io fsi s f
        → suc k * unit fsi < s.fv.fv_size
        → Follows io fsi s.vol k s.fv.fv_cluster c
        → (e : ℕ) × (next_cluster io fsi c nc_alloc s.vol ≡ (ok e, s.vol))
          × Follows io fsi s.vol (suc k) s.fv.fv_cluster e
          × InRange fsi e
    step f k c s file below at =
        let (e, there, re) = file.reach (suc k) below in
        let link = Follows-step io fsi user s.vol k s.fv.fv_cluster c e at there in
        (
          e,
          next_cluster-IsLink io fsi w s.vol c nc_alloc link.0 ∙ ap (λ x. (ok x, s.vol)) link.1,
          there,
          re,
        )

    -- The end of a round that wrote `n` bytes, with what the rest of the loop does.
    round :
        (fuel rem n k o c : ℕ) (f : ℕ → ℕ) (s t : Session D U)
        → IsShare io fsi user o rem n
        → s.node.fv.fv_size < 2 ^ 32
        → k * unit fsi + o + rem ≤ s.node.fv.fv_size
        → Patched io fsi user given f (k * unit fsi + o) n s t
        → Taken io fsi user given (k * unit fsi + o) n s.uio t.uio
        → Follows io fsi s.node.vol k s.node.fv.fv_cluster c
        → ((e : ℕ)
            → k * unit fsi + o + n ≡ suc k * unit fsi + 0
            → Follows io fsi t.node.vol (suc k) t.node.fv.fv_cluster e
            → InRange fsi e
            → LoopWrote io fsi user given
                (patch f (k * unit fsi + o) n (given s.uio))
                (suc k * unit fsi + 0)
                (rem - n)
                t
                (write_loop io fsi user fuel (rem - n) (suc k) 0 e t))
        → LoopWrote io fsi user given f (k * unit fsi + o) rem s (
            if rem - n == 0
            then (ok (k, c), t)
            else follow
                (with_uio t.uio (on_volume t.node.fv (next_cluster io fsi c nc_alloc t.node.vol)))
                (write_loop io fsi user fuel (rem - n) (u32 (k + 1)) 0))
    round fuel rem n k o c f s t sh big below d taken there rest =
        let here = onward f _ n s t k c d there in
        let all : rem ≡ n + (rem - n) = omega (arith, sh.1) in
        elim (ℕ_discrete (rem - n) 0) [
          | yes last ↦
              let e : rem ≡ n = omega (arith, sh.1) in
              let whole = sized io fsi user given f (k * unit fsi + o) rem n s t e (d, taken) in
              rw (==_true last) (whole.0, whole.1, here)
          | no more ↦
              let full = sh.3 more in
              let begins : k * unit fsi + o + n ≡ suc k * unit fsi + 0 =
                omega (arith, next_row k) in
              let size = ap (λ v. v.fv_size) d.4 in
              let next = step _ k c t.node d.0 (omega (arith, sh.1, size)) here in
              let no_wrap : u32 (k + 1) ≡ suc k = omega (arith, row k) in
              rw (==_false more, next.1, no_wrap)
                (LoopWrote-then io fsi user given f (k * unit fsi + o) n (rem - n) rem
                  (suc k * unit fsi + 0) s t _ all begins d taken
                  (rest next.0 begins next.2 next.3))
        ]

    pub write_loop-LoopWrote :
        (fuel rem k o c : ℕ) (f : ℕ → ℕ) (s : Session D U)
        → IsFile io fsi s.node f
        → IsSimple io fsi s.node
        → s.node.fv.fv_size < 2 ^ 32
        → rem ≤ fuel
        → o < unit fsi
        → k * unit fsi + o + rem ≤ s.node.fv.fv_size
        → rem ≤ user.uio_resid s.uio
        → user.uio_offset s.uio ≡ pos (k * unit fsi + o)
        → Follows io fsi s.node.vol k s.node.fv.fv_cluster c
        → InRange fsi c
        → LoopWrote io fsi user given f
            (k * unit fsi + o)
            rem
            s
            (write_loop io fsi user fuel rem k o c s)
    unfolding write_loop
    write_loop-LoopWrote zero rem k o c f s file simple big enough lt below room at there rc =
        rw (==_true {a = rem} {b = 0} (omega arith))
          (nothing f _ k c rem s (omega arith) file at there)
    write_loop-LoopWrote (suc fuel) rem k o c f s file simple big enough lt below room at there rc =
        elim (ℕ_discrete rem 0) [
          | yes z ↦ rw (==_true z) (nothing f _ k c rem s z file at there)
          | no nz ↦
              rw (==_false nz, fine)
                (elim (ℕ_discrete moved.0 0) [
                  | no bad ↦ rw (==_false bad) (
                    (bad, (buf, o, n, s.uio, refl)),
                    (
                      0,
                      omega arith,
                      Patched-none io fsi user given f _ s (record s { uio = moved.1 }) refl file,
                    ),
                  )
                  | yes good ↦
                      let sh = bytes_to_copy-IsShare io fsi user o rem al lt (omega arith) in
                      let (d, taken) =
                        stored-Patched io fsi user given w al laws f k o c n s file simple rc lt
                          sh.2 (omega (arith, sh.1)) sh.0 (omega (arith, sh.1)) at there good in
                      let size = ap (λ v. v.fv_size) d.4 in
                      rw (==_true good) (
                        round fuel rem n k o c f s (stored io fsi user c moved.2 moved.1 s) sh big
                          below d taken there
                          λ e start ahead re.
                            write_loop-LoopWrote fuel (rem - n) (suc k) 0 e _ _ d.0
                              (IsSimple-Patched f _ n s (stored io fsi user c moved.2 moved.1 s) d
                                simple)
                              (omega (arith, size)) (omega (arith, sh.0))
                              (omega (arith, pow_pos fsi.cluster_shift))
                              (omega (arith, sh.1, size, start)) (omega (arith, sh.1, taken.1))
                              (taken.2 ∙ ap pos start) ahead re)
                ])
        ]
      where
        n : ℕ
        n = bytes_to_copy io fsi user o rem

        buf : Bytes
        buf = (read_cluster io fsi s.node.vol.disk c).bytes

        moved : ℕ × U × Bytes
        moved = user.from_user buf o n s.uio

        fine : (read_cluster io fsi s.node.vol.disk c).failed ≡ false
        fine = unfold read_cluster in w.healthy.fine s.node.vol.disk _ _
