-- ===== src/Rename/InPlace.antt =====
-- fat32_rename within a directory, over the entries of the old name.
use fat.Shared.{
  ℕ, ◌+◌, ◌-◌, ◌*◌, ◌%◌, ◌≤◌, ◌<◌, ◌≡◌, ◌≢◌, ◌⊎◌, inl, inr, refl, sym, ap, ◌∙◌, true, List, arith,
  lt→ltb, le→not_ltb, u32,
}
use native.Mathlib.Decide.{ℕ_discrete, dec_lt}
use fat.Device.{Buf, BlockIo}
use fat.Time.{Timespec}
use fat.Fat.{Info, Volume, ok}
use fat.Fat.Entry.{InRange}
use fat.Cluster.{read_cluster}
use fat.Cluster.View.{Works}
use fat.Cluster.Follow.{Follows}
use fat.Cluster.Blocks.{Kept, Kept-same, with_block, fat_entry-with_block, same_block, other_block}
use fat.Boot.Geometry.{IsAligned}
use fat.Vnode.{Vnode, Owner}
use fat.Vnode.Cache.{Open}
use fat.Dir.{skip_of}
use fat.Dir.Create.{slots_of, create_fdentry}
use fat.Dir.Laid.{byte}
use fat.Dir.Within.{Within, at-within}
use fat.Ops.{delete_fdentry_chain, pass_over}
use fat.Ops.Deleted.{marked, marked-miss, marked-hit, delete_fdentry_chain-marked}
use fat.Rename.{rename_flags, rename_in_place}

module _ {D : Type 0} (io : BlockIo D) (fsi : Info) (w : Works io fsi) where
  -- Between `v` and `v'` the entries from number `lo` up to `hi` behind the place were marked, and nothing
  -- else has changed.
  pub record Cleared (place c lo hi : ℕ) (v v' : Volume D) : Type 0 where
    pub kept : Kept io fsi v v'
    pub gone : (k : ℕ) → lo ≤ k → k < hi → byte io fsi v' c (place + k * 32) ≡ 0xe5
    pub elsewhere :
        (e y : ℕ)
        → InRange fsi e
        → y < fsi.sectors_per_cluster * 512
        → ((k : ℕ) → lo ≤ k → k < hi → (c ≢ e) ⊎ (y ≢ place + k * 32))
        → byte io fsi v' e y ≡ byte io fsi v e y

  Cleared-none : (place c lo : ℕ) (v : Volume D) → Cleared place c lo lo v v
  Cleared-none place c lo v = record {
    kept = Kept-same io fsi v v refl;
    gone = λ k hl hh. absurd (omega arith);
    elsewhere = λ e y re lt out. refl;
  }

  Cleared-marked :
      (place c lo n : ℕ) (v : Volume D)
      → InRange fsi c
      → place + (lo + n) * 32 ≤ fsi.sectors_per_cluster * 512
      → Cleared place c lo
          (lo + n)
          v
          (with_block io fsi c (marked n (place + lo * 32) (read_cluster io fsi v.disk c).bytes) v)
  Cleared-marked place c lo n v rc fits =
      let b = (read_cluster io fsi v.disk c).bytes in
      record {
        kept = (λ k e hk re. fat_entry-with_block io fsi w _ c k e v rc hk re, refl, refl);
        gone = λ k hl hh.
            let from : place + k * 32 ≡ place + lo * 32 + (k - lo) * 32 = omega arith in
            same_block io fsi w _ c (place + k * 32) v (omega arith)
            ∙ rw from (marked-hit n (place + lo * 32) (k - lo) b (omega arith));
        elsewhere = λ e y re lt out. elim (ℕ_discrete c e) [
          | no p ↦ ap (λ (buf : Buf). buf.bytes y) (other_block io fsi w _ c e v rc re p)
          | yes p ↦ rw (sym p) (
              same_block io fsi w _ c y v lt
              ∙ marked-miss n (place + lo * 32) y b (λ k h q.
                elim (out (lo + k) (omega arith) (omega arith)) [
                  | inl ne ↦ ne p
                  | inr ne ↦ ne (omega arith)
                ]))
        ];
      }

  module _ (al : IsAligned fsi) where
    cut_rest :
        (dir offset c new old : ℕ) (v : Volume D)
        → new < old
        → Within io fsi w al dir offset old c
        → Follows io fsi v (skip_of fsi offset) dir c
        → pass_over (delete_fdentry_chain io fsi dir (u32 (offset + new * 32)) (old - new) v) ≡ (
          ok tt,
          with_block io fsi c
              (marked
                (old - new)
                (offset % fsi.bytes_per_cluster + new * 32)
                (read_cluster io fsi v.disk c).bytes)
              v,
        )
    cut_rest dir offset c new old v lt within f =
        let (place, skip) = at-within io fsi w al dir offset old c new lt within in
        rw
          (delete_fdentry_chain-marked io fsi w dir (u32 (offset + new * 32)) c (old - new) v
            (rw skip f) (rw place (omega arith)))
          (rw place refl)

    module _ (owner : Owner) (now : Timespec) where
      pub in_place :
          (tnm : List ℕ) (fv n : Vnode) (s u : Open D) (c : ℕ)
          → create_fdentry io fsi (rename_flags true fv) owner now true tnm fv s ≡ (ok n, u)
          → slots_of tnm ≤ fv.fv_dirsz
          → InRange fsi c
          → Within io fsi w al s.fv.fv_cluster fv.fv_diroff fv.fv_dirsz c
          → Follows io fsi u.vol (skip_of fsi fv.fv_diroff) s.fv.fv_cluster c
          → (v' : Volume D) × (rename_in_place io fsi owner now tnm fv s
              ≡ (ok n, record { fv = u.fv; vol = v' }))
            × Cleared (fv.fv_diroff % fsi.bytes_per_cluster) c (slots_of tnm) fv.fv_dirsz u.vol v'
      unfolding rename_in_place
      in_place tnm fv n s u c made few rc within f = elim (dec_lt (slots_of tnm) fv.fv_dirsz) [
        | yes p ↦
            let all : slots_of tnm + (fv.fv_dirsz - slots_of tnm) ≡ fv.fv_dirsz = omega arith in
            let place = fv.fv_diroff % fsi.bytes_per_cluster in
            rw
              (
                made,
                lt→ltb (slots_of tnm) fv.fv_dirsz p,
                cut_rest s.fv.fv_cluster fv.fv_diroff c (slots_of tnm) fv.fv_dirsz u.vol p within f,
              )
              (
                _,
                refl,
                rw all at (
                    Cleared-marked place c (slots_of tnm) (fv.fv_dirsz - slots_of tnm) u.vol rc
                      (omega (arith, within.1, al.blocks))),
              )
        | no p ↦
            let same : fv.fv_dirsz ≡ slots_of tnm = omega arith in
            rw (made, le→not_ltb (slots_of tnm) fv.fv_dirsz (omega arith))
              (
                u.vol,
                refl,
                rw same
                    (Cleared-none (fv.fv_diroff % fsi.bytes_per_cluster) c (slots_of tnm) u.vol),
              )
      ]
