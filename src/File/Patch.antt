-- ===== src/File/Patch.antt =====
-- Writing inside a file replaces just the bytes that are written.
use fat.Shared.{
  ℕ, ◌+◌, ◌-◌, ◌*◌, ◌≤◌, ◌<◌, ◌≡◌, sym, ap, ◌∙◌, ◌≢◌, arith, pos, ltb, leb, ◌&&◌, if◌then◌else◌,
}
use native.Mathlib.Decide.{ℕ_discrete, dec_lt}
use fat.Bytes.{Bytes}
use fat.Device.{BlockIo}
use fat.Fat.{Info}
use fat.Fat.Entry.{InRange}
use fat.Cluster.{read_cluster}
use fat.Cluster.View.{Works, table, last_entry}
use fat.Cluster.Follow.{Follows}
use fat.Cluster.Blocks.{
  with_block, Follows-same, Follows-unique, fat_entry-with_block, same_block, other_block,
}
use fat.Vnode.Cache.{Open}
use fat.Boot.Geometry.{IsAligned}
use fat.File.{UserIo}
use fat.File.Content.{unit, IsFile}

-- `f` with `n` values from `p` on replaced by those of `g`.
abbrev pub patch : (ℕ → ℕ) → ℕ → ℕ → (ℕ → ℕ) → ℕ → ℕ
patch f p n g i = if leb p i && ltb i (p + n) then g (i - p) else f i

-- What uiomove promises of the other direction: without an error, the n bytes of the buffer are those
-- that the user gives next, no other byte of it changes, and the request advances by n. `given` are
-- the bytes that the user still has to give.
pub record IsUserGift {U : Type 0} (user : UserIo U) (given : U → ℕ → ℕ) : Type 0 where
  pub resid :
      (b : Bytes) (p n : ℕ) (u : U)
      → n ≤ user.uio_resid u
      → (user.from_user b p n u).0 ≡ 0
      → user.uio_resid (user.from_user b p n u).1 + n ≡ user.uio_resid u
  pub offset :
      (b : Bytes) (p n : ℕ) (u : U) (m : ℕ)
      → n ≤ user.uio_resid u
      → (user.from_user b p n u).0 ≡ 0
      → user.uio_offset u ≡ pos m
      → user.uio_offset (user.from_user b p n u).1 ≡ pos (m + n)
  pub bytes :
      (b : Bytes) (p n : ℕ) (u : U) (i : ℕ)
      → n ≤ user.uio_resid u
      → (user.from_user b p n u).0 ≡ 0
      → (user.from_user b p n u).2 i ≡ patch b p n (given u) i
  pub later :
      (b : Bytes) (p n : ℕ) (u : U) (i : ℕ)
      → n ≤ user.uio_resid u
      → (user.from_user b p n u).0 ≡ 0
      → given (user.from_user b p n u).1 i ≡ given u (n + i)

pub patch-patch :
    (f g h : ℕ → ℕ) (p m n i : ℕ)
    → ((j : ℕ) → h j ≡ g (m + j))
    → patch (patch f p m g) (p + m) n h i ≡ patch f p (m + n) g i
patch-patch f g h p m n i e = elim (dec_lt i (p + m)) [
  | yes lo ↦ ground arith
  | no hi ↦
      let place : m + (i - (p + m)) ≡ i - p = omega arith in
      ground (arith, e (i - (p + m)), ap g place)
]

in_row :
    (b f g : ℕ → ℕ) (r o n q : ℕ) → b q ≡ f (r + q) → patch b o n g q ≡ patch f (r + o) n g (r + q)
in_row b f g r o n q e =
    let place : r + q - (r + o) ≡ q - o = omega arith in ground (arith, ap g place)

off_row :
    (f g : ℕ → ℕ) (j k m o n q : ℕ)
    → j ≢ k
    → q < m
    → o + n ≤ m
    → patch f (k * m + o) n g (j * m + q) ≡ f (j * m + q)
off_row f g j k m o n q ne lt inside = elim (dec_lt j k) [
  | yes before ↦ ground (arith, last_entry j k m before)
  | no behind ↦ ground (arith, last_entry k j m (omega arith))
]

module _ {D : Type 0} (io : BlockIo D) (fsi : Info) where
  pub IsFile-ext :
      (s : Open D) (f g : ℕ → ℕ) → ((i : ℕ) → f i ≡ g i) → IsFile io fsi s f → IsFile io fsi s g
  IsFile-ext s f g same file = record {
    reach = file.reach;
    holds = λ k o c lt h at. file.holds k o c lt h at ∙ same (k * unit fsi + o);
  }

  -- No cluster stands at two places of the file.
  abbrev pub IsSimple : Open D → Type 0
  IsSimple s =
      (j k c : ℕ)
      → j * unit fsi < s.fv.fv_size
      → k * unit fsi < s.fv.fv_size
      → Follows io fsi s.vol j s.fv.fv_cluster c
      → Follows io fsi s.vol k s.fv.fv_cluster c
      → j ≡ k

  module _ (w : Works io fsi) (al : IsAligned fsi) where
    block_size : fsi.sectors_per_cluster * 512 ≡ unit fsi
    block_size = sym al.blocks ∙ al.size

    -- The blocks of one cluster of a file are written.
    pub IsFile-with_block :
        (s : Open D) (f g : ℕ → ℕ) (k c o n : ℕ) (b : Bytes)
        → IsFile io fsi s f
        → IsSimple s
        → InRange fsi c
        → k * unit fsi < s.fv.fv_size
        → o + n ≤ unit fsi
        → Follows io fsi s.vol k s.fv.fv_cluster c
        → ((i : ℕ) → b i ≡ patch (read_cluster io fsi s.vol.disk c).bytes o n g i)
        → IsFile io fsi
            (record s { vol = with_block io fsi c b s.vol })
            (patch f (k * unit fsi + o) n g)
    IsFile-with_block s f g k c o n b file simple rc below inside at buf = record {
      reach = λ j h.
          let (e, there, re) = file.reach j h in
          (
            e,
            Follows-same io fsi s.vol (with_block io fsi c b s.vol) j s.fv.fv_cluster e table_same
                there,
            re,
          );
      holds = λ j q e lt h there.
          let old =
            Follows-same io fsi (with_block io fsi c b s.vol) s.vol j s.fv.fv_cluster e
              (λ x rx. sym (table_same x rx)) there in
          let (e', there', re) = file.reach j (omega arith) in
          let same = Follows-unique io fsi s.vol j s.fv.fv_cluster e' e there' old in
          elim (ℕ_discrete c e) [
            | yes p ↦
                let jk = simple j k c (omega arith) below (rw p old) at in
                rw (← p) (
                  same_block io fsi w b c q s.vol (rw block_size lt)
                  ∙ buf q
                  ∙ in_row (read_cluster io fsi s.vol.disk c).bytes f g (k * unit fsi) o n q
                      (file.holds k q c lt (rw (← jk) h) at)
                  ∙ ap (λ x. patch f (k * unit fsi + o) n g (x * unit fsi + q)) (sym jk))
            | no p ↦ rw (other_block io fsi w b c e s.vol rc (rw (← same) re) p) (
                file.holds j q e lt h old
                ∙ sym (
                    off_row f g j k (unit fsi) o n q
                      (λ jk.
                        p (Follows-unique io fsi s.vol k s.fv.fv_cluster c e at (rw (← jk) old)))
                      lt inside))
          ];
    }
      where
        table_same :
            (e : ℕ)
            → InRange fsi e
            → table io fsi (with_block io fsi c b s.vol) e ≡ table io fsi s.vol e
        table_same e re = fat_entry-with_block io fsi w b c 0 e s.vol rc w.geo.copies re
