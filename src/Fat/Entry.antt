-- ===== src/Fat/Entry.antt =====
-- The table as a function of the cluster number, and fat32_rmw_cluster as a read and an update of it.
use fat.Shared.{
  ℕ, ◌+◌, ◌*◌, ◌/◌, ◌%◌, ◌^◌, ◌≤◌, ◌<◌, ◌≡◌, refl, sym, ap, ◌∙◌, ◌≢◌, ◌⊎◌, inl, inr, false, none,
  some, arith, if◌then◌else◌, u32, ◌==◌, ltb, ◌||◌, ◌>>>◌, bit_and,
}
use native.Mathlib.Decide.{ℕ_discrete, dec_lt}
use fat.Shared.Bits.{bit_and-mask}
use fat.Bytes.{rle32, wle32}
use fat.Bytes.Laws.{rle-wle, rle32-cong, rle32-wle32_other}
use fat.Device.{BlockIo, IsCache, IsHealthy}
use fat.Fat.{Info, Volume, ok, cluster_min, cluster_bad, rmw_cluster}
use fat.Fat.Copies.{poke_all, write_copies-ok, poke_all-other, poke_all-same}

-- A layout that the driver's arithmetic fits: 512-byte sectors, cluster numbers below the marks for
-- bad clusters and ends of chains, and a table that holds an entry for each of them.
pub record IsGeometry (fsi : Info) : Type 0 where
  pub shift : fsi.sector_shift ≡ 9
  pub mask : fsi.sector_mask ≡ 511
  pub clusters : fsi.cluster_count + 1 < cluster_bad
  pub fits : (fsi.cluster_count + 2) * 4 ≤ fsi.fat_size * 512
  pub copies : 1 ≤ fsi.num_fats
  pub bound : fsi.fat_start + fsi.fat_size + fsi.num_fats * fsi.fat_size < 2 ^ 32
  pub info_before : fsi.fsinfo_sector < fsi.fat_start
  pub data_after : fsi.data_start ≡ fsi.fat_start + fsi.num_fats * fsi.fat_size
  pub cluster_blocks : fsi.sectors_per_cluster ≡ 2 ^ fsi.spc_shift
  pub data_bound : fsi.data_start + (fsi.cluster_count + 1) * fsi.sectors_per_cluster < 2 ^ 32

abbrev pub InRange : Info → ℕ → Type 0
InRange fsi c = (2 ≤ c) × (c ≤ fsi.cluster_count + 1)

-- Entry `c` of copy `k`, the upper four bits left out.
unfoldable pub fat_entry : {D : Type 0} → BlockIo D → Info → D → ℕ → ℕ → ℕ
fat_entry io fsi d k c =
    rle32 (io.bread d (fsi.fat_start + c * 4 / 512 + k * fsi.fat_size) 1).bytes (c * 4 % 512)
    % 2 ^ 28

-- The device after entry `c` was set in all copies.
pub write_fat : {D : Type 0} → BlockIo D → Info → ℕ → ℕ → D → D
write_fat io fsi new c d =
    poke_all io fsi new (c * 4 % 512) fsi.num_fats (fsi.fat_start + c * 4 / 512) d

rows : (j k f : ℕ) → j < k → j * f + f ≤ k * f
rows j k f h = grind arith

-- Sectors at different places of two copies differ.
copies_apart :
    (f q p j k : ℕ)
    → q < f
    → p < f
    → q ≢ p
    → (p + k * f + 1 ≤ q + j * f) ⊎ (q + j * f + 1 ≤ p + k * f)
copies_apart f q p j k hq hp ne = elim (dec_lt j k) [
  | yes h ↦ inr (omega (arith, rows j k f h))
  | no h ↦ elim (dec_lt k j) [
    | yes g ↦ inl (omega (arith, rows k j f g))
    | no g ↦
        let level : j * f ≡ k * f = ap (λ x. x * f) (let e : j ≡ k = omega arith in e) in
        omega arith
  ]
]

module _ {D : Type 0} (io : BlockIo D) (fsi : Info) (geo : IsGeometry fsi) where
  in_range :
      (c : ℕ) → InRange fsi c → (ltb c cluster_min || ltb (u32 (fsi.cluster_count + 1)) c) ≡ false
  in_range c r = ground (arith, geo.clusters)

  sector_of :
      (c : ℕ)
      → InRange fsi c
      → u32 (fsi.fat_start + (u32 (c * 4) >>> fsi.sector_shift)) ≡ fsi.fat_start + c * 4 / 512
  sector_of c r = rw geo.shift (omega (arith, geo.clusters, geo.fits, geo.bound))

  offset_of : (c : ℕ) → InRange fsi c → bit_and (u32 (c * 4)) fsi.sector_mask ≡ c * 4 % 512
  offset_of c r = rw geo.mask (bit_and-mask 9 (u32 (c * 4)) ∙ omega (arith, geo.clusters))

  module _ (healthy : IsHealthy io) where
    pub rmw-read :
        (c : ℕ) (v : Volume D)
        → InRange fsi c
        → rmw_cluster io fsi c none v ≡ (ok (fat_entry io fsi v.disk 0 c), v)
    unfolding rmw_cluster fat_entry
    rmw-read c v r =
        rw (in_range c r, sector_of c r, offset_of c r, healthy.fine v.disk _ 1, zeroth)
      where
        zeroth : fsi.fat_start + c * 4 / 512 + 0 * fsi.fat_size ≡ fsi.fat_start + c * 4 / 512
        zeroth = omega arith

    pub rmw-write :
        (c new : ℕ) (v : Volume D)
        → InRange fsi c
        → rmw_cluster io fsi c (some new) v
          ≡ (ok (fat_entry io fsi v.disk 0 c), record v { disk = write_fat io fsi new c v.disk })
    unfolding rmw_cluster fat_entry write_fat
    rmw-write c new v r = rw (
      in_range c r,
      sector_of c r,
      offset_of c r,
      write_copies-ok io fsi new (c * 4 % 512) healthy fsi.num_fats (fsi.fat_start + c * 4 / 512)
          (some (io.bread v.disk (fsi.fat_start + c * 4 / 512) 1)) v (inr refl)
          (omega (arith, geo.clusters, geo.fits, geo.bound)),
      healthy.fine v.disk _ 1,
      zeroth,
    )
      where
        zeroth : fsi.fat_start + c * 4 / 512 + 0 * fsi.fat_size ≡ fsi.fat_start + c * 4 / 512
        zeroth = omega arith

  module _ (cache : IsCache io) where
    same_sector :
        (c new k o : ℕ) (d : D)
        → InRange fsi c
        → k < fsi.num_fats
        → o + 3 < 512
        → rle32
            (io.bread
              (write_fat io fsi new c d)
              (fsi.fat_start + c * 4 / 512 + k * fsi.fat_size)
              1).bytes
            o
          ≡ rle32
              (wle32 new
                (io.bread d (fsi.fat_start + c * 4 / 512 + k * fsi.fat_size) 1).bytes
                (c * 4 % 512))
              o
    unfolding write_fat
    same_sector c new k o d rc hk ho =
        rle32-cong _ _ o (at o (omega arith)) (at (o + 1) (omega arith)) (at (o + 2) (omega arith))
          (at (o + 3) (omega arith))
      where
        at :
            (i : ℕ)
            → i < 512
            → (io.bread
                  (write_fat io fsi new c d)
                  (fsi.fat_start + c * 4 / 512 + k * fsi.fat_size)
                  1).bytes
                i
              ≡ wle32 new
                  (io.bread d (fsi.fat_start + c * 4 / 512 + k * fsi.fat_size) 1).bytes
                  (c * 4 % 512)
                  i
        at i hi =
            poke_all-same io fsi new (c * 4 % 512) cache fsi.num_fats (fsi.fat_start + c * 4 / 512)
              d k i hk (omega (arith, geo.fits)) hi

    other_sector :
        (c new k e : ℕ) (d : D)
        → InRange fsi c
        → InRange fsi e
        → c * 4 / 512 ≢ e * 4 / 512
        → io.bread (write_fat io fsi new c d) (fsi.fat_start + e * 4 / 512 + k * fsi.fat_size) 1
          ≡ io.bread d (fsi.fat_start + e * 4 / 512 + k * fsi.fat_size) 1
    unfolding write_fat
    other_sector c new k e d rc re ne =
        poke_all-other io fsi new (c * 4 % 512) cache fsi.num_fats (fsi.fat_start + c * 4 / 512) d _
          1
          λ j _. omega (
            arith,
            copies_apart fsi.fat_size (c * 4 / 512) (e * 4 / 512) j k (omega (arith, geo.fits))
                (omega (arith, geo.fits)) ne,
          )

    -- A written entry is read back from every copy, and no other entry changes in any of them.
    pub write_fat-entry :
        (c new k e : ℕ) (d : D)
        → InRange fsi c
        → InRange fsi e
        → k < fsi.num_fats
        → fat_entry io fsi (write_fat io fsi new c d) k e
          ≡ (if e == c then new % 2 ^ 28 else fat_entry io fsi d k e)
    unfolding fat_entry
    write_fat-entry c new k e d rc re hk = elim (ℕ_discrete (c * 4 / 512) (e * 4 / 512)) [
      | yes p ↦ elim (ℕ_discrete e c) [
        | yes q ↦
            rw (q, same_sector c new k (c * 4 % 512) d rc hk (omega arith), (rle-wle _ _ 0 new).1)
              (ground arith)
        | no q ↦ rw (
          not_eq q,
          ← p,
          same_sector c new k (e * 4 % 512) d rc hk (omega arith),
          rle32-wle32_other _ (c * 4 % 512) new (e * 4 % 512) (omega arith),
        )
      ]
      | no p ↦
          rw (not_eq (λ q. p (ap (λ x. x * 4 / 512) (sym q))), other_sector c new k e d rc re p)
    ]
      where
        not_eq : e ≢ c → (e == c) ≡ false
        not_eq q = ground arith
