-- ===== src/Cluster/View.antt =====
-- The table as the cluster functions see it, on a device that works.
use fat.Shared.{
  ℕ, zero, suc, ◌+◌, ◌-◌, ◌*◌, ◌/◌, ◌%◌, ◌^◌, ◌≤◌, ◌<◌, ◌≡◌, refl, ◌∙◌, ◌⊎◌, inr, false, none, some,
  arith, if◌then◌else◌, u32, sub32, ◌==◌,
}
use fat.Bytes.{Bytes, rle32}
use fat.Bytes.Laws.{rle32-cong}
use fat.Device.{BlockIo, IsCache, IsHealthy}
use fat.Fat.{Info, Volume, ok, cluster_min, rmw_cluster}
use fat.Fat.Entry.{IsGeometry, InRange, fat_entry, write_fat, write_fat-entry, rmw-read, rmw-write}
use fat.Cluster.{out_of_range, clear_blocks, cluster_to_sector}

pub record Works {D : Type 0} (io : BlockIo D) (fsi : Info) : Type 0 where
  pub geo : IsGeometry fsi
  pub healthy : IsHealthy io
  pub cache : IsCache io

pub in_range : (fsi : Info) (c : ℕ) → IsGeometry fsi → InRange fsi c → out_of_range fsi c ≡ false
in_range fsi c geo r = ground (arith, geo.clusters)

pub not_out : (fsi : Info) (c : ℕ) → IsGeometry fsi → out_of_range fsi c ≡ false → InRange fsi c
not_out fsi c geo r = ground (arith, geo.clusters)

mul_mono : (a b m : ℕ) → a ≤ b → a * m ≤ b * m
mul_mono a b m h = grind arith

-- A row of a table ends before the next begins.
pub last_entry : (k n f : ℕ) → k < n → k * f + f ≤ n * f
last_entry k n f h = grind arith

module _ {D : Type 0} (io : BlockIo D) (fsi : Info) where
  -- Entry `c` as the driver reads it: that of the first copy.
  abbrev pub table : Volume D → ℕ → ℕ
  table v c = fat_entry io fsi v.disk 0 c

  pub fat_entry-lt : (d : D) (k c : ℕ) → fat_entry io fsi d k c < 2 ^ 28
  unfolding fat_entry
  fat_entry-lt d k c = omega arith

  module _ (w : Works io fsi) where
    pub read :
        (c : ℕ) (v : Volume D) → InRange fsi c → rmw_cluster io fsi c none v ≡ (ok (table v c), v)
    read c v r = rmw-read io fsi w.geo w.healthy c v r

    -- The volume after entry `c` was set to `new`.
    abbrev pub with_entry : ℕ → ℕ → Volume D → Volume D
    with_entry c new v = record v { disk = write_fat io fsi new c v.disk }

    pub write :
        (c new : ℕ) (v : Volume D)
        → InRange fsi c
        → rmw_cluster io fsi c (some new) v ≡ (ok (table v c), with_entry c new v)
    write c new v r = rmw-write io fsi w.geo w.healthy c new v r

    pub table-with_entry :
        (c new e : ℕ) (v : Volume D)
        → InRange fsi c
        → InRange fsi e
        → table (with_entry c new v) e ≡ (if e == c then new % 2 ^ 28 else table v e)
    table-with_entry c new e v rc re =
        write_fat-entry io fsi w.geo w.cache c new 0 e v.disk rc re w.geo.copies

    -- A field of a sector that was written.
    pub rle32-bdwrite :
        (d : D) (s : ℕ) (b : Bytes) (o : ℕ)
        → o + 3 < 512
        → rle32 (io.bread (io.bdwrite d s 1 b) s 1).bytes o ≡ rle32 b o
    rle32-bdwrite d s b o h =
        rle32-cong _ _ o (w.cache.same d s 1 b o (omega arith))
          (w.cache.same d s 1 b (o + 1) (omega arith)) (w.cache.same d s 1 b (o + 2) (omega arith))
          (w.cache.same d s 1 b (o + 3) (omega arith))

    -- A write before or behind the copies leaves every entry alone.
    pub fat_entry-bdwrite :
        (d : D) (s n : ℕ) (b : Bytes) (k c : ℕ)
        → InRange fsi c
        → k < fsi.num_fats
        → (s + n ≤ fsi.fat_start) ⊎ (fsi.data_start ≤ s)
        → fat_entry io fsi (io.bdwrite d s n b) k c ≡ fat_entry io fsi d k c
    unfolding fat_entry
    fat_entry-bdwrite d s n b k c r hk h = rw (w.cache.other d s n b _ 1 apart)
      where
        apart :
            (fsi.fat_start + c * 4 / 512 + k * fsi.fat_size + 1 ≤ s)
            ⊎ (s + n ≤ fsi.fat_start + c * 4 / 512 + k * fsi.fat_size)
        apart =
            omega (arith, w.geo.fits, w.geo.data_after, last_entry k fsi.num_fats fsi.fat_size hk)

    pub fat_entry-clear_blocks :
        (left s : ℕ) (d : D) (k c : ℕ)
        → InRange fsi c
        → k < fsi.num_fats
        → fsi.data_start ≤ s
        → s + left < 2 ^ 32
        → fat_entry io fsi (clear_blocks io fsi left s d) k c ≡ fat_entry io fsi d k c
    unfolding clear_blocks
    fat_entry-clear_blocks zero s d k c r hk h b = refl
    fat_entry-clear_blocks (suc left) s d k c r hk h b =
        fat_entry-clear_blocks left (u32 (s + 1)) (io.bdwrite d s 1 (λ _. 0)) k c r hk (omega arith)
          (omega arith)
        ∙ fat_entry-bdwrite d s 1 (λ _. 0) k c r hk (inr h)

    -- The place of a cluster, with no wrap-around.
    pub cluster_to_sector_lem :
        (c : ℕ)
        → InRange fsi c
        → cluster_to_sector fsi c ≡ fsi.data_start + (c - 2) * fsi.sectors_per_cluster
    unfolding cluster_to_sector
    cluster_to_sector_lem c r =
        rw (less, ← w.geo.cluster_blocks, no_wrap) (omega (arith, fewer, w.geo.data_bound))
      where
        less : sub32 c cluster_min ≡ c - 2
        less = omega (arith, w.geo.clusters)

        fewer :
            (c - 2) * fsi.sectors_per_cluster ≤ (fsi.cluster_count + 1) * fsi.sectors_per_cluster
        fewer = mul_mono (c - 2) (fsi.cluster_count + 1) fsi.sectors_per_cluster (omega arith)

        no_wrap : u32 ((c - 2) * fsi.sectors_per_cluster) ≡ (c - 2) * fsi.sectors_per_cluster
        no_wrap = omega (arith, fewer, w.geo.data_bound)

    -- On a volume whose layout is sound and a device without read errors (`Works`): setting the
    -- entry of a cluster returns its old value; afterwards every copy of the table holds the lower
    -- 28 bits of the new value in it, and what it held before in all other entries.
    pub rmw_cluster-update :
        (c new : ℕ) (v : Volume D)
        → InRange fsi c
        → (v' : Volume D) × (rmw_cluster io fsi c (some new) v ≡ (ok (table v c), v'))
          × ((k e : ℕ)
              → k < fsi.num_fats
              → InRange fsi e
              → fat_entry io fsi v'.disk k e
                ≡ (if e == c then new % 2 ^ 28 else fat_entry io fsi v.disk k e))
    rmw_cluster-update c new v r = (
      with_entry c new v,
      write c new v r,
      λ k e hk re. write_fat-entry io fsi w.geo w.cache c new k e v.disk r re hk,
    )
