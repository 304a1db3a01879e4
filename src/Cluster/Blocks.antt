-- ===== src/Cluster/Blocks.antt =====
-- The clusters' own blocks: writing one leaves the other clusters and the table as they are.
use fat.Shared.{
  ℕ, zero, suc, ◌+◌, ◌-◌, ◌*◌, ◌≤◌, ◌<◌, ◌≡◌, ◌≢◌, ◌⊎◌, inl, inr, ◌∙◌, refl, sym, arith,
}
use native.Mathlib.Decide.{dec_lt}
use fat.Bytes.{Bytes}
use fat.Device.{BlockIo}
use fat.Fat.{Info, Volume}
use fat.Fat.Entry.{InRange, fat_entry}
use fat.Cluster.{cluster_to_sector, read_cluster}
use fat.Cluster.View.{Works, table, fat_entry-bdwrite, cluster_to_sector_lem, last_entry}
use fat.Cluster.Follow.{Follows}

module _ {D : Type 0} (io : BlockIo D) (fsi : Info) where
  -- The volume after the blocks of cluster `c` were written.
  abbrev pub with_block : ℕ → Bytes → Volume D → Volume D
  with_block c b v = record v {
    disk = io.bdwrite v.disk (cluster_to_sector fsi c) fsi.sectors_per_cluster b;
  }

  pub Follows-same :
      (v v' : Volume D) (n a b : ℕ)
      → ((e : ℕ) → InRange fsi e → table io fsi v' e ≡ table io fsi v e)
      → Follows io fsi v n a b
      → Follows io fsi v' n a b
  Follows-same v v' zero a b same f = f
  Follows-same v v' (suc n) a b same ((r, s), f) =
      rw (same a r) ((r, s), Follows-same v v' n (table io fsi v a) b same f)

  pub Follows-unique :
      (v : Volume D) (k a c e : ℕ) → Follows io fsi v k a c → Follows io fsi v k a e → c ≡ e
  Follows-unique v zero a c e p q = sym p ∙ q
  Follows-unique v (suc k) a c e (_, p) (_, q) = Follows-unique v k (table io fsi v a) c e p q

  -- The table and the counts are as before; the data of clusters may have changed.
  abbrev pub Kept : Volume D → Volume D → Type 0
  Kept v v' =
      ((k e : ℕ)
        → k < fsi.num_fats
        → InRange fsi e
        → fat_entry io fsi v'.disk k e ≡ fat_entry io fsi v.disk k e)
      × (v'.free_count ≡ v.free_count)
      × (v'.next_free ≡ v.next_free)

  pub Kept-same : (v v' : Volume D) → v' ≡ v → Kept v v'
  Kept-same v v' h = rw h ((λ k e hk re. refl), refl, refl)

  pub Kept-trans : (u v w : Volume D) → Kept u v → Kept v w → Kept u w
  Kept-trans u v w (a, b, c) (a', b', c') =
      ((λ k e hk re. a' k e hk re ∙ a k e hk re), b' ∙ b, c' ∙ c)

  module _ (w : Works io fsi) where
    pub fat_entry-with_block :
        (b : Bytes) (c k e : ℕ) (v : Volume D)
        → InRange fsi c
        → k < fsi.num_fats
        → InRange fsi e
        → fat_entry io fsi (with_block c b v).disk k e ≡ fat_entry io fsi v.disk k e
    fat_entry-with_block b c k e v rc hk re =
        fat_entry-bdwrite io fsi w v.disk (cluster_to_sector fsi c) fsi.sectors_per_cluster b k e re
          hk (inr (rw (cluster_to_sector_lem io fsi w c rc) (omega arith)))

    pub same_block :
        (b : Bytes) (c i : ℕ) (v : Volume D)
        → i < fsi.sectors_per_cluster * 512
        → (read_cluster io fsi (with_block c b v).disk c).bytes i ≡ b i
    unfolding read_cluster
    same_block b c i v lt =
        w.cache.same v.disk (cluster_to_sector fsi c) fsi.sectors_per_cluster b i lt

    pub other_block :
        (b : Bytes) (c e : ℕ) (v : Volume D)
        → InRange fsi c
        → InRange fsi e
        → c ≢ e
        → read_cluster io fsi (with_block c b v).disk e ≡ read_cluster io fsi v.disk e
    unfolding read_cluster
    other_block b c e v rc re ne =
        w.cache.other v.disk (cluster_to_sector fsi c) fsi.sectors_per_cluster b
          (cluster_to_sector fsi e) fsi.sectors_per_cluster apart
      where
        apart :
            (cluster_to_sector fsi e + fsi.sectors_per_cluster ≤ cluster_to_sector fsi c)
            ⊎ (cluster_to_sector fsi c + fsi.sectors_per_cluster ≤ cluster_to_sector fsi e)
        apart =
            rw (cluster_to_sector_lem io fsi w c rc, cluster_to_sector_lem io fsi w e re)
              (elim (dec_lt c e) [
                | yes lt ↦ inr (
                    omega (arith, last_entry (c - 2) (e - 2) fsi.sectors_per_cluster (omega arith)))
                | no ge ↦ inl (
                    omega (arith, last_entry (e - 2) (c - 2) fsi.sectors_per_cluster (omega arith)))
              ])
