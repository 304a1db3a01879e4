-- ===== src/Cluster/Ends.antt =====
-- fat32_free_clusters ends on every table, also where a chain runs in a circle.
use native.Mathlib.Decide.{ℕ_discrete}
use fat.Shared.{
  ℕ, zero, suc, ◌+◌, ◌<◌, ◌≡◌, refl, ◌≢◌, arith, ◌==◌, ◌||◌, ◌&&◌, true, false, u32, Bool,
  Bool-cases, leb, ltb, some, inl, inr,
}
use fat.Device.{BlockIo}
use fat.Fat.{
  Info, Volume, Ret, ok, err, stuck, and_then, einval, cluster_min, cluster_free, cluster_eoc,
  cluster_eoc_min, rmw_cluster,
}
use fat.Fat.Entry.{InRange}
use fat.Cluster.{unknown, free_walk, note_freed, free_clusters, free_fuel, out_of_range}
use fat.Cluster.Count.{used, used-le, used-clear}
use fat.Cluster.View.{Works, table, write, with_entry, table-with_entry, not_out}

-- A call returned: with success, or with EINVAL for an entry that is no cluster.
abbrev pub Returned : {D A : Type 0} → Ret A × Volume D → Type 0
Returned (ok a, v) = Unit
Returned (err e, v) = e ≡ einval
Returned (stuck, v) = ⊥

module _ {D : Type 0} (io : BlockIo D) (fsi : Info) (w : Works io fsi) where
  write_out :
      (c new : ℕ) (v : Volume D)
      → out_of_range fsi c ≡ true
      → rmw_cluster io fsi c (some new) v ≡ (err einval, v)
  unfolding rmw_cluster
  write_out c new v h = rw h

  stops :
      (fuel c freed : ℕ) (v : Volume D)
      → (leb cluster_min c && ltb c cluster_eoc_min) ≡ false
      → 0 < fuel
      → free_walk io fsi fuel c freed v ≡ (ok freed, v)
  unfolding free_walk
  stops zero c freed v h f = absurd (omega arith)
  stops (suc fuel) c freed v h f = rw h

  walk_on :
      (fuel c freed : ℕ) (v : Volume D)
      → (leb cluster_min c && ltb c cluster_eoc_min) ≡ true
      → InRange fsi c
      → free_walk io fsi (suc fuel) c freed v
        ≡ free_walk io fsi fuel
            (table io fsi v c)
            (u32 (freed + 1))
            (with_entry io fsi w c cluster_free v)
  unfolding free_walk
  walk_on fuel c freed v h r = rw (h, write io fsi w c cluster_free v r)

  walk_out :
      (fuel c freed : ℕ) (v : Volume D)
      → (leb cluster_min c && ltb c cluster_eoc_min) ≡ true
      → out_of_range fsi c ≡ true
      → free_walk io fsi (suc fuel) c freed v ≡ (err einval, v)
  unfolding free_walk
  walk_out fuel c freed v h out = rw (h, write_out c cluster_free v out)

  fewer :
      (c : ℕ) (v : Volume D)
      → InRange fsi c
      → table io fsi v c ≢ 0
      → used fsi.cluster_count (table io fsi v)
        ≡ suc (used fsi.cluster_count (table io fsi (with_entry io fsi w c cluster_free v)))
  fewer c v r ne =
      used-clear fsi.cluster_count c _ _ r.0 r.1 ne
        (ground (arith, table-with_entry io fsi w c cluster_free c v r r))
        (λ e lo hi ne'. ground (arith, table-with_entry io fsi w c cluster_free e v r (lo, hi)))

  free_walk-Returned :
      (fuel c freed : ℕ) (v : Volume D)
      → used fsi.cluster_count (table io fsi v) + 1 < fuel
      → Returned (free_walk io fsi fuel c freed v)
  free_walk-Returned zero c freed v h = absurd (omega arith)
  free_walk-Returned (suc fuel) c freed v h =
      elim (Bool-cases (leb cluster_min c && ltb c cluster_eoc_min)) [
        | inr done ↦ rw (stops (suc fuel) c freed v done (omega arith)) tt
        | inl more ↦ elim (Bool-cases (out_of_range fsi c)) [
          | inl bad ↦ rw (walk_out fuel c freed v more bad) refl
          | inr fine ↦
              let r = not_out fsi c w.geo fine in
              rw (walk_on fuel c freed v more r) (elim (ℕ_discrete (table io fsi v c) 0) [
                | yes z ↦
                    rw
                      (
                        z,
                        stops fuel 0 (u32 (freed + 1)) (with_entry io fsi w c cluster_free v) refl
                            (omega arith),
                      )
                      tt
                | no ne ↦
                    free_walk-Returned fuel (table io fsi v c) (u32 (freed + 1))
                      (with_entry io fsi w c cluster_free v) (omega (arith, fewer c v r ne))
              ])
        ]
      ]

  then_counted :
      (r : Ret ℕ × Volume D)
      → Returned r
      → Returned (and_then {D = D} r (λ freed. note_freed io fsi freed))
  unfolding note_freed
  then_counted (ok n, v) h =
      rw (w.healthy.fine v.disk fsi.fsinfo_sector 1)
        (elim (Bool-cases (n == 0 || false || v.free_count == unknown)) [
          | inl t ↦ rw t tt
          | inr t ↦ rw t tt
        ])
  then_counted (err e, v) h = h
  then_counted (stuck, v) h = h

  enough : (v : Volume D) → used fsi.cluster_count (table io fsi v) + 1 < free_fuel io fsi
  enough v = omega (arith, used-le fsi.cluster_count (table io fsi v))

  -- On a volume whose layout is sound and a device without read errors (`Works`): whatever the
  -- table holds, freeing from any cluster number, with or without the first cluster, ends, with
  -- success or with EINVAL.
  pub free_clusters-Returned :
      (c : ℕ) (free_start : Bool) (v : Volume D) → Returned (free_clusters io fsi c free_start v)
  unfolding free_clusters
  free_clusters-Returned c true v = elim (Bool-cases (out_of_range fsi c)) [
    | inl bad ↦ rw bad refl
    | inr fine ↦ rw fine (
        then_counted (free_walk io fsi (free_fuel io fsi) c 0 v)
          (free_walk-Returned (free_fuel io fsi) c 0 v (enough v)))
  ]
  free_clusters-Returned c false v = elim (Bool-cases (out_of_range fsi c)) [
    | inl bad ↦ rw bad refl
    | inr fine ↦
        rw (fine, write io fsi w c cluster_eoc v (not_out fsi c w.geo fine))
          (elim (Bool-cases (leb cluster_eoc_min (table io fsi v c))) [
            | inl last ↦ rw last tt
            | inr more ↦ rw more (
                then_counted _ (
                  free_walk-Returned (free_fuel io fsi) (table io fsi v c) 0
                    (with_entry io fsi w c cluster_eoc v)
                    (enough (with_entry io fsi w c cluster_eoc v))))
          ])
  ]
