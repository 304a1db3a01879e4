-- ===== src/Dir/Within.antt =====
-- Entries one behind the other in one cluster of a directory.
use fat.Shared.{
  ℕ, zero, suc, ◌+◌, ◌-◌, ◌*◌, ◌/◌, ◌%◌, ◌^◌, ◌≤◌, ◌<◌, ◌≡◌, ◌≢◌, ◌⊎◌, inl, inr, refl, ◌∙◌, List,
  arith, u32, lt→ltb, le→not_ltb,
}
use native.Mathlib.Decide.{dec_lt}
use native.Mathlib.Nat.{
  mod-add-div, div-eq_of_lt, mod-eq_of_lt, add-mul-div_left, add-mul-mod_self_left,
}
use fat.Shared.Bits.{pow_pos, bit_and-mask}
use fat.Bytes.{Bytes}
use fat.Device.{BlockIo}
use fat.Fat.{Info, Volume}
use fat.ShortName.{checksum}
use fat.Fat.Entry.{InRange}
use fat.Cluster.{read_cluster}
use fat.Cluster.View.{Works}
use fat.Cluster.Follow.{Follows}
use fat.Boot.Geometry.{IsAligned}
use fat.Lfn.{num_lfn, lfn_entries}
use fat.Dir.{dentry_size, skip_of, place_of, copy_out}
use fat.Dir.Named.{Stand}
use fat.Dir.Laid.{Room, Laid, name_slot, off, at, byte}

-- Behind a number that is `q` times `m` and `r` more, within the `m`.
div-mod-within :
    (x m d : ℕ) → 0 < m → x % m + d < m → ((x + d) / m ≡ x / m) × ((x + d) % m ≡ x % m + d)
div-mod-within x m d p h =
    let split : x + d ≡ x % m + d + m * (x / m) = omega (arith, mod-add-div x m) in
    rw split (
      add-mul-div_left (x % m + d) (x / m) p ∙ omega (arith, div-eq_of_lt h),
      add-mul-mod_self_left (x % m + d) m (x / m) ∙ mod-eq_of_lt h,
    )

module _ {D : Type 0} (io : BlockIo D) (fsi : Info) (w : Works io fsi) (al : IsAligned fsi) where
  -- Entries one behind the other in one cluster.
  module _ (dir offset n c : ℕ) where
    abbrev pub Within : Type 0
    Within =
        (offset + n * 32 < 2 ^ 32)
        × (offset % fsi.bytes_per_cluster + n * 32 ≤ fsi.bytes_per_cluster)

    place_of-at : (x : ℕ) → place_of fsi x ≡ x % fsi.bytes_per_cluster
    place_of-at x = rw (al.mask, al.size) (bit_and-mask fsi.cluster_shift x)

    pub at-within :
        (k : ℕ)
        → k < n
        → Within
        → (at io fsi w dir offset n (λ _. c) k ≡ offset % fsi.bytes_per_cluster + k * 32)
          × (skip_of fsi (off io fsi w dir offset n (λ _. c) k) ≡ skip_of fsi offset)
    at-within k lt (small, inside) =
        let e : u32 (offset + k * 32) ≡ offset + k * 32 = omega arith in
        let pos : 0 < fsi.bytes_per_cluster = omega (arith, al.size, pow_pos fsi.cluster_shift) in
        let (d, m) = div-mod-within offset fsi.bytes_per_cluster (k * 32) pos (omega arith) in
        rw e (place_of-at (offset + k * 32) ∙ m, rw (← al.size) d)

    pub Room-within :
        (v : Volume D)
        → Within
        → InRange fsi c
        → Follows io fsi v (skip_of fsi offset) dir c
        → Room io fsi w dir offset n (λ _. c) v
    Room-within v within r f = record {
      follows = λ k lt. rw ((at-within k lt within).1) f;
      inside = λ k lt. r;
      fits = λ k lt. rw ((at-within k lt within).0) (omega (arith, al.blocks));
      apart = λ j k lj lk ne.
          rw ((at-within j lj within).0, (at-within k lk within).0) (inr (sides j k ne));
    }
      where
        sides :
            (j k : ℕ)
            → j ≢ k
            → (offset % fsi.bytes_per_cluster + k * 32 + dentry_size
                ≤ offset % fsi.bytes_per_cluster + j * 32)
              ⊎ (offset % fsi.bytes_per_cluster + j * 32 + dentry_size
                  ≤ offset % fsi.bytes_per_cluster + k * 32)
        sides j k ne = elim (dec_lt j k) [ yes p ↦ inr (omega arith) | no p ↦ inl (omega arith) ]

  -- The entries of a name stand one behind the other in the cluster.
  module _ (offset c : ℕ) (name : List ℕ) (d83 : Bytes) where
    abbrev pub Stood : Volume D → Type 0
    Stood u =
        (k x : ℕ)
        → k < suc (num_lfn name)
        → x < dentry_size
        → byte io fsi u c (offset % fsi.bytes_per_cluster + k * 32 + x) ≡ name_slot name d83 k x

    pub Laid-Stood :
        (dir n : ℕ) (v u : Volume D)
        → suc (num_lfn name) ≤ n
        → Within dir offset n c
        → Laid io fsi w dir offset n (λ _. c) 0 (suc (num_lfn name)) (name_slot name d83) v u
        → Stood u
    Laid-Stood dir n v u few within laid k x lk lt =
        let (place, _) = at-within dir offset n c k (omega arith) within in
        rw (← place) (laid.here k x (omega arith) lk lt)

    module _ (u : Volume D) (stood : Stood u) where
      pub Stand-Stood :
          (i lo : ℕ)
          → lo + i ≡ num_lfn name
          → Stand
              (read_cluster io fsi u.disk c).bytes
              (offset % fsi.bytes_per_cluster + lo * 32)
              (lfn_entries name (checksum d83) i)
      unfolding lfn_entries
      Stand-Stood zero lo e = tt
      Stand-Stood (suc i) lo e =
          let back : num_lfn name - lo ≡ suc i = omega arith in
          let next : offset % fsi.bytes_per_cluster + suc lo * 32
              ≡ offset % fsi.bytes_per_cluster + lo * 32 + 32 =
            omega arith in
          (
            λ x lt.
                stood lo x (omega arith) lt
                ∙ rw (lt→ltb lo (num_lfn name) (omega arith), back) refl,
            rw next at (Stand-Stood i (suc lo) (omega arith)),
          )

      pub last-Stood :
          (x : ℕ)
          → x < dentry_size
          → copy_out
              (read_cluster io fsi u.disk c).bytes
              (offset % fsi.bytes_per_cluster + num_lfn name * 32)
              x
            ≡ d83 x
      last-Stood x lt =
          stood (num_lfn name) x (omega arith) lt
          ∙ rw (le→not_ltb (num_lfn name) (num_lfn name) (omega arith)) refl
