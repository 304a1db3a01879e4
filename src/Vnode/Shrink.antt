-- ===== src/Vnode/Shrink.antt =====
-- fat32_truncate to a size that the chain of the file already covers.
use native.Mathlib.Nat.{le-div_iff_mul-le, div-lt_iff_lt-mul}
use fat.Shared.{
  ℕ, zero, suc, ◌+◌, ◌*◌, ◌/◌, ◌-◌, ◌^◌, ◌≤◌, ◌<◌, ◌≡◌, refl, ap, ◌≢◌, arith, true, leb, List,
  length, drop, get_or, if◌then◌else◌, sub32, All, ==_false,
}
use fat.Device.{BlockIo}
use fat.Fat.{Info, Volume, ok, cluster_min}
use fat.Fat.Entry.{InRange, fat_entry}
use fat.Cluster.{no_flags, next_cluster}
use fat.Cluster.Chain.{IsChain}
use fat.Cluster.Count.{used-le, length-IsChain}
use fat.Boot.Geometry.{IsAligned}
use fat.Cluster.View.{Works, table}
use fat.Cluster.Free.{Freed, free_clusters-whole}
use fat.Vnode.{is_dir, repeat, cache_size, empty_cache}
use fat.Vnode.Cache.{Open, lift, vnode_seek_cluster}
use fat.Vnode.Truncate.{
  needed_clusters, resized, emptied, truncate_to_zero, ensure_first, free_extra, truncate,
}
use fat.Vnode.Sound.{IsRight, IsSound}
use fat.Vnode.Kept.{in_chain}
use fat.Vnode.Cut.{Cut, sought, found, behind}

-- The quotient by its bounds.
quotient : (x d n : ℕ) → n * d ≤ x → x < n * d + d → x / d ≡ n
quotient x d n low high =
    let more : 0 < d = omega arith in
    let above : n ≤ x / d = (le-div_iff_mul-le more).1 low in
    let next : suc n * d ≡ n * d + d = grind arith in
    let below : x / d < suc n = (div-lt_iff_lt-mul more).1 (omega (arith, next, high)) in
    omega arith

module _ {D : Type 0} (io : BlockIo D) (fsi : Info) (w : Works io fsi) where
  finish :
      (s : Open D) (size m : ℕ) (xs : List ℕ)
      → needed_clusters fsi size ≡ suc m
      → m < 2 ^ 32
      → s.fv.fv_cluster ≢ 0
      → (u t : Open D)
      → vnode_seek_cluster io fsi m (record { alloc = true; clear = is_dir s.fv.fv_type }) s
        ≡ (ok (get_or xs m 0), u)
      → free_extra io fsi
          (suc m)
          (get_or xs m 0)
          (lift (next_cluster io fsi (get_or xs m 0) no_flags) u)
        ≡ (ok tt, t)
      → truncate io fsi size s ≡ (ok tt, record t { fv = resized size t.fv })
  unfolding truncate ensure_first
  finish s size m xs e small nz u t sought rest =
      let one : sub32 (suc m) 1 ≡ m = omega arith in
      rw (e, ==_false {a = suc m} {b = 0} (omega arith), ==_false nz, one, sought, rest) refl

  resized-Cut :
      (s t : Open D) (m size : ℕ) (xs : List ℕ)
      → Cut io fsi s m xs t
      → Cut io fsi s m xs (record t { fv = resized size t.fv })
  resized-Cut s t m size xs c = record {
    start = c.start;
    kept = c.kept;
    freed = c.freed;
    others = c.others;
    right = c.right;
  }

  needed_clusters-lt : (size : ℕ) → needed_clusters fsi size < 2 ^ 32
  unfolding needed_clusters
  needed_clusters-lt size = ground arith

  truncate-needed :
      (s : Open D) (size : ℕ) (xs : List ℕ)
      → IsSound io fsi s
      → IsChain fsi (table io fsi s.vol) s.fv.fv_cluster xs
      → 1 ≤ needed_clusters fsi size
      → needed_clusters fsi size ≤ length xs
      → s.vol.free_count < 2 ^ 32
      → (t : Open D) × (truncate io fsi size s ≡ (ok tt, t))
        × Cut io fsi s (needed_clusters fsi size - 1) xs t
        × (t.fv.fv_size ≡ (if is_dir s.fv.fv_type then 0 else size))
  truncate-needed s size xs sound chained some_needed enough bound =
      let m = needed_clusters fsi size - 1 in
      let last_one : needed_clusters fsi size ≡ suc m = omega arith in
      let covered : m < length xs = omega arith in
      let small : m < 2 ^ 32 = omega (arith, needed_clusters-lt size) in
      let first = in_chain io fsi (table io fsi s.vol) s.fv.fv_cluster m xs chained covered in
      let b = behind io fsi w s m xs sound chained covered small bound (drop (suc m) xs) refl in
      (
        record b.0 { fv = resized size b.0.fv },
        finish s size m xs last_one small (omega arith)
            (sought io fsi w s m xs sound chained covered small bound) b.0
            (found io fsi w s m xs sound chained covered small bound _) b.1,
        resized-Cut s b.0 m size xs b.2,
        ap (λ ty. if is_dir ty then 0 else size) b.3,
      )

  -- The number of clusters of a size.
  needed_clusters-count :
      (size n : ℕ)
      → IsAligned fsi
      → 0 < size
      → n < 2 ^ 32
      → size ≤ n * fsi.bytes_per_cluster
      → n * fsi.bytes_per_cluster < size + fsi.bytes_per_cluster
      → needed_clusters fsi size ≡ n
  unfolding needed_clusters
  needed_clusters-count size n al some_bytes small covers least =
      let whole : (size + fsi.bytes_per_cluster - 1) / 2 ^ fsi.cluster_shift ≡ n =
        quotient (size + fsi.bytes_per_cluster - 1) (2 ^ fsi.cluster_shift) n
          (omega (arith, rw al.size at least)) (omega (arith, rw al.size at covers)) in
      rw (==_false {a = size} {b = 0} (omega arith), whole) (omega arith)

  -- On a volume whose layout is sound, with clusters of a power of two bytes, and a device without read
  -- errors (`Works`): setting a size above 0 of a file or directory whose cache is sound and whose
  -- clusters are a chain of distinct clusters, the least number `n` of which that covers the new size is
  -- at most the length of the chain, with a free count that is a 32-bit number, succeeds and cuts the
  -- chain behind its `n` first clusters: the kept part is a chain, each cluster behind it is free in
  -- every copy of the table, entries of other clusters are as before, the cache is sound, and the size is
  -- set, which for a directory is 0.
  pub truncate-Cut :
      (s : Open D) (size n : ℕ) (xs : List ℕ)
      → IsAligned fsi
      → IsSound io fsi s
      → IsChain fsi (table io fsi s.vol) s.fv.fv_cluster xs
      → 0 < size
      → size ≤ n * fsi.bytes_per_cluster
      → n * fsi.bytes_per_cluster < size + fsi.bytes_per_cluster
      → n ≤ length xs
      → s.vol.free_count < 2 ^ 32
      → (t : Open D) × (truncate io fsi size s ≡ (ok tt, t))
        × Cut io fsi s (n - 1) xs t
        × (t.fv.fv_size ≡ (if is_dir s.fv.fv_type then 0 else size))
  truncate-Cut s size n xs al sound chained some_bytes covers least enough bound =
      let few = length-IsChain fsi (table io fsi s.vol) s.fv.fv_cluster xs chained in
      let most = used-le fsi.cluster_count (table io fsi s.vol) in
      let needed =
        needed_clusters-count size n al some_bytes
          (omega (arith, few, most, enough, w.geo.clusters)) covers least in
      let more : 1 ≤ n = at_least_one n covers in
      rw needed at (
        truncate-needed s size xs sound chained (omega (arith, needed, more))
          (omega (arith, needed, enough)) bound)
    where
      at_least_one : (m : ℕ) → size ≤ m * fsi.bytes_per_cluster → 1 ≤ m
      at_least_one zero h = absurd (omega (arith, some_bytes, h))
      at_least_one (suc m) h = omega arith

  pub unused-IsRight : (v : Volume D) (c n : ℕ) → All (IsRight io fsi v c) (repeat n)
  unused-IsRight v c zero = tt
  unused-IsRight v c (suc n) = (λ nz. absurd (nz refl), unused-IsRight v c n)

  -- On a volume whose layout is sound and a device without read errors (`Works`): setting the size
  -- 0, for a node whose clusters are a chain of distinct clusters and a free count that is a 32-bit
  -- number, succeeds, frees the whole chain (each cluster free in every copy of the table, all
  -- other entries as before, the free count raised), and leaves the node with no cluster, the size 0
  -- and an empty cache, which is sound, marked as modified and both the size and the cluster as dirty;
  -- the rest of the node is as it was.
  pub truncate-emptied :
      (s : Open D) (xs : List ℕ)
      → InRange fsi s.fv.fv_cluster
      → IsChain fsi (table io fsi s.vol) s.fv.fv_cluster xs
      → s.vol.free_count < 2 ^ 32
      → (t : Open D) × (truncate io fsi 0 s ≡ (ok tt, t))
        × Freed io fsi w s.vol (λ k e. fat_entry io fsi s.vol.disk k e) xs t.vol
        × (t.fv ≡ record s.fv {
          fv_cluster = 0;
          fv_size = 0;
          fv_cls_cache = empty_cache;
          fv_flags = record s.fv.fv_flags {
            size_dirty = true;
            cluster_dirty = true;
            modified = true;
          };
        })
        × IsSound io fsi t
  unfolding truncate truncate_to_zero needed_clusters
  truncate-emptied s xs r chained bound =
      let freed = free_clusters-whole io fsi w s.fv.fv_cluster xs s.vol bound r chained in
      (
        record { fv = emptied (record s.fv { fv_cluster = 0 }); vol = freed.0 },
        rw (has_cluster r, freed.1) refl,
        freed.2,
        refl,
        unused-IsRight freed.0 0 cache_size,
      )
    where
      has_cluster : InRange fsi s.fv.fv_cluster → leb cluster_min s.fv.fv_cluster ≡ true
      has_cluster r = ground arith
