-- ===== src/Cluster/Free.antt =====
-- fat32_free_clusters on a well-formed chain: it frees the chain and nothing else.
use fat.Shared.{
  ℕ, zero, suc, ◌+◌, ◌^◌, ◌≤◌, ◌<◌, ◌≡◌, refl, ap, ◌∙◌, ◌≢◌, inl, inr, true, ◌||◌, ◌&&◌, false,
  arith, if◌then◌else◌, ◌==◌, ltb, leb, Bool-cases, List, [], ◌∷◌, length, u32,
}
use fat.Bytes.{wle32, rle32}
use fat.Bytes.Laws.{rle-wle}
use fat.Device.{BlockIo}
use fat.Fat.{Info, Volume, ok, pure, ◌>>=◌, cluster_min, cluster_free, cluster_eoc, cluster_eoc_min}
use fat.Fat.Entry.{InRange, fat_entry, write_fat, write_fat-entry}
use fat.Cluster.{unknown, free_walk, note_freed, free_clusters, free_fuel, free_count_at}
use fat.Cluster.Chain.{has, IsChain, IsChain-frame}
use fat.Cluster.Count.{used-le, length-IsChain}
use fat.Cluster.View.{
  rle32-bdwrite, Works, table, write, with_entry, table-with_entry, in_range, fat_entry-bdwrite,
}

module _ {D : Type 0} (io : BlockIo D) (fsi : Info) where
  -- The device after the entries `xs` were set to free, in this order.
  abbrev pub freed_disk : List ℕ → D → D
  freed_disk [] d = d
  freed_disk (x ∷ xs) d = freed_disk xs (write_fat io fsi cluster_free x d)

  module _ (w : Works io fsi) where
    freed-entry :
        (f : ℕ → ℕ) (c : ℕ) (xs : List ℕ) (d : D) (k e : ℕ)
        → IsChain fsi f c xs
        → k < fsi.num_fats
        → InRange fsi e
        → fat_entry io fsi (freed_disk xs d) k e ≡ (if has e xs then 0 else fat_entry io fsi d k e)
    freed-entry f c [] d k e h hk re = refl
    freed-entry f c (x ∷ xs) d k e (at, r, out, rest) hk re =
        freed-entry f (f x) xs _ k e rest hk re
        ∙ ground (arith, write_fat-entry io fsi w.geo w.cache x cluster_free k e d r re hk)

    free_walk-chain :
        (fuel freed c : ℕ) (xs : List ℕ) (v : Volume D)
        → IsChain fsi (table io fsi v) c xs
        → length xs < fuel
        → freed + length xs < 2 ^ 32
        → free_walk io fsi fuel c freed v
          ≡ (ok (freed + length xs), record v { disk = freed_disk xs v.disk })
    unfolding free_walk
    free_walk-chain zero freed c xs v h hf hb = absurd (omega arith)
    free_walk-chain (suc fuel) freed c [] v h hf hb =
        rw (end_test c h) (ap (λ (n : ℕ). (ok n, v)) (omega arith))
      where
        end_test :
            (c : ℕ) → cluster_eoc_min ≤ c → (leb cluster_min c && ltb c cluster_eoc_min) ≡ false
        end_test c h = ground arith
    free_walk-chain (suc fuel) freed c (x ∷ xs) v (at, r, out, rest) hf hb =
        rw (at, link_test, write io fsi w x cluster_free v r, one_more)
          (free_walk-chain fuel (freed + 1) (table io fsi v x) xs
              (with_entry io fsi w x cluster_free v)
              (IsChain-frame fsi (table io fsi v) _ (table io fsi v x) xs still rest) (omega arith)
              (omega arith)
            ∙ ap (λ (n : ℕ). (ok n, record v { disk = freed_disk (x ∷ xs) v.disk })) (omega arith))
      where
        link_test : (leb cluster_min x && ltb x cluster_eoc_min) ≡ true
        link_test = ground (arith, w.geo.clusters)

        one_more : u32 (freed + 1) ≡ freed + 1
        one_more = omega arith

        still :
            (e : ℕ)
            → InRange fsi e
            → has e xs ≡ true
            → table io fsi (with_entry io fsi w x cluster_free v) e ≡ table io fsi v e
        still e re m = ground (arith, table-with_entry io fsi w x cluster_free e v r re)

    -- The volume after `n` clusters were counted back into FSInfo.
    abbrev counted : ℕ → Volume D → Volume D
    counted n v = if n == 0 || v.free_count == unknown then v else record v {
      disk = io.bdwrite v.disk fsi.fsinfo_sector 1 (
          wle32 (u32 (v.free_count + n)) (io.bread v.disk fsi.fsinfo_sector 1).bytes free_count_at);
      free_count = u32 (v.free_count + n);
    }

    note_freed-counted : (n : ℕ) (v : Volume D) → note_freed io fsi n v ≡ (ok tt, counted n v)
    unfolding note_freed
    note_freed-counted n v = rw (w.healthy.fine v.disk fsi.fsinfo_sector 1) (ground arith)

    -- What freeing `xs` leaves, over a table whose entries were `base` before: the entries of `xs` are
    -- free in every copy, the others are as before. A known free count grows by the clusters freed, in
    -- memory and in the FSInfo sector.
    pub record Freed (v : Volume D) (base : ℕ → ℕ → ℕ) (xs : List ℕ) (v' : Volume D) : Type 0 where
      pub entries :
          (k e : ℕ)
          → k < fsi.num_fats
          → InRange fsi e
          → fat_entry io fsi v'.disk k e ≡ (if has e xs then 0 else base k e)
      pub count :
          v'.free_count
          ≡ (if v.free_count == unknown then unknown else u32 (v.free_count + length xs))
      pub on_disk :
          0 < length xs
          → v.free_count ≢ unknown
          → rle32 (io.bread v'.disk fsi.fsinfo_sector 1).bytes free_count_at ≡ v'.free_count
      pub hint : v'.next_free ≡ v.next_free

    counted-Freed :
        (v u : Volume D) (base : ℕ → ℕ → ℕ) (xs : List ℕ)
        → v.free_count < 2 ^ 32
        → u.free_count ≡ v.free_count
        → u.next_free ≡ v.next_free
        → ((k e : ℕ)
            → k < fsi.num_fats
            → InRange fsi e
            → fat_entry io fsi u.disk k e ≡ (if has e xs then 0 else base k e))
        → Freed v base xs (counted (length xs) u)
    counted-Freed v u base xs bound count next entries = record {
      entries = λ k e hk re. elim (Bool-cases (length xs == 0 || u.free_count == unknown)) [
        | inl h ↦ rw h (entries k e hk re)
        | inr h ↦ rw h (
            fat_entry-bdwrite io fsi w u.disk fsi.fsinfo_sector 1 _ k e re hk
              (inl (omega (arith, w.geo.info_before)))
            ∙ entries k e hk re)
      ];
      count = ground arith;
      on_disk = λ more known. rw (known_test more known) (
          rle32-bdwrite io fsi w u.disk fsi.fsinfo_sector _ free_count_at (omega arith)
          ∙ (rle-wle _ free_count_at 0 (u32 (u.free_count + length xs))).1
          ∙ omega arith);
      hint = ground arith;
    }
      where
        known_test :
            0 < length xs
            → v.free_count ≢ unknown
            → (length xs == 0 || u.free_count == unknown) ≡ false
        known_test more known = ground arith

    short :
        (v : Volume D) (c : ℕ) (xs : List ℕ)
        → IsChain fsi (table io fsi v) c xs
        → length xs ≤ fsi.cluster_count
    short v c xs h = omega (
      arith,
      length-IsChain fsi (table io fsi v) c xs h,
      used-le fsi.cluster_count (table io fsi v),
    )

    -- On a volume whose layout is sound and a device without read errors (`Works`): freeing a whole
    -- chain, from a cluster that begins a chain of distinct clusters, with a free count that is a
    -- 32-bit number, succeeds; afterwards every copy of the table has a free entry for each cluster
    -- of the chain and its old entry for all others, the free count, unless unknown, is higher by
    -- the length of the chain, modulo 2 ^ 32, also in the FSInfo sector, and the hint is as it was.
    pub free_clusters-whole :
        (c : ℕ) (xs : List ℕ) (v : Volume D)
        → v.free_count < 2 ^ 32
        → InRange fsi c
        → IsChain fsi (table io fsi v) c xs
        → (v' : Volume D) × (free_clusters io fsi c true v ≡ (ok tt, v'))
          × Freed v (λ k e. fat_entry io fsi v.disk k e) xs v'
    unfolding free_clusters
    free_clusters-whole c xs v bound r h = (
      counted (length xs) (record v { disk = freed_disk xs v.disk }),
      rw
          (
            in_range fsi c w.geo r,
            free_walk-chain (free_fuel io fsi) 0 c xs v h (omega (arith, short v c xs h))
                (omega (arith, short v c xs h, w.geo.clusters)),
            note_freed-counted,
          )
          (ap (λ (n : ℕ). (ok tt, counted n (record v { disk = freed_disk xs v.disk })))
            (omega arith)),
      counted-Freed v _ _ xs bound refl refl
          (λ k e hk re. freed-entry (table io fsi v) c xs v.disk k e h hk re),
    )

    -- On a volume whose layout is sound and a device without read errors (`Works`): freeing what
    -- follows a cluster of a chain of distinct clusters, with a free count that is a 32-bit number,
    -- succeeds; afterwards the cluster has an end mark in every copy of the table, each cluster
    -- behind it a free entry, all others their old entry, the free count, unless unknown, is higher
    -- by the number of freed clusters, modulo 2 ^ 32, also in the FSInfo sector, and the hint is as
    -- it was.
    pub free_clusters-tail :
        (c : ℕ) (xs : List ℕ) (v : Volume D)
        → v.free_count < 2 ^ 32
        → IsChain fsi (table io fsi v) c (c ∷ xs)
        → (v' : Volume D) × (free_clusters io fsi c false v ≡ (ok tt, v'))
          × Freed v (λ k e. if e == c then cluster_eoc else fat_entry io fsi v.disk k e) xs v'
    unfolding free_clusters
    free_clusters-tail c xs v bound (at, r, out, rest) = (
      counted (length xs)
          (record v { disk = freed_disk xs (with_entry io fsi w c cluster_eoc v).disk }),
      rw (in_range fsi c w.geo r, write io fsi w c cluster_eoc v r) (walk xs rest still),
      counted-Freed v _ _ xs bound refl refl (λ k e hk re.
          freed-entry (table io fsi (with_entry io fsi w c cluster_eoc v)) (table io fsi v c) xs _ k
            e still hk re
          ∙ ap (λ n. if has e xs then 0 else n)
              (write_fat-entry io fsi w.geo w.cache c cluster_eoc k e v.disk r re hk)),
    )
      where
        still :
            IsChain fsi (table io fsi (with_entry io fsi w c cluster_eoc v)) (table io fsi v c) xs
        still =
            IsChain-frame fsi (table io fsi v) _ (table io fsi v c) xs
              (λ e re m. ground (arith, table-with_entry io fsi w c cluster_eoc e v r re)) rest

        walk :
            (ys : List ℕ)
            → IsChain fsi (table io fsi v) (table io fsi v c) ys
            → IsChain fsi (table io fsi (with_entry io fsi w c cluster_eoc v)) (table io fsi v c) ys
            → (if leb cluster_eoc_min (table io fsi v c) then pure tt else (do
              freed ← free_walk io fsi (free_fuel io fsi) (table io fsi v c) 0
              note_freed io fsi freed))
                (with_entry io fsi w c cluster_eoc v)
              ≡ (
                ok tt,
                counted
                    (length ys)
                    (record v { disk = freed_disk ys (with_entry io fsi w c cluster_eoc v).disk }),
              )
        walk [] h g = rw (end_test h)
          where
            end_test :
                cluster_eoc_min ≤ table io fsi v c → leb cluster_eoc_min (table io fsi v c) ≡ true
            end_test h = ground arith
        walk (y ∷ ys) h g =
            rw
              (
                link_test (h.0, h.1),
                free_walk-chain (free_fuel io fsi) 0 (table io fsi v c) (y ∷ ys)
                    (with_entry io fsi w c cluster_eoc v) g
                    (omega (arith, short v (table io fsi v c) (y ∷ ys) h))
                    (omega (arith, short v (table io fsi v c) (y ∷ ys) h, w.geo.clusters)),
                note_freed-counted,
              )
              (ap
                (λ (n : ℕ). (
                  ok tt,
                  counted n (record v {
                    disk = freed_disk (y ∷ ys) (with_entry io fsi w c cluster_eoc v).disk;
                  }),
                ))
                (omega arith))
          where
            link_test :
                (table io fsi v c ≡ y) × InRange fsi y
                → leb cluster_eoc_min (table io fsi v c) ≡ false
            link_test q = ground (arith, w.geo.clusters)
