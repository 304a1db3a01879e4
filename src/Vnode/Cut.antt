-- ===== src/Vnode/Cut.antt =====
-- What fat32_truncate frees behind the last cluster that it keeps.
use fat.Shared.{
  ℕ, suc, ◌^◌, ◌≤◌, ◌<◌, ◌≡◌, refl, sym, ap, ◌∙◌, ◌≢◌, inl, inr, arith, true, false, not, ◌&&◌,
  ◌==◌, ltb, leb, List, [], ◌∷◌, length, take, drop, get_or, if◌then◌else◌, map, All, Bool-cases,
  ==_false,
}
use fat.Device.{BlockIo}
use fat.Fat.{Info, Volume, ok, cluster_min, cluster_eoc, cluster_eoc_min}
use fat.Fat.Entry.{InRange, fat_entry}
use fat.Cluster.{NcFlags, no_flags, next_cluster}
use fat.Cluster.Chain.{has, IsChain}
use fat.Cluster.View.{Works, table}
use fat.Cluster.Follow.{seek_cluster-Follows, next_cluster-IsLink, next_cluster-end}
use fat.Cluster.Free.{Freed, free_clusters-tail}
use fat.Vnode.{CacheEntry}
use fat.Vnode.Cache.{Open, chain, lift, on_volume, update_cache, with_cache, vnode_seek_cluster}
use fat.Vnode.Truncate.{drop_entry, drop_beyond, free_extra}
use fat.Vnode.Sound.{IsRight, IsSound, All-update_cache, noting, vnode_seek_cluster-plain_seek}
use fat.Vnode.Kept.{drop-get_or, IsChain-take, IsChain-Follows, Follows-kept}

module _ {D : Type 0} (io : BlockIo D) (fsi : Info) where
  -- What cutting the chain `xs` of a node behind its cluster number `m` leaves: the kept part is a
  -- chain from the same first cluster, every cluster behind it has a free entry in each copy of the
  -- table, the entries of all others but the last kept one are as before, and the cache is sound.
  pub record Cut (s : Open D) (m : ℕ) (xs : List ℕ) (t : Open D) : Type 0 where
    pub start : t.fv.fv_cluster ≡ s.fv.fv_cluster
    pub kept : IsChain fsi (table io fsi t.vol) s.fv.fv_cluster (take (suc m) xs)
    pub freed :
        (k e : ℕ)
        → k < fsi.num_fats
        → InRange fsi e
        → has e (drop (suc m) xs) ≡ true
        → fat_entry io fsi t.vol.disk k e ≡ 0
    pub others :
        (k e : ℕ)
        → k < fsi.num_fats
        → InRange fsi e
        → has e (drop m xs) ≡ false
        → fat_entry io fsi t.vol.disk k e ≡ fat_entry io fsi s.vol.disk k e
    pub right : IsSound io fsi t

module _ {D : Type 0} (io : BlockIo D) (fsi : Info) (w : Works io fsi) where
  module _ (s : Open D) (m : ℕ) (xs : List ℕ) (sound : IsSound io fsi s)
      (chained : IsChain fsi (table io fsi s.vol) s.fv.fv_cluster xs) (covered : m < length xs)
      (small : m < 2 ^ 32) (bound : s.vol.free_count < 2 ^ 32) where
    -- The last cluster that is kept, and those behind it.
    abbrev last : ℕ
    last = get_or xs m 0

    abbrev beyond : List ℕ
    beyond = drop (suc m) xs

    pub sought : Open D
    sought = record s { fv = with_cache (update_cache m last s.fv.fv_cls_cache) s.fv }

    pub found : (flags : NcFlags) → vnode_seek_cluster io fsi m flags s ≡ (ok last, sought)
    unfolding sought
    found flags =
        vnode_seek_cluster-plain_seek io fsi w m flags s small sound
        ∙ ap (λ r. chain {D = D} (on_volume s.fv r) (noting io fsi m))
            (seek_cluster-Follows io fsi w s.vol m s.fv.fv_cluster last flags
              (IsChain-Follows io fsi s.vol s.fv.fv_cluster m xs chained covered).0)

    sought-IsSound : IsSound io fsi sought
    unfolding sought
    sought-IsSound =
        All-update_cache (IsRight io fsi s.vol s.fv.fv_cluster) m last s.fv.fv_cls_cache sound
          (λ nz. (IsChain-Follows io fsi s.vol s.fv.fv_cluster m xs chained covered).0)

    from_last : IsChain fsi (table io fsi s.vol) last (last ∷ beyond)
    from_last = (IsChain-Follows io fsi s.vol s.fv.fv_cluster m xs chained covered).1

    at_cut : (e : ℕ) → has e (drop m xs) ≡ has e (last ∷ beyond)
    at_cut e = ap (has e) (drop-get_or m xs covered)

    kept_by :
        (g : ℕ → ℕ)
        → cluster_eoc_min ≤ g last
        → ((e : ℕ) → InRange fsi e → has e (last ∷ beyond) ≡ false → g e ≡ table io fsi s.vol e)
        → IsChain fsi g s.fv.fv_cluster (take (suc m) xs)
    kept_by g end same =
        IsChain-take fsi (table io fsi s.vol) g s.fv.fv_cluster m xs chained covered end
          (λ e re h. same e re (sym (at_cut e) ∙ h))

    -- Nothing is to be freed.
    ended-Cut : beyond ≡ [] → cluster_eoc_min ≤ table io fsi s.vol last → Cut io fsi s m xs sought
    unfolding sought
    ended-Cut none_behind end = record {
      start = refl;
      kept = kept_by (table io fsi s.vol) end (λ e re h. refl);
      freed = λ k e hk re h. absurd (nowhere e h);
      others = λ k e hk re h. refl;
      right = sought-IsSound;
    }
      where
        nowhere : (e : ℕ) → has e beyond ≡ true → ⊥
        nowhere e h = ground (arith, rw none_behind at h)

    dropped : Volume D → Open D
    dropped v' = record { fv = drop_beyond (suc m) sought.fv; vol = v' }

    module _ (v' : Volume D)
        (f : Freed io fsi w s.vol
          (λ k e. if e == last then cluster_eoc else fat_entry io fsi s.vol.disk k e)
          beyond
          v') where
      away :
          (k e : ℕ)
          → k < fsi.num_fats
          → InRange fsi e
          → has e (last ∷ beyond) ≡ false
          → fat_entry io fsi v'.disk k e ≡ fat_entry io fsi s.vol.disk k e
      away k e hk re h = ground (arith, f.entries k e hk re)

      near :
          (e : CacheEntry)
          → e.cluster ≢ 0
          → (not (e.cluster == 0) && leb (suc m) e.index) ≡ false
          → e.index ≤ m
      near e nz t = ground (arith, ==_false nz)

      last_ends : cluster_eoc_min ≤ table io fsi v' last
      last_ends = ground (arith, f.entries 0 last w.geo.copies from_last.1, from_last.2)

      still-IsRight :
          (e : CacheEntry)
          → IsRight io fsi s.vol s.fv.fv_cluster e
          → IsRight io fsi v' s.fv.fv_cluster (drop_entry (suc m) e)
      still-IsRight e h = elim (Bool-cases (not (e.cluster == 0) && leb (suc m) e.index)) [
        | inl t ↦ rw t (λ nz. absurd (nz refl))
        | inr t ↦ rw t (λ nz.
            Follows-kept io fsi s.vol v' s.fv.fv_cluster e.cluster e.index m xs chained covered
              (near e nz t) (λ x rx hx. away 0 x w.geo.copies rx (sym (at_cut x) ∙ hx)) (h nz))
      ]

      All-IsRight :
          (es : List CacheEntry)
          → All (IsRight io fsi s.vol s.fv.fv_cluster) es
          → All (IsRight io fsi v' s.fv.fv_cluster) (map (drop_entry (suc m)) es)
      All-IsRight [] h = tt
      All-IsRight (e ∷ es) (p, h) = (still-IsRight e p, All-IsRight es h)

      dropped-Cut : Cut io fsi s m xs (dropped v')
      unfolding dropped sought
      dropped-Cut = record {
        start = refl;
        kept = kept_by (table io fsi v') last_ends (λ e re h. away 0 e w.geo.copies re h);
        freed = λ k e hk re h. f.entries k e hk re ∙ rw h refl;
        others = λ k e hk re h. away k e hk re (sym (at_cut e) ∙ h);
        right = All-IsRight _ sought-IsSound;
      }

    ends_there : beyond ≡ [] → cluster_eoc_min ≤ table io fsi s.vol last
    ends_there e = rw e at from_last.3

    goes_on : (y : ℕ) (ys : List ℕ) → beyond ≡ y ∷ ys → InRange fsi (table io fsi s.vol last)
    goes_on y ys e = let t = (rw e at from_last.3) in rw t.0 t.1

    -- The last step of fat32_truncate: what lies behind the cut is freed.
    pub behind :
        (ys : List ℕ)
        → beyond ≡ ys
        → (t : Open D) × (free_extra io fsi
              (suc m)
              last
              (lift (next_cluster io fsi last no_flags) sought)
            ≡ (ok tt, t))
          × Cut io fsi s m xs t
          × (t.fv.fv_type ≡ s.fv.fv_type)
    unfolding free_extra dropped sought
    behind [] e = (
      sought,
      rw (next_cluster-end io fsi w s.vol last from_last.1 (ends_there e)) refl,
      ended-Cut e (ends_there e),
      refl,
    )
    behind (y ∷ ys) e =
        let freed = free_clusters-tail io fsi w last beyond s.vol bound from_last in
        (
          dropped freed.0,
          rw
              (
                next_cluster-IsLink io fsi w s.vol last no_flags (from_last.1, goes_on y ys e),
                link_test (goes_on y ys e),
                freed.1,
              )
              refl,
          dropped-Cut freed.0 freed.2,
          refl,
        )
      where
        link_test :
            InRange fsi (table io fsi s.vol last)
            → (leb cluster_min (table io fsi s.vol last)
                && ltb (table io fsi s.vol last) cluster_eoc_min)
              ≡ true
        link_test r = ground (arith, w.geo.clusters)
