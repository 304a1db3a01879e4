-- ===== src/Vnode/Sound.antt =====
-- The cluster cache of a node never changes what a seek finds.
use fat.Shared.{
  ℕ, zero, suc, ◌-◌, ◌^◌, ◌≤◌, ◌<◌, ◌≡◌, refl, ap, ◌≢◌, inl, inr, ◌&&◌, List, [], ◌∷◌, ◌++◌, arith,
  ltb, leb, if◌then◌else◌, sub32, All, Bool-cases, ==_false, lt→ltb, le→not_ltb,
}
use native.Mathlib.Decide.{ℕ_discrete, dec_lt}
use fat.Device.{BlockIo}
use fat.Fat.{Info, Volume, Ret, ok, err, stuck}
use fat.Cluster.{NcFlags, no_flags, seek_loop, seek_cluster}
use fat.Cluster.View.{Works}
use fat.Cluster.Follow.{
  Follows, Walked, IsWalkError, seek_loop-Follows, seek_cluster-seek_loop, seek_cluster-Walked,
}
use fat.Vnode.{CacheEntry}
use fat.Vnode.Cache.{
  Open, Vm, ret, chain, on_volume, lift, shift_down, update_cache, best_entry, with_cache,
  vnode_seek_cluster,
}

module _ {ℓ} (P : CacheEntry → Type ℓ) where
  All-shift_down : (i : ℕ) (es : List CacheEntry) → All P es → All P (shift_down i es)
  unfolding shift_down
  All-shift_down i [] h = tt
  All-shift_down zero (e ∷ es) (p, h) = h
  All-shift_down (suc i) (e ∷ es) (p, h) = (p, All-shift_down i es h)

  All-append : (es fs : List CacheEntry) → All P es → All P fs → All P (es ++ fs)
  All-append [] fs h g = g
  All-append (e ∷ es) fs (p, h) g = (p, All-append es fs h g)

  pub All-update_cache :
      (i c : ℕ) (es : List CacheEntry)
      → All P es
      → P (record { index = i; cluster = c })
      → All P (update_cache i c es)
  unfolding update_cache
  All-update_cache i c es h p = All-append (shift_down _ es) _ (All-shift_down _ es h) (p, tt)

module _ {D : Type 0} (io : BlockIo D) (fsi : Info) where
  -- Each entry of the cache in use is what following the chain gives.
  abbrev pub IsRight : Volume D → ℕ → CacheEntry → Type 0
  IsRight v c e = e.cluster ≢ 0 → Follows io fsi v e.index c e.cluster

  abbrev pub IsSound : Open D → Type 0
  IsSound s = All (IsRight s.vol s.fv.fv_cluster) s.fv.fv_cls_cache

  best_entry-Follows :
      (v : Volume D) (c : ℕ) (es : List CacheEntry) (skip bi bc : ℕ)
      → All (IsRight v c) es
      → Follows io fsi v bi c bc
      → bi ≤ skip
      → Follows io fsi v (best_entry es skip bi bc).0 c (best_entry es skip bi bc).1
        × ((best_entry es skip bi bc).0 ≤ skip)
  unfolding best_entry
  best_entry-Follows v c [] skip bi bc h f le = (f, le)
  best_entry-Follows v c (e ∷ es) skip bi bc (p, h) f le = elim (ℕ_discrete e.cluster 0) [
    | yes z ↦ rw z (best_entry-Follows v c es skip bi bc h f le)
    | no nz ↦ rw (==_false nz) (elim (Bool-cases (leb e.index skip && ltb bi e.index)) [
      | inl t ↦ rw t (best_entry-Follows v c es skip e.index e.cluster h (p nz) (ground arith))
      | inr g ↦ rw g (best_entry-Follows v c es skip bi bc h f le)
    ])
  ]

  abbrev pub noting : ℕ → ℕ → Vm D ℕ
  noting skip found t =
      (ok found, record t { fv = with_cache (update_cache skip found t.fv.fv_cls_cache) t.fv })

  -- The cached seek as a plain one with the update of the cache behind it.
  abbrev pub plain_seek : ℕ → NcFlags → Vm D ℕ
  plain_seek skip flags s =
      chain {D = D} (lift (seek_cluster io fsi s.fv.fv_cluster skip flags) s) (noting skip)

  through :
      Works io fsi
      → (skip bi bc : ℕ) (flags : NcFlags) (s : Open D) → skip < 2 ^ 32
      → Follows io fsi s.vol bi s.fv.fv_cluster bc
      → bi ≤ skip
      → (if ltb 0 (sub32 skip bi)
            then lift (seek_cluster io fsi bc (sub32 skip bi) flags)
            else ret bc)
          s
        ≡ lift (seek_cluster io fsi s.fv.fv_cluster skip flags) s
  unfolding seek_loop
  through w skip bi bc flags s bound f le =
      let rest : sub32 skip bi ≡ skip - bi = omega arith in
      let walk =
        seek_loop-Follows io fsi w s.vol bi (skip - bi) skip s.fv.fv_cluster bc flags (omega arith)
          f in
      rw (rest, seek_cluster-seek_loop io fsi w s.vol skip s.fv.fv_cluster flags, walk)
        (elim (dec_lt 0 (skip - bi)) [
          | yes more ↦
              rw (lt→ltb _ _ more, seek_cluster-seek_loop io fsi w s.vol (skip - bi) bc flags) refl
          | no done ↦
              let none_left : skip - bi ≡ 0 = omega arith in
              rw (le→not_ltb 0 (skip - bi) (omega arith), none_left) refl
        ])

  -- On a volume whose layout is sound and a device without read errors (`Works`): with a sound
  -- cache, seeking through it to a 32-bit index answers and leaves just what seeking from the first
  -- cluster does, with or without allocation, but for the new entry of the cache.
  pub vnode_seek_cluster-plain_seek :
      Works io fsi
      → (skip : ℕ) (flags : NcFlags) (s : Open D) → skip < 2 ^ 32
      → IsSound s
      → vnode_seek_cluster io fsi skip flags s ≡ plain_seek skip flags s
  unfolding vnode_seek_cluster
  vnode_seek_cluster-plain_seek w skip flags s bound h =
      let found =
        best_entry-Follows s.vol s.fv.fv_cluster s.fv.fv_cls_cache skip 0 s.fv.fv_cluster h refl
          (omega arith) in
      ap (λ r. chain r (noting skip)) (through w skip _ _ flags s bound found.0 found.1)

  -- What the cached seek answers without allocation.
  abbrev pub Sought : ℕ → Open D → Ret ℕ × Open D → Type 0
  Sought skip s (ok b, t) =
      (t.vol ≡ s.vol)
      × (t.fv ≡ with_cache t.fv.fv_cls_cache s.fv)
      × IsSound t
      × Follows io fsi s.vol skip s.fv.fv_cluster b
  Sought skip s (err e, t) =
      (t ≡ s) × IsWalkError io fsi e × ((b : ℕ) → ¬ Follows io fsi s.vol skip s.fv.fv_cluster b)
  Sought skip s (stuck, t) = ⊥

  noting-Sought :
      (skip : ℕ) (s : Open D) (r : Ret ℕ × Volume D)
      → IsSound s
      → Walked io fsi s.vol skip s.fv.fv_cluster r
      → Sought skip s (chain {D = D} (on_volume s.fv r) (noting skip))
  noting-Sought skip s (ok b, v') h (same, f) = (
    same,
    refl,
    rw same (All-update_cache (IsRight s.vol s.fv.fv_cluster) skip b s.fv.fv_cls_cache h (λ nz. f)),
    f,
  )
  noting-Sought skip s (err e, v') h (same, bad, none_there) =
      (ap (λ (v : Volume D). record s { vol = v }) same, bad, none_there)
  noting-Sought skip s (stuck, v') h f = f

  -- On a volume whose layout is sound and a device without read errors (`Works`): without
  -- allocation, seeking through a sound cache to a 32-bit index finds just the cluster that the
  -- links lead to, fails just where they lead nowhere, leaves the volume, and of the node all but
  -- the cache, which is sound again.
  pub vnode_seek_cluster-Sought :
      Works io fsi
      → (skip : ℕ) (s : Open D) → skip < 2 ^ 32
      → IsSound s
      → Sought skip s (vnode_seek_cluster io fsi skip no_flags s)
  vnode_seek_cluster-Sought w skip s bound h =
      rw (vnode_seek_cluster-plain_seek w skip no_flags s bound h) (
        noting-Sought skip s (seek_cluster io fsi s.fv.fv_cluster skip no_flags s.vol) h
          (seek_cluster-Walked io fsi w s.vol skip s.fv.fv_cluster))
