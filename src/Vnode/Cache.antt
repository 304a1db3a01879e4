-- ===== src/Vnode/Cache.antt =====
-- The cluster cache of a node, after fat32_vnode_update_cache and fat32_vnode_seek_cluster of
-- fat32_cls.c. The array is a list of 16 entries, the least recently used first.
use fat.Shared.{
  ℕ, zero, suc, ◌+◌, ◌&&◌, ◌||◌, Option, none, some, List, [], ◌∷◌, ◌++◌, ltb, leb, ◌==◌,
  if◌then◌else◌, sub32,
}
use fat.Device.{BlockIo}
use fat.Fat.{Info, Volume, Ret, ok, err, stuck}
use fat.Cluster.{NcFlags, seek_cluster}
use fat.Vnode.{Vnode, CacheEntry}

-- A node together with the volume.
pub record Open (D : Type 0) : Type 0 where
  pub fv : Vnode
  pub vol : Volume D

-- A function on a node: what it returns, and what it leaves.
abbrev pub Vm : Type 0 → Type 0 → Type 0
Vm D A = Open D → Ret A × Open D

abbrev pub ret : {D A : Type 0} → A → Vm D A
ret a s = (ok a, s)

abbrev pub raise : {D A : Type 0} → ℕ → Vm D A
raise e s = (err e, s)

abbrev pub chain : {D A B : Type 0} → Ret A × Open D → (A → Vm D B) → Ret B × Open D
chain (ok a, s) f = f a s
chain (err e, s) f = (err e, s)
chain (stuck, s) f = (stuck, s)

infixl 5 ◌>>=◌ ◌>>◌
abbrev pub ◌>>=◌ : {D A B : Type 0} → Vm D A → (A → Vm D B) → Vm D B
◌>>=◌ m f s = chain (m s) f

abbrev pub ◌>>◌ : {D B : Type 0} → Vm D (Unit {0}) → Vm D B → Vm D B
m >> k = m >>= λ _. k

-- A function on the volume alone.
abbrev pub on_volume : {D A : Type 0} → Vnode → Ret A × Volume D → Ret A × Open D
on_volume fv (r, v) = (r, record { fv = fv; vol = v })

abbrev pub lift : {D A : Type 0} → (Volume D → Ret A × Volume D) → Vm D A
lift m s = on_volume s.fv (m s.vol)

abbrev pub modify : {D : Type 0} → (Vnode → Vnode) → Vm D (Unit {0})
modify f s = (ok tt, record s { fv = f s.fv })

-- The first slot that is empty or holds the same index.
unfoldable pub find_slot : List CacheEntry → ℕ → ℕ → Option ℕ
find_slot [] index i = none
find_slot (e ∷ es) index i =
    let rest = find_slot es index (i + 1) in
    if e.cluster == 0 || e.index == index then some i else rest

-- Shifting the entries behind slot `i` down by one.
unfoldable pub shift_down : ℕ → List CacheEntry → List CacheEntry
shift_down i [] = []
shift_down zero (e ∷ es) = es
shift_down (suc i) (e ∷ es) = e ∷ shift_down i es

-- fat32_vnode_update_cache
unfoldable pub update_cache : ℕ → ℕ → List CacheEntry → List CacheEntry
update_cache index cluster cache =
    let lru_slot : ℕ = elim (find_slot cache index 0) [ some i ↦ i | none ↦ 0 ] in
    shift_down lru_slot cache ++ (record { index = index; cluster = cluster } ∷ [])

-- The search loop of fat32_vnode_seek_cluster: best_index and best_cluster.
unfoldable pub best_entry : List CacheEntry → ℕ → ℕ → ℕ → ℕ × ℕ
best_entry [] skip_clusters best_index best_cluster = (best_index, best_cluster)
best_entry (e ∷ es) skip_clusters best_index best_cluster =
    let keep = best_entry es skip_clusters best_index best_cluster in
    let better = best_entry es skip_clusters e.index e.cluster in
    if e.cluster == 0
    then keep
    else if leb e.index skip_clusters && ltb best_index e.index
    then better
    else keep

abbrev pub with_cache : List CacheEntry → Vnode → Vnode
with_cache cache fv = record fv { fv_cls_cache = cache }

module _ {D : Type 0} (io : BlockIo D) (fsi : Info) where
  -- fat32_vnode_seek_cluster
  unfoldable pub vnode_seek_cluster : ℕ → NcFlags → Vm D ℕ
  vnode_seek_cluster skip_clusters flags s =
      let best = best_entry s.fv.fv_cls_cache skip_clusters 0 s.fv.fv_cluster in
      let remaining_skip = sub32 skip_clusters best.0 in
      let seek : Vm D ℕ =
        if ltb 0 remaining_skip
        then lift (seek_cluster io fsi best.1 remaining_skip flags)
        else ret best.1 in
      let sought : Vm D ℕ = do
        found_cluster ← seek
        modify (λ fv. with_cache (update_cache skip_clusters found_cluster fv.fv_cls_cache) fv)
        ret found_cluster
      in sought s
