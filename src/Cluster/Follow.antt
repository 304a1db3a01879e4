-- ===== src/Cluster/Follow.antt =====
-- fat32_next_cluster and fat32_seek_cluster without allocation: they walk the links of the table.
use fat.Shared.{
  ap, ℕ, zero, suc, ◌+◌, ◌≤◌, ◌≡◌, refl, ◌∙◌, ◌⊎◌, inl, inr, true, ◌||◌, arith, if◌then◌else◌, ◌==◌,
  leb, if-apply, Bool-cases, ==_false,
}
use fat.Device.{BlockIo, eio}
use fat.Fat.{
  Info, Volume, Ret, ok, err, stuck, and_then, enospc, einval, cluster_bad, cluster_eoc_min,
}
use fat.Fat.Entry.{InRange}
use fat.Cluster.{NcFlags, no_flags, out_of_range, next_cluster, seek_loop, seek_cluster}
use fat.Cluster.View.{Works, table, read, in_range, not_out}

module _ {D : Type 0} (io : BlockIo D) (fsi : Info) where
  -- `c` is followed by another cluster.
  abbrev pub IsLink : Volume D → ℕ → Type 0
  IsLink v c = InRange fsi c × InRange fsi (table io fsi v c)

  -- `n` links lead from `a` to `b`.
  abbrev pub Follows : Volume D → ℕ → ℕ → ℕ → Type 0
  Follows v zero a b = a ≡ b
  Follows v (suc n) a b = IsLink v a × Follows v n (table io fsi v a) b

  -- The errors of a walk: a bad start, the end of the chain, or an entry that is no link.
  abbrev pub IsWalkError : ℕ → Type 0
  IsWalkError e = (e ≡ einval) ⊎ ((e ≡ enospc) ⊎ (e ≡ eio))

  -- What a walk over `n` links from `a` answers.
  abbrev pub Walked : Volume D → ℕ → ℕ → Ret ℕ × Volume D → Type 0
  Walked v n a (ok b, v') = (v' ≡ v) × Follows v n a b
  Walked v n a (err e, v') = (v' ≡ v) × IsWalkError e × ((b : ℕ) → ¬ Follows v n a b)
  Walked v n a (stuck, v') = ⊥

  module _ (w : Works io fsi) (v : Volume D) where
    next_cluster_lem :
        (c : ℕ)
        → InRange fsi c
        → next_cluster io fsi c no_flags v ≡ (
            if leb cluster_eoc_min (table io fsi v c)
            then (err enospc, v)
            else if table io fsi v c == cluster_bad
                || table io fsi v c == 0
                || out_of_range fsi (table io fsi v c)
            then (err eio, v)
            else (ok (table io fsi v c), v))
    unfolding next_cluster
    next_cluster_lem c r =
        rw (==_false {a = c} {b = 0} (omega arith), in_range fsi c w.geo r, read io fsi w c v r)
          (simp if-apply)

    next_cluster_out :
        (c : ℕ) → out_of_range fsi c ≡ true → next_cluster io fsi c no_flags v ≡ (err einval, v)
    unfolding next_cluster
    next_cluster_out c h = elim (Bool-cases (c == 0)) [ inl z ↦ rw z | inr z ↦ rw (z, h) ]

    -- The three ways on from an entry `e`.
    entry_cases :
        (c : ℕ)
        → InRange fsi c
        → Walked v 1 c (
            if leb cluster_eoc_min (table io fsi v c)
            then (err enospc, v)
            else if table io fsi v c == cluster_bad
                || table io fsi v c == 0
                || out_of_range fsi (table io fsi v c)
            then (err eio, v)
            else (ok (table io fsi v c), v))
    entry_cases c r = elim (Bool-cases (leb cluster_eoc_min (table io fsi v c))) [
      | inl h ↦ rw h (refl, inr (inl refl), λ b f. ground (arith, w.geo.clusters))
      | inr h ↦
          rw h
            (elim (Bool-cases (
              table io fsi v c == cluster_bad
              || table io fsi v c == 0
              || out_of_range fsi (table io fsi v c))) [
                | inl g ↦ rw g (refl, inr (inr refl), λ b f. ground (arith, w.geo.clusters))
                | inr g ↦ rw g (refl, ((r, ground (arith, w.geo.clusters)), refl))
              ])
    ]

    -- On a volume whose layout is sound and a device without read errors (`Works`): without
    -- allocation, fat32_next_cluster returns the cluster that is linked behind the given one; it
    -- fails, with EINVAL, ENOSPC or EIO, just where there is none; it changes nothing.
    pub next_cluster-Walked : (c : ℕ) → Walked v 1 c (next_cluster io fsi c no_flags v)
    next_cluster-Walked c = elim (Bool-cases (out_of_range fsi c)) [
      | inl h ↦ rw (next_cluster_out c h) (refl, inl refl, λ b f. absurd (outside f.0.0 h))
      | inr h ↦
          rw (next_cluster_lem c (not_out fsi c w.geo h)) (entry_cases c (not_out fsi c w.geo h))
    ]
      where
        outside : InRange fsi c → out_of_range fsi c ≡ true → ⊥
        outside r h = ground (arith, in_range fsi c w.geo r)

    failed :
        (c : ℕ) (r : Ret ℕ × Volume D)
        → cluster_eoc_min ≤ table io fsi v c
        → Walked v 1 c r
        → (e : ℕ) × (r ≡ (err e, v))
    failed c (ok b, v') last (same, ((_, r), _)) = absurd (ground (arith, w.geo.clusters))
    failed c (err e, v') last (same, h, f) = (e, ap (λ u. (err e, u)) same)
    failed c (stuck, v') last h = absurd h

    -- At the end of a chain fat32_next_cluster fails.
    pub next_cluster-last :
        (c : ℕ)
        → cluster_eoc_min ≤ table io fsi v c
        → (e : ℕ) × (next_cluster io fsi c no_flags v ≡ (err e, v))
    next_cluster-last c last = failed c _ last (next_cluster-Walked c)

    further :
        (n c : ℕ) (r : Ret ℕ × Volume D)
        → IsLink v c
        → Walked v n (table io fsi v c) r
        → Walked v (suc n) c r
    further n c (ok b, v') link (same, f) = (same, (link, f))
    further n c (err e, v') link (same, h, f) = (same, h, λ b g. f b g.1)
    further n c (stuck, v') link f = f

    first_link :
        (n c : ℕ) (r : Ret ℕ × Volume D)
        → Walked v 1 c r
        → Walked v n (table io fsi v c) (seek_loop io fsi n (table io fsi v c) no_flags v)
        → Walked v (suc n) c (and_then {D = D} r (λ next. seek_loop io fsi n next no_flags))
    first_link n c (ok b, v') (same, (link, e)) ih = rw (same, ← e) (further n c _ link ih)
    first_link n c (err e, v') (same, h, f) ih = (same, h, λ b g. f (table io fsi v c) (g.0, refl))
    first_link n c (stuck, v') f ih = f

    seek_loop-Walked : (n c : ℕ) → Walked v n c (seek_loop io fsi n c no_flags v)
    unfolding seek_loop
    seek_loop-Walked zero c = (refl, refl)
    seek_loop-Walked (suc n) c =
        first_link n c (next_cluster io fsi c no_flags v) (next_cluster-Walked c)
          (seek_loop-Walked n (table io fsi v c))

    -- On a volume whose layout is sound and a device without read errors (`Works`): without
    -- allocation, fat32_seek_cluster returns the cluster that `n` links of the table lead to; it
    -- fails, with EINVAL, ENOSPC or EIO, just where they lead nowhere; it changes nothing.
    pub seek_cluster-Walked : (n c : ℕ) → Walked v n c (seek_cluster io fsi c n no_flags v)
    unfolding seek_cluster
    seek_cluster-Walked zero c = (refl, refl)
    seek_cluster-Walked (suc n) c =
        rw (==_false {a = suc n} {b = 0} (omega arith)) (seek_loop-Walked (suc n) c)

    link_with :
        (c : ℕ) (flags : NcFlags)
        → InRange fsi c
        → InRange fsi (table io fsi v c)
        → next_cluster io fsi c flags v ≡ (ok (table io fsi v c), v)
    unfolding next_cluster
    link_with c flags r s =
        rw (==_false {a = c} {b = 0} (omega arith), in_range fsi c w.geo r, read io fsi w c v r)
          (ground (arith, w.geo.clusters))

    -- Along a link the flags make no difference.
    pub next_cluster-IsLink :
        (c : ℕ) (flags : NcFlags)
        → IsLink v c
        → next_cluster io fsi c flags v ≡ (ok (table io fsi v c), v)
    next_cluster-IsLink c flags (r, s) = link_with c flags r s

    pub seek_loop-Follows :
        (m n k a b : ℕ) (flags : NcFlags)
        → k ≡ m + n
        → Follows v m a b
        → seek_loop io fsi k a flags v ≡ seek_loop io fsi n b flags v
    unfolding seek_loop
    seek_loop-Follows zero n k a b flags e h = rw (h, (let same : k ≡ n = omega arith in same)) refl
    seek_loop-Follows (suc m) n zero a b flags e h = absurd (omega arith)
    seek_loop-Follows (suc m) n (suc k) a b flags e (link, h) =
        rw (next_cluster-IsLink a flags link)
          (seek_loop-Follows m n k (table io fsi v a) b flags (omega arith) h)

    pub seek_cluster-seek_loop :
        (n a : ℕ) (flags : NcFlags) → seek_cluster io fsi a n flags v ≡ seek_loop io fsi n a flags v
    unfolding seek_cluster seek_loop
    seek_cluster-seek_loop zero a flags = refl
    seek_cluster-seek_loop (suc n) a flags = rw (==_false {a = suc n} {b = 0} (omega arith)) refl

    pub next_cluster-end :
        (c : ℕ)
        → InRange fsi c
        → cluster_eoc_min ≤ table io fsi v c
        → next_cluster io fsi c no_flags v ≡ (err enospc, v)
    next_cluster-end c r h = rw (next_cluster_lem c r, end_test h) refl
      where
        end_test :
            cluster_eoc_min ≤ table io fsi v c → leb cluster_eoc_min (table io fsi v c) ≡ true
        end_test h = ground arith

    -- A walk whose cluster is known.
    pub seek_cluster-Follows :
        (n a b : ℕ) (flags : NcFlags)
        → Follows v n a b
        → seek_cluster io fsi a n flags v ≡ (ok b, v)
    unfolding seek_loop
    seek_cluster-Follows n a b flags h =
        seek_cluster-seek_loop n a flags ∙ seek_loop-Follows n 0 n a b flags (omega arith) h
