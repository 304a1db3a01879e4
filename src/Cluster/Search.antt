-- ===== src/Cluster/Search.antt =====
-- The search for a free cluster: it finds one if there is one.
use fat.Shared.{
  ℕ, zero, suc, ◌+◌, ◌≤◌, ◌<◌, ◌≡◌, refl, sym, ◌≢◌, ◌⊎◌, inl, inr, true, false, arith,
  if◌then◌else◌, u32, ◌==◌, ltb, if-apply, Bool-cases, ==_true, ==_false,
}
use native.Mathlib.Decide.{ℕ_discrete, dec_lt}
use fat.Device.{BlockIo}
use fat.Fat.{Info, Volume, Ret, ok, err, stuck, enospc, cluster_min}
use fat.Fat.Entry.{InRange}
use fat.Cluster.{search_free, search_start}
use fat.Cluster.View.{Works, table, read}

module _ {D : Type 0} (io : BlockIo D) (fsi : Info) where
  -- What the search answers: a free cluster, or ENOSPC where no entry is free.
  abbrev pub Searched : Volume D → Ret ℕ × Volume D → Type 0
  Searched v (ok c, v') = (v' ≡ v) × InRange fsi c × (table io fsi v c ≡ 0)
  Searched v (err e, v') =
      (v' ≡ v) × (e ≡ enospc) × ((c : ℕ) → InRange fsi c → table io fsi v c ≢ 0)
  Searched v (stuck, v') = ⊥

  module _ (w : Works io fsi) (v : Volume D) (start : ℕ) (from : InRange fsi start) where
    -- The next candidate.
    abbrev after : ℕ → ℕ
    after c = if ltb (u32 (fsi.cluster_count + 1)) (u32 (c + 1)) then cluster_min else u32 (c + 1)

    search_step :
        (left c : ℕ)
        → InRange fsi c
        → search_free io fsi start (suc left) c v ≡ (
            if table io fsi v c == 0
            then (ok c, v)
            else if after c == start
            then (err enospc, v)
            else search_free io fsi start left (after c) v)
    unfolding search_free
    search_step left c r = rw (read io fsi w c v r) (simp if-apply)

    after-lt : (c : ℕ) → c ≤ fsi.cluster_count → after c ≡ c + 1
    after-lt c h = ground (arith, w.geo.clusters)

    after_last : (c : ℕ) → c ≡ fsi.cluster_count + 1 → after c ≡ 2
    after_last c h = ground (arith, w.geo.clusters)

    zero_of : (c : ℕ) → (table io fsi v c == 0) ≡ true → table io fsi v c ≡ 0
    zero_of c h = ground arith

    used_of : (c : ℕ) → (table io fsi v c == 0) ≡ false → table io fsi v c ≢ 0
    used_of c h = ground arith

    -- Beyond the wrap: the clusters from `start` on and those below `c` are in use.
    search_wrapped :
        (left c : ℕ)
        → 2 ≤ c
        → c < start
        → start ≤ c + left
        → ((e : ℕ) → InRange fsi e → (start ≤ e) ⊎ (e < c) → table io fsi v e ≢ 0)
        → Searched v (search_free io fsi start left c v)
    search_wrapped zero c r lt enough seen = absurd (omega arith)
    search_wrapped (suc left) c r lt enough seen =
        rw (search_step left c (omega arith), after-lt c (omega arith))
          (elim (Bool-cases (table io fsi v c == 0)) [
            | inl hit ↦ rw hit (refl, omega arith, zero_of c hit)
            | inr miss ↦ rw miss (elim (ℕ_discrete (c + 1) start) [
              | yes q ↦ rw (==_true q) (
                refl,
                refl,
                λ e re. elim (ℕ_discrete e c) [
                  | yes p ↦ rw p (used_of c miss)
                  | no p ↦ seen e re (omega arith)
                ],
              )
              | no q ↦ rw (==_false q) (
                  search_wrapped left (c + 1) (omega arith) (omega arith) (omega arith) (λ e re h.
                    elim (ℕ_discrete e c) [
                      | yes p ↦ rw p (used_of c miss)
                      | no p ↦ seen e re (omega arith)
                    ]))
            ])
          ])

    -- Before the wrap: the clusters from `start` to below `c` are in use.
    search_up :
        (left c : ℕ)
        → start ≤ c
        → c + left ≡ start + fsi.cluster_count
        → c ≤ fsi.cluster_count + 1
        → ((e : ℕ) → start ≤ e → e < c → table io fsi v e ≢ 0)
        → Searched v (search_free io fsi start left c v)
    search_up zero c r enough top seen = absurd (omega arith)
    search_up (suc left) c r enough top seen =
        rw (search_step left c (omega arith)) (elim (Bool-cases (table io fsi v c == 0)) [
          | inl hit ↦ rw hit (refl, omega arith, zero_of c hit)
          | inr miss ↦ rw miss (elim (dec_lt c (fsi.cluster_count + 1)) [
            | yes q ↦
                rw (after-lt c (omega arith), ==_false {a = c + 1} {b = start} (omega arith))
                  (search_up left (c + 1) (omega arith) (omega arith) (omega arith) (λ e he h.
                    elim (ℕ_discrete e c) [
                      | yes p ↦ rw p (used_of c miss)
                      | no p ↦ seen e he (omega arith)
                    ]))
            | no q ↦ rw (after_last c (omega arith)) (elim (ℕ_discrete start 2) [
              | yes p ↦ rw (==_true (sym p)) (
                refl,
                refl,
                λ e re. elim (ℕ_discrete e c) [
                  | yes p' ↦ rw p' (used_of c miss)
                  | no p' ↦ seen e (omega arith) (omega arith)
                ],
              )
              | no p ↦ rw (==_false {a = 2} {b = start} (λ q'. p (sym q'))) (
                  search_wrapped left 2 (omega arith) (omega arith) (omega arith) (λ e re h.
                    elim (ℕ_discrete e c) [
                      | yes p' ↦ rw p' (used_of c miss)
                      | no p' ↦ seen e (omega arith) (omega arith)
                    ]))
            ])
          ])
        ])

  search_none :
      (v : Volume D) (n start c : ℕ)
      → n ≡ 0
      → fsi.cluster_count ≡ 0
      → Searched v (search_free io fsi start n c v)
  unfolding search_free
  search_none v zero start c h none_left = (refl, refl, λ e r. absurd (omega arith))
  search_none v (suc n) start c h none_left = absurd (omega arith)

  search_start-InRange :
      Works io fsi → (v : Volume D) → fsi.cluster_count ≢ 0 → InRange fsi (search_start io fsi v)
  search_start-InRange w v h = ground (arith, w.geo.clusters)

  -- On a volume whose layout is sound and a device without read errors (`Works`): from the place
  -- that the driver chooses, with its bound on the rounds, the search finds a free cluster if there
  -- is one, and otherwise reports ENOSPC; it changes nothing.
  pub search_free-Searched :
      Works io fsi
      → (v : Volume D)
      → Searched v
          (search_free io fsi (search_start io fsi v) fsi.cluster_count (search_start io fsi v) v)
  search_free-Searched w v = elim (ℕ_discrete fsi.cluster_count 0) [
    | yes h ↦ search_none v fsi.cluster_count _ _ h h
    | no h ↦
        let r = search_start-InRange w v h in
        search_up w v (search_start io fsi v) r fsi.cluster_count (search_start io fsi v)
          (omega arith) refl r.1 (λ e he hlt. absurd (omega arith))
  ]
