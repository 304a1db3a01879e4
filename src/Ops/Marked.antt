-- ===== src/Ops/Marked.antt =====
-- Marking entries as deleted and freeing the clusters, the last steps of fat32_remove_common.
use fat.Shared.{
  ℕ, zero, suc, ◌^◌, ◌<◌, ◌≡◌, refl, sym, ◌∙◌, true, List, [], ◌∷◌, ◌==◌, ==_false, if◌then◌else◌,
  arith, leb, Bool-cases, inl, inr,
}
use fat.Device.{BlockIo}
use fat.Fat.{Info, Volume, Ret, ok, err, stuck, M, and_then, cluster_bad}
use fat.Fat.Entry.{InRange, fat_entry}
use fat.Cluster.{cluster_to_sector, read_cluster, free_clusters}
use fat.Cluster.View.{Works, table}
use fat.Cluster.Chain.{IsChain, IsChain-frame}
use fat.Cluster.Follow.{Follows, Walked, next_cluster-Walked, seek_cluster-Walked}
use fat.Cluster.Blocks.{Kept, Kept-same, Kept-trans, fat_entry-with_block}
use fat.Cluster.Free.{Freed, free_clusters-whole}
use fat.Vnode.{Vnode}
use fat.Dir.{skip_of, place_of}
use fat.Ops.{Spot, put_spot, open_spot, turn, delete_loop, delete_fdentry_chain, pass_over, discard}

module _ {D : Type 0} (io : BlockIo D) (fsi : Info) where
  -- A function ended, whether well or not, and kept the table; an output has the property `P`.
  abbrev Ends : {A : Type 0} → (A → Type 0) → Volume D → Ret A × Volume D → Type 0
  Ends P v (ok a, v') = P a × Kept io fsi v v'
  Ends P v (err e, v') = Kept io fsi v v'
  Ends P v (stuck, v') = ⊥

  Ends-after :
      {A : Type 0} (P : A → Type 0) (u v : Volume D) (r : Ret A × Volume D)
      → Kept io fsi u v
      → Ends P v r
      → Ends P u r
  Ends-after P u v (ok a, v') k (p, h) = (p, Kept-trans io fsi u v v' k h)
  Ends-after P u v (err e, v') k h = Kept-trans io fsi u v v' k h
  Ends-after P u v (stuck, v') k h = h

  Ends-then :
      {A B : Type 0} (P : A → Type 0) (Q : B → Type 0) (v : Volume D) (r : Ret A × Volume D)
      (f : A → M D B)
      → Ends P v r
      → ((a : A) (u : Volume D) → P a → Ends Q u (f a u))
      → Ends Q v (and_then r f)
  Ends-then P Q v (ok a, v') f (p, h) g = Ends-after Q v v' (f a v') h (g a v' p)
  Ends-then P Q v (err e, v') f h g = h
  Ends-then P Q v (stuck, v') f h g = h

  Follows-InRange :
      (v : Volume D) (n a b : ℕ) → InRange fsi a → Follows io fsi v n a b → InRange fsi b
  Follows-InRange v zero a b r f = rw (sym f) r
  Follows-InRange v (suc n) a b r ((_, s), f) = Follows-InRange v n (table io fsi v a) b s f

  Walked-Ends :
      (v : Volume D) (n a : ℕ) (r : Ret ℕ × Volume D)
      → InRange fsi a
      → Walked io fsi v n a r
      → Ends (InRange fsi) v r
  Walked-Ends v n a (ok b, v') ra (same, f) =
      (Follows-InRange v n a b ra f, Kept-same io fsi v v' same)
  Walked-Ends v n a (err e, v') ra (same, _, _) = Kept-same io fsi v v' same
  Walked-Ends v n a (stuck, v') ra h = h

  -- The spot lies in a data cluster.
  abbrev IsIn : Spot → Type 0
  IsIn p = InRange fsi p.cluster

  module _ (w : Works io fsi) where
    put_spot-Kept : (p : Spot) (v : Volume D) → IsIn p → Kept io fsi v (put_spot io fsi p v)
    put_spot-Kept p v r =
        ((λ k e hk re. fat_entry-with_block io fsi w p.bytes p.cluster k e v r hk re), refl, refl)

    open_spot-Ends :
        (place c : ℕ) (v : Volume D) → InRange fsi c → Ends IsIn v (open_spot io fsi place c v)
    unfolding read_cluster
    open_spot-Ends place c v r =
        rw (w.healthy.fine v.disk (cluster_to_sector fsi c) fsi.sectors_per_cluster)
          (r, Kept-same io fsi v v refl)

    turn-Ends : (p : Spot) (v : Volume D) → IsIn p → Ends IsIn v (turn io fsi p v)
    unfolding turn
    turn-Ends p v r = elim (Bool-cases (leb fsi.bytes_per_cluster p.cluster_off)) [
      | inr h ↦ rw h (r, Kept-same io fsi v v refl)
      | inl h ↦ rw h (
          Ends-after IsIn v (put_spot io fsi p v) _ (put_spot-Kept p v r) (
            Ends-then (InRange fsi) IsIn (put_spot io fsi p v) _ (open_spot io fsi 0)
              (Walked-Ends _ 1 p.cluster _ r
                (next_cluster-Walked io fsi w (put_spot io fsi p v) p.cluster))
              (λ next u rn. open_spot-Ends 0 next u rn)))
    ]

    delete_loop-Ends :
        (left : ℕ) (p : Spot) (v : Volume D)
        → IsIn p
        → Ends (λ _. Unit {0}) v (delete_loop io fsi left p v)
    unfolding delete_loop
    delete_loop-Ends zero p v r = (tt, put_spot-Kept p v r)
    delete_loop-Ends (suc left) p v r =
        Ends-then IsIn (λ _. Unit {0}) v (turn io fsi p v) _ (turn-Ends p v r)
          (λ q u rq. delete_loop-Ends left _ u rq)

    delete_fdentry_chain-Ends :
        (dir offset count : ℕ) (v : Volume D)
        → InRange fsi dir
        → Ends (λ _. Unit {0}) v (delete_fdentry_chain io fsi dir offset count v)
    unfolding delete_fdentry_chain
    delete_fdentry_chain-Ends dir offset count v r =
        Ends-then (InRange fsi) (λ _. Unit {0}) v _ _
          (Walked-Ends v (skip_of fsi offset) dir _ r
            (seek_cluster-Walked io fsi w v (skip_of fsi offset) dir))
          (λ c u rc.
            Ends-then IsIn (λ _. Unit {0}) u _ (delete_loop io fsi count)
              (open_spot-Ends (place_of fsi offset) c u rc)
              (λ p t rp. delete_loop-Ends count p t rp))

    passed :
        (v : Volume D) (r : Ret (Unit {0}) × Volume D)
        → Ends (λ _. Unit {0}) v r
        → (u : Volume D) × (pass_over r ≡ (ok tt, u)) × Kept io fsi v u
    passed v (ok x, u) (_, k) = (u, refl, k)
    passed v (err e, u) k = (u, refl, k)
    passed v (stuck, u) h = absurd h

    -- The clusters of a node that begin at `c`: none, or a chain of the table.
    abbrev pub Holds : Volume D → ℕ → List ℕ → Type 0
    Holds v c [] = c ≡ 0
    Holds v c (x ∷ xs) = IsChain fsi (table io fsi v) c (x ∷ xs)

    Freed-behind :
        (v u v' : Volume D) (xs : List ℕ)
        → Kept io fsi v u
        → Freed io fsi w u (λ k e. fat_entry io fsi u.disk k e) xs v'
        → Freed io fsi w v (λ k e. fat_entry io fsi v.disk k e) xs v'
    Freed-behind v u v' xs (entries, count, hint) f = record {
      entries = λ k e hk re. rw (← entries k e hk re) (f.entries k e hk re);
      count = rw (← count) f.count;
      on_disk = λ more known. f.on_disk more (λ p. known (sym count ∙ p));
      hint = f.hint ∙ hint;
    }

    unfreed :
        (v u : Volume D)
        → v.free_count < 2 ^ 32
        → Kept io fsi v u
        → Freed io fsi w v (λ k e. fat_entry io fsi v.disk k e) [] u
    unfreed v u bound (entries, count, hint) = record {
      entries = entries;
      count = ground arith;
      on_disk = λ more known. absurd (omega arith);
      hint = hint;
    }

    pub discard-Freed :
        (fv : Vnode) (xs : List ℕ) (v : Volume D)
        → InRange fsi fv.fv_parent_cluster
        → v.free_count < 2 ^ 32
        → Holds v fv.fv_cluster xs
        → (v' : Volume D) × (discard io fsi fv v ≡ (ok tt, v'))
          × Freed io fsi w v (λ k e. fat_entry io fsi v.disk k e) xs v'
    discard-Freed fv xs v r bound h =
        let (u, marked, kept) =
          passed v _
            (delete_fdentry_chain-Ends fv.fv_parent_cluster fv.fv_diroff fv.fv_dirsz v r) in
        rw
          (
            ==_false {a = fv.fv_parent_cluster} {b = cluster_bad}
                (omega (arith, r, w.geo.clusters)),
            marked,
          )
          (freeing xs u kept h)
      where
        freeing :
            (ys : List ℕ) (u : Volume D)
            → Kept io fsi v u
            → Holds v fv.fv_cluster ys
            → (v' : Volume D) × ((if fv.fv_cluster == 0
                  then (ok tt, u)
                  else pass_over (free_clusters io fsi fv.fv_cluster true u))
                ≡ (ok tt, v'))
              × Freed io fsi w v (λ k e. fat_entry io fsi v.disk k e) ys v'
        freeing [] u kept z = rw z (u, refl, unfreed v u bound kept)
        freeing (y ∷ ys) u kept (at, ry, out, rest) =
            let (v', freed, f) = free_clusters-whole io fsi w y (y ∷ ys) u (rw kept.1 bound) ry (
              IsChain-frame fsi (table io fsi v) (table io fsi u) y (y ∷ ys)
                (λ e re m. kept.0 0 e (omega (arith, w.geo.copies)) re) (refl, ry, out, rest)) in
            rw (at, ==_false {a = y} {b = 0} (omega (arith, ry)), freed)
              (v', refl, Freed-behind v u v' (y ∷ ys) kept f)
