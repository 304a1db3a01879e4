-- ===== src/Cluster/Count.antt =====
-- Counting the entries of a table that are in use.
use native.Mathlib.Decide.{ℕ_discrete}
use fat.Shared.{
  ℕ, zero, suc, ◌+◌, ◌≤◌, ◌≡◌, refl, ◌≢◌, arith, if◌then◌else◌, ◌==◌, List, [], ◌∷◌, length, update,
  sym,
}
use fat.Fat.{Info}
use fat.Cluster.Chain.{IsChain, IsChain-frame}

-- The entries in use among the first `n` clusters.
pub used : ℕ → (ℕ → ℕ) → ℕ
used zero f = 0
used (suc n) f = (if f (n + 2) == 0 then 0 else 1) + used n f

pub used-le : (n : ℕ) (f : ℕ → ℕ) → used n f ≤ n
unfolding used
used-le zero f = omega arith
used-le (suc n) f = ground (arith, used-le n f)

used-same : (n : ℕ) (f g : ℕ → ℕ) → ((e : ℕ) → 2 ≤ e → e ≤ n + 1 → f e ≡ g e) → used n f ≡ used n g
unfolding used
used-same zero f g h = refl
used-same (suc n) f g h =
    rw (h (n + 2) (omega arith) (omega arith), used-same n f g (λ e a b. h e a (omega arith)))

-- Setting one entry free lowers the count by one.
pub used-clear :
    (n x : ℕ) (f g : ℕ → ℕ)
    → 2 ≤ x
    → x ≤ n + 1
    → f x ≢ 0
    → g x ≡ 0
    → ((e : ℕ) → 2 ≤ e → e ≤ n + 1 → e ≢ x → g e ≡ f e)
    → used n f ≡ suc (used n g)
unfolding used
used-clear zero x f g lo hi fx gx same = absurd (omega arith)
used-clear (suc n) x f g lo hi fx gx same = elim (ℕ_discrete x (n + 2)) [
  | yes p ↦ ground (arith, p, used-same n f g (λ e a b. sym (same e a (omega arith) (omega arith))))
  | no p ↦ ground (
    arith,
    same (n + 2) (omega arith) (omega arith),
    used-clear n x f g lo (omega arith) fx gx (λ e a b ne. same e a (omega arith) ne),
  )
]

-- A chain holds no more clusters than are in use.
pub length-IsChain :
    (fsi : Info) (f : ℕ → ℕ) (c : ℕ) (xs : List ℕ)
    → IsChain fsi f c xs
    → length xs ≤ used fsi.cluster_count f
length-IsChain fsi f c [] h = omega arith
length-IsChain fsi f c (x ∷ xs) (at, r, out, rest) = omega (
  arith,
  used-clear fsi.cluster_count x f (update f x 0) r.0 r.1 (used_next (f x) xs rest) (ground arith)
      (λ e a b ne. ground arith),
  length-IsChain fsi (update f x 0) (f x) xs
      (IsChain-frame fsi f (update f x 0) (f x) xs (λ e re m. ground arith) rest),
)
  where
    used_next : (y : ℕ) (ys : List ℕ) → IsChain fsi f y ys → y ≢ 0
    used_next y [] h = omega arith
    used_next y (z ∷ zs) h = omega (arith, h.0, h.1.0)
