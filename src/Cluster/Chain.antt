-- ===== src/Cluster/Chain.antt =====
-- Chains of a table, as lists.
use fat.Shared.{ℕ, ◌≤◌, ◌≡◌, arith, ◌==◌, ◌||◌, Bool, true, false, List, [], ◌∷◌}
use fat.Fat.{Info, cluster_eoc_min}
use fat.Fat.Entry.{InRange}

abbrev pub has : ℕ → List ℕ → Bool
has e [] = false
has e (x ∷ xs) = e == x || has e xs

-- In the table `f` the entry `c` begins the chain `xs` of distinct clusters, up to an end mark.
abbrev pub IsChain : Info → (ℕ → ℕ) → ℕ → List ℕ → Type 0
IsChain fsi f c [] = cluster_eoc_min ≤ c
IsChain fsi f c (x ∷ xs) = (c ≡ x) × InRange fsi x × (has x xs ≡ false) × IsChain fsi f (f x) xs

-- A chain of a table is one of every table that agrees on its clusters.
pub IsChain-frame :
    (fsi : Info) (f g : ℕ → ℕ) (c : ℕ) (xs : List ℕ)
    → ((e : ℕ) → InRange fsi e → has e xs ≡ true → g e ≡ f e)
    → IsChain fsi f c xs
    → IsChain fsi g c xs
IsChain-frame fsi f g c [] same h = h
IsChain-frame fsi f g c (x ∷ xs) same (at, r, out, rest) = (
  at,
  r,
  out,
  rw (same x r (ground arith))
      (IsChain-frame fsi f g (f x) xs (λ e re m. same e re (ground arith)) rest),
)
