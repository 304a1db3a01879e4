-- ===== src/Vnode/Kept.antt =====
-- The part of a chain that a truncation keeps.
use fat.Shared.{
  ℕ, zero, suc, ◌≤◌, ◌<◌, ◌≡◌, refl, arith, false, List, [], ◌∷◌, length, take, drop, get_or,
}
use fat.Device.{BlockIo}
use fat.Fat.{Info, Volume, cluster_eoc_min}
use fat.Fat.Entry.{InRange}
use fat.Cluster.Chain.{has, IsChain}
use fat.Cluster.View.{table}
use fat.Cluster.Follow.{Follows}

has-take : (e n : ℕ) (xs : List ℕ) → has e xs ≡ false → has e (take n xs) ≡ false
has-take e zero xs h = refl
has-take e (suc n) [] h = refl
has-take e (suc n) (x ∷ xs) h = ground (arith, has-take e n xs)

pub has-drop : (e n : ℕ) (xs : List ℕ) → has e xs ≡ false → has e (drop n xs) ≡ false
has-drop e zero xs h = h
has-drop e (suc n) [] h = refl
has-drop e (suc n) (x ∷ xs) h = has-drop e n xs (ground arith)

pub drop-get_or :
    (m : ℕ) (xs : List ℕ) → m < length xs → drop m xs ≡ get_or xs m 0 ∷ drop (suc m) xs
drop-get_or m [] h = absurd (omega arith)
drop-get_or zero (x ∷ xs) h = refl
drop-get_or (suc m) (x ∷ xs) h = drop-get_or m xs (omega arith)

-- A chain that is cut behind its cluster number `m`.
pub IsChain-take :
    (fsi : Info) (f g : ℕ → ℕ) (c m : ℕ) (xs : List ℕ)
    → IsChain fsi f c xs
    → m < length xs
    → cluster_eoc_min ≤ g (get_or xs m 0)
    → ((e : ℕ) → InRange fsi e → has e (drop m xs) ≡ false → g e ≡ f e)
    → IsChain fsi g c (take (suc m) xs)
IsChain-take fsi f g c m [] h lt end same = absurd (omega arith)
IsChain-take fsi f g c zero (x ∷ xs) (at, r, out, rest) lt end same = (at, r, refl, end)
IsChain-take fsi f g c (suc m) (x ∷ xs) (at, r, out, rest) lt end same = (
  at,
  r,
  has-take x (suc m) xs out,
  rw (same x r (has-drop x m xs out)) (IsChain-take fsi f g (f x) m xs rest (omega arith) end same),
)

module _ {D : Type 0} (io : BlockIo D) (fsi : Info) where
  pub in_chain :
      (f : ℕ → ℕ) (c m : ℕ) (xs : List ℕ) → IsChain fsi f c xs → m < length xs → InRange fsi c
  in_chain f c m [] h lt = absurd (omega arith)
  in_chain f c m (x ∷ xs) (at, r, out, rest) lt = rw at r

  -- The links lead along the chain.
  pub IsChain-Follows :
      (v : Volume D) (c m : ℕ) (xs : List ℕ)
      → IsChain fsi (table io fsi v) c xs
      → m < length xs
      → Follows io fsi v m c (get_or xs m 0)
        × IsChain fsi (table io fsi v) (get_or xs m 0) (get_or xs m 0 ∷ drop (suc m) xs)
  IsChain-Follows v c m [] h lt = absurd (omega arith)
  IsChain-Follows v c zero (x ∷ xs) (at, r, out, rest) lt = (at, (refl, r, out, rest))
  IsChain-Follows v c (suc m) (x ∷ xs) (at, r, out, rest) lt =
      let deep = IsChain-Follows v (table io fsi v x) m xs rest (omega arith) in
      rw at (
        ((r, in_chain (table io fsi v) (table io fsi v x) m xs rest (omega arith)), deep.0),
        deep.1,
      )

  -- Links before cluster number `m` are kept.
  pub Follows-kept :
      (v v' : Volume D) (c b n m : ℕ) (xs : List ℕ)
      → IsChain fsi (table io fsi v) c xs
      → m < length xs
      → n ≤ m
      → ((e : ℕ) → InRange fsi e → has e (drop m xs) ≡ false → table io fsi v' e ≡ table io fsi v e)
      → Follows io fsi v n c b
      → Follows io fsi v' n c b
  Follows-kept v v' c b zero m xs h lt le same f = f
  Follows-kept v v' c b (suc n) m [] h lt le same f = absurd (omega arith)
  Follows-kept v v' c b (suc n) zero (x ∷ xs) h lt le same f = absurd (omega arith)
  Follows-kept v v' c b (suc n) (suc m) (x ∷ xs) (at, r, out, rest) lt le same ((rc, rn), f) =
      let here : table io fsi v' c ≡ table io fsi v c = rw at (same x r (has-drop x m xs out)) in
      rw here (
        (rc, rn),
        Follows-kept v v' (table io fsi v c) b n m xs (rw at rest) (omega arith) (omega arith) same
            f,
      )
