-- ===== src/File/Content.antt =====
-- What a file holds: the byte at each offset below its size, found through the chain.
use fat.Shared.{
  ℕ, zero, suc, ◌+◌, ◌*◌, ◌^◌, ◌≤◌, ◌<◌, ◌≡◌, refl, ap, List, [], ◌∷◌, ◌++◌, arith, pos,
}
use fat.Bytes.{Bytes}
use fat.Device.{BlockIo}
use fat.Fat.{Info}
use fat.Fat.Entry.{InRange}
use fat.Cluster.{read_cluster}
use fat.Cluster.Follow.{Follows}
use fat.Vnode.Cache.{Open}
use fat.File.{UserIo}

-- The n values of `f` from `p` on.
abbrev pub slice : (ℕ → ℕ) → ℕ → ℕ → List ℕ
slice f p zero = []
slice f p (suc n) = f p ∷ slice f (p + 1) n

-- The bytes of a cluster.
abbrev pub unit : Info → ℕ
unit fsi = 2 ^ fsi.cluster_shift

module _ {D : Type 0} (io : BlockIo D) (fsi : Info) where
  -- The file of the node holds `f`: a chain reaches all of its size, and byte `o` of the cluster
  -- at index `k` is the byte at offset k * unit + o.
  pub record IsFile (s : Open D) (f : ℕ → ℕ) : Type 0 where
    pub reach :
        (k : ℕ)
        → k * unit fsi < s.fv.fv_size
        → (c : ℕ) × Follows io fsi s.vol k s.fv.fv_cluster c × InRange fsi c
    pub holds :
        (k o c : ℕ)
        → o < unit fsi
        → k * unit fsi + o < s.fv.fv_size
        → Follows io fsi s.vol k s.fv.fv_cluster c
        → (read_cluster io fsi s.vol.disk c).bytes o ≡ f (k * unit fsi + o)

-- What uiomove promises: where it moves n bytes without an error, no more than are asked for, the
-- request advances by n, and the user has the n bytes of the buffer. `got` is what the user has.
pub record IsUserIo {U : Type 0} (user : UserIo U) (got : U → List ℕ) : Type 0 where
  pub resid :
      (b : Bytes) (p n : ℕ) (u : U)
      → n ≤ user.uio_resid u
      → (user.to_user b p n u).0 ≡ 0
      → user.uio_resid (user.to_user b p n u).1 + n ≡ user.uio_resid u
  pub offset :
      (b : Bytes) (p n : ℕ) (u : U) (m : ℕ)
      → n ≤ user.uio_resid u
      → (user.to_user b p n u).0 ≡ 0
      → user.uio_offset u ≡ pos m
      → user.uio_offset (user.to_user b p n u).1 ≡ pos (m + n)
  pub bytes :
      (b : Bytes) (p n : ℕ) (u : U)
      → n ≤ user.uio_resid u
      → (user.to_user b p n u).0 ≡ 0
      → got (user.to_user b p n u).1 ≡ got u ++ slice b p n

pub slice-append : (f : ℕ → ℕ) (p m n : ℕ) → slice f p (m + n) ≡ slice f p m ++ slice f (p + m) n
slice-append f p zero n =
    let e : 0 + n ≡ n = omega arith in let e' : p + 0 ≡ p = omega arith in rw (e, e') refl
slice-append f p (suc m) n =
    let e : suc m + n ≡ suc (m + n) = omega arith in
    let e' : p + suc m ≡ p + 1 + m = omega arith in
    rw (e, e') (ap (λ (xs : List ℕ). f p ∷ xs) (slice-append f (p + 1) m n))

pub slice-cong :
    (f g : ℕ → ℕ) (p q n : ℕ)
    → ((i : ℕ) → i < n → f (p + i) ≡ g (q + i))
    → slice f p n ≡ slice g q n
slice-cong f g p q zero h = refl
slice-cong f g p q (suc n) h =
    let first : f p ≡ g q =
      rw ((let e : p + 0 ≡ p = omega arith in e), (let e : q + 0 ≡ q = omega arith in e)) at
        (h 0 (omega arith)) in
    rw
      (
        first,
        slice-cong f g (p + 1) (q + 1) n λ i lt.
            let a : p + 1 + i ≡ p + suc i = omega arith in
            let b : q + 1 + i ≡ q + suc i = omega arith in rw (a, b) (h (suc i) (omega arith)),
      )
      refl
