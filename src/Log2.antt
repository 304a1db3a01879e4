-- ===== src/Log2.antt =====
-- fat32_log2 of fat32_util.c.
use fat.Shared.{
  ℕ, zero, suc, ◌+◌, ◌*◌, ◌/◌, ◌^◌, ◌≤◌, ◌<◌, ◌≡◌, arith, Option, none, some, ltb, if◌then◌else◌,
  u32, ◌>>>◌, lt→ltb, ◌∙◌, ap,
}
use fat.Shared.Bits.{pow_pos}
use native.Mathlib.Nat.{pow-succ'}

-- The loop, on fuel.
unfoldable pub log2_loop : ℕ → ℕ → ℕ → Option ℕ
log2_loop zero n bit = none
log2_loop (suc fuel) n bit =
    let rest = log2_loop fuel (n >>> 1) (u32 (bit + 1)) in if ltb 1 n then rest else some bit

-- fat32_log2; a uint32_t is halved 31 times at most.
unfoldable pub log2 : ℕ → Option ℕ
unfolding log2_loop
log2 n = log2_loop 32 n 0

loop-floor :
    (fuel n bit k : ℕ)
    → bit + fuel < 2 ^ 32
    → k < fuel
    → 2 ^ k ≤ n
    → n < 2 ^ suc k
    → log2_loop fuel n bit ≡ some (bit + k)
unfolding log2_loop
loop-floor zero n bit k b h lo hi = absurd (omega arith)
loop-floor (suc fuel) n bit zero b h lo hi = ground arith
loop-floor (suc fuel) n bit (suc k) b h lo hi =
    rw (lt→ltb 1 n (omega (arith, double, pow_pos k)), no_wrap)
      (loop-floor fuel (n / 2) (bit + 1) k (omega arith) (omega arith) (omega (arith, double))
          (omega (arith, double, double_next))
        ∙ ap some (omega arith))
  where
    double : 2 ^ suc k ≡ 2 * 2 ^ k
    double = pow-succ' 2 k

    double_next : 2 ^ suc (suc k) ≡ 2 * 2 ^ suc k
    double_next = pow-succ' 2 (suc k)

    no_wrap : u32 (bit + 1) ≡ bit + 1
    no_wrap = omega arith

-- For a uint32_t from 2 ^ k to below 2 ^ (k + 1) the loop ends, with k: the rounded-down binary
-- logarithm, and on a power of two its exponent.
pub log2_lem : (n k : ℕ) → n < 2 ^ 32 → k < 32 → 2 ^ k ≤ n → n < 2 ^ suc k → log2 n ≡ some k
unfolding log2
log2_lem n k bound h lo hi = loop-floor 32 n 0 k (omega arith) h lo hi ∙ ap some (omega arith)
