-- ===== src/ShortName/Generated.antt =====
-- Generated names differ within a directory, and are short names.
use fat.Shared.{
  ℕ, zero, suc, ◌+◌, ◌-◌, ◌/◌, ◌^◌, ◌<◌, ◌≡◌, refl, ap, ◌∙◌, sym, Bool, true, ◌&&◌, arith, List,
  ◌==◌, get_or, bit_xor, ==_iff, ltb, if◌then◌else◌, ltb→lt,
}
use fat.ShortName.{hex_digits, nibble, generate_short_name, result_nibbles}

-- Checks by evaluation of all pairs of nibbles.
unfoldable pub all_below : ℕ → (ℕ → Bool) → Bool
all_below zero p = true
all_below (suc n) p = p n && all_below n p

pub all_below-at : (n : ℕ) (p : ℕ → Bool) (x : ℕ) → all_below n p ≡ true → x < n → p x ≡ true
unfolding all_below
all_below-at zero p x h lt = absurd (omega arith)
all_below-at (suc n) p x h lt = ground (arith, all_below-at n p x)

-- A hexadecimal digit shows its nibble, and a second exclusive or takes the first back.
hex_value : ℕ → ℕ
hex_value c = if ltb c b'A' then c - b'0' else c - b'A' + 10

hex_table : all_below 16 (λ n. hex_value (get_or hex_digits n 0) == n) ≡ true
unfolding all_below hex_value
hex_table = refl

xor_table : all_below 16 (λ a. all_below 16 (λ b. bit_xor a (bit_xor a b) == b)) ≡ true
unfolding all_below
xor_table = refl

hex_inj : (a b : ℕ) → a < 16 → b < 16 → get_or hex_digits a 0 ≡ get_or hex_digits b 0 → a ≡ b
hex_inj a b ha hb e = sym (at a ha) ∙ ap hex_value e ∙ at b hb
  where
    at : (n : ℕ) → n < 16 → hex_value (get_or hex_digits n 0) ≡ n
    at n h =
        (==_iff _ n).0 (all_below-at 16 (λ n. hex_value (get_or hex_digits n 0) == n) n hex_table h)

xor_self : (a b : ℕ) → a < 16 → b < 16 → bit_xor a (bit_xor a b) ≡ b
xor_self a b ha hb = (==_iff _ b).0 (
    all_below-at 16 (λ b. bit_xor a (bit_xor a b) == b) b
      (all_below-at 16 (λ a. all_below 16 (λ b. bit_xor a (bit_xor a b) == b)) a xor_table ha) hb)

xor_bound_table : all_below 16 (λ a. all_below 16 (λ b. ltb (bit_xor a b) 16)) ≡ true
unfolding all_below
xor_bound_table = refl

xor_bound : (a b : ℕ) → a < 16 → b < 16 → bit_xor a b < 16
xor_bound a b ha hb = ltb→lt _ _ (
    all_below-at 16 (λ b. ltb (bit_xor a b) 16) b
      (all_below-at 16 (λ a. all_below 16 (λ b. ltb (bit_xor a b) 16)) a xor_bound_table ha) hb)

nibble-lt : (x j : ℕ) → nibble x j < 16
nibble-lt x j = omega arith

-- Equal digits at the places of the overlap show equal nibbles of the slot.
overlap_inj :
    (a b b' : ℕ)
    → a < 16
    → b < 16
    → b' < 16
    → get_or hex_digits (bit_xor a b) 0 ≡ get_or hex_digits (bit_xor a b') 0
    → b ≡ b'
overlap_inj a b b' ha hb hb' e =
    sym (xor_self a b ha hb)
    ∙ ap (bit_xor a) (hex_inj _ _ (xor_bound a b ha hb) (xor_bound a b' ha hb') e)
    ∙ xor_self a b' ha hb'

-- Two entries of one directory, at different slots, never get the same generated name.
pub generate_short_name_inj :
    (cluster offset offset' : ℕ)
    → offset < 2 ^ 32
    → offset' < 2 ^ 32
    → generate_short_name cluster offset ≡ generate_short_name cluster offset'
    → offset / 32 ≡ offset' / 32
unfolding generate_short_name result_nibbles
generate_short_name_inj c o o' ho ho' e = omega (
  arith,
  overlap_inj (nibble c 4) (nibble s 0) (nibble s' 0) (omega arith) (omega arith) (omega arith)
      (at 4),
  overlap_inj (nibble c 5) (nibble s 1) (nibble s' 1) (omega arith) (omega arith) (omega arith)
      (at 5),
  overlap_inj (nibble c 6) (nibble s 2) (nibble s' 2) (omega arith) (omega arith) (omega arith)
      (at 6),
  hex_inj (nibble s 3) (nibble s' 3) (omega arith) (omega arith) (at 7),
  hex_inj (nibble s 4) (nibble s' 4) (omega arith) (omega arith) (at 8),
  hex_inj (nibble s 5) (nibble s' 5) (omega arith) (omega arith) (at 9),
  hex_inj (nibble s 6) (nibble s' 6) (omega arith) (omega arith) (at 10),
)
  where
    s : ℕ
    s = o / 32

    s' : ℕ
    s' = o' / 32

    at : (i : ℕ) → get_or (generate_short_name c o) i 0 ≡ get_or (generate_short_name c o') i 0
    at i = ap (λ (l : List ℕ). get_or l i 0) e
