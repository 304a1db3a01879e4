-- ===== src/Dir/Scan.antt =====
-- The scan of fat32_alloc_fdentry hands out no entry that is in use.
use fat.Shared.{
  ℕ, zero, suc, ◌+◌, ◌*◌, ◌^◌, ◌≤◌, ◌<◌, ◌≡◌, ap, ◌∙◌, inl, inr, arith, true, ◌==◌, if◌then◌else◌,
  u32, Bool-cases, ==_true, ==_false,
}
use native.Mathlib.Decide.{ℕ_discrete, dec_lt}
use fat.Bytes.{Bytes}
use fat.Dir.Alloc.{Scan, enough, marked, scanned, scan_entries}

-- `d` gives the first byte of the entry at each offset of the directory. A run of `free` deleted entries
-- ends at `cur` and begins at `start`.
abbrev pub IsRun : Bytes → ℕ → ℕ → ℕ → Type 0
IsRun d cur free start =
    (0 < free → start + free * 32 ≡ cur) × ((j : ℕ) → j < free → d (start + j * 32) ≡ 0xe5)

-- What an answer of the scan up to `cur` means.
abbrev pub Means : Bytes → ℕ → ℕ → Scan → Type 0
Means d num_entries cur (enough at) = (j : ℕ) → j < num_entries → d (at + j * 32) ≡ 0xe5
Means d num_entries cur (marked at) =
    (n : ℕ) × (d (at + n * 32) ≡ 0) × ((j : ℕ) → j < n → d (at + j * 32) ≡ 0xe5)
Means d num_entries cur (scanned free at) = IsRun d cur free at

is_equal : (a b : ℕ) → (a == b) ≡ true → a ≡ b
is_equal a b h = ground arith

module _ (bytes d : Bytes) (num_entries base : ℕ) where
  -- Where the run begins that the entry at `off` belongs to.
  abbrev begins : ℕ → ℕ → ℕ → ℕ
  begins off free start = if free == 0 then u32 (base + off) else start

  begins-IsRun :
      (off free start : ℕ)
      → base + off < 2 ^ 32
      → IsRun d (base + off) free start
      → (begins off free start + free * 32 ≡ base + off)
        × ((j : ℕ) → j < free → d (begins off free start + j * 32) ≡ 0xe5)
  begins-IsRun off free start small (ends, all) = elim (ℕ_discrete free 0) [
    | yes z ↦ rw z (omega arith, λ j lt. absurd (omega arith))
    | no nz ↦ rw (==_false nz) (ends (omega arith), all)
  ]

  longer :
      (off free s : ℕ)
      → s + free * 32 ≡ base + off
      → ((j : ℕ) → j < free → d (s + j * 32) ≡ 0xe5)
      → d (base + off) ≡ 0xe5
      → (j : ℕ) → j < free + 1
      → d (s + j * 32) ≡ 0xe5
  longer off free s ends all here j lt = elim (dec_lt j free) [
    | yes low ↦ all j low
    | no high ↦ let e : s + j * 32 ≡ base + off = omega arith in ap d e ∙ here
  ]

  -- Scanning the entries of a cluster, after a run of deleted entries that may reach into it: a run
  -- that is handed out has as many deleted entries as were asked for, the place of an end mark has
  -- only deleted entries before it, and at the end of the cluster what is carried on is a run of
  -- deleted entries; for offsets below 2 ^ 32.
  pub scan_entries-Means :
      (left off free start : ℕ)
      → IsRun d (base + off) free start
      → ((o : ℕ) → off ≤ o → o < off + left * 32 → d (base + o) ≡ bytes o)
      → base + off + left * 32 < 2 ^ 32
      → Means d num_entries
          (base + off + left * 32)
          (scan_entries bytes num_entries base left off free start)
  unfolding scan_entries
  scan_entries-Means zero off free start run same small = (λ p. omega (arith, run.0 p), run.1)
  scan_entries-Means (suc left) off free start run same small =
      let s = begins off free start in
      let b = begins-IsRun off free start (omega arith) run in
      let here = same off (omega arith) (omega arith) in
      let next : base + off + suc left * 32 ≡ base + (off + 32) + left * 32 = omega arith in
      elim (Bool-cases (bytes off == 0)) [
        | inl z ↦ rw z (free, ap d b.0 ∙ here ∙ is_equal _ _ z, b.1)
        | inr nz ↦ rw nz (elim (Bool-cases (bytes off == 0xe5)) [
          | inl del ↦ rw del (elim (ℕ_discrete (free + 1) num_entries) [
            | yes full ↦
                rw (==_true full)
                  (λ j lt. longer off free s b.0 b.1 (here ∙ is_equal _ _ del) j (omega arith))
            | no more ↦
                rw (==_false more, next)
                  (scan_entries-Means left (off + 32) (free + 1) s
                    ((λ p. omega (arith, b.0)), longer off free s b.0 b.1 (here ∙ is_equal _ _ del))
                    (λ o lo hi. same o (omega arith) (omega arith)) (omega arith))
          ])
          | inr used ↦
              rw (used, next)
                (scan_entries-Means left (off + 32) 0 start
                  ((λ p. absurd (omega arith)), λ j lt. absurd (omega arith))
                  (λ o lo hi. same o (omega arith) (omega arith)) (omega arith))
        ])
      ]
