-- ===== src/Mount/Settings.antt =====
-- What the mount options of fat32_mount mean, setting by setting.
use fat.Shared.{
  inl, inr, ℕ, ◌-◌, ◌%◌, ◌^◌, ◌≡◌, ◌≢◌, refl, ap, ◌∙◌, ℤ, pos, negsuc, none, some, List, [], ◌∷◌,
  ◌++◌, map, ltb, ==_false, ==_true, Option-cases, if◌then◌else◌, All, arith,
}
use native.Mathlib.Decide.{ℕ_discrete}
use fat.Fat.{Ret, ok, err, stuck, einval}
use fat.Mount.Options.{
  MountOptions, defaults, after_prefix, to_id, to_partition, part_prefix, uid_prefix, gid_prefix,
  bind, apply_option, parse_options, apply_all, IsOption, join, parse_options-join,
}

-- One setting, with the text of its value, or any other text.
pub data Setting : Type 0 where
  part : List ℕ → Setting
  uid : List ℕ → Setting
  gid : List ℕ → Setting
  other : List ℕ → Setting

abbrev pub text : Setting → List ℕ
text (part n) = b'p' ∷ b'a' ∷ b'r' ∷ b't' ∷ b'=' ∷ n
text (uid n) = b'u' ∷ b'i' ∷ b'd' ∷ b'=' ∷ n
text (gid n) = b'g' ∷ b'i' ∷ b'd' ∷ b'=' ∷ n
text (other cs) = cs

-- The value has no comma and no NUL in it; another text is not one of the three settings.
abbrev pub IsSetting : Setting → Type 0
IsSetting (part n) = IsOption n
IsSetting (uid n) = IsOption n
IsSetting (gid n) = IsOption n
IsSetting (other cs) =
    IsOption cs × ((n : List ℕ) → (cs ≢ text (part n)) × (cs ≢ text (uid n)) × (cs ≢ text (gid n)))

-- An int as 32 bits.
abbrev pub bits : ℤ → ℕ
bits (pos n) = n % 2 ^ 32
bits (negsuc n) = 2 ^ 32 - 1 - n

-- A partition is 0 to 3.
abbrev pub chosen : ℤ → MountOptions → Ret MountOptions
chosen (pos n) o = if ltb 3 n then err einval else ok (record o { partition_num = some n })
chosen (negsuc n) o = err einval

abbrev pub effect : (List ℕ → ℤ) → Setting → MountOptions → Ret MountOptions
effect atoi (part n) o = chosen (atoi n) o
effect atoi (uid n) o =
    ok (record o { owner = record { fsi_uid = bits (atoi n); fsi_gid = o.owner.fsi_gid } })
effect atoi (gid n) o =
    ok (record o { owner = record { fsi_uid = o.owner.fsi_uid; fsi_gid = bits (atoi n) } })
effect atoi (other cs) o = ok o

abbrev pub all_effects : (List ℕ → ℤ) → List Setting → MountOptions → Ret MountOptions
all_effects atoi [] o = ok o
all_effects atoi (s ∷ ss) o = elim (effect atoi s o) [
  | ok o' ↦ all_effects atoi ss o'
  | err e ↦ err e
  | stuck ↦ stuck
]

-- The text of a list of settings.
abbrev pub written : List Setting → List ℕ
written ss = join (map text ss)

after_prefix-eq : (ps cs n : List ℕ) → after_prefix ps cs ≡ some n → cs ≡ ps ++ n
unfolding after_prefix
after_prefix-eq [] cs n h = ground arith
after_prefix-eq (p ∷ ps) [] n h = absurd (ground arith)
after_prefix-eq (p ∷ ps) (c ∷ cs) n h = elim (ℕ_discrete c p) [
  | yes e ↦ let rest = after_prefix-eq ps cs n (rw (==_true e) at h) in rw (e, rest) refl
  | no ne ↦ absurd (let q = rw (==_false ne) at h in ground arith)
]

not_prefix : (ps cs : List ℕ) → ((n : List ℕ) → cs ≢ ps ++ n) → after_prefix ps cs ≡ none
not_prefix ps cs h = elim (Option-cases (after_prefix ps cs)) [
  | inl e ↦ e
  | inr (n, e) ↦ absurd (h n (after_prefix-eq ps cs n e))
]

chosen_lem : (z : ℤ) (o : MountOptions) → to_partition z o ≡ chosen z o
chosen_lem (pos n) o = refl
chosen_lem (negsuc n) o = refl

bits_lem : (z : ℤ) → to_id z ≡ bits z
bits_lem (pos n) = refl
bits_lem (negsuc n) = refl

module _ (atoi : List ℕ → ℤ) where
  passed_over :
      (cs : List ℕ) (o : MountOptions)
      → after_prefix part_prefix cs ≡ none
      → after_prefix uid_prefix cs ≡ none
      → after_prefix gid_prefix cs ≡ none
      → apply_option atoi cs o ≡ ok o
  unfolding apply_option
  passed_over cs o p u g = rw (p, u, g) refl

  apply_option-effect :
      (s : Setting) (o : MountOptions)
      → IsSetting s
      → apply_option atoi (text s) o ≡ effect atoi s o
  unfolding apply_option after_prefix
  apply_option-effect (part n) o h = chosen_lem (atoi n) o
  apply_option-effect (uid n) o h = rw (bits_lem (atoi n)) refl
  apply_option-effect (gid n) o h = rw (bits_lem (atoi n)) refl
  apply_option-effect (other cs) o (h, differs) =
      passed_over cs o (not_prefix part_prefix cs (λ n. (differs n).0))
        (not_prefix uid_prefix cs (λ n. (differs n).1))
        (not_prefix gid_prefix cs (λ n. (differs n).2))

  onward :
      (ss : List Setting) (r : Ret MountOptions)
      → ((o : MountOptions) → apply_all atoi (map text ss) o ≡ all_effects atoi ss o)
      → bind r (apply_all atoi (map text ss))
        ≡ elim r [ ok o' ↦ all_effects atoi ss o' | err e ↦ err e | stuck ↦ stuck ]
  onward ss (ok o) h = h o
  onward ss (err e) h = refl
  onward ss stuck h = refl

  apply_all-all_effects :
      (ss : List Setting) (o : MountOptions)
      → All IsSetting ss
      → apply_all atoi (map text ss) o ≡ all_effects atoi ss o
  apply_all-all_effects [] o h = refl
  apply_all-all_effects (s ∷ ss) o (h, hs) =
      ap (λ r. bind r (apply_all atoi (map text ss))) (apply_option-effect s o h)
      ∙ onward ss (effect atoi s o) (λ o'. apply_all-all_effects ss o' hs)

text-IsOption : (s : Setting) → IsSetting s → IsOption (text s)
text-IsOption (part n) h = (
  (omega arith, omega arith),
  (
    (omega arith, omega arith),
    ((omega arith, omega arith), ((omega arith, omega arith), ((omega arith, omega arith), h))),
  ),
)
text-IsOption (uid n) h = (
  (omega arith, omega arith),
  ((omega arith, omega arith), ((omega arith, omega arith), ((omega arith, omega arith), h))),
)
text-IsOption (gid n) h = (
  (omega arith, omega arith),
  ((omega arith, omega arith), ((omega arith, omega arith), ((omega arith, omega arith), h))),
)
text-IsOption (other cs) h = h.0

texts-IsOption : (ss : List Setting) → All IsSetting ss → All IsOption (map text ss)
texts-IsOption [] h = tt
texts-IsOption (s ∷ ss) (h, hs) = (text-IsOption s h, texts-IsOption ss hs)

-- The text of any settings, joined by commas, whose values have no comma and no NUL, is read to its end,
-- and each setting has its effect, in order, up to the first that is refused: `part=` chooses the
-- partition if atoi makes 0 to 3 of its value, and is refused with EINVAL otherwise; `uid=` sets the owner
-- and `gid=` the group to the 32 bits that atoi makes; and any other text is passed over. Without a
-- setting there is no partition chosen, and owner and group are 0.
pub parse_options-written :
    (atoi : List ℕ → ℤ) (ss : List Setting)
    → All IsSetting ss
    → parse_options atoi (written ss)
      ≡ all_effects atoi ss
          (record { partition_num = none; owner = record { fsi_uid = 0; fsi_gid = 0 } })
parse_options-written atoi ss h =
    parse_options-join atoi (map text ss) (texts-IsOption ss h)
    ∙ apply_all-all_effects atoi ss defaults h
