-- ===== src/Mount/Options.antt =====
-- The mount options, a text such as "part=1,uid=100,gid=20", as fat32_mount of fat32_vfs.c takes it
-- apart. atoi is a parameter.
use fat.Shared.{
  ℕ, zero, suc, ◌-◌, ◌^◌, ◌≤◌, ◌<◌, ◌≡◌, inl, inr, refl, sym, fun_ext, ap, ◌≢◌, ◌∙◌, ℤ, pos, negsuc,
  Option, none, some, List, [], ◌∷◌, ◌++◌, ◌==◌, ltb, if◌then◌else◌, u32, length, length-append,
  arith, ==_false, ==_true, All, Option-cases,
}
use native.Mathlib.Decide.{ℕ_discrete}
use fat.Fat.{Ret, ok, err, stuck, einval}
use fat.Vnode.{Owner}

pub record MountOptions : Type 0 where
  pub partition_num : Option ℕ
  pub owner : Owner

abbrev pub defaults : MountOptions
defaults = record { partition_num = none; owner = record { fsi_uid = 0; fsi_gid = 0 } }

-- `strncmp (opt, prefix, n) == 0`, with opt + n.
unfoldable pub after_prefix : List ℕ → List ℕ → Option (List ℕ)
after_prefix [] cs = some cs
after_prefix (p ∷ ps) [] = none
after_prefix (p ∷ ps) (c ∷ cs) = if c == p then after_prefix ps cs else none

-- A cast of an int to uid_t and gid_t, as its bits.
abbrev pub to_id : ℤ → ℕ
to_id (pos n) = u32 n
to_id (negsuc n) = 2 ^ 32 - 1 - n

abbrev pub to_partition : ℤ → MountOptions → Ret MountOptions
to_partition (pos n) o = if ltb 3 n then err einval else ok (record o { partition_num = some n })
to_partition (negsuc n) o = err einval

abbrev pub part_prefix : List ℕ
part_prefix = b'p' ∷ b'a' ∷ b'r' ∷ b't' ∷ b'=' ∷ []

abbrev pub uid_prefix : List ℕ
uid_prefix = b'u' ∷ b'i' ∷ b'd' ∷ b'=' ∷ []

abbrev pub gid_prefix : List ℕ
gid_prefix = b'g' ∷ b'i' ∷ b'd' ∷ b'=' ∷ []

abbrev pub comma : ℕ
comma = b','

-- `if (...) return error` inside the loop.
abbrev pub bind : Ret MountOptions → (MountOptions → Ret MountOptions) → Ret MountOptions
bind (ok o) f = f o
bind (err e) f = err e
bind stuck f = stuck

-- opt from `p` to the next comma, and where `p` goes: behind the comma, or to the terminator.
unfoldable pub split_option : List ℕ → List ℕ × List ℕ
split_option [] = ([], [])
split_option (c ∷ cs) =
    let rest = split_option cs in
    if c == 0 then ([], c ∷ cs) else if c == comma then ([], cs) else (c ∷ rest.0, rest.1)

module _ (atoi : List ℕ → ℤ) where
  -- One option. Any other text than these three is passed over, the empty one too.
  unfoldable pub apply_option : List ℕ → MountOptions → Ret MountOptions
  unfolding after_prefix
  apply_option opt o = elim (after_prefix part_prefix opt) [
    | some n ↦ to_partition (atoi n) o
    | none ↦ elim (after_prefix uid_prefix opt) [
      | some n ↦ ok (record o { owner = record o.owner { fsi_uid = to_id (atoi n) } })
      | none ↦ elim (after_prefix gid_prefix opt) [
        | some n ↦ ok (record o { owner = record o.owner { fsi_gid = to_id (atoi n) } })
        | none ↦ ok o
      ]
    ]
  ]

  -- The loop, on fuel; it ends at the end of the text.
  unfoldable pub options_loop : ℕ → List ℕ → MountOptions → Ret MountOptions
  options_loop zero p o = stuck
  options_loop (suc fuel) [] o = ok o
  options_loop (suc fuel) (c ∷ cs) o =
      let parts = split_option (c ∷ cs) in
      let go = bind (apply_option parts.0 o) (options_loop fuel parts.1) in
      if c == 0 then ok o else go

  -- Each round passes at least one character, so that this fuel is enough.
  unfoldable pub parse_options : List ℕ → Ret MountOptions
  unfolding split_option apply_option options_loop
  parse_options opts = options_loop (suc (length opts)) opts defaults

  -- The options of a list, one after the other, up to the first that is refused.
  abbrev pub apply_all : List (List ℕ) → MountOptions → Ret MountOptions
  apply_all [] o = ok o
  apply_all (opt ∷ opts) o = bind (apply_option opt o) (apply_all opts)

-- A text with no comma and no terminator in it.
abbrev pub IsOption : List ℕ → Type 0
IsOption opt = All (λ c. (c ≢ 0) × (c ≢ comma)) opt

-- The texts joined by commas.
abbrev pub join : List (List ℕ) → List ℕ
join [] = []
join (opt ∷ []) = opt
join (opt ∷ next ∷ opts) = opt ++ (comma ∷ join (next ∷ opts))

split-comma :
    (opt rest : List ℕ) → IsOption opt → split_option (opt ++ (comma ∷ rest)) ≡ (opt, rest)
unfolding split_option
split-comma [] rest h = refl
split-comma (c ∷ cs) rest ((nz, nc), h) = rw (==_false nz, ==_false nc, split-comma cs rest h) refl

split-shorter : (p : List ℕ) → length (split_option p).1 ≤ length p
unfolding split_option
split-shorter [] = omega arith
split-shorter (c ∷ cs) = ground (arith, split-shorter cs)

split-last : (opt : List ℕ) → IsOption opt → split_option opt ≡ (opt, [])
unfolding split_option
split-last [] h = refl
split-last (c ∷ cs) ((nz, nc), h) = rw (==_false nz, ==_false nc, split-last cs h) refl

module _ (atoi : List ℕ → ℤ) where
  loop-comma :
      (fuel : ℕ) (opt rest : List ℕ) (o : MountOptions)
      → IsOption opt
      → options_loop atoi (suc fuel) (opt ++ (comma ∷ rest)) o
        ≡ bind (apply_option atoi opt o) (options_loop atoi fuel rest)
  unfolding options_loop split_option
  loop-comma fuel [] rest o h = refl
  loop-comma fuel (c ∷ cs) rest o ((nz, nc), h) =
      rw (==_false nz, ==_false nc, split-comma cs rest h) refl

  nothing_to_do : (o : MountOptions) → apply_all atoi ([] ∷ []) o ≡ ok o
  unfolding apply_option after_prefix
  nothing_to_do o = refl

  loop-last :
      (fuel : ℕ) (opt : List ℕ) (o : MountOptions)
      → IsOption opt
      → length opt ≤ fuel
      → options_loop atoi (suc fuel) opt o ≡ apply_all atoi (opt ∷ []) o
  unfolding options_loop split_option
  loop-last fuel [] o h b = sym (nothing_to_do o)
  loop-last zero (c ∷ cs) o h b = absurd (omega arith)
  loop-last (suc fuel) (c ∷ cs) o ((nz, nc), h) b =
      rw (==_false nz, ==_false nc, split-last cs h)
        (ap (bind (apply_option atoi (c ∷ cs) o)) (fun_ext λ o. refl))

  loop-join :
      (fuel : ℕ) (opts : List (List ℕ)) (o : MountOptions)
      → All IsOption opts
      → length (join opts) ≤ fuel
      → options_loop atoi (suc fuel) (join opts) o ≡ apply_all atoi opts o
  unfolding options_loop
  loop-join fuel [] o h b = refl
  loop-join fuel (opt ∷ []) o (h, _) b = loop-last fuel opt o h b
  loop-join zero (opt ∷ next ∷ opts) o h b =
      absurd (omega (arith, length-append {0} opt (comma ∷ join (next ∷ opts))))
  loop-join (suc fuel) (opt ∷ next ∷ opts) o (h, hs) b =
      loop-comma (suc fuel) opt (join (next ∷ opts)) o h
      ∙ ap (bind (apply_option atoi opt o)) (
          fun_ext λ o'.
            loop-join fuel (next ∷ opts) o' hs
              (omega (arith, length-append {0} opt (comma ∷ join (next ∷ opts)))))

  -- A text of options that are joined by commas is taken apart into just these.
  pub parse_options-join :
      (opts : List (List ℕ))
      → All IsOption opts
      → parse_options atoi (join opts) ≡ apply_all atoi opts defaults
  unfolding parse_options
  parse_options-join opts h = loop-join (length (join opts)) opts defaults h (omega arith)

  bind-ne-stuck :
      (r : Ret MountOptions) (f : MountOptions → Ret MountOptions)
      → r ≢ stuck
      → ((o : MountOptions) → f o ≢ stuck)
      → bind r f ≢ stuck
  bind-ne-stuck (ok o) f nr nf = nf o
  bind-ne-stuck (err e) f nr nf = λ q. cc
  bind-ne-stuck stuck f nr nf = λ q. nr refl

  to_partition-ne-stuck : (n : ℤ) (o : MountOptions) → to_partition n o ≢ stuck
  to_partition-ne-stuck (pos n) o = ground arith
  to_partition-ne-stuck (negsuc n) o = λ q. cc

  apply_option-ne-stuck : (opt : List ℕ) (o : MountOptions) → apply_option atoi opt o ≢ stuck
  unfolding apply_option
  apply_option-ne-stuck opt o = elim (Option-cases (after_prefix part_prefix opt)) [
    | inr (n, e) ↦ rw e (to_partition-ne-stuck (atoi n) o)
    | inl e ↦ rw e (elim (Option-cases (after_prefix uid_prefix opt)) [
      | inr (n, e') ↦ rw e' (λ q. cc)
      | inl e' ↦ rw e' (elim (Option-cases (after_prefix gid_prefix opt)) [
        | inr (n, e'') ↦ rw e'' (λ q. cc)
        | inl e'' ↦ rw e'' (λ q. cc)
      ])
    ])
  ]

  loop-ne-stuck :
      (fuel : ℕ) (p : List ℕ) (o : MountOptions)
      → length p < fuel
      → options_loop atoi fuel p o ≢ stuck
  unfolding options_loop split_option
  loop-ne-stuck zero p o h = absurd (omega arith)
  loop-ne-stuck (suc fuel) [] o h = λ q. cc
  loop-ne-stuck (suc fuel) (c ∷ cs) o h = elim (ℕ_discrete c 0) [
    | yes z ↦ rw (==_true z) (λ q. cc)
    | no nz ↦ rw (==_false nz) (elim (ℕ_discrete c comma) [
      | yes e ↦ rw (==_true e) (
          bind-ne-stuck (apply_option atoi [] o) _ (apply_option-ne-stuck [] o)
            λ o'. loop-ne-stuck fuel cs o' (omega arith))
      | no ne ↦ rw (==_false ne) (
          bind-ne-stuck (apply_option atoi (c ∷ (split_option cs).0) o) _
            (apply_option-ne-stuck (c ∷ (split_option cs).0) o)
            λ o'. loop-ne-stuck fuel (split_option cs).1 o' (omega (arith, split-shorter cs)))
    ])
  ]

  -- Any text of options is read to an end.
  pub parse_options-ne-stuck : (opts : List ℕ) → parse_options atoi opts ≢ stuck
  unfolding parse_options
  parse_options-ne-stuck opts = loop-ne-stuck (suc (length opts)) opts defaults (omega arith)
