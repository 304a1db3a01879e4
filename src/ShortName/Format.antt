-- ===== src/ShortName/Format.antt =====
-- A short name that is written into an entry is read back.
use mathlib.Core.List.{append-nil}
use fat.Shared.{
  ◌≢◌, ℕ, zero, suc, ◌+◌, ◌-◌, ◌≤◌, ◌<◌, ◌≡◌, ◌⊎◌, refl, ap, ◌∙◌, sym, inl, inr, Bool, true, false,
  not, ◌&&◌, arith, List, [], ◌∷◌, ◌++◌, ◌==◌, ltb, Option, none, some, if◌then◌else◌, get_or,
  length, All, update, Bool-cases, length-append, ==_iff, ==_false, ==_true,
}
use fat.Bytes.{Bytes}
use fat.ShortName.{
  dot, space, is_short_char, scan_short, lengths_fit, name_is_short, copy_at, before_dot, after_dot,
  format_short, until_space, read_short,
}

-- Neither a dot nor a space.
abbrev Plain : ℕ → Type 0
Plain c = ((c == dot) ≡ false) × ((c == space) ≡ false)

-- The bytes `xs` stand in the array from `i` on.
abbrev StandsAt : List ℕ → Bytes → ℕ → Type 0
StandsAt [] d i = Unit
StandsAt (x ∷ xs) d i = (d i ≡ x) × StandsAt xs d (i + 1)

copy_at-outside :
    (xs : List ℕ) (j : ℕ) (d : Bytes) (k : ℕ)
    → (k < j) ⊎ (j + length xs ≤ k)
    → copy_at xs j d k ≡ d k
unfolding copy_at
copy_at-outside [] j d k h = refl
copy_at-outside (x ∷ xs) j d k h =
    copy_at-outside xs (j + 1) (update d j x) k (omega arith)
    ∙ rw (==_false {a = k} {b = j} (omega arith))

copy_at-StandsAt : (xs : List ℕ) (j : ℕ) (d : Bytes) → StandsAt xs (copy_at xs j d) j
unfolding copy_at
copy_at-StandsAt [] j d = tt
copy_at-StandsAt (x ∷ xs) j d = (
  copy_at-outside xs (j + 1) (update d j x) j (inl (omega arith))
      ∙ rw (==_true {a = j} {b = j} refl),
  copy_at-StandsAt xs (j + 1) (update d j x),
)

StandsAt-frame :
    (xs : List ℕ) (d d' : Bytes) (i : ℕ)
    → ((k : ℕ) → i ≤ k → k < i + length xs → d' k ≡ d k)
    → StandsAt xs d i
    → StandsAt xs d' i
StandsAt-frame [] d d' i same h = tt
StandsAt-frame (x ∷ xs) d d' i same h = (
  same i (omega arith) (omega arith) ∙ h.0,
  StandsAt-frame xs d d' (i + 1) (λ k a b. same k (omega arith) (omega arith)) h.1,
)

-- Reading up to a space gives what stands there.
until_space-StandsAt :
    (xs : List ℕ) (left : ℕ) (d : Bytes) (i : ℕ)
    → StandsAt xs d i
    → All Plain xs
    → length xs ≤ left
    → (length xs < left → d (i + length xs) ≡ space)
    → until_space left d i ≡ xs
unfolding until_space
until_space-StandsAt [] zero d i at plain fits ends = refl
until_space-StandsAt [] (suc left) d i at plain fits ends = rw (rw zeroth at (ends (omega arith)))
  where
    zeroth : i + 0 ≡ i
    zeroth = omega arith
until_space-StandsAt (x ∷ xs) zero d i at plain fits ends = absurd (omega arith)
until_space-StandsAt (x ∷ xs) (suc left) d i at plain fits ends =
    rw (at.0, plain.0.1)
      (ap (λ (l : List ℕ). x ∷ l)
        (until_space-StandsAt xs left d (i + 1) at.1 plain.1 (omega arith)
          (λ h. rw next at (ends (omega arith)))))
  where
    next : i + suc (length xs) ≡ i + 1 + length xs
    next = omega arith

ordinary_byte :
    (c : ℕ) → (c == dot) ≡ false → (ltb c 128 && not (is_short_char c)) ≡ false → Plain c
ordinary_byte c d h = (
  d,
  elim (Bool-cases (c == space)) [ inl e ↦ absurd (not_space ((==_iff c space).0 e)) | inr e ↦ e ],
)
  where
    not_space : c ≡ space → ⊥
    not_space e = cc (not_short, rw e at h)
      where
        not_short : (ltb space 128 && not (is_short_char space)) ≡ true
        not_short = unfold is_short_char in refl

abbrev bad_char : ℕ → Bool
bad_char c = ltb c 128 && not (is_short_char c)

-- One round of a successful scan, behind a dot and before any.
scan_step :
    (c : ℕ) (cs : List ℕ) (i p : ℕ) (r : Option ℕ)
    → scan_short (c ∷ cs) i (some p) ≡ some r
    → ((c == dot) ≡ false) × (bad_char c ≡ false) × (scan_short cs (i + 1) (some p) ≡ some r)
unfolding scan_short
scan_step c cs i p r e = ground arith

scan_first :
    (c : ℕ) (cs : List ℕ) (i : ℕ) (r : Option ℕ)
    → scan_short (c ∷ cs) i none ≡ some r
    → (((c == dot) ≡ true) × (scan_short cs (i + 1) (some i) ≡ some r))
      ⊎ (((c == dot) ≡ false) × (bad_char c ≡ false) × (scan_short cs (i + 1) none ≡ some r))
unfolding scan_short
scan_first c cs i r e = ground arith

-- A scan that has met a dot meets no other.
scan_behind :
    (cs : List ℕ) (i p : ℕ) (r : Option ℕ)
    → scan_short cs i (some p) ≡ some r
    → (r ≡ some p) × All Plain cs
scan_behind [] i p r e = (unfold scan_short in cc, tt)
scan_behind (c ∷ cs) i p r e =
    let (d, ok_char, more) = scan_step c cs i p r e in
    let (same, plain) = scan_behind cs (i + 1) p r more in
    (same, (ordinary_byte c d ok_char, plain))

-- What a successful scan shows of the name: it has no dot, or one, at the place that is returned.
data Split (cs : List ℕ) (i : ℕ) (r : Option ℕ) : Type 0 where
  whole : r ≡ none → before_dot cs ≡ cs → after_dot cs ≡ [] → All Plain cs → Split cs i r
  parted :
      r ≡ some (i + length (before_dot cs))
      → cs ≡ before_dot cs ++ (dot ∷ after_dot cs)
      → All Plain (before_dot cs)
      → All Plain (after_dot cs)
      → Split cs i r

Split-dot :
    (c : ℕ) (cs : List ℕ) (i : ℕ) (r : Option ℕ)
    → (c == dot) ≡ true
    → r ≡ some i
    → All Plain cs
    → Split (c ∷ cs) i r
unfolding before_dot after_dot
Split-dot c cs i r d same plain =
    parted (rw d (same ∙ ap some (omega arith)))
      (rw d (ap (λ (x : ℕ). x ∷ cs) ((==_iff c dot).0 d))) (rw d tt) (rw d plain)

Split-cons :
    (c : ℕ) (cs : List ℕ) (i : ℕ) (r : Option ℕ) → Plain c → Split cs (i + 1) r → Split (c ∷ cs) i r
unfolding before_dot after_dot
Split-cons c cs i r p (whole e b a plain) = whole e (rw (p.0, b)) (rw (p.0, a)) (p, plain)
Split-cons c cs i r p (parted e cut b a) =
    parted (rw p.0 (e ∙ ap some (omega arith))) (rw p.0 (ap (λ (l : List ℕ). c ∷ l) cut))
      (rw p.0 (p, b)) (rw p.0 a)

scan-Split : (cs : List ℕ) (i : ℕ) (r : Option ℕ) → scan_short cs i none ≡ some r → Split cs i r
unfolding before_dot after_dot
scan-Split [] i r e = whole (unfold scan_short in cc) refl refl tt
scan-Split (c ∷ cs) i r e = go (scan_first c cs i r e) (λ h. scan-Split cs (i + 1) r h)
  where
    go :
        (((c == dot) ≡ true) × (scan_short cs (i + 1) (some i) ≡ some r))
          ⊎ (((c == dot) ≡ false) × (bad_char c ≡ false) × (scan_short cs (i + 1) none ≡ some r))
        → (scan_short cs (i + 1) none ≡ some r → Split cs (i + 1) r)
        → Split (c ∷ cs) i r
    go (inl (d, h)) ih =
        let (same, plain) = scan_behind cs (i + 1) i r h in Split-dot c cs i r d same plain
    go (inr (d, ok_char, h)) ih = Split-cons c cs i r (ordinary_byte c d ok_char) (ih h)

-- The extension with its dot, if there is one.
abbrev suffix : List ℕ → List ℕ
suffix [] = []
suffix (x ∷ xs) = dot ∷ x ∷ xs

suffix-cons : (ext : List ℕ) → 0 < length ext → suffix ext ≡ dot ∷ ext
suffix-cons [] h = absurd (omega arith)
suffix-cons (x ∷ xs) h = refl

ext_read :
    (ext : List ℕ) (d : Bytes)
    → All Plain ext
    → length ext ≤ 3
    → ((k : ℕ) → 8 ≤ k → d k ≡ space)
    → (if copy_at ext 8 d 8 == space then [] else dot ∷ until_space 3 (copy_at ext 8 d) 8)
      ≡ suffix ext
ext_read [] d pe he none_there = unfold copy_at in rw (none_there 8 (omega arith))
ext_read (x ∷ xs) d pe he none_there =
    rw (copied.0, pe.0.1)
      (ap (λ (l : List ℕ). dot ∷ l)
        (until_space-StandsAt (x ∷ xs) 3 (copy_at (x ∷ xs) 8 d) 8 copied pe he (λ h.
          copy_at-outside (x ∷ xs) 8 d (8 + length (x ∷ xs)) (inr (omega arith))
          ∙ none_there (8 + length (x ∷ xs)) (omega arith))))
  where
    copied : StandsAt (x ∷ xs) (copy_at (x ∷ xs) 8 d) 8
    copied = copy_at-StandsAt (x ∷ xs) 8 d

-- A base of up to eight plain characters and an extension of up to three are read back.
read_parts :
    (base ext : List ℕ)
    → All Plain base
    → All Plain ext
    → length base ≤ 8
    → length ext ≤ 3
    → read_short (copy_at ext 8 (copy_at base 0 (λ _. space))) ≡ base ++ suffix ext
unfolding read_short
read_parts base ext pb pe hb he = rw (
  base_read,
  ext_read ext _ pe he (λ k h. copy_at-outside base 0 (λ _. space) k (inr (omega arith))),
)
  where
    early :
        (k : ℕ)
        → k < 8
        → copy_at ext 8 (copy_at base 0 (λ _. space)) k ≡ copy_at base 0 (λ _. space) k
    early k h = copy_at-outside ext 8 _ k (inl h)

    base_read : until_space 8 (copy_at ext 8 (copy_at base 0 (λ _. space))) 0 ≡ base
    base_read =
        until_space-StandsAt base 8 _ 0
          (StandsAt-frame base (copy_at base 0 (λ _. space)) _ 0 (λ k a b. early k (omega arith))
            (copy_at-StandsAt base 0 (λ _. space)))
          pb hb
          (λ h.
            early (0 + length base) (omega arith)
            ∙ copy_at-outside base 0 (λ _. space) (0 + length base) (inr (omega arith)))

-- The test at the end of fat32_name_is_short, on the result of the loop.
abbrev fits : ℕ → Option (Option ℕ) → Bool
fits n o = elim o [ none ↦ false | some dot_pos ↦ lengths_fit n dot_pos ]

fits-some :
    (n : ℕ) (o : Option (Option ℕ))
    → fits n o ≡ true
    → (r : Option ℕ) × (o ≡ some r) × (lengths_fit n r ≡ true)
fits-some n none h = cc
fits-some n (some r) h = (r, refl, h)

name_is_short-fits :
    (name : List ℕ)
    → name_is_short name ≡ true
    → (get_or name 0 0 == dot) ≡ false
    → fits (length name) (scan_short name 0 none) ≡ true
unfolding name_is_short
name_is_short-fits name h d = go (rw d at h)
  where
    go :
        (if ltb 12 (length name) then false else fits (length name) (scan_short name 0 none)) ≡ true
        → fits (length name) (scan_short name 0 none) ≡ true
    go e = elim (Bool-cases (ltb 12 (length name))) [
      | inl long ↦ cc (rw long at e)
      | inr short ↦ rw short at e
    ]

length-parts :
    (name : List ℕ)
    → name ≡ before_dot name ++ (dot ∷ after_dot name)
    → length name ≡ length (before_dot name) + 1 + length (after_dot name)
length-parts name e =
    ap (λ (l : List ℕ). length l) e
    ∙ length-append (before_dot name) (dot ∷ after_dot name)
    ∙ omega arith

fit_whole : (n : ℕ) → lengths_fit n none ≡ true → n ≤ 8
unfolding lengths_fit
fit_whole n h = ground arith

fit_parted : (n b : ℕ) → lengths_fit n (some b) ≡ true → (b ≤ 8) × (0 < n - b - 1) × (n - b - 1 ≤ 3)
unfolding lengths_fit
fit_parted n b h = ground arith

-- A name that passes for short, and does not begin with a dot, stands in the entry.
pub read_formatted :
    (name : List ℕ)
    → name_is_short name ≡ true
    → (get_or name 0 0 == dot) ≡ false
    → read_short (format_short name) ≡ name
unfolding format_short
read_formatted name h d =
    let (r, scanned, fit) = fits-some (length name) _ (name_is_short-fits name h d) in
    by_split r fit (scan-Split name 0 r scanned)
  where
    by_split :
        (r : Option ℕ)
        → lengths_fit (length name) r ≡ true
        → Split name 0 r
        → read_short (format_short name) ≡ name
    by_split r fit (whole e b a plain) =
        rw (b, a)
          (read_parts name [] plain tt (fit_whole (length name) (rw e at fit)) (omega arith)
            ∙ append-nil name)
    by_split r fit (parted e cut b a) =
        let (hb, some_ext, he) =
          fit_parted (length name) (length (before_dot name)) (rw (e ∙ ap some zeroth) at fit) in
        read_parts (before_dot name) (after_dot name) b a hb (omega (arith, length-parts name cut))
        ∙ ap (λ (l : List ℕ). before_dot name ++ l)
            (suffix-cons (after_dot name) (omega (arith, length-parts name cut)))
        ∙ sym cut
      where
        zeroth : 0 + length (before_dot name) ≡ length (before_dot name)
        zeroth = omega arith

-- What is read begins with the first byte, which is no space.
until_space-first :
    (left : ℕ) (d : Bytes) → (d 0 == space) ≡ false → get_or (until_space (suc left) d 0) 0 0 ≡ d 0
unfolding until_space
until_space-first left d h = rw h refl

read_short-first : (d : Bytes) → (d 0 == space) ≡ false → get_or (read_short d) 0 0 ≡ d 0
unfolding read_short until_space
read_short-first d h = rw h (ground arith)

-- A name that passes for short, and begins with neither a dot, nor the byte 0xe5, nor a NUL, is read back
-- from the entry that it is formatted into; and the first byte of that entry is not the mark of a deleted
-- entry or of the end, so that fat32_get_dirent does not pass it.
pub read_short-format_short :
    (name : List ℕ)
    → name_is_short name ≡ true
    → get_or name 0 0 ≢ dot
    → get_or name 0 0 ≢ 0xe5
    → get_or name 0 0 ≢ 0
    → (read_short (format_short name) ≡ name)
      × (format_short name 0 ≢ 0xe5)
      × (format_short name 0 ≢ 0)
read_short-format_short name h no_dot no_mark no_end =
    let read = read_formatted name h (==_false no_dot) in
    let first : (x : ℕ) → (x == space) ≡ false → format_short name 0 ≡ x → get_or name 0 0 ≡ x =
      λ x ns e. rw read at (read_short-first (format_short name) (rw e ns)) ∙ e in
    (read, λ e. no_mark (first 0xe5 refl e), λ e. no_end (first 0 refl e))
