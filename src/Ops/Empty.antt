-- ===== src/Ops/Empty.antt =====
-- fat32_dirempty finds out whether a directory is empty.
use fat.Shared.{
  All, ◌≤◌, ℕ, zero, suc, ◌+◌, ◌<◌, ◌≡◌, ◌≢◌, ◌⊎◌, inl, inr, ◌↔◌, refl, sym, ◌∙◌, ap, true, false,
  List, [], ◌∷◌, ◌++◌, ==_true, ==_false, arith, length, test_bit, Bool-cases,
}
use native.Mathlib.Decide.{ℕ_discrete}
use fat.Bytes.{Bytes}
use fat.Device.{BlockIo}
use fat.Fat.{Info, Volume, Ret, ok, err, stuck}
use fat.Cluster.{no_flags, cluster_to_sector, read_cluster}
use fat.Cluster.View.{Works, table}
use fat.Cluster.Chain.{IsChain}
use fat.Cluster.Count.{used-le, length-IsChain}
use fat.Cluster.Follow.{next_cluster-last, next_cluster-IsLink}
use fat.Vnode.{Vnode, is_dir}
use fat.Dir.{dentry_size, attr_at, copy_out}
use fat.Dir.Dirent.{volume_id_bit, dir_fuel, entries_left}
use fat.Ops.{Look, end_mark, in_use, all_passed, look, empty_loop, dirempty, enotempty}

-- An entry of a file or directory: not deleted, without the volume bit, and no name that begins with a dot.
abbrev pub IsOccupied : Bytes → Type 0
IsOccupied e = (e 0 ≢ 0xe5) × (test_bit (e attr_at) volume_id_bit ≡ false) × (e 0 ≢ b'.')

-- Before the first end mark there is one.
abbrev pub IsInUse : List Bytes → Type 0
IsInUse [] = ⊥
IsInUse (e ∷ es) = (e 0 ≢ 0) × (IsOccupied e ⊎ IsInUse es)

-- The entries of a block, `n` of them from `o` on.
abbrev pub block_entries : Bytes → ℕ → ℕ → List Bytes
block_entries b zero o = []
block_entries b (suc n) o = copy_out b o ∷ block_entries b n (o + dentry_size)

abbrev Saw : List Bytes → List Bytes → Look → Type 0
Saw es rest end_mark = ¬ IsInUse (es ++ rest)
Saw es rest in_use = IsInUse (es ++ rest)
Saw es rest all_passed = IsInUse (es ++ rest) ↔ IsInUse rest

Saw-skip :
    (e : Bytes) (es rest : List Bytes) (l : Look)
    → e 0 ≢ 0
    → ¬ IsOccupied e
    → Saw es rest l
    → Saw (e ∷ es) rest l
Saw-skip e es rest end_mark used free h = λ x. elim x.1 [ inl o ↦ free o | inr y ↦ h y ]
Saw-skip e es rest in_use used free h = (used, inr h)
Saw-skip e es rest all_passed used free h =
    (λ x. elim x.1 [ inl o ↦ absurd (free o) | inr y ↦ h.0 y ], λ y. (used, inr (h.1 y)))

-- The attributes of an entry of a long name have the volume bit.
long_name_lem : (a : ℕ) → a ≡ 0x0f → test_bit a volume_id_bit ≡ true
long_name_lem a h = rw h refl

look-Saw : (b : Bytes) (n o : ℕ) (rest : List Bytes) → Saw (block_entries b n o) rest (look b n o)
unfolding look
look-Saw b zero o rest = (λ x. x, λ x. x)
look-Saw b (suc n) o rest =
    let at : o + 0 ≡ o = omega arith in
    let ih = look-Saw b n (o + dentry_size) rest in
    let e = copy_out b o in
    let head : e 0 ≡ b o = ap b at in
    elim (ℕ_discrete (b o) 0) [
      | yes z ↦ rw z (λ x. x.0 (head ∙ z))
      | no nz ↦
          let skip : ¬ IsOccupied e
              → Saw (block_entries b (suc n) o) rest (look b n (o + dentry_size)) =
            λ free.
              Saw-skip e (block_entries b n (o + dentry_size)) rest (look b n (o + dentry_size))
                (λ p. nz (sym head ∙ p)) free ih in
          rw (==_false nz) (elim (ℕ_discrete (b o) 0xe5) [
            | yes d ↦ rw (==_true d) (skip (λ x. x.0 (head ∙ d)))
            | no nd ↦
                rw (==_false nd) (elim (Bool-cases (test_bit (b (o + attr_at)) volume_id_bit)) [
                  | inl t ↦ rw t (skip (λ x. let f = x.1 in cc))
                  | inr f ↦
                      rw
                        (
                          f,
                          ==_false {a = b (o + attr_at)} {b = 0x0f}
                              (λ p. let t = long_name_lem (b (o + attr_at)) p in cc),
                        )
                        (elim (ℕ_discrete (b o) b'.') [
                          | yes d ↦ rw (==_true d) (skip (λ x. x.2 (head ∙ d)))
                          | no ndot ↦ rw (==_false ndot) (
                            λ p. nz (sym head ∙ p),
                            inl (λ p. nd (sym head ∙ p), f, λ p. ndot (sym head ∙ p)),
                          )
                        ])
                ])
          ])
    ]

-- What a test for entries answers, which has stopped with the volume as it was.
abbrev pub Verdict : {D : Type 0} → List Bytes → Volume D → Ret (Unit {0}) × Volume D → Type 0
Verdict es v (ok x, v') = (v' ≡ v) × ¬ IsInUse es
Verdict es v (err e, v') = (v' ≡ v) × (e ≡ enotempty) × IsInUse es
Verdict es v (stuck, v') = ⊥

Verdict-iff :
    {D : Type 0} (es fs : List Bytes) (v : Volume D) (r : Ret (Unit {0}) × Volume D)
    → (IsInUse es ↔ IsInUse fs)
    → Verdict fs v r
    → Verdict es v r
Verdict-iff es fs v (ok x, v') i (same, h) = (same, λ y. h (i.0 y))
Verdict-iff es fs v (err e, v') i (same, eq, h) = (same, eq, i.1 h)
Verdict-iff es fs v (stuck, v') i h = h

-- The entry of the directory itself, or of its parent: its eleven characters are one or two dots and
-- spaces.
abbrev pub IsDots : Bytes → Type 0
IsDots e = (e 0 ≡ b'.') × ((e 1 ≡ b' ') ⊎ (e 1 ≡ b'.')) × ((i : ℕ) → 2 ≤ i → i < 11 → e i ≡ b' ')

-- The entry of a file or a directory: neither deleted, nor with the volume bit, as labels and entries of
-- long names have it, nor one of the two.
abbrev pub IsFileEntry : Bytes → Type 0
IsFileEntry e = (e 0 ≢ 0xe5) × (test_bit (e attr_at) volume_id_bit ≡ false) × (¬ IsDots e)

-- Before the first end mark there is one.
abbrev pub HasFile : List Bytes → Type 0
HasFile [] = ⊥
HasFile (e ∷ es) = (e 0 ≢ 0) × (IsFileEntry e ⊎ HasFile es)

-- No entry begins with a dot but the two.
abbrev pub IsTidy : List Bytes → Type 0
IsTidy es = All (λ e. e 0 ≡ b'.' → IsDots e) es

IsInUse-HasFile : (es : List Bytes) → IsTidy es → IsInUse es ↔ HasFile es
IsInUse-HasFile [] tidy = (λ x. x, λ x. x)
IsInUse-HasFile (e ∷ es) (dots, tidy) =
    let ih = IsInUse-HasFile es tidy in
    (
      λ x. (x.0, elim x.1 [ inl o ↦ inl (o.0, o.1, λ d. o.2 d.0) | inr y ↦ inr (ih.0 y) ]),
      λ x. (x.0, elim x.1 [ inl o ↦ inl (o.0, o.1, λ p. o.2 (dots p)) | inr y ↦ inr (ih.1 y) ]),
    )

-- Empty or not, with the volume as it was.
abbrev pub Emptiness : {D : Type 0} → List Bytes → Volume D → Ret (Unit {0}) × Volume D → Type 0
Emptiness es v (ok x, v') = (v' ≡ v) × ¬ HasFile es
Emptiness es v (err e, v') = (v' ≡ v) × (e ≡ enotempty) × HasFile es
Emptiness es v (stuck, v') = ⊥

Verdict-Emptiness :
    {D : Type 0} (es : List Bytes) (v : Volume D) (r : Ret (Unit {0}) × Volume D)
    → IsTidy es
    → Verdict es v r
    → Emptiness es v r
Verdict-Emptiness es v (ok x, v') tidy (same, h) = (same, λ y. h ((IsInUse-HasFile es tidy).1 y))
Verdict-Emptiness es v (err e, v') tidy (same, eq, h) = (same, eq, (IsInUse-HasFile es tidy).0 h)
Verdict-Emptiness es v (stuck, v') tidy h = h

module _ {D : Type 0} (io : BlockIo D) (fsi : Info) where
  -- The entries of the directory with the clusters `xs`.
  abbrev pub directory_entries : Volume D → List ℕ → List Bytes
  directory_entries v [] = []
  directory_entries v (x ∷ xs) =
      block_entries (read_cluster io fsi v.disk x).bytes (entries_left io fsi 0) 0
      ++ directory_entries v xs

  module _ (w : Works io fsi) where
    readable : (v : Volume D) (c : ℕ) → (read_cluster io fsi v.disk c).failed ≡ false
    unfolding read_cluster
    readable v c = w.healthy.fine v.disk (cluster_to_sector fsi c) fsi.sectors_per_cluster

    look_at :
        (v : Volume D) (x : ℕ) (xs : List ℕ)
        → Saw
            (block_entries (read_cluster io fsi v.disk x).bytes (entries_left io fsi 0) 0)
            (directory_entries v xs)
            (look (read_cluster io fsi v.disk x).bytes (entries_left io fsi 0) 0)
    look_at v x xs = look-Saw _ (entries_left io fsi 0) 0 (directory_entries v xs)

    empty_loop-Verdict :
        (fuel x : ℕ) (xs : List ℕ) (v : Volume D)
        → length xs < fuel
        → IsChain fsi (table io fsi v) x (x ∷ xs)
        → Verdict (directory_entries v (x ∷ xs)) v (empty_loop io fsi fuel x v)
    unfolding empty_loop
    empty_loop-Verdict zero x xs v h c = absurd (omega arith)
    empty_loop-Verdict (suc fuel) x xs v h (_, r, _, rest) =
        stopped (λ y ys few c. empty_loop-Verdict fuel y ys v few c)
          (look bytes (entries_left io fsi 0) 0) refl (look_at v x xs)
      where
        -- The statement for the clusters behind.
        Further : Type 0
        Further =
            (y : ℕ) (ys : List ℕ)
            → length ys < fuel
            → IsChain fsi (table io fsi v) y (y ∷ ys)
            → Verdict (directory_entries v (y ∷ ys)) v (empty_loop io fsi fuel y v)

        bytes : Bytes
        bytes = (read_cluster io fsi v.disk x).bytes

        onward :
            Further
            → (ys : List ℕ) → length ys < suc fuel
            → IsChain fsi (table io fsi v) (table io fsi v x) ys
            → look bytes (entries_left io fsi 0) 0 ≡ all_passed
            → Verdict (directory_entries v ys) v (empty_loop io fsi (suc fuel) x v)
        onward ih [] few c p =
            let (e, ends) = next_cluster-last io fsi w v x c in
            rw (readable v x, p, ends) (refl, λ y. y)
        onward ih (y ∷ ys) few (at, ry, out, more) p =
            rw (readable v x, p, next_cluster-IsLink io fsi w v x no_flags (r, rw at ry), at)
              (ih y ys (omega arith) (refl, ry, out, more))

        stopped :
            Further
            → (l : Look) → look bytes (entries_left io fsi 0) 0 ≡ l
            → Saw (block_entries bytes (entries_left io fsi 0) 0) (directory_entries v xs) l
            → Verdict (directory_entries v (x ∷ xs)) v (empty_loop io fsi (suc fuel) x v)
        stopped ih end_mark p s = rw (readable v x, p) (refl, s)
        stopped ih in_use p s = rw (readable v x, p) (refl, refl, s)
        stopped ih all_passed p s =
            Verdict-iff _ (directory_entries v xs) v _ s (onward ih xs h rest p)

    -- The answer, entry by entry.
    pub dirempty-Verdict :
        (fv : Vnode) (x : ℕ) (xs : List ℕ) (v : Volume D)
        → is_dir fv.fv_type ≡ true
        → IsChain fsi (table io fsi v) fv.fv_cluster (x ∷ xs)
        → Verdict (directory_entries v (x ∷ xs)) v (dirempty io fsi fv v)
    unfolding dirempty
    dirempty-Verdict fv x xs v dir (at, r, out, rest) =
        let few = length-IsChain fsi (table io fsi v) x (x ∷ xs) (refl, r, out, rest) in
        let bound = used-le fsi.cluster_count (table io fsi v) in
        rw (dir, at, ==_false {a = x} {b = 0} (omega (arith, r)))
          (empty_loop-Verdict (dir_fuel io fsi) x xs v (omega (arith, few, bound))
            (refl, r, out, rest))

    -- On a volume whose layout is sound and a device without read errors (`Works`): in a directory whose
    -- clusters are a chain of the table up to its end mark, and in which no entry begins with a dot but
    -- `.` and `..`, fat32_dirempty ends, changes nothing, and answers ENOTEMPTY if before the first end
    -- mark of the directory, over all of its clusters, there is an entry other than these two that is not
    -- deleted and has no volume bit; if there is none it succeeds. Labels and the entries of long names
    -- have the bit, and do not count.
    pub dirempty-Emptiness :
        (fv : Vnode) (x : ℕ) (xs : List ℕ) (v : Volume D)
        → is_dir fv.fv_type ≡ true
        → IsChain fsi (table io fsi v) fv.fv_cluster (x ∷ xs)
        → IsTidy (directory_entries v (x ∷ xs))
        → Emptiness (directory_entries v (x ∷ xs)) v (dirempty io fsi fv v)
    dirempty-Emptiness fv x xs v dir chained tidy =
        Verdict-Emptiness (directory_entries v (x ∷ xs)) v (dirempty io fsi fv v) tidy
          (dirempty-Verdict fv x xs v dir chained)
