-- ===== src/Dir/Find.antt =====
-- fat32_find_dirent finds the first entry with the name, whatever the case of its letters.
use fat.Shared.{
  ℕ, zero, suc, ◌+◌, ◌<◌, ◌≡◌, refl, inl, inr, ◌↔◌, ap, Bool, true, false, ◌&&◌, List, [], ◌∷◌,
  ◌++◌, ◌==◌, ==_true, ==_iff, arith, All, length, get_or, Bool-cases,
}
use fat.Bytes.{Bytes}
use fat.Device.{BlockIo}
use fat.Fat.{Info, Ret, ok, err, stuck}
use fat.Lfn.{DName}
use fat.Vnode.{is_dir}
use fat.Vnode.Cache.{Open}
use fat.Dir.Dirent.{
  Dirent, toupper, same_char, same_chars, matches, fresh_name, get_dirent, find_loop, find_fuel,
  find_dirent,
}

-- The buffer holds the name, up to the case of letters.
abbrev pub SameName : List ℕ → DName → Type 0
SameName name n =
    (n.name_size ≡ length name)
    × ((i : ℕ) → i < length name → toupper (get_or name i 0) ≡ toupper (n.d_name i))

abbrev SameFrom : List ℕ → Bytes → ℕ → Type 0
SameFrom name b k = (i : ℕ) → i < length name → toupper (get_or name i 0) ≡ toupper (b (k + i))

and_parts : (a b : Bool) → (a && b) ≡ true → (a ≡ true) × (b ≡ true)
and_parts true b h = (refl, h)
and_parts false b h = cc

SameFrom-cons :
    (c : ℕ) (cs : List ℕ) (b : Bytes) (k : ℕ)
    → toupper c ≡ toupper (b k)
    → SameFrom cs b (k + 1)
    → SameFrom (c ∷ cs) b k
SameFrom-cons c cs b k h t zero lt = let e : k + 0 ≡ k = omega arith in rw e h
SameFrom-cons c cs b k h t (suc i) lt =
    let e : k + suc i ≡ k + 1 + i = omega arith in rw e (t i (omega arith))

SameFrom-head :
    (c : ℕ) (cs : List ℕ) (b : Bytes) (k : ℕ) → SameFrom (c ∷ cs) b k → toupper c ≡ toupper (b k)
SameFrom-head c cs b k h = let e : k + 0 ≡ k = omega arith in rw e at (h 0 (omega arith))

SameFrom-tail :
    (c : ℕ) (cs : List ℕ) (b : Bytes) (k : ℕ) → SameFrom (c ∷ cs) b k → SameFrom cs b (k + 1)
SameFrom-tail c cs b k h =
    λ i lt. let e : k + 1 + i ≡ k + suc i = omega arith in rw e (h (suc i) (omega arith))

same_chars-true :
    (name : List ℕ) (b : Bytes) (k : ℕ) → same_chars name b k ≡ true → SameFrom name b k
unfolding same_chars
same_chars-true [] b k h = λ i lt. absurd (omega arith)
same_chars-true (c ∷ cs) b k h =
    let (first, rest) = and_parts (same_char c (b k)) (same_chars cs b (k + 1)) h in
    SameFrom-cons c cs b k ((==_iff (toupper c) (toupper (b k))).0 first)
      (same_chars-true cs b (k + 1) rest)

same_chars-SameFrom :
    (name : List ℕ) (b : Bytes) (k : ℕ) → SameFrom name b k → same_chars name b k ≡ true
unfolding same_chars
same_chars-SameFrom [] b k h = refl
same_chars-SameFrom (c ∷ cs) b k h =
    rw (==_true (SameFrom-head c cs b k h))
      (same_chars-SameFrom cs b (k + 1) (SameFrom-tail c cs b k h))

from_start :
    (name : List ℕ) (b : Bytes)
    → SameFrom name b 0 ↔ ((i : ℕ) → i < length name → toupper (get_or name i 0) ≡ toupper (b i))
from_start name b = (
  λ h i lt. let e : 0 + i ≡ i = omega arith in rw e at (h i lt),
  λ h i lt. let e : 0 + i ≡ i = omega arith in rw e (h i lt),
)

matches-SameName : (name : List ℕ) (n : DName) → matches name n ≡ true → SameName name n
unfolding matches
matches-SameName name n h =
    let (size, chars) = and_parts (n.name_size == length name) (same_chars name n.d_name 0) h in
    (
      (==_iff n.name_size (length name)).0 size,
      (from_start name n.d_name).0 (same_chars-true name n.d_name 0 chars),
    )

not_matches : (name : List ℕ) (n : DName) → matches name n ≡ false → ¬ SameName name n
unfolding matches
not_matches name n h (size, same) =
    let chars = same_chars-SameFrom name n.d_name 0 ((from_start name n.d_name).1 same) in
    let all : matches name n ≡ true = rw (==_true size, chars) refl in cc

-- The answer to a search in the entries `ds`, behind which reading fails with `e`.
abbrev pub Answer : List ℕ → List Dirent → ℕ → Ret Dirent → Type 0
Answer name ds e (ok d) =
    (before after : List Dirent) × (ds ≡ before ++ d ∷ after)
    × SameName name d.name
    × All (λ (x : Dirent). ¬ SameName name x.name) before
Answer name ds e (err e') = (e' ≡ e) × All (λ (x : Dirent). ¬ SameName name x.name) ds
Answer name ds e stuck = ⊥

Answer-behind :
    (name : List ℕ) (d : Dirent) (ds : List Dirent) (e : ℕ) (r : Ret Dirent)
    → ¬ SameName name d.name
    → Answer name ds e r
    → Answer name (d ∷ ds) e r
Answer-behind name d ds e (ok x) other (before, after, eq, same, none_there) =
    (d ∷ before, after, ap (λ (l : List Dirent). d ∷ l) eq, same, (other, none_there))
Answer-behind name d ds e (err x) other (eq, none_there) = (eq, (other, none_there))
Answer-behind name d ds e stuck other h = h

module _ {D : Type 0} (io : BlockIo D) (fsi : Info) where
  -- fat32_get_dirent, called again and again from `offset` on, gives the entries `ds` and then the error `e`.
  abbrev pub Lists : ℕ → DName → Open D → List Dirent → ℕ → Type 0
  Lists offset n s [] e = (t : Open D) × (get_dirent io fsi offset (fresh_name n) s ≡ (err e, t))
  Lists offset n s (d ∷ ds) e =
      (t : Open D) × (get_dirent io fsi offset (fresh_name n) s ≡ (ok d, t))
      × Lists d.next_offset d.name t ds e

  find_loop-Answer :
      (fuel : ℕ) (name : List ℕ) (offset : ℕ) (n : DName) (s : Open D) (ds : List Dirent) (e : ℕ)
      → length ds < fuel
      → Lists offset n s ds e
      → Answer name ds e (find_loop io fsi fuel name offset n s).0
  unfolding find_loop
  find_loop-Answer zero name offset n s ds e h l = absurd (omega arith)
  find_loop-Answer (suc fuel) name offset n s [] e h (t, l) = rw l (refl, tt)
  find_loop-Answer (suc fuel) name offset n s (d ∷ ds) e h (t, l, rest) =
      rw l (elim (Bool-cases (matches name d.name)) [
        | inl yes_ ↦ rw yes_ ([], ds, refl, matches-SameName name d.name yes_, tt)
        | inr no_ ↦ rw no_ (
            Answer-behind name d ds e _ (not_matches name d.name no_)
              (find_loop-Answer fuel name d.next_offset d.name t ds e (omega arith) rest))
      ])

  -- In a directory from which fat32_get_dirent reads the entries `ds`, one after the other, and then
  -- fails with `e` (ENOENT at the end), and which has no more of them than its clusters hold,
  -- fat32_find_dirent ends: with the first entry whose name has the same length and the same
  -- characters as the given one up to the case of letters, or with `e` if no entry has such a name.
  pub find_dirent-Answer :
      (name : List ℕ) (buffer : DName) (s : Open D) (ds : List Dirent) (e : ℕ)
      → is_dir s.fv.fv_type ≡ true
      → length ds < find_fuel io fsi
      → Lists 0 buffer s ds e
      → Answer name ds e (find_dirent io fsi name buffer s).0
  unfolding find_dirent
  find_dirent-Answer name buffer s ds e dir few l =
      rw dir (find_loop-Answer (find_fuel io fsi) name 0 buffer s ds e few l)
