-- ===== src/Vnode/Access.antt =====
-- fat32_faccess against the permission rule of Unix.
use fat.Shared.{
  ℕ, ◌/◌, ◌%◌, ◌≡◌, arith, Bool, not, ◌&&◌, ◌||◌, ◌==◌, if◌then◌else◌, test_bit, ap, Bool-cases,
  inl, inr,
}
use fat.Vnode.{Vnode, Wanted, Cred, faccess, denied, erofs, eacces, read_only_bit}

-- The digit of the octal mode that applies: owner, group, others.
abbrev pub digit_of : Cred → Vnode → ℕ
digit_of cr fv =
    if cr.cr_uid == fv.fv_uid
    then fv.fv_mode / 64 % 8
    else if cr.groupmember fv.fv_gid
    then fv.fv_mode / 8 % 8
    else fv.fv_mode % 8

-- A digit grants all that is wanted: 4 is reading, 2 writing, 1 executing.
abbrev pub grants : ℕ → Wanted → Bool
grants digit wanted =
    (not wanted.vread || digit / 4 == 1)
    && (not wanted.vwrite || digit / 2 % 2 == 1)
    && (not wanted.vexec || digit % 2 == 1)

-- What access means: a volume mounted read-only takes no writes, nor does a file marked read-only;
-- the superuser is free otherwise, and all others need the bits of their class.
abbrev pub verdict : Bool → Wanted → Cred → Vnode → ℕ
verdict rdonly wanted cr fv =
    if wanted.vwrite && rdonly
    then erofs
    else if (not wanted.vwrite || not (test_bit fv.fv_attr read_only_bit))
        && (cr.cr_uid == 0 || grants (digit_of cr fv) wanted)
    then 0
    else eacces

no_bit_missing :
    (a b c p q r : Bool)
    → ((a && not p) || (b && not q) || (c && not r))
      ≡ not ((not a || p) && (not b || q) && (not c || r))
no_bit_missing a b c p q r = ground arith

denied-grants :
    (wanted : Wanted) (mode r w x digit : ℕ)
    → test_bit mode r ≡ (digit / 4 == 1)
    → test_bit mode w ≡ (digit / 2 % 2 == 1)
    → test_bit mode x ≡ (digit % 2 == 1)
    → denied wanted mode r w x ≡ not (grants digit wanted)
denied-grants wanted mode r w x digit p q s =
    rw (p, q, s)
      (no_bit_missing wanted.vread wanted.vwrite wanted.vexec (digit / 4 == 1) (digit / 2 % 2 == 1)
        (digit % 2 == 1))

denied_owner :
    (wanted : Wanted) (mode : ℕ) → denied wanted mode 8 7 6 ≡ not (grants (mode / 64 % 8) wanted)
denied_owner wanted mode =
    denied-grants wanted mode 8 7 6 (mode / 64 % 8) (ap (λ n. n == 1) (omega arith))
      (ap (λ n. n == 1) (omega arith)) (ap (λ n. n == 1) (omega arith))

denied_group :
    (wanted : Wanted) (mode : ℕ) → denied wanted mode 5 4 3 ≡ not (grants (mode / 8 % 8) wanted)
denied_group wanted mode =
    denied-grants wanted mode 5 4 3 (mode / 8 % 8) (ap (λ n. n == 1) (omega arith))
      (ap (λ n. n == 1) (omega arith)) (ap (λ n. n == 1) (omega arith))

denied_others :
    (wanted : Wanted) (mode : ℕ) → denied wanted mode 2 1 0 ≡ not (grants (mode % 8) wanted)
denied_others wanted mode =
    denied-grants wanted mode 2 1 0 (mode % 8) (ap (λ n. n == 1) (omega arith))
      (ap (λ n. n == 1) (omega arith)) (ap (λ n. n == 1) (omega arith))

decide :
    (ro write marked root free : Bool)
    → (if write && ro
        then erofs
        else if write && marked
        then eacces
        else if root
        then 0
        else if not free
        then eacces
        else 0)
      ≡ (if write && ro
          then erofs
          else if (not write || not marked) && (root || free)
          then 0
          else eacces)
decide ro write marked root free = ground arith

-- fat32_faccess answers as the rule says: EROFS for a write on a read-only volume, 0 where the file
-- is not marked read-only against a write and the caller is the superuser or has the bits of its
-- class, and EACCES otherwise.
pub faccess_lem :
    (rdonly : Bool) (wanted : Wanted) (cr : Cred) (fv : Vnode)
    → faccess rdonly wanted cr fv ≡ verdict rdonly wanted cr fv
unfolding faccess
faccess_lem rdonly wanted cr fv =
    rw
      (
        denied_owner wanted fv.fv_mode,
        denied_group wanted fv.fv_mode,
        denied_others wanted fv.fv_mode,
      )
      (elim (Bool-cases (cr.cr_uid == fv.fv_uid)) [
        | inl h ↦ rw h (decide rdonly wanted.vwrite _ _ _)
        | inr h ↦ rw h (elim (Bool-cases (cr.groupmember fv.fv_gid)) [
          | inl g ↦ rw g (decide rdonly wanted.vwrite _ _ _)
          | inr g ↦ rw g (decide rdonly wanted.vwrite _ _ _)
        ])
      ])
