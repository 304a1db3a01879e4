-- ===== src/Readdir/Filled.antt =====
-- fat32_readdir fills the request with as many whole records as fit, in the order of the directory.
use fat.Shared.{
  ℕ, zero, suc, ◌+◌, ◌<◌, ◌≡◌, ◌≢◌, ◌⊎◌, inl, inr, refl, sym, ap, ◌∙◌, Bool, true, false, ◌&&◌,
  List, [], ◌∷◌, ◌++◌, ◌==◌, ==_false, if◌then◌else◌, ltb, length, arith,
}
use native.Mathlib.Decide.{ℕ_discrete, dec_lt}
use mathlib.Core.List.{append_assoc, append-nil}
use fat.Device.{BlockIo}
use fat.Fat.{Info, ok, einval}
use fat.Lfn.{DName}
use fat.Vnode.Cache.{Open}
use fat.File.{UserIo, Session}
use fat.Dir.Dirent.{Dirent, enoent, fresh_name, get_dirent}
use fat.Dir.Find.{Lists}
use fat.Readdir.{Abi, Outcome, leave, past_emit, past_dirent, emit_dirent, readdir_loop}
use fat.Readdir.Emit.{Serves, record_of, Gave, emit_dirent-fits, emit_dirent-full}

-- The records of entries.
abbrev pub records : Abi → List Dirent → List ℕ
records abi [] = []
records abi (d ∷ ds) = record_of abi d.d_ino d.next_offset d.name ++ records abi ds

-- The number of their bytes.
abbrev pub total : Abi → List Dirent → ℕ
total abi [] = 0
total abi (d ∷ ds) = abi.direntsize d.name.name_size + total abi ds

-- The offset behind entries that begin at `offset`.
abbrev pub offset_after : ℕ → List Dirent → ℕ
offset_after offset [] = offset
offset_after offset (d ∷ ds) = offset_after d.next_offset ds

-- The next entry has no room in what is left.
abbrev pub IsFull : Abi → ℕ → List Dirent → Type 0
IsFull abi left [] = ⊥
IsFull abi left (d ∷ ds) = left < abi.direntsize d.name.name_size

-- What the variable `error` holds behind entries.
abbrev pub error_after : ℕ → List Dirent → ℕ
error_after error [] = error
error_after error (d ∷ ds) = 0

-- Why the loop ends, with `left` bytes free after `count` entries: no byte is left, or no entry, or the
-- next one has no room.
abbrev pub Stops : Abi → ℕ → ℕ → ℕ → List Dirent → Outcome → Type 0
Stops abi left count error rest out =
    ((left ≡ 0) × (out.error ≡ error) × (out.eof ≡ false))
    ⊎ (((0 < left) × (rest ≡ []) × (out.error ≡ 0) × (out.eof ≡ true))
        ⊎ ((0 < left)
            × IsFull abi left rest
            × (out.error ≡ (if ltb 0 count then 0 else einval))
            × (out.eof ≡ false)))

and_false : (b : Bool) → (b && false) ≡ false
and_false true = refl
and_false false = refl

module _ {D : Type 0} (io : BlockIo D) (fsi : Info) {U : Type 0} (user : UserIo U)
    (got : U → List ℕ) (abi : Abi) (serves : Serves user got abi) where
  -- What the loop leaves, where `ds` are the entries from `offset` on.
  pub record Filled (ds : List Dirent) (error offset count : ℕ) (s : Session D U) (out : Outcome)
      (s' : Session D U) : Type 0 where
    pub shown : List Dirent
    pub rest : List Dirent
    pub split : ds ≡ shown ++ rest
    pub more : got s'.uio ≡ got s.uio ++ records abi shown
    pub less : user.uio_resid s'.uio + total abi shown ≡ user.uio_resid s.uio
    pub place : out.offset ≡ offset_after offset shown
    pub stops :
        Stops abi (user.uio_resid s'.uio) (count + length shown) (error_after error shown) rest out

  Filled-none :
      (ds : List Dirent) (error offset count : ℕ) (s : Session D U) (out : Outcome) (node : Open D)
      → out.offset ≡ offset
      → Stops abi (user.uio_resid s.uio) count error ds out
      → Filled ds error offset count s out (record { node = node; uio = s.uio })
  Filled-none ds error offset count s out node at stops =
      let none_yet : count + 0 ≡ count = omega arith in
      record {
        shown = [];
        rest = ds;
        split = refl;
        more = sym (append-nil (got s.uio));
        less = omega arith;
        place = at;
        stops = rw none_yet stops;
      }

  Filled-one :
      (d : Dirent) (ds : List Dirent) (error offset count : ℕ) (s t : Session D U) (out : Outcome)
      (s' : Session D U)
      → Gave user got abi serves s.uio t.uio
          (abi.direntsize d.name.name_size)
          (record_of abi d.d_ino d.next_offset d.name)
      → Filled ds 0 d.next_offset (count + 1) t out s'
      → Filled (d ∷ ds) error offset count s out s'
  Filled-one d ds error offset count s t out s' gave filled =
      let one_more : count + suc (length filled.shown) ≡ count + 1 + length filled.shown =
        omega arith in
      record {
        shown = d ∷ filled.shown;
        rest = filled.rest;
        split = ap (λ (xs : List Dirent). d ∷ xs) filled.split;
        more =
            filled.more
            ∙ ap (λ xs. xs ++ records abi filled.shown) gave.more
            ∙ append_assoc (got s.uio) (record_of abi d.d_ino d.next_offset d.name)
                (records abi filled.shown);
        less = omega (arith, filled.less, gave.less);
        place = filled.place;
        stops = rw one_more (rw (zero_after filled.shown) at filled.stops);
      }
    where
      zero_after : (xs : List Dirent) → error_after 0 xs ≡ 0
      zero_after [] = refl
      zero_after (x ∷ xs) = refl

  loop-empty :
      (fuel error offset count : ℕ) (n : DName) (s : Session D U)
      → user.uio_resid s.uio ≡ 0
      → readdir_loop io fsi user abi false (suc fuel) error offset count n s
        ≡ leave offset error false s
  unfolding readdir_loop
  loop-empty fuel error offset count n s z = rw z refl

  -- A round of the loop.
  round :
      (fuel error offset count : ℕ) (n : DName) (s : Session D U)
      → user.uio_resid s.uio ≢ 0
      → readdir_loop io fsi user abi false (suc fuel) error offset count n s
        ≡ past_dirent offset s.uio (get_dirent io fsi offset (fresh_name n) s.node) λ d node.
          past_emit offset count node
            (emit_dirent user abi d.d_ino d.next_offset d.name s.uio)
            (readdir_loop io fsi user abi false fuel 0 d.next_offset (count + 1) d.name)
  unfolding readdir_loop
  round fuel error offset count n s nz =
      rw (==_false nz, and_false (offset == 0), and_false (offset == 1)) refl

  pub loop-Filled :
      (ds : List Dirent) (fuel error offset count : ℕ) (n : DName) (s : Session D U)
      → user.uio_resid s.uio < fuel
      → Lists io fsi offset n s.node ds enoent
      → (out : Outcome) × (s' : Session D U) × (readdir_loop io fsi user abi false fuel error offset
            count n s
          ≡ (ok out, s'))
        × Filled ds error offset count s out s'
  loop-Filled ds zero error offset count n s h l = absurd (omega arith)
  loop-Filled [] (suc fuel) error offset count n s h (t, l) =
      elim (ℕ_discrete (user.uio_resid s.uio) 0) [
        | yes z ↦ (
          _,
          _,
          loop-empty fuel error offset count n s z,
          Filled-none [] error offset count s _ s.node refl (inl (z, refl, refl)),
        )
        | no nz ↦ (
          _,
          _,
          round fuel error offset count n s nz ∙ rw l refl,
          Filled-none [] error offset count s _ t refl (inr (inl (omega arith, refl, refl, refl))),
        )
      ]
  loop-Filled (d ∷ ds) (suc fuel) error offset count n s h (t, l, more) =
      elim (ℕ_discrete (user.uio_resid s.uio) 0) [
        | yes z ↦ (
          _,
          _,
          loop-empty fuel error offset count n s z,
          Filled-none (d ∷ ds) error offset count s _ s.node refl (inl (z, refl, refl)),
        )
        | no nz ↦ elim (dec_lt (user.uio_resid s.uio) (abi.direntsize d.name.name_size)) [
          | yes lt ↦ (
            _,
            _,
            round fuel error offset count n s nz
                ∙ rw (l, emit_dirent-full user got abi serves d.d_ino d.next_offset d.name s.uio lt)
                    refl,
            Filled-none (d ∷ ds) error offset count s _ t refl
                (inr (inr (omega arith, lt, refl, refl))),
          )
          | no ge ↦
              let (u', emitted, gave) =
                emit_dirent-fits user got abi serves d.d_ino d.next_offset d.name s.uio
                  (omega arith) in
              let room = serves.room d.name.name_size in
              let t' : Session D U = record { node = t; uio = u' } in
              let (out, s', eq, filled) =
                loop-Filled ds fuel 0 d.next_offset (count + 1) d.name t' (omega (arith, gave.less))
                  more in
              (
                out,
                s',
                round fuel error offset count n s nz ∙ rw (l, emitted) eq,
                Filled-one d ds error offset count s t' out s' gave filled,
              )
        ]
      ]
