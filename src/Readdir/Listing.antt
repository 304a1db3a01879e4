-- ===== src/Readdir/Listing.antt =====
-- fat32_readdir as a whole, in a directory that is not the root.
use fat.Shared.{
  ℕ, suc, ◌+◌, ◌^◌, ◌<◌, ◌≡◌, ◌⊎◌, inl, inr, refl, ap, ◌∙◌, Bool, true, false, Bool-cases, ◌==◌,
  List, [], ◌∷◌, ◌++◌, ltb, lt→ltb, length, if◌then◌else◌, arith, pos, u32,
}
use fat.Device.{BlockIo}
use fat.Fat.{Info, Ret, ok, err, einval}
use fat.Lfn.{DName}
use fat.Vnode.{is_dir}
use fat.File.{UserIo, Session}
use fat.Dir.Dirent.{Dirent, enoent}
use fat.Dir.Find.{Lists}
use fat.Readdir.{Abi, Outcome, finished, readdir_loop, readdir}
use fat.Readdir.Emit.{Serves}
use fat.Readdir.Filled.{records, total, offset_after, IsFull, error_after, Stops, loop-Filled}

-- The three ways to end, with `left` bytes free: the entries are all shown, with room left, and the end is
-- reported; some
-- are shown, and no byte is left or the next one has no room; or there is no room for the first.
abbrev pub Ended : Abi → Ret Bool → List Dirent → List Dirent → ℕ → Type 0
Ended abi r shown rest left =
    ((r ≡ ok true) × (rest ≡ []) × (0 < left))
    ⊎ (((r ≡ ok false) × (0 < length shown) × ((left ≡ 0) ⊎ IsFull abi left rest))
        ⊎ ((r ≡ err einval) × (shown ≡ []) × IsFull abi left rest))

-- The answer, from what the loop ends with.
answer : Outcome → Ret Bool
answer out = if out.error == 0 then ok out.eof else err out.error

Stops-Ended :
    (abi : Abi) (shown rest : List Dirent) (left resid unset : ℕ) (out : Outcome)
    → 0 < resid
    → left + total abi shown ≡ resid
    → Stops abi left (0 + length shown) (error_after unset shown) rest out
    → Ended abi (answer out) shown rest left
unfolding answer
Stops-Ended abi [] rest left resid unset out more less (inl (z, _, _)) = absurd (omega arith)
Stops-Ended abi (d ∷ shown) rest left resid unset out more less (inl (z, e, f)) =
    rw (e, f) (inr (inl (refl, omega arith, inl z)))
Stops-Ended abi shown rest left resid unset out more less (inr (inl (room, none_left, e, t))) =
    rw (e, t) (inl (refl, none_left, room))
Stops-Ended abi [] rest left resid unset out more less (inr (inr (_, full, e, f))) =
    rw e (inr (inr (refl, refl, full)))
Stops-Ended abi (d ∷ shown) rest left resid unset out more less (inr (inr (_, full, e, f))) =
    let some_shown : ltb 0 (0 + suc (length shown)) ≡ true = lt→ltb 0 _ (omega arith) in
    rw (e, some_shown, f) (inr (inl (refl, omega arith, inr full)))

module _ {D : Type 0} (io : BlockIo D) (fsi : Info) {U : Type 0} (user : UserIo U)
    (got : U → List ℕ) (abi : Abi) (serves : Serves user got abi) where
  -- What a listing of the entries `ds`, which begin at `offset`, answers and leaves: the user has the
  -- records of the first of them, as many as have room, and the next call goes on behind them.
  pub record Listing (ds : List Dirent) (offset : ℕ) (s : Session D U) (r : Ret Bool)
      (s' : Session D U) : Type 0 where
    pub shown : List Dirent
    pub rest : List Dirent
    pub left : ℕ
    pub split : ds ≡ shown ++ rest
    pub more : got s'.uio ≡ got s.uio ++ records abi shown
    pub less : left + total abi shown ≡ user.uio_resid s.uio
    pub place : user.uio_offset s'.uio ≡ pos (offset_after offset shown)
    pub ended : Ended abi r shown rest left

  finished-answer :
      (out : Outcome) (s : Session D U)
      → finished io fsi user abi (ok out, s)
        ≡ (answer out, record s { uio = user.set_offset out.offset s.uio })
  unfolding answer
  finished-answer out s = elim (Bool-cases (out.error == 0)) [
    | inl p ↦ rw p refl
    | inr p ↦ rw p refl
  ]

  looped :
      (unset offset : ℕ) (buffer : DName) (s s' : Session D U) (out : Outcome)
      → is_dir s.node.fv.fv_type ≡ true
      → s.node.fv.fv_flags.root ≡ false
      → user.uio_offset s.uio ≡ pos offset
      → offset < 2 ^ 32
      → readdir_loop io fsi user abi false (user.uio_resid s.uio + 1) unset offset 0 buffer s
        ≡ (ok out, s')
      → readdir io fsi user abi unset buffer s ≡ finished io fsi user abi (ok out, s')
  unfolding readdir
  looped unset offset buffer s s' out dir branch at small eq =
      let same : u32 offset ≡ offset = omega arith in
      let by_flag =
        ap
          (λ root.
            readdir_loop io fsi user abi root (user.uio_resid s.uio + 1) unset offset 0 buffer s)
          branch
        ∙ eq in
      rw (dir, at) (rw same (rw by_flag refl))

  -- In a directory other than the root, for a request with room for a byte or more and an offset below
  -- 2 ^ 32 from which on fat32_get_dirent gives the entries `ds` and then the end, and where uiomove
  -- serves what fits: fat32_readdir ends. The user has got the whole records of the first entries, in
  -- their order, and of as many as have room; uio_offset is behind the last of these, as a next call
  -- wants it, and as it was if there is none; the end is reported just where all entries are shown and
  -- there is still room; and it fails only where the first entry has no room, with EINVAL.
  pub readdir-Listing :
      (unset offset : ℕ) (buffer : DName) (s : Session D U) (ds : List Dirent)
      → is_dir s.node.fv.fv_type ≡ true
      → s.node.fv.fv_flags.root ≡ false
      → user.uio_offset s.uio ≡ pos offset
      → offset < 2 ^ 32
      → 0 < user.uio_resid s.uio
      → Lists io fsi offset buffer s.node ds enoent
      → (r : Ret Bool) × (s' : Session D U) × (readdir io fsi user abi unset buffer s ≡ (r, s'))
        × Listing ds offset s r s'
  readdir-Listing unset offset buffer s ds dir branch at small some_room l =
      let (out, s', eq, filled) =
        loop-Filled io fsi user got abi serves ds (user.uio_resid s.uio + 1) unset offset 0 buffer s
          (omega arith) l in
      (
        answer out,
        record s' { uio = user.set_offset out.offset s'.uio },
        looped unset offset buffer s s' out dir branch at small eq ∙ finished-answer out s',
        record {
          shown = filled.shown;
          rest = filled.rest;
          left = user.uio_resid s'.uio;
          split = filled.split;
          more = serves.unmoved out.offset s'.uio ∙ filled.more;
          less = filled.less;
          place = rw (← filled.place) (serves.assigned out.offset s'.uio);
          ended =
              Stops-Ended abi filled.shown filled.rest (user.uio_resid s'.uio)
                (user.uio_resid s.uio) unset out some_room filled.less filled.stops;
        },
      )
