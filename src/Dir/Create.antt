-- ===== src/Dir/Create.antt =====
-- fat32_create_fdentry of fat32_dir.c: the entries of a new or renamed file or directory. A name is the
-- list of its bytes, without the NUL.
use fat.Shared.{
  ℕ, ◌+◌, ◌/◌, Bool, true, Option, none, some, List, ltb, if◌then◌else◌, length, test_bit, update,
}
use fat.Bytes.{Bytes}
use fat.Device.{BlockIo}
use fat.Time.{Timespec, FatTime, unix_to_fat_time}
use fat.Fat.{Info, Ret, ok, err, stuck, M, pure, ◌>>=◌, ◌>>◌}
use fat.Cluster.{next_cluster}
use fat.ShortName.{name_is_short, copy_at, format_short, generate_short_name}
use fat.Vnode.{owner_write_bit, Vnode, Owner, vreg, vdir, make_vnode}
use fat.Vnode.Cache.{Vm, ret, chain, lift}
use fat.Dir.{attr_at, set_cluster, set_times, init_dir, write_fdentry, write_lfn_fdentry}
use fat.Dir.Update.{put_ctime, put_mtime, put_atime, bind}
use fat.Dir.Alloc.{alloc_fdentry}

-- FAT32_CRE_DIR, FAT32_CRE_RENAME and FAT32_CRE_REUSE
pub record CreFlags : Type 0 where
  pub cre_dir : Bool
  pub cre_rename : Bool
  pub cre_reuse : Bool

-- The number of entries that a name takes.
unfoldable pub slots_of : List ℕ → ℕ
slots_of name = if name_is_short name then 1 else (length name + 12) / 13 + 1

-- The eleven bytes of the name, in an entry of zeros; `dir_cluster` and `offset` are those of the entry.
unfoldable pub name_entry : ℕ → ℕ → List ℕ → Bytes
name_entry dir_cluster offset name =
    if name_is_short name
    then (λ i. if ltb i 11 then format_short name i else 0)
    else copy_at (generate_short_name dir_cluster offset) 0 (λ _. 0)

-- The attributes of the entry.
abbrev pub entry_attr : CreFlags → Vnode → ℕ
entry_attr flags fv =
    let fresh =
      (if flags.cre_dir then 0x10 else 0)
      + (if test_bit fv.fv_mode owner_write_bit then 0 else 1) in
    if flags.cre_rename then fv.fv_attr else fresh

-- The three times of a renamed entry.
abbrev pub put_times : Option FatTime → Option FatTime → Option FatTime → Bytes → Option Bytes
put_times (some c) (some m) (some a) d = some (put_atime 0 a (put_mtime 0 m (put_ctime 0 c d)))
put_times (some c) (some m) none d = none
put_times (some c) none a d = none
put_times none m a d = none

-- The times of the entry; `none` only where the conversion of the model ends without a result.
abbrev pub entry_times : CreFlags → Timespec → Vnode → Bytes → Option Bytes
entry_times flags now fv d =
    let renamed =
      put_times (unix_to_fat_time fv.fv_ctime) (unix_to_fat_time fv.fv_mtime)
        (unix_to_fat_time fv.fv_atime) d in
    let fresh : Option Bytes = elim (unix_to_fat_time now) [
      | none ↦ none
      | some t ↦ some (set_times t d)
    ] in
    if flags.cre_rename then renamed else fresh

-- d83: nothing is written to its size.
unfoldable pub new_entry : CreFlags → Timespec → ℕ → Vnode → List ℕ → ℕ → Option Bytes
new_entry flags now dir_cluster fv name start_cluster =
    let named = name_entry dir_cluster fv.fv_diroff name in
    let with_attr = update named attr_at (entry_attr flags fv) in
    bind (entry_times flags now fv with_attr) (λ d. some (set_cluster start_cluster d))

-- The result of fat32_make_vnode, handed on with the node.
abbrev pub handed : {D : Type 0} → Ret (Unit {0}) × Vnode → Vm D Vnode
handed (ok x, fv) s = (ok fv, s)
handed (err e, fv) s = (err e, s)
handed (stuck, fv) s = (stuck, s)

module _ {D : Type 0} (io : BlockIo D) (fsi : Info) where
  -- The cluster of the entry: its own, a new one that is set up as a directory, or none.
  unfoldable pub start_of : CreFlags → Timespec → ℕ → ℕ → M D ℕ
  start_of flags now dir_cluster own v =
      let made : M D ℕ = do
        c ← next_cluster io fsi 0 (record { alloc = true; clear = true })
        init_dir io fsi now c dir_cluster
        pure c
      in if flags.cre_rename then (ok own, v) else if flags.cre_dir then made v else (ok 0, v)

  -- The entries of the name, at the offset that the node keeps.
  unfoldable pub write_entries : ℕ → ℕ → List ℕ → Bytes → M D (Unit {0})
  write_entries dir_cluster offset name d83 =
      if name_is_short name
      then write_fdentry io fsi dir_cluster offset d83
      else write_lfn_fdentry io fsi dir_cluster offset d83 name

  -- The end of fat32_create_fdentry: the node of a new entry is made.
  unfoldable pub finish : CreFlags → Owner → Bool → ℕ → Vnode → Vm D Vnode
  finish flags owner allocated start_cluster fv s =
      if flags.cre_rename
      then (ok fv, s)
      else handed
          (make_vnode fsi owner allocated start_cluster (if flags.cre_dir then vdir else vreg)
            (some s.fv.fv_cluster) fv)
          s

  -- The 8.3 entry at hand, the entries are written.
  unfoldable pub enter : CreFlags → Owner → Bool → List ℕ → Vnode → ℕ → Option Bytes → Vm D Vnode
  enter flags owner allocated name fv start none s = (stuck, s)
  enter flags owner allocated name fv start (some d83) s =
      chain {D = D} (lift (write_entries s.fv.fv_cluster fv.fv_diroff name d83) s)
        (λ _ u. finish flags owner allocated start fv u)

  -- What follows the choice of the offset, which the node has by now.
  unfoldable pub create_at : CreFlags → Owner → Timespec → Bool → List ℕ → Vnode → Vm D Vnode
  create_at flags owner now allocated name fv s =
      chain {D = D} (lift (start_of flags now s.fv.fv_cluster fv.fv_cluster) s) λ start t.
        enter flags owner allocated name fv start
          (new_entry flags now t.fv.fv_cluster fv name start) t

  -- fat32_create_fdentry in the directory `s` for the node `fv`, with what nanotime gives and whether
  -- vn_alloc succeeds. The node is the result; a caller drops it where the function fails.
  unfoldable pub create_fdentry : CreFlags → Owner → Timespec → Bool → List ℕ → Vnode → Vm D Vnode
  create_fdentry flags owner now allocated name fv s =
      let sized = record fv { fv_dirsz = slots_of name } in
      let placed : Vm D ℕ =
        if flags.cre_reuse then ret fv.fv_diroff else alloc_fdentry io fsi now (slots_of name) in
      chain {D = D} (placed s)
        λ offset t. create_at flags owner now allocated name (record sized { fv_diroff = offset }) t
