-- ===== src/Check.antt =====
-- fat32_check_dir_integrity of fat32_dir.c, the check of a directory that a debug build makes.
pub mod Named
use fat.Shared.{
  ℕ, zero, suc, ◌+◌, ◌%◌, Bool, true, false, not, ◌&&◌, Option, none, some, ◌==◌, if◌then◌else◌,
  test_bit, low_bits, u8, sub32,
}
use fat.Bytes.{Bytes, rle32}
use fat.Device.{BlockIo, buf_errno}
use fat.Fat.{Info, Volume, Ret, ok, err, stuck, M, einval}
use fat.Cluster.{no_flags, read_cluster, next_cluster}
use fat.Lfn.{attr_long_name, last_bit}
use fat.ShortName.{checksum}
use fat.Vnode.{Vnode, is_dir}
use fat.Dir.{dentry_size, attr_at, file_size_at, copy_out}
use fat.Dir.Dirent.{volume_id_bit, directory_bit, enotdir, dir_fuel, entries_left}

-- The variables in_lfn_sequence, expected_lfn_seq and expected_checksum.
pub record Expected : Type 0 where
  pub in_lfn_sequence : Bool
  pub lfn_seq : ℕ
  pub lfn_checksum : ℕ

-- Between two names.
abbrev pub at_rest : Expected → Expected
at_rest x = record x { in_lfn_sequence = false }

-- An entry of a long name; `none` is EINVAL.
abbrev pub check_lfn : Bytes → Expected → Option Expected
check_lfn lfn x =
    let seq = low_bits (lfn 0) 5 in
    let last = test_bit (lfn 0) last_bit in
    let y : Expected =
      if last then record { in_lfn_sequence = true; lfn_seq = seq; lfn_checksum = lfn 13 } else x in
    if last && x.in_lfn_sequence
    then none
    else if not last && not x.in_lfn_sequence
    then none
    else if not (seq == y.lfn_seq)
    then none
    else if not (lfn 13 == y.lfn_checksum)
    then none
    else some (record y { lfn_seq = (y.lfn_seq + 255) % 256 })

-- An entry of eight and three.
abbrev pub check_short : Bytes → Expected → Option Expected
check_short d x =
    if x.in_lfn_sequence && not (x.lfn_seq == 0)
    then none
    else if x.in_lfn_sequence && not (checksum d == x.lfn_checksum)
    then none
    else if test_bit (d attr_at) directory_bit && not (rle32 d file_size_at == 0)
    then none
    else some (at_rest x)

-- Any entry but the end mark; deleted entries and labels must not stand within the entries of a name.
abbrev pub check_entry : Bytes → Expected → Option Expected
check_entry d x =
    let skipped = if x.in_lfn_sequence then none else some x in
    if d 0 == 0xe5
    then skipped
    else if d attr_at == attr_long_name
    then check_lfn d x
    else if test_bit (d attr_at) volume_id_bit
    then skipped
    else check_short d x

-- What the scan of a cluster ends with: EINVAL, the end mark, or the end of the cluster.
pub data Checked : Type 0 where
  broken : Checked
  end_found : Expected → Checked
  whole : Expected → Checked

-- The loop over the entries of a cluster, with `left` of them from `offset` on.
unfoldable pub check_entries : Bytes → ℕ → ℕ → Expected → Checked
check_entries data_ zero offset x = whole x
check_entries data_ (suc left) offset x =
    let on : Option Expected → Checked =
      λ r. elim r [ none ↦ broken | some y ↦ check_entries data_ left (offset + dentry_size) y ] in
    let dentry = copy_out data_ offset in
    if dentry 0 == 0 then end_found x else on (check_entry dentry x)

-- The end of the directory.
abbrev pub at_end : {D : Type 0} → Expected → M D (Unit {0})
at_end x v = if x.in_lfn_sequence then (err einval, v) else (ok tt, v)

-- Behind a cluster: the next one, or the end of the chain.
abbrev pub past_cluster :
    {D : Type 0} → Expected → (ℕ → M D (Unit {0})) → Ret ℕ × Volume D → Ret (Unit {0}) × Volume D
past_cluster x onward (ok next, v) = onward next v
past_cluster x onward (err e, v) = at_end x v
past_cluster x onward (stuck, v) = (stuck, v)

module _ {D : Type 0} (io : BlockIo D) (fsi : Info) where
  -- The loop over the clusters.
  unfoldable pub check_loop : ℕ → ℕ → Expected → M D (Unit {0})
  check_loop zero current x v = (stuck, v)
  check_loop (suc fuel) current x v =
      let bp = read_cluster io fsi v.disk current in
      let result : Checked → Ret (Unit {0}) × Volume D = λ r. elim r [
        | broken ↦ (err einval, v)
        | end_found y ↦ at_end y v
        | whole y ↦
            past_cluster y (λ next. check_loop fuel next y) (next_cluster io fsi current no_flags v)
      ] in
      if bp.failed
      then (err (buf_errno bp), v)
      else result (check_entries bp.bytes (entries_left io fsi 0) 0 x)

  -- fat32_check_dir_integrity. A chain without a circle has fewer clusters than the fuel.
  unfoldable pub check_dir_integrity : Vnode → M D (Unit {0})
  check_dir_integrity fv v =
      if not (is_dir fv.fv_type)
      then (err enotdir, v)
      else if fv.fv_cluster == 0
      then (ok tt, v)
      else check_loop (dir_fuel io fsi) fv.fv_cluster
          (record { in_lfn_sequence = false; lfn_seq = 0; lfn_checksum = 0 }) v
