-- ===== src/Dir/Dirent.antt =====
-- fat32_get_dirent and fat32_find_dirent of fat32_dir.c: the next entry of a directory, with its name,
-- and the search for a name. What fat32_get_dirent stores through its pointers is a record.
use fat.Shared.{
  ℕ, zero, suc, ◌+◌, ◌-◌, ◌*◌, ◌/◌, Bool, true, false, not, ◌&&◌, List, [], ◌∷◌, ◌==◌, ltb,
  if◌then◌else◌, u32, sub32, test_bit, length, update,
}
use fat.Bytes.{Bytes, rle16, rle32}
use fat.Device.{BlockIo, buf_errno}
use fat.Time.{fat_to_unix_time}
use fat.Fat.{Info, Volume, Ret, ok, err, stuck, M}
use fat.Cluster.{no_flags, read_cluster, next_cluster}
use fat.Ino.{pack_ino}
use fat.ShortName.{read_short, copy_at}
use fat.Lfn.{DName, attr_long_name, last_bit, read_lfn}
use fat.Vnode.{Vnode, vreg, vdir, is_dir, dir_mode, reg_mode, reg_mode_read_only, read_only_bit}
use fat.Vnode.Cache.{Open, Vm, chain, on_volume, vnode_seek_cluster}
use fat.Dir.{
  dentry_size, attr_at, create_time_tenth_at, create_time_at, create_date_at, last_access_date_at,
  first_cluster_hi_at, write_time_at, write_date_at, first_cluster_lo_at, file_size_at, copy_out,
  skip_of, place_of,
}

abbrev pub enoent : ℕ
enoent = 2

abbrev pub enotdir : ℕ
enotdir = 20

-- FAT32_ATTR_VOLUME_ID and FAT32_ATTR_DIRECTORY, as bit numbers.
abbrev pub volume_id_bit : ℕ
volume_id_bit = 3

abbrev pub directory_bit : ℕ
directory_bit = 4

-- FAT32_MAX_NAME + 1, the size of the buffer for a name.
abbrev pub name_buffer : ℕ
name_buffer = 256

-- The variables of the scan: d_name and name_size, has_lfn, entry_start_offset, current_offset.
pub record Reader : Type 0 where
  pub name : DName
  pub has_lfn : Bool
  pub entry_start : ℕ
  pub offset : ℕ

-- What fat32_get_dirent finds: the entry itself, its name, and where it begins and ends.
pub record Dirent : Type 0 where
  pub entry : Bytes
  pub name : DName
  pub entry_start : ℕ
  pub slots : ℕ
  pub d_ino : ℕ
  pub next_offset : ℕ

-- A deleted entry is passed.
abbrev pub pass : Reader → Reader
pass r = record r { offset = u32 (r.offset + dentry_size) }

-- An entry of a long name.
abbrev pub pass_lfn : ℕ → Bytes → Reader → Reader
pass_lfn d_name_size lfn r = record r {
  name = read_lfn d_name_size lfn r.name;
  has_lfn = true;
  entry_start = if test_bit (lfn 0) last_bit then r.offset else r.entry_start;
  offset = u32 (r.offset + dentry_size);
}

-- The volume's label: the name is begun anew.
abbrev pub pass_label : ℕ → Reader → Reader
pass_label d_name_size r = record r {
  name = record { d_name = update r.name.d_name 0 0; name_size = d_name_size };
  has_lfn = false;
  entry_start = 0;
  offset = u32 (r.offset + dentry_size);
}

-- A name of eight and three, where no long one was collected. The buffer has room for twelve.
abbrev pub short_name : Bytes → DName → DName
short_name entry n =
    let chars = read_short entry in
    if n.d_name 0 == 0
    then record {
      d_name = update (copy_at chars 0 n.d_name) (length chars) 0;
      name_size = length chars;
    }
    else n

-- What the scan of a cluster ends with: the end mark, an entry, or the end of the cluster.
pub data Step : Type 0 where
  ended : Step
  found : Bytes → Reader → Step
  passed : Reader → Step

-- The loop over the entries of a cluster, with `left` of them from `place` on.
unfoldable pub scan_dirents : Bytes → ℕ → ℕ → ℕ → Reader → Step
scan_dirents bytes d_name_size zero place r = passed r
scan_dirents bytes d_name_size (suc left) place r =
    let entry = copy_out bytes place in
    let r' =
      if entry 0 == 0xe5
      then pass r
      else if entry attr_at == attr_long_name
      then pass_lfn d_name_size entry r
      else pass_label d_name_size r in
    let rest = scan_dirents bytes d_name_size left (place + dentry_size) r' in
    let valid =
      not (entry 0 == 0xe5)
      && not (entry attr_at == attr_long_name)
      && not (test_bit (entry attr_at) volume_id_bit) in
    if entry 0 == 0 then ended else if valid then found entry r else rest

abbrev pub first_cluster_of : Bytes → ℕ
first_cluster_of entry = rle16 entry first_cluster_lo_at + rle16 entry first_cluster_hi_at * 65536

-- What is stored for the entry that was found, in the directory that begins at `dir_cluster`.
abbrev pub dirent_of : ℕ → Bytes → Reader → Dirent
dirent_of dir_cluster entry r =
    let start = if r.has_lfn then r.entry_start else r.offset in
    let slots = u32 (sub32 r.offset start / dentry_size + 1) in
    record {
      entry = entry;
      name = short_name entry r.name;
      entry_start = start;
      slots = slots;
      d_ino = pack_ino dir_cluster start slots;
      next_offset = u32 (r.offset + dentry_size);
    }

-- The fields of entry_fv.
abbrev pub populate : ℕ → Dirent → Vnode → Vnode
populate dir_cluster d fv = record fv {
  fv_cluster = first_cluster_of d.entry;
  fv_attr = d.entry attr_at;
  fv_diroff = d.entry_start;
  fv_dirsz = d.slots;
  fv_parent_cluster = dir_cluster;
  fv_size = rle32 d.entry file_size_at;
  fv_type = if test_bit (d.entry attr_at) directory_bit then vdir else vreg;
  fv_mode =
      if test_bit (d.entry attr_at) directory_bit
      then dir_mode
      else if test_bit (d.entry attr_at) read_only_bit
      then reg_mode_read_only
      else reg_mode;
  fv_atime = fat_to_unix_time (rle16 d.entry last_access_date_at) 0 0;
  fv_mtime = fat_to_unix_time (rle16 d.entry write_date_at) (rle16 d.entry write_time_at) 0;
  fv_ctime =
      fat_to_unix_time (rle16 d.entry create_date_at) (rle16 d.entry create_time_at)
        (d.entry create_time_tenth_at);
}

abbrev pub as_enoent : {A S : Type 0} → Ret A × S → Ret A × S
as_enoent (ok a, s) = (ok a, s)
as_enoent (err e, s) = (err enoent, s)
as_enoent (stuck, s) = (stuck, s)

-- fat32_toupper, and fat32_chrcmp as a test for equality.
abbrev pub toupper : ℕ → ℕ
toupper c = if ltb c b'a' then c else if ltb b'z' c then c else c - 32

abbrev pub same_char : ℕ → ℕ → Bool
same_char c d = toupper c == toupper d

-- The comparison of `name` with the characters of the buffer from `i` on.
unfoldable pub same_chars : List ℕ → Bytes → ℕ → Bool
same_chars [] d_name i = true
same_chars (c ∷ cs) d_name i = same_char c (d_name i) && same_chars cs d_name (i + 1)

unfoldable pub matches : List ℕ → DName → Bool
unfolding same_chars
matches name n = n.name_size == length name && same_chars name n.d_name 0

abbrev pub fresh_name : DName → DName
fresh_name n = record { d_name = update n.d_name 0 0; name_size = name_buffer }

module _ {D : Type 0} (io : BlockIo D) (fsi : Info) where
  -- The entries from `place` to the end of a cluster.
  abbrev pub entries_left : ℕ → ℕ
  entries_left place = (fsi.bytes_per_cluster + 31 - place) / 32

  -- The loop over the clusters.
  unfoldable pub walk_dirents : ℕ → ℕ → ℕ → ℕ → ℕ → Reader → M D Dirent
  unfolding scan_dirents
  walk_dirents zero dir_cluster d_name_size current place r v = (stuck, v)
  walk_dirents (suc fuel) dir_cluster d_name_size current place r v =
      let bp = read_cluster io fsi v.disk current in
      let on : Reader → Ret ℕ × Volume D → Ret Dirent × Volume D = λ r' after. elim after.0 [
        | ok next ↦ walk_dirents fuel dir_cluster d_name_size next 0 r' after.1
        | err e ↦ (err enoent, after.1)
        | stuck ↦ (stuck, after.1)
      ] in
      let scanned : Step → Ret Dirent × Volume D = λ step. elim step [
        | ended ↦ (err enoent, v)
        | found entry r' ↦ (ok (dirent_of dir_cluster entry r'), v)
        | passed r' ↦ on r' (next_cluster io fsi current no_flags v)
      ] in
      if bp.failed
      then (err (buf_errno bp), v)
      else scanned (scan_dirents bp.bytes d_name_size (entries_left place) place r)

  -- A directory whose chain runs in no circle has fewer clusters.
  abbrev pub dir_fuel : ℕ
  dir_fuel = fsi.cluster_count + 1

  -- fat32_get_dirent, from `offset` on, into a buffer `n`.
  unfoldable pub get_dirent : ℕ → DName → Vm D Dirent
  unfolding walk_dirents
  get_dirent offset n s =
      let r : Reader = record { name = n; has_lfn = false; entry_start = 0; offset = offset } in
      let sought = as_enoent (vnode_seek_cluster io fsi (skip_of fsi offset) no_flags s) in
      let walked : Ret Dirent × Open D = chain {D = D} sought λ current t.
        on_volume t.fv (
          walk_dirents dir_fuel t.fv.fv_cluster n.name_size current (place_of fsi offset) r
            t.vol) in
      if is_dir s.fv.fv_type then walked else (err enotdir, s)

  -- The loop of fat32_find_dirent. `n` is what the buffer held before.
  unfoldable pub find_loop : ℕ → List ℕ → ℕ → DName → Vm D Dirent
  unfolding get_dirent matches
  find_loop zero name offset n s = (stuck, s)
  find_loop (suc fuel) name offset n s = chain {D = D} (get_dirent offset (fresh_name n) s) λ d t.
      let rest = find_loop fuel name d.next_offset d.name t in
      if matches name d.name then (ok d, t) else rest

  -- Each round passes an entry, and a directory has no more than this.
  abbrev pub find_fuel : ℕ
  find_fuel = (fsi.cluster_count + 1) * (fsi.bytes_per_cluster / 32) + 1

  -- fat32_find_dirent, for a name of less than MAXNAMELEN characters. `buffer` is the local d_name.
  unfoldable pub find_dirent : List ℕ → DName → Vm D Dirent
  unfolding find_loop
  find_dirent name buffer s =
      if is_dir s.fv.fv_type then find_loop find_fuel name 0 buffer s else (err enotdir, s)
