-- ===== src/Tests/Dirents.antt =====
-- The theorems on reading a directory: a block with the entries of a long name, and a directory of two
-- files, `AB` and `C.D`, in cluster 2, from which `C.D` is removed.
use fat.Shared.{
  ◌≢◌, All, none, true, ℕ, ◌+◌, ◌-◌, ◌≡◌, refl, List, [], ◌∷◌, ltb, ◌==◌, if◌then◌else◌, arith,
  get_or, lt→ltb, le→not_ltb, false,
}
use fat.Bytes.{Bytes, rle16, rle32, wle32}
use fat.Fat.{ok, write_copies, rmw_cluster}
use fat.Fat.Entry.{fat_entry}
use fat.Cluster.{
  cluster_to_sector, read_cluster, clear_blocks, clear_cluster, search_free, link_parent,
  note_allocated, allocate_cluster, next_cluster, free_walk, note_freed, free_clusters, seek_loop,
  seek_cluster,
}
use fat.ShortName.{copy_at, until_space, read_short}
use fat.Vnode.{vdir, Owner, Cred, no_time, faccess, touch}
use fat.Mount.{vnode_new}
use fat.Ops.{look, empty_loop, dirempty, turn, delete_loop, delete_fdentry_chain, remove_common}
use fat.Ops.Empty.{IsTidy, Emptiness, directory_entries, dirempty-Emptiness}
use fat.Vnode.Cache.{Open, find_slot, shift_down, update_cache, best_entry, vnode_seek_cluster}
use fat.Lfn.{DName, num_lfn, lfn_entry, lfn_entries, read_lfn, set_chars, set_dname}
use fat.Dir.{copy_out}
use fat.Dir.Dirent.{
  Reader, Dirent, fresh_name, found, scan_dirents, dirent_of, walk_dirents, get_dirent, same_chars,
  matches, find_loop, find_dirent,
}
use fat.Dir.Named.{Stand, IsNamed, scan_dirents-IsNamed}
use fat.Dir.Find.{Lists, Answer, find_dirent-Answer}
use fat.Tests.Disk.{Chunks, io, fsi, volume, works}
use fat.Tests.Nodes.{opened, long_name, long_name-IsPlain}

code : Unit {0}
unfolding rle16 rle32 wle32 write_copies rmw_cluster cluster_to_sector read_cluster clear_blocks
    clear_cluster search_free link_parent note_allocated allocate_cluster next_cluster free_walk
    note_freed free_clusters seek_loop seek_cluster fat_entry find_slot shift_down update_cache
    best_entry vnode_seek_cluster lfn_entries copy_at until_space read_short read_lfn set_chars
    set_dname scan_dirents walk_dirents get_dirent same_chars matches find_loop find_dirent look
    empty_loop dirempty turn delete_loop delete_fdentry_chain remove_common vnode_new faccess touch
code = tt

-- An entry of 8 and 3: a name, and zeros.
abbrev pub short_entry : List ℕ → Bytes
short_entry name i = if ltb i 11 then get_or name i b' ' else if i == 26 then 3 else 0

-- The entries of the long name with a checksum, and an entry of eight and three.
abbrev pub named_block : ℕ → Bytes
named_block sum i =
    if ltb i 32
    then lfn_entry long_name sum 2 i
    else if ltb i 64
    then lfn_entry long_name sum 1 (i - 32)
    else short_entry (b'A' ∷ []) (i - 64)

abbrev pub block : Bytes
block = named_block 99

abbrev reader : Reader
reader = record {
  name = record { d_name = λ _. 0; name_size = 256 };
  has_lfn = false;
  entry_start = 0;
  offset = 0;
}

pub named_block-Stand :
    (sum : ℕ) → Stand (named_block sum) 0 (lfn_entries long_name sum (num_lfn long_name))
unfolding code
named_block-Stand sum = (
  (λ x lt. let e : 0 + x ≡ x = omega arith in rw (e, lt→ltb x 32 lt) refl),
  (
    (λ x lt.
        let back : 32 + x - 32 ≡ x = omega arith in
        rw (le→not_ltb (32 + x) 32 (omega arith), lt→ltb (32 + x) 64 (omega arith), back) refl),
    tt,
  ),
)

scan_dirents-IsNamed_example :
    (r' : Reader) × (scan_dirents block 256 (num_lfn long_name + 1) 0 reader
      ≡ found (copy_out block 64) r')
    × IsNamed long_name 0 (dirent_of 2 (copy_out block 64) r')
scan_dirents-IsNamed_example =
    scan_dirents-IsNamed long_name 99 2 block 256 0 0 reader long_name-IsPlain (omega arith)
      (omega arith) (omega arith) refl (omega arith) (named_block-Stand 99)
      (omega arith, omega arith, omega arith, refl)

abbrev two_files : Bytes
two_files i =
    if ltb i 32
    then short_entry (b'A' ∷ b'B' ∷ []) i
    else if ltb i 64
    then short_entry (b'C' ∷ b' ' ∷ b' ' ∷ b' ' ∷ b' ' ∷ b' ' ∷ b' ' ∷ b' ' ∷ b'D' ∷ []) (i - 32)
    else 0

abbrev pub directory : Open Chunks
directory = record {
  fv = record opened.fv { fv_type = vdir };
  vol = record volume { disk = io.bdwrite volume.disk 4 1 two_files };
}

abbrev pub buffer : DName
buffer = record { d_name = λ _. 0; name_size = 0 }

-- The two entries as fat32_get_dirent gives them.
abbrev pub first_file : Dirent
first_file =
    dirent_of 2 (copy_out two_files 0)
      (record { name = fresh_name buffer; has_lfn = false; entry_start = 0; offset = 0 })

abbrev pub second_file : Dirent
second_file =
    dirent_of 2 (copy_out two_files 32)
      (record { name = fresh_name first_file.name; has_lfn = false; entry_start = 0; offset = 32 })

pub directory-Lists : Lists io fsi 0 buffer directory (first_file ∷ second_file ∷ []) 2
unfolding code
directory-Lists = (
  (get_dirent io fsi 0 (fresh_name buffer) directory).1,
  refl,
  (
    (get_dirent io fsi 32 (fresh_name first_file.name)
        (get_dirent io fsi 0 (fresh_name buffer) directory).1).1,
    refl,
    (
      (get_dirent io fsi 64 (fresh_name second_file.name)
          (get_dirent io fsi 32 (fresh_name first_file.name)
            (get_dirent io fsi 0 (fresh_name buffer) directory).1).1).1,
      refl,
    ),
  ),
)

abbrev wanted_name : List ℕ
wanted_name = b'c' ∷ b'.' ∷ b'd' ∷ []

find_run : (find_dirent io fsi wanted_name buffer directory).0 ≡ ok second_file
unfolding code
find_run = refl

find_dirent-Answer_example :
    Answer wanted_name
      (first_file ∷ second_file ∷ [])
      2
      (find_dirent io fsi wanted_name buffer directory).0
find_dirent-Answer_example =
    find_dirent-Answer io fsi wanted_name buffer directory (first_file ∷ second_file ∷ []) 2 refl
      (omega arith) directory-Lists

no_dots : (es : List Bytes) → All (λ e. e 0 ≢ b'.') es → IsTidy es
no_dots [] h = tt
no_dots (e ∷ es) (h, hs) = ((λ p. absurd (h p)), no_dots es hs)

-- The directory of clusters 2 and 3 of the volume as it was.
dirempty-Emptiness_example :
    Emptiness
      (directory_entries io fsi volume (2 ∷ 3 ∷ []))
      volume
      (dirempty io fsi (record opened.fv { fv_type = vdir }) volume)
unfolding code
dirempty-Emptiness_example =
    dirempty-Emptiness io fsi works (record opened.fv { fv_type = vdir }) 2 (3 ∷ []) volume refl
      (refl, omega arith, refl, (refl, omega arith, refl, omega arith))
      (no_dots (directory_entries io fsi volume (2 ∷ 3 ∷ [])) (omega arith))

-- Removing `C.D`, which owns cluster 3.
abbrev superuser : Cred
superuser = record { cr_uid = 0; groupmember = λ _. false }

abbrev nobody : Owner
nobody = record { fsi_uid = 0; fsi_gid = 0 }

abbrev searched : Open Chunks
searched = (find_dirent io fsi wanted_name buffer directory).1

remove_run :
    (remove_common io fsi nobody no_time false superuser true buffer wanted_name false none
      directory).1.vol.free_count
    ≡ 2
unfolding code
remove_run = refl
