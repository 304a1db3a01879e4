-- ===== src/Tests/Names.antt =====
-- The theorems on fat32_create and fat32_rename at the small volume: a file is made behind the two files
-- of a directory, and a file with a long name is renamed to a shorter one.
use fat.Shared.{u32, ◌≡◌, refl, true, false, none, List, ℕ, [], ◌∷◌, arith, All}
use fat.Bytes.{rle16, rle32, wle32}
use fat.Fat.{Ret, ok, err, stuck, write_copies, rmw_cluster}
use fat.Fat.Entry.{fat_entry}
use fat.Cluster.{
  cluster_to_sector, read_cluster, clear_blocks, clear_cluster, search_free, link_parent,
  note_allocated, allocate_cluster, next_cluster, free_walk, note_freed, free_clusters, seek_loop,
  seek_cluster,
}
use fat.ShortName.{copy_at, until_space, read_short, name_is_short}
use fat.Vnode.{Vnode, Wanted, Cred, no_time, faccess, touch}
use fat.Vnode.Cache.{Open, find_slot, shift_down, update_cache, best_entry, vnode_seek_cluster}
use fat.Lfn.{lfn_entries, read_lfn, set_chars, set_dname}
use fat.Lfn.RoundTrip.{IsPlain}
use fat.Dir.Dirent.{
  Dirent, first_cluster_of, scan_dirents, walk_dirents, get_dirent, same_chars, matches, find_loop,
  find_dirent,
}
use fat.Dir.Alloc.{
  scan_entries, go_on, follow_on, search_slots, add_clusters, grow, first_directory, alloc_fdentry,
}
use fat.Dir.{attr_at}
use fat.Dir.Create.{slots_of}
use fat.Make.{create}
use fat.Make.New.{Made, create-Made}
use fat.Rename.{Dirs, rename}
use fat.Rename.Renamed.{Renamed, within_one, rename-Renamed}
use fat.Tests.Disk.{Chunks, io, fsi, volume, works}
use fat.Tests.Nodes.{long_name, long_name-IsPlain}
use fat.Tests.Files.{aligned}
use fat.Tests.Dirents.{block, directory, buffer, first_file}
use fat.Tests.Create.{nobody, reader}

code : Unit {0}
unfolding rle16 rle32 wle32 write_copies rmw_cluster cluster_to_sector read_cluster clear_blocks
    clear_cluster search_free link_parent note_allocated allocate_cluster next_cluster free_walk
    note_freed free_clusters seek_loop seek_cluster fat_entry find_slot shift_down update_cache
    best_entry vnode_seek_cluster lfn_entries copy_at until_space read_short read_lfn set_chars
    set_dname scan_dirents walk_dirents get_dirent same_chars matches find_loop find_dirent
    name_is_short scan_entries go_on follow_on search_slots add_clusters grow first_directory
    alloc_fdentry slots_of faccess touch
code = tt

abbrev superuser : Cred
superuser = record { cr_uid = 0; groupmember = λ _. false }

abbrev reading : Wanted
reading = record { vread = true; vwrite = false; vexec = false }

abbrev searched : Open Chunks
searched = (find_dirent io fsi long_name buffer directory).1

abbrev found_room : Open Chunks
found_room = (alloc_fdentry io fsi no_time (slots_of long_name) searched).1

create-Made_example :
    (fv : Vnode) × (u : Open Chunks) × (create io fsi nobody no_time true false superuser true
        buffer reading true 420 none long_name directory
      ≡ (ok fv, u))
    × Made io fsi works aligned nobody no_time found_room long_name 420 64 2 256 0 reader fv u
unfolding code
create-Made_example =
    create-Made io fsi works aligned nobody no_time false superuser buffer reading true 420 none
      long_name directory searched found_room 64 2 256 0 reader refl refl refl refl
      (omega arith, omega arith) refl (omega arith, omega arith) refl long_name-IsPlain
      (omega arith) (omega arith) (omega arith) refl

-- A directory of one file with a long name.
abbrev one_file : Open Chunks
one_file = record directory { vol = record volume { disk = io.bdwrite volume.disk 4 1 block } }

abbrev new_name : List ℕ
new_name = b'a' ∷ b' ' ∷ b'b' ∷ []

abbrev source : Open Chunks
source = (find_dirent io fsi long_name buffer one_file).1

abbrev target : Open Chunks
target = (find_dirent io fsi new_name buffer source).1

abbrev entry_of : Ret Dirent → Dirent
entry_of (ok d) = d
entry_of (err e) = first_file
entry_of stuck = first_file

abbrev entry : Dirent
entry = entry_of (find_dirent io fsi long_name buffer one_file).0

new_name-IsPlain : All IsPlain new_name
new_name-IsPlain = (omega arith, (omega arith, (omega arith, tt)))

rename-Renamed_example :
    (p : Dirs Chunks) × (rename io fsi nobody no_time false superuser true buffer buffer buffer
        long_name new_name
        (within_one io fsi works aligned one_file)
      ≡ (ok tt, p))
    × Renamed io fsi works aligned no_time target entry.entry_start entry.slots
        (entry.entry attr_at)
        (u32 (first_cluster_of entry.entry))
        new_name
        2
        256
        0
        reader
        p
unfolding code fat.Lfn.lfn_entry fat.Lfn.fill_chars fat.ShortName.scan_short
rename-Renamed_example =
    rename-Renamed io fsi works aligned nobody no_time false superuser true buffer buffer buffer
      long_name new_name one_file source target entry 2 256 0 reader refl refl refl
      (omega arith, omega arith) refl (omega arith, omega arith) (omega arith) refl new_name-IsPlain
      (omega arith) (omega arith) (omega arith) refl refl
