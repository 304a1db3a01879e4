-- ===== src/Tests/Slots.antt =====
-- The theorem on directory entries at the small volume, where cluster 2 and 3 are a directory, and
-- runs of the code on it.
use fat.Shared.{some, true, if◌then◌else◌, ap, ◌==◌, ◌+◌, ◌≡◌, refl, arith}
use fat.Bytes.{Bytes, rle32, wle32}
use fat.Fat.{Volume, ok, write_copies, rmw_cluster}
use fat.Fat.Entry.{fat_entry}
use fat.Cluster.{
  cluster_to_sector, read_cluster, clear_blocks, clear_cluster, search_free, link_parent,
  note_allocated, allocate_cluster, next_cluster, free_walk, note_freed, free_clusters, seek_loop,
  seek_cluster,
}
use fat.Dir.{read_at, write_at, read_fdentry, write_fdentry}
use fat.Dir.Slots.{Stored, write_fdentry-Stored}
use fat.Vnode.{Vnode}
use fat.Time.{FatTime, unix_to_fat_time}
use fat.Dir.Update.{update_entry}
use fat.Dir.Flush.{Flushed, update_entry-Flushed}
use fat.Dir.Scan.{Means, scan_entries-Means}
use fat.Dir.Alloc.{
  enough, scan_entries, go_on, follow_on, search_slots, add_clusters, grow, alloc_fdentry,
}
use fat.Tests.Disk.{Chunks, io, fsi, volume, works}
use fat.Tests.Nodes.{opened}

code : Unit {0}
unfolding rle32 wle32 write_copies rmw_cluster cluster_to_sector read_cluster clear_blocks
    clear_cluster search_free link_parent note_allocated allocate_cluster next_cluster free_walk
    note_freed free_clusters seek_loop seek_cluster fat_entry read_at write_at read_fdentry
    write_fdentry scan_entries go_on follow_on search_slots add_clusters grow alloc_fdentry
code = tt

abbrev entry : Bytes
entry i = i + 1

-- An empty directory has its first free entry at the start.
alloc_run : (alloc_fdentry io fsi (record { tv_sec = 0; tv_nsec = 0 }) 3 opened).0 ≡ ok 0
unfolding code
alloc_run = refl

write_fdentry-Stored_example :
    (v' : Volume Chunks) × (write_fdentry io fsi 2 544 entry volume ≡ (ok tt, v'))
    × Stored io fsi works 2 544 entry 3 volume v'
unfolding code
write_fdentry-Stored_example =
    write_fdentry-Stored io fsi works 2 544 3 entry volume ((omega arith, omega arith), refl)
      (omega arith) (omega arith)

-- A cluster with an entry in use, then deleted ones.
abbrev slots : Bytes
slots i = if i == 0 then 65 else 0xe5

scan_entries-Means_example : Means slots 2 128 (scan_entries slots 2 0 4 0 0 0)
scan_entries-Means_example =
    scan_entries-Means slots slots 2 0 4 0 0 0
      ((λ p. absurd (omega arith)), λ j lt. absurd (omega arith))
      (λ o lo hi. let e : 0 + o ≡ o = omega arith in ap slots e) (omega arith)

scan_run : scan_entries slots 2 0 4 0 0 0 ≡ enough 32
unfolding code
scan_run = refl

-- A file whose size and first cluster are to be written.
abbrev dirty_file : Vnode
dirty_file = record opened.fv {
  fv_flags = record opened.fv.fv_flags { size_dirty = true; cluster_dirty = true };
}

update_entry-Flushed_example :
    (a : FatTime) × (m : FatTime) × (c : FatTime) × (b' : Bytes) × (unix_to_fat_time
        dirty_file.fv_atime
      ≡ some a)
    × (unix_to_fat_time dirty_file.fv_mtime ≡ some m)
    × (unix_to_fat_time dirty_file.fv_ctime ≡ some c)
    × (update_entry dirty_file 32 entry ≡ some b')
    × Flushed dirty_file a m c 32 entry b'
update_entry-Flushed_example = update_entry-Flushed dirty_file 32 entry
