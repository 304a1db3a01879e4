-- ===== src/Tests/Chains.antt =====
-- The theorems on the table and its chains at the small volume, and runs of the code on it.
use fat.Shared.{
  ℕ, ◌≡◌, refl, inr, true, false, some, [], ◌∷◌, arith, ◌<◌, ◌^◌, ◌%◌, if◌then◌else◌, ◌==◌,
}
use fat.Bytes.{rle32, wle32}
use fat.Fat.{Volume, ok, write_copies, rmw_cluster, cluster_eoc}
use fat.Fat.Entry.{InRange, fat_entry}
use fat.Cluster.{
  no_flags, cluster_to_sector, clear_blocks, clear_cluster, search_free, search_start, link_parent,
  note_allocated, allocate_cluster, next_cluster, free_walk, note_freed, free_clusters, seek_loop,
  seek_cluster,
}
use fat.Cluster.View.{table, rmw_cluster-update}
use fat.Cluster.Search.{Searched, search_free-Searched}
use fat.Cluster.Allocate.{Allocated, allocate_cluster-Allocated}
use fat.Cluster.Follow.{Walked, next_cluster-Walked, seek_cluster-Walked}
use fat.Cluster.Free.{Freed, free_clusters-whole, free_clusters-tail}
use fat.Cluster.Ends.{Returned, free_clusters-Returned}
use fat.Tests.Disk.{io, fsi, volume, works}

code : Unit {0}
unfolding rle32 wle32 write_copies rmw_cluster cluster_to_sector clear_blocks clear_cluster
    search_free link_parent note_allocated allocate_cluster next_cluster free_walk note_freed
    free_clusters seek_loop seek_cluster fat_entry
code = tt

-- The search finds cluster 4, and allocation links it behind 3.
allocate_run : (allocate_cluster io fsi 3 no_flags volume).0 ≡ ok 4
unfolding code
allocate_run = refl

seek_run : (seek_cluster io fsi 2 1 no_flags volume).0 ≡ ok 3
unfolding code
seek_run = refl

free_run : (free_clusters io fsi 2 true volume).1.free_count ≡ 3
unfolding code
free_run = refl

search_free-Searched_example :
    Searched io fsi volume
      (search_free io fsi (search_start io fsi volume) 3 (search_start io fsi volume) volume)
search_free-Searched_example = search_free-Searched io fsi works volume

allocate_cluster-Allocated_example :
    Allocated io fsi 3 volume (allocate_cluster io fsi 3 no_flags volume)
allocate_cluster-Allocated_example =
    allocate_cluster-Allocated io fsi works 3 (inr (omega arith)) no_flags volume (omega arith)
      (omega arith)

next_cluster-Walked_example : Walked io fsi volume 1 2 (next_cluster io fsi 2 no_flags volume)
next_cluster-Walked_example = next_cluster-Walked io fsi works volume 2

seek_cluster-Walked_example : Walked io fsi volume 1 2 (seek_cluster io fsi 2 1 no_flags volume)
seek_cluster-Walked_example = seek_cluster-Walked io fsi works volume 1 2

free_clusters-whole_example :
    (v' : Volume _) × (free_clusters io fsi 2 true volume ≡ (ok tt, v'))
    × Freed io fsi works volume (λ k e. fat_entry io fsi volume.disk k e) (2 ∷ 3 ∷ []) v'
unfolding code
free_clusters-whole_example =
    free_clusters-whole io fsi works 2 (2 ∷ 3 ∷ []) volume (omega arith) (omega arith)
      (refl, omega arith, refl, (refl, omega arith, refl, omega arith))

free_clusters-tail_example :
    (v' : Volume _) × (free_clusters io fsi 2 false volume ≡ (ok tt, v'))
    × Freed io fsi works volume
        (λ k e. if e == 2 then cluster_eoc else fat_entry io fsi volume.disk k e)
        (3 ∷ [])
        v'
unfolding code
free_clusters-tail_example =
    free_clusters-tail io fsi works 2 (3 ∷ []) volume (omega arith)
      (refl, omega arith, refl, (refl, omega arith, refl, omega arith))

free_clusters-Returned_example : Returned (free_clusters io fsi 3 true volume)
free_clusters-Returned_example = free_clusters-Returned io fsi works 3 true volume

rmw_cluster-update_example :
    (v' : Volume _) × (rmw_cluster io fsi 4 (some 3) volume ≡ (ok (table io fsi volume 4), v'))
    × ((k e : ℕ)
        → k < 2
        → InRange fsi e
        → fat_entry io fsi v'.disk k e
          ≡ (if e == 4 then 3 % 2 ^ 28 else fat_entry io fsi volume.disk k e))
rmw_cluster-update_example = rmw_cluster-update io fsi works 4 3 volume (omega arith)
