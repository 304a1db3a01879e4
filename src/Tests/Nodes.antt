-- ===== src/Tests/Nodes.antt =====
-- The theorems on nodes, their cache and their truncation at the small volume, and runs of the code.
use fat.Shared.{ℕ, ◌≤◌, ◌≡◌, refl, true, false, List, [], ◌∷◌, arith, All, get_or, length}
use fat.Bytes.{rle32, wle32}
use fat.Fat.{ok, write_copies, rmw_cluster}
use fat.Fat.Entry.{fat_entry}
use fat.Cluster.{
  no_flags, cluster_to_sector, clear_blocks, clear_cluster, search_free, link_parent,
  note_allocated, allocate_cluster, next_cluster, free_walk, note_freed, free_clusters, seek_loop,
  seek_cluster,
}
use fat.Cluster.Free.{Freed}
use fat.Vnode.{
  Vnode, Wanted, Cred, vreg, clean, no_time, empty_cache, reg_mode, touch, make_vnode, faccess,
}
use fat.Vnode.Cache.{Open, find_slot, shift_down, update_cache, best_entry, vnode_seek_cluster}
use fat.Vnode.Truncate.{needed_clusters, truncate_to_zero, ensure_first, free_extra, truncate}
use fat.Vnode.Sound.{
  IsSound, plain_seek, vnode_seek_cluster-plain_seek, Sought, vnode_seek_cluster-Sought,
}
use fat.Vnode.Cut.{Cut}
use fat.Vnode.Shrink.{unused-IsRight, truncate-Cut, truncate-emptied}
use fat.Vnode.Access.{faccess_lem}
use fat.Lfn.{DName, num_lfn, lfn_entries, read_lfns}
use fat.Lfn.RoundTrip.{IsPlain, read_lfns-lfn_entries}
use fat.Tests.Disk.{Chunks, io, fsi, volume, works}

code : Unit {0}
unfolding rle32 wle32 write_copies rmw_cluster cluster_to_sector clear_blocks clear_cluster
    search_free link_parent note_allocated allocate_cluster next_cluster free_walk note_freed
    free_clusters seek_loop seek_cluster fat_entry touch make_vnode faccess find_slot shift_down
    update_cache best_entry vnode_seek_cluster needed_clusters truncate_to_zero ensure_first
    free_extra truncate
code = tt

-- A file of two clusters, from cluster 2 on.
abbrev file : Vnode
file = record {
  fv_cluster = 2;
  fv_type = vreg;
  fv_mode = reg_mode;
  fv_uid = 7;
  fv_gid = 8;
  fv_size = 700;
  fv_atime = no_time;
  fv_mtime = no_time;
  fv_ctime = no_time;
  fv_attr = 0;
  fv_diroff = 0;
  fv_dirsz = 1;
  fv_parent_cluster = 0;
  fv_parent_held = false;
  fv_cls_cache = empty_cache;
  fv_flags = clean;
}

abbrev pub opened : Open Chunks
opened = record { fv = file; vol = volume }

opened-IsSound : IsSound io fsi opened
opened-IsSound = unused-IsRight io fsi works volume 2 16

-- Growing the file by a cluster takes cluster 4.
grow_run : (truncate io fsi 1100 opened).1.vol.free_count ≡ 0
unfolding code
grow_run = refl

vnode_seek_cluster-plain_seek_example :
    vnode_seek_cluster io fsi 1 no_flags opened ≡ plain_seek io fsi 1 no_flags opened
vnode_seek_cluster-plain_seek_example =
    vnode_seek_cluster-plain_seek io fsi works 1 no_flags opened (omega arith) opened-IsSound

vnode_seek_cluster-Sought_example :
    Sought io fsi 1 opened (vnode_seek_cluster io fsi 1 no_flags opened)
vnode_seek_cluster-Sought_example =
    vnode_seek_cluster-Sought io fsi works 1 opened (omega arith) opened-IsSound

truncate-Cut_example :
    (t : Open Chunks) × (truncate io fsi 500 opened ≡ (ok tt, t))
    × Cut io fsi opened 0 (2 ∷ 3 ∷ []) t
    × (t.fv.fv_size ≡ 500)
unfolding code
truncate-Cut_example =
    truncate-Cut io fsi works opened 500 1 (2 ∷ 3 ∷ [])
      (record { size = refl; blocks = refl; mask = refl; small = omega arith }) opened-IsSound
      (refl, omega arith, refl, (refl, omega arith, refl, omega arith)) (omega arith) (omega arith)
      (omega arith) (omega arith) (omega arith)

truncate-emptied_example :
    (t : Open Chunks) × (truncate io fsi 0 opened ≡ (ok tt, t))
    × Freed io fsi works volume (λ k e. fat_entry io fsi volume.disk k e) (2 ∷ 3 ∷ []) t.vol
    × (t.fv ≡ record file {
      fv_cluster = 0;
      fv_size = 0;
      fv_cls_cache = empty_cache;
      fv_flags = record file.fv_flags { size_dirty = true; cluster_dirty = true; modified = true };
    })
    × IsSound io fsi t
unfolding code
truncate-emptied_example =
    truncate-emptied io fsi works opened (2 ∷ 3 ∷ []) (omega arith)
      (refl, omega arith, refl, (refl, omega arith, refl, omega arith)) (omega arith)

abbrev writing : Wanted
writing = record { vread = false; vwrite = true; vexec = false }

abbrev stranger : Cred
stranger = record { cr_uid = 9; groupmember = λ g. false }

faccess_lem_example : faccess false writing stranger file ≡ 13
unfolding code
faccess_lem_example = faccess_lem false writing stranger file

abbrev pub long_name : List ℕ
long_name =
    b'a' ∷ b' ' ∷ b'l' ∷ b'o' ∷ b'n' ∷ b'g' ∷ b' ' ∷ b'n' ∷ b'a' ∷ b'm' ∷ b'e' ∷ b'.' ∷ b't' ∷ b'e'
    ∷ b'x' ∷ b't' ∷ []

pub long_name-IsPlain : All IsPlain long_name
long_name-IsPlain = (
  omega arith,
  (
    omega arith,
    (
      omega arith,
      (
        omega arith,
        (
          omega arith,
          (
            omega arith,
            (
              omega arith,
              (
                omega arith,
                (
                  omega arith,
                  (
                    omega arith,
                    (
                      omega arith,
                      (omega arith, (omega arith, (omega arith, (omega arith, (omega arith, tt))))),
                    ),
                  ),
                ),
              ),
            ),
          ),
        ),
      ),
    ),
  ),
)

abbrev buffer : DName
buffer = record { d_name = λ _. 85; name_size = 256 }

read_lfns-lfn_entries_example :
    ((read_lfns 256 (lfn_entries long_name 99 (num_lfn long_name)) buffer).name_size
      ≡ length long_name)
    × ((x : ℕ)
        → x ≤ length long_name
        → (read_lfns 256 (lfn_entries long_name 99 (num_lfn long_name)) buffer).d_name x
          ≡ get_or long_name x 0)
read_lfns-lfn_entries_example =
    read_lfns-lfn_entries long_name long_name-IsPlain (omega arith) (omega arith) 99 256 buffer
      (omega arith) refl
