-- ===== src/Tests/Create.antt =====
-- The theorems on new directory entries at the small volume, whose directory of cluster 2 is free from
-- offset 64 on: a file is renamed in its place.
use fat.Shared.{ℕ, u32, ◌+◌, ◌≡◌, refl, true, false, inl, arith}
use fat.Bytes.{rle32, wle32}
use fat.Fat.{ok}
use fat.Fat.Entry.{fat_entry}
use fat.Cluster.{cluster_to_sector, read_cluster}
use fat.ShortName.{name_is_short}
use fat.Lfn.{num_lfn}
use fat.Vnode.{Vnode, Owner, vdir, no_time}
use fat.Vnode.Cache.{Open}
use fat.Dir.Dirent.{Reader}
use fat.Dir.Within.{Within}
use fat.Dir.Create.{CreFlags, slots_of, create_fdentry}
use fat.Dir.Created.{HasAttr}
use fat.Dir.Placed.{Created, own_cluster}
use fat.Dir.Listed.{Found, create_fdentry-Found}
use fat.Tests.Disk.{Chunks, io, fsi, volume, works}
use fat.Tests.Nodes.{opened, long_name, long_name-IsPlain}
use fat.Tests.Files.{aligned}

code : Unit {0}
unfolding rle32 wle32 fat_entry cluster_to_sector read_cluster name_is_short slots_of
code = tt

abbrev directory : Open Chunks
directory = record { fv = record opened.fv { fv_type = vdir }; vol = volume }

abbrev renaming : CreFlags
renaming = record { cre_dir = false; cre_rename = true; cre_reuse = true }

abbrev pub nobody : Owner
nobody = record { fsi_uid = 0; fsi_gid = 0 }

-- A file with its three entries at offset 64.
abbrev renamed : Vnode
renamed = record opened.fv { fv_cluster = 3; fv_diroff = 64; fv_dirsz = 3 }

abbrev pub reader : Reader
reader = record {
  name = record { d_name = λ _. 0; name_size = 256 };
  has_lfn = false;
  entry_start = 0;
  offset = 0;
}

within : Within io fsi works aligned 2 64 (num_lfn long_name + 1) 2
within = (omega arith, omega arith)

create_fdentry-Found_example :
    (fv' : Vnode) × (a : ℕ) × (u : Open Chunks) × (create_fdentry io fsi renaming nobody no_time
        true long_name renamed directory
      ≡ (ok fv', u))
    × HasAttr renaming renamed a
    × Found io fsi works aligned 2 64 long_name a
        (u32 (own_cluster renaming renamed))
        (read_cluster io fsi u.vol.disk 2).bytes
        256
        0
        reader
unfolding code
create_fdentry-Found_example =
    create_fdentry-Found io fsi works aligned renaming nobody no_time true long_name renamed
      directory 64 directory 2 256 0 reader (inl refl) (inl (refl, refl, refl))
      (omega arith, omega arith) refl within refl long_name-IsPlain (omega arith) (omega arith)
      (omega arith) refl (λ p. refl)
