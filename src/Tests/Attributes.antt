-- ===== src/Tests/Attributes.antt =====
-- The attributes of a node at the small volume: the directory of clusters 2 and 3, and runs on the file.
use fat.Shared.{false, inl, ◌≡◌, ◌*◌, refl, true, [], ◌∷◌, none, some, arith}
use fat.Bytes.{rle32, wle32}
use fat.Fat.{ok, err}
use fat.Fat.Entry.{fat_entry}
use fat.Vnode.{Vnode, vdir, erofs}
use fat.Attr.{Changes, getattr, setattr, set_fields}
use fat.Attr.Mode.{Moded, flushed, setattr-Moded}
use fat.Attr.Size.{getattr-length}
use fat.Tests.Disk.{io, fsi, volume, works}
use fat.Tests.Nodes.{opened}

code : Unit {0}
unfolding rle32 wle32 fat_entry set_fields setattr
code = tt

abbrev directory : Vnode
directory = record opened.fv { fv_type = vdir }

getattr-length_example : getattr io fsi 7 directory volume ≡ (
  ok (record {
    va_type = directory.fv_type;
    va_mode = directory.fv_mode;
    va_uid = directory.fv_uid;
    va_gid = directory.fv_gid;
    va_fsid = 7;
    va_nodeid = directory.fv_cluster;
    va_nlink = 2;
    va_size = 2 * 512;
    va_nblocks = 2;
    va_atime = directory.fv_atime;
    va_mtime = directory.fv_mtime;
    va_ctime = directory.fv_ctime;
    va_blksize = fsi.bytes_per_cluster;
  }),
  volume,
)
unfolding code
getattr-length_example =
    getattr-length io fsi works 7 directory 2 (3 ∷ []) volume refl (omega arith)
      (refl, omega arith, refl, (refl, omega arith, refl, omega arith))

abbrev read_only : Changes
read_only = record {
  size = none;
  mode = some 256;
  uid = none;
  gid = none;
  atime = none;
  mtime = none;
  ctime = none;
}

-- Without a right to write, the read-only attribute is set.
mode_run : (set_fields read_only opened.fv).fv_attr ≡ 1
unfolding code
mode_run = refl

setattr-Moded_example :
    (n : Vnode) × Moded 256 opened.fv n
    × (setattr io fsi false read_only opened ≡ flushed io fsi (record opened { fv = n }))
    × ((setattr io fsi false read_only opened).1.fv.fv_mode ≡ 256)
    × ((setattr io fsi false read_only opened).1.fv.fv_attr ≡ n.fv_attr)
    × (setattr io fsi true read_only opened ≡ (err erofs, opened))
setattr-Moded_example = setattr-Moded io fsi read_only 256 opened opened refl (inl (refl, refl))

rofs_run : setattr io fsi true read_only opened ≡ (err erofs, opened)
unfolding code
rofs_run = refl
