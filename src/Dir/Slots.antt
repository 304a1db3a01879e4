-- ===== src/Dir/Slots.antt =====
-- Reading an entry after one was written.
use fat.Shared.{ℕ, ◌+◌, ◌-◌, ◌*◌, ◌≤◌, ◌<◌, ◌≡◌, ◌≢◌, ◌⊎◌, refl, sym, ap, ◌∙◌, arith}
use native.Mathlib.Decide.{ℕ_discrete}
use fat.Bytes.{Bytes}
use fat.Device.{BlockIo}
use fat.Fat.{Info, Volume, ok}
use fat.Fat.Entry.{InRange, fat_entry}
use fat.Cluster.{no_flags, cluster_to_sector, read_cluster}
use fat.Cluster.View.{Works, table}
use fat.Cluster.Follow.{Follows, seek_cluster-Follows}
use fat.Dir.{
  copy_in, copy_out, dentry_size, skip_of, place_of, read_at, write_at, read_fdentry, write_fdentry,
}
use fat.Cluster.Blocks.{Follows-same, fat_entry-with_block, same_block, other_block}

module _ {D : Type 0} (io : BlockIo D) (fsi : Info) where
  module _ (w : Works io fsi) where
    -- The volume after `entry` was written at a place of the cluster `c`.
    abbrev pub written : Bytes → ℕ → ℕ → Volume D → Volume D
    written entry c place v = record v {
      disk =
          io.bdwrite v.disk (cluster_to_sector fsi c) fsi.sectors_per_cluster
            (copy_in entry place (read_cluster io fsi v.disk c).bytes);
    }

    write_at-written :
        (entry : Bytes) (c place : ℕ) (v : Volume D)
        → write_at io fsi entry c place v ≡ (ok tt, written entry c place v)
    unfolding write_at read_cluster
    write_at-written entry c place v =
        rw (w.healthy.fine v.disk (cluster_to_sector fsi c) fsi.sectors_per_cluster) refl

    read_at-copy_out :
        (c place : ℕ) (v : Volume D)
        → read_at io fsi c place v ≡ (ok (copy_out (read_cluster io fsi v.disk c).bytes place), v)
    unfolding read_at read_cluster
    read_at-copy_out c place v =
        rw (w.healthy.fine v.disk (cluster_to_sector fsi c) fsi.sectors_per_cluster) refl

    -- An entry was written at `offset`, which lies in the cluster `c` of the directory. It is read back
    -- there; at every other place that does not overlap it, the directory reads as before; and the table is
    -- as before.
    pub record Stored (dir offset : ℕ) (entry : Bytes) (c : ℕ) (v v' : Volume D) : Type 0 where
      pub back :
          (b : Bytes) × (read_fdentry io fsi dir offset v' ≡ (ok b, v'))
          × ((i : ℕ) → i < dentry_size → b i ≡ entry i)
      pub elsewhere :
          (dir' offset' e : ℕ)
          → Follows io fsi v (skip_of fsi offset') dir' e
          → InRange fsi e
          → place_of fsi offset' + dentry_size ≤ fsi.sectors_per_cluster * 512
          → (c ≢ e)
            ⊎ ((place_of fsi offset' + dentry_size ≤ place_of fsi offset)
                ⊎ (place_of fsi offset + dentry_size ≤ place_of fsi offset'))
          → (b b' : Bytes) × (read_fdentry io fsi dir' offset' v ≡ (ok b, v))
            × (read_fdentry io fsi dir' offset' v' ≡ (ok b', v'))
            × ((i : ℕ) → i < dentry_size → b' i ≡ b i)
      pub table_same :
          (k e : ℕ)
          → k < fsi.num_fats
          → InRange fsi e
          → fat_entry io fsi v'.disk k e ≡ fat_entry io fsi v.disk k e

    table-written :
        (entry : Bytes) (c place : ℕ) (v : Volume D)
        → InRange fsi c
        → (e : ℕ) → InRange fsi e
        → table io fsi (written entry c place v) e ≡ table io fsi v e
    table-written entry c place v rc e re =
        fat_entry-with_block io fsi w _ c 0 e v rc w.geo.copies re

    pub copied :
        (entry b : Bytes) (place i : ℕ)
        → i < dentry_size
        → copy_in entry place b (place + i) ≡ entry i
    copied entry b place i lt =
        let back : place + i - place ≡ i = omega arith in ground (arith, ap entry back)

    pub read-Follows :
        (v : Volume D) (dir offset c : ℕ)
        → Follows io fsi v (skip_of fsi offset) dir c
        → read_fdentry io fsi dir offset v
          ≡ (ok (copy_out (read_cluster io fsi v.disk c).bytes (place_of fsi offset)), v)
    unfolding read_fdentry
    read-Follows v dir offset c f =
        rw (seek_cluster-Follows io fsi w v (skip_of fsi offset) dir c no_flags f)
          (read_at-copy_out c (place_of fsi offset) v)

    pub write-Follows :
        (v : Volume D) (dir offset c : ℕ) (entry : Bytes)
        → Follows io fsi v (skip_of fsi offset) dir c
        → write_fdentry io fsi dir offset entry v ≡ (ok tt, written entry c (place_of fsi offset) v)
    unfolding write_fdentry
    write-Follows v dir offset c entry f =
        rw (seek_cluster-Follows io fsi w v (skip_of fsi offset) dir c no_flags f)
          (write_at-written entry c (place_of fsi offset) v)

    away :
        (entry : Bytes) (c place e place' i : ℕ) (v : Volume D)
        → InRange fsi c
        → InRange fsi e
        → place' + dentry_size ≤ fsi.sectors_per_cluster * 512
        → i < dentry_size
        → (c ≢ e) ⊎ ((place' + dentry_size ≤ place) ⊎ (place + dentry_size ≤ place'))
        → (read_cluster io fsi (written entry c place v).disk e).bytes (place' + i)
          ≡ (read_cluster io fsi v.disk e).bytes (place' + i)
    away entry c place e place' i v rc re fits lt apart = elim (ℕ_discrete c e) [
      | yes p ↦ rw (sym p) (same_block io fsi w _ c (place' + i) v (omega arith) ∙ ground arith)
      | no p ↦ rw (other_block io fsi w _ c e v rc re p) refl
    ]

    -- On a volume whose layout is sound and a device without read errors (`Works`): writing an
    -- entry of a directory, at an offset whose cluster the links of the table lead to and which
    -- leaves room for the entry in its cluster, succeeds; the entry is read back at the offset;
    -- every place that does not overlap it, in this or another directory, reads as before, and so
    -- does every entry of every copy of the table.
    pub write_fdentry-Stored :
        (dir offset c : ℕ) (entry : Bytes) (v : Volume D)
        → Follows io fsi v (skip_of fsi offset) dir c
        → InRange fsi c
        → place_of fsi offset + dentry_size ≤ fsi.sectors_per_cluster * 512
        → (v' : Volume D) × (write_fdentry io fsi dir offset entry v ≡ (ok tt, v'))
          × Stored dir offset entry c v v'
    write_fdentry-Stored dir offset c entry v f rc fits =
        let place = place_of fsi offset in
        let v' = written entry c place v in
        (
          v',
          write-Follows v dir offset c entry f,
          record {
            back = (
              copy_out (read_cluster io fsi v'.disk c).bytes place,
              read-Follows v' dir offset c (
                  Follows-same io fsi v v' (skip_of fsi offset) dir c
                    (table-written entry c place v rc) f),
              λ i lt.
                  same_block io fsi w _ c (place + i) v (omega arith)
                  ∙ copied entry (read_cluster io fsi v.disk c).bytes place i lt,
            );
            elsewhere = λ dir' offset' e f' re fits' apart. (
              copy_out (read_cluster io fsi v.disk e).bytes (place_of fsi offset'),
              copy_out (read_cluster io fsi v'.disk e).bytes (place_of fsi offset'),
              read-Follows v dir' offset' e f',
              read-Follows v' dir' offset' e (
                  Follows-same io fsi v v' (skip_of fsi offset') dir' e
                    (table-written entry c place v rc) f'),
              λ i lt. away entry c place e (place_of fsi offset') i v rc re fits' lt apart,
            );
            table_same = λ k e hk re. fat_entry-with_block io fsi w _ c k e v rc hk re;
          },
        )
