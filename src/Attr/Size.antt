-- ===== src/Attr/Size.antt =====
-- The sizes that fat32_getattr answers.
use fat.Shared.{
  if◌then◌else◌, ℕ, zero, suc, ◌+◌, ◌*◌, ◌^◌, ◌<◌, ◌≡◌, refl, ap, ◌∙◌, true, List, [], ◌∷◌,
  ==_false, arith, length, leb, ltb, ◌&&◌, u32,
}
use fat.Device.{BlockIo}
use fat.Fat.{Info, Volume, ok, cluster_eoc_min, cluster_min}
use fat.Fat.Entry.{InRange}
use fat.Cluster.{no_flags}
use fat.Cluster.View.{Works, table}
use fat.Cluster.Chain.{IsChain}
use fat.Cluster.Count.{used-le, length-IsChain}
use fat.Cluster.Follow.{next_cluster-last, next_cluster-IsLink}
use fat.Vnode.{Vnode, is_dir}
use fat.Attr.{count_loop, count_fuel, getattr, vattr_of, counted_attr}

module _ {D : Type 0} (io : BlockIo D) (fsi : Info) (w : Works io fsi) where
  in_data : (c : ℕ) → InRange fsi c → (leb cluster_min c && ltb c cluster_eoc_min) ≡ true
  in_data c r = ground (arith, w.geo.clusters)

  count_loop-length :
      (fuel x n : ℕ) (xs : List ℕ) (v : Volume D)
      → length xs < fuel
      → n + suc (length xs) < 2 ^ 32
      → IsChain fsi (table io fsi v) x (x ∷ xs)
      → count_loop io fsi fuel x n v ≡ (ok (n + suc (length xs)), v)
  unfolding count_loop
  count_loop-length zero x n xs v few small c = absurd (omega arith)
  count_loop-length (suc fuel) x n [] v few small (_, r, _, last) =
      let (e, ends) = next_cluster-last io fsi w v x last in
      rw (in_data x r, ends) (ap (λ (k : ℕ). (ok k, v)) (omega arith))
  count_loop-length (suc fuel) x n (y ∷ ys) v few small (_, r, _, (at, ry, out, rest)) =
      let e : u32 (n + 1) + suc (length ys) ≡ n + suc (suc (length ys)) = omega arith in
      rw (in_data x r, next_cluster-IsLink io fsi w v x no_flags (r, rw at ry), at)
        (count_loop-length fuel y (u32 (n + 1)) ys v (omega arith) (omega arith)
            (refl, ry, out, rest)
          ∙ ap (λ (k : ℕ). (ok k, v)) e)

  sized :
      (dev : ℕ) (fv : Vnode) (n m : ℕ) (v : Volume D)
      → n ≡ suc m
      → u32 (suc m * fsi.bytes_per_cluster) ≡ suc m * fsi.bytes_per_cluster
      → counted_attr io fsi dev fv (ok n, v)
        ≡ (ok (vattr_of io fsi dev fv (suc m * fsi.bytes_per_cluster) (suc m)), v)
  sized dev fv n m v h e =
      rw (h, ==_false {a = suc m} {b = 0} (omega arith))
        (ap (λ (k : ℕ). (ok (vattr_of io fsi dev fv k (suc m)), v)) e)

  -- On a volume whose layout is sound and a device without read errors (`Works`): for a directory whose
  -- clusters are a chain of the table up to its end mark, of less than 4 GiB, fat32_getattr ends and
  -- changes nothing; the number of blocks is the length of the chain and the size the bytes of its
  -- clusters, the kind, the mode, the owner, the group and the three times are those of the node, the
  -- node's number is its first cluster, and there are two links.
  pub getattr-length :
      (dev : ℕ) (fv : Vnode) (x : ℕ) (xs : List ℕ) (v : Volume D)
      → is_dir fv.fv_type ≡ true
      → suc (length xs) * fsi.bytes_per_cluster < 2 ^ 32
      → IsChain fsi (table io fsi v) fv.fv_cluster (x ∷ xs)
      → getattr io fsi dev fv v ≡ (
        ok (record {
          va_type = fv.fv_type;
          va_mode = fv.fv_mode;
          va_uid = fv.fv_uid;
          va_gid = fv.fv_gid;
          va_fsid = dev;
          va_nodeid = fv.fv_cluster;
          va_nlink = 2;
          va_size = suc (length xs) * fsi.bytes_per_cluster;
          va_nblocks = suc (length xs);
          va_atime = fv.fv_atime;
          va_mtime = fv.fv_mtime;
          va_ctime = fv.fv_ctime;
          va_blksize = fsi.bytes_per_cluster;
        }),
        v,
      )
  unfolding getattr
  getattr-length dev fv x xs v dir small (at, r, out, rest) =
      let few = length-IsChain fsi (table io fsi v) x (x ∷ xs) (refl, r, out, rest) in
      let bound = used-le fsi.cluster_count (table io fsi v) in
      let e : u32 (suc (length xs) * fsi.bytes_per_cluster)
          ≡ suc (length xs) * fsi.bytes_per_cluster =
        omega arith in
      let taken : getattr io fsi dev fv v
          ≡ counted_attr io fsi dev fv (count_loop io fsi (count_fuel io fsi) fv.fv_cluster 0 v) =
        rw dir refl in
      let counted : count_loop io fsi (count_fuel io fsi) fv.fv_cluster 0 v
          ≡ (ok (0 + suc (length xs)), v) =
        rw at (
          count_loop-length (count_fuel io fsi) x 0 xs v (omega (arith, few, bound))
            (omega (arith, few, bound, w.geo.clusters)) (refl, r, out, rest)) in
      taken
      ∙ ap (counted_attr io fsi dev fv) counted
      ∙ sized dev fv (0 + suc (length xs)) (length xs) v (omega arith) e
      ∙ ap
          (λ d. (
            ok
                (record (vattr_of io fsi dev fv (suc (length xs) * fsi.bytes_per_cluster)
                  (suc (length xs))) { va_nlink = if d then 2 else 1 }),
            v,
          ))
          dir
