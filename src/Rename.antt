-- ===== src/Rename.antt =====
-- fat32_rename of fat32_vnode.c, where both calls of fat32_vnode_new give a node, whose pointer the code
-- does not test. The two directories may be one object, which `tdvp` says. The locks have no counterpart:
-- the call of fat32_remove_common, which takes a lock that is held, is modelled as if it were granted.
pub mod InPlace
pub mod Renamed
use fat.Shared.{
  ℕ, ◌+◌, ◌-◌, ◌*◌, Bool, true, false, not, ◌&&◌, ◌||◌, Option, none, some, List, [], ◌∷◌, ltb, leb,
  ◌==◌, if◌then◌else◌, u32,
}
use fat.Bytes.{Bytes}
use fat.Device.{BlockIo}
use fat.Time.{Timespec}
use fat.Fat.{Info, Volume, Ret, ok, err, stuck, M, cluster_min, cluster_bad, ◌>>=◌}
use fat.Lfn.{DName}
use fat.Vnode.{Vnode, Owner, Cred, vnode_init, vnode_reset, touch, is_dir}
use fat.Vnode.Cache.{Open, Vm, chain, lift, modify}
use fat.Mount.{zeroed}
use fat.File.{eisdir}
use fat.Dir.{dentry_size, set_cluster, read_fdentry, write_fdentry}
use fat.Dir.Dirent.{Dirent, enoent, enotdir, populate, find_dirent}
use fat.Dir.Create.{CreFlags, slots_of, create_fdentry}
use fat.Make.{eexist, found_node}
use fat.Ops.{dirempty, delete_fdentry_chain, pass_over, remove_common}

-- sdvp and tdvp with the volume; `none` where both are the same object.
pub record Dirs (D : Type 0) : Type 0 where
  pub sdvp : Vnode
  pub tdvp : Option Vnode
  pub vol : Volume D

abbrev pub Rm : Type 0 → Type 0 → Type 0
Rm D A = Dirs D → Ret A × Dirs D

abbrev pub follow : {D A B : Type 0} → Ret A × Dirs D → (A → Rm D B) → Ret B × Dirs D
follow (ok a, p) f = f a p
follow (err e, p) f = (err e, p)
follow (stuck, p) f = (stuck, p)

abbrev pub source : {D : Type 0} → Dirs D → Open D
source p = record { fv = p.sdvp; vol = p.vol }

abbrev pub target_fv : {D : Type 0} → Dirs D → Vnode
target_fv p = elim p.tdvp [ none ↦ p.sdvp | some t ↦ t ]

-- A function on the source directory, and one on the target directory.
abbrev pub on_source : {D A : Type 0} → Vm D A → Rm D A
on_source m p =
    let r = m (source p) in (r.0, record { sdvp = r.1.fv; tdvp = p.tdvp; vol = r.1.vol })

abbrev pub on_target : {D A : Type 0} → Vm D A → Rm D A
on_target m p =
    let r = m (record { fv = target_fv p; vol = p.vol }) in
    let apart : Ret _ × Dirs _ =
      (r.0, record { sdvp = p.sdvp; tdvp = some r.1.fv; vol = r.1.vol }) in
    elim p.tdvp [ none ↦ on_source m p | some t ↦ apart ]

abbrev pub same_name : List ℕ → List ℕ → Bool
same_name [] [] = true
same_name [] (d ∷ ds) = false
same_name (c ∷ cs) [] = false
same_name (c ∷ cs) (d ∷ ds) = c == d && same_name cs ds

-- FAT32_CRE_RENAME, with FAT32_CRE_DIR for a directory, and FAT32_CRE_REUSE where it is given.
abbrev pub rename_flags : Bool → Vnode → CreFlags
rename_flags reuse fv = record { cre_dir = is_dir fv.fv_type; cre_rename = true; cre_reuse = reuse }

module _ {D : Type 0} (io : BlockIo D) (fsi : Info) (owner : Owner) (now : Timespec) where
  -- The tests of a target that exists, behind which fat32_remove_common is called; a result of
  -- fat32_dirempty other than 0 lets it go on.
  abbrev pub admit : Vnode → Vnode → M D (Unit {0})
  admit fv target v =
      let tested : Ret (Unit {0}) × Volume D → Ret (Unit {0}) × Volume D =
        λ r. elim r.0 [ ok x ↦ (err eexist, r.1) | err e ↦ (ok tt, r.1) | stuck ↦ (stuck, r.1) ] in
      if is_dir target.fv_type
      then (if not (is_dir fv.fv_type) then (err eisdir, v) else tested (dirempty io fsi target v))
      else if is_dir fv.fv_type
      then (err enotdir, v)
      else (ok tt, v)

  -- The answer to the search for the target: what is there is removed.
  unfoldable pub clear_target :
      Bool → Cred → Bool → DName → List ℕ → Vnode → Ret Dirent × Dirs D → Ret (Unit {0}) × Dirs D
  clear_target rdonly cr allocated buffer tnm fv (ok d, p) =
      let target =
        populate (target_fv p).fv_cluster d (vnode_reset owner (vnode_init owner zeroed)) in
      follow {D = D} (on_target (lift (admit fv target)) p) λ _.
        on_target (
          remove_common io fsi owner now rdonly cr allocated buffer tnm (is_dir target.fv_type)
            none)
  clear_target rdonly cr allocated buffer tnm fv (err e, p) =
      if e == enoent then (ok tt, p) else (err e, p)
  clear_target rdonly cr allocated buffer tnm fv (stuck, p) = (stuck, p)

  -- The entries of the new name in the place of the old ones; what is left of those is marked as
  -- deleted, and an error of that is not looked at.
  unfoldable pub rename_in_place : List ℕ → Vnode → Vm D Vnode
  rename_in_place tnm fv s =
      let new_dirsz = slots_of tnm in
      let cut : Vm D (Unit {0}) = lift (λ v. pass_over (
        delete_fdentry_chain io fsi s.fv.fv_cluster (u32 (fv.fv_diroff + new_dirsz * dentry_size))
          (fv.fv_dirsz - new_dirsz) v)) in
      chain {D = D} (create_fdentry io fsi (rename_flags true fv) owner now true tnm fv s) λ n t.
        if ltb new_dirsz fv.fv_dirsz then chain {D = D} (cut t) (λ _ u. (ok n, u)) else (ok n, t)

  -- The old entries are marked as deleted, and new ones are made in the target directory.
  unfoldable pub move_entry : List ℕ → Vnode → Rm D Vnode
  move_entry tnm fv p =
      follow {D = D}
        (on_source (lift (delete_fdentry_chain io fsi p.sdvp.fv_cluster fv.fv_diroff fv.fv_dirsz))
          p)
        λ _. on_target (create_fdentry io fsi (rename_flags false fv) owner now true tnm fv)

  -- The entry `..` of a directory that has moved; errors are passed over.
  unfoldable pub update_dotdot : Vnode → ℕ → M D (Unit {0})
  update_dotdot fv target_cluster v =
      let parent_clus = if target_cluster == fsi.root_cluster then 0 else target_cluster in
      let rewrite : M D (Unit {0}) = do
        dotdot ← read_fdentry io fsi fv.fv_cluster 32
        write_fdentry io fsi fv.fv_cluster 32 (set_cluster parent_clus dotdot)
      in if ltb fv.fv_cluster cluster_min || fv.fv_cluster == cluster_bad
        then (ok tt, v)
        else pass_over (rewrite v)

  -- What follows the entries: `..`, and the modification times of the directories.
  unfoldable pub settle : Bool → Vnode → Rm D (Unit {0})
  settle same_dir fv p =
      let touched : Rm D (Unit {0}) = λ q.
        follow {D = D} (on_source (modify (touch now false true)) q)
          λ _ u. if same_dir then (ok tt, u) else on_target (modify (touch now false true)) u in
      if is_dir fv.fv_type && not same_dir
      then follow {D = D} (on_source (lift (update_dotdot fv (target_fv p).fv_cluster)) p)
          (λ _. touched)
      else touched p

  -- fat32_rename behind the searches: `fv` is the node of the source.
  unfoldable pub rename_found :
      Bool → Cred → Bool → DName → DName → List ℕ → Bool → Vnode → Rm D (Unit {0})
  rename_found rdonly cr allocated buffer removing tnm same_dir fv p =
      follow {D = D}
        (clear_target rdonly cr allocated removing tnm fv
          (on_target (find_dirent io fsi tnm buffer) p))
        λ _ q.
          follow {D = D}
            (if same_dir && leb (slots_of tnm) fv.fv_dirsz
              then on_source (rename_in_place tnm fv) q
              else move_entry tnm fv q)
            (settle same_dir)

  -- fat32_rename; `buffer`, `buffer2` and `removing` are what the local d_name holds at the start of each
  -- search.
  unfoldable pub rename :
      Bool → Cred → Bool → DName → DName → DName → List ℕ → List ℕ → Rm D (Unit {0})
  rename rdonly cr allocated buffer buffer2 removing snm tnm p =
      let same_dir = p.sdvp.fv_cluster == (target_fv p).fv_cluster in
      if same_dir && same_name snm tnm
      then (ok tt, p)
      else follow {D = D} (on_source (find_dirent io fsi snm buffer) p) λ d q.
        rename_found rdonly cr allocated buffer2 removing tnm same_dir
          (found_node owner (vnode_init owner zeroed) (source q) d) q
