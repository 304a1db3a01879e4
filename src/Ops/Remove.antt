-- ===== src/Ops/Remove.antt =====
-- fat32_remove_common on all of its branches: what it removes is no directory in use, and what it frees
-- is what the entry owned.
use fat.Shared.{ℕ, ◌≡◌, ◌⊎◌, Bool, true, false, List, test_bit}
use fat.Device.{BlockIo}
use fat.Time.{Timespec}
use fat.Fat.{Info, Volume, Ret, ok, err, stuck}
use fat.Fat.Entry.{fat_entry}
use fat.Cluster.View.{Works}
use fat.Cluster.Free.{Freed}
use fat.Vnode.{Vnode, is_dir, touch}
use fat.Vnode.Cache.{Open}
use fat.Dir.{attr_at}
use fat.Dir.Dirent.{Dirent, directory_bit}
use fat.Ops.Empty.{IsInUse, directory_entries}

module _ {D : Type 0} (io : BlockIo D) (fsi : Info) (w : Works io fsi) where
  -- The answer of the refusals: nothing has changed, and a node that passes is of the wanted kind and,
  -- if a directory, not in use.
  abbrev Refused : Bool → Vnode → Volume D → List ℕ → Ret (Unit {0}) × Volume D → Type 0
  Refused dir fv v xs (ok x, v') =
      (v' ≡ v)
      × (is_dir fv.fv_type ≡ dir)
      × (dir ≡ true → ¬ IsInUse (directory_entries io fsi v xs))
  Refused dir fv v xs (err e, v') = v' ≡ v
  Refused dir fv v xs (stuck, v') = ⊥

  -- What a removal in the directory `s` leaves, where the search for the name left `t` and gave the entry
  -- `d` of a file or directory with the clusters `xs`.
  abbrev pub Removed :
      Bool → Timespec → Open D → Open D → Dirent → List ℕ → Ret (Unit {0}) × Open D → Type 0
  Removed dir now s t d xs (ok x, u) =
      Freed io fsi w t.vol (λ k e. fat_entry io fsi t.vol.disk k e) xs u.vol
      × (test_bit (d.entry attr_at) directory_bit ≡ dir)
      × (dir ≡ true → ¬ IsInUse (directory_entries io fsi t.vol xs))
      × (u.fv ≡ touch now false true t.fv)
  Removed dir now s t d xs (err e, u) = (u ≡ s) ⊎ (u ≡ t)
  Removed dir now s t d xs (stuck, u) = ⊥
