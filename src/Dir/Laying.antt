-- ===== src/Dir/Laying.antt =====
-- fat32_write_fdentry and fat32_write_lfn_fdentry lay the entries of a name, where there is room.
use fat.Shared.{ℕ, zero, suc, ◌+◌, ◌-◌, ◌≤◌, ◌<◌, ◌≡◌, refl, List, arith}
use mathlib.Core.Path.{subst}
use fat.Bytes.{Bytes}
use fat.Device.{BlockIo}
use fat.Fat.{Info, Volume, ok}
use fat.Cluster.View.{Works}
use fat.ShortName.{checksum}
use fat.Lfn.{lfn_entry, num_lfn}
use fat.Dir.{write_fdentry, write_lfns, write_lfn_fdentry}
use fat.Dir.Slots.{written}
use fat.Dir.Laid.{
  name_slot, Room, Laid, Laid-none, Laid-one, Laid-last, Room-Kept, write_slot, written-Kept, off,
  at,
}

module _ {D : Type 0} (io : BlockIo D) (fsi : Info) (w : Works io fsi) (dir start n : ℕ)
    (cl : ℕ → ℕ) where
  -- Laying entries that the function `f` numbers from the front.
  write_lfns-Laid :
      (long_name : List ℕ) (sum lo i : ℕ) (f : ℕ → Bytes) (v : Volume D)
      → lo + i ≡ num_lfn long_name
      → num_lfn long_name ≤ n
      → ((k : ℕ) → k < num_lfn long_name → lfn_entry long_name sum (num_lfn long_name - k) ≡ f k)
      → Room io fsi w dir start n cl v
      → (v' : Volume D) × (write_lfns io fsi dir start long_name sum i v ≡ (ok tt, v'))
        × Laid io fsi w dir start n cl lo (num_lfn long_name) f v v'
  unfolding write_lfns
  write_lfns-Laid long_name sum lo zero f v e few h room =
      let all : num_lfn long_name ≡ lo = omega arith in
      (v, refl, rw all (Laid-none io fsi w dir start n cl lo f v))
  write_lfns-Laid long_name sum lo (suc i) f v e few h room =
      let place : num_lfn long_name - suc i ≡ lo = omega arith in
      let back : num_lfn long_name - lo ≡ suc i = omega arith in
      let entry : lfn_entry long_name sum (suc i) ≡ f lo = rw back at (h lo (omega arith)) in
      let v1 = written io fsi w (f lo) (cl lo) (at io fsi w dir start n cl lo) v in
      let (v', eq, laid) = write_lfns-Laid long_name sum (suc lo) i f v1 (omega arith) few h (
        Room-Kept io fsi w dir start n cl v v1
          (written-Kept io fsi w (f lo) (cl lo) (at io fsi w dir start n cl lo) v
            (room.inside lo (omega arith)))
          room) in
      rw (place, entry, write_slot io fsi w dir start n cl lo (f lo) v (omega arith) room)
        (
          v',
          eq,
          Laid-one io fsi w dir start n cl lo (num_lfn long_name) f v v' (omega arith) few room
              laid,
        )

  pub write_lfn_fdentry-Laid :
      (long_name : List ℕ) (d83 : Bytes) (v : Volume D)
      → num_lfn long_name < n
      → Room io fsi w dir start n cl v
      → (v' : Volume D) × (write_lfn_fdentry io fsi dir start d83 long_name v ≡ (ok tt, v'))
        × Laid io fsi w dir start n cl 0 (suc (num_lfn long_name)) (name_slot long_name d83) v v'
  unfolding write_lfn_fdentry
  write_lfn_fdentry-Laid long_name d83 v few room =
      let num = num_lfn long_name in
      let (v', eq, laid) =
        write_lfns-Laid long_name (checksum d83) 0 num (name_slot long_name d83) v (omega arith)
          (omega arith) (λ k lt. ground arith) room in
      let last : name_slot long_name d83 num ≡ d83 = ground arith in
      rw
        (
          eq,
          write_slot io fsi w dir start n cl num d83 v' few
              (Room-Kept io fsi w dir start n cl v v' laid.kept room),
        )
        (
          written io fsi w d83 (cl num) (at io fsi w dir start n cl num) v',
          refl,
          subst
              (λ b.
                Laid io fsi w dir start n cl 0 (suc num) (name_slot long_name d83) v
                  (written io fsi w b (cl num) (at io fsi w dir start n cl num) v'))
              last
              (Laid-last io fsi w dir start n cl 0 num (name_slot long_name d83) v v' (omega arith)
                few room laid),
        )

  -- The single entry of a short name.
  pub write_fdentry-Laid :
      (f : ℕ → Bytes) (v : Volume D)
      → 0 < n
      → Room io fsi w dir start n cl v
      → (v' : Volume D) × (write_fdentry io fsi dir (off io fsi w dir start n cl 0) (f 0) v
          ≡ (ok tt, v'))
        × Laid io fsi w dir start n cl 0 1 f v v'
  write_fdentry-Laid f v few room = (
    written io fsi w (f 0) (cl 0) (at io fsi w dir start n cl 0) v,
    write_slot io fsi w dir start n cl 0 (f 0) v few room,
    Laid-last io fsi w dir start n cl 0 0 f v v (omega arith) few room
        (Laid-none io fsi w dir start n cl 0 f v),
  )
