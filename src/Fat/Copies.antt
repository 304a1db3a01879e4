-- ===== src/Fat/Copies.antt =====
-- What the loop of fat32_rmw_cluster over the copies of the table leaves on the device.
use fat.Shared.{
  ℕ, zero, suc, ◌+◌, ◌*◌, ◌^◌, ◌≤◌, ◌<◌, ◌≡◌, refl, ap, ◌∙◌, ◌⊎◌, inl, inr, Option, none, some,
  arith, u32,
}
use fat.Bytes.{wle32}
use fat.Device.{Buf, BlockIo, IsCache, IsHealthy}
use fat.Fat.{Info, Volume, ok, write_copies}

module _ {D : Type 0} (io : BlockIo D) (fsi : Info) (new entry_offset : ℕ) where
  -- The device after one copy's entry was written at sector `s`, and after `left` of them.
  abbrev pub poke : ℕ → D → D
  poke s d = io.bdwrite d s 1 (wle32 new (io.bread d s 1).bytes entry_offset)

  abbrev pub poke_all : ℕ → ℕ → D → D
  poke_all zero s d = d
  poke_all (suc left) s d = poke_all left (s + fsi.fat_size) (poke s d)

  module _ (healthy : IsHealthy io) where
    pub write_copies-ok :
        (left s : ℕ) (bp0 : Option Buf) (v : Volume D)
        → (bp0 ≡ none) ⊎ (bp0 ≡ some (io.bread v.disk s 1))
        → s + left * fsi.fat_size < 2 ^ 32
        → write_copies io fsi new entry_offset left bp0 s v
          ≡ (ok tt, record v { disk = poke_all left s v.disk })
    unfolding write_copies
    write_copies-ok zero s bp0 v e h = refl
    write_copies-ok (suc left) s none v e h =
        rw (healthy.fine v.disk s 1, no_wrap)
          (write_copies-ok left (s + fsi.fat_size) none (record v { disk = poke s v.disk })
            (inl refl) (omega arith))
      where
        no_wrap : u32 (s + fsi.fat_size) ≡ s + fsi.fat_size
        no_wrap = omega arith
    write_copies-ok (suc left) s (some b) v (inl e) h = cc
    write_copies-ok (suc left) s (some b) v (inr e) h =
        rw (same, healthy.fine v.disk s 1, no_wrap)
          (write_copies-ok left (s + fsi.fat_size) none (record v { disk = poke s v.disk })
            (inl refl) (omega arith))
      where
        same : b ≡ io.bread v.disk s 1
        same = cc

        no_wrap : u32 (s + fsi.fat_size) ≡ s + fsi.fat_size
        no_wrap = omega arith

  module _ (cache : IsCache io) where
    -- A chunk that holds none of the sectors that were written is as before.
    pub poke_all-other :
        (left s : ℕ) (d : D) (t m : ℕ)
        → ((j : ℕ) → j < left → (t + m ≤ s + j * fsi.fat_size) ⊎ (s + j * fsi.fat_size + 1 ≤ t))
        → io.bread (poke_all left s d) t m ≡ io.bread d t m
    poke_all-other zero s d t m apart = refl
    poke_all-other (suc left) s d t m apart =
        poke_all-other left (s + fsi.fat_size) (poke s d) t m (λ j h. ground (arith, apart (suc j)))
        ∙ cache.other d s 1 _ t m (ground (arith, apart 0))

    -- Each copy's sector holds the new entry, and its other bytes are as before.
    pub poke_all-same :
        (left s : ℕ) (d : D) (j i : ℕ)
        → j < left
        → 0 < fsi.fat_size
        → i < 512
        → (io.bread (poke_all left s d) (s + j * fsi.fat_size) 1).bytes i
          ≡ wle32 new (io.bread d (s + j * fsi.fat_size) 1).bytes entry_offset i
    poke_all-same zero s d j i h f b = elim h [ ]
    poke_all-same (suc left) s d zero i h f b = rw first (
        ap (λ (b : Buf). b.bytes i)
          (poke_all-other left (s + fsi.fat_size) (poke s d) s 1 (λ k _. inl (grind arith)))
        ∙ cache.same d s 1 _ i (omega arith))
      where
        first : s + 0 * fsi.fat_size ≡ s
        first = omega arith
    poke_all-same (suc left) s d (suc j) i h f b = rw later (
        poke_all-same left (s + fsi.fat_size) (poke s d) j i (omega arith) f b
        ∙ ap (λ (b : Buf). wle32 new b.bytes entry_offset i)
            (cache.other d s 1 _ (s + fsi.fat_size + j * fsi.fat_size) 1 (inr (omega arith))))
      where
        later : s + suc j * fsi.fat_size ≡ s + fsi.fat_size + j * fsi.fat_size
        later = omega arith
