-- ===== src/Dir/Laid.antt =====
-- The entries of a name, one after the other over the clusters of a directory: the room for them, and
-- what it means that they were laid there and nothing else has changed.
use fat.Shared.{
  ℕ, suc, ◌+◌, ◌-◌, ◌*◌, ◌≤◌, ◌<◌, ◌≡◌, ◌≢◌, ◌⊎◌, inl, inr, refl, sym, ap, ◌∙◌, List, arith, u32,
  ltb, if◌then◌else◌,
}
use native.Mathlib.Decide.{ℕ_discrete}
use fat.Bytes.{Bytes}
use fat.Device.{Buf, BlockIo}
use fat.Fat.{Info, Volume, ok}
use fat.Fat.Entry.{InRange}
use fat.Cluster.{read_cluster}
use fat.Cluster.View.{Works}
use fat.Cluster.Follow.{Follows}
use fat.Cluster.Blocks.{
  Kept, Kept-same, Kept-trans, fat_entry-with_block, Follows-same, same_block, other_block,
}
use fat.ShortName.{checksum}
use fat.Lfn.{lfn_entry, num_lfn}
use fat.Dir.{dentry_size, skip_of, place_of, write_fdentry}
use fat.Dir.Slots.{written, copied, write-Follows}

-- The entries of a name in the order of the disk: the long ones, and `d83` behind them.
abbrev pub name_slot : List ℕ → Bytes → ℕ → Bytes
name_slot long_name d83 k =
    if ltb k (num_lfn long_name)
    then lfn_entry long_name (checksum d83) (num_lfn long_name - k)
    else d83

module _ {D : Type 0} (io : BlockIo D) (fsi : Info) where
  abbrev pub byte : Volume D → ℕ → ℕ → ℕ
  byte v c y = (read_cluster io fsi v.disk c).bytes y

  -- Outside of 32 bytes at a place of a cluster.
  abbrev pub Away : ℕ → ℕ → ℕ → ℕ → Type 0
  Away c place e y = (c ≢ e) ⊎ ((y < place) ⊎ (place + dentry_size ≤ y))

  module _ (w : Works io fsi) where
    written-here :
        (entry : Bytes) (c place x : ℕ) (v : Volume D)
        → place + dentry_size ≤ fsi.sectors_per_cluster * 512
        → x < dentry_size
        → byte (written io fsi w entry c place v) c (place + x) ≡ entry x
    written-here entry c place x v fits lt =
        same_block io fsi w _ c (place + x) v (omega arith)
        ∙ copied io fsi w entry (read_cluster io fsi v.disk c).bytes place x lt

    written-outside :
        (entry : Bytes) (c place e y : ℕ) (v : Volume D)
        → InRange fsi c
        → InRange fsi e
        → y < fsi.sectors_per_cluster * 512
        → Away c place e y
        → byte (written io fsi w entry c place v) e y ≡ byte v e y
    written-outside entry c place e y v rc re lt away = elim (ℕ_discrete c e) [
      | yes p ↦ rw (sym p) (same_block io fsi w _ c y v lt ∙ ground arith)
      | no p ↦ ap (λ (b : Buf). b.bytes y) (other_block io fsi w _ c e v rc re p)
    ]

    pub written-Kept :
        (entry : Bytes) (c place : ℕ) (v : Volume D)
        → InRange fsi c
        → Kept io fsi v (written io fsi w entry c place v)
    written-Kept entry c place v r =
        (λ k e hk re. fat_entry-with_block io fsi w _ c k e v r hk re, refl, refl)

    -- Room in a directory for `n` entries from the offset `start` on, entry `k` in the cluster `cl k`.
    module _ (dir start n : ℕ) (cl : ℕ → ℕ) where
      abbrev pub off : ℕ → ℕ
      off k = u32 (start + k * dentry_size)

      abbrev pub at : ℕ → ℕ
      at k = place_of fsi (off k)

      -- The links of the table lead to the clusters, there is room for each entry in its cluster, and no
      -- two entries overlap.
      pub record Room (v : Volume D) : Type 0 where
        pub follows : (k : ℕ) → k < n → Follows io fsi v (skip_of fsi (off k)) dir (cl k)
        pub inside : (k : ℕ) → k < n → InRange fsi (cl k)
        pub fits : (k : ℕ) → k < n → at k + dentry_size ≤ fsi.sectors_per_cluster * 512
        pub apart :
            (j k : ℕ)
            → j < n
            → k < n
            → j ≢ k
            → (cl j ≢ cl k) ⊎ ((at k + dentry_size ≤ at j) ⊎ (at j + dentry_size ≤ at k))

      pub Room-Kept : (v v' : Volume D) → Kept io fsi v v' → Room v → Room v'
      Room-Kept v v' kept room = record {
        follows = λ k lt.
            Follows-same io fsi v v' (skip_of fsi (off k)) dir (cl k)
              (λ e re. kept.0 0 e (omega (arith, w.geo.copies)) re) (room.follows k lt);
        inside = room.inside;
        fits = room.fits;
        apart = room.apart;
      }

      -- Between `v` and `v'` the entries from number `lo` up to `hi` were laid, and nothing else changed.
      pub record Laid (lo hi : ℕ) (f : ℕ → Bytes) (v v' : Volume D) : Type 0 where
        pub kept : Kept io fsi v v'
        pub here : (k x : ℕ) → lo ≤ k → k < hi → x < dentry_size → byte v' (cl k) (at k + x) ≡ f k x
        pub elsewhere :
            (e y : ℕ)
            → InRange fsi e
            → y < fsi.sectors_per_cluster * 512
            → ((k : ℕ) → lo ≤ k → k < hi → Away (cl k) (at k) e y)
            → byte v' e y ≡ byte v e y

      pub Laid-none : (m : ℕ) (f : ℕ → Bytes) (v : Volume D) → Laid m m f v v
      Laid-none m f v = record {
        kept = Kept-same io fsi v v refl;
        here = λ k x lo hi lt. absurd (omega arith);
        elsewhere = λ e y re lt out. refl;
      }

      -- Entry `k` lies away from the others.
      apart_from :
          (v : Volume D) (j k x : ℕ)
          → Room v
          → j < n
          → k < n
          → j ≢ k
          → x < dentry_size
          → Away (cl j) (at j) (cl k) (at k + x)
      apart_from v j k x room lj lk ne lt = elim (room.apart j k lj lk ne) [
        | inl p ↦ inl p
        | inr (inl p) ↦ inr (inl (omega arith))
        | inr (inr p) ↦ inr (inr (omega arith))
      ]

      -- One entry more, in front of the others.
      pub Laid-one :
          (lo hi : ℕ) (f : ℕ → Bytes) (v v' : Volume D)
          → lo < hi
          → hi ≤ n
          → Room v
          → Laid (suc lo) hi f (written io fsi w (f lo) (cl lo) (at lo) v) v'
          → Laid lo hi f v v'
      Laid-one lo hi f v v' lt le room laid = record {
        kept =
            Kept-trans io fsi v _ v'
              (written-Kept (f lo) (cl lo) (at lo) v (room.inside lo (omega arith))) laid.kept;
        here = λ k x hl hh lx. elim (ℕ_discrete lo k) [
          | yes p ↦ rw (sym p) (
              laid.elsewhere (cl lo) (at lo + x) (room.inside lo (omega arith))
                (omega (arith, room.fits lo))
                (λ j jl jh. apart_from v j lo x room (omega arith) (omega arith) (omega arith) lx)
              ∙ written-here (f lo) (cl lo) (at lo) x v (room.fits lo (omega arith)) lx)
          | no p ↦ laid.here k x (omega arith) hh lx
        ];
        elsewhere = λ e y re ly out.
            laid.elsewhere e y re ly (λ k kl kh. out k (omega arith) kh)
            ∙ written-outside (f lo) (cl lo) (at lo) e y v (room.inside lo (omega arith)) re ly
                (out lo (omega arith) lt);
      }

      pub write_slot :
          (k : ℕ) (entry : Bytes) (v : Volume D)
          → k < n
          → Room v
          → write_fdentry io fsi dir (off k) entry v
            ≡ (ok tt, written io fsi w entry (cl k) (at k) v)
      write_slot k entry v lt room =
          write-Follows io fsi w v dir (off k) (cl k) entry (room.follows k lt)

      -- One entry more, behind the others.
      pub Laid-last :
          (lo hi : ℕ) (f : ℕ → Bytes) (v v' : Volume D)
          → lo ≤ hi
          → hi < n
          → Room v
          → Laid lo hi f v v'
          → Laid lo (suc hi) f v (written io fsi w (f hi) (cl hi) (at hi) v')
      Laid-last lo hi f v v' le lt room laid = record {
        kept =
            Kept-trans io fsi v v' _ laid.kept
              (written-Kept (f hi) (cl hi) (at hi) v' (room.inside hi lt));
        here = λ k x hl hh lx. elim (ℕ_discrete hi k) [
          | yes p ↦ rw (sym p) (written-here (f hi) (cl hi) (at hi) x v' (room.fits hi lt) lx)
          | no p ↦
              written-outside (f hi) (cl hi) (at hi) (cl k) (at k + x) v' (room.inside hi lt)
                (room.inside k (omega arith)) (omega (arith, room.fits k))
                (apart_from v hi k x room lt (omega arith) p lx)
              ∙ laid.here k x hl (omega arith) lx
        ];
        elsewhere = λ e y re ly out.
            written-outside (f hi) (cl hi) (at hi) e y v' (room.inside hi lt) re ly
              (out hi le (omega arith))
            ∙ laid.elsewhere e y re ly (λ k kl kh. out k kl (omega arith));
      }
