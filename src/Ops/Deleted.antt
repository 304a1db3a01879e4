-- ===== src/Ops/Deleted.antt =====
-- fat32_delete_fdentry_chain where the entries lie in one cluster of the directory: it succeeds, and
-- their first bytes are all that changes.
use fat.Shared.{ℕ, zero, suc, ◌+◌, ◌*◌, ◌≤◌, ◌<◌, ◌≡◌, ◌≢◌, refl, ◌∙◌, false, leb, arith}
use fat.Bytes.{Bytes}
use fat.Device.{BlockIo}
use fat.Fat.{Info, Volume, ok}
use fat.Cluster.{no_flags, cluster_to_sector, read_cluster}
use fat.Cluster.View.{Works}
use fat.Cluster.Follow.{Follows, seek_cluster-Follows}
use fat.Cluster.Blocks.{with_block}
use fat.Dir.{skip_of, place_of}
use fat.Ops.{Spot, mark_deleted, open_spot, turn, delete_loop, delete_fdentry_chain}

-- A block with the mark in `left` entries from `place` on.
unfoldable pub marked : ℕ → ℕ → Bytes → Bytes
marked zero place b = b
marked (suc left) place b = marked left (place + 32) (mark_deleted place b)

pub marked-miss :
    (left place y : ℕ) (b : Bytes)
    → ((k : ℕ) → k < left → y ≢ place + k * 32)
    → marked left place b y ≡ b y
unfolding marked
marked-miss zero place y b out = refl
marked-miss (suc left) place y b out =
    marked-miss left (place + 32) y (mark_deleted place b)
      (λ k lt p. out (suc k) (omega arith) (omega arith))
    ∙ (let apart = out 0 (omega arith) in ground arith)

pub marked-hit :
    (left place k : ℕ) (b : Bytes) → k < left → marked left place b (place + k * 32) ≡ 0xe5
unfolding marked
marked-hit zero place k b lt = absurd (omega arith)
marked-hit (suc left) place zero b lt =
    let here : place + 0 * 32 ≡ place = omega arith in
    rw here (
      marked-miss left (place + 32) place (mark_deleted place b) (λ k h p. omega arith)
      ∙ ground arith)
marked-hit (suc left) place (suc k) b lt =
    let next : place + suc k * 32 ≡ place + 32 + k * 32 = omega arith in
    rw next (marked-hit left (place + 32) k (mark_deleted place b) (omega arith))

module _ {D : Type 0} (io : BlockIo D) (fsi : Info) where
  turn-stays :
      (p : Spot) (v : Volume D)
      → p.cluster_off < fsi.bytes_per_cluster
      → turn io fsi p v ≡ (ok p, v)
  unfolding turn
  turn-stays p v lt =
      let inside : leb fsi.bytes_per_cluster p.cluster_off ≡ false = ground arith in rw inside refl

  delete_loop-marked :
      (left c place : ℕ) (b : Bytes) (v : Volume D)
      → place + left * 32 ≤ fsi.bytes_per_cluster
      → delete_loop io fsi left (record { cluster = c; bytes = b; cluster_off = place }) v
        ≡ (ok tt, with_block io fsi c (marked left place b) v)
  unfolding delete_loop marked
  delete_loop-marked zero c place b v fits = refl
  delete_loop-marked (suc left) c place b v fits =
      rw (turn-stays (record { cluster = c; bytes = b; cluster_off = place }) v (omega arith))
        (delete_loop-marked left c (place + 32) (mark_deleted place b) v (omega arith))

  module _ (w : Works io fsi) where
    open_spot-opened :
        (place c : ℕ) (v : Volume D)
        → open_spot io fsi place c v ≡ (
          ok (record {
            cluster = c;
            bytes = (read_cluster io fsi v.disk c).bytes;
            cluster_off = place;
          }),
          v,
        )
    unfolding read_cluster
    open_spot-opened place c v =
        rw (w.healthy.fine v.disk (cluster_to_sector fsi c) fsi.sectors_per_cluster) refl

    pub delete_fdentry_chain-marked :
        (dir offset c count : ℕ) (v : Volume D)
        → Follows io fsi v (skip_of fsi offset) dir c
        → place_of fsi offset + count * 32 ≤ fsi.bytes_per_cluster
        → delete_fdentry_chain io fsi dir offset count v ≡ (
          ok tt,
          with_block io fsi c
              (marked count (place_of fsi offset) (read_cluster io fsi v.disk c).bytes)
              v,
        )
    unfolding delete_fdentry_chain
    delete_fdentry_chain-marked dir offset c count v f fits =
        rw (seek_cluster-Follows io fsi w v (skip_of fsi offset) dir c no_flags f) (
          rw (open_spot-opened (place_of fsi offset) c v) (
            delete_loop-marked count c (place_of fsi offset) (read_cluster io fsi v.disk c).bytes v
              fits))
