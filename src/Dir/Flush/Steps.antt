-- ===== src/Dir/Flush/Steps.antt =====
-- The single steps of fat32_update_fdentry: what each writes, and what it leaves.
use fat.Shared.{
  ℕ, ◌+◌, ◌≤◌, ◌<◌, ◌≡◌, ◌⊎◌, refl, arith, Bool, true, false, if◌then◌else◌, u16, ◌>>>◌,
}
use fat.Bytes.{Bytes, rle16, wle16}
use fat.Bytes.Laws.{rle-wle}
use fat.Time.{FatTime}
use fat.Dir.Update.{put_atime, put_mtime, put_ctime, put_cluster}

-- A field of two bytes.
pub rle16-same :
    (place o : ℕ) (b b' : Bytes)
    → b' (place + o) ≡ b (place + o)
    → b' (place + o + 1) ≡ b (place + o + 1)
    → rle16 b' (place + o) ≡ rle16 b (place + o)
unfolding rle16
rle16-same place o b b' h k = rw (h, k) refl

-- A step that is taken if a flag is set.
pub taken-same :
    (dirty : Bool) (b b' : Bytes) (i : ℕ) → b' i ≡ b i → (if dirty then b' else b) i ≡ b i
taken-same true b b' i h = h
taken-same false b b' i h = refl

pub taken-read :
    {A : Type 0} (dirty : Bool) (b b' : Bytes) (f : Bytes → A) (x : A)
    → f b' ≡ x
    → f (if dirty then b' else b) ≡ (if dirty then x else f b)
taken-read true b b' f x h = h
taken-read false b b' f x h = refl

-- Outside of the bytes from `lo` to `hi` of the entry.
abbrev pub Beside : ℕ → ℕ → ℕ → ℕ → Type 0
Beside place lo hi i = (i < place + lo) ⊎ (place + hi ≤ i)

pub put_atime-same :
    (place : ℕ) (t : FatTime) (b : Bytes) (i : ℕ)
    → Beside place 18 20 i
    → put_atime place t b i ≡ b i
unfolding wle16
put_atime-same place t b i h = ground arith

pub put_mtime-same :
    (place : ℕ) (t : FatTime) (b : Bytes) (i : ℕ)
    → Beside place 22 26 i
    → put_mtime place t b i ≡ b i
unfolding wle16
put_mtime-same place t b i h = ground arith

pub put_ctime-same :
    (place : ℕ) (t : FatTime) (b : Bytes) (i : ℕ)
    → Beside place 13 18 i
    → put_ctime place t b i ≡ b i
unfolding wle16
put_ctime-same place t b i h = ground arith

pub put_cluster-same :
    (place c : ℕ) (b : Bytes) (i : ℕ)
    → Beside place 20 22 i
    → Beside place 26 28 i
    → put_cluster place c b i ≡ b i
unfolding wle16
put_cluster-same place c b i h k = ground arith

pub put_atime-read :
    (place : ℕ) (t : FatTime) (b : Bytes) → rle16 (put_atime place t b) (place + 18) ≡ u16 t.date
put_atime-read place t b = (rle-wle b (place + 18) t.date 0).0

pub put_mtime-read :
    (place : ℕ) (t : FatTime) (b : Bytes)
    → (rle16 (put_mtime place t b) (place + 24) ≡ u16 t.date)
      × (rle16 (put_mtime place t b) (place + 22) ≡ u16 t.time)
unfolding wle16 rle16
put_mtime-read place t b = (ground arith, ground arith)

pub put_ctime-read :
    (place : ℕ) (t : FatTime) (b : Bytes)
    → (rle16 (put_ctime place t b) (place + 16) ≡ u16 t.date)
      × (rle16 (put_ctime place t b) (place + 14) ≡ u16 t.time)
      × (put_ctime place t b (place + 13) ≡ t.tenths)
unfolding wle16 rle16
put_ctime-read place t b = (ground arith, ground arith, ground arith)

pub put_cluster-read :
    (place c : ℕ) (b : Bytes)
    → (rle16 (put_cluster place c b) (place + 20) ≡ u16 (c >>> 16))
      × (rle16 (put_cluster place c b) (place + 26) ≡ u16 c)
unfolding wle16 rle16
put_cluster-read place c b = (ground arith, ground arith)
