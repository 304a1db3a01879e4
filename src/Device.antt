-- ===== src/Device.antt =====
-- The buffer cache of the kernel, which fat32_cls.c, fat32_dir.c and fat32_vfs.c call: bread,
-- bdwrite, brelse and getblk. Its code is not part of the driver, so it is a parameter: a type `D` of
-- device contents, with what a read returns and what a write leaves. A chunk is a first block and
-- a number of blocks of 512 bytes.
use fat.Shared.{ℕ, ◌+◌, ◌*◌, ◌≤◌, ◌<◌, ◌≡◌, ◌⊎◌, Bool, false, ◌==◌, if◌then◌else◌}
use fat.Bytes.{Bytes}

-- What the driver reads of a buf_t: B_ERROR in b_flags, b_error, and the bytes at b_un.b_addr.
pub record Buf : Type 0 where
  pub failed : Bool
  pub b_error : ℕ
  pub bytes : Bytes

pub record BlockIo (D : Type 0) : Type 0 where
  pub bread : D → ℕ → ℕ → Buf
  pub bdwrite : D → ℕ → ℕ → Bytes → D

-- What the driver relies on. A chunk that was written is read back; chunks that do not meet it are
-- as before. Nothing is said of two chunks that overlap and differ.
pub record IsCache {D : Type 0} (io : BlockIo D) : Type 0 where
  pub same :
      (d : D) (s n : ℕ) (f : Bytes) (i : ℕ)
      → i < n * 512
      → (io.bread (io.bdwrite d s n f) s n).bytes i ≡ f i
  pub other :
      (d : D) (s n : ℕ) (f : Bytes) (t m : ℕ)
      → (t + m ≤ s) ⊎ (s + n ≤ t)
      → io.bread (io.bdwrite d s n f) t m ≡ io.bread d t m

-- No read fails.
pub record IsHealthy {D : Type 0} (io : BlockIo D) : Type 0 where
  pub fine : (d : D) (s n : ℕ) → (io.bread d s n).failed ≡ false

-- EIO, where the buffer names no error of its own: `bp->b_error ? bp->b_error : EIO`.
abbrev pub eio : ℕ
eio = 5

abbrev pub buf_errno : Buf → ℕ
buf_errno bp = if bp.b_error == 0 then eio else bp.b_error
