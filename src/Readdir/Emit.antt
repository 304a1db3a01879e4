-- ===== src/Readdir/Emit.antt =====
-- fat32_emit_dirent moves a whole record, or nothing.
use fat.Shared.{
  zero, suc, true, if◌then◌else◌, ℕ, ◌+◌, ◌-◌, ◌≤◌, ◌<◌, ◌≡◌, refl, sym, ap, ◌∙◌, List, ◌++◌, arith,
  u16, u32, ltb, pos, lt→ltb, le→not_ltb,
}
use mathlib.Core.List.{append_assoc, append-nil}
use fat.Bytes.{Bytes}
use fat.Fat.{einval}
use fat.Lfn.{DName}
use fat.File.{UserIo}
use fat.File.Content.{slice, IsUserIo}
use fat.Readdir.{Abi, ino_field, emit_dirent}

-- What the kernel does for a listing: uiomove serves each request within uio_resid, the assignment of
-- uio_offset moves nothing, and DIRENTSIZE counts the base, the name and its NUL.
pub record Serves {U : Type 0} (user : UserIo U) (got : U → List ℕ) (abi : Abi) : Type 0 where
  pub moves : IsUserIo user got
  pub served : (b : Bytes) (p n : ℕ) (u : U) → n ≤ user.uio_resid u → (user.to_user b p n u).0 ≡ 0
  pub assigned : (p : ℕ) (u : U) → user.uio_offset (user.set_offset p u) ≡ pos p
  pub unmoved : (p : ℕ) (u : U) → got (user.set_offset p u) ≡ got u
  pub room : (n : ℕ) → abi.direntbasesize + n + 1 ≤ abi.direntsize n

-- The bytes of a record.
abbrev pub record_of : Abi → ℕ → ℕ → DName → List ℕ
record_of abi d_ino d_off n =
    let reclen = abi.direntsize n.name_size in
    slice (abi.layout (ino_field abi d_ino) (u32 d_off) (u16 reclen)) 0 abi.direntbasesize
    ++ (slice n.d_name 0 (n.name_size + 1)
        ++ slice (λ _. 0) 0 (reclen - (abi.direntbasesize + n.name_size + 1)))

joined : (a b c d : List ℕ) → ((a ++ b) ++ c) ++ d ≡ a ++ (b ++ (c ++ d))
joined a b c d = append_assoc (a ++ b) c d ∙ append_assoc a b (c ++ d)

module _ {U : Type 0} (user : UserIo U) (got : U → List ℕ) (abi : Abi)
    (serves : Serves user got abi) where
  -- One call of uiomove.
  moved :
      (b : Bytes) (n : ℕ) (u : U)
      → n ≤ user.uio_resid u
      → (u' : U) × (user.to_user b 0 n u ≡ (0, u'))
        × (user.uio_resid u' + n ≡ user.uio_resid u)
        × (got u' ≡ got u ++ slice b 0 n)
  moved b n u le =
      let fine = serves.served b 0 n u le in
      (
        (user.to_user b 0 n u).1,
        ap (λ e. (e, (user.to_user b 0 n u).1)) fine,
        serves.moves.resid b 0 n u le fine,
        serves.moves.bytes b 0 n u le fine,
      )

  -- What a call leaves: the request has `size` bytes less, and the user `bytes` more.
  pub record Gave (u u' : U) (size : ℕ) (bytes : List ℕ) : Type 0 where
    pub less : user.uio_resid u' + size ≡ user.uio_resid u
    pub more : got u' ≡ got u ++ bytes

  -- The padding, where there is any.
  padded :
      (n : ℕ) (u : U)
      → n ≤ user.uio_resid u
      → (u' : U) × ((if ltb 0 n then user.to_user (λ _. 0) 0 n u else (0, u)) ≡ (0, u'))
        × (user.uio_resid u' + n ≡ user.uio_resid u)
        × (got u' ≡ got u ++ slice (λ _. 0) 0 n)
  padded zero u le = (u, refl, omega arith, sym (append-nil (got u)))
  padded (suc n) u le =
      let more : ltb 0 (suc n) ≡ true = lt→ltb 0 (suc n) (omega arith) in
      rw more (moved (λ _. 0) (suc n) u le)

  pub emit_dirent-fits :
      (d_ino d_off : ℕ) (n : DName) (u : U)
      → abi.direntsize n.name_size ≤ user.uio_resid u
      → (u' : U) × (emit_dirent user abi d_ino d_off n u ≡ (0, u'))
        × Gave u u' (abi.direntsize n.name_size) (record_of abi d_ino d_off n)
  unfolding emit_dirent
  emit_dirent-fits d_ino d_off n u le =
      let reclen = abi.direntsize n.name_size in
      let head = abi.layout (ino_field abi d_ino) (u32 d_off) (u16 reclen) in
      let room = serves.room n.name_size in
      let padding = reclen - (abi.direntbasesize + n.name_size + 1) in
      let (u1, eq1, less1, more1) = moved head abi.direntbasesize u (omega arith) in
      let (u2, eq2, less2, more2) = moved n.d_name (n.name_size + 1) u1 (omega arith) in
      let (u3, eq3, less3, more3) = padded padding u2 (omega arith) in
      rw (le→not_ltb (user.uio_resid u) reclen le, eq1, eq2, eq3)
        (
          u3,
          refl,
          record {
            less = omega arith;
            more =
                more3
                ∙ ap (λ xs. xs ++ slice (λ _. 0) 0 padding)
                    (more2 ∙ ap (λ xs. xs ++ slice n.d_name 0 (n.name_size + 1)) more1)
                ∙ joined (got u) (slice head 0 abi.direntbasesize)
                    (slice n.d_name 0 (n.name_size + 1)) (slice (λ _. 0) 0 padding);
          },
        )

  pub emit_dirent-full :
      (d_ino d_off : ℕ) (n : DName) (u : U)
      → user.uio_resid u < abi.direntsize n.name_size
      → emit_dirent user abi d_ino d_off n u ≡ (einval, u)
  unfolding emit_dirent
  emit_dirent-full d_ino d_off n u lt =
      rw (lt→ltb (user.uio_resid u) (abi.direntsize n.name_size) lt) refl
