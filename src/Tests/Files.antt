-- ===== src/Tests/Files.antt =====
-- The theorems on reading and writing at the small volume, where a file of 700 bytes fills the clusters
-- 2 and 3, and a request of 200 bytes at offset 500 that is always served.
use fat.Shared.{
  ℕ, zero, suc, ◌+◌, ◌-◌, ◌*◌, ◌<◌, ◌≡◌, refl, ap, List, [], ◌++◌, arith, ℤ, pos, negsuc, ltb,
  if◌then◌else◌, false, true,
}
use fat.Bytes.{rle32, wle32}
use fat.Fat.Entry.{InRange, fat_entry}
use fat.Cluster.Follow.{Follows}
use fat.Cluster.{cluster_to_sector, read_cluster}
use fat.Vnode.{no_time, touch}
use fat.Vnode.Cache.{Open}
use fat.Vnode.Sound.{IsSound}
use fat.Vnode.Shrink.{unused-IsRight}
use fat.Boot.Geometry.{IsAligned}
use fat.File.{UserIo, Session, read}
use fat.File.Content.{slice, IsFile, IsUserIo}
use fat.File.Patch.{patch, IsUserGift, IsSimple}
use fat.File.Request.{Served, read-Served}
use fat.File.Write.{write}
use fat.File.Store.{Wrote, write-Wrote}
use fat.Tests.Disk.{Chunks, io, fsi, volume, works}
use fat.Tests.Nodes.{opened}

code : Unit {0}
unfolding rle32 wle32 cluster_to_sector read_cluster fat_entry
code = tt

pub record Request : Type 0 where
  pub offset : ℤ
  pub resid : ℕ
  pub received : List ℕ
  pub source : ℕ → ℕ

abbrev advance : ℕ → ℤ → ℤ
advance n (pos p) = pos (p + n)
advance n (negsuc p) = negsuc p

abbrev moved : ℕ → Request → Request
moved n u = record u {
  offset = advance n u.offset;
  resid = u.resid - n;
  source = λ i. u.source (n + i);
}

abbrev pub user : UserIo Request
user = record {
  uio_offset = λ u. u.offset;
  uio_resid = λ u. u.resid;
  set_offset = λ p u. record u { offset = pos p };
  to_user = λ b p n u. (0, record (moved n u) { received = u.received ++ slice b p n });
  from_user = λ b p n u. (0, moved n u, patch b p n u.source);
}

pub user-IsUserIo : IsUserIo user (λ u. u.received)
user-IsUserIo = record {
  resid = λ b p n u h e. omega arith;
  offset = λ b p n u m h e at. ap (advance n) at;
  bytes = λ b p n u h e. refl;
}

user-IsUserGift : IsUserGift user (λ u. u.source)
user-IsUserGift = record {
  resid = λ b p n u h e. omega arith;
  offset = λ b p n u m h e at. ap (advance n) at;
  bytes = λ b p n u i h e. refl;
  later = λ b p n u i h e. refl;
}

-- The first cluster holds the numbers from 0 on, the second one zeros.
abbrev numbered : Open Chunks
numbered = record opened { vol = record volume { disk = io.bdwrite volume.disk 4 1 (λ i. i) } }

abbrev contents : ℕ → ℕ
contents i = if ltb i 512 then i else 0

pub aligned : IsAligned fsi
aligned = record { size = refl; blocks = refl; mask = refl; small = omega arith }

abbrev session : Session Chunks Request
session = record {
  node = numbered;
  uio = record { offset = pos 500; resid = 200; received = []; source = λ i. i + 7 };
}

reach : (k : ℕ) → k * 512 < 700 → (c : ℕ) × Follows io fsi numbered.vol k 2 c × InRange fsi c
unfolding code
reach zero h = (2, refl, (omega arith, omega arith))
reach (suc zero) h = (
  3,
  (((omega arith, omega arith), (omega arith, omega arith)), refl),
  (omega arith, omega arith),
)
reach (suc (suc k)) h = absurd (omega arith)

holds :
    (k o c : ℕ)
    → o < 512
    → k * 512 + o < 700
    → Follows io fsi numbered.vol k 2 c
    → (read_cluster io fsi numbered.vol.disk c).bytes o ≡ contents (k * 512 + o)
unfolding code
holds zero o c lt h at = rw (← at) (ground arith)
holds (suc zero) o c lt h (_, at) = rw (← at) (ground arith)
holds (suc (suc k)) o c lt h at = absurd (omega arith)

numbered-IsFile : IsFile io fsi numbered contents
numbered-IsFile = record { reach = reach; holds = holds }

numbered-IsSimple : IsSimple io fsi numbered
unfolding code
numbered-IsSimple zero zero c hj hk at to = refl
numbered-IsSimple zero (suc zero) c hj hk at (_, to) = absurd (omega (arith, at, to))
numbered-IsSimple zero (suc (suc k)) c hj hk at to = absurd (omega arith)
numbered-IsSimple (suc zero) zero c hj hk (_, at) to = absurd (omega (arith, at, to))
numbered-IsSimple (suc zero) (suc zero) c hj hk at to = refl
numbered-IsSimple (suc zero) (suc (suc k)) c hj hk at to = absurd (omega arith)
numbered-IsSimple (suc (suc j)) k c hj hk at to = absurd (omega arith)

numbered-IsSound : IsSound io fsi numbered
numbered-IsSound = unused-IsRight io fsi works numbered.vol 2 16

read-Served_example :
    Served io fsi user
      (λ u. u.received)
      contents
      500
      200
      (record session { node = record numbered { fv = touch no_time true false numbered.fv } })
      (read io fsi user no_time session)
read-Served_example =
    read-Served io fsi user (λ u. u.received) works aligned user-IsUserIo contents no_time 500
      session refl refl numbered-IsFile numbered-IsSound (omega arith)

write-Wrote_example :
    Wrote io fsi user
      (λ u. u.source)
      contents
      500
      200
      (record session { node = record numbered { fv = touch no_time false true numbered.fv } })
      (write io fsi user no_time false session)
write-Wrote_example =
    write-Wrote io fsi user (λ u. u.source) works aligned user-IsUserGift contents no_time 500
      session refl refl numbered-IsFile numbered-IsSimple numbered-IsSound (omega arith)
      (omega arith)
