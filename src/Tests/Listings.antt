-- ===== src/Tests/Listings.antt =====
-- fat32_readdir in the directory of two files, with room for one record.
use fat.Shared.{◌+◌, ◌*◌, ◌/◌, ◌≡◌, refl, false, Bool, [], ◌∷◌, arith, pos}
use fat.Fat.{Ret}
use fat.File.{Session}
use fat.Readdir.{Abi, readdir}
use fat.Readdir.Emit.{Serves}
use fat.Readdir.Listing.{Listing, readdir-Listing}
use fat.Tests.Disk.{Chunks, io, fsi}
use fat.Tests.Files.{Request, user, user-IsUserIo}
use fat.Tests.Dirents.{directory, buffer, first_file, second_file, directory-Lists}

-- Records in units of eight bytes, with 18 bytes in front of the name.
abbrev abi : Abi
abi = record {
  is_irix5 = false;
  direntsize = λ n. (18 + n + 8) / 8 * 8;
  direntbasesize = 18;
  layout = λ ino off reclen i. ino + off + reclen + i;
}

serves : Serves user (λ u. u.received) abi
serves = record {
  moves = user-IsUserIo;
  served = λ b p n u le. refl;
  assigned = λ p u. refl;
  unmoved = λ p u. refl;
  room = λ n. omega arith;
}

abbrev session : Session Chunks Request
session = record {
  node = directory;
  uio = record { offset = pos 0; resid = 40; received = []; source = λ _. 0 };
}

readdir-Listing_example :
    (r : Ret Bool) × (s' : Session Chunks Request) × (readdir io fsi user abi 99 buffer session
      ≡ (r, s'))
    × Listing io fsi user
        (λ u. u.received)
        abi
        serves
        (first_file ∷ second_file ∷ [])
        0
        session
        r
        s'
readdir-Listing_example =
    readdir-Listing io fsi user (λ u. u.received) abi serves 99 0 buffer session
      (first_file ∷ second_file ∷ []) refl refl refl (omega arith) (omega arith) directory-Lists
