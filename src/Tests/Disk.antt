-- ===== src/Tests/Disk.antt =====
-- A device in memory that keeps each chunk that was written, and a volume of three clusters with two
-- copies of the table: cluster 2 leads to 3, which ends its chain; cluster 4 is free.
use fat.Shared.{ℕ, ◌+◌, ◌≤◌, ◌≡◌, ◌⊎◌, refl, false, ◌&&◌, ◌==◌, if◌then◌else◌, arith}
use fat.Bytes.{Bytes, wle32}
use fat.Device.{BlockIo, IsCache}
use fat.Fat.{Info, Volume}
use fat.Cluster.View.{Works}

abbrev pub Chunks : Type 0
Chunks = ℕ → ℕ → Bytes

abbrev pub io : BlockIo Chunks
io = record {
  bread = λ d s n. record { failed = false; b_error = 0; bytes = d s n };
  bdwrite = λ d s n f t m. if n == 0 then d t m else if (t == s) && (m == n) then f else d t m;
}

io-other :
    (d : Chunks) (s n : ℕ) (f : Bytes) (t m : ℕ)
    → (t + m ≤ s) ⊎ (s + n ≤ t)
    → (if n == 0 then d t m else if (t == s) && (m == n) then f else d t m) ≡ d t m
io-other d s n f t m h = ground arith

io-IsCache : IsCache io
io-IsCache = record {
  same = λ d s n f i h. ground arith;
  other =
      λ d s n f t m h i. record { failed = false; b_error = 0; bytes = io-other d s n f t m h i };
}

abbrev pub fsi : Info
fsi = record {
  partition_offset = 0;
  fsinfo_sector = 1;
  fat_start = 2;
  bytes_per_sector = 512;
  sectors_per_cluster = 1;
  bytes_per_cluster = 512;
  reserved_sectors = 2;
  sector_shift = 9;
  sector_mask = 511;
  cluster_shift = 9;
  cluster_mask = 511;
  spc_shift = 0;
  num_fats = 2;
  fat_size = 1;
  root_cluster = 2;
  total_sectors = 7;
  data_start = 4;
  cluster_count = 3;
}

abbrev fat_sector : Bytes
fat_sector = wle32 0x0fffffff (wle32 3 (λ _. 0) 8) 12

abbrev pub volume : Volume Chunks
volume = record {
  disk = λ s n.
      if (s == 2) && (n == 1)
      then fat_sector
      else if (s == 3) && (n == 1)
      then fat_sector
      else (λ _. 0);
  free_count = 1;
  next_free = 4;
}

pub works : Works io fsi
works = record {
  geo = record {
    shift = refl;
    mask = refl;
    clusters = omega arith;
    fits = omega arith;
    copies = omega arith;
    bound = omega arith;
    info_before = omega arith;
    data_after = refl;
    cluster_blocks = refl;
    data_bound = omega arith;
  };
  healthy = record { fine = λ d s n. refl };
  cache = io-IsCache;
}
