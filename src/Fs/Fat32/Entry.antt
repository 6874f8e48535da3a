-- ===== src/Fs/Fat32/Entry.antt =====
-- src/fs/fat32.h `FAT32DirEntry`, src/fs/fat32.cpp `BuildDirEntry`: directory entries.
pub mod Packed
use layla_os.Base.{
  ℕ, ◌+◌, ◌*◌, ◌/◌, ◌%◌, ◌^◌, Bool, List, ◌∷◌, [], ◌++◌, ◌!=◌, bit_and, bit_or, u16, ◌<<<◌, ◌>>>◌,
  take, drop,
}
use layla_os.Net.Wire.{load8, load16, load32, bytes16, bytes32, read}

pub record Fat32DirEntry : Type 0 where
  pub name : List ℕ
  pub ext : List ℕ
  pub attributes : ℕ
  pub reserved : ℕ
  pub create_time_tenth : ℕ
  pub create_time : ℕ
  pub create_date : ℕ
  pub access_date : ℕ
  pub cluster_high : ℕ
  pub write_time : ℕ
  pub write_date : ℕ
  pub cluster_low : ℕ
  pub size : ℕ

-- The 32 packed bytes.
unfoldable pub load_entry : List ℕ → Fat32DirEntry
load_entry mem = record {
  name = read 8 mem;
  ext = read 3 (drop 8 mem);
  attributes = load8 mem 11;
  reserved = load8 mem 12;
  create_time_tenth = load8 mem 13;
  create_time = load16 mem 14;
  create_date = load16 mem 16;
  access_date = load16 mem 18;
  cluster_high = load16 mem 20;
  write_time = load16 mem 22;
  write_date = load16 mem 24;
  cluster_low = load16 mem 26;
  size = load32 mem 28;
}

-- The bytes after the name and the extension.
abbrev pub field_bytes : Fat32DirEntry → List ℕ
field_bytes e =
    e.attributes
    ∷ (e.reserved
        ∷ (e.create_time_tenth
            ∷ (bytes16 e.create_time
                ++ (bytes16 e.create_date
                    ++ (bytes16 e.access_date
                        ++ (bytes16 e.cluster_high
                            ++ (bytes16 e.write_time
                                ++ (bytes16 e.write_date
                                    ++ (bytes16 e.cluster_low ++ bytes32 e.size)))))))))

unfoldable pub entry_bytes : Fat32DirEntry → List ℕ
entry_bytes e = e.name ++ (e.ext ++ field_bytes e)

unfoldable pub build_dir_entry : List ℕ → ℕ → ℕ → ℕ → Fat32DirEntry
build_dir_entry name83 attr cluster size = record {
  name = take 8 name83;
  ext = take 3 (drop 8 name83);
  attributes = attr;
  reserved = 0;
  create_time_tenth = 0;
  create_time = 0x0000;
  create_date = 0x4A21;
  access_date = 0x4A21;
  cluster_high = u16 (cluster >>> 16);
  write_time = 0x0000;
  write_date = 0x4A21;
  cluster_low = bit_and cluster 0xFFFF;
  size = size;
}

unfoldable pub first_cluster : Fat32DirEntry → ℕ
first_cluster e = bit_or (e.cluster_high <<< 16) e.cluster_low

unfoldable pub is_directory : Fat32DirEntry → Bool
is_directory e = bit_and e.attributes 0x10 != 0
