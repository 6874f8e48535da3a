-- ===== src/Fs/Fat32/Entry/Packed.antt =====
-- src/fs/fat32.h, `FAT32DirEntry`: an entry in the bytes of a cluster.
use layla_os.Base.{
  ℕ, ◌+◌, ◌*◌, ◌/◌, ◌%◌, ◌^◌, ◌<◌, ◌≡◌, refl, sym, ap, ◌∙◌, List, ◌++◌, length, take, drop,
  length-append, length-take, length-drop, drop-append, take_all, append-take-drop, get_or,
  get_or-drop, append_assoc, arith, bit_and_mask, bit_or_fields, u16, ◌>>>◌,
}
use layla_os.Net.Wire.{load8, load16, load32}
use layla_os.Net.Wire.Read.{read-append}
use layla_os.Fs.Fat32.Entry.{
  Fat32DirEntry, load_entry, field_bytes, entry_bytes, build_dir_entry, first_cluster,
}

-- Every field fits its width.
pub record IsPacked (e : Fat32DirEntry) : Type 0 where
  pub name : length e.name ≡ 8
  pub ext : length e.ext ≡ 3
  pub create_time : e.create_time < 2 ^ 16
  pub create_date : e.create_date < 2 ^ 16
  pub access_date : e.access_date < 2 ^ 16
  pub cluster_high : e.cluster_high < 2 ^ 16
  pub write_time : e.write_time < 2 ^ 16
  pub write_date : e.write_date < 2 ^ 16
  pub cluster_low : e.cluster_low < 2 ^ 16
  pub size : e.size < 2 ^ 32

pub word16 : (x : ℕ) → x < 2 ^ 16 → x % 256 + 256 * (x / 256 % 256) ≡ x
word16 x h = omega arith

pub word32 :
    (x : ℕ)
    → x < 2 ^ 32
    → x % 256 + 256 * (x / 256 % 256) + 65536 * (x / 65536 % 256 + 256 * (x / 16777216 % 256)) ≡ x
word32 x h = omega arith

pub length-entry_bytes : (e : Fat32DirEntry) → IsPacked e → length (entry_bytes e) ≡ 32
unfolding entry_bytes
length-entry_bytes e p = omega (
  arith,
  p.name,
  p.ext,
  length-append e.name (e.ext ++ field_bytes e),
  length-append e.ext (field_bytes e),
)

-- The loads behind the name and the extension.
load_entry-append :
    (name ext tail : List ℕ)
    → length name ≡ 8
    → length ext ≡ 3
    → load_entry (name ++ (ext ++ tail)) ≡ record {
      name = name;
      ext = ext;
      attributes = load8 tail 0;
      reserved = load8 tail 1;
      create_time_tenth = load8 tail 2;
      create_time = load16 tail 3;
      create_date = load16 tail 5;
      access_date = load16 tail 7;
      cluster_high = load16 tail 9;
      write_time = load16 tail 11;
      write_date = load16 tail 13;
      cluster_low = load16 tail 15;
      size = load32 tail 17;
    }
unfolding load_entry
load_entry-append name ext tail hn he =
    let mem = name ++ (ext ++ tail) in
    let field : (k : ℕ) → get_or mem (8 + (3 + k)) 0 ≡ get_or tail k 0 = λ k.
      sym (get_or-drop 8 mem (3 + k) 0)
      ∙ ap (λ (t : List ℕ). get_or t (3 + k) 0) (drop-append 8 name (ext ++ tail) hn)
      ∙ sym (get_or-drop 3 (ext ++ tail) k 0)
      ∙ ap (λ (t : List ℕ). get_or t k 0) (drop-append 3 ext tail he) in
    rw
      (
        read-append 8 name (ext ++ tail) hn,
        drop-append 8 name (ext ++ tail) hn,
        read-append 3 ext tail he,
        field 0,
        field 1,
        field 2,
        field 3,
        field 4,
        field 5,
        field 6,
        field 7,
        field 8,
        field 9,
        field 10,
        field 11,
        field 12,
        field 13,
        field 14,
        field 15,
        field 16,
        field 17,
        field 18,
        field 19,
        field 20,
      )
      refl

pub load_entry-entry_bytes :
    (e : Fat32DirEntry) (rest : List ℕ) → IsPacked e → load_entry (entry_bytes e ++ rest) ≡ e
unfolding load_entry entry_bytes
load_entry-entry_bytes e rest p =
    ap load_entry (
      append_assoc e.name (e.ext ++ field_bytes e) rest
      ∙ ap (λ (t : List ℕ). e.name ++ t) (append_assoc e.ext (field_bytes e) rest))
    ∙ load_entry-append e.name e.ext (field_bytes e ++ rest) p.name p.ext
    ∙ rw
        (
          word16 e.create_time p.create_time,
          word16 e.create_date p.create_date,
          word16 e.access_date p.access_date,
          word16 e.cluster_high p.cluster_high,
          word16 e.write_time p.write_time,
          word16 e.write_date p.write_date,
          word16 e.cluster_low p.cluster_low,
          word32 e.size p.size,
        )
        refl

IsPacked-build :
    (name83 : List ℕ) (attr cluster size : ℕ)
    → length name83 ≡ 11
    → size < 2 ^ 32
    → IsPacked (build_dir_entry name83 attr cluster size)
unfolding build_dir_entry
IsPacked-build name83 attr cluster size n s = record {
  name = omega (arith, length-take 8 name83);
  ext = omega (arith, length-take 3 (drop 8 name83), length-drop 8 name83);
  create_time = omega arith;
  create_date = omega arith;
  access_date = omega arith;
  cluster_high = omega arith;
  write_time = omega arith;
  write_date = omega arith;
  cluster_low = rw (bit_and_mask 16 cluster) (omega arith);
  size = s;
}

first_cluster-build :
    (name83 : List ℕ) (attr cluster size : ℕ)
    → cluster < 2 ^ 32
    → first_cluster (build_dir_entry name83 attr cluster size) ≡ cluster
unfolding build_dir_entry first_cluster
first_cluster-build name83 attr cluster size h =
    rw (bit_and_mask 16 cluster)
      (bit_or_fields 16 (u16 (cluster >>> 16)) (cluster % 2 ^ 16) (omega arith) ∙ omega arith)

name-build :
    (name83 : List ℕ) (attr cluster size : ℕ)
    → length name83 ≡ 11
    → let e = build_dir_entry name83 attr cluster size in e.name ++ e.ext ≡ name83
unfolding build_dir_entry
name-build name83 attr cluster size n =
    ap (λ (t : List ℕ). take 8 name83 ++ t)
      (take_all 3 (drop 8 name83) (omega (arith, length-drop 8 name83)))
    ∙ append-take-drop 8 name83

fields-build :
    (name83 : List ℕ) (attr cluster size : ℕ)
    → let e = build_dir_entry name83 attr cluster size in (e.attributes ≡ attr) × (e.size ≡ size)
unfolding build_dir_entry
fields-build name83 attr cluster size = (refl, refl)

-- An entry that BuildDirEntry makes and that is copied into a cluster is read back with its eleven
-- characters, attributes and size, and its two halves of the first cluster give the cluster; it
-- takes 32 bytes. The name has eleven characters, the cluster and the size are 32-bit words.
pub load_entry-build_dir_entry :
    (name83 : List ℕ) (attr cluster size : ℕ) (rest : List ℕ)
    → length name83 ≡ 11
    → cluster < 2 ^ 32
    → size < 2 ^ 32
    → let bytes = entry_bytes (build_dir_entry name83 attr cluster size) in
      let e : Fat32DirEntry = load_entry (bytes ++ rest) in
      (length bytes ≡ 32)
      × (e.name ++ e.ext ≡ name83)
      × (e.attributes ≡ attr)
      × (e.size ≡ size)
      × (first_cluster e ≡ cluster)
load_entry-build_dir_entry name83 attr cluster size rest n c s =
    let packed = IsPacked-build name83 attr cluster size n s in
    let made = build_dir_entry name83 attr cluster size in
    let back = load_entry-entry_bytes made rest packed in
    (
      length-entry_bytes made packed,
      ap (λ (e : Fat32DirEntry). e.name ++ e.ext) back ∙ name-build name83 attr cluster size n,
      ap (λ (e : Fat32DirEntry). e.attributes) back ∙ (fields-build name83 attr cluster size).0,
      ap (λ (e : Fat32DirEntry). e.size) back ∙ (fields-build name83 attr cluster size).1,
      ap first_cluster back ∙ first_cluster-build name83 attr cluster size c,
    )
