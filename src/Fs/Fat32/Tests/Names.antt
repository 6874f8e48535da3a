-- ===== src/Fs/Fat32/Tests/Names.antt =====
-- Names, entries and listings at concrete values.
use layla_os.Base.{ℕ, ◌≤◌, ◌≡◌, refl, List, [], ◌∷◌, ◌++◌, length, replicate, arith}
use layla_os.Fs.Fat32.Name.{to_short_name, over_blanks}
use layla_os.Fs.Fat32.Name.Shown.{IsShort, to_short_name-listed_name}
use layla_os.Fs.Fat32.Entry.{Fat32DirEntry, load_entry, entry_bytes, build_dir_entry, first_cluster}
use layla_os.Fs.Fat32.Entry.Packed.{load_entry-build_dir_entry}
use layla_os.Fs.Fat32.Listing.{Output, listed_name, output_in, output_u32}
use layla_os.Fs.Fat32.Listing.Text.{text, entries_text, text-output_in}
use layla_os.Fs.Fat32.Listing.Decimal.{IsDigits, parse, output_u32-parse}

abbrev base : List ℕ
base = b'N' ∷ (b'O' ∷ (b'T' ∷ (b'E' ∷ (b'S' ∷ []))))

abbrev ext : List ℕ
ext = b'T' ∷ (b'X' ∷ (b'T' ∷ []))

base-IsShort : IsShort base
base-IsShort = (
  omega arith,
  omega arith,
  refl,
  (
    omega arith,
    omega arith,
    refl,
    (
      omega arith,
      omega arith,
      refl,
      (omega arith, omega arith, refl, (omega arith, omega arith, refl, tt)),
    ),
  ),
)

ext-IsShort : IsShort ext
ext-IsShort = (
  omega arith,
  omega arith,
  refl,
  (omega arith, omega arith, refl, (omega arith, omega arith, refl, tt)),
)

to_short_name-listed_name_example :
    to_short_name (listed_name (over_blanks 8 base ++ (over_blanks 3 ext ++ (0x20 ∷ []))))
    ≡ over_blanks 8 base ++ over_blanks 3 ext
to_short_name-listed_name_example =
    to_short_name-listed_name base ext (0x20 ∷ []) base-IsShort ext-IsShort (omega arith)
      (omega arith)

abbrev name83 : List ℕ
name83 = base ++ (replicate 3 b' ' ++ ext)

load_entry-build_dir_entry_example :
    let bytes = entry_bytes (build_dir_entry name83 0x20 0x12345 600) in
    let e : Fat32DirEntry = load_entry (bytes ++ []) in
    (length bytes ≡ 32)
    × (e.name ++ e.ext ≡ name83)
    × (e.attributes ≡ 0x20)
    × (e.size ≡ 600)
    × (first_cluster e ≡ 0x12345)
load_entry-build_dir_entry_example =
    load_entry-build_dir_entry name83 0x20 0x12345 600 [] refl (omega arith) (omega arith)

abbrev full : Output
full = record { shown = []; out = replicate 256 b'x' }

abbrev slot : List ℕ
slot = name83 ++ (0x20 ∷ replicate 20 0)

text-output_in_example : text (output_in 1 full 0 slot).0 ≡ text full ++ entries_text 1 0 slot
text-output_in_example = text-output_in 1 full 0 slot

output_u32-parse_example :
    (digits : List ℕ) × (text (output_u32 full 4096) ≡ text full ++ digits)
    × IsDigits digits
    × (length digits ≤ 10)
    × (parse 0 digits ≡ 4096)
output_u32-parse_example = output_u32-parse full 4096 (omega arith)
