-- ===== src/Fs/Fat32/Tests.antt =====
-- Runs and instances at concrete values: a volume of one table sector and eight clusters.
mod Names
mod Directories
use layla_os.Base.{
  ℕ, zero, suc, ◌+◌, ◌*◌, ◌≡◌, refl, ◌∙◌, ◌≢◌, ◌⊎◌, Bool, true, false, Option, none, some, List, [],
  ◌∷◌, ◌++◌, if◌then◌else◌, ◌==◌, replicate, take, Bool-cases, inl, inr, arith,
}
use layla_os.Net.Wire.{bytes16, bytes32}
use layla_os.Fs.Disk.{Disk, Run, ok, fault, out_of_fuel, Cmd, pure, ◌>>=◌}
use layla_os.Fs.Fat32.{Fat32, max_cluster, next_cluster, alloc_cluster, set_fat_entry}
use layla_os.Fs.Fat32.Table.{IsVolume, IsReadable, next_cluster_lem}
use layla_os.Fs.Fat32.Table.Update.{Updates, set_fat_entry-Updates}
use layla_os.Fs.Fat32.Table.Alloc.{or_zero, IsFirstFree, alloc_cluster_lem}
use layla_os.Fs.Fat32.File.Written.{Spares, NoneFree}
use layla_os.Fs.Fat32.File.ReadBack.{ReadsBack, write_cluster_chain-read_chain}
use layla_os.Fs.Fat32.Cluster.Place.{IsSound, IsGeometry, IsData}
use layla_os.Fs.Fat32.File.{read_file, write_file, write_cluster_chain, make_dir, delete_file}
use layla_os.Fs.Fat32.Listing.{list_directory_to_buffer}

abbrev pub volume : Fat32
volume = record {
  partition_lba = 1;
  bpb = record {
    bytes_per_sector = 512;
    sectors_per_cluster = 1;
    reserved_sectors = 1;
    fat_count = 2;
    total_sectors_16 = 11;
    total_sectors_32 = 0;
    fat_size_32 = 1;
    root_cluster = 2;
  };
  fat_lba = 2;
  data_lba = 4;
  cluster_size = 512;
}

abbrev pub table : List ℕ
table =
    bytes32 0x0FFFFFF8
    ++ (bytes32 0x0FFFFFFF ++ (bytes32 0x0FFFFFFF ++ (bytes32 0x0FFFFFFF ++ replicate 496 0)))

abbrev pub disk : Disk
disk = record {
  sectors = λ lba. if lba == 2 then table else if lba == 3 then table else replicate 512 0;
  silent = λ lba. false;
  stack = [];
}

abbrev answer : {A : Type 0} → Run A → Option A
answer (ok a d) = some a
answer fault = none
answer out_of_fuel = none

abbrev demo : Cmd (Option (ℕ × List ℕ))
demo = do
  w ← write_file volume (b'a' ∷ (b'.' ∷ (b't' ∷ []))) (1 ∷ (2 ∷ (3 ∷ []))) 3
  read_file volume (b'/' ∷ (b'A' ∷ (b'.' ∷ (b't' ∷ [])))) (replicate 512 7)

abbrev brief : Option (Option (ℕ × List ℕ)) → Option (ℕ × List ℕ)
brief (some (some (n, xs))) = some (n, take 5 xs)
brief _ = none

abbrev listing : Cmd (Option (List ℕ))
listing = do
  w ← write_file volume (b'a' ∷ (b'.' ∷ (b't' ∷ []))) (1 ∷ (2 ∷ (3 ∷ []))) 3
  m ← make_dir volume (b'b' ∷ (b'b' ∷ []))
  list_directory_to_buffer volume []

abbrev gone : Cmd (Option (ℕ × List ℕ))
gone = do
  w ← write_file volume (b'a' ∷ []) (1 ∷ []) 1
  u ← delete_file volume (b'A' ∷ [])
  read_file volume (b'a' ∷ []) (replicate 512 0)

-- A file that is written is read, whatever the case of its name; a listing shows it and a new
-- directory; and after its deletion it is not found.
runs :
    (brief (answer (demo disk)) ≡ some (3, 1 ∷ (2 ∷ (3 ∷ (0 ∷ (0 ∷ []))))))
    × (answer (listing disk)
        ≡ some (some (b'A' ∷ (b'.' ∷ (b'T' ∷ (10 ∷ (b'B' ∷ (b'B' ∷ (b'/' ∷ (10 ∷ []))))))))))
    × (answer (gone disk) ≡ some none)
unfolding write_file make_dir delete_file read_file list_directory_to_buffer max_cluster
    layla_os.Fs.Fat32.Path.resolve_parent_dir layla_os.Fs.Fat32.Path.parent_loop
    layla_os.Fs.Fat32.Path.skip_slash layla_os.Fs.Fat32.Path.skip_slashes
    layla_os.Fs.Fat32.Path.resolve_path layla_os.Fs.Fat32.Path.resolve_loop
    layla_os.Fs.Fat32.Path.take_component layla_os.Fs.Fat32.Directory.find_entry
    layla_os.Fs.Fat32.Directory.find_loop layla_os.Fs.Fat32.read_cluster
    layla_os.Fs.Fat32.read_sectors layla_os.Fs.Disk.read28 layla_os.Net.Wire.write_at
    layla_os.Fs.Disk.lba28 layla_os.Fs.Disk.stack_buffer layla_os.Fs.Fat32.Directory.find_in
    layla_os.Fs.Fat32.File.store_file layla_os.Fs.Fat32.alloc_cluster layla_os.Fs.Disk.write28
    layla_os.Fs.Fat32.Directory.add_dir_entry layla_os.Fs.Fat32.Directory.add_in
    layla_os.Fs.Fat32.Directory.add_loop layla_os.Fs.Fat32.Directory.grow_directory
    layla_os.Fs.Fat32.Directory.mark_entry_deleted layla_os.Fs.Fat32.Directory.mark_in
    layla_os.Fs.Fat32.Directory.mark_loop layla_os.Fs.Fat32.Entry.build_dir_entry
    layla_os.Fs.Fat32.Entry.entry_bytes layla_os.Fs.Fat32.Entry.first_cluster
    layla_os.Fs.Fat32.Entry.is_directory layla_os.Fs.Fat32.Entry.load_entry
    layla_os.Fs.Fat32.File.extend_chain layla_os.Fs.Fat32.File.free_chain
    layla_os.Fs.Fat32.File.write_cluster_chain layla_os.Fs.Fat32.File.write_loop
    layla_os.Fs.Fat32.File.read_chain layla_os.Fs.Fat32.File.dots
    layla_os.Fs.Fat32.Listing.list_loop layla_os.Fs.Fat32.Listing.list_in
    layla_os.Fs.Fat32.Listing.listed_line layla_os.Fs.Fat32.Listing.listed_name
    layla_os.Fs.Fat32.Listing.visible layla_os.Fs.Fat32.Listing.directory_of
    layla_os.Fs.Fat32.Name.after_dot layla_os.Fs.Fat32.Name.match_from
    layla_os.Fs.Fat32.Name.over_blanks layla_os.Fs.Fat32.Name.short_base
    layla_os.Fs.Fat32.Name.short_ext layla_os.Fs.Fat32.Name.to_short_name
    layla_os.Fs.Fat32.next_cluster layla_os.Fs.Fat32.scan_entries layla_os.Fs.Fat32.scan_fat
    layla_os.Fs.Fat32.set_entry_at layla_os.Fs.Fat32.set_fat_entry layla_os.Fs.Fat32.write_cluster
    layla_os.Fs.Fat32.write_sectors
runs = (refl, refl, refl)

pub volume-IsVolume : IsVolume volume
volume-IsVolume = record {
  first = omega arith;
  second = λ h. omega arith;
  small = omega arith;
  entries = omega arith;
}

pub volume_max : max_cluster volume ≡ some 10
unfolding max_cluster
volume_max = refl

abbrev pub volume-IsGeometry : IsGeometry volume
volume-IsGeometry = record {
  volume = volume-IsVolume;
  max = 10;
  bounded = volume_max;
  last = omega arith;
  sectors = omega arith;
  fits = omega arith;
  bytes = refl;
}

pub disk-IsSound : IsSound disk
disk-IsSound = record {
  size = λ lba. elim (Bool-cases (lba == 2)) [
    | inl e ↦ rw e refl
    | inr e ↦ elim (Bool-cases (lba == 3)) [ inl f ↦ rw (e, f) refl | inr f ↦ rw (e, f) refl ]
  ];
  answers = λ lba. refl;
}

pub disk-IsReadable : IsReadable volume disk
disk-IsReadable = record { size = disk-IsSound.size; answers = λ lba h. refl }

-- Cluster 3 is in use.
three : IsData volume volume-IsGeometry 3
three = record { low = omega arith; high = omega arith; entry = omega arith }

three_used : next_cluster volume disk 3 ≢ 0
unfolding next_cluster
three_used = λ e. absurd (omega (arith, value, e))
  where
    value : next_cluster volume disk 3 ≡ 0x0FFFFFFF
    value = next_cluster_lem volume volume-IsVolume disk 3 disk-IsReadable (omega arith) ∙ refl

write_cluster_chain-read_chain_example :
    (d : Disk) × ((write_cluster_chain volume 3 (1 ∷ (2 ∷ [])) 600 disk ≡ ok false d)
        × NoneFree volume volume-IsGeometry d
        × Spares volume volume-IsGeometry disk 3 d
      ⊎ (write_cluster_chain volume 3 (1 ∷ (2 ∷ [])) 600 disk ≡ ok true d)
        × ReadsBack volume d 3 (1 ∷ (2 ∷ [])) 600
        × Spares volume volume-IsGeometry disk 3 d)
write_cluster_chain-read_chain_example =
    write_cluster_chain-read_chain volume volume-IsGeometry disk 3 (1 ∷ (2 ∷ [])) 600 disk-IsSound
      three three_used (omega arith) (omega arith)

set_fat_entry-Updates_example :
    (d : Disk) × (set_fat_entry volume 5 0x0FFFFFFF disk ≡ ok true d)
    × Updates volume volume-IsVolume disk 5 0x0FFFFFFF d
set_fat_entry-Updates_example =
    set_fat_entry-Updates volume volume-IsVolume disk 5 0x0FFFFFFF disk-IsReadable (omega arith)

alloc_cluster_example :
    (found : Option ℕ) × (alloc_cluster volume disk ≡ ok (or_zero found) disk)
    × IsFirstFree (next_cluster volume disk) 10 0 128 found
alloc_cluster_example = alloc_cluster_lem volume disk 10 volume-IsVolume disk-IsReadable volume_max
