-- ===== src/Fs.antt =====
-- src/fs: the partition table and the FAT32 file system, over the sectors of a disk.
pub mod Disk
pub mod Mbr
pub mod Fat32
