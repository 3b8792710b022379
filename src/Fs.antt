-- ===== src/Fs.antt =====
-- The MOROS file system (src/sys/fs): a module for each source file, bottom up.
pub mod Block
pub mod Device
pub mod Linked
pub mod SuperBlock
pub mod Bitmap
pub mod Alloc
pub mod Entry
pub mod ReadDir
pub mod Dir
pub mod Slots
pub mod Change
pub mod File
pub mod Listing
pub mod Seek
pub mod Devices
pub mod Resource
pub mod Format
