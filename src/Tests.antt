-- ===== src/Tests.antt =====
-- Runs of the modelled operations on concrete inputs, by component.
mod Prompts
mod Editors
mod Shells
mod Lisps
mod Disks
mod Bitmap
mod Regex
mod Entries
mod Files
mod Paths
mod Processes
mod Formatting
