-- ===== src/Elf.antt =====
-- hprof/hprofdumper: symbol lookup in ELF files.
pub mod Hash
pub mod Image
pub mod Reader
pub mod Lookup
pub mod Wrapper
