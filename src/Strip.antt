-- ===== src/Strip.antt =====
-- hprof/hprofclipper: the hooks that cut a Java heap dump while ART writes it.
pub mod Tags
pub mod State
pub mod Heap
pub mod Kernel
pub mod Write
pub mod Open
pub mod Install
pub mod Bridge
pub mod Format
pub mod Spec
pub mod Session
mod Runs
