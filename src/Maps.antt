-- ===== src/Maps.antt =====
-- `MapUtil` of hprof/hprofdumper/src/main/cpp/include/map_util.hpp: the load base of a library, from
-- /proc/self/maps or from the dynamic linker.
pub mod Bias
pub mod Names
pub mod Find
mod Runs
