-- ===== src/Crash.antt =====
-- crashcatcher/src/main/cpp/nativecrashcatcher.cpp: the native crash catcher.
pub mod Handlers
pub mod Notify
pub mod Threads
pub mod Callback
pub mod Text
mod Runs
