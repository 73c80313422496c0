-- ===== src/Lib.antt =====
-- xapm: the native parts of an Android performance monitor, and what they are shown to do.
--
-- The parts and how they interact. In the child process that writes a heap dump, HprofStrip
-- (hprof/hprofclipper) stands between ART and the kernel: its hook of open finds the dump's file,
-- and its hook of write walks over each heap record and leaves out what an analysis does not need.
-- HprofDump (hprof/hprofdumper) suspends the VM and forks that child; it finds ART's private functions
-- with DlFcn, which goes around the linker's namespaces: MapUtil gives the load base of a library, and
-- ElfReader looks up a symbol in its file, whose bytes an ElfWrapper owns.
--
-- Base holds what the parts share: lists and Boolean tests over the native numbers, machine words
-- with their wrap written out (Base.Word), results that can be a fault (Base.Outcome), the functions
-- of <cstring> (Base.CString), and numbers as printf writes them (Base.Text).
--
-- Strip models hprof/hprofclipper/src/main/cpp/hprof_strip.cpp and include/hprof_strip.h.
--   Strip.Tags has the enums and GetByteSizeFromType, Strip.State the class's members, Strip.Heap
--   ProcessHeap with a function for each kind of sub-record, Strip.Kernel write(2) and FullyWrite,
--   Strip.Write HookWriteInternal, Strip.Open HookOpenInternal. Strip.Format and Strip.Spec say
--   independently what a heap record is and what of it is to be kept: Strip.Heap.Walk and
--   Strip.Write.Hook relate the code to them, and Strip.Session.Mixed a whole dump, from the
--   hooking and the open to the last of its records, with the process's other writes between them.
--   An int is its 32-bit pattern, and arithmetic on it wraps, also where C++ leaves an overflow
--   undefined. A read or write out of bounds is a fault; where two are possible, the one shown may
--   be another than the program's first. ProcessHeap is recursive: `process_heap` has fuel for its
--   calls, `count + 1` of them where HookWriteInternal starts it, which is enough where no call goes
--   back, since each takes a byte of its own. write(2) is a script of outcomes, how many bytes it
--   takes or that it fails, and FullyWrite is `stuck` where the script ends first. What open
--   returns is an argument.
--   Strip.Install has HookInit, over xhook as the parameter Xhook, with what its registrations,
--   refreshes and clears do as named laws; a call that is sent to no hook is the system's.
--   Strip.Bridge has hprof/hprofclipper/src/main/cpp/native_bridge.cpp.
--   Left out: the parameter heap_serial_no of ProcessHeap, which is never read; the counters
--   FullyWritecount and WriteInternalcount, total_write and the log, which nothing depends on.
--
-- Elf models hprof/hprofdumper/src/main/cpp/elf_reader.cpp, include/elf_reader.h and
--   include/elf_wrapper.h.
--   Elf.Hash has the two hash functions, Elf.Image the mapped file, Elf.Reader the members and Init,
--   Elf.Lookup LookupSymbol and its searches. The struct layouts of <link.h> and the bytes of the
--   file are the parameter ElfImage; a read outside of the mapped memory is a fault. A chain of a
--   hash table can run in a circle, so that the loops along it have fuel: one more than the chain's
--   length, or its length, is enough (Elf.Lookup.Chains). Elf.Wrapper has the owners of a file's
--   bytes; what open, lseek and mmap answer is the parameter FileSystem, and what the process holds of
--   descriptors and mappings is the state.
--
-- Maps models hprof/hprofdumper/src/main/cpp/include/map_util.hpp.
--   Maps.Bias has GetVal and ReadLoadBias, Maps.Names EndsWith, Maps.Find GetLoadInfo and its two
--   ways. Memory and the field layout of <elf.h> are the parameter Process. The lines of
--   /proc/self/maps come as sscanf leaves them, the objects of dl_iterate_phdr as a list.
--
-- Dlfcn models hprof/hprofdumper/src/main/cpp/kwai_dlfcn.cpp and include/kwai_dlfcn.h: DlFcn's dlopen,
--   dlsym and dlclose, and dlopen_elf and dlsym_elf over Maps and Elf. The system's linker, with the
--   function that `__loader_dlopen` points to, is the parameter Linker. A handle is what it points to. Dlfcn.Memory
--   has the pointers, with the objects that new makes and delete gives back: a read of an object that
--   is gone, a second delete and a delete as another type are faults. The allocator is a parameter
--   that always finds a free place. Dlfcn.Memory.Session has clients that make any calls, over
--   handles that are values and over pointers. The fuel is that of Elf.
--
-- Dump models hprof/hprofdumper/src/main/cpp/hprof_dump.cpp and include/hprof_dump.h: Initialize,
--   SuspendAndFork and ResumeAndWait. The process, with ART's code at the addresses that DlFcn finds,
--   fork and waitpid, is the parameter Machine; a call through a null pointer is a fault. The loop
--   around waitpid has fuel: more rounds than signals interrupt the call are enough (Dump.Waits).
--   Dump.Bridge has hprof/hprofdumper/src/main/cpp/native_bridge.cpp, and of
--   hprof/hprofdumper/src/main/java/com/kwai/koom/fastdump/ForkJvmHeapDumper.java the part of `dump`
--   that calls it; what Debug.dumpHprofData does is an argument.
--
-- Dumper puts Strip and Dump together as
--   hprof/hprofclipper/src/main/java/com/kwai/koom/javaoom/hprof/ForkStripHeapDumper.java does: init and
--   dump, over a process that has a VM, hooks, the object of HprofStrip and files. The calls of open
--   and write that ART makes in Debug.dumpHprofData are arguments. Left out: dumpWithNonBlockManner,
--   and what ForkJvmHeapDumper does before it suspends the VM.
--
-- Crash models crashcatcher/src/main/cpp/nativecrashcatcher.cpp.
--   Crash.Handlers has setupSigHandlers, setupAltStack, setupCleanupThread, execOldSigHandlers and
--   initNativeCrashCatcher; what malloc, sigaltstack, sigaction and pthread_create answer is an
--   argument. SIG_IGN, the address 1, counts as a function.
--   Crash.Notify has one crashing thread in sigHandler and the clean-up thread as a step relation on
--   what they share: every order of their steps is a run. A wait ends by a signal, or, as a step of
--   its own kind, without one. The mutex, which sigHandler does not lock, is left out. Crash.Threads
--   has any number of crashing threads and handleSigState; a wait may end at any time there, pause may
--   return, and the clean-up thread is left out.
--   Crash.Text has assembleCrashInfo with its two buffers; a write behind the end of one is a fault.
--   In Crash.Notify it counts as one step. An int is its 32-bit pattern. Crash.Callback has
--   callbackToUI with the answers of the JNI, the string of NewStringUTF among them.
--   Left out: setBlockSignals, which is not called, and triggerException, which is a test.
--
-- Not modelled: tls.h and tls_defines.h, which are Android's, and the other Kotlin and Java code.
pub mod Base
pub mod Crash
pub mod Dlfcn
pub mod Dump
pub mod Dumper
pub mod Elf
pub mod Maps
pub mod Strip
