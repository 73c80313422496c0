-- ===== src/Dlfcn/Symbols.antt =====
-- What a symbol is that `dlsym_elf` of kwai_dlfcn.cpp finds, from the library's name to the address.
use xapm.Base.{Option}
