-- ===== src/Dlfcn/Sample.antt =====
-- A device with libart.so loaded: test data for the clients of kwai_dlfcn.cpp.
pub mod Looks
use xapm.Base.{ℕ, true, false, List, [], ◌∷◌, none, some, ◌==◌, if◌then◌else◌, codes}
use xapm.Elf.Reader.Sample.{sample}
use xapm.Elf.Wrapper.{FileSystem, Resources}
use xapm.Maps.Bias.{Process}
use xapm.Dlfcn.{DlPhdrInfo, Linker, DlFcn}

abbrev pub lib_art : List ℕ
lib_art = codes "libart.so"

abbrev pub art_path : List ℕ
art_path = codes "/system/lib/libart.so"

abbrev disk : FileSystem
disk = record {
  file_word_size = 8;
  open_file = λ name. some 7;
  lseek_end = λ fd. some 1000;
  mmap = λ size fd. some 65536;
  image_at = λ a n. sample;
}

abbrev pub process : Process
process = record {
  word_size = 8;
  memory = λ a w. none;
  e_phnum = record { at = 0; width = 2 };
  e_phoff = record { at = 8; width = 8 };
  p_type = record { at = 0; width = 4 };
  p_flags = record { at = 4; width = 4 };
  p_offset = record { at = 8; width = 8 };
  p_vaddr = record { at = 16; width = 8 };
  phdr_size = 56;
}

-- The program itself, which has no path, and libart.so.
abbrev pub shown : List DlPhdrInfo
shown =
    record { dlpi_name = none; dlpi_addr = 0; dlpi_phdr = 0; dlpi_phnum = 0 }
    ∷ record { dlpi_name = some art_path; dlpi_addr = 4096; dlpi_phdr = 4160; dlpi_phnum = 9 }
    ∷ []

abbrev pub linker_of : ℕ → Linker
linker_of api_level = record {
  api_level = api_level;
  system_dlopen = λ name flags. some 50;
  system_dlsym = λ handle name. some 60;
  system_dlclose = λ handle. 0;
  loader_at = λ f name flags address. if address == 4096 then some 70 else none;
  dlerror = 80;
  has_dl_iterate_phdr = true;
  objects = shown;
  files = disk;
  process = process;
  maps = none;
  new_succeeds = true;
}

abbrev pub untouched : DlFcn
untouched = record { android_api = 0; once_done = false }

abbrev pub ready_at : ℕ → DlFcn
ready_at api_level = record { android_api = api_level; once_done = true }

abbrev pub art_object : DlPhdrInfo
art_object = record {
  dlpi_name = some art_path;
  dlpi_addr = 4096;
  dlpi_phdr = 4160;
  dlpi_phnum = 9;
}

abbrev pub nothing_held : Resources
nothing_held = record { fds = []; mappings = [] }
