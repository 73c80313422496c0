-- ===== src/Elf/Lookup/Sample.antt =====
-- What the lookups of elf_reader.cpp find in the sample file.
use xapm.Base.{◌≡◌, refl, Bool, true, none, some, ok, strcmp_eq, codes}
use xapm.Elf.Hash.{elf_hash, elf_hash_loop, elf_hash_round}
use xapm.Elf.Lookup.{
  has_name, named_value, elf_chain, lookup_by_elf_hash, lookup_dynsym, after_dynsym, lookup_symbol,
  at_base,
}
use xapm.Elf.Reader.Sample.{sample, sample_reader, suspend_vm_name}

pub sample_finds :
    (only_dynsym : Bool)
    → lookup_symbol sample 2 sample_reader (some suspend_vm_name) 4096 only_dynsym ≡ ok (some 4160)
unfolding lookup_symbol lookup_dynsym lookup_by_elf_hash elf_chain named_value has_name after_dynsym
    at_base strcmp_eq elf_hash elf_hash_loop elf_hash_round
sample_finds only_dynsym = refl

pub sample_misses :
    lookup_symbol sample 2 sample_reader (some (codes "_ZN3art3Dbg8ResumeVMEv")) 4096 true ≡ ok none
unfolding lookup_symbol lookup_dynsym lookup_by_elf_hash elf_chain named_value has_name after_dynsym
    at_base strcmp_eq elf_hash elf_hash_loop elf_hash_round
sample_misses = refl
