-- ===== src/Elf/Hash.antt =====
-- The two hash functions of hprof/hprofdumper/src/main/cpp/include/elf_reader.h, on `uint32_t`.
use Prim.Native.Nat.{bit_and, bit_xor}
use xapm.Base.{ℕ, ◌+◌, ◌*◌, ◌/◌, ◌%◌, ◌^◌, List, [], ◌∷◌, u32_mod}

-- One round of `ElfHash::Hash`: `h = (h << 4) + c; g = h & 0xf0000000; h ^= g; h ^= g >> 24`.
unfoldable pub elf_hash_round : ℕ → ℕ → ℕ
elf_hash_round h c =
    let h' = (h * 2 ^ 4 % u32_mod + c) % u32_mod in
    let g = bit_and h' 0xf0000000 in bit_xor (bit_xor h' g) (g / 2 ^ 24)

-- The loop over the bytes up to the terminating 0.
unfoldable pub elf_hash_loop : ℕ → List ℕ → ℕ
elf_hash_loop h [] = h
elf_hash_loop h (c ∷ name) = elf_hash_loop (elf_hash_round h c) name

unfoldable pub elf_hash : List ℕ → ℕ
elf_hash name = elf_hash_loop 0 name

-- `GnuHash::Hash`: `h += (h << 5) + c`.
unfoldable pub gnu_hash_loop : ℕ → List ℕ → ℕ
gnu_hash_loop h [] = h
gnu_hash_loop h (c ∷ name) =
    gnu_hash_loop ((h + (h * 2 ^ 5 % u32_mod + c) % u32_mod) % u32_mod) name

unfoldable pub gnu_hash : List ℕ → ℕ
gnu_hash name = gnu_hash_loop 5381 name
