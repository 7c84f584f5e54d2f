-- ===== src/Libc/Tests.antt =====
-- Runs of the library functions, and the theorems applied to them.
use mo_os.Prelude.{◌≡◌, refl, some}
use mo_os.Libc.{Bytes, copy_up, copy_down, memcpy, memmove, find_byte, memchr}
use mo_os.Libc.Memory.{memmove-Copied, Copied}

-- Each byte holds its address.
abbrev numbered : Bytes
numbered a = a

-- Bytes 10 to 13 are moved up by one, over themselves.
run_memmove : memmove 11 10 4 numbered 14 ≡ 13
unfolding memmove copy_down
run_memmove = refl

-- `memcpy` does not keep them.
run_memcpy : memcpy 11 10 4 numbered 14 ≡ 10
unfolding memcpy copy_up
run_memcpy = refl

run_memchr : memchr 10 0x10c 4 numbered ≡ some 12
unfolding memchr find_byte
run_memchr = refl

memmove-Copied_example : Copied 11 10 4 numbered (memmove 11 10 4 numbered)
memmove-Copied_example = memmove-Copied 11 10 4 numbered
