-- ===== src/Mman.antt =====
-- crates/mytilus-mman/src/lib.rs: memory mappings. NULL is the address 0.
use mytilus.Base.{
  ℕ, ◌+◌, ◌-◌, ◌*◌, ◌/◌, ◌%◌, ◌^◌, Bool, not, ◌&&◌, ◌==◌, leb, if◌then◌else◌, List, bit_and,
}
use mytilus.Sys.Numbers.{
  sys_madvise, sys_mincore, sys_mlock, sys_mlockall, sys_mmap, sys_mprotect, sys_mremap, sys_msync,
  sys_munlock, sys_munlockall, sys_munmap,
}
use mytilus.Sys.{
  eperm, enomem, einval, returned, Machine, Call, ◌>>=◌, value, neg, sign_extend, as_c_int,
  minus_one, set_errno, ret, syscall0, syscall1, syscall2, syscall3, syscall5, syscall6,
  syscall_cp3,
}
pub mod Checks
pub mod Flags
pub mod Remap

abbrev pub map_failed : ℕ
map_failed = minus_one

abbrev pub map_fixed : ℕ
map_fixed = 0x10

abbrev pub map_anon : ℕ
map_anon = 0x20

abbrev pub madv_dontneed : ℕ
madv_dontneed = 4

abbrev pub ptrdiff_max : ℕ
ptrdiff_max = 2 ^ 63 - 1

abbrev pub off_mask : ℕ
off_mask = 4096 - 1

module _ {K : Type 0} (svc : ℕ → List ℕ → K → ℕ × K) where
  -- `set_errno(e); return MAP_FAILED`
  abbrev pub failed : ℕ → Call K ℕ
  failed e = do _ ← set_errno e; value map_failed

  unfoldable pub mmap : ℕ → ℕ → ℕ → ℕ → ℕ → ℕ → Call K ℕ
  mmap addr length prot flags fd offset =
      let maps : Call K ℕ = do
        r ←
            syscall6 svc sys_mmap addr length (sign_extend prot) (sign_extend flags)
              (sign_extend fd) offset
        let refused =
            r == neg eperm
            && (addr == 0 && not (bit_and flags map_anon == 0) && bit_and flags map_fixed == 0)
        ret (if refused then neg enomem else r)
      in if not (bit_and offset off_mask == 0)
        then failed einval
        else if leb ptrdiff_max length
        then failed enomem
        else maps

  unfoldable pub munmap : ℕ → ℕ → Call K ℕ
  munmap addr length = do r ← syscall2 svc sys_munmap addr length; returned r

  unfoldable pub mprotect : ℕ → ℕ → ℕ → Call K ℕ
  mprotect addr length prot = do
    r ← syscall3 svc sys_mprotect addr length (sign_extend prot)
    returned r

  unfoldable pub mremap : ℕ → ℕ → ℕ → ℕ → ℕ → Call K ℕ
  mremap old_addr old_len new_len flags new_addr =
      let remaps : Call K ℕ = do
        r ← syscall5 svc sys_mremap old_addr old_len new_len (sign_extend flags) new_addr
        ret r
      in if leb ptrdiff_max new_len then failed enomem else remaps

  unfoldable pub msync : ℕ → ℕ → ℕ → Call K ℕ
  msync addr length flags = do
    r ← syscall_cp3 svc sys_msync addr length (sign_extend flags)
    returned r

  unfoldable pub madvise : ℕ → ℕ → ℕ → Call K ℕ
  madvise addr length advice = do
    r ← syscall3 svc sys_madvise addr length (sign_extend advice)
    returned r

  -- The error number is the result, not errno.
  unfoldable pub posix_madvise : ℕ → ℕ → ℕ → Call K ℕ
  posix_madvise addr length advice =
      let advises : Call K ℕ = do
        r ← syscall3 svc sys_madvise addr length (sign_extend advice)
        value (as_c_int (neg r))
      in if advice == madv_dontneed then value 0 else advises

  unfoldable pub mincore : ℕ → ℕ → ℕ → Call K ℕ
  mincore addr length vec = do r ← syscall3 svc sys_mincore addr length vec; returned r

  unfoldable pub mlock : ℕ → ℕ → Call K ℕ
  mlock addr length = do r ← syscall2 svc sys_mlock addr length; returned r

  unfoldable pub munlock : ℕ → ℕ → Call K ℕ
  munlock addr length = do r ← syscall2 svc sys_munlock addr length; returned r

  unfoldable pub mlockall : ℕ → Call K ℕ
  mlockall flags = do r ← syscall1 svc sys_mlockall (sign_extend flags); returned r

  unfoldable pub munlockall : Call K ℕ
  munlockall = do r ← syscall0 svc sys_munlockall; returned r
