-- ===== src/Mman/Flags.antt =====
-- The flags of mmap, crates/mytilus-mman/src/lib.rs, and how those that a program combines decide on
-- the error number.
use mytilus.Base.{
  ℕ, ◌^◌, ◌-◌, ◌%◌, ◌<◌, ◌≡◌, ◌∙◌, inl, inr, Bool, true, false, not, ◌&&◌, ◌==◌, if◌then◌else◌,
  List, test_bit, combine, some_flag, as_int, combine-masked, arith, refl, ap,
}
use mytilus.Sys.{Machine, eperm, enomem}
use mytilus.Mman.{map_failed, map_fixed, map_anon, mmap}
use mytilus.Mman.Checks.{mapped, reported, mmap_outcomes}

abbrev pub map_shared : ℕ
map_shared = 1

abbrev pub map_private : ℕ
map_private = 2

abbrev pub map_shared_validate : ℕ
map_shared_validate = 3

abbrev pub map_anonymous : ℕ
map_anonymous = map_anon

abbrev pub map_noreserve : ℕ
map_noreserve = 0x4000

abbrev pub map_growsdown : ℕ
map_growsdown = 0x100

abbrev pub map_denywrite : ℕ
map_denywrite = 0x800

abbrev pub map_executable : ℕ
map_executable = 0x1000

abbrev pub map_locked : ℕ
map_locked = 0x2000

abbrev pub map_populate : ℕ
map_populate = 0x8000

abbrev pub map_nonblock : ℕ
map_nonblock = 0x10000

abbrev pub map_stack : ℕ
map_stack = 0x20000

abbrev pub map_hugetlb : ℕ
map_hugetlb = 0x40000

abbrev pub map_sync : ℕ
map_sync = 0x80000

abbrev pub map_fixed_noreplace : ℕ
map_fixed_noreplace = 0x100000

abbrev pub map_file : ℕ
map_file = 0

-- One flag; a type of mapping is a flag as well.
pub data MapFlag : Type 0 where
  shared : MapFlag
  private : MapFlag
  shared_validate : MapFlag
  fixed : MapFlag
  anon : MapFlag
  anonymous : MapFlag
  noreserve : MapFlag
  growsdown : MapFlag
  denywrite : MapFlag
  executable : MapFlag
  locked : MapFlag
  populate : MapFlag
  nonblock : MapFlag
  stack : MapFlag
  hugetlb : MapFlag
  sync : MapFlag
  fixed_noreplace : MapFlag
  file : MapFlag

unfoldable pub flag_value : MapFlag → ℕ
flag_value shared = map_shared
flag_value private = map_private
flag_value shared_validate = map_shared_validate
flag_value fixed = map_fixed
flag_value anon = map_anon
flag_value anonymous = map_anonymous
flag_value noreserve = map_noreserve
flag_value growsdown = map_growsdown
flag_value denywrite = map_denywrite
flag_value executable = map_executable
flag_value locked = map_locked
flag_value populate = map_populate
flag_value nonblock = map_nonblock
flag_value stack = map_stack
flag_value hugetlb = map_hugetlb
flag_value sync = map_sync
flag_value fixed_noreplace = map_fixed_noreplace
flag_value file = map_file

-- MAP_FIXED itself; MAP_FIXED_NOREPLACE is a different flag.
unfoldable pub is_fixed : MapFlag → Bool
is_fixed fixed = true
is_fixed f = false

unfoldable pub is_anonymous : MapFlag → Bool
is_anonymous anon = true
is_anonymous anonymous = true
is_anonymous f = false

-- The bits 4 and 5 of a flag.
flag_bits :
    (f : MapFlag)
    → (test_bit (flag_value f) 4 ≡ as_int (is_fixed f))
      × (test_bit (flag_value f) 5 ≡ as_int (is_anonymous f))
unfolding flag_value is_fixed is_anonymous test_bit
flag_bits shared = (refl, refl)
flag_bits private = (refl, refl)
flag_bits shared_validate = (refl, refl)
flag_bits fixed = (refl, refl)
flag_bits anon = (refl, refl)
flag_bits anonymous = (refl, refl)
flag_bits noreserve = (refl, refl)
flag_bits growsdown = (refl, refl)
flag_bits denywrite = (refl, refl)
flag_bits executable = (refl, refl)
flag_bits locked = (refl, refl)
flag_bits populate = (refl, refl)
flag_bits nonblock = (refl, refl)
flag_bits stack = (refl, refl)
flag_bits hugetlb = (refl, refl)
flag_bits sync = (refl, refl)
flag_bits fixed_noreplace = (refl, refl)
flag_bits file = (refl, refl)

-- Whether the caller leaves the place of an anonymous mapping to the kernel.
abbrev pub leaves_place : ℕ → List MapFlag → Bool
leaves_place addr fs = addr == 0 && some_flag is_anonymous fs && not (some_flag is_fixed fs)

refused_lem :
    (addr : ℕ) (fs : List MapFlag)
    → reported addr (combine flag_value fs) (2 ^ 64 - 1)
      ≡ (if leaves_place addr fs then enomem else eperm)
refused_lem addr fs =
    let fixed_bit = combine-masked flag_value is_fixed 4 (λ f. (flag_bits f).0) fs in
    let anon_bit = combine-masked flag_value is_anonymous 5 (λ f. (flag_bits f).1) fs in
    ground (arith, fixed_bit, anon_bit)

-- For any list of flags, combined with `|`, where the offset is a multiple of 4096, the length is
-- below 2 ^ 63 - 1 and the kernel answers -EPERM: mmap is MAP_FAILED, and errno is ENOMEM where the address is
-- 0, MAP_ANON or MAP_ANONYMOUS is in the list and MAP_FIXED is not, and else EPERM.
pub mmap_flags :
    {K : Type 0} (svc : ℕ → List ℕ → K → ℕ × K) (addr length prot fd offset : ℕ) (fs : List MapFlag)
    (p : Machine K)
    → offset % 4096 ≡ 0
    → length < 2 ^ 63 - 1
    → (mapped svc addr length prot (combine flag_value fs) fd offset p).0 ≡ 2 ^ 64 - 1
    → mmap svc addr length prot (combine flag_value fs) fd offset p ≡ (
      map_failed,
      record p {
        kernel = (mapped svc addr length prot (combine flag_value fs) fd offset p).1;
        errno = if leaves_place addr fs then enomem else eperm;
      },
    )
mmap_flags svc addr length prot fd offset fs p aligned short denied =
    let answer = mapped svc addr length prot (combine flag_value fs) fd offset p in
    let number : reported addr (combine flag_value fs) answer.0
        ≡ (if leaves_place addr fs then enomem else eperm) =
      ap (reported addr (combine flag_value fs)) denied ∙ refused_lem addr fs in
    elim (mmap_outcomes svc addr length prot (combine flag_value fs) fd offset p
      (omega (arith, denied))) [
        | inl (off, _) ↦ absurd (off aligned)
        | inr (inl (_, long, _)) ↦ absurd (omega (arith, long, short))
        | inr (inr (inl (_, _, _, e))) ↦
            e ∙ ap (λ n. (map_failed, record p { kernel = answer.1; errno = n })) number
        | inr (inr (inr (_, _, good, _))) ↦ absurd (omega (arith, good, denied))
      ]
