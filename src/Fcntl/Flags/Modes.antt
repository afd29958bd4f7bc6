-- ===== src/Fcntl/Flags/Modes.antt =====
-- What open, openat and creat of crates/mytilus-fcntl/src/lib.rs read of a word of flags.
use mytilus.Base.{
  ℕ, ◌-◌, ◌%◌, ◌^◌, ◌<◌, ◌⊎◌, inl, inr, sym, ◌∙◌, ap₂, leb, bit_or_comm, ◌≡◌, Bool, true, false,
  not, ◌&&◌, ◌||◌, ◌==◌, if◌then◌else◌, List, [], ◌∷◌, bit_and, test_bit, combine, some_flag,
  as_int, combine-bit, combine-masked, bit_and-both, arith, refl, ap,
}
use mytilus.Sys.{Machine, sign_extend}
use mytilus.Sys.Errors.{IsError}
use mytilus.Fcntl.Opening.{opened, openat_outcomes, creat-eq-open}
use mytilus.Fcntl.{
  o_creat, o_cloexec, o_tmpfile, o_largefile, at_fdcwd, wants_mode, openat, open_file, creat,
}
use mytilus.Fcntl.Flags.{
  OpenFlag, rdonly, wronly, rdwr, create, excl, noctty, trunc, append, nonblock, ndelay, dsync,
  synchronous, rsync, directory, nofollow, cloexec, async, direct, largefile, noatime, path,
  tmpfile, search, execute, flag_value, takes_mode, is_cloexec,
}

is_create : OpenFlag → Bool
is_create create = true
is_create f = false

is_tmpfile : OpenFlag → Bool
is_tmpfile tmpfile = true
is_tmpfile f = false

-- The flags with the bit of O_DIRECTORY.
is_directory : OpenFlag → Bool
is_directory directory = true
is_directory tmpfile = true
is_directory f = false

-- The bits 6, 14, 19 and 22 of a flag.
flag_bits :
    (f : OpenFlag)
    → (test_bit (flag_value f) 6 ≡ as_int (is_create f))
      × (test_bit (flag_value f) 14 ≡ as_int (is_directory f))
      × (test_bit (flag_value f) 19 ≡ as_int (is_cloexec f))
      × (test_bit (flag_value f) 22 ≡ as_int (is_tmpfile f))
unfolding flag_value is_create is_directory is_cloexec is_tmpfile test_bit
flag_bits rdonly = (refl, refl, refl, refl)
flag_bits wronly = (refl, refl, refl, refl)
flag_bits rdwr = (refl, refl, refl, refl)
flag_bits create = (refl, refl, refl, refl)
flag_bits excl = (refl, refl, refl, refl)
flag_bits noctty = (refl, refl, refl, refl)
flag_bits trunc = (refl, refl, refl, refl)
flag_bits append = (refl, refl, refl, refl)
flag_bits nonblock = (refl, refl, refl, refl)
flag_bits ndelay = (refl, refl, refl, refl)
flag_bits dsync = (refl, refl, refl, refl)
flag_bits synchronous = (refl, refl, refl, refl)
flag_bits rsync = (refl, refl, refl, refl)
flag_bits directory = (refl, refl, refl, refl)
flag_bits nofollow = (refl, refl, refl, refl)
flag_bits cloexec = (refl, refl, refl, refl)
flag_bits async = (refl, refl, refl, refl)
flag_bits direct = (refl, refl, refl, refl)
flag_bits largefile = (refl, refl, refl, refl)
flag_bits noatime = (refl, refl, refl, refl)
flag_bits path = (refl, refl, refl, refl)
flag_bits tmpfile = (refl, refl, refl, refl)
flag_bits search = (refl, refl, refl, refl)
flag_bits execute = (refl, refl, refl, refl)

flag_kinds :
    (f : OpenFlag)
    → ((is_tmpfile f && is_directory f) ≡ is_tmpfile f)
      × ((is_create f || is_tmpfile f) ≡ takes_mode f)
unfolding is_create is_directory is_tmpfile takes_mode
flag_kinds rdonly = (refl, refl)
flag_kinds wronly = (refl, refl)
flag_kinds rdwr = (refl, refl)
flag_kinds create = (refl, refl)
flag_kinds excl = (refl, refl)
flag_kinds noctty = (refl, refl)
flag_kinds trunc = (refl, refl)
flag_kinds append = (refl, refl)
flag_kinds nonblock = (refl, refl)
flag_kinds ndelay = (refl, refl)
flag_kinds dsync = (refl, refl)
flag_kinds synchronous = (refl, refl)
flag_kinds rsync = (refl, refl)
flag_kinds directory = (refl, refl)
flag_kinds nofollow = (refl, refl)
flag_kinds cloexec = (refl, refl)
flag_kinds async = (refl, refl)
flag_kinds direct = (refl, refl)
flag_kinds largefile = (refl, refl)
flag_kinds noatime = (refl, refl)
flag_kinds path = (refl, refl)
flag_kinds tmpfile = (refl, refl)
flag_kinds search = (refl, refl)
flag_kinds execute = (refl, refl)

some_kinds :
    (fs : List OpenFlag)
    → ((some_flag is_tmpfile fs && some_flag is_directory fs) ≡ some_flag is_tmpfile fs)
      × ((some_flag is_create fs || some_flag is_tmpfile fs) ≡ some_flag takes_mode fs)
unfolding some_flag
some_kinds [] = (refl, refl)
some_kinds (f ∷ fs) =
    let (same, mode) = flag_kinds f in
    let (directories, modes) = some_kinds fs in
    (ground (arith, same, directories), ground (arith, mode, modes))

bit_at :
    (fs : List OpenFlag)
    → ((bit_and (combine flag_value fs) o_creat == 0) ≡ not (some_flag is_create fs))
      × ((bit_and (combine flag_value fs) o_cloexec == 0) ≡ not (some_flag is_cloexec fs))
bit_at fs = (
  combine-masked flag_value is_create 6 (λ f. (flag_bits f).0) fs,
  combine-masked flag_value is_cloexec 19 (λ f. (flag_bits f).2) fs,
)

temporary :
    (fs : List OpenFlag)
    → (bit_and (combine flag_value fs) o_tmpfile == o_tmpfile) ≡ some_flag is_tmpfile fs
temporary fs = ground (
  arith,
  bit_and-both (combine flag_value fs) 22 14,
  combine-bit flag_value is_tmpfile 22 (λ f. (flag_bits f).3) fs,
  combine-bit flag_value is_directory 14 (λ f. (flag_bits f).1) fs,
  some_kinds fs,
)

module _ {K : Type 0} (svc : ℕ → List ℕ → K → ℕ × K) where
  wants_mode-combine :
      (fs : List OpenFlag) → wants_mode svc (combine flag_value fs) ≡ some_flag takes_mode fs
  wants_mode-combine fs = ground (arith, temporary fs, bit_at fs, some_kinds fs)

  -- How open ends where the kernel has answered a and is in the state k: an error is -1, with its
  -- number in errno; a descriptor is the result, marked by fcntl (25) with F_SETFD (2) and
  -- FD_CLOEXEC (1) where the program asks for close-on-exec.
  abbrev pub ending : Bool → ℕ → K → Machine K → ℕ × Machine K
  ending closes a k p =
      if leb (2 ^ 64 - 4096) a
      then (2 ^ 32 - 1, record p { kernel = k; errno = 2 ^ 64 - a })
      else (a % 2 ^ 32, record p { kernel = if closes then (svc 25 (a ∷ 2 ∷ 1 ∷ []) k).1 else k })

  -- The answer of the kernel to openat (56) with a list of flags and O_LARGEFILE.
  abbrev pub asked : ℕ → List OpenFlag → ℕ → ℕ → Machine K → ℕ × K
  asked dirfd fs filename mode p =
      svc 56
        (sign_extend dirfd
          ∷ filename
          ∷ sign_extend (combine flag_value (largefile ∷ fs))
          ∷ (if some_flag takes_mode fs then mode else 0)
          ∷ 0
          ∷ 0
          ∷ [])
        p.kernel

  -- Opening a file with a list of flags.
  abbrev pub opens : ℕ → List OpenFlag → ℕ → ℕ → Machine K → ℕ × Machine K
  opens dirfd fs filename mode p =
      let (a, k) = asked dirfd fs filename mode p in ending (some_flag is_cloexec fs) a k p

  creat-eq-openat :
      (filename mode : ℕ) (p : Machine K)
      → creat svc filename mode p
        ≡ openat svc at_fdcwd filename (combine flag_value (create ∷ wronly ∷ trunc ∷ [])) mode p
  unfolding creat openat combine flag_value
  creat-eq-openat filename mode p = refl

  ending-error :
      (closes : Bool) (a : ℕ) (k : K) (p : Machine K)
      → IsError a
      → ending closes a k p ≡ (2 ^ 32 - 1, record p { kernel = k; errno = 2 ^ 64 - a })
  ending-error closes a k p bad =
      let e : leb (2 ^ 64 - 4096) a ≡ true = ground (arith, bad) in rw e refl

  ending-value :
      (closes : Bool) (a : ℕ) (k : K) (p : Machine K)
      → a < 2 ^ 63
      → ending closes a k p
        ≡ (a % 2 ^ 32, record p { kernel = if closes then (svc 25 (a ∷ 2 ∷ 1 ∷ []) k).1 else k })
  ending-value closes a k p good =
      let e : leb (2 ^ 64 - 4096) a ≡ false = ground (arith, good) in rw e refl

  opened-asked :
      (fs : List OpenFlag) (dirfd filename mode : ℕ) (p : Machine K)
      → opened svc filename mode dirfd (combine flag_value fs) p ≡ asked dirfd fs filename mode p
  unfolding combine flag_value
  opened-asked fs dirfd filename mode p =
      ap₂
        (λ (w : ℕ) (b : Bool).
          svc 56
            (sign_extend dirfd ∷ filename ∷ sign_extend w ∷ (if b then mode else 0) ∷ 0 ∷ 0 ∷ [])
            p.kernel)
        (bit_or_comm (combine flag_value fs) o_largefile) (wants_mode-combine fs)

  module _
      (answers : (n : ℕ) (args : List ℕ) (k : K)
        → ((svc n args k).0 < 2 ^ 63) ⊎ IsError (svc n args k).0) where
    opened-ending :
        (fs : List OpenFlag) (dirfd filename mode : ℕ) (p : Machine K)
        → let o = opened svc filename mode dirfd (combine flag_value fs) p in
          openat svc dirfd filename (combine flag_value fs) mode p
          ≡ ending (some_flag is_cloexec fs) o.0 o.1 p
    opened-ending fs dirfd filename mode p =
        let w = combine flag_value fs in
        let o = opened svc filename mode dirfd w p in
        let closes = some_flag is_cloexec fs in
        let marked : Bool → (ℕ × Machine K) = λ b. (
          o.0 % 2 ^ 32,
          record p { kernel = if b then (svc 25 (o.0 ∷ 2 ∷ 1 ∷ []) o.1).1 else o.1 },
        ) in
        elim (openat_outcomes svc filename mode dirfd w p (answers _ _ _)) [
          | inl (bad, e) ↦ e ∙ sym (ending-error closes o.0 o.1 p bad)
          | inr (inl (good, wanted, e)) ↦
              let yes' : closes ≡ true = ground (arith, wanted, bit_at fs) in
              e ∙ ap marked (sym yes') ∙ sym (ending-value closes o.0 o.1 p good)
          | inr (inr (good, without, e)) ↦
              let no' : closes ≡ false = ground (arith, without, bit_at fs) in
              e ∙ ap marked (sym no') ∙ sym (ending-value closes o.0 o.1 p good)
        ]

    openat-opens :
        (fs : List OpenFlag) (dirfd filename mode : ℕ) (p : Machine K)
        → openat svc dirfd filename (combine flag_value fs) mode p ≡ opens dirfd fs filename mode p
    openat-opens fs dirfd filename mode p =
        opened-ending fs dirfd filename mode p
        ∙ ap (λ o. ending (some_flag is_cloexec fs) o.0 o.1 p)
            (opened-asked fs dirfd filename mode p)

    -- Where the kernel answers every call with a number below 2 ^ 63 or an error: openat, and open with -100, the
    -- current directory, in place of the directory, called with any list of flags combined with `|`, make the
    -- system call openat with these flags and O_LARGEFILE, and with the mode exactly where O_CREAT or
    -- O_TMPFILE is in the list, else 0. An error of the kernel is -1 with its number in errno; a
    -- descriptor is the result, and the kernel is asked to set FD_CLOEXEC on it exactly where
    -- O_CLOEXEC is in the list. creat does what open does with O_CREAT, O_WRONLY and O_TRUNC.
    pub open_flags :
        (fs : List OpenFlag) (dirfd filename mode : ℕ) (p : Machine K)
        → let w = combine flag_value fs in
          (openat svc dirfd filename w mode p ≡ opens dirfd fs filename mode p)
          × (open_file svc filename w mode p ≡ opens (2 ^ 32 - 100) fs filename mode p)
          × (creat svc filename mode p
              ≡ opens (2 ^ 32 - 100) (create ∷ wronly ∷ trunc ∷ []) filename mode p)
    open_flags fs dirfd filename mode p =
        let cs = create ∷ wronly ∷ trunc ∷ [] in
        (
          openat-opens fs dirfd filename mode p,
          (creat-eq-open svc filename mode (combine flag_value fs) p).1
              ∙ openat-opens fs at_fdcwd filename mode p,
          creat-eq-openat filename mode p ∙ openat-opens cs at_fdcwd filename mode p,
        )
