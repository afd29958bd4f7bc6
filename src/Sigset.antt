-- ===== src/Sigset.antt =====
-- Signal sets, crates/mytilus-signal/src/sigset.rs. SST_SIZE is 1 on the target, so that a set is its word `__bits[0]`, a number below
-- 2 ^ 64; no function reads or writes another word. A c_int is its 32-bit pattern, so -1 is 2 ^ 32 - 1, and `sig - 1` wraps around.
-- The functions that set errno return the set with the result and the new errno.
use mytilus.Sys.{einval}
use mytilus.Base.{
  ℕ, ◌+◌, ◌-◌, ◌*◌, ◌/◌, ◌%◌, ◌^◌, Bool, ◌||◌, ◌==◌, leb, ltb, if◌then◌else◌, bit_and, bit_or,
  as_int,
}
pub mod Members
pub mod Words
pub mod Subsets

abbrev pub nsig : ℕ
nsig = 65

-- The 32-bit pattern of -1.
abbrev pub minus_one : ℕ
minus_one = 2 ^ 32 - 1

-- `sig - 1` on 32 bits.
unfoldable pub signal_index : ℕ → ℕ
signal_index sig = (sig + (2 ^ 32 - 1)) % 2 ^ 32

-- `1 << (s & 63)`; the index of the word, s / 64, is 0 for each signal that the functions let through.
unfoldable pub bit_index : ℕ → ℕ
bit_index sig = 2 ^ (signal_index sig % 64)

-- True for a signal to refuse.
unfoldable pub validate_sig : ℕ → Bool
validate_sig sig = leb (nsig - 1) (signal_index sig) || ltb ((sig + (2 ^ 32 - 32)) % 2 ^ 32) 3

-- The complement of a 64-bit word.
abbrev pub complement : ℕ → ℕ
complement w = 2 ^ 64 - 1 - w

-- What a function leaves behind: its result, the set and errno.
pub record Answer : Type 0 where
  pub result : ℕ
  pub bits : ℕ
  pub errno : ℕ

-- The result and the set, of the functions that cannot fail.
unfoldable pub sigemptyset : ℕ → ℕ × ℕ
sigemptyset set = (0, 0)

unfoldable pub sigfillset : ℕ → ℕ × ℕ
sigfillset set = (0, 0xfffffffc7fffffff)

unfoldable pub sigaddset : ℕ → ℕ → ℕ → Answer
sigaddset errno set sig =
    if validate_sig sig
    then record { result = minus_one; bits = set; errno = einval }
    else record { result = 0; bits = bit_or set (bit_index sig); errno = errno }

unfoldable pub sigdelset : ℕ → ℕ → ℕ → Answer
sigdelset errno set sig =
    if validate_sig sig
    then record { result = minus_one; bits = set; errno = einval }
    else record { result = 0; bits = bit_and set (complement (bit_index sig)); errno = errno }

unfoldable pub sigismember : ℕ → ℕ → ℕ
sigismember set sig =
    if leb (nsig - 1) (signal_index sig)
    then 0
    else if bit_and set (bit_index sig) == 0
    then 0
    else 1

unfoldable pub sigorset : ℕ → ℕ → ℕ × ℕ
sigorset left right = (0, bit_or left right)

unfoldable pub sigandset : ℕ → ℕ → ℕ × ℕ
sigandset left right = (0, bit_and left right)

unfoldable pub sigisemptyset : ℕ → ℕ
sigisemptyset set = if set == 0 then 1 else 0
