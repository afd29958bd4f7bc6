-- ===== src/Ctype.antt =====
-- crates/mytilus-locale/src/ctype.rs: classification and case folding of characters.
-- An `int c` is its 32-bit pattern, which is what the helper `u` makes of it; a result is 0 or 1,
-- or a pattern. The functions with a locale are those of Locale.
pub mod Classes
pub mod Folding
pub mod Locale
use mytilus.Base.{
  ℕ, ◌+◌, ◌-◌, ◌%◌, ◌^◌, Bool, not, ◌&&◌, ◌||◌, ◌==◌, ltb, if◌then◌else◌, as_int, bit_and, bit_or,
}

-- `u(c).wrapping_sub(k)` on u32.
abbrev wrapping_sub : ℕ → ℕ → ℕ
wrapping_sub c k = (c + 2 ^ 32 - k) % 2 ^ 32

unfoldable pub isalpha : ℕ → ℕ
isalpha c = as_int (ltb (wrapping_sub (bit_or c 32) b'a') 26)

unfoldable pub isdigit : ℕ → ℕ
isdigit c = as_int (ltb (wrapping_sub c b'0') 10)

unfoldable pub isspace : ℕ → ℕ
isspace c = as_int (c == 0x20 || ltb (wrapping_sub c 0x09) 5)

unfoldable pub isupper : ℕ → ℕ
isupper c = as_int (ltb (wrapping_sub c b'A') 26)

unfoldable pub islower : ℕ → ℕ
islower c = as_int (ltb (wrapping_sub c b'a') 26)

unfoldable pub isalnum : ℕ → ℕ
unfolding isalpha isdigit
isalnum c = as_int (not (isalpha c == 0) || not (isdigit c == 0))

unfoldable pub isxdigit : ℕ → ℕ
unfolding isdigit
isxdigit c = as_int (not (isdigit c == 0) || ltb (wrapping_sub (bit_or c 32) b'a') 6)

unfoldable pub isgraph : ℕ → ℕ
isgraph c = as_int (ltb (wrapping_sub c 0x21) 0x5e)

unfoldable pub isprint : ℕ → ℕ
isprint c = as_int (ltb (wrapping_sub c 0x20) 0x5f)

unfoldable pub ispunct : ℕ → ℕ
unfolding isgraph isalnum
ispunct c = as_int (not (isgraph c == 0) && isalnum c == 0)

unfoldable pub iscntrl : ℕ → ℕ
iscntrl c = as_int (ltb c 0x20 || c == 0x7f)

unfoldable pub isblank : ℕ → ℕ
isblank c = as_int (c == 0x20 || c == 0x09)

-- `!0x7f` is 0xffffff80.
unfoldable pub isascii : ℕ → ℕ
isascii c = as_int (bit_and c 0xffff_ff80 == 0)

unfoldable pub tolower : ℕ → ℕ
unfolding isupper
tolower c = if not (isupper c == 0) then bit_or c 32 else c

unfoldable pub toupper : ℕ → ℕ
unfolding islower
toupper c = if not (islower c == 0) then bit_and c 0x5f else c

unfoldable pub toascii : ℕ → ℕ
toascii c = bit_and c 0x7f
