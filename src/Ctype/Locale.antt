-- ===== src/Ctype/Locale.antt =====
-- crates/mytilus-locale/src/ctype.rs: the functions with a locale, which the macro ctype_l! defines in
-- pairs: `__isalpha_l` is `ctype_l_impl isalpha` here. A locale is a pointer, which is not followed.
use mytilus.Base.{ℕ, ◌≡◌, ◌<◌, ◌^◌, not, ◌&&◌, ◌||◌, ◌==◌, as_int}
use mytilus.Ctype.Classes.{within, is_letter, is_digit, letters_and_digits, marks_and_spaces}
use mytilus.Ctype.{
  isalpha, isdigit, isspace, isupper, islower, isalnum, isxdigit, isgraph, isprint, ispunct,
  iscntrl, isblank, tolower, toupper,
}

-- The two functions that the macro makes of $base.
abbrev pub ctype_l_impl : (ℕ → ℕ) → ℕ → ℕ → ℕ
ctype_l_impl base c loc = base c

abbrev pub ctype_l_alias : (ℕ → ℕ → ℕ) → ℕ → ℕ → ℕ
ctype_l_alias impl c loc = impl c loc

abbrev pub isalpha_l : ℕ → ℕ → ℕ
isalpha_l = ctype_l_alias (ctype_l_impl isalpha)

abbrev pub isdigit_l : ℕ → ℕ → ℕ
isdigit_l = ctype_l_alias (ctype_l_impl isdigit)

abbrev pub isspace_l : ℕ → ℕ → ℕ
isspace_l = ctype_l_alias (ctype_l_impl isspace)

abbrev pub isupper_l : ℕ → ℕ → ℕ
isupper_l = ctype_l_alias (ctype_l_impl isupper)

abbrev pub islower_l : ℕ → ℕ → ℕ
islower_l = ctype_l_alias (ctype_l_impl islower)

abbrev pub isalnum_l : ℕ → ℕ → ℕ
isalnum_l = ctype_l_alias (ctype_l_impl isalnum)

abbrev pub isxdigit_l : ℕ → ℕ → ℕ
isxdigit_l = ctype_l_alias (ctype_l_impl isxdigit)

abbrev pub isgraph_l : ℕ → ℕ → ℕ
isgraph_l = ctype_l_alias (ctype_l_impl isgraph)

abbrev pub isprint_l : ℕ → ℕ → ℕ
isprint_l = ctype_l_alias (ctype_l_impl isprint)

abbrev pub ispunct_l : ℕ → ℕ → ℕ
ispunct_l = ctype_l_alias (ctype_l_impl ispunct)

abbrev pub iscntrl_l : ℕ → ℕ → ℕ
iscntrl_l = ctype_l_alias (ctype_l_impl iscntrl)

abbrev pub isblank_l : ℕ → ℕ → ℕ
isblank_l = ctype_l_alias (ctype_l_impl isblank)

abbrev pub tolower_l : ℕ → ℕ → ℕ
tolower_l = ctype_l_alias (ctype_l_impl tolower)

abbrev pub toupper_l : ℕ → ℕ → ℕ
toupper_l = ctype_l_alias (ctype_l_impl toupper)

-- With any locale, on every 32-bit pattern, the classifiers accept exactly the ASCII letters, the
-- digits, the letters and digits, the hexadecimal digits, the upper and the lower case letters, the
-- visible characters, the printable ones, the visible ones that are neither letters nor digits, the
-- control characters, the six kinds of white space, and space and tab: they return 1 on these and
-- 0 on every other pattern.
pub classes_with_locale :
    (c loc : ℕ)
    → c < 2 ^ 32
    → (isalpha_l c loc ≡ as_int (is_letter c))
      × (isdigit_l c loc ≡ as_int (is_digit c))
      × (isalnum_l c loc ≡ as_int (is_letter c || is_digit c))
      × (isxdigit_l c loc ≡ as_int (is_digit c || within b'A' b'F' c || within b'a' b'f' c))
      × (isupper_l c loc ≡ as_int (within b'A' b'Z' c))
      × (islower_l c loc ≡ as_int (within b'a' b'z' c))
      × (isgraph_l c loc ≡ as_int (within 0x21 0x7e c))
      × (isprint_l c loc ≡ as_int (within 0x20 0x7e c))
      × (ispunct_l c loc ≡ as_int (within 0x21 0x7e c && not (is_letter c || is_digit c)))
      × (iscntrl_l c loc ≡ as_int (within 0 0x1f c || c == 0x7f))
      × (isspace_l c loc ≡ as_int (c == 0x20 || within 0x09 0x0d c))
      × (isblank_l c loc ≡ as_int (c == 0x20 || c == 0x09))
classes_with_locale c loc h =
    let (alpha, digit, alnum, xdigit, upper, lower) = letters_and_digits c h in
    let (graph, print, punct, cntrl, space, blank, ascii) = marks_and_spaces c h in
    (alpha, digit, alnum, xdigit, upper, lower, graph, print, punct, cntrl, space, blank)
