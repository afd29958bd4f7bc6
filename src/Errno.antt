-- ===== src/Errno.antt =====
-- crates/mytilus-errno/src/lib.rs: the message table and strerror.
-- A text is the list of its bytes without the terminator. An `int err` is its 32-bit pattern.
pub mod Codes
pub mod Texts
pub mod Table
pub mod Location
use Prim.Native.Char.{code}
use Prim.Native.String.{String}
use text.Mathlib.Text.{◌==◌ as str_eq}
use mytilus.Base.{
  ℕ, ◌^◌, Bool, ◌||◌, ltb, leb, if◌then◌else◌, List, [], ◌∷◌, Option, none, some, length, replicate,
  set, get_or,
}
use Codes.{errno_codes}
use Texts.{assignments}

-- The bytes of an ASCII text.
abbrev pub codes : String → List ℕ
codes String.[] = []
codes (String.◌∷◌ c s) = code c ∷ codes s

abbrev pub unk : List ℕ
unk = codes "No error information"

-- The number of a name, 0 for a name that is not defined.
unfoldable pub number_of : List (String × ℕ) → String → ℕ
number_of [] name = 0
number_of ((other, n) ∷ table) name = if str_eq other name then n else number_of table name

-- The assignments of the initialiser, in its order.
unfoldable pub assign : List (String × String) → List (List ℕ) → List (List ℕ)
assign [] m = m
assign ((name, text) ∷ others) m = assign others (set m (number_of errno_codes name) (codes text))

unfoldable pub messages : List (List ℕ)
unfolding assign number_of errno_codes assignments
messages = assign assignments (replicate 132 unk)

-- A negative `err` is a pattern from 2 ^ 31 on.
unfoldable pub strerror_str : ℕ → List ℕ
strerror_str err =
    let idx = if leb (2 ^ 31) err || leb 132 err then 0 else err in get_or messages idx []

-- The functions that return a pointer to the static text, with and without a locale, which is not followed.
abbrev pub internal_strerror_l : ℕ → ℕ → List ℕ
internal_strerror_l err loc = strerror_str err

abbrev pub strerror_l : ℕ → ℕ → List ℕ
strerror_l err loc = internal_strerror_l err loc

abbrev pub strerror : ℕ → List ℕ
strerror err = internal_strerror_l err 0
