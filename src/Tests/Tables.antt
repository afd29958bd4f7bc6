-- ===== src/Tests/Tables.antt =====
-- The theorems on characters, error messages and signal sets at single values.
use std.Path.{transport}
use mathlib.Core.Path.{PathP}
use mytilus.Base.{
  List, [], ◌∷◌, ◌^◌, ◌≡◌, inr, not, ◌||◌, ◌&&◌, ◌==◌, leb, if◌then◌else◌, as_int, arith,
}
use mytilus.Ctype.Locale.{
  isalpha_l, isdigit_l, isalnum_l, isxdigit_l, isupper_l, islower_l, isgraph_l, isprint_l,
  ispunct_l, iscntrl_l, isspace_l, isblank_l, classes_with_locale,
}
use mytilus.Ctype.Classes.{within, is_letter, is_digit}
use mytilus.Errno.{unk, strerror_str}
use mytilus.Errno.Texts.{assignments}
use mytilus.Errno.Table.{text_of, strerror_str-eq-text_of}
use mytilus.Sigset.Subsets.{
  SetWord, set_path, members, union, intersection, insert, remove, words_are_subsets,
}
use mytilus.Sigset.Subsets.Calls.{Call, add, ask, delete, join, meet, spec, call, run}
use mytilus.Sigset.Subsets.Calls.Replay.{seen_trace, run_refines}

classes_with_locale_example :
    (isalpha_l 0x67 0 ≡ as_int (is_letter 0x67))
    × (isdigit_l 0x67 0 ≡ as_int (is_digit 0x67))
    × (isalnum_l 0x67 0 ≡ as_int (is_letter 0x67 || is_digit 0x67))
    × (isxdigit_l 0x67 0 ≡ as_int (is_digit 0x67 || within b'A' b'F' 0x67 || within b'a' b'f' 0x67))
    × (isupper_l 0x67 0 ≡ as_int (within b'A' b'Z' 0x67))
    × (islower_l 0x67 0 ≡ as_int (within b'a' b'z' 0x67))
    × (isgraph_l 0x67 0 ≡ as_int (within 0x21 0x7e 0x67))
    × (isprint_l 0x67 0 ≡ as_int (within 0x20 0x7e 0x67))
    × (ispunct_l 0x67 0 ≡ as_int (within 0x21 0x7e 0x67 && not (is_letter 0x67 || is_digit 0x67)))
    × (iscntrl_l 0x67 0 ≡ as_int (within 0 0x1f 0x67 || 0x67 == 0x7f))
    × (isspace_l 0x67 0 ≡ as_int (0x67 == 0x20 || within 0x09 0x0d 0x67))
    × (isblank_l 0x67 0 ≡ as_int (0x67 == 0x20 || 0x67 == 0x09))
classes_with_locale_example = classes_with_locale 0x67 0 (omega arith)

strerror_str-eq-text_of_example :
    strerror_str 4_294_967_295
    ≡ (if leb (2 ^ 31) 4_294_967_295 then unk else text_of assignments 4_294_967_295)
strerror_str-eq-text_of_example = strerror_str-eq-text_of 4_294_967_295 (omega arith)

abbrev few : SetWord
few = (5, omega arith)

words_are_subsets_example :
    ((w : SetWord) → transport set_path w ≡ members w)
    × PathP (λ i. set_path i → set_path i → set_path i) union (λ f g s. f s || g s)
    × PathP (λ i. set_path i → set_path i → set_path i) intersection (λ f g s. f s && g s)
    × PathP (λ i. set_path i → set_path i) (λ w. insert 0 w 64) (λ f s. s.0 == 64 || f s)
    × PathP (λ i. set_path i → set_path i) (λ w. remove 0 w 64) (λ f s. not (s.0 == 64) && f s)
words_are_subsets_example = words_are_subsets 0 64 ((omega arith, omega arith), inr (omega arith))

-- Two calls that succeed, one that is refused, and three questions.
abbrev calls : List Call
calls =
    add (64, omega arith)
    ∷ add (33, omega arith)
    ∷ ask (64, omega arith)
    ∷ delete (1, omega arith)
    ∷ join few
    ∷ ask (1, omega arith)
    ∷ meet few
    ∷ ask (64, omega arith)
    ∷ []

run_refines_example : run spec calls 0 (members few) ≡ seen_trace (run call calls 0 few)
run_refines_example = run_refines calls 0 few
