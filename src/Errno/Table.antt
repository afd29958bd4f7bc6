-- ===== src/Errno/Table.antt =====
-- The message of every error number is the one that the initialiser gives it.
use Prim.Native.String.{String}
use mytilus.Base.{
  ℕ, ◌^◌, ◌<◌, ◌≤◌, ◌≡◌, Bool, true, false, ◌==◌, ◌&&◌, ltb, leb, if◌then◌else◌, List, [], ◌∷◌,
  get_or, arith, refl, sym, ◌∙◌, all_below, all_below_sound, Bool-cases, inl, inr,
}
use mytilus.Errno.{codes, unk, number_of, messages, strerror_str}
use mytilus.Errno.Codes.{errno_codes}
use mytilus.Errno.Texts.{assignments}

-- The text of the first assignment to a number, and the catch-all where there is none.
unfoldable pub text_of : List (String × String) → ℕ → List ℕ
text_of [] err = unk
text_of ((name, text) ∷ others) err =
    if number_of errno_codes name == err then codes text else text_of others err

same : List ℕ → List ℕ → Bool
same [] [] = true
same [] (b ∷ bs) = false
same (a ∷ rest) [] = false
same (a ∷ rest) (b ∷ bs) = a == b && same rest bs

same-eq : (xs ys : List ℕ) → same xs ys ≡ true → xs ≡ ys
unfolding same
same-eq [] [] h = refl
same-eq [] (y ∷ ys) h = absurd (ground arith)
same-eq (x ∷ xs) [] h = absurd (ground arith)
same-eq (x ∷ xs) (y ∷ ys) h = ground (arith, same-eq xs ys)

small_table : all_below 132 (λ e. same (get_or messages e []) (text_of assignments e)) ≡ true
unfolding all_below same messages text_of number_of errno_codes assignments
small_table = refl

codes_below : List (String × String) → Bool
codes_below [] = true
codes_below ((name, text) ∷ others) = ltb (number_of errno_codes name) 132 && codes_below others

codes_below_table : codes_below assignments ≡ true
unfolding codes_below number_of errno_codes assignments
codes_below_table = refl

text_of-unk :
    (table : List (String × String)) (err : ℕ)
    → codes_below table ≡ true
    → 132 ≤ err
    → text_of table err ≡ unk
unfolding codes_below text_of
text_of-unk [] err h l = refl
text_of-unk ((name, text) ∷ others) err h l = ground (arith, text_of-unk others err)

first_unk : get_or messages 0 [] ≡ unk
unfolding messages
first_unk = refl

-- strerror_str, for every 32-bit pattern, stays inside the table and returns the text that the
-- initialiser assigns to the error number, or "No error information" where it assigns none,
-- negative numbers included.
pub strerror_str-eq-text_of :
    (err : ℕ)
    → err < 2 ^ 32
    → strerror_str err ≡ (if leb (2 ^ 31) err then unk else text_of assignments err)
unfolding strerror_str
strerror_str-eq-text_of err h = elim (Bool-cases (leb (2 ^ 31) err)) [
  | inl negative ↦ rw negative first_unk
  | inr other ↦ elim (Bool-cases (leb 132 err)) [
    | inl large ↦
        rw (other, large)
          (first_unk ∙ sym (text_of-unk assignments err codes_below_table (ground arith)))
    | inr small ↦
        rw (other, small) (same-eq _ _ (all_below_sound 132 _ err small_table (ground arith)))
  ]
]
