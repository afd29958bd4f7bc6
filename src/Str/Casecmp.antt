-- ===== src/Str/Casecmp.antt =====
-- crates/mytilus-string/src/str_search.rs: strcasecmp and strncasecmp. The `_l` functions call them
-- and ignore the locale; `__strcasecmp_l` and `__strncasecmp_l` are the functions `internal_..` here.
use mytilus.Base.{
  ℕ, zero, suc, ◌+◌, ◌-◌, ◌%◌, ◌<◌, ◌≡◌, not, ◌&&◌, ◌||◌, ◌==◌, if◌then◌else◌, List, [], ◌∷◌, map,
  length, take, ℤ, pos, sub_ℕ, arith, refl, ap, ap₂, ◌∙◌, leb,
}
use mytilus.Memory.{Mem, Run, ok, out_of_fuel, ◌>>=◌, load, IsCStr}
use mytilus.Ctype.{tolower}
use mytilus.Ctype.Folding.{tolower-eq}
use mytilus.Str.Compare.{lex}
use mytilus.Str.Search.Sets.{IsBytes}

-- `tolower(b as c_int) as u8`
pub fold : ℕ → ℕ
fold b = tolower b % 256

pub strcasecmp : ℕ → Mem → ℕ → ℕ → Run ℤ
strcasecmp zero m l r = out_of_fuel
strcasecmp (suc f) m l r = do
  a ← load m l
  b ← load m r
  let more = strcasecmp f m (l + 1) (r + 1)
  let difference : Run ℤ = ok (sub_ℕ (fold a) (fold b))
  if a == 0 || b == 0
      then difference
      else if not (a == b) && not (fold a == fold b)
      then difference
      else more

-- `n` is the number of rounds that are left.
pub strncasecmp_loop : Mem → ℕ → ℕ → ℕ → Run ℤ
strncasecmp_loop m l r zero = do a ← load m l; b ← load m r; ok (sub_ℕ (fold a) (fold b))
strncasecmp_loop m l r (suc n) = do
  a ← load m l
  b ← load m r
  let more = strncasecmp_loop m (l + 1) (r + 1) n
  let go_on = not (a == 0) && not (b == 0) && (a == b || fold a == fold b)
  if go_on then more else ok (sub_ℕ (fold a) (fold b))

pub strncasecmp : Mem → ℕ → ℕ → ℕ → Run ℤ
strncasecmp m l r n = if n == 0 then ok (pos 0) else strncasecmp_loop m l r (n - 1)

pub internal_strcasecmp_l : ℕ → Mem → ℕ → ℕ → ℕ → Run ℤ
internal_strcasecmp_l f m l r loc = strcasecmp f m l r

pub strcasecmp_l : ℕ → Mem → ℕ → ℕ → ℕ → Run ℤ
strcasecmp_l f m l r loc = internal_strcasecmp_l f m l r loc

pub internal_strncasecmp_l : Mem → ℕ → ℕ → ℕ → ℕ → Run ℤ
internal_strncasecmp_l m l r n loc = strncasecmp m l r n

pub strncasecmp_l : Mem → ℕ → ℕ → ℕ → ℕ → Run ℤ
strncasecmp_l m l r n loc = internal_strncasecmp_l m l r n loc

fold_zero : fold 0 ≡ 0
unfolding fold
fold_zero = ground (arith, tolower-eq 0)

-- On two C strings strcasecmp ends, with any fuel above the length of the left one, and
-- returns the order of the strings with every byte folded.
pub strcasecmp-eq-lex :
    (f : ℕ) (m : Mem) (l r : ℕ) (xs ys : List ℕ)
    → length xs < f
    → IsCStr m l xs
    → IsCStr m r ys
    → strcasecmp f m l r ≡ ok (lex (map fold xs) (map fold ys))
unfolding strcasecmp lex
strcasecmp-eq-lex zero m l r xs ys e p q = absurd (omega arith)
strcasecmp-eq-lex (suc f) m l r [] [] e p q = ground (arith, fold_zero)
strcasecmp-eq-lex (suc f) m l r [] (b ∷ ys) e p q = ground (arith, fold_zero)
strcasecmp-eq-lex (suc f) m l r (a ∷ xs) [] e p q = ground (arith, fold_zero)
strcasecmp-eq-lex (suc f) m l r (a ∷ xs) (b ∷ ys) e p q =
    ground (arith, strcasecmp-eq-lex f m (l + 1) (r + 1) xs ys (omega arith) p.2 q.2, ap fold)

strncasecmp_loop-eq-lex :
    (m : Mem) (l r n : ℕ) (xs ys : List ℕ)
    → IsCStr m l xs
    → IsCStr m r ys
    → strncasecmp_loop m l r n ≡ ok (lex (take (suc n) (map fold xs)) (take (suc n) (map fold ys)))
unfolding strncasecmp_loop lex
strncasecmp_loop-eq-lex m l r zero [] [] p q = ground (arith, fold_zero)
strncasecmp_loop-eq-lex m l r zero [] (b ∷ ys) p q = ground (arith, fold_zero)
strncasecmp_loop-eq-lex m l r zero (a ∷ xs) [] p q = ground (arith, fold_zero)
strncasecmp_loop-eq-lex m l r zero (a ∷ xs) (b ∷ ys) p q = ground (arith, ap fold)
strncasecmp_loop-eq-lex m l r (suc n) [] [] p q = ground (arith, fold_zero)
strncasecmp_loop-eq-lex m l r (suc n) [] (b ∷ ys) p q = ground (arith, fold_zero)
strncasecmp_loop-eq-lex m l r (suc n) (a ∷ xs) [] p q = ground (arith, fold_zero)
strncasecmp_loop-eq-lex m l r (suc n) (a ∷ xs) (b ∷ ys) p q =
    ground (arith, strncasecmp_loop-eq-lex m (l + 1) (r + 1) n xs ys p.2 q.2, ap fold)

-- On two C strings strncasecmp returns the order of their first n bytes, each folded.
pub strncasecmp-eq-lex :
    (m : Mem) (l r n : ℕ) (xs ys : List ℕ)
    → IsCStr m l xs
    → IsCStr m r ys
    → strncasecmp m l r n ≡ ok (lex (take n (map fold xs)) (take n (map fold ys)))
unfolding strncasecmp
strncasecmp-eq-lex m l r zero xs ys p q = unfold lex in refl
strncasecmp-eq-lex m l r (suc n) xs ys p q =
    ground (arith, strncasecmp_loop-eq-lex m l r n xs ys p q)

-- An ASCII letter in lower case; every other byte as it is.
abbrev pub lowered : ℕ → ℕ
lowered b = if leb 65 b && leb b 90 then b + 32 else b

fold-lowered : (b : ℕ) → b < 256 → fold b ≡ lowered b
unfolding fold
fold-lowered b l = ground (arith, tolower-eq b)

map-fold : (bs : List ℕ) → IsBytes bs → map fold bs ≡ map lowered bs
map-fold [] h = refl
map-fold (b ∷ bs) h = ap₂ (λ (c : ℕ) cs. c ∷ cs) (fold-lowered b h.0) (map-fold bs h.1)

-- On two C strings of bytes below 256, strcasecmp_l, with any fuel above the length of the left one,
-- and strncasecmp_l end, and, whatever the locale is, return the order of the strings, or of their
-- first n bytes, with 32 added to every byte from 65 to 90, the ASCII capital letters.
pub casecmp_with_locale :
    (f : ℕ) (m : Mem) (l r n loc : ℕ) (xs ys : List ℕ)
    → length xs < f
    → IsCStr m l xs
    → IsCStr m r ys
    → IsBytes xs
    → IsBytes ys
    → (strcasecmp_l f m l r loc ≡ ok (lex (map lowered xs) (map lowered ys)))
      × (strncasecmp_l m l r n loc ≡ ok (lex (take n (map lowered xs)) (take n (map lowered ys))))
unfolding strcasecmp_l strncasecmp_l internal_strcasecmp_l internal_strncasecmp_l
casecmp_with_locale f m l r n loc xs ys enough p q hx hy =
    let ex = map-fold xs hx in
    let ey = map-fold ys hy in
    (
      strcasecmp-eq-lex f m l r xs ys enough p q ∙ ap₂ (λ us vs. ok (lex us vs)) ex ey,
      strncasecmp-eq-lex m l r n xs ys p q ∙ ap₂ (λ us vs. ok (lex (take n us) (take n vs))) ex ey,
    )
