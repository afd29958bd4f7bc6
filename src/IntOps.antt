-- ===== src/IntOps.antt =====
-- crates/mytilus-stdlib/src/int_ops.rs: the abs and div families.
-- A signed number of w bits is its pattern below 2 ^ w; `half` is 2 ^ (w - 1), and the patterns from
-- there on stand for the negative numbers. A panic is a fault.
use mytilus.Base.{
  ℕ, ◌+◌, ◌-◌, ◌*◌, ◌/◌, ◌%◌, ◌^◌, Bool, not, ◌&&◌, ◌||◌, ◌==◌, ltb, leb, if◌then◌else◌,
}
use mytilus.Memory.{Run, ok, fault}
pub mod Laws

abbrev pub negative : ℕ → ℕ → Bool
negative half a = leb half a

-- `a.wrapping_neg()`: 2 ^ w - a, which for 0 wraps around to 0.
abbrev pub wrapping_neg : ℕ → ℕ → ℕ
wrapping_neg half a = if a == 0 then 0 else half + half - a

-- The distance from 0.
abbrev pub magnitude : ℕ → ℕ → ℕ
magnitude half a = if negative half a then half + half - a else a

-- `if a > 0 { a } else { a.wrapping_neg() }`
abbrev pub absolute : ℕ → ℕ → ℕ
absolute half a = if not (negative half a) && not (a == 0) then a else wrapping_neg half a

unfoldable pub abs : ℕ → ℕ
abs a = absolute (2 ^ 31) a

unfoldable pub labs : ℕ → ℕ
labs a = absolute (2 ^ 63) a

unfoldable pub llabs : ℕ → ℕ
llabs a = absolute (2 ^ 63) a

unfoldable pub imaxabs : ℕ → ℕ
imaxabs a = absolute (2 ^ 63) a

pub record DivT : Type 0 where
  pub quot : ℕ
  pub rem : ℕ

abbrev pub with_sign : ℕ → Bool → ℕ → ℕ
with_sign half minus n = if minus then wrapping_neg half n else n

abbrev pub differ : Bool → Bool → Bool
differ p q = if p then not q else q

-- `num / den` and `num % den` truncate toward zero; they panic for den = 0, and where the quotient
-- is too large, which happens for the smallest number divided by -1 only.
pub divide : ℕ → ℕ → ℕ → Run DivT
divide half num den =
    let q = magnitude half num / magnitude half den in
    let r = magnitude half num % magnitude half den in
    let result : DivT = record {
      quot = with_sign half (differ (negative half num) (negative half den)) q;
      rem = with_sign half (negative half num) r;
    } in
    if den == 0 || num == half && den == half + half - 1 then fault else ok result

unfoldable pub div : ℕ → ℕ → Run DivT
div num den = divide (2 ^ 31) num den

unfoldable pub ldiv : ℕ → ℕ → Run DivT
ldiv num den = divide (2 ^ 63) num den

unfoldable pub lldiv : ℕ → ℕ → Run DivT
lldiv num den = divide (2 ^ 63) num den

unfoldable pub imaxdiv : ℕ → ℕ → Run DivT
imaxdiv num den = divide (2 ^ 63) num den
