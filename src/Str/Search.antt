-- ===== src/Str/Search.antt =====
-- crates/mytilus-string/src/str_search.rs: the byte set, strstr, strspn, strcspn and strpbrk.
-- A byte set is the list of its four words; a byte is a u8, so that it always has a word.
use mytilus.Base.{
  ℕ, zero, suc, ◌+◌, ◌-◌, ◌*◌, ◌/◌, ◌%◌, ◌^◌, Bool, true, false, not, ◌&&◌, ◌||◌, ◌==◌,
  if◌then◌else◌, Option, none, some, List, [], ◌∷◌, get_or, set, bit_and, bit_or,
}
use mytilus.Memory.{Mem, Run, ok, out_of_fuel, ◌>>=◌, load}
use mytilus.Str.Find.{strchrnul}
pub mod Sets
pub mod Spans
pub mod Occurrence

unfoldable pub byteset_set : List ℕ → ℕ → List ℕ
byteset_set bs b = set bs (b / 64) (bit_or (get_or bs (b / 64) 0) (2 ^ (b % 64)))

unfoldable pub byteset_test : List ℕ → ℕ → Bool
byteset_test bs b = not (bit_and (get_or bs (b / 64) 0 / 2 ^ (b % 64)) 1 == 0)

-- `[0; 4]`
abbrev pub no_bytes : List ℕ
no_bytes = 0 ∷ 0 ∷ 0 ∷ 0 ∷ []

-- `while *cp != 0 { byteset_set(&mut byteset, *cp); cp = cp.add(1); }`
pub collect_loop : ℕ → Mem → List ℕ → ℕ → Run (List ℕ)
collect_loop zero m set cp = out_of_fuel
collect_loop (suc f) m set cp = do
  b ← load m cp
  let more = collect_loop f m (byteset_set set b) (cp + 1)
  if b == 0 then ok set else more

-- `while *p == *c { p = p.add(1); }`, `b` being `*c`; it returns p.
pub same_loop : ℕ → Mem → ℕ → ℕ → Run ℕ
same_loop zero m b p = out_of_fuel
same_loop (suc f) m b p = do
  a ← load m p
  let more = same_loop f m b (p + 1)
  if a == b then more else ok p

-- `while *sp != 0 && byteset_test(&byteset, *sp) == wanted { sp = sp.add(1); }`
pub span_loop : ℕ → Mem → List ℕ → Bool → ℕ → Run ℕ
span_loop zero m set wanted sp = out_of_fuel
span_loop (suc f) m set wanted sp = do
  b ← load m sp
  let more = span_loop f m set wanted (sp + 1)
  let inside = if wanted then byteset_test set b else not (byteset_test set b)
  if not (b == 0) && inside then more else ok sp

-- The three loops of a call get the same fuel.
pub strspn : ℕ → Mem → ℕ → ℕ → Run ℕ
strspn f m s c = do
  b ← load m c
  let single = same_loop f m b s >>= λ p. ok (p - s)
  let several : Run ℕ = do
    set ← collect_loop f m no_bytes c
    sp ← span_loop f m set true s
    ok (sp - s)
  let longer = load m (c + 1) >>= λ d. if d == 0 then single else several
  if b == 0 then ok 0 else longer

-- The second byte of c is read only where the first one is not 0.
pub strcspn : ℕ → Mem → ℕ → ℕ → Run ℕ
strcspn f m s c = do
  b ← load m c
  let single = strchrnul f m s b >>= λ p. ok (p - s)
  let several : Run ℕ = do
    set ← collect_loop f m no_bytes c
    sp ← span_loop f m set false s
    ok (sp - s)
  let longer = load m (c + 1) >>= λ d. if d == 0 then single else several
  if b == 0 then single else longer

pub strpbrk : ℕ → Mem → ℕ → ℕ → Run (Option ℕ)
strpbrk f m s b = do
  n ← strcspn f m s b
  c ← load m (s + n)
  ok (if not (c == 0) then some (s + n) else none)

-- `while *p != 0 && *q != 0 && *p == *q`; it returns `*q` behind the loop.
pub match_loop : ℕ → Mem → ℕ → ℕ → Run ℕ
match_loop zero m p q = out_of_fuel
match_loop (suc f) m p q = do
  a ← load m p
  b ← load m q
  let more = match_loop f m (p + 1) (q + 1)
  if not (a == 0) && not (b == 0) && a == b then more else ok b

-- `while *h != 0`, with fuel g for itself and f for the inner loop.
pub strstr_loop : ℕ → ℕ → Mem → ℕ → ℕ → Run (Option ℕ)
strstr_loop f zero m h n = out_of_fuel
strstr_loop f (suc g) m h n = do
  a ← load m h
  let more = strstr_loop f g m (h + 1) n
  let try_here = match_loop f m h n >>= λ b. if b == 0 then ok (some h) else more
  if a == 0 then ok none else try_here

pub strstr : ℕ → Mem → ℕ → ℕ → Run (Option ℕ)
strstr f m h n = do
  b ← load m n
  let search = strstr_loop f f m h n
  if b == 0 then ok (some h) else search
