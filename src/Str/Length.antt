-- ===== src/Str/Length.antt =====
-- crates/mytilus-string/src/str_fns.rs: strlen and strnlen.
use mytilus.Base.{ℕ, zero, suc, ◌+◌, ◌<◌, ◌≡◌, List, [], ◌∷◌, ◌==◌, if◌then◌else◌, length, arith}
use mytilus.Memory.{Mem, Run, ok, out_of_fuel, ◌>>=◌, load, Holds, IsCStr}

strlen_loop : ℕ → Mem → ℕ → ℕ → Run ℕ
strlen_loop zero m s n = out_of_fuel
strlen_loop (suc f) m s n =
    let more = strlen_loop f m s (n + 1) in do c ← load m (s + n); if c == 0 then ok n else more

unfoldable pub strlen : ℕ → Mem → ℕ → Run ℕ
unfolding strlen_loop
strlen f m s = strlen_loop f m s 0

-- `left` is n - i.
strnlen_loop : Mem → ℕ → ℕ → ℕ → Run ℕ
strnlen_loop m s zero i = ok i
strnlen_loop m s (suc left) i =
    let more = strnlen_loop m s left (i + 1) in do c ← load m (s + i); if c == 0 then ok i else more

unfoldable pub strnlen : Mem → ℕ → ℕ → Run ℕ
unfolding strnlen_loop
strnlen m s n = strnlen_loop m s n 0

-- The bytes in front of the first NUL.
pub nul_index : List ℕ → ℕ
nul_index [] = 0
nul_index (b ∷ bs) = if b == 0 then 0 else suc (nul_index bs)

strlen_loop-eq :
    (f : ℕ) (m : Mem) (s n : ℕ) (bs : List ℕ)
    → length bs < f
    → IsCStr m (s + n) bs
    → strlen_loop f m s n ≡ ok (n + length bs)
unfolding strlen_loop
strlen_loop-eq zero m s n bs l h = absurd (omega arith)
strlen_loop-eq (suc f) m s n [] l h = ground arith
strlen_loop-eq (suc f) m s n (b ∷ bs) l h =
    let e : s + n + 1 ≡ s + (n + 1) = omega arith in
    ground (arith, strlen_loop-eq f m s (n + 1) bs (omega arith) (rw e at h.2))

-- On a C string strlen reads nothing past the terminator and returns the number of bytes in
-- front of it, with any fuel above that number.
pub strlen-eq-length :
    (f : ℕ) (m : Mem) (s : ℕ) (bs : List ℕ)
    → length bs < f
    → IsCStr m s bs
    → strlen f m s ≡ ok (length bs)
unfolding strlen
strlen-eq-length f m s bs l h =
    let e : s ≡ s + 0 = omega arith in
    let e' : 0 + length bs ≡ length bs = omega arith in
    rw e' at (strlen_loop-eq f m s 0 bs l (rw e at h))

strnlen_loop-eq :
    (m : Mem) (s left i : ℕ) (bs : List ℕ)
    → left ≡ length bs
    → Holds m (s + i) bs
    → strnlen_loop m s left i ≡ ok (i + nul_index bs)
unfolding strnlen_loop nul_index
strnlen_loop-eq m s zero i [] l h = ground arith
strnlen_loop-eq m s zero i (b ∷ bs) l h = absurd (omega arith)
strnlen_loop-eq m s (suc left) i [] l h = absurd (omega arith)
strnlen_loop-eq m s (suc left) i (b ∷ bs) l h =
    let e : s + i + 1 ≡ s + (i + 1) = omega arith in
    ground (arith, strnlen_loop-eq m s left (i + 1) bs (omega arith) (rw e at h.1))

-- strnlen over a buffer of n readable bytes stops at the first NUL or at n, and reads nothing
-- past the n bytes.
pub strnlen-eq-nul_index :
    (m : Mem) (s : ℕ) (bs : List ℕ) → Holds m s bs → strnlen m s (length bs) ≡ ok (nul_index bs)
unfolding strnlen
strnlen-eq-nul_index m s bs h =
    let e : s ≡ s + 0 = omega arith in
    let e' : 0 + nul_index bs ≡ nul_index bs = omega arith in
    rw e' at (strnlen_loop-eq m s (length bs) 0 bs (omega arith) (rw e at h))
