-- ===== src/Block/Move.antt =====
-- The memory after memcpy, memmove and memset, address by address.
use native.Mathlib.Decide.{dec_lt}
use mathlib.Core.Path.{fun_ext}
use mytilus.Base.{
  ℕ, zero, suc, ◌+◌, ◌-◌, ◌%◌, ◌≤◌, ◌<◌, ◌≡◌, ◌⊎◌, inl, inr, some, ◌&&◌, ltb, leb, ◌==◌,
  if◌then◌else◌, arith, refl, ap, Bool-cases,
}
use mytilus.Memory.{Mem, ok, update, IsMapped}
use mytilus.Block.{copy_forward, copy_backward, fill_forward, memcpy, memmove, memset}

-- `m` with the bytes `lo .. hi` of the block at `s` copied to the block at `d`, all read from `m`.
abbrev pub copied : Mem → ℕ → ℕ → ℕ → ℕ → Mem
copied m s d lo hi q = if leb (d + lo) q && ltb q (d + hi) then m (s + (q - d)) else m q

-- `m` with the bytes `0 .. hi` of the block at `d` set to `b`.
abbrev pub filled : Mem → ℕ → ℕ → ℕ → Mem
filled m d b hi q = if leb d q && ltb q (d + hi) then some b else m q

module _ (m : Mem) (s d n : ℕ) (readable : IsMapped m s n) (writable : IsMapped m d n) where
  update-copied_up :
      (i b : ℕ) → m (s + i) ≡ some b → update (copied m s d 0 i) (d + i) b ≡ copied m s d 0 (i + 1)
  update-copied_up i b at = fun_ext λ q. elim (Bool-cases (q == d + i)) [
    | inl e ↦ let e' : s + (q - d) ≡ s + i = ground arith in ground (arith, ap m e')
    | inr e ↦ ground arith
  ]

  copy_forward-eq :
      (d ≤ s) ⊎ (s + n ≤ d)
      → (left i : ℕ) → i + left ≡ n
      → copy_forward (copied m s d 0 i) d s left i ≡ ok (copied m s d 0 n)
  unfolding copy_forward
  copy_forward-eq apart zero i e = let e' : i ≡ n = omega arith in rw e'
  copy_forward-eq apart (suc left) i e =
      let (b, at) = readable i (omega arith) in
      let (c, there) = writable i (omega arith) in
      ground (arith, update-copied_up i b at, copy_forward-eq apart left (i + 1) (omega arith))

  update-copied_down :
      (i b : ℕ)
      → i < n
      → m (s + i) ≡ some b
      → update (copied m s d (suc i) n) (d + i) b ≡ copied m s d i n
  update-copied_down i b l at = fun_ext λ q. elim (Bool-cases (q == d + i)) [
    | inl e ↦ let e' : s + (q - d) ≡ s + i = ground arith in ground (arith, ap m e')
    | inr e ↦ ground arith
  ]

  copy_backward-eq :
      s < d → (i : ℕ) → i ≤ n → copy_backward (copied m s d i n) d s i ≡ ok (copied m s d 0 n)
  unfolding copy_backward
  copy_backward-eq apart zero l = refl
  copy_backward-eq apart (suc i) l =
      let (b, at) = readable i (omega arith) in
      let (c, there) = writable i (omega arith) in
      ground
        (arith, update-copied_down i b (omega arith) at, copy_backward-eq apart i (omega arith))

  copied_none : (i : ℕ) → copied m s d i i ≡ m
  copied_none i = fun_ext λ q. ground arith

  -- memcpy between blocks that do not overlap, or whose destination starts first, leaves the bytes
  -- of the source in the destination and no other byte changed.
  pub memcpy-copied : (d ≤ s) ⊎ (s + n ≤ d) → memcpy m d s n ≡ ok (d, copied m s d 0 n)
  unfolding memcpy
  memcpy-copied apart = ground (arith, copied_none 0, copy_forward-eq apart n 0 (omega arith))

  copied_self : s ≡ d → copied m s d 0 n ≡ m
  copied_self e = fun_ext λ q. elim (Bool-cases (leb d q)) [
    | inl l ↦ let e' : s + (q - d) ≡ q = ground arith in ground (arith, ap m e')
    | inr l ↦ ground arith
  ]

  -- memmove returns dest and leaves in the destination the n bytes that the source held before the
  -- call, however the two blocks overlap; no other byte changes and no other byte is accessed.
  pub memmove-copied : memmove m d s n ≡ ok (d, copied m s d 0 n)
  unfolding memmove
  memmove-copied = elim (dec_lt d s) [
    | yes l ↦ ground (arith, copied_none 0, copy_forward-eq (inl (omega arith)) n 0 (omega arith))
    | no l ↦ elim (dec_lt s d) [
      | yes g ↦ ground (arith, copied_none n, copy_backward-eq g n (omega arith))
      | no g ↦ ground (arith, copied_self (omega arith))
    ]
  ]

module _ (m : Mem) (d b n : ℕ) (writable : IsMapped m d n) where
  fill_forward-eq :
      (left i : ℕ) → i + left ≡ n → fill_forward (filled m d b i) d b left i ≡ ok (filled m d b n)
  unfolding fill_forward
  fill_forward-eq zero i e = let e' : i ≡ n = omega arith in rw e'
  fill_forward-eq (suc left) i e =
      let (c, there) = writable i (omega arith) in
      let step : update (filled m d b i) (d + i) b ≡ filled m d b (i + 1) =
        fun_ext λ q. ground arith in
      ground (arith, step, fill_forward-eq left (i + 1) (omega arith))

pub fill_forward-filled :
    (m : Mem) (d b n : ℕ) → IsMapped m d n → fill_forward m d b n 0 ≡ ok (filled m d b n)
fill_forward-filled m d b n h =
    let none_yet : filled m d b 0 ≡ m = fun_ext λ q. ground arith in
    ground (arith, none_yet, fill_forward-eq m d b n h n 0 (omega arith))

-- memset returns dest and sets the n bytes from it on to the low byte of c, and no other.
pub memset-filled :
    (m : Mem) (d c n : ℕ) → IsMapped m d n → memset m d c n ≡ ok (d, filled m d (c % 256) n)
unfolding memset
memset-filled m d c n h = rw (fill_forward-filled m d (c % 256) n h)
