-- ===== src/Time/Words.antt =====
-- What the code relies on when it writes a local variable and reads it back: a word is a
-- 64-bit number, the one that was written is read, and words 8 bytes apart do not share bytes.
use mytilus.Base.{ℕ, ◌+◌, ◌^◌, ◌<◌, ◌≤◌, ◌≡◌, ◌⊎◌}

pub record IsWordMemory {K : Type 0} (peek : ℕ → K → ℕ) (poke : ℕ → ℕ → K → K) : Type 0 where
  pub written : (a v : ℕ) (k : K) → v < 2 ^ 64 → peek a (poke a v k) ≡ v
  pub word : (a : ℕ) (k : K) → peek a k < 2 ^ 64
  pub apart : (a b v : ℕ) (k : K) → (a + 8 ≤ b) ⊎ (b + 8 ≤ a) → peek a (poke b v k) ≡ peek a k
