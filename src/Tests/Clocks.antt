-- ===== src/Tests/Clocks.antt =====
-- The theorems on sleeping, with a memory of words and a clock that says 7 s
-- and 9000 ns.
use mytilus.Base.{ℕ, ◌+◌, ◌*◌, ◌%◌, ◌^◌, ◌<◌, ◌≡◌, ◌≢◌, ◌⊎◌, ◌==◌, if◌then◌else◌, List, arith}
use mytilus.Sys.{Machine}
use mytilus.Time.{nanosleep}
use mytilus.Time.Words.{IsWordMemory}
use mytilus.Unistd.{sleep, usleep}
use mytilus.Unistd.Sleeping.{sleep_requests}

abbrev WordMemory : Type 0
WordMemory = ℕ → ℕ

abbrev peek : ℕ → WordMemory → ℕ
peek a k = k a % 2 ^ 64

abbrev poke : ℕ → ℕ → WordMemory → WordMemory
poke a v k b = if b == a then v else k b

words_apart : IsWordMemory peek poke
words_apart = record {
  written = λ a v k l. ground (arith, l);
  word = λ a k. omega arith;
  apart = λ a b v k h. ground (arith, h);
}

-- Every call puts the time into the words at 100 and 108.
abbrev clock : ℕ → List ℕ → WordMemory → ℕ × WordMemory
clock n args k = (0, poke 108 9_000 (poke 100 7 k))

abbrev at_rest : Machine WordMemory
at_rest = record { kernel = λ a. 0; errno = 0 }

sleep_requests_example :
    ((k : WordMemory) × (usleep clock peek poke 200 2_500_000 at_rest
        ≡ nanosleep clock 200 200 (record at_rest { kernel = k }))
      × (peek 200 k * 1_000_000_000 + peek (200 + 8) k ≡ 2_500_000 * 1_000)
      × (peek (200 + 8) k < 1_000_000_000))
    × ((k : WordMemory) × (peek 200 k ≡ 3)
        × (peek (200 + 8) k ≡ 0)
        × let (r, q) = nanosleep clock 200 200 (record at_rest { kernel = k }) in
          ((r ≡ 0) × (sleep clock peek poke 200 3 at_rest ≡ (0, q)))
          ⊎ ((r ≢ 0) × (sleep clock peek poke 200 3 at_rest ≡ (peek 200 q.kernel % 2 ^ 32, q))))
sleep_requests_example =
    sleep_requests clock peek poke words_apart 200 2_500_000 3 at_rest (omega arith) (omega arith)
