-- ===== src/Unistd/Sleeping.antt =====
-- sleep and usleep: the time they ask for, and the seconds that sleep returns.
use mytilus.Base.{
  ℕ, ◌+◌, ◌*◌, ◌/◌, ◌%◌, ◌^◌, ◌<◌, ◌≡◌, ◌≢◌, ◌⊎◌, inl, inr, ◌∙◌, Bool, not, ◌==◌, if◌then◌else◌,
  List, arith, refl, ap, Bool-cases,
}
use mytilus.Sys.{Machine, as_c_int}
use mytilus.Time.{nanosleep}
use mytilus.Time.Words.{IsWordMemory}
use mytilus.Unistd.{sleep, usleep}

module _ {K : Type 0} (svc : ℕ → List ℕ → K → ℕ × K) (peek : ℕ → K → ℕ) (poke : ℕ → ℕ → K → K)
    (memory : IsWordMemory peek poke) (tv : ℕ) where
  -- The state that holds a struct timespec at tv.
  abbrev filled : ℕ → ℕ → K → K
  filled sec nsec k = poke (tv + 8) nsec (poke tv sec k)

  filled_sec : (sec nsec : ℕ) (k : K) → sec < 2 ^ 64 → peek tv (filled sec nsec k) ≡ sec
  filled_sec sec nsec k l =
      memory.apart tv (tv + 8) nsec (poke tv sec k) (inl (omega arith)) ∙ memory.written tv sec k l

  filled_nsec : (sec nsec : ℕ) (k : K) → nsec < 2 ^ 64 → peek (tv + 8) (filled sec nsec k) ≡ nsec
  filled_nsec sec nsec k l = memory.written (tv + 8) nsec (poke tv sec k) l

  -- usleep is nanosleep on a struct timespec that holds as much time as was asked for, with less than
  -- a second in the nanoseconds.
  usleep_request :
      (useconds : ℕ) (p : Machine K)
      → useconds < 2 ^ 32
      → (k : K) × (usleep svc peek poke tv useconds p
          ≡ nanosleep svc tv tv (record p { kernel = k }))
        × (peek tv k * 1_000_000_000 + peek (tv + 8) k ≡ useconds * 1_000)
        × (peek (tv + 8) k < 1_000_000_000)
  unfolding usleep
  usleep_request useconds p small =
      let sec = useconds / 1_000_000 in
      let nsec = useconds % 1_000_000 * 1_000 in
      let s = filled_sec sec nsec p.kernel (omega arith) in
      let n = filled_nsec sec nsec p.kernel (omega arith) in
      (filled sec nsec p.kernel, refl, omega (arith, s, n), omega (arith, n))

  -- sleep calls nanosleep on a struct timespec of the seconds asked for. It returns 0 where nanosleep
  -- does, and otherwise the seconds that the kernel left there, as a c_uint.
  sleep_left :
      (seconds : ℕ) (p : Machine K)
      → seconds < 2 ^ 32
      → (k : K) × (peek tv k ≡ seconds)
        × (peek (tv + 8) k ≡ 0)
        × let (r, q) = nanosleep svc tv tv (record p { kernel = k }) in
          ((r ≡ 0) × (sleep svc peek poke tv seconds p ≡ (0, q)))
          ⊎ ((r ≢ 0) × (sleep svc peek poke tv seconds p ≡ (peek tv q.kernel % 2 ^ 32, q)))
  unfolding sleep
  sleep_left seconds p small =
      let k = filled seconds 0 p.kernel in
      let (r, q) = nanosleep svc tv tv (record p { kernel = k }) in
      let branches : Bool → (ℕ × Machine K) =
        λ b. (if not b then as_c_int (peek tv q.kernel) else 0, q) in
      (
        k,
        filled_sec seconds 0 p.kernel (omega arith),
        filled_nsec seconds 0 p.kernel (omega arith),
        elim (Bool-cases (r == 0)) [
          | inl e ↦ inl (ground (arith, e), ap branches e)
          | inr e ↦ inr ((λ z. ground (arith, e, z)), ap branches e)
        ],
      )

  -- usleep calls nanosleep on a struct timespec that holds as much time as was asked for, with less
  -- than a second in the nanoseconds, and returns what that returns. sleep calls it on the seconds
  -- asked for and returns 0 where nanosleep does, and otherwise the seconds that are left in the
  -- struct, as a c_uint. Both pass it for the time left, too. The arguments are c_uint.
  pub sleep_requests :
      (useconds seconds : ℕ) (p : Machine K)
      → useconds < 2 ^ 32
      → seconds < 2 ^ 32
      → ((k : K) × (usleep svc peek poke tv useconds p
            ≡ nanosleep svc tv tv (record p { kernel = k }))
          × (peek tv k * 1_000_000_000 + peek (tv + 8) k ≡ useconds * 1_000)
          × (peek (tv + 8) k < 1_000_000_000))
        × ((k : K) × (peek tv k ≡ seconds)
            × (peek (tv + 8) k ≡ 0)
            × let (r, q) = nanosleep svc tv tv (record p { kernel = k }) in
              ((r ≡ 0) × (sleep svc peek poke tv seconds p ≡ (0, q)))
              ⊎ ((r ≢ 0) × (sleep svc peek poke tv seconds p ≡ (peek tv q.kernel % 2 ^ 32, q))))
  sleep_requests useconds seconds p u s = (usleep_request useconds p u, sleep_left seconds p s)
