-- ===== src/Str/Strerror.antt =====
-- crates/mytilus-string/src/str_fns.rs: strerror_r.
use mytilus.Base.{
  ℕ, zero, suc, ◌+◌, ◌-◌, ◌≤◌, ◌<◌, ◌≡◌, inl, inr, List, [], ◌∷◌, length, ltb, leb, if◌then◌else◌,
  arith, refl, sym, subst, ◌∙◌, take, take_whole, ◌++◌, Bool-cases,
}
use mytilus.Memory.{Mem, Run, ok, fault, ◌>>=◌, store, update, IsMapped, Holds}
use mytilus.Errno.{strerror_str}
use mytilus.Str.Copy.Laws.{IsFramed, IsMapped-update, mapped_head}

abbrev pub erange : ℕ
erange = 34

-- `while i < n { *buf.add(i) = bytes[i]; i += 1; }`, `bytes` being what is left of the message
-- and `left` n - i; an index past the message panics.
copy_message : Mem → ℕ → List ℕ → ℕ → ℕ → Run Mem
copy_message m buf bytes zero i = ok m
copy_message m buf [] (suc left) i = fault
copy_message m buf (b ∷ bytes) (suc left) i = do
  m' ← store m (buf + i) b
  copy_message m' buf bytes left (i + 1)

-- The result and the memory after the call.
pub strerror_r : Mem → ℕ → ℕ → ℕ → Run (ℕ × Mem)
unfolding copy_message
strerror_r m err buf buflen =
    let bytes = strerror_str err in
    let l = length bytes in
    let cut : Run (ℕ × Mem) = do
      m' ← copy_message m buf bytes (buflen - 1) 0
      m'' ← store m' (buf + (buflen - 1)) 0
      ok (erange, m'')
    in let whole : Run (ℕ × Mem) = do
      m' ← copy_message m buf bytes l 0
      m'' ← store m' (buf + l) 0
      ok (0, m'')
      in if leb buflen l then if ltb 0 buflen then cut else ok (erange, m) else whole

-- The loop and the terminator behind it write `bytes` and a 0.
copy_message-Holds :
    (k i : ℕ) (m : Mem) (buf : ℕ) (bytes : List ℕ)
    → k ≤ length bytes
    → IsMapped m (buf + i) (suc k)
    → (m' : Mem) × ((copy_message m buf bytes k i >>= λ n. store n (buf + (i + k)) 0) ≡ ok m')
      × Holds m' (buf + i) (take k bytes ++ 0 ∷ [])
      × IsFramed m m' (buf + i) (suc k)
unfolding copy_message
copy_message-Holds zero i m buf bytes l w =
    let (c, at) = mapped_head m (buf + i) 1 w (omega arith) in
    (update m (buf + i) 0, ground arith, (ground arith, tt), λ q p. ground arith)
copy_message-Holds (suc k) i m buf [] l w = absurd (omega arith)
copy_message-Holds (suc k) i m buf (b ∷ bytes) l w =
    let (c, at) = mapped_head m (buf + i) (suc (suc k)) w (omega arith) in
    let e : buf + i + 1 ≡ buf + (i + 1) = omega arith in
    let (m', runs, holds, frame) =
      copy_message-Holds k (i + 1) (update m (buf + i) b) buf bytes (omega arith)
        (rw e at (IsMapped-update m (buf + i) b (suc k) w)) in
    (
      m',
      ground (arith, runs),
      (ground (arith, frame (buf + i)), rw (← e) at holds),
      λ q p. ground (arith, frame q),
    )

-- The same from the start of the buffer.
message_written :
    (m : Mem) (buf k n : ℕ) (bytes : List ℕ)
    → k ≤ length bytes
    → k < n
    → IsMapped m buf n
    → (m' : Mem) × ((copy_message m buf bytes k 0 >>= λ x. store x (buf + k) 0) ≡ ok m')
      × Holds m' buf (take k bytes ++ 0 ∷ [])
      × IsFramed m m' buf n
message_written m buf k n bytes l lt w =
    let e : buf + 0 ≡ buf = omega arith in
    let (m', runs, holds, frame) =
      copy_message-Holds k 0 m buf bytes l (λ i p. rw e (w i (omega arith))) in
    (m', ground (arith, runs), rw e at holds, λ q p. frame q (omega arith))

-- strerror_r copies the whole message with a terminator and returns 0 where it fits the buffer;
-- otherwise it copies as much as fits, terminates it and returns ERANGE, and with a buffer of
-- size 0 it writes nothing. No byte outside the buffer is written.
pub strerror_r-Holds :
    (m : Mem) (err buf buflen : ℕ)
    → IsMapped m buf buflen
    → (m' : Mem) × (code : ℕ) × (strerror_r m err buf buflen ≡ ok (code, m'))
      × (code ≡ (if ltb (length (strerror_str err)) buflen then 0 else erange))
      × (0 < buflen → Holds m' buf (take (buflen - 1) (strerror_str err) ++ 0 ∷ []))
      × IsFramed m m' buf buflen
unfolding strerror_r
strerror_r-Holds m err buf buflen w =
    let bytes = strerror_str err in
    elim (Bool-cases (leb buflen (length bytes))) [
      | inl long ↦ elim (Bool-cases (ltb 0 buflen)) [
        | inl room ↦
            let (m', runs, holds, frame) =
              message_written m buf (buflen - 1) buflen bytes (ground arith) (ground arith) w in
            (m', erange, ground (arith, runs), ground arith, λ p. holds, frame)
        | inr none_left ↦
            (m, erange, ground arith, ground arith, λ p. absurd (ground arith), λ q p. refl)
      ]
      | inr short ↦
          let (m', runs, holds, frame) =
            message_written m buf (length bytes) buflen bytes (omega arith) (ground arith) w in
          let whole = take_whole (length bytes) bytes (omega arith) in
          let cut = take_whole (buflen - 1) bytes (ground arith) in
          (
            m',
            0,
            ground (arith, runs),
            ground arith,
            λ p. subst (λ x. Holds m' buf (x ++ 0 ∷ [])) (whole ∙ sym cut) holds,
            frame,
          )
    ]
