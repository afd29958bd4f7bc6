-- ===== src/Errno/Location.antt =====
-- Where errno stands, crates/mytilus-errno/src/lib.rs: ERRNO_VAL has a place in the storage of every thread, and ret of
-- crates/mytilus-sys/src/syscall.rs writes through the pointer. The storage of a thread is laid out outside of the
-- repository: `tls` gives the address of ERRNO_VAL in the storage of a thread.
use mytilus.Base.{
  ℕ, ◌-◌, ◌%◌, ◌^◌, ◌≤◌, ◌≡◌, ◌≢◌, inl, inr, true, ◌==◌, ◌&&◌, leb, if◌then◌else◌, List, [], ◌∷◌,
  map, arith, refl, ap, ap₂, sym, ◌∙◌, Bool-cases, put, put_same,
}
use mytilus.Sys.{Machine, Call, neg, as_c_int, minus_one, is_err, ret}

-- The state of the kernel, and the c_int at every address.
pub record Process (K : Type 0) : Type 0 where
  pub kernel : K
  pub cells : ℕ → ℕ

module _ (tls : ℕ → ℕ) where
  -- `__errno_location()` in the thread t.
  unfoldable pub errno_location : ℕ → ℕ
  errno_location t = tls t

  -- `___errno_location()`
  unfoldable pub errno_location_alias : ℕ → ℕ
  errno_location_alias t = errno_location t

  module _ {K : Type 0} where
    -- ret in the thread t, as it is written: `*__errno_location() = -r as c_int`.
    unfoldable pub ret_in : ℕ → ℕ → Process K → ℕ × Process K
    ret_in t r p =
        if is_err r
        then (minus_one, record p { cells = put p.cells (errno_location t) (as_c_int (neg r)) })
        else (r, p)

    -- What the thread t sees of the process, and what it makes of it by a call.
    abbrev pub view : ℕ → Process K → Machine K
    view t p = record { kernel = p.kernel; errno = p.cells (errno_location t) }

    abbrev pub in_thread : {A : Type 0} → ℕ → Call K A → Process K → A × Process K
    in_thread t call p =
        let (a, q) = call (view t p) in
        (a, record { kernel = q.kernel; cells = put p.cells (errno_location t) q.errno })

    -- ret through the pointer is ret on what the thread sees.
    pub ret_in-eq-ret : (t r : ℕ) (p : Process K) → ret_in t r p ≡ in_thread t (ret r) p
    unfolding ret_in ret
    ret_in-eq-ret t r p = elim (Bool-cases (is_err r)) [
      | inl bad ↦ rw bad refl
      | inr good ↦
          rw good
            (ap (λ c. (r, record p { cells = c })) (sym (put_same p.cells (errno_location t))))
    ]

    module _ (svc : ℕ → List ℕ → K → ℕ × K) where
      -- A thread makes a system call: the number, the registers, and ret.
      abbrev pub act : ℕ × ℕ × List ℕ → Process K → ℕ × Process K
      act (t, n, args) p = let (r, k) = svc n args p.kernel in ret_in t r (record p { kernel = k })

      -- The calls of all threads in the order in which they happen: their results, and the process
      -- at the end.
      pub interleave : List (ℕ × ℕ × List ℕ) → Process K → List ℕ × Process K
      interleave [] p = ([], p)
      interleave (c ∷ cs) p =
          let (r, p1) = act c p in let (rs, p2) = interleave cs p1 in (r ∷ rs, p2)

      -- The answers of the kernel alone, each with the thread that gets it.
      pub answers : List (ℕ × ℕ × List ℕ) → K → List (ℕ × ℕ)
      answers [] k = []
      answers ((t, n, args) ∷ cs) k = (t, (svc n args k).0) ∷ answers cs (svc n args k).1

-- The C result of an answer.
abbrev pub outcome : ℕ → ℕ
outcome r = if leb (2 ^ 64 - 4096) r then minus_one else r

-- The number of the last error among the answers to the thread t, or e where it got none.
pub last_error : ℕ → List (ℕ × ℕ) → ℕ → ℕ
last_error t [] e = e
last_error t ((u, r) ∷ rs) e =
    last_error t rs (if u == t && leb (2 ^ 64 - 4096) r then 2 ^ 64 - r else e)

module _ (tls : ℕ → ℕ) (distinct : (t u : ℕ) → tls t ≡ tls u → t ≡ u) {K : Type 0}
    (svc : ℕ → List ℕ → K → ℕ × K) where
  written :
      (t u r : ℕ) (p : Process K)
      → 2 ^ 64 - 4096 ≤ r
      → put p.cells (errno_location tls u) (as_c_int (neg r)) (errno_location tls t)
        ≡ (if u == t && true then 2 ^ 64 - r else p.cells (errno_location tls t))
  unfolding errno_location
  written t u r p bad =
      let number : neg r % 2 ^ 32 ≡ 2 ^ 64 - r = ground arith in
      elim (Bool-cases (u == t)) [
        | inl same ↦
            let e : tls u ≡ tls t = ap tls (ground (arith, same)) in ground (arith, same, e, number)
        | inr other ↦
            let e : tls u ≢ tls t = λ h. ground (arith, other, distinct u t h) in
            ground (arith, other, e)
      ]

  -- One call, seen by the thread t.
  ret_in-cell :
      (t u r : ℕ) (p : Process K)
      → ((ret_in tls u r p).0 ≡ outcome r)
        × ((ret_in tls u r p).1.kernel ≡ p.kernel)
        × ((ret_in tls u r p).1.cells (errno_location tls t) ≡ (
            if u == t && leb (2 ^ 64 - 4096) r then 2 ^ 64 - r else p.cells (errno_location tls t)))
  unfolding ret_in is_err errno_location
  ret_in-cell t u r p = elim (Bool-cases (leb (2 ^ 64 - 4096) r)) [
    | inl bad ↦ rw bad (refl, refl, written t u r p (ground (arith, bad)))
    | inr good ↦ rw good (refl, refl, ground arith)
  ]

  -- Where ERRNO_VAL has another address in every thread: whatever system calls any threads make, in any
  -- order, every call returns -1 exactly for an error of the kernel and else the answer, and errno
  -- of a thread is at the end the number of the last error that the kernel gave to this thread, or
  -- as before where it gave none.
  pub errno_per_thread :
      (t : ℕ) (cs : List (ℕ × ℕ × List ℕ)) (p : Process K)
      → let end = interleave tls svc cs p in
        let got = answers tls svc cs p.kernel in
        (end.0 ≡ map (λ a. outcome a.1) got)
        × (end.1.cells (errno_location tls t) ≡ last_error t got (p.cells (errno_location tls t)))
  unfolding interleave answers last_error
  errno_per_thread t [] p = (refl, refl)
  errno_per_thread t ((u, n, args) ∷ cs) p =
      let r = (svc n args p.kernel).0 in
      let q : Process K = record p { kernel = (svc n args p.kernel).1 } in
      let (result, kernel, cell) = ret_in-cell t u r q in
      let (results, error) = errno_per_thread t cs (ret_in tls u r q).1 in
      (
        ap₂ (λ (x : ℕ) xs. x ∷ xs) result
            (results ∙ ap (λ k. map (λ a. outcome a.1) (answers tls svc cs k)) kernel),
        error ∙ ap₂ (λ k (e : ℕ). last_error t (answers tls svc cs k) e) kernel cell,
      )
