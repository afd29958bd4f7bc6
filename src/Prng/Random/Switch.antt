-- ===== src/Prng/Random/Switch.antt =====
-- setstate switches to another buffer, and back to the one that it left.
use mytilus.Base.{ℕ, ◌+◌, ◌-◌, ◌/◌, ◌^◌, ◌≡◌, ◌≢◌, some, bit_and, arith, refl, sym, subst}
use mytilus.Memory.{ok, update}
use mytilus.Prng.Random.{Random, header, lock, unlock, savestate, loadstate, setstate}
use mytilus.Prng.Random.Header.{header_fields}
use mytilus.Prng.Random.State.{base_of, IsReady, x_ptr-eq}

module _ (init : ℕ) where
  pub savestate-eq :
      (s : Random) (w : ℕ)
      → s.x ≢ some 0
      → s.mem (base_of init s.x) ≡ some w
      → savestate init s
        ≡ ok (
          base_of init s.x,
          record s {
            x = some (base_of init s.x + 1);
            mem = update s.mem (base_of init s.x) (header s.n s.i s.j);
          },
        )
  unfolding savestate
  savestate-eq s w above at =
      let b = base_of init s.x in
      let back : b + 1 - 1 ≡ b = omega arith in ground (arith, x_ptr-eq init s above, back)

  -- loadstate takes over the buffer and what its header says.
  abbrev pub loaded : Random → ℕ → ℕ → Random
  loaded s state h = record s {
    x = some (state + 1);
    n = h / 2 ^ 16;
    i = bit_and (h / 2 ^ 8) 0xff;
    j = bit_and h 0xff;
  }

  pub loadstate-eq :
      (s : Random) (state h : ℕ) → s.mem state ≡ some h → loadstate state s ≡ ok (loaded s state h)
  unfolding loadstate
  loadstate-eq s state h at = ground (arith, at)

  pub setstate-eq :
      (s : Random) (state w h : ℕ)
      → s.lock ≡ 0
      → s.x ≢ some 0
      → s.mem (base_of init s.x) ≡ some w
      → state ≢ base_of init s.x
      → s.mem state ≡ some h
      → setstate init state s
        ≡ ok (
          base_of init s.x,
          loaded
              (record s { lock = 0; mem = update s.mem (base_of init s.x) (header s.n s.i s.j) })
              state
              h,
        )
  unfolding setstate lock unlock
  setstate-eq s state w h free above at apart there =
      let b = base_of init s.x in
      let taken = record s { lock = 1 } in
      let saved = savestate-eq taken w above at in
      let mem = update s.mem b (header s.n s.i s.j) in
      let kept : mem state ≡ some h = ground arith in
      let read = loadstate-eq (record taken { x = some (b + 1); mem = mem }) state h kept in
      ground (arith, saved, read)

  -- The same with the start of the active buffer by another name.
  abbrev Switches : Random → ℕ → ℕ → ℕ → Type 0
  Switches s state h p =
      setstate init state s
      ≡ ok (p, loaded (record s { lock = 0; mem = update s.mem p (header s.n s.i s.j) }) state h)

  setstate-at :
      (s : Random) (state w h p : ℕ)
      → base_of init s.x ≡ p
      → s.lock ≡ 0
      → s.x ≢ some 0
      → s.mem p ≡ some w
      → state ≢ p
      → s.mem state ≡ some h
      → Switches s state h p
  setstate-at s state w h p e free above at apart there =
      subst (λ k. s.mem k ≡ some w → state ≢ k → Switches s state h k) e
        (λ at' apart'. setstate-eq s state w h free above at' apart' there) at apart

  -- Switching from a ready state to another buffer and back with the pointer that setstate
  -- returned restores the table, its size and both indices, and changes no word but the two
  -- headers.
  pub setstate-setstate :
      (s : Random) (state h : ℕ)
      → IsReady init s
      → state ≢ base_of init s.x
      → s.mem state ≡ some h
      → (s1 s2 : Random) × (setstate init state s ≡ ok (base_of init s.x, s1))
        × (setstate init (base_of init s.x) s1 ≡ ok (state, s2))
        × (s2.x ≡ some (base_of init s.x + 1))
        × (s2.n ≡ s.n)
        × (s2.i ≡ s.i)
        × (s2.j ≡ s.j)
        × (s2.lock ≡ 0)
        × ((q : ℕ) → q ≢ state → q ≢ base_of init s.x → s2.mem q ≡ s.mem q)
  setstate-setstate s state h (free, v) apart there =
      let b = base_of init s.x in
      let (w, at0) = v.mapped 0 (omega arith) in
      let start : b + 0 ≡ b = omega arith in
      let at : s.mem b ≡ some w = rw start at at0 in
      let H = header s.n s.i s.j in
      let s1 = loaded (record s { lock = 0; mem = update s.mem b H }) state h in
      let mem2 = update s1.mem state (header s1.n s1.i s1.j) in
      let there1 : s1.mem state ≡ some h = ground arith in
      let back1 : s1.mem b ≡ some H = ground arith in
      let fields =
        header_fields s.n s.i s.j (omega (arith, v.small)) (omega (arith, v.i_small))
          (omega (arith, v.j_small)) in
      let base1 : state + 1 - 1 ≡ state = omega arith in
      (
        s1,
        loaded (record s1 { lock = 0; mem = mem2 }) b H,
        setstate-eq s state w h free v.above at apart there,
        setstate-at s1 b h H state base1 refl (λ e. ground arith) there1 (λ e. apart (sym e)) back1,
        refl,
        fields.0,
        fields.1,
        fields.2,
        refl,
        λ q p r. ground arith,
      )
