-- ===== src/Prng/Random/Spin/Keeping.antt =====
-- What random, srandom, initstate and setstate do inside leaves the lock alone.
use mytilus.Base.{
  ℕ, ◌-◌, ◌/◌, ◌%◌, ◌^◌, ◌||◌, bit_and, bit_or, ◌+◌, ◌≡◌, ◌≢◌, inl, inr, Bool, true, false, ◌==◌,
  if◌then◌else◌, Option, none, some, arith, refl, ap, subst, sym, Bool-cases,
}
use mytilus.Memory.{Mem, Run, ok, fault, out_of_fuel, ◌>>=◌, load, store}
use mytilus.Prng.Lcg.{lcg31}
use mytilus.Prng.Random.{
  Random, lock, unlock, x_ptr, savestate, loadstate, header, seed_words, srandom_locked,
  random_locked,
}

-- The results of a run have a property.
pub Keeps {ℓ} : {A : Type ℓ} → (A → Type 0) → Run A → Type 0
Keeps P (ok a) = P a
Keeps P fault = Unit {0}
Keeps P out_of_fuel = Unit {0}

pub Keeps-value {ℓ} : {A : Type ℓ} (P : A → Type 0) (a : A) → P a → Keeps P (ok a)
unfolding Keeps
Keeps-value P a h = h

Keeps-bind {ℓ κ} :
    {A : Type ℓ} {B : Type κ} (P : B → Type 0) (r : Run A) (f : A → Run B)
    → ((a : A) → Keeps P (f a))
    → Keeps P (r >>= f)
unfolding Keeps
Keeps-bind P (ok a) f h = h a
Keeps-bind P fault f h = tt
Keeps-bind P out_of_fuel f h = tt

-- The same where the second run relies on what the first one keeps.
pub Keeps-then {ℓ κ} :
    {A : Type ℓ} {B : Type κ} (Q : A → Type 0) (P : B → Type 0) (r : Run A) (f : A → Run B)
    → Keeps Q r
    → ((a : A) → Q a → Keeps P (f a))
    → Keeps P (r >>= f)
unfolding Keeps
Keeps-then Q P (ok a) f h k = k a h
Keeps-then Q P fault f h k = tt
Keeps-then Q P out_of_fuel f h k = tt

Keeps-if {ℓ} :
    {A : Type ℓ} (P : A → Type 0) (b : Bool) (r r' : Run A)
    → Keeps P r
    → Keeps P r'
    → Keeps P (if b then r else r')
Keeps-if P true r r' h h' = h
Keeps-if P false r r' h h' = h'

pub Keeps-ok {ℓ} : {A : Type ℓ} (P : A → Type 0) (r : Run A) (a : A) → Keeps P r → r ≡ ok a → P a
unfolding Keeps
Keeps-ok P r a h e = subst (Keeps P) e h

module _ (init : ℕ) where
  x_ptr_fields :
      (k n i j : ℕ) (x : Option ℕ) (mem : Mem)
      → (x_ptr init (record { lock = k; n = n; i = i; j = j; x = x; mem = mem })).1.lock ≡ k
  unfolding x_ptr
  x_ptr_fields k n i j none mem = refl
  x_ptr_fields k n i j (some p) mem = refl

  x_ptr-lock : (s : Random) → (x_ptr init s).1.lock ≡ s.lock
  x_ptr-lock s = x_ptr_fields s.lock s.n s.i s.j s.x s.mem

  pub random_locked-lock : (s : Random) → Keeps (λ a. a.1.lock ≡ s.lock) (random_locked init s)
  unfolding random_locked
  random_locked-lock s =
      let P : ℕ × Random → Type 0 = λ a. a.1.lock ≡ s.lock in
      let (x, s') = x_ptr init s in
      let kept = x_ptr-lock s in
      Keeps-if P (s'.n == 0) _ _
        (Keeps-bind P (load s'.mem x) _ (λ w.
          Keeps-bind P (store s'.mem x (lcg31 w)) _
            (λ mem. Keeps-value P (lcg31 w, record s' { mem = mem }) kept)))
        (Keeps-bind P (load s'.mem (x + s'.i)) _ (λ a. Keeps-bind P (load s'.mem (x + s'.j)) _ (λ b.
          let v = (a + b) % 2 ^ 32 in
          Keeps-bind P (store s'.mem (x + s'.i) v) _ (λ mem.
            Keeps-value P
              (
                v / 2,
                record s' {
                  i = if s'.i + 1 == s'.n then 0 else s'.i + 1;
                  j = if s'.j + 1 == s'.n then 0 else s'.j + 1;
                  mem = mem;
                },
              )
              kept))))

  pub srandom_locked-lock :
      (seed : ℕ) (s : Random) → Keeps (λ s'. s'.lock ≡ s.lock) (srandom_locked init seed s)
  unfolding srandom_locked
  srandom_locked-lock seed s =
      let P : Random → Type 0 = λ a. a.lock ≡ s.lock in
      let (x, s') = x_ptr init s in
      let kept = x_ptr-lock s in
      Keeps-if P (s'.n == 0) _ _
        (Keeps-bind P (store s'.mem x seed) _ (λ mem. Keeps-value P (record s' { mem = mem }) kept))
        (Keeps-bind P (seed_words s'.mem x seed s'.n 0) _ (λ mem. Keeps-bind P (load mem x) _ (λ v.
          Keeps-bind P (store mem x (bit_or v 1)) _ (λ mem'.
            Keeps-value P
              (record s' { i = if s'.n == 31 || s'.n == 7 then 3 else 1; j = 0; mem = mem' })
              kept))))

  pub savestate-lock : (s : Random) → Keeps (λ a. a.1.lock ≡ s.lock) (savestate init s)
  unfolding savestate
  savestate-lock s =
      let P : ℕ × Random → Type 0 = λ a. a.1.lock ≡ s.lock in
      let (x, s') = x_ptr init s in
      Keeps-bind P (store s'.mem (x - 1) (header s'.n s'.i s'.j)) _
        (λ mem. Keeps-value P (x - 1, record s' { mem = mem }) (x_ptr-lock s))

pub loadstate-lock : (state : ℕ) (s : Random) → Keeps (λ s'. s'.lock ≡ s.lock) (loadstate state s)
unfolding loadstate
loadstate-lock state s =
    let P : Random → Type 0 = λ a. a.lock ≡ s.lock in
    Keeps-bind P (load s.mem state) _ (λ h.
      Keeps-value P
        (record s {
          x = some (state + 1);
          n = h / 2 ^ 16;
          i = bit_and (h / 2 ^ 8) 0xff;
          j = bit_and h 0xff;
        })
        refl)

pub lock-free : (s : Random) → Keeps (λ s'. (s.lock ≡ 0) × (s'.lock ≡ 1)) (lock s)
unfolding lock Keeps
lock-free s = elim (Bool-cases (s.lock == 0)) [
  | inl e ↦
      let P : Bool → Type 0 = λ b.
        Keeps (λ s'. (s.lock ≡ 0) × (s'.lock ≡ 1))
          (if b then ok (record s { lock = 1 }) else out_of_fuel) in
      subst P (sym e) (ground (arith, e), refl)
  | inr e ↦
      let P : Bool → Type 0 = λ b.
        Keeps (λ s'. (s.lock ≡ 0) × (s'.lock ≡ 1))
          (if b then ok (record s { lock = 1 }) else out_of_fuel) in
      subst P (sym e) tt
]

pub unlock-frees : (s : Random) → (unlock s).lock ≡ 0
unfolding unlock
unlock-frees s = refl

pub lock-takes : (s : Random) → s.lock ≡ 0 → lock s ≡ ok (record s { lock = 1 })
unfolding lock
lock-takes s free =
    let e : (s.lock == 0) ≡ true = ground (arith, free) in
    ap (λ b. if b then ok (record s { lock = 1 }) else out_of_fuel) e

pub lock-spins : (s : Random) → s.lock ≢ 0 → lock s ≡ out_of_fuel
unfolding lock
lock-spins s taken =
    let e : (s.lock == 0) ≡ false = ground (arith, taken) in
    ap (λ b. if b then ok (record s { lock = 1 }) else out_of_fuel) e
