-- ===== src/Prng/Period.antt =====
-- Linear congruential steps of crates/mytilus-prng/src/lib.rs modulo a power of two: after how many of them a state
-- comes back. The step is x ↦ (1 + 4 α) x + (1 + 2 γ), first on all numbers.
use native.Mathlib.Nat.{
  pow-suc, one-le-pow, mod-add-div, mod-lt, mod-eq_of_lt, eq_of_mul-eq-mul_left,
  add-mul-mod_self_left,
}
use mytilus.Base.{
  ℕ, zero, suc, ◌+◌, ◌-◌, ◌*◌, ◌/◌, ◌%◌, ◌^◌, ◌<◌, ◌≤◌, ◌≡◌, ◌↔◌, ◌∙◌, arith, refl, ap, ap₂, sym,
}

-- A step, n times.
unfoldable pub orbit : {A : Type 0} → (A → A) → ℕ → A → A
orbit f zero x = x
orbit f (suc n) x = f (orbit f n x)

orbit-add : {A : Type 0} (f : A → A) (m n : ℕ) (x : A) → orbit f (m + n) x ≡ orbit f m (orbit f n x)
unfolding orbit
orbit-add f zero n x = let e : 0 + n ≡ n = omega arith in rw e refl
orbit-add f (suc m) n x =
    let e : suc m + n ≡ suc (m + n) = omega arith in rw e (ap f (orbit-add f m n x))

orbit-mul : {A : Type 0} (f : A → A) (p m : ℕ) (x : A) → orbit f (p * m) x ≡ orbit (orbit f p) m x
unfolding orbit
orbit-mul f p zero x = let e : p * 0 ≡ 0 = omega arith in rw e refl
orbit-mul f p (suc m) x =
    let e : p * suc m ≡ p + p * m = omega arith in
    rw e (orbit-add f p (p * m) x ∙ ap (orbit f p) (orbit-mul f p m x))

-- Multiplied by an odd multiplier of the form 1 + 4 α, then an odd addend.
abbrev pub affine : ℕ → ℕ → ℕ → ℕ
affine α γ x = (1 + 4 * α) * x + (1 + 2 * γ)

twice :
    (p a g x y z : ℕ)
    → y ≡ x + p * (1 + 2 * g + 4 * (a * x))
    → z ≡ y + p * (1 + 2 * g + 4 * (a * y))
    → z ≡ x + (p + p) * (1 + 2 * (g + a * p * (1 + 2 * g)) + 4 * ((a + 2 * (a * a * p)) * x))
twice p a g x y z first second =
    second ∙ ap (λ t. t + p * (1 + 2 * g + 4 * (a * t))) first ∙ omega arith

-- 2 ^ k steps move every number by an odd multiple of 2 ^ k, in the same form.
doubled :
    (k α γ : ℕ)
    → (α' γ' : ℕ) × ((x : ℕ)
        → orbit (affine α γ) (2 ^ k) x ≡ x + 2 ^ k * (1 + 2 * γ' + 4 * (α' * x)))
unfolding orbit
doubled zero α γ = (α, γ, λ x. omega arith)
doubled (suc k) α γ =
    let (a, g, h) = doubled k α γ in
    let p = 2 ^ k in
    let e : 2 ^ suc k ≡ p + p = omega (arith, pow-suc 2 k) in
    (
      a + 2 * (a * a * p),
      g + a * p * (1 + 2 * g),
      λ x. rw e (
          orbit-add (affine α γ) p p x
          ∙ twice p a g x (orbit (affine α γ) p x) (orbit (affine α γ) p (orbit (affine α γ) p x))
              (h x) (h (orbit (affine α γ) p x))),
    )

further :
    (p a g x m s y : ℕ)
    → y ≡ x + p * (m + 2 * s)
    → y + p * (1 + 2 * g + 4 * (a * y)) ≡ x + p * (suc m + 2 * (s + g + 2 * (a * y)))
further p a g x m s y e = omega (arith, e)

-- m times as many steps move a number by a multiple of 2 ^ k that is odd where m is odd.
jump : (k α γ x m : ℕ) → (s : ℕ) × (orbit (affine α γ) (2 ^ k * m) x ≡ x + 2 ^ k * (m + 2 * s))
unfolding orbit
jump k α γ x zero = let e : 2 ^ k * 0 ≡ 0 = omega arith in (0, rw e (omega arith))
jump k α γ x (suc m) =
    let (a, g, h) = doubled k α γ in
    let (s, before) = jump k α γ x m in
    let y = orbit (affine α γ) (2 ^ k * m) x in
    let e : 2 ^ k * suc m ≡ 2 ^ k + 2 ^ k * m = omega arith in
    (
      s + g + 2 * (a * y),
      rw e
          (orbit-add (affine α γ) (2 ^ k) (2 ^ k * m) x ∙ h y ∙ further (2 ^ k) a g x m s y before),
    )

carried :
    (M a c q y z x : ℕ)
    → 0 < M
    → x ≡ y + M * q
    → z ≡ (a * y + c) % M
    → a * x + c ≡ z + M * ((a * y + c) / M + a * q)
carried M a c q y z x positive e e' =
    let division = mod-add-div (a * y + c) M in ap (λ t. a * t + c) e ∙ omega (arith, division, e')

halves : (p m r s : ℕ) → 0 < p → p * (m + 2 * s) ≡ p * (2 * r) → m ≡ 2 * (m / 2)
halves p m r s positive e = omega (arith, eq_of_mul-eq-mul_left p positive (m + 2 * s) (2 * r) e)

power_split : (k d : ℕ) → 2 ^ (suc k + d) ≡ 2 ^ k * (2 * 2 ^ d)
power_split k zero = let e : suc k + 0 ≡ suc k = omega arith in rw e (omega (arith, pow-suc 2 k))
power_split k (suc d) =
    let e : suc k + suc d ≡ suc (suc k + d) = omega arith in
    rw e (
      omega (
        arith,
        pow-suc 2 (suc k + d),
        ap (λ (t : ℕ). 2 ^ k * (2 * t)) (pow-suc 2 d),
        power_split k d,
      ))

doubling : (k m : ℕ) → m ≡ 2 * (m / 2) → 2 ^ k * m ≡ 2 ^ suc k * (m / 2)
doubling k m even =
    ap (λ (t : ℕ). 2 ^ k * t) even ∙ omega (arith, ap (λ (t : ℕ). t * (m / 2)) (pow-suc 2 k))

residue : (M y q : ℕ) → y < M → (y + M * q) % M ≡ y
residue M y q l = add-mul-mod_self_left y M q ∙ mod-eq_of_lt l

module _ (w α γ : ℕ) (f : ℕ → ℕ) (is_step : (y : ℕ) → y < 2 ^ w → f y ≡ affine α γ y % 2 ^ w) where
  positive : 0 < 2 ^ w
  positive = omega (arith, one-le-pow w 2)

  stays : (n x : ℕ) → x < 2 ^ w → orbit f n x < 2 ^ w
  unfolding orbit
  stays zero x l = l
  stays (suc n) x l =
      omega (arith, is_step (orbit f n x) (stays n x l), mod-lt (affine α γ (orbit f n x)) positive)

  lifted : (n x : ℕ) → x < 2 ^ w → (q : ℕ) × (orbit (affine α γ) n x ≡ orbit f n x + 2 ^ w * q)
  unfolding orbit
  lifted zero x l = (0, omega arith)
  lifted (suc n) x l =
      let (q, e) = lifted n x l in
      let y = orbit f n x in
      (
        affine α γ y / 2 ^ w + (1 + 4 * α) * q,
        carried (2 ^ w) (1 + 4 * α) (1 + 2 * γ) q y (f y) (orbit (affine α γ) n x) positive e
            (is_step y (stays n x l)),
      )

  -- A state that has come back has done so after a multiple of 2 ^ k steps, for every k up to w.
  multiple : (n x k : ℕ) → x < 2 ^ w → orbit f n x ≡ x → k ≤ w → (m : ℕ) × (n ≡ 2 ^ k * m)
  multiple n x zero l back small = (n, omega arith)
  multiple n x (suc k) l back small =
      let (m, e) = multiple n x k l back (omega (arith, small)) in
      let (s, moved) = jump k α γ x m in
      let (q, up) = lifted n x l in
      let r = 2 ^ (w - suc k) in
      let width : 2 ^ w ≡ 2 ^ k * (2 * r) =
        (let e' : suc k + (w - suc k) ≡ w = omega (arith, small) in
          rw e' at (power_split k (w - suc k))) in
      let around : x + 2 ^ k * (m + 2 * s) ≡ x + 2 ^ k * (2 * (r * q)) =
        sym moved
        ∙ sym (ap (λ j. orbit (affine α γ) j x) e)
        ∙ up
        ∙ ap₂ (λ u v. u + v * q) back width
        ∙ omega arith in
      let even =
        halves (2 ^ k) m (r * q) s (omega (arith, one-le-pow k 2)) (omega (arith, around)) in
      (m / 2, e ∙ doubling k m even)

  comes_back : (m x : ℕ) → x < 2 ^ w → orbit f (2 ^ w * m) x ≡ x
  comes_back m x l =
      let (s, moved) = jump w α γ x m in
      let (q, up) = lifted (2 ^ w * m) x l in
      let same : orbit f (2 ^ w * m) x + 2 ^ w * q ≡ x + 2 ^ w * (m + 2 * s) = sym up ∙ moved in
      sym (residue (2 ^ w) (orbit f (2 ^ w * m) x) q (stays (2 ^ w * m) x l))
      ∙ ap (λ t. t % 2 ^ w) same
      ∙ residue (2 ^ w) x (m + 2 * s) l

  -- A state is back after n steps exactly where n is a multiple of 2 ^ w.
  pub period : (n x : ℕ) → x < 2 ^ w → (orbit f n x ≡ x) ↔ ((m : ℕ) × (n ≡ 2 ^ w * m))
  period n x l = (λ back. multiple n x w l back (omega arith), λ h. rw h.1 (comes_back h.0 x l))
