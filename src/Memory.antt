-- ===== src/Memory.antt =====
-- The memory that the C-ABI functions work on, and how a call ends.
-- A pointer is an address; a mapped address holds a byte. A read or a write through an address
-- that is not mapped is a `fault`, which the source leaves undefined. A loop without a bound takes
-- fuel, and `out_of_fuel` says that it ran out.
use mytilus.Base.{
  ℕ, zero, suc, ◌+◌, ◌<◌, ◌≡◌, ◌≢◌, Option, none, some, List, [], ◌∷◌, ◌==◌, if◌then◌else◌, length,
  get_elem?, drop, ◌∙◌, ◌≤◌, arith, refl,
}

abbrev pub Mem : Type 0
Mem = ℕ → Option ℕ

pub data Run {ℓ} (A : Type ℓ) : Type ℓ where
  ok : A → Run A
  fault out_of_fuel : Run A

infixl 5 ◌>>=◌
abbrev pub ◌>>=◌ {ℓ κ} : {A : Type ℓ} {B : Type κ} → Run A → (A → Run B) → Run B
ok a >>= f = f a
fault >>= f = fault
out_of_fuel >>= f = out_of_fuel

abbrev pub update : Mem → ℕ → ℕ → Mem
update m p b q = if p == q then some b else m q

-- `*p`
abbrev pub load : Mem → ℕ → Run ℕ
load m p = elim (m p) [ none ↦ fault | some b ↦ ok b ]

-- `*p = b`
abbrev pub store : Mem → ℕ → ℕ → Run Mem
store m p b = elim (m p) [ none ↦ fault | some _ ↦ ok (update m p b) ]

-- From address `p` on, memory holds the bytes of the list.
abbrev pub Holds : Mem → ℕ → List ℕ → Type 0
Holds m p [] = Unit {0}
Holds m p (b ∷ bs) = (m p ≡ some b) × Holds m (p + 1) bs

-- At `p` stands a C string: the bytes of the list, none of them 0, and a terminating 0.
abbrev pub IsCStr : Mem → ℕ → List ℕ → Type 0
IsCStr m p [] = m p ≡ some 0
IsCStr m p (b ∷ bs) = (m p ≡ some b) × (b ≢ 0) × IsCStr m (p + 1) bs

-- The n bytes from `p` on are mapped.
abbrev pub IsMapped : Mem → ℕ → ℕ → Type 0
IsMapped m p n = (i : ℕ) → i < n → (b : ℕ) × (m (p + i) ≡ some b)

-- A C string maps its bytes and the terminator.
pub IsCStr-IsMapped : (m : Mem) (p : ℕ) (bs : List ℕ) → IsCStr m p bs → IsMapped m p (length bs + 1)
IsCStr-IsMapped m p [] h i l = let e : p ≡ p + i = omega arith in (0, rw (← e) h)
IsCStr-IsMapped m p (b ∷ bs) h zero l = let e : p ≡ p + 0 = omega arith in (b, rw (← e) h.0)
IsCStr-IsMapped m p (b ∷ bs) h (suc i) l =
    let (c, at) = IsCStr-IsMapped m (p + 1) bs h.2 i (omega arith) in
    let e : p + 1 + i ≡ p + suc i = omega arith in (c, rw e at at)

pub IsCStr-nul : (m : Mem) (p : ℕ) (bs : List ℕ) → IsCStr m p bs → m (p + length bs) ≡ some 0
IsCStr-nul m p [] h = let e : p ≡ p + 0 = omega arith in rw (← e) h
IsCStr-nul m p (b ∷ bs) h =
    let e : p + 1 + length bs ≡ p + suc (length bs) = omega arith in
    rw e at (IsCStr-nul m (p + 1) bs h.2)

-- A byte of a C string, and where it stands.
pub IsCStr-elem :
    (m : Mem) (p : ℕ) (bs : List ℕ) (i : ℕ)
    → IsCStr m p bs
    → i < length bs
    → (b : ℕ) × (get_elem? bs i ≡ some b) × (m (p + i) ≡ some b) × (b ≢ 0)
IsCStr-elem m p [] i h l = absurd (omega arith)
IsCStr-elem m p (b ∷ bs) zero h l = let e : p ≡ p + 0 = omega arith in (b, refl, rw (← e) h.0, h.1)
IsCStr-elem m p (b ∷ bs) (suc i) h l =
    let (c, elem, at, ne) = IsCStr-elem m (p + 1) bs i h.2 (omega arith) in
    let e : p + 1 + i ≡ p + suc i = omega arith in (c, elem, rw e at at, ne)

-- The rest of a C string is one.
pub IsCStr-drop :
    (m : Mem) (p n : ℕ) (bs : List ℕ) → n ≤ length bs → IsCStr m p bs → IsCStr m (p + n) (drop n bs)
IsCStr-drop m p zero bs l h = let e : p ≡ p + 0 = omega arith in rw (← e) h
IsCStr-drop m p (suc n) [] l h = absurd (omega arith)
IsCStr-drop m p (suc n) (b ∷ bs) l h =
    let e : p + 1 + n ≡ p + suc n = omega arith in
    rw e at (IsCStr-drop m (p + 1) n bs (omega arith) h.2)

-- A C string stays where no byte of it changes.
pub IsCStr-frame :
    (m m' : Mem) (p : ℕ) (bs : List ℕ)
    → ((i : ℕ) → i ≤ length bs → m' (p + i) ≡ m (p + i))
    → IsCStr m p bs
    → IsCStr m' p bs
IsCStr-frame m m' p [] same h =
    let e : p + 0 ≡ p = omega arith in let at = same 0 (omega arith) in rw e at at ∙ h
IsCStr-frame m m' p (b ∷ bs) same h =
    let e : p + 0 ≡ p = omega arith in
    let at = same 0 (omega arith) in
    let rest =
      IsCStr-frame m m' (p + 1) bs
        (λ i l.
          let shift : p + suc i ≡ p + 1 + i = omega arith in
          let next = same (suc i) (omega arith) in rw shift at next)
        h.2 in
    (rw e at at ∙ h.0, h.1, rest)
