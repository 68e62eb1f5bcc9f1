-- ===== src/Prelude/Outcome.antt =====
-- How a call of the C++ code ends, and arithmetic on `size_t`.
use cc_server.Prelude.{ℕ, ◌+◌, ◌-◌, ◌%◌, ◌^◌, Bool, true, false, ◌≡◌, refl, sym}

-- `aborts`: an `assert` failed. `throws`: a standard container refused with an exception.
-- `undefined`: a read or write outside the object, or a use of an object that is gone.
pub data Outcome {ℓ} (A : Type ℓ) : Type ℓ where
  ok : A → Outcome A
  aborts : Outcome A
  throws : Outcome A
  undefined : Outcome A

infixl 5 ◌>>=◌ ◌>>◌
abbrev pub ◌>>=◌ {ℓ κ} : {A : Type ℓ} {B : Type κ} → Outcome A → (A → Outcome B) → Outcome B
ok a >>= f = f a
aborts >>= f = aborts
throws >>= f = throws
undefined >>= f = undefined

abbrev pub ◌>>◌ {ℓ} : {B : Type ℓ} → Outcome (Unit {0}) → Outcome B → Outcome B
m >> k = m >>= λ _. k

-- `assert(b)`, with NDEBUG not defined.
abbrev pub assert : Bool → Outcome (Unit {0})
assert true = ok tt
assert false = aborts

-- A memory access that is defined if `b` holds.
abbrev pub in_bounds : Bool → Outcome (Unit {0})
in_bounds true = ok tt
in_bounds false = undefined

abbrev pub size_mod : ℕ
size_mod = 2 ^ 64

-- `a + b` and `a - b` on `size_t`.
abbrev pub add_size : ℕ → ℕ → ℕ
add_size a b = (a + b) % size_mod

abbrev pub sub_size : ℕ → ℕ → ℕ
sub_size a b = (a + size_mod - b) % size_mod

-- If a call with what follows it went through, both did.
pub both-ok {ℓ κ} :
    {A : Type ℓ} {B : Type κ} (rest : A → Outcome B) (call : Outcome A) {last : B}
    → ok last ≡ (call >>= rest)
    → (between : A) × (rest between ≡ ok last) × (call ≡ ok between)
both-ok rest (ok between) done = (between, sym done, refl)
both-ok rest aborts done = cc
both-ok rest throws done = cc
both-ok rest undefined done = cc
