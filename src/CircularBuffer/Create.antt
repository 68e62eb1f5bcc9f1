-- ===== src/CircularBuffer/Create.antt =====
-- A new circular buffer (base/CircularBufferImpl.h: allocateAndFillN).
use native.Mathlib.Nat.{mod-eq_of_lt}
use cc_server.Prelude.{
  ℕ, zero, suc, ◌+◌, ◌-◌, ◌%◌, ◌^◌, ◌≤◌, ◌<◌, ◌≡◌, refl, ap, ap₂, sym, ◌∙◌, List, [], ◌∷◌, ◌++◌,
  Option, some, none, arith, length-append, length-replicate, get_or, drop, map, replicate,
  append-nil, dec_lt, min,
}
use cc_server.Prelude.Outcome.{add_size, sub_size}
use cc_server.CircularBuffer.{CircularBuffer, cell, next_index, create}
use cc_server.CircularBuffer.Push.{tabulate, contents, IsValid}

module _ {ℓ} {A : Type ℓ} where
  get_or-replicate :
      (m : ℕ) (a : A) (rest : List A) (i : ℕ) (d : A)
      → i < m
      → get_or (replicate m a ++ rest) i d ≡ a
  get_or-replicate zero a rest i d h = absurd (omega arith)
  get_or-replicate (suc m) a rest zero d h = refl
  get_or-replicate (suc m) a rest (suc i) d h = get_or-replicate m a rest i d (omega arith)

  get_or_behind :
      (m : ℕ) (a : A) (rest : List A) (i : ℕ) (d : A)
      → m ≤ i
      → get_or (replicate m a ++ rest) i d ≡ get_or rest (i - m) d
  get_or_behind zero a rest i d h = ap (λ k. get_or rest k d) {x = i} {y = i - 0} (omega arith)
  get_or_behind (suc m) a rest zero d h = absurd (omega arith)
  get_or_behind (suc m) a rest (suc i) d h =
      get_or_behind m a rest i d (omega arith)
      ∙ ap (λ k. get_or rest k d) {x = i - m} {y = suc i - suc m} (omega arith)

  pub drop-replicate : (k n : ℕ) (a : A) → drop k (replicate n a) ≡ replicate (n - k) a
  drop-replicate zero n a = ap (λ m. replicate m a) {x = n} {y = n - 0} (omega arith)
  drop-replicate (suc k) zero a = ap (λ m. replicate m a) {x = 0} {y = 0 - suc k} (omega arith)
  drop-replicate (suc k) (suc n) a =
      drop-replicate k n a ∙ ap (λ m. replicate m a) {x = n - k} {y = suc n - suc k} (omega arith)

  tabulate_somes :
      (m : ℕ) (f : ℕ → Option A) (v : A)
      → ((i : ℕ) → i < m → f i ≡ some v)
      → tabulate m f ≡ map some (replicate m v)
  tabulate_somes zero f v h = refl
  tabulate_somes (suc m) f v h =
      ap₂ ◌∷◌ (h 0 (omega arith))
        (tabulate_somes m (λ i. f (suc i)) v (λ i lt. h (suc i) (omega arith)))

module _ {ℓ} {A : Type ℓ} (capacity : ℕ) where
  abbrev filled : A → ℕ → A → CircularBuffer A
  filled initial m v = record {
    cells = replicate m (some v) ++ replicate (capacity - m) (some initial);
    head = 0;
    tail = sub_size m 1;
    size = m;
  }

  filled-live :
      (initial : A) (m : ℕ) (v : A) (i : ℕ)
      → i < capacity
      → (a : A) × (cell (filled initial m v).cells i ≡ some a)
  filled-live initial m v i lt = elim (dec_lt i m) [
    | yes low ↦ (v, get_or-replicate m (some v) _ i none low)
    | no high ↦ (
      initial,
      get_or_behind m (some v) (replicate (capacity - m) (some initial)) i none (omega arith)
          ∙ ap (λ l. get_or l (i - m) none)
              (sym (append-nil (replicate (capacity - m) (some initial))))
          ∙ get_or-replicate (capacity - m) (some initial) [] (i - m) none (omega arith),
    )
  ]

  filled-IsValid :
      (initial : A) (m : ℕ) (v : A)
      → 0 < capacity
      → capacity < 2 ^ 31
      → m ≤ capacity
      → IsValid capacity (filled initial m v)
  unfolding next_index
  filled-IsValid initial m v some_room small fits = record {
    some_room = some_room;
    small = small;
    cells =
        length-append (replicate m (some v)) (replicate (capacity - m) (some initial))
        ∙ ap₂ ◌+◌ (length-replicate m (some v)) (length-replicate (capacity - m) (some initial))
        ∙ omega arith;
    head = some_room;
    size = fits;
    tail = ap (λ k. k % capacity) {x = add_size (sub_size m 1) 1} {y = 0 + m} (omega arith);
    live = filled-live initial m v;
  }

  filled-contents :
      (initial : A) (m : ℕ) (v : A)
      → m ≤ capacity
      → contents capacity (filled initial m v) ≡ map some (replicate m v)
  filled-contents initial m v fits = tabulate_somes m _ v λ i lt.
      ap (λ k. cell (filled initial m v).cells k) {x = (0 + i) % capacity} {y = i}
        (ap (λ k. k % capacity) {x = 0 + i} {y = i} (omega arith) ∙ mod-eq_of_lt (omega arith))
      ∙ get_or-replicate m (some v) _ i none lt

  create_small :
      (initial : A) (n : ℕ) (v : A)
      → n < capacity
      → create capacity initial n v ≡ filled initial n v
  unfolding create
  create_small initial n v low = ground arith

  create_full :
      (initial : A) (n : ℕ) (v : A)
      → capacity ≤ n
      → create capacity initial n v ≡ filled initial capacity v
  unfolding create
  create_full initial n v high = ground (arith, no_rest)
    where
      no_rest :
          replicate capacity (some v) ++ replicate (capacity - capacity) (some initial)
          ≡ replicate capacity (some v)
      no_rest =
          ap (λ k. replicate capacity (some v) ++ replicate k (some initial))
            {x = capacity - capacity} {y = 0} (omega arith)
          ∙ append-nil (replicate capacity (some v))

  -- A new buffer as a filled one: how many values it holds, and what they are.
  pub create_lem :
      (initial : A) (n : ℕ) (v : A)
      → 0 < capacity
      → capacity < 2 ^ 31
      → let m = min n capacity in
        IsValid capacity (create capacity initial n v)
        × (contents capacity (create capacity initial n v) ≡ map some (replicate m v))
        × ((create capacity initial n v).tail ≡ sub_size m 1)
  create_lem initial n v some_room small = elim (dec_lt n capacity) [
    | yes low ↦ rw (create_small initial n v low) (made n (omega arith) (omega arith))
    | no high ↦
        rw (create_full initial n v (omega arith)) (made capacity (omega arith) (omega arith))
  ]
    where
      made :
          (m : ℕ)
          → m ≤ capacity
          → m ≡ min n capacity
          → IsValid capacity (filled initial m v)
            × (contents capacity (filled initial m v) ≡ map some (replicate (min n capacity) v))
            × ((filled initial m v).tail ≡ sub_size (min n capacity) 1)
      made m fits e = (
        filled-IsValid initial m v some_room small fits,
        filled-contents initial m v fits ∙ ap (λ k. map some (replicate k v)) e,
        ap (λ k. sub_size k 1) e,
      )
