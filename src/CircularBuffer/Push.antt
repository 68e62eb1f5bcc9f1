-- ===== src/CircularBuffer/Push.antt =====
-- `push_back` keeps the last N values in order (base/CircularBufferImpl.h).
use native.Mathlib.Nat.{mod-add-mod, mod-eq_of_lt, mod-eq-sub-mod, mod-lt}
use cc_server.Prelude.{
  ℕ, zero, suc, ◌+◌, ◌-◌, ◌%◌, ◌^◌, ◌≤◌, ◌<◌, ◌≡◌, ◌≢◌, refl, ap, ap₂, sym, ◌∙◌, List, [], ◌∷◌,
  ◌++◌, Option, none, some, arith, length, drop, set, length-set, get_or-set_self, get_or-set_ne,
  ℕ_discrete, dec_lt,
}
use cc_server.Prelude.Outcome.{ok, add_size}
use cc_server.CircularBuffer.{CircularBuffer, cell, next_index, full, push_back}

module _ {ℓ} {A : Type ℓ} where
  -- The first `n` values of a sequence.
  abbrev pub tabulate : ℕ → (ℕ → A) → List A
  tabulate zero f = []
  tabulate (suc n) f = f 0 ∷ tabulate n (λ i. f (suc i))

  tabulate-snoc : (n : ℕ) (f : ℕ → A) → tabulate (suc n) f ≡ tabulate n f ++ (f n ∷ [])
  tabulate-snoc zero f = refl
  tabulate-snoc (suc n) f = ap (λ l. f 0 ∷ l) (tabulate-snoc n (λ i. f (suc i)))

  pub tabulate-same :
      (n : ℕ) (f g : ℕ → A) → ((i : ℕ) → i < n → f i ≡ g i) → tabulate n f ≡ tabulate n g
  tabulate-same zero f g h = refl
  tabulate-same (suc n) f g h =
      ap₂ ◌∷◌ (h 0 (omega arith))
        (tabulate-same n (λ i. f (suc i)) (λ i. g (suc i)) (λ i lt. h (suc i) (omega arith)))

  set-set : (xs : List A) (i : ℕ) (a b : A) → set (set xs i a) i b ≡ set xs i b
  set-set [] i a b = refl
  set-set (x ∷ xs) zero a b = refl
  set-set (x ∷ xs) (suc i) a b = ap (λ l. x ∷ l) (set-set xs i a b)

-- Steps from one place by less than a full round end in different places.
pub spots_differ :
    {capacity h n : ℕ} (i : ℕ)
    → h < capacity
    → n < capacity
    → i < n
    → (h + n) % capacity ≢ (h + i) % capacity
spots_differ {capacity} {h} {n} i a b lt = elim (dec_lt (h + n) capacity) [
  | yes low ↦ omega (
    arith,
    mod-eq_of_lt {n = h + n} {m = capacity} low,
    mod-eq_of_lt {n = h + i} {m = capacity} (omega arith),
  )
  | no high ↦ elim (dec_lt (h + i) capacity) [
    | yes below ↦ omega (
      arith,
      mod-eq-sub-mod {n = h + n} {m = capacity} (omega arith),
      mod-eq_of_lt {n = h + n - capacity} {m = capacity} (omega arith),
      mod-eq_of_lt {n = h + i} {m = capacity} below,
    )
    | no above ↦ omega (
      arith,
      mod-eq-sub-mod {n = h + n} {m = capacity} (omega arith),
      mod-eq_of_lt {n = h + n - capacity} {m = capacity} (omega arith),
      mod-eq-sub-mod {n = h + i} {m = capacity} (omega arith),
      mod-eq_of_lt {n = h + i - capacity} {m = capacity} (omega arith),
    )
  ]
]

pub next_index-spot :
    (capacity x : ℕ)
    → 0 < capacity
    → capacity < 2 ^ 31
    → next_index capacity (x % capacity) ≡ (x + 1) % capacity
unfolding next_index
next_index-spot capacity x some_room small =
    ap (λ k. k % capacity) {x = add_size (x % capacity) 1} {y = x % capacity + 1}
      (omega (arith, mod-lt x {m = capacity} some_room))
    ∙ mod-add-mod x capacity 1

module _ {ℓ} {A : Type ℓ} (capacity : ℕ) where
  -- The values of a range of cells that goes round.
  abbrev window : List (Option A) → ℕ → ℕ → List (Option A)
  window cells h n = tabulate n (λ i. cell cells ((h + i) % capacity))

  -- The values held, oldest first.
  abbrev pub contents : CircularBuffer A → List (Option A)
  contents c = window c.cells c.head c.size

  pub record IsValid (c : CircularBuffer A) : Type ℓ where
    pub some_room : 0 < capacity
    pub small : capacity < 2 ^ 31
    pub cells : length c.cells ≡ capacity
    pub head : c.head < capacity
    pub size : c.size ≤ capacity
    pub tail : next_index capacity c.tail ≡ (c.head + c.size) % capacity
    pub live : (i : ℕ) → i < capacity → (a : A) × (cell c.cells i ≡ some a)

  -- A value written behind a window that does not go all the way round.
  window-set :
      (cells : List (Option A)) (h n : ℕ) (v : Option A)
      → capacity ≡ length cells
      → h < capacity
      → n < capacity
      → window (set cells ((h + n) % capacity) v) h (suc n) ≡ window cells h n ++ (v ∷ [])
  window-set cells h n v len a b =
      tabulate-snoc n (λ i. cell (set cells ((h + n) % capacity) v) ((h + i) % capacity))
      ∙ ap₂ (λ l x. l ++ (x ∷ []))
          (tabulate-same n _ (λ i. cell cells ((h + i) % capacity))
            (λ i lt. get_or-set_ne cells v none (spots_differ i a b lt)))
          (get_or-set_self cells ((h + n) % capacity) v none
            (omega (arith, mod-lt (h + n) {m = capacity} (omega arith))))

  set-live :
      (cells : List (Option A)) (j : ℕ) (v : A)
      → length cells ≡ capacity
      → ((i : ℕ) → i < capacity → (a : A) × (cell cells i ≡ some a))
      → (i : ℕ) → i < capacity
      → (a : A) × (cell (set cells j (some v)) i ≡ some a)
  set-live cells j v len live i lt = elim (ℕ_discrete j i) [
    | yes e ↦ (v, rw (← e) (get_or-set_self cells j (some v) none (omega arith)))
    | no ne ↦ let (a, h) = live i lt in (a, get_or-set_ne cells (some v) none ne ∙ h)
  ]

  -- The buffer after the push.
  abbrev pushed : CircularBuffer A → A → ℕ → ℕ → CircularBuffer A
  pushed c v head size = record {
    cells = set c.cells ((c.head + c.size) % capacity) (some v);
    head = head;
    tail = (c.head + c.size) % capacity;
    size = size;
  }

  pushed-IsValid :
      (c : CircularBuffer A) (v : A) (head size : ℕ)
      → IsValid c
      → head < capacity
      → size ≤ capacity
      → (c.head + c.size + 1) % capacity ≡ (head + size) % capacity
      → IsValid (pushed c v head size)
  pushed-IsValid c v head size valid a b e = record {
    some_room = valid.some_room;
    small = valid.small;
    cells = length-set c.cells ((c.head + c.size) % capacity) (some v) ∙ valid.cells;
    head = a;
    size = b;
    tail = next_index-spot capacity (c.head + c.size) valid.some_room valid.small ∙ e;
    live = set-live c.cells ((c.head + c.size) % capacity) v valid.cells valid.live;
  }

  push_room :
      (c : CircularBuffer A) (v : A)
      → IsValid c
      → c.size < capacity
      → push_back capacity c v ≡ ok (pushed c v c.head (c.size + 1))
  unfolding push_back next_index full
  push_room c v valid room =
      ground
        (arith, valid.tail, valid.cells, mod-lt (c.head + c.size) {m = capacity} valid.some_room)

  push_full :
      (c : CircularBuffer A) (v : A)
      → IsValid c
      → c.size ≡ capacity
      → push_back capacity c v ≡ ok (pushed c v ((c.head + 1) % capacity) c.size)
  unfolding push_back next_index full
  push_full c v valid full =
      let j = (c.head + c.size) % capacity in
      let inside : j < capacity = mod-lt (c.head + c.size) {m = capacity} valid.some_room in
      let (a, live) = valid.live j inside in
      let head : next_index capacity c.head ≡ (c.head + 1) % capacity =
        ap (next_index capacity) (sym (mod-eq_of_lt valid.head))
        ∙ next_index-spot capacity c.head valid.some_room valid.small in
      ground (
        arith,
        valid.tail,
        valid.cells,
        inside,
        live,
        head,
        length-set c.cells j none,
        set-set c.cells j none (some v),
      )

  -- A full buffer goes on by one place.
  slide :
      (c : CircularBuffer A) (v : A)
      → IsValid c
      → c.size ≡ capacity
      → contents (pushed c v ((c.head + 1) % capacity) c.size)
        ≡ drop (c.size + 1 - capacity) (contents c ++ (some v ∷ []))
  slide c v valid full =
      ap (window (pushed c v next c.size).cells next) {x = c.size} {y = suc rest} (omega arith)
      ∙ ap (λ j. window (set c.cells j (some v)) next (suc rest)) {x = (c.head + c.size) % capacity}
          {y = (next + rest) % capacity}
          (ap (λ k. k % capacity) (omega arith) ∙ sym (mod-add-mod (c.head + 1) capacity rest))
      ∙ window-set c.cells next rest (some v) (sym valid.cells)
          (mod-lt (c.head + 1) valid.some_room) (omega arith)
      ∙ ap (λ l. l ++ (some v ∷ []))
          (tabulate-same rest _ (λ i. cell c.cells ((c.head + suc i) % capacity))
            (λ i lt.
              ap (λ j. cell c.cells j)
                (mod-add-mod (c.head + 1) capacity i ∙ ap (λ k. k % capacity) (omega arith))))
      ∙ ap₂ (λ k n. drop k (window c.cells c.head n ++ (some v ∷ []))) {x = 1}
          {y = c.size + 1 - capacity} {u = suc rest} {v = c.size} (omega arith) (omega arith)
    where
      next : ℕ
      next = (c.head + 1) % capacity

      rest : ℕ
      rest = capacity - 1

  -- `push_back` on a valid buffer uses only cells that hold objects, keeps the buffer valid, and
  -- appends the value to those held, less the oldest if the buffer was full.
  pub push_back_lem :
      (c : CircularBuffer A) (v : A)
      → IsValid c
      → (c' : CircularBuffer A) × (push_back capacity c v ≡ ok c')
        × IsValid c'
        × (contents c' ≡ drop (c.size + 1 - capacity) (contents c ++ (some v ∷ [])))
  push_back_lem c v valid = elim (dec_lt c.size capacity) [
    | yes room ↦ (
      pushed c v c.head (c.size + 1),
      push_room c v valid room,
      pushed-IsValid c v c.head (c.size + 1) valid valid.head (omega arith)
          (ap (λ k. k % capacity) (omega arith)),
      ap (window (pushed c v c.head (c.size + 1)).cells c.head) {x = c.size + 1} {y = suc c.size}
            (omega arith)
          ∙ window-set c.cells c.head c.size (some v) (sym valid.cells) valid.head room
          ∙ ap (λ k. drop k (contents c ++ (some v ∷ []))) {x = 0} {y = c.size + 1 - capacity}
              (omega arith),
    )
    | no full ↦ (
      pushed c v ((c.head + 1) % capacity) c.size,
      push_full c v valid (omega arith),
      pushed-IsValid c v ((c.head + 1) % capacity) c.size valid
          (mod-lt (c.head + 1) valid.some_room) valid.size
          (ap (λ k. k % capacity) (omega arith) ∙ sym (mod-add-mod (c.head + 1) capacity c.size)),
      slide c v valid (omega arith),
    )
  ]
