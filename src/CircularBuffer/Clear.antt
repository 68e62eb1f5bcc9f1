-- ===== src/CircularBuffer/Clear.antt =====
-- `clear`, and the buffer after it (base/CircularBufferImpl.h).
use native.Mathlib.Nat.{mod-add-mod, mod-eq_of_lt, mod-lt, mod_self}
use cc_server.Prelude.{
  ℕ, zero, suc, ◌+◌, ◌-◌, ◌%◌, ◌^◌, ◌≤◌, ◌<◌, ◌≡◌, ◌≢◌, refl, ap, sym, ◌∙◌, List, Option, some,
  none, arith, length, set, length-set, get_or-set_self, get_or-set_ne,
}
use cc_server.Prelude.Outcome.{ok, undefined, ◌>>=◌, add_size}
use cc_server.CircularBuffer.{
  CircularBuffer, cell, next_index, full, front, push_back, destroy_all, clear,
}
use cc_server.CircularBuffer.Push.{IsValid, next_index-spot, spots_differ}

module _ (capacity : ℕ) where
  -- The places of a range that goes round.
  abbrev pub spot : ℕ → ℕ → ℕ
  spot h i = (h + i) % capacity

  pub spot-next : (h i : ℕ) → spot ((h + 1) % capacity) i ≡ spot h (suc i)
  spot-next h i =
      mod-add-mod (h + 1) capacity i
      ∙ ap (λ k. k % capacity) {x = h + 1 + i} {y = h + suc i} (omega arith)

  pub spot-zero : (h : ℕ) → h < capacity → spot h 0 ≡ h
  spot-zero h lt = ap (λ k. k % capacity) {x = h + 0} {y = h} (omega arith) ∙ mod-eq_of_lt lt

  pub first_differs : (h i : ℕ) → h < capacity → suc i < capacity → h ≢ spot h (suc i)
  first_differs h i lt few e =
      spots_differ {capacity = capacity} {h = h} {n = suc i} 0 lt few (omega arith)
        (sym e ∙ sym (spot-zero h lt))

  -- The first place is reached from the head by less than a full round.
  round_to_zero : (h : ℕ) → h < capacity → (i : ℕ) × (i < capacity) × (spot h i ≡ 0)
  round_to_zero zero lt = (0, omega arith, spot-zero 0 lt)
  round_to_zero (suc h) lt = (
    capacity - suc h,
    omega arith,
    ap (λ k. k % capacity) {x = suc h + (capacity - suc h)} {y = capacity} (omega arith)
        ∙ mod_self capacity,
  )

module _ {ℓ} {A : Type ℓ} (capacity : ℕ) where
  -- What `clear` does to the cells.
  pub record Emptied (cells cells' : List (Option A)) (h n : ℕ) : Type ℓ where
    pub same_length : length cells' ≡ length cells
    pub gone : (i : ℕ) → i < n → cell cells' (spot capacity h i) ≡ none
    pub kept : (j : ℕ) → ((i : ℕ) → i < n → j ≢ spot capacity h i) → cell cells' j ≡ cell cells j

  gone_all :
      (h : ℕ) {n : ℕ} (cells : List (Option A))
      → cell cells h ≡ none
      → h < capacity
      → ((i : ℕ) → i < n → cell cells (spot capacity ((h + 1) % capacity) i) ≡ none)
      → (i : ℕ) → i < suc n
      → cell cells (spot capacity h i) ≡ none
  gone_all h cells here lt later zero few = ap (cell cells) (spot-zero capacity h lt) ∙ here
  gone_all h cells here lt later (suc i) few =
      ap (cell cells) (sym (spot-next capacity h i)) ∙ later i (omega arith)

  destroy_all-Emptied :
      (n h : ℕ) (cells : List (Option A))
      → length cells ≡ capacity
      → capacity < 2 ^ 31
      → h < capacity
      → n ≤ capacity
      → ((i : ℕ) → i < n → (a : A) × (cell cells (spot capacity h i) ≡ some a))
      → (cells' : List (Option A)) × (destroy_all capacity n h cells ≡ ok cells')
        × Emptied cells cells' h n
  unfolding destroy_all
  destroy_all-Emptied zero h cells len small lt fits live = (
    cells,
    refl,
    record {
      same_length = refl;
      gone = λ i none_such. absurd (omega arith);
      kept = λ j away. refl;
    },
  )
  destroy_all-Emptied (suc n) h cells len small lt fits live =
      let h' = (h + 1) % capacity in
      let (a, here) = live 0 (omega arith) in
      let rest = set cells h none in
      let next : next_index capacity h ≡ h' =
        ap (next_index capacity) (sym (mod-eq_of_lt lt))
        ∙ next_index-spot capacity h (omega arith) small in
      let (cells', e, s) =
        destroy_all-Emptied n h' rest (length-set cells h none ∙ len) small
          (mod-lt (h + 1) {m = capacity} (omega arith)) (omega arith)
          (λ i few.
            let (b, there) = live (suc i) (omega arith) in
            (
              b,
              ap (cell rest) (spot-next capacity h i)
                  ∙ get_or-set_ne cells none none (first_differs capacity h i lt (omega arith))
                  ∙ there,
            )) in
      (
        cells',
        ground (arith, here, spot-zero capacity h lt, next, e),
        record {
          same_length = s.same_length ∙ length-set cells h none;
          gone =
              gone_all h cells'
                (s.kept h (λ i few q.
                    first_differs capacity h i lt (omega arith) (q ∙ spot-next capacity h i))
                  ∙ get_or-set_self cells h none none (omega arith))
                lt s.gone;
          kept = λ j away.
              s.kept j (λ i few q. away (suc i) (omega arith) (q ∙ spot-next capacity h i))
              ∙ get_or-set_ne cells none none
                  (λ q. away 0 (omega arith) (sym q ∙ sym (spot-zero capacity h lt)));
        },
      )

  -- `clear` of a valid buffer uses only cells that hold objects; it destroys those from the head on
  -- that are counted, and no other, and leaves a buffer of size 0.
  pub clear_lem :
      (c : CircularBuffer A)
      → IsValid capacity c
      → (c' : CircularBuffer A) × (clear capacity c ≡ ok c')
        × (c'.size ≡ 0)
        × (c'.head ≡ 0)
        × (c'.tail ≡ 0)
        × Emptied c.cells c'.cells c.head c.size
  unfolding clear
  clear_lem c v =
      let (cells, e, emptied) =
        destroy_all-Emptied c.size c.head c.cells v.cells v.small v.head v.size (λ i few.
          v.live (spot capacity c.head i) (mod-lt (c.head + i) {m = capacity} v.some_room)) in
      (record { cells = cells; head = 0; tail = 0; size = 0 }, rw e refl, refl, refl, refl, emptied)

  push_after_clear :
      (c : CircularBuffer A) (v : A)
      → c.size ≡ 0
      → c.tail ≡ 0
      → 1 < length c.cells
      → 1 < capacity
      → capacity < 2 ^ 31
      → push_back capacity c v
        ≡ ok (record c { cells = set c.cells 1 (some v); tail = 1; size = 1 })
  unfolding push_back next_index full
  push_after_clear c v no_values tail inside more small =
      let one : add_size c.tail 1 % capacity ≡ 1 =
        ap (λ k. k % capacity) {x = add_size c.tail 1} {y = 1} (omega arith) ∙ mod-eq_of_lt more in
      ground (arith, one)

  -- On a full buffer of two cells or more that is cleared, front is undefined after the first
  -- push_back: that value is not in the place that front reads.
  pub front-push_back-clear :
      (c : CircularBuffer A) (v : A)
      → IsValid capacity c
      → c.size ≡ capacity
      → 1 < capacity
      → (do
        cleared ← clear capacity c
        pushed ← push_back capacity cleared v
        front capacity pushed)
        ≡ undefined
  unfolding front
  front-push_back-clear c v valid all more =
      let (c', e, no_values, head, tail, emptied) = clear_lem c valid in
      let (i, few, to_zero) = round_to_zero capacity c.head valid.head in
      let first_gone : cell c'.cells 0 ≡ none =
        ap (cell c'.cells) (sym to_zero) ∙ emptied.gone i (omega arith) in
      let p =
        push_after_clear c' v no_values tail (omega (arith, emptied.same_length, valid.cells)) more
          valid.small in
      rw (e, p)
        (ground (
          arith,
          head,
          get_or-set_ne c'.cells {i = 1} {j = 0} (some v) none (omega arith),
          first_gone,
        ))
