-- ===== src/CircularBuffer/Refine.antt =====
-- A circular buffer against the last values of a sequence (base/CircularBufferImpl.h).
use native.Mathlib.Nat.{mod-add-mod, mod-eq_of_lt, mod-lt, mod_self}
use mathlib.Core.List.{map-append}
use cc_server.Prelude.{
  ℕ, zero, suc, ◌+◌, ◌-◌, ◌%◌, ◌^◌, ◌<◌, ◌≡◌, refl, ap, ap₂, sym, ◌∙◌, List, [], ◌∷◌, ◌++◌, Option,
  some, arith, length, length-append, length-drop, length-replicate, drop, map, replicate, min,
  dec_lt, ◌==◌,
}
use cc_server.Prelude.Outcome.{Outcome, ok, ◌>>=◌, add_size}
use cc_server.CircularBuffer.{
  CircularBuffer, cell, next_index, full, empty, front, back, push_back, create, object,
}
use cc_server.CircularBuffer.Push.{tabulate, contents, IsValid, push_back_lem}
use cc_server.CircularBuffer.Create.{create_lem, drop-replicate}
use cc_server.CircularBuffer.Recent.{
  Call, pushes, asks_front, asks_back, asks_size, asks_full, asks_empty, Answer, done, value, count,
  truth, first, last, recent, answer, answers,
}

module _ {ℓ} {A : Type ℓ} where
  length-tabulate : (n : ℕ) (f : ℕ → A) → length (tabulate n f) ≡ n
  length-tabulate zero f = refl
  length-tabulate (suc n) f = ap suc (length-tabulate n (λ i. f (suc i)))

  map-drop : (n : ℕ) (xs : List A) → drop n (map some xs) ≡ map some (drop n xs)
  map-drop zero xs = refl
  map-drop (suc n) [] = refl
  map-drop (suc n) (x ∷ xs) = map-drop n xs

  length-somes : (xs : List A) → length (map some xs) ≡ length xs
  length-somes [] = refl
  length-somes (x ∷ xs) = ap suc (length-somes xs)

  tabulate-first :
      (n : ℕ) (f : ℕ → Option A) (xs : List A)
      → tabulate n f ≡ map some xs
      → 0 < length xs
      → object (f 0) ≡ first xs
  unfolding first
  tabulate-first n f [] e h = absurd (omega arith)
  tabulate-first zero f (x ∷ xs) e h = cc
  tabulate-first (suc n) f (x ∷ xs) e h = grind arith

  tabulate-last :
      (n : ℕ) (f : ℕ → Option A) (xs : List A)
      → tabulate (suc n) f ≡ map some xs
      → object (f n) ≡ last xs
  unfolding last
  tabulate-last n f [] e = cc
  tabulate-last zero f (x ∷ []) e = grind arith
  tabulate-last zero f (x ∷ y ∷ xs) e = cc
  tabulate-last (suc n) f (x ∷ []) e = cc
  tabulate-last (suc n) f (x ∷ y ∷ xs) e = tabulate-last n (λ i. f (suc i)) (y ∷ xs) cc

  first_ok : (xs : List A) → 0 < length xs → (a : A) × (first xs ≡ ok a)
  unfolding first
  first_ok [] h = absurd (omega arith)
  first_ok (x ∷ xs) h = (x, refl)

  last_ok : (xs : List A) → 0 < length xs → (a : A) × (last xs ≡ ok a)
  unfolding last
  last_ok [] h = absurd (omega arith)
  last_ok (x ∷ []) h = (x, refl)
  last_ok (x ∷ y ∷ xs) h = last_ok (y ∷ xs) (omega arith)

-- Two places are the same, if those after them are.
same_spot :
    {capacity x y : ℕ}
    → x < capacity
    → y < capacity
    → (x + 1) % capacity ≡ (y + 1) % capacity
    → x ≡ y
same_spot {capacity} {x} {y} a b e = elim (dec_lt (x + 1) capacity) [
  | yes low ↦ elim (dec_lt (y + 1) capacity) [
    | yes below ↦ omega (arith, mod-eq_of_lt low, mod-eq_of_lt below)
    | no last ↦ absurd (
        omega (
          arith,
          mod-eq_of_lt low,
          ap (λ k. k % capacity) {x = y + 1} {y = capacity} (omega arith),
          mod_self capacity,
        ))
  ]
  | no high ↦ elim (dec_lt (y + 1) capacity) [
    | yes below ↦ absurd (
        omega (
          arith,
          mod-eq_of_lt below,
          ap (λ k. k % capacity) {x = x + 1} {y = capacity} (omega arith),
          mod_self capacity,
        ))
    | no last ↦ omega arith
  ]
]

module _ {ℓ} {A : Type ℓ} (capacity : ℕ) where
  unfoldable pub perform : Call A → CircularBuffer A → Outcome (Answer A × CircularBuffer A)
  perform (pushes v) c = do c' ← push_back capacity c v; ok (done, c')
  perform asks_front c = do a ← front capacity c; ok (value a, c)
  perform asks_back c = do a ← back capacity c; ok (value a, c)
  perform asks_size c = ok (count c.size, c)
  perform asks_full c = ok (truth (full capacity c), c)
  perform asks_empty c = ok (truth (empty capacity c), c)

  unfoldable pub perform_all : List (Call A) → CircularBuffer A → Outcome (List (Answer A))
  perform_all [] c = ok []
  perform_all (call ∷ calls) c = do
    (a, c') ← perform call c
    rest ← perform_all calls c'
    ok (a ∷ rest)

  -- The values that a buffer holds, which are never none.
  pub record Holds (c : CircularBuffer A) (xs : List A) : Type ℓ where
    pub valid : IsValid capacity c
    pub contents : contents capacity c ≡ map some xs
    pub tail : c.tail < capacity
    pub some_value : 0 < length xs

  pub Holds-size : {c : CircularBuffer A} {xs : List A} → Holds c xs → c.size ≡ length xs
  Holds-size {c} {xs} h =
      sym (length-tabulate c.size (λ i. cell c.cells ((c.head + i) % capacity)))
      ∙ ap length h.contents
      ∙ length-somes xs

  Holds-front : {c : CircularBuffer A} {xs : List A} → Holds c xs → front capacity c ≡ first xs
  unfolding front
  Holds-front {c} {xs} h =
      ap (λ i. object (cell c.cells i)) {x = c.head} {y = (c.head + 0) % capacity}
        (sym (
          ap (λ k. k % capacity) {x = c.head + 0} {y = c.head} (omega arith)
          ∙ mod-eq_of_lt h.valid.head))
      ∙ tabulate-first c.size (λ i. cell c.cells ((c.head + i) % capacity)) xs h.contents
          h.some_value

  pub Holds-tail :
      {c : CircularBuffer A} {xs : List A}
      → Holds c xs
      → c.tail ≡ (c.head + (c.size - 1)) % capacity
  unfolding next_index
  Holds-tail {c} {xs} h =
      let size = Holds-size h in
      let n = c.size - 1 in
      same_spot h.tail (mod-lt (c.head + n) h.valid.some_room) (
        ap (λ k. k % capacity) {x = c.tail + 1} {y = add_size c.tail 1}
          (omega (arith, h.tail, h.valid.small))
        ∙ h.valid.tail
        ∙ ap (λ k. k % capacity) {x = c.head + c.size} {y = c.head + n + 1}
            (omega (arith, size, h.some_value))
        ∙ sym (mod-add-mod (c.head + n) capacity 1))

  Holds-back : {c : CircularBuffer A} {xs : List A} → Holds c xs → back capacity c ≡ last xs
  unfolding back
  Holds-back {c} {xs} h =
      let n = c.size - 1 in
      ap (λ i. object (cell c.cells i)) (Holds-tail h)
      ∙ tabulate-last n (λ i. cell c.cells ((c.head + i) % capacity)) xs
          (ap (λ k. tabulate k (λ i. cell c.cells ((c.head + i) % capacity))) {x = suc n}
              {y = c.size} (omega (arith, Holds-size h, h.some_value))
            ∙ h.contents)

  pushed-tail :
      (c c' : CircularBuffer A) (v : A)
      → 0 < capacity
      → push_back capacity c v ≡ ok c'
      → c'.tail < capacity
  unfolding push_back next_index
  pushed-tail c c' v some_room e =
      ground (arith, e, mod-lt (add_size c.tail 1) {m = capacity} some_room)

  Holds-push :
      (c : CircularBuffer A) (xs : List A) (v : A)
      → Holds c xs
      → (c' : CircularBuffer A) × (push_back capacity c v ≡ ok c')
        × Holds c' (recent capacity (xs ++ (v ∷ [])))
  unfolding recent
  Holds-push c xs v h =
      let (c', e, valid, held) = push_back_lem capacity c v h.valid in
      let size = Holds-size h in
      (
        c',
        e,
        record {
          valid = valid;
          contents =
              held
              ∙ ap₂ drop (omega (arith, length-append xs (v ∷ [])))
                  (ap (λ l. l ++ (some v ∷ [])) h.contents ∙ sym (map-append some xs (v ∷ [])))
              ∙ map-drop (length (xs ++ (v ∷ [])) - capacity) (xs ++ (v ∷ []));
          tail = pushed-tail c c' v h.valid.some_room e;
          some_value = omega (
            arith,
            h.valid.some_room,
            length-drop (length (xs ++ (v ∷ [])) - capacity) (xs ++ (v ∷ [])),
            length-append xs (v ∷ []),
          );
        },
      )

  -- One call does what it does on the values held.
  perform_lem :
      (call : Call A) (c : CircularBuffer A) (xs : List A)
      → Holds c xs
      → (a : Answer A) × (c' : CircularBuffer A) × (xs' : List A) × (perform call c ≡ ok (a, c'))
        × (answer capacity call xs ≡ ok (a, xs'))
        × Holds c' xs'
  unfolding perform answer full empty
  perform_lem (pushes v) c xs h =
      let (c', e, held) = Holds-push c xs v h in
      (done, c', recent capacity (xs ++ (v ∷ [])), rw e refl, refl, held)
  perform_lem asks_front c xs h =
      let (a, e) = first_ok xs h.some_value in
      (value a, c, xs, rw (Holds-front h, e) refl, rw e refl, h)
  perform_lem asks_back c xs h =
      let (a, e) = last_ok xs h.some_value in
      (value a, c, xs, rw (Holds-back h, e) refl, rw e refl, h)
  perform_lem asks_size c xs h = (count c.size, c, xs, refl, rw (Holds-size h) refl, h)
  perform_lem asks_full c xs h =
      (truth (c.size == capacity), c, xs, refl, rw (Holds-size h) refl, h)
  perform_lem asks_empty c xs h = (truth (c.size == 0), c, xs, refl, rw (Holds-size h) refl, h)

  perform_all-Holds :
      (calls : List (Call A)) (c : CircularBuffer A) (xs : List A)
      → Holds c xs
      → perform_all calls c ≡ answers capacity calls xs
  unfolding perform_all answers
  perform_all-Holds [] c xs h = refl
  perform_all-Holds (call ∷ calls) c xs h =
      let (a, c', xs', e, q, h') = perform_lem call c xs h in
      rw (e, q, perform_all-Holds calls c' xs' h') refl

  pub create-Holds :
      (initial : A) (n : ℕ) (v : A)
      → 0 < capacity
      → capacity < 2 ^ 31
      → 0 < n
      → Holds (create capacity initial n v) (recent capacity (replicate n v))
  unfolding recent
  create-Holds initial n v some_room small some_value =
      let (valid, held, tail) = create_lem capacity initial n v some_room small in
      let same : recent capacity (replicate n v) ≡ replicate (min n capacity) v =
        ap (λ k. drop (k - capacity) (replicate n v)) (length-replicate n v)
        ∙ drop-replicate (n - capacity) n v
        ∙ ap (λ k. replicate k v) {x = n - (n - capacity)} {y = min n capacity} (omega arith) in
      record {
        valid = valid;
        contents = held ∙ ap (map some) (sym same);
        tail = omega (arith, tail);
        some_value = omega (arith, ap length same, length-replicate (min n capacity) v);
      }

  -- A new buffer of at least one value, and any calls of push_back, front, back, size, full and empty:
  -- the answers are those for the last values of the sequence of the initial ones and those pushed, as
  -- many as the capacity; no call uses a cell without an object.
  pub perform_all_refines :
      (initial : A) (n : ℕ) (v : A) (calls : List (Call A))
      → 0 < capacity
      → capacity < 2 ^ 31
      → 0 < n
      → perform_all calls (create capacity initial n v)
        ≡ answers capacity calls (recent capacity (replicate n v))
  perform_all_refines initial n v calls some_room small some_value =
      perform_all-Holds calls (create capacity initial n v) (recent capacity (replicate n v))
        (create-Holds initial n v some_room small some_value)
