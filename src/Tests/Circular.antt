-- ===== src/Tests/Circular.antt =====
-- Circular buffers at concrete inputs.
use cc_server.Prelude.{ℕ, zero, suc, ◌<◌, ◌≡◌, refl, List, [], ◌∷◌, some, true, arith}
use cc_server.Prelude.Outcome.{ok, undefined, ◌>>=◌}
use cc_server.CircularBuffer.{
  CircularBuffer, cell, next_index, create, clear, push_back, front, begin, end,
}
use cc_server.CircularBuffer.Push.{IsValid}
use cc_server.CircularBuffer.Recent.{
  Call, pushes, asks_front, asks_back, asks_size, asks_full, value, count, truth, done, answers,
  answer, recent, first, last,
}
use cc_server.CircularBuffer.Refine.{perform_all, perform_all_refines, Holds}
use cc_server.CircularBuffer.Clear.{front-push_back-clear}
use cc_server.CircularBuffer.Traverse.{traverse, traverse_misses_last}

-- Three values, the oldest in the last cell.
abbrev three : CircularBuffer ℕ
three = record { cells = some 2 ∷ some 3 ∷ some 1 ∷ []; head = 2; tail = 1; size = 3 }

three-live : (i : ℕ) → i < 3 → (a : ℕ) × (cell three.cells i ≡ some a)
three-live zero h = (2, refl)
three-live (suc zero) h = (3, refl)
three-live (suc (suc zero)) h = (1, refl)
three-live (suc (suc (suc i))) h = absurd (omega arith)

three-IsValid : IsValid 3 three
unfolding next_index
three-IsValid = record {
  some_room = omega arith;
  small = omega arith;
  cells = refl;
  head = omega arith;
  size = omega arith;
  tail = refl;
  live = three-live;
}

three-Holds : Holds 3 three (1 ∷ 2 ∷ 3 ∷ [])
three-Holds = record {
  valid = three-IsValid;
  contents = refl;
  tail = omega arith;
  some_value = omega arith;
}

abbrev calls : List (Call ℕ)
calls = asks_size ∷ pushes 1 ∷ asks_full ∷ pushes 2 ∷ asks_front ∷ asks_back ∷ []

answers_of_calls :
    answers 2 calls (recent 2 (7 ∷ []))
    ≡ ok (count 1 ∷ done ∷ truth true ∷ done ∷ value 1 ∷ value 2 ∷ [])
unfolding answers answer recent first last
answers_of_calls = refl

perform_all_refines_example :
    perform_all 2 calls (create 2 0 1 7) ≡ answers 2 calls (recent 2 (7 ∷ []))
perform_all_refines_example =
    perform_all_refines 2 0 1 7 calls (omega arith) (omega arith) (omega arith)

front-push_back-clear_example :
    (do cleared ← clear 3 three; pushed ← push_back 3 cleared 4; front 3 pushed) ≡ undefined
front-push_back-clear_example = front-push_back-clear 3 three 4 three-IsValid refl (omega arith)

traverse_misses_last_example : traverse 3 3 three.cells 2 1 ≡ ok (some (1 ∷ 2 ∷ []))
unfolding begin end
traverse_misses_last_example = traverse_misses_last 3 three (1 ∷ 2 ∷ 3 ∷ []) three-Holds
