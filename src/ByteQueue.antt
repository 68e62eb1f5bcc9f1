-- ===== src/ByteQueue.antt =====
-- What Buffer.h promises: a queue of bytes, taken from the front and put at the end or the front.
use cc_server.Prelude.{ℕ, ◌-◌, List, [], ◌∷◌, ◌++◌, leb, if◌then◌else◌, length, take, drop}
use cc_server.Prelude.Outcome.{Outcome, ok, aborts, ◌>>=◌}

pub data Op : Type 0 where
  put : List ℕ → Op
  discard : ℕ → Op
  read : ℕ → Op
  read_all : Op
  give_back : ℕ → Op

-- The bytes that the call returns and the queue after it.
unfoldable pub step : List ℕ → Op → Outcome (List ℕ × List ℕ)
step q (put xs) = ok ([], q ++ xs)
step q (discard n) = if leb n (length q) then ok ([], drop n q) else aborts
step q (read n) = if leb n (length q) then ok (take n q, drop n q) else aborts
step q read_all = ok (q, [])
step q (give_back n) = if leb n (length q) then ok ([], take (length q - n) q) else aborts

unfoldable pub run : List ℕ → List Op → Outcome (List (List ℕ) × List ℕ)
run q [] = ok ([], q)
run q (op ∷ ops) = do (out, q') ← step q op; (outs, q'') ← run q' ops; ok (out ∷ outs, q'')
