-- ===== src/Buffer/Refine.antt =====
-- A buffer refines the queue of the bytes that it holds, over any sequence of calls (Buffer.h).
use Prim.Native.Nat.{max}
use cc_server.Prelude.{ℕ, ◌+◌, ◌≤◌, ◌≡◌, refl, ap, ◌∙◌, List, [], ◌∷◌, arith, length, take, dec_lt}
use cc_server.Prelude.Outcome.{Outcome, ok, aborts, throws, undefined, ◌>>=◌}
use cc_server.ByteQueue
use cc_server.ByteQueue.{Op, put, discard, read, read_all, give_back}
use cc_server.Buffer.{
  Buffer, max_size, cheap_prepend, append, retrieve, retrieve_as_string, retrieve_all_as_string,
  unwrite,
}
use cc_server.Buffer.Invariant.{IsValid, contents, length-contents}
use cc_server.Buffer.Write.{append_lem, unwrite_lem}
use cc_server.Buffer.Read.{
  retrieve_lem, retrieve_as_string_lem, retrieve_as_string-aborts, retrieve_all_as_string_lem,
}

unfoldable pub step : Buffer → Op → Outcome (List ℕ × Buffer)
step b (put xs) = do b' ← append b xs; ok ([], b')
step b (discard n) = do b' ← retrieve b n; ok ([], b')
step b (read n) = retrieve_as_string b n
step b read_all = retrieve_all_as_string b
step b (give_back n) = do b' ← unwrite b n; ok ([], b')

unfoldable pub run : Buffer → List Op → Outcome (List (List ℕ) × Buffer)
run b [] = ok ([], b)
run b (op ∷ ops) = do (out, b') ← step b op; (outs, b'') ← run b' ops; ok (out ∷ outs, b'')

-- What a client sees of a run: the bytes returned by each call, and those left at the end.
abbrev pub observe : Outcome (List (List ℕ) × Buffer) → Outcome (List (List ℕ) × List ℕ)
observe (ok (outs, b)) = ok (outs, contents b)
observe aborts = aborts
observe throws = throws
observe undefined = undefined

-- How many bytes a call puts in, and a sequence of calls.
abbrev pub size : Op → ℕ
size (put xs) = length xs
size _ = 0

abbrev pub total : List Op → ℕ
total [] = 0
total (op ∷ ops) = size op + total ops

-- One call does what the queue does, and leaves the writer where the bytes put in can reach it.
data Agrees (b : Buffer) (op : Op) : Type 0 where
  succeeds :
      (out : List ℕ) (b' : Buffer)
      → step b op ≡ ok (out, b')
      → ByteQueue.step (contents b) op ≡ ok (out, contents b')
      → IsValid b'
      → b'.writer_index ≤ max b.writer_index cheap_prepend + size op
      → Agrees b op
  fails : step b op ≡ aborts → ByteQueue.step (contents b) op ≡ aborts → Agrees b op

step-Agrees : (b : Buffer) (op : Op) → IsValid b → b.writer_index + size op ≤ max_size → Agrees b op
unfolding step ByteQueue.step
step-Agrees b (put xs) v h =
    let (b', e, valid, all, low) = append_lem b xs v h in
    succeeds [] b' (ground (arith, e)) (ground (arith, all)) valid (omega (arith, low))
step-Agrees b (discard n) v h = elim (dec_lt (length (contents b)) n) [
  | yes short ↦ fails (ground (arith, (retrieve_lem b n v).1 short)) (ground arith)
  | no enough ↦
      let (b', e, valid, rest, low) = (retrieve_lem b n v).0 (omega arith) in
      succeeds [] b' (ground (arith, e)) (ground (arith, rest)) valid (omega (arith, low))
]
step-Agrees b (read n) v h = elim (dec_lt (length (contents b)) n) [
  | yes short ↦ fails (ground (arith, retrieve_as_string-aborts b n v short)) (ground arith)
  | no enough ↦
      let (b', e, valid, rest, low) = retrieve_as_string_lem b n v (omega arith) in
      succeeds (take n (contents b)) b' e (ground (arith, rest)) valid (omega (arith, low))
]
step-Agrees b read_all v h =
    let (b', e, valid, rest, low) = retrieve_all_as_string_lem b v in
    succeeds (contents b) b' e (ground (arith, rest)) valid (omega (arith, low))
step-Agrees b (give_back n) v h = elim (dec_lt (length (contents b)) n) [
  | yes short ↦ fails (ground (arith, (unwrite_lem b n v).1, length-contents v)) (ground arith)
  | no enough ↦
      let (b', e, valid, rest, low) = (unwrite_lem b n v).0 (omega (arith, length-contents v)) in
      succeeds [] b' (ground (arith, e)) (ground (arith, rest)) valid (omega (arith, low))
]

observe-cons :
    (out : List ℕ) (r : Outcome (List (List ℕ) × Buffer))
    → observe (r >>= λ x. ok (out ∷ x.0, x.1)) ≡ (observe r >>= λ x. ok (out ∷ x.0, x.1))
observe-cons out (ok (outs, b)) = refl
observe-cons out aborts = refl
observe-cons out throws = refl
observe-cons out undefined = refl

-- No sequence of calls tells a buffer from the queue of its bytes, failed assertions included, as
-- long as the bytes put in fit a vector.
pub run_refines :
    (b : Buffer) (ops : List Op)
    → IsValid b
    → max b.writer_index cheap_prepend + total ops ≤ max_size
    → observe (run b ops) ≡ ByteQueue.run (contents b) ops
unfolding run ByteQueue.run
run_refines b [] v h = refl
run_refines b (op ∷ ops) v h = elim (step-Agrees b op v (omega arith)) [
  | fails e q ↦ rw (e, q)
  | succeeds out b' e q valid low ↦
      rw (e, q)
        (observe-cons out (run b' ops)
          ∙ ap (λ r. r >>= λ x. ok (out ∷ x.0, x.1)) (run_refines b' ops valid (omega arith)))
]
