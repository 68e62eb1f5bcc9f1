-- ===== src/Tests/Draining.antt =====
-- Connections that are written out, at concrete inputs.
use cc_server.Prelude.{ℕ, ◌≡◌, refl, List, [], ◌∷◌, true, some, arith, length}
use cc_server.Prelude.Outcome.{ok, ◌>>=◌}
use cc_server.Buffer.Invariant.{contents}
use cc_server.TcpConnection.{Connection, WriteResult, wrote, send, shutdown}
use cc_server.TcpConnection.Invariant.{Inv}
use cc_server.TcpConnection.Flush.{Serves, Flushed, flush, flush_lem}
use cc_server.TcpConnection.Send.Graceful.{graceful_end}
use cc_server.Tests.Kernel.{list_kernel, counter}
use cc_server.Tests.Connecting.{idle, idle-Inv, busy, busy-Inv}

-- write(2) takes all but one byte, and the last byte alone.
abbrev most : List ℕ → WriteResult
most (x ∷ y ∷ held) = wrote (length (y ∷ held))
most held = wrote 1

most-Serves : Serves list_kernel counter most
most-Serves [] some_bytes = absurd (omega arith)
most-Serves (x ∷ []) some_bytes = (1, refl, omega arith, omega arith)
most-Serves (x ∷ y ∷ held) some_bytes = (length (y ∷ held), refl, omega arith, omega arith)

flush_lem_example :
    (c : Connection list_kernel counter) × (flush list_kernel counter most 3 busy ≡ ok c)
    × Flushed list_kernel counter busy c
flush_lem_example =
    flush_lem list_kernel counter most 3 busy most-Serves busy-Inv refl (omega arith)

-- write(2) takes one byte of three at first.
graceful_end_example :
    (c : Connection list_kernel counter) × ((do
      sending ← send list_kernel counter true (wrote 1) (7 ∷ 8 ∷ 9 ∷ []) idle
      ending ← shutdown list_kernel counter true sending
      flush list_kernel counter most (length (contents ending.output_buffer)) ending)
      ≡ ok c)
    × Inv list_kernel counter c
    × (contents c.output_buffer ≡ [])
    × (c.sent ≡ 7 ∷ 8 ∷ 9 ∷ [])
    × (c.shut_down ≡ true)
    × (c.closed_after ≡ some (7 ∷ 8 ∷ 9 ∷ []))
graceful_end_example =
    graceful_end list_kernel counter most (wrote 1) (7 ∷ 8 ∷ 9 ∷ []) idle most-Serves idle-Inv refl
      refl refl (omega arith) (omega arith)
