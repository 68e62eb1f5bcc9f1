-- ===== src/Tests/Sending.antt =====
-- What the user of a connection calls, at concrete inputs.
use cc_server.Prelude.{◌≡◌, [], ◌∷◌, true, false, arith}
use cc_server.Prelude.Outcome.{ok, ◌>>=◌}
use cc_server.Buffer.{Buffer}
use cc_server.Buffer.Invariant.{IsValid, contents}
use cc_server.TcpConnection.{Connection, wrote, is_connected, send}
use cc_server.TcpConnection.Invariant.{Inv}
use cc_server.TcpConnection.Send.{send_buffer}
use cc_server.TcpConnection.Send.Laws.{send_buffer_lem}
use cc_server.TcpConnection.Send.Calls.{sends_buffer, perform, perform-Inv}
use cc_server.Tests.Kernel.{list_kernel, counter}
use cc_server.Tests.Connecting.{idle, idle-Inv, filled_buffer}

filled_buffer-IsValid : IsValid filled_buffer
filled_buffer-IsValid = omega arith

send_buffer_lem_example :
    (b : Buffer) × (send_buffer list_kernel counter true (wrote 1) filled_buffer idle
      ≡ (send list_kernel counter true (wrote 1) (1 ∷ 2 ∷ 3 ∷ []) idle >>= λ c'. ok (b, c')))
    × IsValid b
    × (is_connected idle.state ≡ true → contents b ≡ [])
    × (is_connected idle.state ≡ false
        → (b ≡ filled_buffer)
          × (send list_kernel counter true (wrote 1) (1 ∷ 2 ∷ 3 ∷ []) idle ≡ ok idle))
send_buffer_lem_example =
    send_buffer_lem list_kernel counter true (wrote 1) filled_buffer idle filled_buffer-IsValid

perform-Inv_example :
    (c : Connection list_kernel counter) × (perform list_kernel counter
        (sends_buffer true (wrote 1) filled_buffer)
        idle
      ≡ ok c)
    × Inv list_kernel counter c
perform-Inv_example =
    perform-Inv list_kernel counter (sends_buffer true (wrote 1) filled_buffer) idle idle-Inv
      (filled_buffer-IsValid, (omega arith, omega arith))
