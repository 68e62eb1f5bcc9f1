-- ===== src/Tests/Serving.antt =====
-- A server of two threads.
use cc_server.Prelude.{ℕ, ◌≤◌, ◌≡◌, ◌≢◌, false, true}
use cc_server.Thread.{Thread}
use cc_server.TcpServer.Start.{Serving, Reach, done, start_in_loop_ends}

start_in_loop_ends_example :
    (2 ≤ 2 → (s : Serving) → Reach 2 s → s.position ≢ done)
    × ((threads : ℕ → Thread)
        → ((i : ℕ) → (threads i).started ≡ false)
        → ◌≡◌ {A = ℕ} 2 1
        → (s : Serving) × Reach 2 s × (s.position ≡ done) × (s.server.listens ≡ true))
start_in_loop_ends_example = start_in_loop_ends 2
