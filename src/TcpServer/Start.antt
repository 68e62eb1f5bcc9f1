-- ===== src/TcpServer/Start.antt =====
-- When `startInLoop` comes to its end (TcpServer.cpp).
use cc_server.Prelude.{
  ℕ, ◌+◌, ◌≤◌, ◌≡◌, ◌≢◌, ap, ◌⊎◌, inl, inr, refl, true, false, List, [], ltb, arith,
}
use cc_server.Prelude.Outcome.{ok}
use cc_server.Thread
use cc_server.Thread.{Thread, set_default_name}
use cc_server.TcpServer.{
  TcpServer, create, set_num_thread, start, start_base, make_thread, has_loop, publish_loop,
  clear_loop,
}

-- Where the base loop's thread is: before `startInLoop`, at the test of the `for`, in the wait for a
-- thread's loop, or at the end.
pub data Position : Type 0 where
  before : Position
  testing awaiting : ℕ → Position
  done : Position

pub record Serving : Type 0 where
  pub server : TcpServer
  pub position : Position

-- A step of the base loop's thread, or of a thread that was started.
pub data Step (s t : Serving) : Type 0 where
  begins :
      s.position ≡ before
      → (start s.server).1 ≡ true
      → t ≡ record { server = start_base (start s.server).0; position = testing 1 }
      → Step s t
  makes :
      (print : ℕ → List ℕ) (num_created i : ℕ)
      → s.position ≡ testing i
      → ltb i s.server.num_threads ≡ true
      → t ≡ record { server = make_thread print num_created i s.server; position = awaiting i }
      → Step s t
  passes :
      (i : ℕ)
      → s.position ≡ awaiting i
      → has_loop i s.server ≡ ok true
      → t ≡ record s { position = testing (i + 1) }
      → Step s t
  ends :
      (i : ℕ)
      → s.position ≡ testing i
      → ltb i s.server.num_threads ≡ false
      → t ≡ record s { position = done }
      → Step s t
  publishes :
      (i : ℕ) (server : TcpServer)
      → (s.server.threads i).started ≡ true
      → publish_loop i s.server ≡ ok server
      → t ≡ record s { server = server }
      → Step s t
  clears :
      (i : ℕ) (server : TcpServer)
      → (s.server.threads i).started ≡ true
      → clear_loop i s.server ≡ ok server
      → t ≡ record s { server = server }
      → Step s t

-- What a server can come to that was set to `n` threads.
pub data Reach (n : ℕ) : Serving → Type 0 where
  here :
      (threads : ℕ → Thread) (server : TcpServer)
      → ((i : ℕ) → (threads i).started ≡ false)
      → set_num_thread n (create threads) ≡ ok server
      → Reach n (record { server = server; position = before })
  step : {s t : Serving} → Reach n s → Step s t → Reach n t

-- What holds up to the first wait.
record Stuck (n : ℕ) (s : Serving) : Type 0 where
  num_threads : s.server.num_threads ≡ n
  unstarted : (i : ℕ) → (s.server.threads i).started ≡ false
  no_loop : (i : ℕ) → s.server.event_loops i ≡ false
  early : (s.position ≡ before) ⊎ ((s.position ≡ testing 1) ⊎ (s.position ≡ awaiting 1))

started_create :
    (print : ℕ → List ℕ) (num_created : ℕ) → (Thread.create print num_created []).0.started ≡ false
unfolding Thread.create set_default_name
started_create print num_created = ground arith

at_first :
    (s : Serving) (i : ℕ)
    → s.position ≡ testing i
    → (s.position ≡ before) ⊎ ((s.position ≡ testing 1) ⊎ (s.position ≡ awaiting 1))
    → i ≡ 1
at_first s i p (inl b) = cc
at_first s i p (inr (inl b)) = cc
at_first s i p (inr (inr b)) = cc

never_done :
    (s : Serving)
    → (s.position ≡ before) ⊎ ((s.position ≡ testing 1) ⊎ (s.position ≡ awaiting 1))
    → s.position ≢ done
never_done s (inl b) e = cc
never_done s (inr (inl b)) e = cc
never_done s (inr (inr b)) e = cc

Step-Stuck : (n : ℕ) (s t : Serving) → 2 ≤ n → Step s t → Stuck n s → Stuck n t
unfolding start start_base make_thread has_loop
Step-Stuck n s t many (begins p e q) v = rw q record {
  num_threads = ground (arith, v.num_threads);
  unstarted = λ i. ground (arith, v.unstarted i);
  no_loop = λ i. ground (arith, v.no_loop i);
  early = inr (inl refl);
}
Step-Stuck n s t many (makes print num_created i p e q) v = rw q record {
  num_threads = v.num_threads;
  unstarted = λ j. ground (arith, v.unstarted j, started_create print num_created);
  no_loop = v.no_loop;
  early = inr (inr (ap awaiting (at_first s i p v.early)));
}
Step-Stuck n s t many (passes i p e q) v = absurd (ground (arith, e, v.no_loop i))
Step-Stuck n s t many (ends i p e q) v =
    absurd (ground (arith, at_first s i p v.early, v.num_threads, many, e))
Step-Stuck n s t many (publishes i server on e q) v = absurd (cc (on, v.unstarted i))
Step-Stuck n s t many (clears i server on e q) v = absurd (cc (on, v.unstarted i))

Reach-Stuck : (n : ℕ) (s : Serving) → 2 ≤ n → Reach n s → Stuck n s
unfolding set_num_thread create
Reach-Stuck n s many (here threads server idle e) =
    let made : server ≡ record (create threads) { num_threads = n; loops = n } =
      ground (arith, e, many) in
    rw made record { num_threads = refl; unstarted = idle; no_loop = λ i. refl; early = inl refl }
Reach-Stuck n s many (step {s = r} reach one) =
    Step-Stuck n r s many one (Reach-Stuck n r many reach)

-- A server that was set to two threads or more never comes to the end of `startInLoop`; one that was
-- set to one thread can, and listens then.
pub start_in_loop_ends :
    (n : ℕ)
    → (2 ≤ n → (s : Serving) → Reach n s → s.position ≢ done)
      × ((threads : ℕ → Thread)
          → ((i : ℕ) → (threads i).started ≡ false)
          → n ≡ 1
          → (s : Serving) × Reach n s × (s.position ≡ done) × (s.server.listens ≡ true))
unfolding set_num_thread create start start_base
start_in_loop_ends n = (
  λ many s reach end. absurd (never_done s (Reach-Stuck n s many reach).early end),
  λ threads idle one.
      let server : TcpServer = record (create threads) { num_threads = n; loops = n } in
      let begun : Serving = record {
        server = record server { started = true; listens = true };
        position = testing 1;
      } in
      (
        record begun { position = done },
        step (step (here threads server idle (ground (arith, one))) (begins refl refl refl))
            (ends 1 refl (ground (arith, one)) refl),
        refl,
        refl,
      ),
)
