-- ===== src/EventLoopThread.antt =====
-- EventLoopThread.h and EventLoopThread.cpp: a loop in a thread of its own.
pub mod Destroy
use cc_server.Prelude.{suc, Bool, true, false, ◌≡◌, ◌≢◌, [], if◌then◌else◌, not}
use cc_server.Prelude.Outcome.{Outcome, ok, assert, ◌>>=◌, ◌>>◌}
use cc_server.EventLoop.{EventFd, Loop, set_quit, begin_loop}
use cc_server.EventLoop.Threads
use cc_server.EventLoop.Threads.{System, Own, Env, outside, checking}
use cc_server.Thread.{Thread, begin_start, join}

-- Where the owner is: before `startLoop`, in its wait, after it, in the join of the destructor, or
-- after the destructor.
pub data Owner : Type 0 where
  unstarted finding using joining joined : Owner

-- Where the thread is in `threadFunc`: not begun, before its loop is made known, before `loop()`, in
-- it, after it, or at the end.
pub data Child : Type 0 where
  unborn constructing entering inside left ended : Child

module _ (eventfd : EventFd) (Task : Type 0) where
  -- `known` is whether `loop_` is not null, and `system` the loop.
  pub record EventLoopThread : Type 0 where
    pub thread : Thread
    pub known : Bool
    pub exiting : Bool
    pub system : System eventfd Task
    pub owner : Owner
    pub child : Child

  -- The constructor, where `thread` is the new thread object.
  unfoldable pub create : Thread → EventLoopThread
  create thread = record {
    thread = thread;
    known = false;
    exiting = false;
    system = Threads.start eventfd Task;
    owner = unstarted;
    child = unborn;
  }

  -- `startLoop` up to its wait. What `Thread::start` does besides is in Thread.
  unfoldable pub start_loop : EventLoopThread → Outcome EventLoopThread
  start_loop s = do
    assert (not s.thread.started)
    thread ← begin_start true s.thread
    ok (record s { thread = thread; owner = finding; child = constructing })

  unfoldable pub publish_loop : EventLoopThread → EventLoopThread
  publish_loop s = record s { known = true; child = entering }

  unfoldable pub clear_loop : EventLoopThread → EventLoopThread
  clear_loop s = record s { known = false; child = ended }

  -- The destructor up to the join. The `wakeup` of its `quit` is a step of its own, as for every call
  -- that wakes the loop.
  unfoldable pub destroy : EventLoopThread → Outcome EventLoopThread
  destroy s =
      if s.known
      then (do
        l ← set_quit eventfd Task s.system.loop
        thread ← join s.thread
        let quitted : System eventfd Task = record s.system {
          loop = l;
          waking = suc s.system.waking;
        }
        ok (record s { exiting = true; system = quitted; thread = thread; owner = joining }))
      else ok (record s { exiting = true; owner = joined })

  -- `others` are other threads, which have the loop from `startLoop`, and the callbacks and tasks of
  -- the loop: they queue tasks, call `quit`, and do the wakeups.
  pub data Move (s t : EventLoopThread) : Type 0 where
    starts : s.owner ≡ unstarted → start_loop s ≡ ok t → Move s t
    finds : s.owner ≡ finding → s.known ≡ true → t ≡ record s { owner = using } → Move s t
    destroys : s.owner ≡ using → destroy s ≡ ok t → Move s t
    joins : s.owner ≡ joining → s.child ≡ ended → t ≡ record s { owner = joined } → Move s t
    publishes : s.child ≡ constructing → t ≡ publish_loop s → Move s t
    enters :
        (l : Loop eventfd Task)
        → s.child ≡ entering
        → begin_loop eventfd Task s.system.loop ≡ ok l
        → t ≡ record s { system = record s.system { loop = l; phase = checking }; child = inside }
        → Move s t
    loops :
        (u : System eventfd Task)
        → s.child ≡ inside
        → Own eventfd Task s.system u
        → u.phase ≢ outside
        → t ≡ record s { system = u }
        → Move s t
    leaves :
        (u : System eventfd Task)
        → s.child ≡ inside
        → Own eventfd Task s.system u
        → u.phase ≡ outside
        → t ≡ record s { system = u; child = left }
        → Move s t
    clears : s.child ≡ left → t ≡ clear_loop s → Move s t
    others :
        (u : System eventfd Task)
        → Env eventfd Task s.system u
        → t ≡ record s { system = u }
        → Move s t

  pub data Moves : EventLoopThread → EventLoopThread → Type 0 where
    stay : {s : EventLoopThread} → Moves s s
    move : {s t u : EventLoopThread} → Move s t → Moves t u → Moves s u
