-- ===== src/Thread.antt =====
-- base/Thread.h and base/Thread.cpp: a thread as its owner sees it, and what the new thread does
-- before it calls the function.
pub mod Start
pub mod Returns
use cc_server.Prelude.{
  ℕ, ◌+◌, Bool, true, false, not, ◌&&◌, List, [], ltb, ◌==◌, if◌then◌else◌, length,
}
use cc_server.Prelude.Outcome.{Outcome, ok, assert, ◌>>=◌, ◌>>◌}
use cc_server.Prelude.Int.{pos}
use cc_server.CountDownLatch
use cc_server.CountDownLatch.{CountDownLatch, count_down}

-- `detached` is whether pthread_detach(3) was called.
pub record Thread : Type 0 where
  pub started : Bool
  pub joined : Bool
  pub tid : ℕ
  pub name : List ℕ
  pub latch : CountDownLatch
  pub detached : Bool

-- `num_created` is the shared counter, and `print` what snprintf(3) makes of a number.
unfoldable pub set_default_name : (ℕ → List ℕ) → ℕ → Thread → Thread × ℕ
set_default_name print num_created t =
    ((if length t.name == 0 then record t { name = print num_created } else t), num_created + 1)

unfoldable pub create : (ℕ → List ℕ) → ℕ → List ℕ → Thread × ℕ
unfolding set_default_name
create print num_created name = set_default_name print num_created (record {
  started = false;
  joined = false;
  tid = 0;
  name = name;
  latch = CountDownLatch.create (pos 1);
  detached = false;
})

-- `start` up to the wait, where `created` is whether pthread_create(3) succeeded. If not, `start`
-- ends here.
unfoldable pub begin_start : Bool → Thread → Outcome Thread
begin_start created t = do assert (not t.started); ok (record t { started = created })

-- `start` after the wait.
unfoldable pub end_start : Thread → Outcome Thread
end_start t = do assert (ltb 0 t.tid); ok t

-- The new thread tells its number, `id`.
unfoldable pub publish_tid : ℕ → Thread → Thread
publish_tid id t = record t { tid = id }

-- It lets the owner go on.
unfoldable pub release_owner : Thread → Thread
release_owner t = record t { latch = count_down t.latch }

unfoldable pub join : Thread → Outcome Thread
join t = do assert t.started; assert (not t.joined); ok (record t { joined = true })

unfoldable pub destroy : Thread → Thread
destroy t = if t.started && not t.joined then record t { detached = true } else t
