-- ===== src/CurrentThread.antt =====
-- base/CurrentThread.h and base/Thread.cpp: the thread's number and its text, kept per thread.
use cc_server.Prelude.{ℕ, List, ◌==◌, if◌then◌else◌, length, take}

pub record CurrentThread : Type 0 where
  pub cached_tid : ℕ
  pub tid_string : List ℕ
  pub tid_string_length : ℕ

-- gettid(2) answers `id`, and snprintf(3) prints it as `text`, cut to the 31 characters that fit.
unfoldable pub cache_tid : ℕ → List ℕ → CurrentThread → CurrentThread
cache_tid id text t =
    if t.cached_tid == 0
    then record { cached_tid = id; tid_string = take 31 text; tid_string_length = length text }
    else t

-- The thread's number, and what is kept after the call.
unfoldable pub tid : ℕ → List ℕ → CurrentThread → ℕ × CurrentThread
unfolding cache_tid
tid id text t =
    let t' = (if t.cached_tid == 0 then cache_tid id text t else t) in (t'.cached_tid, t')
