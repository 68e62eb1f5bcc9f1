-- ===== src/CountDownLatch.antt =====
-- base/CountDownLatch.h and base/CountDownLatch.cpp, with the condition of base/Condition.h. Each
-- test of `count_` and each change of it is one step, since the mutex is held.
pub mod Waiting
use cc_server.Prelude.{ℕ, zero, suc, Bool, true, false, ltb, ◌==◌, if◌then◌else◌}
use cc_server.Prelude.Int.{ℤ, pos, negsuc}
use cc_server.Prelude.Map.{update}

-- Where a thread is in `wait`: not in it, in pthread_cond_wait(3), woken and about to test the count
-- again, or at its end.
pub data Place : Type 0 where
  outside asleep woken returned : Place

-- `places` tells where each thread is.
pub record CountDownLatch : Type 0 where
  pub count : ℤ
  pub places : ℕ → Place

unfoldable pub create : ℤ → CountDownLatch
create count = record { count = count; places = λ thread. outside }

abbrev pub is_positive : ℤ → Bool
is_positive (pos n) = ltb 0 n
is_positive (negsuc n) = false

abbrev pub is_zero : ℤ → Bool
is_zero (pos n) = n == 0
is_zero (negsuc n) = false

-- `--count_`
abbrev pub decrement : ℤ → ℤ
decrement (pos zero) = negsuc 0
decrement (pos (suc n)) = pos n
decrement (negsuc n) = negsuc (suc n)

-- One test of the `while` of `wait`, after which the thread sleeps or returns.
unfoldable pub test_count : ℕ → CountDownLatch → CountDownLatch
test_count thread l = record l {
  places = update l.places thread (if is_positive l.count then asleep else returned);
}

abbrev pub wake : Place → Place
wake asleep = woken
wake outside = outside
wake woken = woken
wake returned = returned

-- `Condition::notifyAll`
unfoldable pub notify_all : CountDownLatch → CountDownLatch
notify_all l = record l { places = λ thread. wake (l.places thread) }

unfoldable pub count_down : CountDownLatch → CountDownLatch
unfolding notify_all
count_down l =
    let l' : CountDownLatch = record l { count = decrement l.count } in
    if is_zero l'.count then notify_all l' else l'

unfoldable pub get_count : CountDownLatch → ℤ
get_count l = l.count
