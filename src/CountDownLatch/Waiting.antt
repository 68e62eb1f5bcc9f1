-- ===== src/CountDownLatch/Waiting.antt =====
-- No thread sleeps at a latch that is open (base/CountDownLatch.cpp).
use cc_server.Prelude.{refl, ℕ, zero, suc, ◌≡◌, true, false, arith, inl, inr, Bool-cases}
use cc_server.Prelude.Int.{ℤ, pos, negsuc}
use cc_server.Prelude.Map.{update}
use cc_server.CountDownLatch.{
  Place, outside, asleep, woken, returned, CountDownLatch, is_positive, is_zero, decrement,
  test_count, wake, notify_all, count_down,
}

-- A thread sleeps only while the count is positive, and has returned only when it is not.
pub record Inv (l : CountDownLatch) : Type 0 where
  pub sleeps : (thread : ℕ) → l.places thread ≡ asleep → is_positive l.count ≡ true
  pub passed : (thread : ℕ) → l.places thread ≡ returned → is_positive l.count ≡ false

-- What threads do at a latch. A wait may end without a notification.
pub data Step (l l' : CountDownLatch) : Type 0 where
  enters : (thread : ℕ) → l.places thread ≡ outside → l' ≡ test_count thread l → Step l l'
  tests_again : (thread : ℕ) → l.places thread ≡ woken → l' ≡ test_count thread l → Step l l'
  wakes_up :
      (thread : ℕ)
      → l.places thread ≡ asleep
      → l' ≡ record l { places = update l.places thread woken }
      → Step l l'
  counts : l' ≡ count_down l → Step l l'
  leaves :
      (thread : ℕ)
      → l.places thread ≡ returned
      → l' ≡ record l { places = update l.places thread outside }
      → Step l l'

pub test_count-Inv : (thread : ℕ) (l : CountDownLatch) → Inv l → Inv (test_count thread l)
unfolding test_count
test_count-Inv thread l v = record {
  sleeps = λ t h. ground (arith, h, v.sleeps t);
  passed = λ t h. ground (arith, h, v.passed t);
}

wake-asleep : (p : Place) → wake p ≡ asleep → ⊥
wake-asleep outside h = cc
wake-asleep asleep h = cc
wake-asleep woken h = cc
wake-asleep returned h = cc

wake-returned : (p : Place) → wake p ≡ returned → p ≡ returned
wake-returned outside h = cc
wake-returned asleep h = cc
wake-returned woken h = cc
wake-returned returned h = refl

decrement_low : (n : ℤ) → is_positive n ≡ false → is_positive (decrement n) ≡ false
decrement_low (pos zero) h = refl
decrement_low (pos (suc n)) h = ground (arith, h)
decrement_low (negsuc n) h = refl

decrement_high :
    (n : ℤ)
    → is_positive n ≡ true
    → is_zero (decrement n) ≡ false
    → is_positive (decrement n) ≡ true
decrement_high (pos zero) h z = cc
decrement_high (pos (suc n)) h z = ground (arith, z)
decrement_high (negsuc n) h z = cc

zero_low : (n : ℤ) → is_zero n ≡ true → is_positive n ≡ false
zero_low (pos n) h = ground (arith, h)
zero_low (negsuc n) h = refl

pub count_down-Inv : (l : CountDownLatch) → Inv l → Inv (count_down l)
unfolding count_down notify_all
count_down-Inv l v = elim (Bool-cases (is_zero (decrement l.count))) [
  | inl opens ↦ rw opens record {
    sleeps = λ t h. absurd (wake-asleep (l.places t) h);
    passed = λ t h. zero_low (decrement l.count) opens;
  }
  | inr closed ↦ rw closed record {
    sleeps = λ t h. decrement_high l.count (v.sleeps t h) closed;
    passed = λ t h. decrement_low l.count (v.passed t h);
  }
]

pub Step-Inv : (l l' : CountDownLatch) → Step l l' → Inv l → Inv l'
Step-Inv l l' (enters t h e) v = rw e (test_count-Inv t l v)
Step-Inv l l' (tests_again t h e) v = rw e (test_count-Inv t l v)
Step-Inv l l' (wakes_up thread h e) v = rw e record {
  sleeps = λ t h'. ground (arith, h', v.sleeps t);
  passed = λ t h'. ground (arith, h', v.passed t);
}
Step-Inv l l' (counts e) v = rw e (count_down-Inv l v)
Step-Inv l l' (leaves thread h e) v = rw e record {
  sleeps = λ t h'. ground (arith, h', v.sleeps t);
  passed = λ t h'. ground (arith, h', v.passed t);
}
