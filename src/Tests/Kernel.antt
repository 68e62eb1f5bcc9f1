-- ===== src/Tests/Kernel.antt =====
-- An interest list as a function, and an eventfd as a counter that stops at 2 ^ 64 - 2.
use cc_server.Prelude.{
  ℕ, ◌+◌, ◌-◌, ◌^◌, Bool, true, false, ◌≡◌, Option, none, some, if◌then◌else◌, ltb, arith,
}
use cc_server.Prelude.Map.{update}
use cc_server.Channel.{Events}
use cc_server.Epoll.{Ctl, EpollKernel}
use cc_server.EventLoop.{EventFd}

abbrev Interests : Type 0
Interests = ℕ → Option Events

-- EEXIST and ENOENT are the failures.
abbrev control_on : Option Events → Interests → Ctl → ℕ → Events → Interests × Bool
control_on none k Ctl.add fd e = (update k fd (some e), true)
control_on none k Ctl.modify fd e = (k, false)
control_on none k Ctl.delete fd e = (k, false)
control_on (some old) k Ctl.add fd e = (k, false)
control_on (some old) k Ctl.modify fd e = (update k fd (some e), true)
control_on (some old) k Ctl.delete fd e = (update k fd none, true)

abbrev control_list : Interests → Ctl → ℕ → Events → Interests × Bool
control_list k op fd e = control_on (k fd) k op fd e

pub add_ok_lem :
    (k : Interests) (fd : ℕ) (e : Events) → k fd ≡ none → (control_list k Ctl.add fd e).1 ≡ true
add_ok_lem k fd e h = ground arith

pub add_lem :
    (k : Interests) (fd : ℕ) (e : Events)
    → k fd ≡ none
    → (j : ℕ) → (control_list k Ctl.add fd e).0 j ≡ update k fd (some e) j
add_lem k fd e h j = ground arith

pub modify_ok_lem :
    (k : Interests) (fd : ℕ) (e old : Events)
    → k fd ≡ some old
    → (control_list k Ctl.modify fd e).1 ≡ true
modify_ok_lem k fd e old h = ground arith

pub modify_lem :
    (k : Interests) (fd : ℕ) (e old : Events)
    → k fd ≡ some old
    → (j : ℕ) → (control_list k Ctl.modify fd e).0 j ≡ update k fd (some e) j
modify_lem k fd e old h j = ground arith

pub delete_ok_lem :
    (k : Interests) (fd : ℕ) (e old : Events)
    → k fd ≡ some old
    → (control_list k Ctl.delete fd e).1 ≡ true
delete_ok_lem k fd e old h = ground arith

pub delete_lem :
    (k : Interests) (fd : ℕ) (e old : Events)
    → k fd ≡ some old
    → (j : ℕ) → (control_list k Ctl.delete fd e).0 j ≡ update k fd none j
delete_lem k fd e old h j = ground arith

abbrev pub list_kernel : EpollKernel
list_kernel = record {
  Kernel = Interests;
  registered = λ k. k;
  epoll_ctl = control_list;
  add_ok = add_ok_lem;
  add_registers = add_lem;
  modify_ok = modify_ok_lem;
  modify_registers = modify_lem;
  delete_ok = delete_ok_lem;
  delete_registers = delete_lem;
}

abbrev write_counter : ℕ → ℕ
write_counter c = if ltb c (2 ^ 64 - 2) then c + 1 else c

pub write_lem : (c : ℕ) → ltb 0 (write_counter c) ≡ true
write_lem c = ground arith

abbrev pub counter : EventFd
counter = record {
  Counter = ℕ;
  fresh = 0;
  write_one = write_counter;
  drain = λ c. 0;
  readable = λ c. ltb 0 c;
  readable-write_one = write_lem;
}
