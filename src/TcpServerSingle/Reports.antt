-- ===== src/TcpServerSingle/Reports.antt =====
-- What epoll_wait(2) reports of a server's channels in one `poll` (Epoll.cpp).
use cc_server.Prelude.{ℕ, ◌≡◌, ◌≢◌, refl, ap, ◌∙◌, List, [], ◌∷◌, map, arith, if◌then◌else◌, ◌==◌}
use cc_server.Channel.{Events}
use cc_server.Epoll.{EpollKernel}
use cc_server.Epoll.Poll.{poll, ready, mark, mark-SameRequests, poll-InSync, poll_reports}
use cc_server.Epoll.Poll
use cc_server.EventLoop.{EventFd}
use cc_server.TcpServerSingle.{Event}

abbrev pub All : {A : Type 0} → (A → Type 0) → List A → Type 0
All P [] = Unit {0}
All P (r ∷ rs) = P r × All P rs

pub All-both :
    {A : Type 0} (P Q R : A → Type 0) (rs : List A)
    → ((r : A) → P r → Q r → R r)
    → All P rs
    → All Q rs
    → All R rs
All-both P Q R [] f a b = tt
All-both P Q R (r ∷ rs) f (h, a) (k, b) = (f r h k, All-both P Q R rs f a b)

module _ (epoll : EpollKernel) (eventfd : EventFd) where
  -- What epoll_wait(2) says of a channel, and what its handler meets.
  pub record Report : Type 0 where
    pub fd : ℕ
    pub events : Events
    pub event : Event epoll eventfd

  -- epoll_wait(2) reports a descriptor once.
  abbrev pub AllDistinct : List Report → Type 0
  AllDistinct [] = Unit {0}
  AllDistinct (r ∷ rs) = All (λ x. r.fd ≢ x.fd) rs × AllDistinct rs

  absent_told :
      (reports : List Report) (fd : ℕ) (e : Events)
      → All (λ x. fd ≢ x.fd) reports
      → Poll.reported epoll (map (λ r. (r.fd, r.events)) reports) fd e ≡ e
  absent_told [] fd e a = refl
  absent_told (r ∷ reports) fd e (ne, a) =
      ap (Poll.reported epoll (map (λ x. (x.fd, x.events)) reports) fd)
        {x = if r.fd == fd then r.events else e} {y = e} (ground (arith, ne))
      ∙ absent_told reports fd e a

  -- Each report is told to its channel.
  pub distinct_told :
      (reports : List Report)
      → AllDistinct reports
      → All
          (λ r.
            (e : Events)
            → Poll.reported epoll (map (λ x. (x.fd, x.events)) reports) r.fd e ≡ r.events)
          reports
  distinct_told [] d = tt
  distinct_told (r ∷ reports) (apart, d) = (
    λ e.
        ap (Poll.reported epoll (map (λ x. (x.fd, x.events)) reports) r.fd)
          {x = if r.fd == r.fd then r.events else e} {y = r.events} (ground arith)
        ∙ absent_told reports r.fd r.events apart,
    All-both (λ x. r.fd ≢ x.fd)
        (λ x.
          (e : Events)
          → Poll.reported epoll (map (λ y. (y.fd, y.events)) reports) x.fd e ≡ x.events)
        (λ x.
          (e : Events)
          → Poll.reported epoll (map (λ y. (y.fd, y.events)) (r ∷ reports)) x.fd e ≡ x.events)
        reports (λ x ne h e. h (if r.fd == x.fd then r.events else e)) apart
        (distinct_told reports d),
  )
