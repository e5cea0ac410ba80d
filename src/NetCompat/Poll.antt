-- ===== src/NetCompat/Poll.antt =====
-- `poll`: each entry is answered by what its socket is ready for, of what any entry asked of that socket.
use moonlight_wii.Prelude.{ℕ, ◌+◌, ◌*◌, ◌/◌, ◌%◌, Bool, false, ◌||◌, none, some, List, [], ◌∷◌, map}
use moonlight_wii.Prelude.Int.{ℤ, pos, negsuc}
use moonlight_wii.NetCompat.{
  Sets, no_fds, Timeout, Handles, Net, to_net_fd, Collected, nothing_collected, collect, is_ready,
}

-- The events of an entry.
pub record Flags : Type 0 where
  pub pollin : Bool
  pub pollout : Bool
  pub pollerr : Bool
  pub pollhup : Bool

pub record PollFd : Type 0 where
  pub fd : ℤ
  pub events : Flags
  pub revents : Flags

-- (fds[i].fd < 0) ? -1 : to_net_fd(fds[i].fd)
unfoldable pub entry_fd : Handles → ℤ → ℤ
entry_fd handles (pos n) = to_net_fd handles (pos n)
entry_fd handles (negsuc n) = negsuc 0

-- The first loop.
unfoldable pub collect_polls : Handles → List PollFd → Collected → Collected
unfolding collect
collect_polls handles [] c = c
collect_polls handles (p ∷ ps) c = collect_polls handles ps (
    collect p.events.pollin p.events.pollout (p.events.pollerr || p.events.pollhup)
      (entry_fd handles p.fd) c)

-- A round of the second loop; `revents` was cleared in the first.
unfoldable pub answer : Handles → Sets → PollFd → PollFd
unfolding is_ready
answer handles s p =
    let nfd = entry_fd handles p.fd in
    record p {
      revents = record {
        pollin = is_ready s.r nfd;
        pollout = is_ready s.w nfd;
        pollerr = is_ready s.e nfd;
        pollhup = false;
      };
    }

-- What `poll` returns, the entries, and how long it slept by itself, in microseconds.
pub record Polled : Type 0 where
  pub code : ℤ
  pub fds : List PollFd
  pub slept : ℕ

unfoldable pub timeval : ℤ → Timeout
timeval (negsuc n) = none
timeval (pos ms) = some (ms / 1000, ms % 1000 * 1000)

unfoldable pub poll_wait : ℤ → ℕ
poll_wait (negsuc n) = 0
poll_wait (pos ms) = ms * 1000

unfoldable pub answer_all : Handles → List PollFd → ℤ → ℤ × Sets → Polled
unfolding answer poll_wait
answer_all handles fds timeout (pos n, s) = record {
  code = pos n;
  fds = map (answer handles s) fds;
  slept = 0;
}
answer_all handles fds timeout (negsuc n, s) = record {
  code = pos 0;
  fds = map (answer handles no_fds) fds;
  slept = poll_wait timeout;
}

unfoldable pub poll : Net → Handles → List PollFd → ℤ → Polled
unfolding collect_polls answer_all timeval
poll net handles fds timeout =
    let c = collect_polls handles fds nothing_collected in
    answer_all handles fds timeout (net.net_select (c.maxfd + 1) c.asked (timeval timeout))
