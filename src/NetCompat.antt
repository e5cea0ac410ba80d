-- ===== src/NetCompat.antt =====
-- src/wii/netcompat.c: select, poll, ioctl, fcntl, sendto and getaddrinfo on top of the network layer of
-- libogc, whose `net_*` functions know a socket by another number than its descriptor. That layer is
-- outside the program: its functions and constants are the record `Net`, and the table of open files is
-- an argument. A set of descriptors is a test on numbers.
pub mod Select
pub mod Reports
pub mod Poll
pub mod Polls
pub mod Address
mod Tests
use moonlight_wii.Prelude.{
  ℕ, zero, suc, ◌+◌, ◌*◌, ◌/◌, ◌%◌, Bool, true, false, ◌&&◌, ◌||◌, not, Option, none, some, List,
  [], ◌∷◌, if◌then◌else◌, ltb, leb, ◌==◌, take, drop, set,
}
use moonlight_wii.Prelude.Int.{ℤ, pos, negsuc, pos_part, neg_part}
use moonlight_wii.Prelude.Text.{Bytes, codes, str_eq}

abbrev pub FdSet : Type 0
FdSet = ℕ → Bool

abbrev pub fd_zero : FdSet
fd_zero fd = false

abbrev pub fd_set : ℕ → FdSet → FdSet
fd_set fd s i = i == fd || s i

abbrev pub fd_clr : ℕ → FdSet → FdSet
fd_clr fd s i = not (i == fd) && s i

-- The read, write and exception sets of a call.
pub record Sets : Type 0 where
  pub r : FdSet
  pub w : FdSet
  pub e : FdSet

abbrev pub no_fds : Sets
no_fds = record { r = fd_zero; w = fd_zero; e = fd_zero }

-- `struct timeval` in whole numbers; none for NULL.
abbrev pub Timeout : Type 0
Timeout = Option (ℕ × ℕ)

-- An entry of the table of open files: the name of its device, and the number in its `fileStruct`.
pub record Handle : Type 0 where
  pub device : Bytes
  pub index : ℤ

abbrev pub Handles : Type 0
Handles = ℤ → Option Handle

-- What of libogc and of the C library's headers is used.
pub record Net : Type 0 where
  pub net_select : ℕ → Sets → Timeout → ℤ × Sets
  pub net_send : ℕ → Bytes → ℤ → ℤ
  pub net_sendto : ℕ → Bytes → ℤ → Bytes → ℤ
  pub net_ioctl : ℕ → ℤ → ℤ
  pub inet_aton : Bytes → Option ℕ
  pub gethostbyname : Bytes → Option ℕ
  pub atoi : Bytes → ℤ
  pub af_inet : ℕ
  pub af_unspec : ℕ
  pub sock_stream : ℕ
  pub enotsock : ℤ
  pub einval : ℤ
  pub enosys : ℤ

unfoldable pub index_of : Option Handle → ℤ
index_of none = negsuc 0
index_of (some h) = if str_eq h.device (codes "soc") then h.index else negsuc 0

unfoldable pub to_net_fd : Handles → ℤ → ℤ
unfolding index_of
to_net_fd handles fd = index_of (handles fd)

-- What a first loop has collected.
pub record Collected : Type 0 where
  pub asked : Sets
  pub maxfd : ℕ

abbrev pub nothing_collected : Collected
nothing_collected = record { asked = no_fds; maxfd = 0 }

abbrev pub add_if : Bool → ℕ → FdSet → FdSet
add_if b fd s = if b then fd_set fd s else s

-- if (nfd < 0) continue; the flags say for which sets the socket is wanted.
unfoldable pub collect : Bool → Bool → Bool → ℤ → Collected → Collected
collect r w e (negsuc n) c = c
collect r w e (pos nfd) c = record {
  asked = record {
    r = add_if r nfd c.asked.r;
    w = add_if w nfd c.asked.w;
    e = add_if e nfd c.asked.e;
  };
  maxfd = if ltb c.maxfd nfd then nfd else c.maxfd;
}

-- The first loop of `select` after `n` rounds.
unfoldable pub translate : Handles → Sets → ℕ → Collected
unfolding collect
translate handles s zero = nothing_collected
translate handles s (suc fd) =
    collect (s.r fd) (s.w fd) (s.e fd) (to_net_fd handles (pos fd)) (translate handles s fd)

-- nfd >= 0 && FD_ISSET(nfd, s)
unfoldable pub is_ready : FdSet → ℤ → Bool
is_ready s (pos nfd) = s nfd
is_ready s (negsuc n) = false

-- One of the loops behind the call, after `n` rounds.
unfoldable pub report : Handles → FdSet → FdSet → ℕ → FdSet
unfolding is_ready
report handles ready out zero = out
report handles ready out (suc fd) =
    let before = report handles ready out fd in
    if is_ready ready (to_net_fd handles (pos fd)) then fd_set fd before else fd_clr fd before

-- The sets a caller passes: none for NULL.
pub record Asked : Type 0 where
  pub readfds : Option FdSet
  pub writefds : Option FdSet
  pub exceptfds : Option FdSet

abbrev pub or_empty : Option FdSet → FdSet
or_empty none = fd_zero
or_empty (some s) = s

abbrev pub report_to : Handles → FdSet → ℕ → Option FdSet → Option FdSet
report_to handles ready nfds none = none
report_to handles ready nfds (some s) = some (report handles ready s nfds)

-- The milliseconds of a timeout, as a wait in microseconds.
unfoldable pub wait_out : Timeout → ℕ
wait_out none = 0
wait_out (some (sec, usec)) = (sec * 1000 + usec / 1000) * 1000

-- What a call returns, what it leaves in its arguments, and how long it slept by itself.
pub record Selected : Type 0 where
  pub code : ℤ
  pub sets : Asked
  pub slept : ℕ

unfoldable pub report_all : Handles → ℕ → Asked → ℤ × Sets → Timeout → Selected
unfolding report wait_out
report_all handles nfds a (pos n, s) timeout = record {
  code = pos n;
  sets = record {
    readfds = report_to handles s.r nfds a.readfds;
    writefds = report_to handles s.w nfds a.writefds;
    exceptfds = report_to handles s.e nfds a.exceptfds;
  };
  slept = 0;
}
report_all handles nfds a (negsuc n, s) timeout = record {
  code = pos 0;
  sets = record {
    readfds = report_to handles fd_zero nfds a.readfds;
    writefds = report_to handles fd_zero nfds a.writefds;
    exceptfds = report_to handles fd_zero nfds a.exceptfds;
  };
  slept = wait_out timeout;
}

unfoldable pub select : Net → Handles → ℕ → Asked → Timeout → Selected
unfolding translate report_all
select net handles nfds a timeout =
    let s : Sets = record {
      r = or_empty a.readfds;
      w = or_empty a.writefds;
      e = or_empty a.exceptfds;
    } in
    let c = translate handles s nfds in
    report_all handles nfds a (net.net_select (c.maxfd + 1) c.asked timeout) timeout
