-- ===== src/NetCompat/Tests.antt =====
-- Runs of `select` and `poll`, and the theorems at a concrete table of open files.
use moonlight_wii.Prelude.{
  ℕ, ◌≡◌, refl, true, false, ◌&&◌, ◌||◌, Option, none, some, List, [], ◌∷◌, map, arith,
  if◌then◌else◌, ◌==◌,
}
use moonlight_wii.Prelude.Int.{ℤ, pos, negsuc}
use moonlight_wii.Prelude.Text.{codes, str_eq}
use moonlight_wii.NetCompat.{
  FdSet, fd_zero, Sets, Handle, Handles, Net, to_net_fd, Asked, or_empty, select,
}
use moonlight_wii.NetCompat.Select.{IsInjective}
use moonlight_wii.NetCompat.Reports.{Answers, Reports, select-Reports}
use moonlight_wii.NetCompat.Poll.{Flags, PollFd, entry_fd, poll}
use moonlight_wii.NetCompat.Polls.{answered, poll-answered}
use moonlight_wii.NetCompat.Address.{resolved, netcompat_sendto, getaddrinfo}

-- Of the sockets 0 and 1, which are the descriptors 3 and 4, only 1 can be read from.
abbrev readable : Sets
readable = record { r = λ i. i == 1; w = fd_zero; e = fd_zero }

abbrev net : Net
net = record {
  net_select = λ nfds s t. (
    pos 1,
    record { r = λ i. s.r i && i == 1; w = λ i. s.w i && false; e = λ i. s.e i && false },
  );
  net_send = λ nfd buf flags. pos 0;
  net_sendto = λ nfd buf flags address. negsuc 21;
  net_ioctl = λ nfd on. pos 0;
  inet_aton = λ node. if str_eq node (codes "10.0.0.2") then some 167772162 else none;
  gethostbyname = λ node. none;
  atoi = λ service. negsuc 0;
  af_inet = 2;
  af_unspec = 0;
  sock_stream = 1;
  enotsock = pos 108;
  einval = pos 22;
  enosys = pos 88;
}

net-Answers : Answers net (some readable)
net-Answers nfds s t = (1, refl, (λ i h. refl), (λ i h. refl), (λ i h. refl))

abbrev socket : ℤ → Option Handle
socket n = some (record { device = codes "soc"; index = n })

abbrev open_files : Handles
open_files (pos n) =
    if n == 3
    then socket (pos 0)
    else if n == 4
    then socket (pos 1)
    else if n == 1
    then some (record { device = codes "stdnull"; index = pos 1 })
    else none
open_files (negsuc n) = none

open_files-IsInjective : IsInjective open_files
unfolding to_net_fd str_eq
open_files-IsInjective a b n p q = ground arith

-- Descriptors 1, 3 and 4 are asked about.
abbrev three : FdSet
three i = i == 1 || (i == 3 || i == 4)

abbrev asked : Asked
asked = record { readfds = some three; writefds = some three; exceptfds = none }

select-Reports_example :
    Reports net open_files open_files-IsInjective
      (some readable)
      4
      asked
      (select net open_files 5 asked none).sets
select-Reports_example =
    select-Reports net open_files open_files-IsInjective (some readable) net-Answers 5 4 asked none
      (omega arith)

select_readable : or_empty (select net open_files 5 asked none).sets.readfds 4 ≡ true
unfolding select to_net_fd str_eq
select_readable = refl

select_not_ready : or_empty (select net open_files 5 asked none).sets.readfds 3 ≡ false
unfolding select to_net_fd str_eq
select_not_ready = refl

select_no_socket : or_empty (select net open_files 5 asked none).sets.readfds 1 ≡ false
unfolding select to_net_fd str_eq
select_no_socket = refl

abbrev no_events : Flags
no_events = record { pollin = false; pollout = false; pollerr = false; pollhup = false }

abbrev reads : ℕ → PollFd
reads n = record { fd = pos n; events = record no_events { pollin = true }; revents = no_events }

-- The second entry asks for nothing, and is answered for the first one's socket.
abbrev entries : List PollFd
entries = reads 4 ∷ record (reads 4) { events = no_events } ∷ reads 3 ∷ reads 7 ∷ []

poll_shared :
    map (λ p. p.revents.pollin) (poll net open_files entries (pos 20)).fds
    ≡ true ∷ true ∷ false ∷ false ∷ []
unfolding poll to_net_fd str_eq entry_fd
poll_shared = refl

poll-answered_example :
    (poll net open_files entries (pos 20)).fds ≡ map (answered open_files entries readable) entries
poll-answered_example = poll-answered open_files net (some readable) net-Answers entries (pos 20)

sendto_error :
    netcompat_sendto net open_files (pos 3) [] (pos 0) (some (codes "0123456789abcdef")) (pos 16)
    ≡ (negsuc 0, some (pos 22))
unfolding netcompat_sendto to_net_fd str_eq
sendto_error = refl

getaddrinfo_literal :
    getaddrinfo net true (some (codes "10.0.0.2")) (some (codes "-1")) none
    ≡ resolved (record { family = 2; socktype = 1; address = 167772162; port = 65535 })
unfolding getaddrinfo str_eq
getaddrinfo_literal = refl
