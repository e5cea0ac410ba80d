-- ===== src/NetCompat/Address.antt =====
-- src/wii/netcompat.c: `netcompat_sendto`, `ioctl`, `fcntl` and `getaddrinfo`.
use moonlight_wii.Prelude.{
  ℕ, suc, ◌-◌, ◌||◌, ◌%◌, Bool, true, Option, none, some, if◌then◌else◌, ◌==◌, take, set,
}
use moonlight_wii.Prelude.Int.{ℤ, pos, negsuc, ltb_ℤ}
use moonlight_wii.Prelude.Text.{Bytes}
use moonlight_wii.NetCompat.{Handles, Net, to_net_fd}

-- What a call returns, and the value that it stores in `errno`, if any.
abbrev pub Returned : Type 0
Returned = ℤ × Option ℤ

-- ret < 0 puts -ret into `errno`.
unfoldable pub checked : ℤ → Returned
checked (pos n) = (pos n, none)
checked (negsuc n) = (negsuc 0, some (pos (suc n)))

-- The address as the network layer wants it: eight bytes, of which the first two are the length and the
-- family.
unfoldable pub wii_address : Net → Bytes → Bytes
wii_address net dest = set (set (take 8 dest) 0 8) 1 net.af_inet

unfoldable pub send_from : Net → ℤ → Bytes → ℤ → Option Bytes → ℤ → Returned
unfolding checked wii_address
send_from net (negsuc n) buf flags dest addrlen = (negsuc 0, some net.enotsock)
send_from net (pos nfd) buf flags none addrlen = (net.net_send nfd buf flags, none)
send_from net (pos nfd) buf flags (some dest) addrlen =
    if ltb_ℤ addrlen (pos 8)
    then (negsuc 0, some net.einval)
    else checked (net.net_sendto nfd buf flags (wii_address net dest))

unfoldable pub netcompat_sendto : Net → Handles → ℤ → Bytes → ℤ → Option Bytes → ℤ → Returned
unfolding send_from
netcompat_sendto net handles sockfd buf flags dest addrlen =
    send_from net (to_net_fd handles sockfd) buf flags dest addrlen

-- The requests that are told apart; the flag of F_SETFL is O_NONBLOCK.
pub data Request : Type 0 where
  fionbio : ℤ → Request
  other_request : Request

pub data Command : Type 0 where
  setfl : Bool → Command
  getfl : Command
  other_command : Command

unfoldable pub set_blocking : Net → ℤ → ℤ → Returned
set_blocking net (negsuc n) on = (negsuc 0, some net.enotsock)
set_blocking net (pos nfd) on = (net.net_ioctl nfd on, none)

unfoldable pub ioctl : Net → Handles → ℤ → Request → Returned
unfolding set_blocking
ioctl net handles fd (fionbio argp) = set_blocking net (to_net_fd handles fd) argp
ioctl net handles fd other_request = (negsuc 0, some net.enosys)

unfoldable pub fcntl : Net → Handles → ℤ → Command → Returned
unfolding set_blocking
fcntl net handles fd (setfl nonblock) =
    set_blocking net (to_net_fd handles fd) (if nonblock then pos 1 else pos 0)
fcntl net handles fd getfl = (pos 0, none)
fcntl net handles fd other_command = (negsuc 0, some net.enosys)

-- The fields of `struct addrinfo` that are used.
pub record AddrInfo : Type 0 where
  pub family : ℕ
  pub socktype : ℕ
  pub address : ℕ
  pub port : ℕ

-- EAI_NONAME, EAI_ADDRFAMILY, EAI_MEMORY, and 0 with what `*res` is set to.
pub data Resolution : Type 0 where
  eai_noname : Resolution
  eai_addrfamily : Resolution
  eai_memory : Resolution
  resolved : AddrInfo → Resolution

-- (unsigned short) n
unfoldable pub to_u16 : ℤ → ℕ
to_u16 (pos n) = n % 65536
to_u16 (negsuc n) = 65535 - n % 65536

unfoldable pub port_of : Net → Option Bytes → ℕ
unfolding to_u16
port_of net none = 0
port_of net (some service) = to_u16 (net.atoi service)

-- The family and the type that the hints ask for.
abbrev pub Hints : Type 0
Hints = Option (ℕ × ℕ)

unfoldable pub family_fits : Net → Hints → Bool
family_fits net none = true
family_fits net (some (family, socktype)) = family == net.af_unspec || family == net.af_inet

unfoldable pub socktype_of : Net → Hints → ℕ
socktype_of net none = net.sock_stream
socktype_of net (some (family, socktype)) = if socktype == 0 then net.sock_stream else socktype

-- An IP literal, or else what the name server says.
unfoldable pub lookup_host : Net → Bytes → Option ℕ
lookup_host net node = elim (net.inet_aton node) [
  | some address ↦ some address
  | none ↦ net.gethostbyname node
]

-- `memory` says that both of the blocks are given.
unfoldable pub make_info : Net → Bool → Option Bytes → Hints → Option ℕ → Resolution
unfolding port_of socktype_of
make_info net memory service hints none = eai_noname
make_info net memory service hints (some address) =
    if memory
    then resolved (record {
      family = net.af_inet;
      socktype = socktype_of net hints;
      address = address;
      port = port_of net service;
    })
    else eai_memory

unfoldable pub getaddrinfo : Net → Bool → Option Bytes → Option Bytes → Hints → Resolution
unfolding family_fits lookup_host make_info
getaddrinfo net memory none service hints = eai_noname
getaddrinfo net memory (some node) service hints =
    if family_fits net hints
    then make_info net memory service hints (lookup_host net node)
    else eai_addrfamily
