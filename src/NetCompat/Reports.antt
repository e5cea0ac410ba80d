-- ===== src/NetCompat/Reports.antt =====
-- `select` against the documented behaviour of the network layer: the descriptors a caller asked about
-- whose sockets are ready, and none where the layer fails.
use moonlight_wii.Prelude.{
  ℕ, ◌+◌, ◌<◌, ◌≡◌, refl, ap, sym, ◌∙◌, Bool, true, false, ◌&&◌, Option, none, some, arith,
}
use moonlight_wii.Prelude.Int.{ℤ, pos, negsuc}
use moonlight_wii.NetCompat.{
  FdSet, Sets, no_fds, Timeout, Handles, Net, to_net_fd, translate, is_ready, Asked, or_empty,
  report_to, wait_out, report_all, select,
}
use moonlight_wii.NetCompat.Select.{
  IsInjective, one_set, translate-r, translate-w, translate-e, maxfd-le, one_set-own, report_lem,
}

-- The sockets that are ready; none where every call fails.
abbrev pub ready_sets : Option Sets → Sets
ready_sets none = no_fds
ready_sets (some s) = s

abbrev pub Filtered : ℕ → FdSet → FdSet → FdSet → Type 0
Filtered nfds asked ready out = (i : ℕ) → i < nfds → out i ≡ asked i && ready i

-- `net_select` fails, or gives a count and leaves, of the sockets asked for below its first argument, those
-- that are ready.
abbrev pub Answers : Net → Option Sets → Type 0
Answers net none =
    (nfds : ℕ) (s : Sets) (t : Timeout) → (n : ℕ) × ((net.net_select nfds s t).0 ≡ negsuc n)
Answers net (some ready) =
    (nfds : ℕ) (s : Sets) (t : Timeout)
    → (n : ℕ) × ((net.net_select nfds s t).0 ≡ pos n)
      × Filtered nfds s.r ready.r (net.net_select nfds s t).1.r
      × Filtered nfds s.w ready.w (net.net_select nfds s t).1.w
      × Filtered nfds s.e ready.e (net.net_select nfds s t).1.e

pub and_false : (b : Bool) → b && false ≡ false
and_false true = refl
and_false false = refl

own_socket :
    (nfd : ℤ) (out asked ready : FdSet) (b : Bool)
    → ((i : ℕ) → nfd ≡ pos i → out i ≡ asked i && ready i)
    → ((i : ℕ) → nfd ≡ pos i → asked i ≡ b)
    → is_ready out nfd ≡ b && is_ready ready nfd
unfolding is_ready
own_socket (pos i) out asked ready b h k = h i refl ∙ ap (λ c. c && ready i) (k i refl)
own_socket (negsuc i) out asked ready b h k = sym (and_false b)

abbrev sets_of : Handles → ℕ → Asked → Sets → Asked
sets_of handles nfds a s = record {
  readfds = report_to handles s.r nfds a.readfds;
  writefds = report_to handles s.w nfds a.writefds;
  exceptfds = report_to handles s.e nfds a.exceptfds;
}

report_all-pos :
    (handles : Handles) (nfds : ℕ) (a : Asked) (out : ℤ × Sets) (t : Timeout) (n : ℕ)
    → out.0 ≡ pos n
    → (report_all handles nfds a out t).sets ≡ sets_of handles nfds a out.1
unfolding report_all
report_all-pos handles nfds a (pos m, s) t n e = refl
report_all-pos handles nfds a (negsuc m, s) t n e = absurd (cc)

report_all-negsuc :
    (handles : Handles) (nfds : ℕ) (a : Asked) (out : ℤ × Sets) (t : Timeout) (n : ℕ)
    → out.0 ≡ negsuc n
    → report_all handles nfds a out t
      ≡ record { code = pos 0; sets = sets_of handles nfds a no_fds; slept = wait_out t }
unfolding report_all
report_all-negsuc handles nfds a (pos m, s) t n e = absurd (cc)
report_all-negsuc handles nfds a (negsuc m, s) t n e = refl

module _ (net : Net) (handles : Handles) (injective : IsInjective handles) where
  -- One of the three sets.
  reported :
      (asked : Option FdSet) (given out ready : FdSet) (nfds bound fd : ℕ)
      → fd < nfds
      → given ≡ one_set handles (or_empty asked) nfds
      → ((i : ℕ) → to_net_fd handles (pos fd) ≡ pos i → i < bound)
      → Filtered bound given ready out
      → or_empty (report_to handles out nfds asked) fd
        ≡ or_empty asked fd && is_ready ready (to_net_fd handles (pos fd))
  reported none given out ready nfds bound fd h g b f = refl
  reported (some s) given out ready nfds bound fd h g b f =
      report_lem handles out s nfds fd h
      ∙ own_socket (to_net_fd handles (pos fd)) out given ready (s fd) (λ i e. f i (b i e))
          (λ i e. ap (λ (c : FdSet). c i) g ∙ one_set-own handles injective s nfds fd i h e)

  abbrev pub Reports : Option Sets → ℕ → Asked → Asked → Type 0
  Reports o fd a out =
      (or_empty out.readfds fd
        ≡ or_empty a.readfds fd && is_ready (ready_sets o).r (to_net_fd handles (pos fd)))
      × (or_empty out.writefds fd
          ≡ or_empty a.writefds fd && is_ready (ready_sets o).w (to_net_fd handles (pos fd)))
      × (or_empty out.exceptfds fd
          ≡ or_empty a.exceptfds fd && is_ready (ready_sets o).e (to_net_fd handles (pos fd)))

  reported_all :
      (o : Option Sets) (nfds fd : ℕ) (a : Asked) (s : Sets)
      → fd < nfds
      → let given =
          translate handles
            (record { r = or_empty a.readfds; w = or_empty a.writefds; e = or_empty a.exceptfds })
            nfds in
        Filtered (given.maxfd + 1) given.asked.r (ready_sets o).r s.r
        → Filtered (given.maxfd + 1) given.asked.w (ready_sets o).w s.w
        → Filtered (given.maxfd + 1) given.asked.e (ready_sets o).e s.e
        → Reports o fd a (sets_of handles nfds a s)
  reported_all o nfds fd a s h fr fw fe =
      let sets : Sets = record {
        r = or_empty a.readfds;
        w = or_empty a.writefds;
        e = or_empty a.exceptfds;
      } in
      let given = translate handles sets nfds in
      let bound : (i : ℕ) → to_net_fd handles (pos fd) ≡ pos i → i < given.maxfd + 1 =
        λ i e. omega (arith, maxfd-le handles sets nfds fd i h e) in
      (
        reported a.readfds given.asked.r s.r (ready_sets o).r nfds (given.maxfd + 1) fd h
            (translate-r handles sets nfds) bound fr,
        reported a.writefds given.asked.w s.w (ready_sets o).w nfds (given.maxfd + 1) fd h
            (translate-w handles sets nfds) bound fw,
        reported a.exceptfds given.asked.e s.e (ready_sets o).e nfds (given.maxfd + 1) fd h
            (translate-e handles sets nfds) bound fe,
      )

  -- What `select` reports of a descriptor below `nfds`: that it is set in a set means that the caller
  -- asked about it there, that it is a socket, and that the network layer has that socket ready; where the
  -- layer fails, nothing is reported. Provided that no two descriptors are the same socket.
  pub select-Reports :
      (o : Option Sets)
      → Answers net o
      → (nfds fd : ℕ) (a : Asked) (t : Timeout) → fd < nfds
      → Reports o fd a (select net handles nfds a t).sets
  unfolding select
  select-Reports none answers nfds fd a t h =
      let sets : Sets = record {
        r = or_empty a.readfds;
        w = or_empty a.writefds;
        e = or_empty a.exceptfds;
      } in
      let given = translate handles sets nfds in
      let (n, failed) = answers (given.maxfd + 1) given.asked t in
      rw
        (report_all-negsuc handles nfds a (net.net_select (given.maxfd + 1) given.asked t) t n
          failed)
        (reported_all none nfds fd a no_fds h (λ i _. sym (and_false (given.asked.r i)))
          (λ i _. sym (and_false (given.asked.w i))) (λ i _. sym (and_false (given.asked.e i))))
  select-Reports (some ready) answers nfds fd a t h =
      let sets : Sets = record {
        r = or_empty a.readfds;
        w = or_empty a.writefds;
        e = or_empty a.exceptfds;
      } in
      let given = translate handles sets nfds in
      let (n, counted, fr, fw, fe) = answers (given.maxfd + 1) given.asked t in
      rw
        (report_all-pos handles nfds a (net.net_select (given.maxfd + 1) given.asked t) t n counted)
        (reported_all (some ready) nfds fd a (net.net_select (given.maxfd + 1) given.asked t).1 h fr
          fw fe)

  -- Where the network layer fails, `select` waits for the timeout and returns 0, as if it had run out; nothing
  -- is left set of the descriptors below `nfds`.
  pub select-failed :
      Answers net none
      → (nfds : ℕ) (a : Asked) (t : Timeout)
      → ((select net handles nfds a t).code ≡ pos 0)
        × ((select net handles nfds a t).slept ≡ wait_out t)
  unfolding select
  select-failed answers nfds a t =
      let given =
        translate handles
          (record { r = or_empty a.readfds; w = or_empty a.writefds; e = or_empty a.exceptfds })
          nfds in
      let (n, failed) = answers (given.maxfd + 1) given.asked t in
      let all =
        report_all-negsuc handles nfds a (net.net_select (given.maxfd + 1) given.asked t) t n
          failed in
      (ap (λ s. s.code) all, ap (λ s. s.slept) all)
