-- ===== src/NetCompat/Polls/Collecting.antt =====
-- src/wii/netcompat.c: the sets of sockets that `poll` hands to `select`.
use moonlight_wii.Prelude.{
  ℕ, ◌≤◌, ◌≡◌, refl, ap, ◌∙◌, Bool, true, false, ◌&&◌, ◌||◌, List, [], ◌∷◌, arith, ◌==◌,
}
use moonlight_wii.Prelude.Int.{ℤ, pos, negsuc}
use moonlight_wii.NetCompat.{FdSet, Handles, Collected, collect}
use moonlight_wii.NetCompat.Select.{add_from, grown, collect_lem, grown_ge, grown_own}
use moonlight_wii.NetCompat.Poll.{PollFd, entry_fd, collect_polls}

-- The reference: whether some entry asks the socket `i` for what `wish` says.
abbrev names : ℤ → ℕ → Bool
names (pos n) i = i == n
names (negsuc n) i = false

abbrev pub wanted : (PollFd → Bool) → Handles → List PollFd → FdSet
wanted wish handles [] i = false
wanted wish handles (p ∷ ps) i =
    names (entry_fd handles p.fd) i && wish p || wanted wish handles ps i

abbrev pub for_input : PollFd → Bool
for_input p = p.events.pollin

abbrev pub for_output : PollFd → Bool
for_output p = p.events.pollout

abbrev pub for_errors : PollFd → Bool
for_errors p = p.events.pollerr || p.events.pollhup

add_from_lem :
    (nfd : ℤ) (b : Bool) (s : FdSet) (i : ℕ) → add_from nfd b s i ≡ (names nfd i && b || s i)
unfolding add_from
add_from_lem (pos n) true s i = ground arith
add_from_lem (pos n) false s i = ground arith
add_from_lem (negsuc n) b s i = refl

pub or_false : (b : Bool) → b || false ≡ b
or_false true = refl
or_false false = refl

or_shuffle : (x y z : Bool) → (x || (y || z)) ≡ (y || x || z)
or_shuffle true true z = refl
or_shuffle true false z = refl
or_shuffle false true z = refl
or_shuffle false false z = refl

module _ (handles : Handles) where
  -- The first loop on one of the sets.
  pub one_polls : (PollFd → Bool) → List PollFd → FdSet → FdSet
  one_polls wish [] s = s
  one_polls wish (p ∷ ps) s = one_polls wish ps (add_from (entry_fd handles p.fd) (wish p) s)

  pub one_polls_lem :
      (wish : PollFd → Bool) (ps : List PollFd) (s : FdSet) (i : ℕ)
      → one_polls wish ps s i ≡ (wanted wish handles ps i || s i)
  unfolding one_polls
  one_polls_lem wish [] s i = refl
  one_polls_lem wish (p ∷ ps) s i =
      one_polls_lem wish ps (add_from (entry_fd handles p.fd) (wish p) s) i
      ∙ ap (λ b. wanted wish handles ps i || b) (add_from_lem (entry_fd handles p.fd) (wish p) s i)
      ∙ or_shuffle (wanted wish handles ps i) (names (entry_fd handles p.fd) i && wish p) (s i)

  collected : PollFd → Collected → Collected
  collected p c =
      collect p.events.pollin p.events.pollout (p.events.pollerr || p.events.pollhup)
        (entry_fd handles p.fd) c

  collected_lem :
      (p : PollFd) (c : Collected)
      → collected p c ≡ record {
        asked = record {
          r = add_from (entry_fd handles p.fd) (for_input p) c.asked.r;
          w = add_from (entry_fd handles p.fd) (for_output p) c.asked.w;
          e = add_from (entry_fd handles p.fd) (for_errors p) c.asked.e;
        };
        maxfd = grown (entry_fd handles p.fd) c.maxfd;
      }
  unfolding collected
  collected_lem p c =
      collect_lem p.events.pollin p.events.pollout (p.events.pollerr || p.events.pollhup)
        (entry_fd handles p.fd) c

  pub collect_polls_asked :
      (ps : List PollFd) (c : Collected)
      → (collect_polls handles ps c).asked ≡ record {
        r = one_polls for_input ps c.asked.r;
        w = one_polls for_output ps c.asked.w;
        e = one_polls for_errors ps c.asked.e;
      }
  unfolding collect_polls one_polls collected
  collect_polls_asked [] c = refl
  collect_polls_asked (p ∷ ps) c =
      ap (λ c. (collect_polls handles ps c).asked) (collected_lem p c)
      ∙ collect_polls_asked ps (record {
        asked = record {
          r = add_from (entry_fd handles p.fd) (for_input p) c.asked.r;
          w = add_from (entry_fd handles p.fd) (for_output p) c.asked.w;
          e = add_from (entry_fd handles p.fd) (for_errors p) c.asked.e;
        };
        maxfd = grown (entry_fd handles p.fd) c.maxfd;
      })

  -- Every entry's socket is at most `m`.
  abbrev pub AtMost : ℕ → List PollFd → Type 0
  AtMost m [] = Unit
  AtMost m (p ∷ ps) = ((i : ℕ) → entry_fd handles p.fd ≡ pos i → i ≤ m) × AtMost m ps

  pub maxfd_lem :
      (ps : List PollFd) (c : Collected)
      → (c.maxfd ≤ (collect_polls handles ps c).maxfd)
        × AtMost (collect_polls handles ps c).maxfd ps
  unfolding collect_polls collected
  maxfd_lem [] c = (omega arith, tt)
  maxfd_lem (p ∷ ps) c =
      let step : (collected p c).maxfd ≡ grown (entry_fd handles p.fd) c.maxfd =
        ap (λ c. c.maxfd) (collected_lem p c) in
      let (le, rest) = maxfd_lem ps (collected p c) in
      (
        omega (arith, step, grown_ge handles (entry_fd handles p.fd) c.maxfd),
        (
          (λ i e. omega (arith, step, ap (λ k. grown k c.maxfd) e, grown_own handles i c.maxfd)),
          rest,
        ),
      )
