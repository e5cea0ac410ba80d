-- ===== src/NetCompat/Polls.antt =====
-- `poll` against the documented behaviour of the network layer.
use moonlight_wii.Prelude.{
  ℕ, ◌+◌, ◌≤◌, ◌≡◌, refl, ap, ap₂, sym, ◌∙◌, Bool, true, false, ◌&&◌, ◌||◌, Option, none, some,
  List, [], ◌∷◌, map, arith, ◌==◌,
}
use moonlight_wii.Prelude.Int.{ℤ, pos, negsuc}
use moonlight_wii.NetCompat.{
  FdSet, fd_zero, Sets, no_fds, Handles, Net, Collected, nothing_collected, collect, is_ready,
}
use moonlight_wii.NetCompat.Select.{add_from, grown, collect_lem, grown_ge, grown_own}
use moonlight_wii.NetCompat.Reports.{Answers, Filtered, ready_sets, and_false}
use moonlight_wii.NetCompat.Poll.{
  PollFd, entry_fd, collect_polls, answer, answer_all, timeval, poll,
}
pub mod Collecting
unfoldable pub use Collecting.*

is_ready_eq :
    (nfd : ℤ) (f g : FdSet) → ((i : ℕ) → nfd ≡ pos i → f i ≡ g i) → is_ready f nfd ≡ is_ready g nfd
unfolding is_ready
is_ready_eq (pos i) f g h = h i refl
is_ready_eq (negsuc i) f g h = refl

module _ (handles : Handles) where
  -- The answer to an entry by the sockets that are ready, of those that some entry asks for.
  abbrev pub answered : List PollFd → Sets → PollFd → PollFd
  answered fds ready p =
      let nfd = entry_fd handles p.fd in
      record p {
        revents = record {
          pollin = is_ready (λ i. wanted for_input handles fds i && ready.r i) nfd;
          pollout = is_ready (λ i. wanted for_output handles fds i && ready.w i) nfd;
          pollerr = is_ready (λ i. wanted for_errors handles fds i && ready.e i) nfd;
          pollhup = false;
        };
      }

  same_answer :
      (p : PollFd) (a a' b b' c c' : Bool)
      → a ≡ a'
      → b ≡ b'
      → c ≡ c'
      → ◌≡◌ {A = PollFd}
          (record p { revents = record { pollin = a; pollout = b; pollerr = c; pollhup = false } })
          (record p {
            revents = record { pollin = a'; pollout = b'; pollerr = c'; pollhup = false };
          })
  same_answer p a a' b b' c c' e f g = cc

  answers_lem :
      (fds : List PollFd) (ready out : Sets) (m : ℕ)
      → Filtered (m + 1) (wanted for_input handles fds) ready.r out.r
      → Filtered (m + 1) (wanted for_output handles fds) ready.w out.w
      → Filtered (m + 1) (wanted for_errors handles fds) ready.e out.e
      → (ps : List PollFd) → AtMost handles m ps
      → map (answer handles out) ps ≡ map (answered fds ready) ps
  unfolding answer
  answers_lem fds ready out m r w e [] b = refl
  answers_lem fds ready out m r w e (p ∷ ps) b =
      ap₂ ◌∷◌
        (same_answer p _ _ _ _ _ _
          (is_ready_eq (entry_fd handles p.fd) _ _ (λ i q. r i (omega (arith, b.0 i q))))
          (is_ready_eq (entry_fd handles p.fd) _ _ (λ i q. w i (omega (arith, b.0 i q))))
          (is_ready_eq (entry_fd handles p.fd) _ _ (λ i q. e i (omega (arith, b.0 i q)))))
        (answers_lem fds ready out m r w e ps b.1)

  answer_all-pos :
      (fds : List PollFd) (t : ℤ) (out : ℤ × Sets) (n : ℕ)
      → out.0 ≡ pos n
      → (answer_all handles fds t out).fds ≡ map (answer handles out.1) fds
  unfolding answer_all
  answer_all-pos fds t (pos m, s) n e = refl
  answer_all-pos fds t (negsuc m, s) n e = absurd (cc)

  answer_all-negsuc :
      (fds : List PollFd) (t : ℤ) (out : ℤ × Sets) (n : ℕ)
      → out.0 ≡ negsuc n
      → (answer_all handles fds t out).fds ≡ map (answer handles no_fds) fds
  unfolding answer_all
  answer_all-negsuc fds t (pos m, s) n e = absurd (cc)
  answer_all-negsuc fds t (negsuc m, s) n e = refl

  asked_lem :
      (wish : PollFd → Bool) (fds : List PollFd) (asked : FdSet) (i : ℕ)
      → asked ≡ one_polls handles wish fds fd_zero
      → asked i ≡ wanted wish handles fds i
  asked_lem wish fds asked i e =
      ap (λ (s : FdSet). s i) e
      ∙ one_polls_lem handles wish fds fd_zero i
      ∙ or_false (wanted wish handles fds i)

  -- Every entry that is not a socket is answered with no event; every other one with the events that its
  -- socket is ready for, of those that any of the entries asks of that socket: also with events that this
  -- entry did not ask for. Where the network layer fails, no entry has an event.
  pub poll-answered :
      (net : Net) (o : Option Sets)
      → Answers net o
      → (fds : List PollFd) (timeout : ℤ)
      → (poll net handles fds timeout).fds ≡ map (answered fds (ready_sets o)) fds
  unfolding poll
  poll-answered net none answers fds timeout =
      let c = collect_polls handles fds nothing_collected in
      let (n, failed) = answers (c.maxfd + 1) c.asked (timeval timeout) in
      answer_all-negsuc fds timeout (net.net_select (c.maxfd + 1) c.asked (timeval timeout)) n
        failed
      ∙ answers_lem fds no_fds no_fds c.maxfd
          (λ i _. sym (and_false (wanted for_input handles fds i)))
          (λ i _. sym (and_false (wanted for_output handles fds i)))
          (λ i _. sym (and_false (wanted for_errors handles fds i))) fds
          (maxfd_lem handles fds nothing_collected).1
  poll-answered net (some ready) answers fds timeout =
      let c = collect_polls handles fds nothing_collected in
      let asked = collect_polls_asked handles fds nothing_collected in
      let (n, counted, r, w, e) = answers (c.maxfd + 1) c.asked (timeval timeout) in
      let out = net.net_select (c.maxfd + 1) c.asked (timeval timeout) in
      answer_all-pos fds timeout out n counted
      ∙ answers_lem fds ready out.1 c.maxfd
          (λ i h.
            r i h
            ∙ ap (λ b. b && ready.r i) (asked_lem for_input fds c.asked.r i (ap (λ s. s.r) asked)))
          (λ i h.
            w i h
            ∙ ap (λ b. b && ready.w i) (asked_lem for_output fds c.asked.w i (ap (λ s. s.w) asked)))
          (λ i h.
            e i h
            ∙ ap (λ b. b && ready.e i) (asked_lem for_errors fds c.asked.e i (ap (λ s. s.e) asked)))
          fds (maxfd_lem handles fds nothing_collected).1
