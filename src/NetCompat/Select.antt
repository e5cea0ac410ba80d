-- ===== src/NetCompat/Select.antt =====
-- What `select` reports, descriptor by descriptor.
use moonlight_wii.Prelude.{
  ℕ, zero, suc, ◌≤◌, ◌<◌, ◌≡◌, ◌≢◌, inl, inr, refl, ap, sym, ◌∙◌, Bool, true, false, arith,
  if◌then◌else◌, ltb, ◌==◌, ==_iff, Bool-cases,
}
use native.Mathlib.Decide.{dec_lt}
use moonlight_wii.Prelude.Int.{ℤ, pos, negsuc}
use moonlight_wii.NetCompat.{
  FdSet, fd_zero, fd_set, fd_clr, Sets, Handles, to_net_fd, Collected, add_if, collect, translate,
  is_ready, report,
}

-- No two descriptors are the same socket.
abbrev pub IsInjective : Handles → Type 0
IsInjective handles =
    (a b n : ℕ) → to_net_fd handles (pos a) ≡ pos n → to_net_fd handles (pos b) ≡ pos n → a ≡ b

-- The first loop on one of the sets.
unfoldable pub add_from : ℤ → Bool → FdSet → FdSet
add_from (pos nfd) b s = add_if b nfd s
add_from (negsuc n) b s = s

pub one_set : Handles → FdSet → ℕ → FdSet
unfolding add_from
one_set handles s zero = fd_zero
one_set handles s (suc fd) = add_from (to_net_fd handles (pos fd)) (s fd) (one_set handles s fd)

unfoldable pub grown : ℤ → ℕ → ℕ
grown (pos nfd) m = if ltb m nfd then nfd else m
grown (negsuc n) m = m

pub collect_lem :
    (r w e : Bool) (nfd : ℤ) (c : Collected)
    → collect r w e nfd c ≡ record {
      asked = record {
        r = add_from nfd r c.asked.r;
        w = add_from nfd w c.asked.w;
        e = add_from nfd e c.asked.e;
      };
      maxfd = grown nfd c.maxfd;
    }
unfolding collect add_from grown
collect_lem r w e (pos n) c = refl
collect_lem r w e (negsuc n) c = refl

module _ (handles : Handles) where
  pub translate-r : (s : Sets) (n : ℕ) → (translate handles s n).asked.r ≡ one_set handles s.r n
  unfolding translate one_set
  translate-r s zero = refl
  translate-r s (suc fd) =
      ap (λ c. c.asked.r) (collect_lem (s.r fd) (s.w fd) (s.e fd) _ (translate handles s fd))
      ∙ ap (add_from (to_net_fd handles (pos fd)) (s.r fd)) (translate-r s fd)

  pub translate-w : (s : Sets) (n : ℕ) → (translate handles s n).asked.w ≡ one_set handles s.w n
  unfolding translate one_set
  translate-w s zero = refl
  translate-w s (suc fd) =
      ap (λ c. c.asked.w) (collect_lem (s.r fd) (s.w fd) (s.e fd) _ (translate handles s fd))
      ∙ ap (add_from (to_net_fd handles (pos fd)) (s.w fd)) (translate-w s fd)

  pub translate-e : (s : Sets) (n : ℕ) → (translate handles s n).asked.e ≡ one_set handles s.e n
  unfolding translate one_set
  translate-e s zero = refl
  translate-e s (suc fd) =
      ap (λ c. c.asked.e) (collect_lem (s.r fd) (s.w fd) (s.e fd) _ (translate handles s fd))
      ∙ ap (add_from (to_net_fd handles (pos fd)) (s.e fd)) (translate-e s fd)

  pub grown_ge : (nfd : ℤ) (m : ℕ) → m ≤ grown nfd m
  unfolding grown
  grown_ge (pos n) m = ground arith
  grown_ge (negsuc n) m = omega arith

  pub grown_own : (n m : ℕ) → n ≤ grown (pos n) m
  unfolding grown
  grown_own n m = ground arith

  -- The number given to `net_select` is past every socket that was looked at.
  pub maxfd-le :
      (s : Sets) (n fd i : ℕ)
      → fd < n
      → to_net_fd handles (pos fd) ≡ pos i
      → i ≤ (translate handles s n).maxfd
  unfolding translate
  maxfd-le s zero fd i h e = elim h [ ]
  maxfd-le s (suc n) fd i h e =
      let m = (translate handles s n).maxfd in
      let step : (translate handles s (suc n)).maxfd ≡ grown (to_net_fd handles (pos n)) m =
        ap (λ c. c.maxfd) (collect_lem (s.r n) (s.w n) (s.e n) _ (translate handles s n)) in
      elim (dec_lt fd n) [
        | yes lt ↦
            omega (arith, step, maxfd-le s n fd i lt e, grown_ge (to_net_fd handles (pos n)) m)
        | no ge ↦
            let same : fd ≡ n = omega arith in
            let own : to_net_fd handles (pos n) ≡ pos i =
              ap (λ k. to_net_fd handles (pos k)) (sym same) ∙ e in
            omega (arith, step, ap (λ k. grown k m) own, grown_own i m)
      ]

  add_from_ne : (nfd : ℤ) (b : Bool) (s : FdSet) (i : ℕ) → nfd ≢ pos i → add_from nfd b s i ≡ s i
  unfolding add_from
  add_from_ne (pos n) true s i h = elim (Bool-cases (i == n)) [
    | inl q ↦ absurd (h (ap pos (sym ((==_iff i n).0 q))))
    | inr q ↦ rw q refl
  ]
  add_from_ne (pos n) false s i h = refl
  add_from_ne (negsuc n) b s i h = refl

  add_from_eq : (b : Bool) (s : FdSet) (i : ℕ) → s i ≡ false → add_from (pos i) b s i ≡ b
  unfolding add_from
  add_from_eq true s i h = ground arith
  add_from_eq false s i h = h

  -- A socket of which no descriptor was looked at is not asked for.
  one_set_none :
      (s : FdSet) (n i : ℕ)
      → ((fd : ℕ) → fd < n → to_net_fd handles (pos fd) ≢ pos i)
      → one_set handles s n i ≡ false
  unfolding one_set
  one_set_none s zero i h = refl
  one_set_none s (suc n) i h =
      add_from_ne (to_net_fd handles (pos n)) (s n) (one_set handles s n) i (h n (omega arith))
      ∙ one_set_none s n i (λ fd lt. h fd (omega arith))

  pub one_set-own :
      IsInjective handles
      → (s : FdSet) (n fd i : ℕ) → fd < n
      → to_net_fd handles (pos fd) ≡ pos i
      → one_set handles s n i ≡ s fd
  unfolding one_set
  one_set-own inj s zero fd i h e = elim h [ ]
  one_set-own inj s (suc n) fd i h e = elim (dec_lt fd n) [
    | yes lt ↦
        add_from_ne (to_net_fd handles (pos n)) (s n) (one_set handles s n) i
          (λ own. omega (arith, inj fd n i e own))
        ∙ one_set-own inj s n fd i lt e
    | no ge ↦
        let same : fd ≡ n = omega arith in
        let own : to_net_fd handles (pos n) ≡ pos i =
          ap (λ k. to_net_fd handles (pos k)) (sym same) ∙ e in
        ap (λ k. add_from k (s n) (one_set handles s n) i) own
        ∙ add_from_eq (s n) (one_set handles s n) i
            (one_set_none s n i (λ k lt other. omega (arith, inj k n i other own)))
        ∙ ap s (sym same)
  ]

  report_last : (b : Bool) (s : FdSet) (n : ℕ) → (if b then fd_set n s else fd_clr n s) n ≡ b
  report_last true s n = ground arith
  report_last false s n = ground arith

  report_before :
      (b : Bool) (s : FdSet) (n fd : ℕ) → fd < n → (if b then fd_set n s else fd_clr n s) fd ≡ s fd
  report_before true s n fd h = ground arith
  report_before false s n fd h = ground arith

  -- Every descriptor that the loop reaches is set or cleared by what its socket says.
  pub report_lem :
      (ready out : FdSet) (n fd : ℕ)
      → fd < n
      → report handles ready out n fd ≡ is_ready ready (to_net_fd handles (pos fd))
  unfolding report
  report_lem ready out zero fd h = elim h [ ]
  report_lem ready out (suc n) fd h = elim (dec_lt fd n) [
    | yes lt ↦
        report_before (is_ready ready (to_net_fd handles (pos n))) (report handles ready out n) n fd
          lt
        ∙ report_lem ready out n fd lt
    | no ge ↦
        let same : fd ≡ n = omega arith in
        rw same
          (report_last (is_ready ready (to_net_fd handles (pos n))) (report handles ready out n) n)
  ]
