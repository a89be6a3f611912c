-- ===== src/Bwe/Probe/Tickets.antt =====
-- The clusters that the probing controller of crates/session/src/bwe/probe/control.rs numbers, as a
-- dispenser of tickets: a counter and a queue of the numbers issued.
use game_streamer_agent.Base.{
  ℕ, zero, suc, ◌+◌, ◌%◌, ◌≡◌, ◌≤◌, refl, ap, ap₂, ◌∙◌, sym, subst, Bool, true, false, not, ◌&&◌,
  Option, none, some, List, [], ◌∷◌, ◌++◌, map, by_test, ltb, arith,
}
use game_streamer_agent.Bwe.Rates.{Float64, kbps, decimal_times}
use game_streamer_agent.Bwe.Probe.{
  ProbeKind, ProbeClusterConfig, ProbeControl, Epochs, queue_probe, new_cluster, request_immediate,
}
use game_streamer_agent.Bwe.Probe.Attempts.{track_drop}
use game_streamer_agent.Bwe.Probe.Control.{
  handle_timeout, when_known, take_pending, consider, probe_now, attempt, schedule, give_first,
  may_probe, update_progress, raise_mark, compute_next_timeout,
}
use game_streamer_agent.Bwe.Probe.Inputs.{
  enable, set_desired_bitrate, set_estimated_bitrate, set_alr_start_time, set_alr_stop_time,
  on_probe_outcome,
}
use game_streamer_agent.Bwe.Probe.Kept.{IsKept, attempt-kept}
use game_streamer_agent.Bwe.Probe.Trace.{
  Event, enabled_as, desired_as, estimated_as, alr_started, alr_stopped, timed_out, probed, step,
  run, run_nil, run_cons, cons_some,
}

abbrev pub Tickets : Type 0
Tickets = ℕ × List ℕ

-- The number after a number, of 64 bits.
abbrev pub after : ℕ → ℕ
after n = (n + 1) % 0x1_0000_0000_0000_0000

-- What a dispenser may do at a call, from one state to another, with the numbers that it serves: drop
-- its queue when it is switched off; at a timeout serve the front of its queue, or, only when that is
-- empty, issue one number or two and serve the first.
pub data Move {F : Type 0} : Event F → Tickets → List ℕ → Tickets → Type 0 where
  stay : {e : Event F} {a : Tickets} → Move e a [] a
  flush : {n : ℕ} {q : List ℕ} → Move (enabled_as false) (n, q) [] (n, [])
  serve : {now n t : ℕ} {q : List ℕ} → Move (timed_out now) (n, t ∷ q) (t ∷ []) (n, q)
  issue_one : {now n : ℕ} → Move (timed_out now) (n, []) (n ∷ []) (after n, [])
  issue_two : {now n : ℕ} → Move (timed_out now) (n, []) (n ∷ []) (after (after n), after n ∷ [])

-- One move for each call, and the numbers served by all of them in order.
pub data Dispense {F : Type 0} : List (Event F) → Tickets → List ℕ → Tickets → Type 0 where
  closed : {a : Tickets} → Dispense [] a [] a
  moved :
      {e : Event F} {es : List (Event F)} {a b c : Tickets} {out later : List ℕ}
      → Move e a out b
      → Dispense es b later c
      → Dispense (e ∷ es) a (out ++ later) c

abbrev pub numbers : {F : Type 0} → List (ProbeClusterConfig F) → List ℕ
numbers = map (λ c. c.cluster)

abbrev pub tickets : {F : Type 0} → ProbeControl F → Tickets
tickets s = (s.next_cluster_id, numbers s.pending)

numbers-append :
    {F : Type 0} (cs : List (ProbeClusterConfig F)) (c : ProbeClusterConfig F)
    → numbers (cs ++ (c ∷ [])) ≡ numbers cs ++ (c.cluster ∷ [])
numbers-append [] c = refl
numbers-append (d ∷ cs) c = ap (λ l. d.cluster ∷ l) (numbers-append cs c)

-- `k` numbers, each the one after the last, and the number after them.
abbrev counted : ℕ → ℕ → List ℕ
counted n zero = []
counted n (suc k) = n ∷ counted (after n) k

abbrev after_all : ℕ → ℕ → ℕ
after_all n zero = n
after_all n (suc k) = after_all (after n) k

counted_snoc : (n k : ℕ) → counted n k ++ (after_all n k ∷ []) ≡ counted n (suc k)
counted_snoc n zero = refl
counted_snoc n (suc k) = ap (λ l. n ∷ l) (counted_snoc (after n) k)

after_all-suc : (n k : ℕ) → after_all n (suc k) ≡ after (after_all n k)
after_all-suc n zero = refl
after_all-suc n (suc k) = after_all-suc (after n) k

-- From the number `n` on at most two are issued, of which `left` may still be.
abbrev IsIssued : {F : Type 0} → ℕ → ℕ → ProbeControl F → Type 0
IsIssued n left s = (k : ℕ) × (k + left ≤ 2) × (tickets s ≡ (after_all n k, counted n k))

module _ {F : Type 0} ⦃fl : Float64 F⦄ where
  queue_probe-IsIssued :
      (n left : ℕ) (rate : F) (kind : ProbeKind) (desired : F) (now : ℕ) (s : ProbeControl F)
      → IsIssued n (suc left) s
      → IsIssued n left (queue_probe rate kind desired now s)
  unfolding queue_probe new_cluster
  queue_probe-IsIssued n left rate kind desired now s (k, few, e) =
      by_test (λ (s' : ProbeControl F). IsIssued n left s')
        (fl.below (fl.min_of rate (decimal_times desired 2 1)) (kbps 5)) (k, omega arith, e)
        (
          suc k,
          omega arith,
          ap₂ (λ m q. (m, q)) (ap (λ a. after a.0) e ∙ sym (after_all-suc n k))
              (numbers-append s.pending _ ∙ ap (λ a. a.1 ++ (a.0 ∷ [])) e ∙ counted_snoc n k),
        )

  attempt-IsIssued :
      (now : ℕ) (desired estimate : F) (s : ProbeControl F)
      → s.pending ≡ []
      → IsIssued s.next_cluster_id 0 (attempt now desired estimate s).0
  attempt-IsIssued now desired estimate s e =
      let n = s.next_cluster_id in
      let keep : IsKept now desired (IsIssued n) = record {
        queued = λ left rate kind s i. queue_probe-IsIssued n left rate kind desired now s i;
        spared = λ left s (k, few, e). (k, omega arith, e);
        noted = λ left s i. i;
        undropped = λ left s i. i;
        stalled = λ left s i. i;
      } in
      attempt-kept now desired estimate keep s (0, omega arith, ap (λ q. (n, numbers q)) e)

  tickets-schedule :
      (now : ℕ) (estimate : F) (s : ProbeControl F) → tickets (schedule now estimate s) ≡ tickets s
  unfolding schedule update_progress raise_mark compute_next_timeout
  tickets-schedule now estimate s = ground arith

  tickets-track_drop :
      (now : ℕ) (estimate : F) (s : ProbeControl F)
      → (track_drop now estimate s).next_cluster_id ≡ s.next_cluster_id
        × ((track_drop now estimate s).pending ≡ s.pending)
  unfolding track_drop
  tickets-track_drop now estimate s = ground arith

module _ {F : Type 0} where
  -- The dispenser's move serves what is given, if anything.
  abbrev Served : Event F → Tickets → ProbeControl F × Option (ProbeClusterConfig F) → Type 0
  Served e a r = Move e a (numbers (cons_some r.1 [])) (tickets r.0)

  -- A call that gives nothing, and leaves a state with the same tickets.
  nothing_given :
      (e : Event F) (s s' : ProbeControl F)
      → tickets s' ≡ tickets s
      → Served e (tickets s) (s', none)
  nothing_given e s s' same = subst (Move e (tickets s) []) (sym same) stay

  moved_to :
      {e : Event F} {a b b' : Tickets} {out out' : List ℕ}
      → out' ≡ out
      → b' ≡ b
      → Move e a out b
      → Move e a out' b'
  moved_to {e = e} {a = a} {b' = b'} o t m =
      subst (λ out. Move e a out b') (sym o) (subst (Move e a _) (sym t) m)

and_false : (b : Bool) → (b && false) ≡ false
and_false true = refl
and_false false = refl

module _ {F : Type 0} ⦃fl : Float64 F⦄ (ep : Epochs) where
  give_first-Served :
      (now n k : ℕ) (pending : List (ProbeClusterConfig F)) (s : ProbeControl F)
      → k + 0 ≤ 2
      → ◌≡◌ {A = Tickets} (s.next_cluster_id, numbers pending) (after_all n k, counted n k)
      → s.pending ≡ pending
      → Served (timed_out now) (n, []) (give_first ep pending s)
  unfolding give_first request_immediate
  give_first-Served now n zero [] s few e p =
      moved_to refl (ap (λ q. (s.next_cluster_id, numbers q)) p ∙ e) stay
  give_first-Served now n (suc k) [] s few e p = absurd cc
  give_first-Served now n zero (c ∷ cs) s few e p = absurd cc
  give_first-Served now n (suc zero) (c ∷ cs) s few e p =
      moved_to {F = F} {b = (after n, [])} {b' = (s.next_cluster_id, numbers cs)} {out = n ∷ []}
        {out' = c.cluster ∷ []} (cc) (cc) issue_one
  give_first-Served now n (suc (suc zero)) (c ∷ cs) s few e p =
      moved_to {F = F} {b = (after (after n), after n ∷ [])} {b' = (s.next_cluster_id, numbers cs)}
        {out = n ∷ []} {out' = c.cluster ∷ []} (cc) (cc) issue_two
  give_first-Served now n (suc (suc (suc k))) (c ∷ cs) s few e p = absurd (omega arith)

  probe_now-Served :
      (now : ℕ) (desired estimate : F) (s : ProbeControl F)
      → s.pending ≡ []
      → Served (timed_out now) (s.next_cluster_id, []) (probe_now ep now desired estimate s)
  unfolding probe_now
  probe_now-Served now desired estimate s empty =
      let tried = (attempt now desired estimate s).0 in
      let (k, few, e) = attempt-IsIssued now desired estimate s empty in
      let next = schedule now estimate tried in
      give_first-Served now s.next_cluster_id k next.pending next few
        (tickets-schedule now estimate tried ∙ e) refl

  consider-Served :
      (now : ℕ) (desired estimate : F) (s : ProbeControl F)
      → s.pending ≡ []
      → Served (timed_out now) (tickets s) (consider ep now desired estimate s)
  unfolding consider
  consider-Served now desired estimate s empty =
      let tracked = track_drop now estimate s in
      let (counter, queue) = tickets-track_drop now estimate s in
      let start : tickets s ≡ (tracked.next_cluster_id, []) =
        ap₂ (λ n q. (n, q)) (sym counter) (ap numbers empty) in
      by_test (Served (timed_out now) (tickets s)) (may_probe now estimate tracked)
        (subst (λ a. Served (timed_out now) a (probe_now ep now desired estimate tracked))
          (sym start) (probe_now-Served now desired estimate tracked (queue ∙ empty)))
        (nothing_given (timed_out now) s tracked (ap₂ (λ n q. (n, numbers q)) counter queue))

  take_pending-Served :
      (now : ℕ) (desired estimate : F) (pending : List (ProbeClusterConfig F)) (s : ProbeControl F)
      → s.pending ≡ pending
      → Served (timed_out now) (tickets s) (take_pending ep now desired estimate pending s)
  unfolding take_pending give_first request_immediate
  take_pending-Served now desired estimate [] s e = consider-Served now desired estimate s e
  take_pending-Served now desired estimate (c ∷ cs) s e =
      subst
        (λ q.
          Move {F = F} (timed_out now) (s.next_cluster_id, numbers q) (c.cluster ∷ [])
            (s.next_cluster_id, numbers cs))
        (sym e) serve

  when_known-Served :
      (now : ℕ) (desired? estimate? : Option F) (s : ProbeControl F)
      → Served (timed_out now) (tickets s) (when_known ep now desired? estimate? s)
  unfolding when_known
  when_known-Served now none estimate? s = stay
  when_known-Served now (some desired) none s = stay
  when_known-Served now (some desired) (some estimate) s =
      take_pending-Served now desired estimate s.pending s refl

  handle_timeout-Served :
      (now : ℕ) (s : ProbeControl F) → Served (timed_out now) (tickets s) (handle_timeout ep now s)
  unfolding handle_timeout
  handle_timeout-Served now s =
      let waiting = record s { next_timeout = ep.not_happening } in
      by_test (Served (timed_out now) (tickets s)) (ltb now s.next_timeout) stay (
        by_test (Served (timed_out now) (tickets s)) (not s.enabled) stay
          (when_known-Served now s.desired_bitrate s.last_estimate waiting))

  enable-Served :
      (v : Bool) (s : ProbeControl F) → Served (enabled_as v) (tickets s) (enable ep v s, none)
  unfolding enable request_immediate
  enable-Served true s =
      let Q : ProbeControl F → Type 0 = λ s'. Served (enabled_as true) (tickets s) (s', none) in
      rw (and_false s.enabled, enable) (by_test Q (not s.enabled && true) stay stay)
  enable-Served false s =
      let Q : ProbeControl F → Type 0 = λ s'. Served (enabled_as false) (tickets s) (s', none) in
      by_test Q (not s.enabled && false) stay (by_test Q (s.enabled && true) flush stay)

  -- Every call is one of the dispenser's moves.
  step-Served : (e : Event F) (s : ProbeControl F) → Served e (tickets s) (step ep e s)
  unfolding step set_desired_bitrate set_estimated_bitrate set_alr_start_time set_alr_stop_time
      on_probe_outcome request_immediate
  step-Served (enabled_as v) s = enable-Served v s
  step-Served (desired_as v) s = nothing_given _ s (set_desired_bitrate ep v s) (ground arith)
  step-Served (estimated_as v cause) s =
      nothing_given _ s (set_estimated_bitrate ep v cause s) (ground arith)
  step-Served (alr_started t) s = nothing_given _ s (set_alr_start_time ep t s) (ground arith)
  step-Served (alr_stopped t) s = nothing_given _ s (set_alr_stop_time ep t s) (ground arith)
  step-Served (timed_out now) s = handle_timeout-Served now s
  step-Served (probed measured target overusing) s =
      nothing_given _ s (on_probe_outcome measured target overusing s) (ground arith)

  numbers_cons :
      (c : Option (ProbeClusterConfig F)) (cs : List (ProbeClusterConfig F))
      → numbers (cons_some c []) ++ numbers cs ≡ numbers (cons_some c cs)
  numbers_cons none cs = refl
  numbers_cons (some c) cs = refl

  -- The numbers of the probes refine the dispenser: whatever is called, in any state, each call is one
  -- of its moves, the probes that are given have the numbers that it serves, in that order, and the
  -- counter and the queue are where it ends. So a number is issued only at a timeout that finds the
  -- queue empty, two at most, each the one after the last, and only the front of the queue is given.
  pub run-Dispense :
      (es : List (Event F)) (s : ProbeControl F)
      → Dispense es (tickets s) (numbers (run ep es s).1) (tickets (run ep es s).0)
  run-Dispense [] s =
      subst (λ r. Dispense {F = F} [] (tickets s) (numbers r.1) (tickets r.0)) (sym (run_nil ep s))
        closed
  run-Dispense (e ∷ es) s =
      let r = step ep e s in
      subst (λ r. Dispense {F = F} (e ∷ es) (tickets s) (numbers r.1) (tickets r.0))
        (sym (run_cons ep e es s refl))
        (subst (λ o. Dispense {F = F} (e ∷ es) (tickets s) o (tickets (run ep es r.0).0))
          (numbers_cons r.1 (run ep es r.0).1) (moved (step-Served e s) (run-Dispense es r.0)))
