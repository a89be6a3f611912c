-- ===== src/Pairing/Trace.antt =====
-- The connections of the agent run side by side: their steps in any order, on one window and one store.
use game_streamer_agent.Base.{
  ℕ, ◌+◌, ◌%◌, ◌≡◌, ◌≤◌, refl, Bool, Bool-cases, inl, inr, true, false, ◌||◌, Option, none, some,
  List, [], ◌∷◌, by_test, ltb, leb, ◌==◌, if◌then◌else◌, arith, All,
}
use game_streamer_agent.Pairing.{
  Text, Scope, rank, min_scope, Peers, PairConfirm, PairingState, Exchange, opened, responded,
  ended, failed, Shared, begin, record_failure, armed, complete, poll, add_peer, get_peer, drop_pin,
  PairOutcome, PairingPoll, completed, expired, waiting, is_claimed, remove_peer, same_text,
  on_hello, on_confirm, granted, max_attempts,
}
use game_streamer_agent.Pairing.Window.{failures, failures-none_left}

-- What happens: the owner arms a window, a client's message arrives, the owner polls or revokes.
pub data Event : Type 0 where
  arm : ℕ → Text → Scope → Event
  hello : ℕ → (Text → Bool) → ℕ → Event
  confirm : ℕ → Bool → Bool → ℕ → PairConfirm → Event
  ask : ℕ → Event
  revoke : Text → Event

pub record World : Type 0 where
  pub shared : Shared
  pub conns : ℕ → Exchange

abbrev pub update : ℕ → Exchange → (ℕ → Exchange) → ℕ → Exchange
update id x conns n = if n == id then x else conns n

-- A second message on a connection that expects none changes nothing.
unfoldable pub on_second : ℕ → Bool → Bool → ℕ → PairConfirm → Exchange → World → World
unfolding on_confirm
on_second now verified finished id c (responded code authorized) w =
    let next = on_confirm now verified finished authorized c w.shared in
    record { shared = next.0; conns = update id next.1 w.conns }
on_second now verified finished id c _ w = w

unfoldable pub on_first : ℕ → (Text → Bool) → ℕ → Exchange → World → World
unfolding on_hello
on_first now respond id opened w = record w {
  conns = update id (on_hello now respond w.shared) w.conns;
}
on_first now respond id _ w = w

unfoldable pub step : Event → World → World
unfolding begin on_first on_second poll remove_peer
step (arm now code scope) w = record w {
  shared = record w.shared { state = begin now code scope w.shared.state };
}
step (hello now respond id) w = on_first now respond id (w.conns id) w
step (confirm now verified finished id c) w = on_second now verified finished id c (w.conns id) w
step (ask now) w = record w { shared = record w.shared { state = (poll now w.shared.state).0 } }
step (revoke pin) w = record w {
  shared = record w.shared { peers = (remove_peer pin w.shared.peers).0 };
}

unfoldable pub run : List Event → World → World
unfolding step
run [] w = w
run (e ∷ es) w = run es (step e w)

abbrev pub IsArmedWithin : ℕ → Event → Type 0
IsArmedWithin s (arm now code scope) = rank scope ≤ s
IsArmedWithin s (hello now respond id) = Unit
IsArmedWithin s (confirm now verified finished id c) = Unit
IsArmedWithin s (ask now) = Unit
IsArmedWithin s (revoke pin) = Unit

abbrev pub IsStateWithin : ℕ → PairingState → Type 0
IsStateWithin s none = Unit
IsStateWithin s (some p) = rank p.scope ≤ s

abbrev pub IsExchangeWithin : ℕ → Exchange → Type 0
IsExchangeWithin s (responded code authorized) = rank authorized ≤ s
IsExchangeWithin s opened = Unit
IsExchangeWithin s (ended name) = Unit
IsExchangeWithin s failed = Unit

abbrev pub IsPeersWithin : ℕ → Peers → Type 0
IsPeersWithin s peers = All (λ p. rank p.scope ≤ s) peers

-- No window, exchange or peer has more than the scope of rank `s`.
pub record IsWithin (s : ℕ) (w : World) : Type 0 where
  pub state : IsStateWithin s w.shared.state
  pub peers : IsPeersWithin s w.shared.peers
  pub conns : (id : ℕ) → IsExchangeWithin s (w.conns id)

rank_min : (a b : Scope) → rank (min_scope a b) ≤ rank b
rank_min a b = elim (Bool-cases (leb (rank a) (rank b))) [
  | inl z ↦ rw z (ground arith)
  | inr z ↦ rw z (omega arith)
]

drop_pin-Within :
    (s : ℕ) (pin : Text) (ps : Peers) → IsPeersWithin s ps → IsPeersWithin s (drop_pin pin ps)
unfolding drop_pin
drop_pin-Within s pin [] h = tt
drop_pin-Within s pin (p ∷ ps) h = elim (Bool-cases (same_text p.pin pin)) [
  | inl z ↦ rw z (drop_pin-Within s pin ps h.1)
  | inr z ↦ rw z (h.0, drop_pin-Within s pin ps h.1)
]

failure-Within :
    (s : ℕ) (st : PairingState) → IsStateWithin s st → IsStateWithin s (record_failure st).0
unfolding record_failure
failure-Within s none h = tt
failure-Within s (some p) h =
    elim (Bool-cases (leb max_attempts ((p.attempts + 1) % 0x1_0000_0000))) [
      | inl z ↦ rw z tt
      | inr z ↦ rw z h
    ]

update-Within :
    (s id : ℕ) (x : Exchange) (conns : ℕ → Exchange)
    → IsExchangeWithin s x
    → ((n : ℕ) → IsExchangeWithin s (conns n))
    → (n : ℕ) → IsExchangeWithin s (update id x conns n)
update-Within s id x conns hx h n = elim (Bool-cases (n == id)) [
  | inl z ↦ rw z hx
  | inr z ↦ rw z (h n)
]

poll-Within : (s now : ℕ) (st : PairingState) → IsStateWithin s st → IsStateWithin s (poll now st).0
unfolding poll
poll-Within s now none h = tt
poll-Within s now (some p) h =
    elim p.outcome
      as (λ o.
        IsStateWithin s
          (elim o as (λ _. PairingState × PairingPoll) [
            | none ↦ if ltb p.expires now then (none, expired) else (some p, waiting)
            | some outcome ↦ (none, completed outcome)
          ]).0) [
            | none ↦
                by_test (λ (r : PairingState × PairingPoll). IsStateWithin s r.0)
                  (ltb p.expires now) tt h
            | some o ↦ tt
          ]

found_Within :
    (s : ℕ) (respond : Text → Bool) (code : Text) (authorized : Scope)
    → rank authorized ≤ s
    → IsExchangeWithin s (if respond code then responded code authorized else failed)
found_Within s respond code authorized h = by_test (IsExchangeWithin s) (respond code) h tt

hello-Within :
    (s now : ℕ) (respond : Text → Bool) (st : PairingState) (peers : Peers)
    → IsStateWithin s st
    → IsExchangeWithin s (on_hello now respond (record { state = st; peers = peers }))
unfolding on_hello armed
hello-Within s now respond none peers h = tt
hello-Within s now respond (some p) peers h =
    by_test
      (λ (o : Option (Text × Scope)). IsExchangeWithin s (elim o as (λ _. Exchange) [
        | none ↦ ended none
        | some found ↦ if respond found.0 then responded found.0 found.1 else failed
      ]))
      (is_claimed p || ltb p.expires now) tt (found_Within s respond p.code p.scope h)

granted_Within :
    (s : ℕ) (authorized : Scope) (c : PairConfirm)
    → rank authorized ≤ s
    → rank (granted authorized c) ≤ s
granted_Within s authorized c h = omega (arith, rank_min c.requested_scope authorized)

complete-Within :
    (s : ℕ) (o : PairOutcome) (st : PairingState)
    → IsStateWithin s st
    → IsStateWithin s (complete o st)
unfolding complete
complete-Within s o none h = tt
complete-Within s o (some p) h = h

confirm-Within :
    (s now : ℕ) (verified finished : Bool) (authorized : Scope) (c : PairConfirm) (w : Shared)
    → rank authorized ≤ s
    → IsStateWithin s w.state
    → IsPeersWithin s w.peers
    → let next = on_confirm now verified finished authorized c w in
      IsStateWithin s next.0.state × IsPeersWithin s next.0.peers × IsExchangeWithin s next.1
unfolding on_confirm add_peer complete
confirm-Within s now false finished authorized c w h hs hp = (failure-Within s w.state hs, hp, tt)
confirm-Within s now true false authorized c w h hs hp =
    (hs, (granted_Within s authorized c h, drop_pin-Within s c.pin w.peers hp), tt)
confirm-Within s now true true authorized c w h hs hp = (
  complete-Within s _ w.state hs,
  (granted_Within s authorized c h, drop_pin-Within s c.pin w.peers hp),
  tt,
)

second-Within :
    (s now : ℕ) (verified finished : Bool) (id : ℕ) (c : PairConfirm) (x : Exchange) (w : World)
    → IsExchangeWithin s x
    → IsWithin s w
    → IsWithin s (on_second now verified finished id c x w)
unfolding on_second
second-Within s now verified finished id c (responded code authorized) w hx h =
    let (state, peers, next) =
      confirm-Within s now verified finished authorized c w.shared hx h.state h.peers in
    record { state = state; peers = peers; conns = update-Within s id _ w.conns next h.conns }
second-Within s now verified finished id c opened w hx h = h
second-Within s now verified finished id c (ended name) w hx h = h
second-Within s now verified finished id c failed w hx h = h

first-Within :
    (s now : ℕ) (respond : Text → Bool) (id : ℕ) (x : Exchange) (w : World)
    → IsWithin s w
    → IsWithin s (on_first now respond id x w)
unfolding on_first
first-Within s now respond id opened w h = record {
  state = h.state;
  peers = h.peers;
  conns =
      update-Within s id _ w.conns
        (hello-Within s now respond w.shared.state w.shared.peers h.state) h.conns;
}
first-Within s now respond id (responded code authorized) w h = h
first-Within s now respond id (ended name) w h = h
first-Within s now respond id failed w h = h

step-Within :
    (s : ℕ) (e : Event) (w : World) → IsArmedWithin s e → IsWithin s w → IsWithin s (step e w)
unfolding step begin remove_peer
step-Within s (arm now code scope) w a h = record { state = a; peers = h.peers; conns = h.conns }
step-Within s (hello now respond id) w a h = first-Within s now respond id (w.conns id) w h
step-Within s (confirm now verified finished id c) w a h =
    second-Within s now verified finished id c (w.conns id) w (h.conns id) h
step-Within s (ask now) w a h = record {
  state = poll-Within s now w.shared.state h.state;
  peers = h.peers;
  conns = h.conns;
}
step-Within s (revoke pin) w a h = record {
  state = h.state;
  peers = drop_pin-Within s pin w.shared.peers h.peers;
  conns = h.conns;
}

-- Whatever the clients ask for, in whatever order their messages come: from a state where no window,
-- exchange or stored peer has more than the scope of rank `s`, and when the owner arms windows of at
-- most that scope only, none of them ever has more.
pub run-Within :
    (s : ℕ) (es : List Event) (w : World)
    → All (IsArmedWithin s) es
    → IsWithin s w
    → IsWithin s (run es w)
unfolding run
run-Within s [] w a h = h
run-Within s (e ∷ es) w a h = run-Within s es (step e w) a.1 (step-Within s e w a.0 h)

pub same_text_refl : (t : Text) → same_text t t ≡ true
same_text_refl [] = refl
same_text_refl (x ∷ t) = ground (arith, same_text_refl t)

-- A client that got as far as the code exchange is paired by a correct confirmation even when the
-- window has been burned in between: five or more wrong codes close the window to later clients, but
-- not to exchanges that are under way.
pub burned_window-pairs :
    (n now later : ℕ) (code : Text) (scope authorized : Scope) (c : PairConfirm) (s : PairingState)
    (peers : Peers)
    → max_attempts ≤ n
    → let next =
        on_confirm later true true authorized c
          (record { state = failures n (begin now code scope s); peers = peers }) in
      (next.0.state ≡ none)
      × (get_peer c.pin next.0.peers
          ≡ some (record {
            name = c.name;
            pin = c.pin;
            scope = granted authorized c;
            paired_at = later;
          }))
unfolding on_confirm add_peer get_peer complete
burned_window-pairs n now later code scope authorized c s peers h =
    (rw (failures-none_left n now code scope s h) refl, rw (same_text_refl c.pin) refl)
