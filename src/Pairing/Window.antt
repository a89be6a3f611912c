-- ===== src/Pairing/Window.antt =====
-- The pairing window by itself: how it opens, burns and is consumed.
use game_streamer_agent.Base.{
  ℕ, zero, suc, ◌+◌, ◌≡◌, ◌≤◌, ◌<◌, refl, Bool, Bool-cases, inl, inr, true, false, none, some, ltb,
  if◌then◌else◌, arith,
}
use game_streamer_agent.Pairing.{
  Text, Scope, PairOutcome, PairingPoll, idle, waiting, expired, completed, Pending, PairingState,
  window, max_attempts, begin, record_failure, armed, complete, poll,
}

armed-none : (now : ℕ) → armed now none ≡ none
unfolding armed
armed-none now = refl

-- `n` wrong codes, one after another.
abbrev pub failures : ℕ → PairingState → PairingState
failures zero s = s
failures (suc n) s = failures n (record_failure s).0

failures-none : (n : ℕ) → failures n none ≡ none
unfolding record_failure
failures-none zero = refl
failures-none (suc n) = failures-none n

still_open : (now later : ℕ) → later ≤ now + window → ltb (now + window) later ≡ false
still_open now later h = ground arith

-- A window tolerates four wrong codes: it stays open, under its code and its scope, until it expires.
pub failures-tolerated :
    (n now later : ℕ) (code : Text) (scope : Scope) (s : PairingState)
    → n < max_attempts
    → later ≤ now + window
    → armed later (failures n (begin now code scope s)) ≡ some (code, scope)
unfolding record_failure begin armed
failures-tolerated zero now later code scope s h t = rw (still_open now later t) refl
failures-tolerated (suc zero) now later code scope s h t = rw (still_open now later t) refl
failures-tolerated (suc (suc zero)) now later code scope s h t = rw (still_open now later t) refl
failures-tolerated (suc (suc (suc zero))) now later code scope s h t =
    rw (still_open now later t) refl
failures-tolerated (suc (suc (suc (suc zero)))) now later code scope s h t =
    rw (still_open now later t) refl
failures-tolerated (suc (suc (suc (suc (suc n))))) now later code scope s h t = absurd (omega arith)

pub failures-none_left :
    (n now : ℕ) (code : Text) (scope : Scope) (s : PairingState)
    → max_attempts ≤ n
    → failures n (begin now code scope s) ≡ none
unfolding record_failure begin
failures-none_left zero now code scope s h = absurd (omega arith)
failures-none_left (suc zero) now code scope s h = absurd (omega arith)
failures-none_left (suc (suc zero)) now code scope s h = absurd (omega arith)
failures-none_left (suc (suc (suc zero))) now code scope s h = absurd (omega arith)
failures-none_left (suc (suc (suc (suc zero)))) now code scope s h = absurd (omega arith)
failures-none_left (suc (suc (suc (suc (suc n))))) now code scope s h = failures-none n

-- It is the fifth wrong code that burns a window, no earlier one and for good: after `n` wrong codes,
-- and before its time is over, the window is open under its code and its scope if `n` is below 5, and
-- closed otherwise.
pub failures-burn :
    (n now later : ℕ) (code : Text) (scope : Scope) (s : PairingState)
    → later ≤ now + window
    → armed later (failures n (begin now code scope s))
      ≡ (if ltb n 5 then some (code, scope) else none)
failures-burn n now later code scope s t = elim (Bool-cases (ltb n 5)) [
  | inl few ↦ rw few (failures-tolerated n now later code scope s (ground arith) t)
  | inr many ↦ rw (many, failures-none_left n now code scope s (ground arith)) (armed-none later)
]

abbrev pub is_waiting : PairingPoll → Bool
is_waiting waiting = true
is_waiting idle = false
is_waiting expired = false
is_waiting (completed o) = false

abbrev pub is_open : PairingState → ℕ → Bool
is_open s now = elim (armed now s) [ none ↦ false | some a ↦ true ]

-- At any instant a client finds the window open exactly when a poll would say that it waits.
pub armed-poll : (now : ℕ) (s : PairingState) → is_open s now ≡ is_waiting (poll now s).1
unfolding armed poll
armed-poll now none = refl
armed-poll now (some p) = ground arith

-- A poll that says `waiting` leaves the window as it is, and after any other there is none: whenever
-- the next poll comes, it finds what it would have found without the first one, or nothing.
pub poll-consumes :
    (now later : ℕ) (s : PairingState)
    → ((poll now s).0 ≡ (if is_waiting (poll now s).1 then s else none))
      × (poll later (poll now s).0
          ≡ (if is_waiting (poll now s).1 then poll later s else (none, idle)))
unfolding poll
poll-consumes now later none = (refl, refl)
poll-consumes now later (some p) = ground arith

-- What completes an open window is what the next poll reports, once.
pub poll-complete :
    (now : ℕ) (o : PairOutcome) (p : Pending) → poll now (complete o (some p)) ≡ (none, completed o)
unfolding poll complete
poll-complete now o p = refl
