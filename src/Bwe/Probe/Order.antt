-- ===== src/Bwe/Probe/Order.antt =====
-- The order of the probes of crates/session/src/bwe/probe/control.rs, from the dispenser of their
-- numbers.
use game_streamer_agent.Base.{
  ℕ, ◌+◌, ◌*◌, ◌≡◌, ◌≤◌, ◌<◌, sym, subst, List, [], ◌∷◌, ◌++◌, length, arith,
}
use mathlib.Core.List.{append_assoc}
use game_streamer_agent.Bwe.Rates.{Float64}
use game_streamer_agent.Bwe.Probe.{Epochs, default_control}
use game_streamer_agent.Bwe.Probe.Tickets.{
  Tickets, Move, stay, flush, serve, issue_one, issue_two, Dispense, closed, moved, after, numbers,
  run-Dispense,
}
use game_streamer_agent.Bwe.Probe.Trace.{Event, run}

-- Each number is greater than the one before it, and all are from `lo` to below `hi`.
abbrev pub IsRising : ℕ → ℕ → List ℕ → Type 0
IsRising lo hi [] = lo ≤ hi
IsRising lo hi (x ∷ xs) = (lo ≤ x) × IsRising (x + 1) hi xs

IsRising-le : (lo hi : ℕ) (xs : List ℕ) → IsRising lo hi xs → lo ≤ hi
IsRising-le lo hi [] h = h
IsRising-le lo hi (x ∷ xs) (a, h) = let b = IsRising-le (x + 1) hi xs h in omega arith

after_lt : (n : ℕ) → n + 1 < 0x1_0000_0000_0000_0000 → after n ≡ n + 1
after_lt n h = omega arith

-- What one move serves and leaves is rising; the counter grows by two at most.
Move-IsRising :
    {F : Type 0} (e : Event F) (lo : ℕ) {a b : Tickets} {out : List ℕ}
    → Move e a out b
    → IsRising lo a.0 a.1
    → a.0 + 2 < 0x1_0000_0000_0000_0000
    → IsRising lo b.0 (out ++ b.1) × (b.0 ≤ a.0 + 2)
Move-IsRising e lo stay h small = (h, omega arith)
Move-IsRising e lo (flush {n = n} {q = q}) h small = (IsRising-le lo n q h, omega arith)
Move-IsRising e lo serve h small = (h, omega arith)
Move-IsRising e lo (issue_one {n = n}) h small =
    let next = after_lt n (omega arith) in ((h, omega arith), omega arith)
Move-IsRising e lo (issue_two {n = n}) h small =
    let next = after_lt n (omega arith) in let last = after_lt (n + 1) (omega arith) in ground arith

IsRising-join :
    (lo mid hi : ℕ) (xs ys : List ℕ)
    → IsRising lo mid xs
    → IsRising mid hi ys
    → IsRising lo hi (xs ++ ys)
IsRising-join lo mid hi [] ys h k = lower lo mid hi ys h k
  where
    lower : (lo mid hi : ℕ) (ys : List ℕ) → lo ≤ mid → IsRising mid hi ys → IsRising lo hi ys
    lower lo mid hi [] h k = omega arith
    lower lo mid hi (y ∷ ys) h (a, k) = (omega arith, k)
IsRising-join lo mid hi (x ∷ xs) ys (a, h) k = (a, IsRising-join (x + 1) mid hi xs ys h k)

-- Where the second part starts.
IsRising-split :
    (lo hi : ℕ) (xs ys : List ℕ)
    → IsRising lo hi (xs ++ ys)
    → (mid : ℕ) × IsRising lo mid xs × IsRising mid hi ys
IsRising-split lo hi [] ys h = (lo, omega arith, h)
IsRising-split lo hi (x ∷ xs) ys (a, h) =
    let (mid, first, second) = IsRising-split (x + 1) hi xs ys h in (mid, (a, first), second)

Dispense-IsRising :
    {F : Type 0} {es : List (Event F)} (lo : ℕ) {a b : Tickets} {out : List ℕ}
    → Dispense es a out b
    → IsRising lo a.0 a.1
    → a.0 + 2 * length es < 0x1_0000_0000_0000_0000
    → IsRising lo b.0 (out ++ b.1) × (b.0 ≤ a.0 + 2 * length es)
Dispense-IsRising lo closed h small = (h, omega arith)
Dispense-IsRising {F = F} lo
      (moved {e = e} {es = es} {b = b} {c = c} {out = out} {later = later} m d) h small =
    let (now, few) = Move-IsRising e lo m h (omega arith) in
    let (mid, first, second) = IsRising-split lo b.0 out b.1 now in
    let (rest, fewer) = Dispense-IsRising mid d second (omega arith) in
    (
      subst (IsRising lo c.0) (sym (append_assoc out later c.1))
          (IsRising-join lo mid c.0 out (later ++ c.1) first rest),
      omega arith,
    )

-- From the start, for any calls that are too few for the counter of 64 bits to wrap at two numbers
-- each: the cluster numbers of the probes given, followed by those of the probes still queued, rise, so
-- none is given twice or out of order, and all are below the counter, which is at most twice the
-- number of the calls.
pub probes-IsRising :
    {F : Type 0} ⦃fl : Float64 F⦄ (ep : Epochs) (es : List (Event F))
    → 2 * length es < 0x1_0000_0000_0000_0000
    → let (s, probes) = run ep es (default_control ep) in
      IsRising 0 s.next_cluster_id (numbers probes ++ numbers s.pending)
      × (s.next_cluster_id ≤ 2 * length es)
probes-IsRising ep es small =
    let (rising, few) =
      Dispense-IsRising 0 (run-Dispense ep es (default_control ep)) (omega arith) (omega arith) in
    (rising, omega arith)
