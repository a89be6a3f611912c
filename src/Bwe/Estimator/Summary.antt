-- ===== src/Bwe/Estimator/Summary.antt =====
-- What the state of a probe cluster of crates/session/src/bwe/probe/estimator.rs says of the packets
-- that were received.
use game_streamer_agent.Base.{
  ℕ, ◌+◌, ◌≡◌, ◌≤◌, ◌⊎◌, inl, inr, refl, ap, ◌∙◌, min, max, true, false, Option, none, some, List,
  [], ◌∷◌, map, leb, if◌then◌else◌, length, All, arith, Bool, Bool-cases, Option-cases,
}
use game_streamer_agent.Bwe.Types.{TwccSendRecord, remote_recv_time}
use game_streamer_agent.Bwe.Probe.{ProbeClusterConfig, Epochs}
use game_streamer_agent.Bwe.Probe.Control.{or_at}
use game_streamer_agent.Bwe.Estimator.{ProbeEstimatorState, new_state, note_packet, update_state}

-- A packet that was received: when it was sent, when it was received, and its size.
pub record Packet : Type 0 where
  pub send : ℕ
  pub recv : ℕ
  pub size : ℕ

-- The packets among the records that were received, the latest record first, before `ps`.
abbrev pub received : List Packet → List TwccSendRecord → List Packet
received ps [] = ps
received ps (r ∷ rs) = elim (remote_recv_time r) [
  | none ↦ received ps rs
  | some recv ↦ received (record { send = r.local_send_time; recv = recv; size = r.size } ∷ ps) rs
]

abbrev pub sum : List ℕ → ℕ
sum [] = 0
sum (n ∷ ns) = n + sum ns

abbrev pub OneOf {ℓ} : {A : Type ℓ} → (A → Type 0) → List A → Type 0
OneOf P [] = ⊥
OneOf P (x ∷ xs) = P x ⊎ OneOf P xs

-- The earliest and the latest of instants, none if there are none.
abbrev pub IsSpan : List ℕ → Option ℕ → Option ℕ → Type 0
IsSpan [] first last = (first ≡ none) × (last ≡ none)
IsSpan (t ∷ ts) first last =
    (a : ℕ) × (b : ℕ) × (first ≡ some a)
    × (last ≡ some b)
    × OneOf (λ u. u ≡ a) (t ∷ ts)
    × OneOf (λ u. u ≡ b) (t ∷ ts)
    × All (λ u. (a ≤ u) × (u ≤ b)) (t ∷ ts)

module _ {F : Type 0} where
  -- The state counts the packets, and their bytes; it has the earliest and the latest instant of
  -- sending and of receiving, with the size of a packet sent last and of one received first.
  pub record IsSummary (s : ProbeEstimatorState F) (ps : List Packet) : Type 0 where
    pub count : s.packet_count ≡ length ps
    pub bytes : s.total_bytes ≡ sum (map (λ p. p.size) ps)
    pub sent : IsSpan (map (λ p. p.send) ps) s.first_send_time s.last_send_time
    pub arrived : IsSpan (map (λ p. p.recv) ps) s.first_recv_time s.last_recv_time
    pub last_size :
        (ps ≡ []) ⊎ OneOf (λ p. (s.last_send_time ≡ some p.send) × (p.size ≡ s.size_last_send)) ps
    pub first_size :
        (ps ≡ [])
        ⊎ OneOf (λ p. (s.first_recv_time ≡ some p.recv) × (p.size ≡ s.size_first_receive)) ps

  unfoldable pub feed : ProbeEstimatorState F → List TwccSendRecord → ProbeEstimatorState F
  unfolding update_state
  feed s [] = s
  feed s (r ∷ rs) = feed (update_state s r).0 rs

All-mono {ℓ} :
    {A : Type ℓ} (P Q : A → Type 0) (xs : List A) → ((x : A) → P x → Q x) → All P xs → All Q xs
All-mono P Q [] f h = tt
All-mono P Q (x ∷ xs) f (h, hs) = (f x h, All-mono P Q xs f hs)

OneOf-mono {ℓ} :
    {A : Type ℓ} (P Q : A → Type 0) (xs : List A) → ((x : A) → P x → Q x) → OneOf P xs → OneOf Q xs
OneOf-mono P Q [] f h = h
OneOf-mono P Q (x ∷ xs) f (inl h) = inl (f x h)
OneOf-mono P Q (x ∷ xs) f (inr h) = inr (OneOf-mono P Q xs f h)

-- One more instant.
span_step :
    (ts : List ℕ) (first last first' last' : Option ℕ) (t : ℕ)
    → IsSpan ts first last
    → first' ≡ some (min (or_at first t) t)
    → last' ≡ some (max (or_at last t) t)
    → IsSpan (t ∷ ts) first' last'
span_step [] first last first' last' t (e, e') f l = (
  t,
  t,
  f ∙ ap some (rw (e, or_at) (omega arith)),
  l ∙ ap some (rw (e', or_at) (omega arith)),
  inl refl,
  inl refl,
  (omega arith, tt),
)
span_step (u ∷ ts) first last first' last' t (a, b, e, e', ma, mb, all) f l = (
  min a t,
  max b t,
  f ∙ ap (λ o. some (min (or_at o t) t)) e,
  l ∙ ap (λ o. some (max (or_at o t) t)) e',
  elim (Bool-cases (leb a t)) [
    | inl lo ↦ inr (OneOf-mono (λ v. v ≡ a) (λ v. v ≡ min a t) (u ∷ ts) (λ v h. ground arith) ma)
    | inr hi ↦ inl (ground arith)
  ],
  elim (Bool-cases (leb t b)) [
    | inl lo ↦ inr (OneOf-mono (λ v. v ≡ b) (λ v. v ≡ max b t) (u ∷ ts) (λ v h. ground arith) mb)
    | inr hi ↦ inl (ground arith)
  ],
  (
    omega arith,
    All-mono (λ v. (a ≤ v) × (v ≤ b)) (λ v. (min a t ≤ v) × (v ≤ max b t)) (u ∷ ts)
        (λ v h. omega arith) all,
  ),
)

greater : (o : Option ℕ) (t : ℕ) → (if leb (or_at o t) t then t else or_at o t) ≡ max (or_at o t) t
greater o t = ground arith

smaller : (o : Option ℕ) (t : ℕ) → (if leb t (or_at o t) then t else or_at o t) ≡ min (or_at o t) t
smaller o t = ground arith

-- The packet that an end of the span belongs to: the new one, or the one before.
picked :
    (f : Packet → ℕ) (o : Option ℕ) (before : ℕ) (p : Packet) (ps : List Packet) (test : Bool)
    → (ps ≡ [] → test ≡ true)
    → (ps ≡ []) ⊎ OneOf (λ q. (o ≡ some (f q)) × (q.size ≡ before)) ps
    → OneOf
        (λ q.
          (some (if test then f p else or_at o (f p)) ≡ some (f q))
          × (q.size ≡ (if test then p.size else before)))
        (p ∷ ps)
picked f o before p ps true empty h = inl (refl, refl)
picked f o before p ps false empty (inl e) = absurd (let no = empty e in cc)
picked f o before p ps false empty (inr h) = inr (
    OneOf-mono (λ q. (o ≡ some (f q)) × (q.size ≡ before)) _ ps
      (λ q g. (ap (λ u. some (or_at u (f p))) g.0, g.1)) h)

no_first :
    (ps : List ℕ) (first last : Option ℕ)
    → IsSpan ps first last
    → ps ≡ []
    → (first ≡ none) × (last ≡ none)
no_first [] first last h e = h
no_first (t ∷ ts) first last h e = absurd cc

module _ {F : Type 0} where
  note_packet-IsSummary :
      (s : ProbeEstimatorState F) (ps : List Packet) (p : Packet)
      → IsSummary s ps
      → IsSummary (note_packet s p.send p.recv p.size) (p ∷ ps)
  unfolding note_packet
  note_packet-IsSummary s ps p h = record {
    count = omega (arith, h.count);
    bytes = omega (arith, h.bytes);
    sent =
        span_step (map (λ q. q.send) ps) s.first_send_time s.last_send_time _ _ p.send h.sent refl
          (ap some (greater s.last_send_time p.send));
    arrived =
        span_step (map (λ q. q.recv) ps) s.first_recv_time s.last_recv_time _ _ p.recv h.arrived
          (ap some (smaller s.first_recv_time p.recv)) refl;
    last_size = inr (
        picked (λ q. q.send) s.last_send_time s.size_last_send p ps
          (leb (or_at s.last_send_time p.send) p.send)
          (λ e.
            let (_, none_yet) =
              no_first (map (λ q. q.send) ps) s.first_send_time s.last_send_time h.sent
                (ap (map (λ q. q.send)) e) in
            rw none_yet (ground arith))
          h.last_size);
    first_size = inr (
        picked (λ q. q.recv) s.first_recv_time s.size_first_receive p ps
          (leb p.recv (or_at s.first_recv_time p.recv))
          (λ e.
            let (none_yet, _) =
              no_first (map (λ q. q.recv) ps) s.first_recv_time s.last_recv_time h.arrived
                (ap (map (λ q. q.recv)) e) in
            rw none_yet (ground arith))
          h.first_size);
  }

  feed_onto :
      (s : ProbeEstimatorState F) (ps : List Packet) (rs : List TwccSendRecord)
      → IsSummary s ps
      → IsSummary (feed s rs) (received ps rs)
  unfolding feed update_state
  feed_onto s ps [] h = h
  feed_onto s ps (r ∷ rs) h = elim (Option-cases (remote_recv_time r)) [
    | inl lost ↦ rw (lost, feed, update_state, received) (feed_onto s ps rs h)
    | inr (recv, got) ↦
        let p : Packet = record { send = r.local_send_time; recv = recv; size = r.size } in
        rw (got, feed, update_state, received)
          (feed_onto (note_packet s p.send p.recv p.size) (p ∷ ps) rs
            (note_packet-IsSummary s ps p h))
  ]

  -- The feedback on the packets of a new cluster, in whatever order it comes and with whatever is
  -- lost: the state counts exactly the packets that were received and adds up their sizes; it has the
  -- earliest and the latest instant of sending and of receiving among them, and the sizes that it
  -- leaves out of the rates are those of a packet sent last and of a packet received first.
  pub feed-IsSummary :
      (ep : Epochs) (config : ProbeClusterConfig F) (now : ℕ) (rs : List TwccSendRecord)
      → IsSummary (feed (new_state ep config now) rs) (received [] rs)
  feed-IsSummary ep config now rs = feed_onto (new_state ep config now) [] rs (record {
    count = refl;
    bytes = refl;
    sent = (refl, refl);
    arrived = (refl, refl);
    last_size = inl refl;
    first_size = inl refl;
  })
