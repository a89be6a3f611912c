-- ===== src/Bwe/Estimator/Updated.antt =====
-- The order in which `update` of crates/session/src/bwe/probe/estimator.rs gives the clusters that it
-- updated.
use mathlib.Core.List.{append_assoc, append-nil}
use game_streamer_agent.Base.{
  ℕ, ◌≡◌, refl, sym, ap, ◌∙◌, Bool, true, false, ◌&&◌, ◌||◌, Option, none, some, List, [], ◌∷◌,
  ◌++◌, map, ◌==◌, if◌then◌else◌, inl, inr, Bool-cases, Option-cases, arith,
}
use game_streamer_agent.Bwe.Types.{TwccSendRecord, remote_recv_time}
use game_streamer_agent.Bwe.Estimator.{
  ProbeEstimatorState, ProbeEstimator, update_state, update_first, without, update_record,
  update_records,
}

abbrev pub among : ℕ → List ℕ → Bool
among c [] = false
among c (d ∷ ds) = (d == c) || among c ds

-- Each number once, where it comes last.
abbrev pub last_of_each : List ℕ → List ℕ
last_of_each [] = []
last_of_each (c ∷ cs) = (if among c cs then [] else c ∷ []) ++ last_of_each cs

abbrev pub received_in : Option ℕ → Bool
received_in none = false
received_in (some t) = true

-- The cluster of a packet that was received, if it is among `ids`.
abbrev hit : List ℕ → Option ℕ → Bool → List ℕ
hit ids none got = []
hit ids (some c) got = if among c ids && got then c ∷ [] else []

-- The clusters, among `ids`, of the packets that were received.
abbrev pub hits : List ℕ → List TwccSendRecord → List ℕ
hits ids [] = []
hits ids (r ∷ rs) = hit ids r.packet_id.cluster (received_in (remote_recv_time r)) ++ hits ids rs

others : List ℕ → List ℕ → List ℕ
others [] cs = []
others (a ∷ as') cs = (if among a cs then [] else a ∷ []) ++ others as' cs

others-append : (xs ys cs : List ℕ) → others (xs ++ ys) cs ≡ others xs cs ++ others ys cs
unfolding others
others-append [] ys cs = refl
others-append (x ∷ xs) ys cs =
    ap (λ l. (if among x cs then [] else x ∷ []) ++ l) (others-append xs ys cs)
    ∙ sym (append_assoc (if among x cs then [] else x ∷ []) (others xs cs) (others ys cs))

-- What is taken out and what comes later are left out alike.
others-without : (c : ℕ) (xs cs : List ℕ) → others (without c xs) cs ≡ others xs (c ∷ cs)
unfolding others without
others-without c [] cs = refl
others-without c (x ∷ xs) cs = elim (Bool-cases (x == c)) [
  | inl e ↦ let e' : (c == x) ≡ true = ground arith in rw (e, e') (others-without c xs cs)
  | inr ne ↦
      let ne' : (c == x) ≡ false = ground arith in
      rw (ne, ne') (ap (λ l. (if among x cs then [] else x ∷ []) ++ l) (others-without c xs cs))
]

-- One more cluster, put last.
moved_last :
    (c : ℕ) (done cs : List ℕ)
    → others (without c done ++ (c ∷ [])) cs ++ last_of_each cs
      ≡ others done (c ∷ cs) ++ last_of_each (c ∷ cs)
unfolding others
moved_last c done cs =
    let mine = if among c cs then [] else c ∷ [] in
    ap (λ l. l ++ last_of_each cs) (others-append (without c done) (c ∷ []) cs)
    ∙ ap (λ l. (l ++ (mine ++ [])) ++ last_of_each cs) (others-without c done cs)
    ∙ ap (λ l. (others done (c ∷ cs) ++ l) ++ last_of_each cs) (append-nil mine)
    ∙ append_assoc (others done (c ∷ cs)) mine (last_of_each cs)

none_left : (cs : List ℕ) → others [] cs ≡ []
unfolding others
none_left cs = refl

all_left : (done : List ℕ) → others done [] ≡ done
unfolding others
all_left [] = refl
all_left (d ∷ ds) = ap (λ l. d ∷ l) (all_left ds)

module _ {F : Type 0} where
  abbrev pub ids : List (ProbeEstimatorState F) → List ℕ
  ids states = map (λ s. s.config.cluster) states

  update_state_lem :
      (s : ProbeEstimatorState F) (r : TwccSendRecord)
      → ((update_state s r).0.config.cluster ≡ s.config.cluster)
        × ((update_state s r).1 ≡ received_in (remote_recv_time r))
  unfolding update_state
  update_state_lem s r = by_time (remote_recv_time r) refl
    where
      by_time :
          (o : Option ℕ)
          → remote_recv_time r ≡ o
          → ((update_state s r).0.config.cluster ≡ s.config.cluster)
            × ((update_state s r).1 ≡ received_in (remote_recv_time r))
      by_time none e = rw (e, update_state) (refl, refl)
      by_time (some t) e = rw (e, update_state) (refl, refl)

  update_first_lem :
      (c : ℕ) (r : TwccSendRecord) (ss : List (ProbeEstimatorState F))
      → (ids (update_first c r ss).0 ≡ ids ss)
        × ((update_first c r ss).1 ≡ (among c (ids ss) && received_in (remote_recv_time r)))
  unfolding update_first
  update_first_lem c r [] = (refl, refl)
  update_first_lem c r (s ∷ ss) =
      let (same, counts) = update_state_lem s r in
      let (rest, later) = update_first_lem c r ss in
      elim (Bool-cases (s.config.cluster == c)) [
        | inl e ↦ rw e (ap (λ i. i ∷ ids ss) same, counts)
        | inr ne ↦ rw ne (ap (λ l. s.config.cluster ∷ l) rest, later)
      ]

  update_record_lem :
      (r : TwccSendRecord) (e : ProbeEstimator F) (cs : List ℕ)
      → let e' = update_record r e in
        let now = hit (ids e.states) r.packet_id.cluster (received_in (remote_recv_time r)) in
        (ids e'.states ≡ ids e.states)
        × (others e'.did_update cs ++ last_of_each cs
            ≡ others e.did_update (now ++ cs) ++ last_of_each (now ++ cs))
  unfolding update_record
  update_record_lem r e cs = elim (Option-cases r.packet_id.cluster) [
    | inl untagged ↦ rw (untagged, update_record, hit) (refl, refl)
    | inr (c, tagged) ↦
        let (same, counts) = update_first_lem c r e.states in
        elim (Bool-cases (among c (ids e.states) && received_in (remote_recv_time r))) [
          | inl yes_hit ↦
              rw (tagged, update_record, hit, counts, yes_hit) (same, moved_last c e.did_update cs)
          | inr miss ↦ rw (tagged, update_record, hit, counts, miss) (same, refl)
        ]
  ]

  updated_onto :
      (rs : List TwccSendRecord) (e : ProbeEstimator F)
      → (update_records rs e).did_update
        ≡ others e.did_update (hits (ids e.states) rs) ++ last_of_each (hits (ids e.states) rs)
  unfolding update_records
  updated_onto [] e = sym (append-nil (others e.did_update []) ∙ all_left e.did_update)
  updated_onto (r ∷ rs) e =
      let e' = update_record r e in
      let (same, _) = update_record_lem r e [] in
      let (_, moved) = update_record_lem r e (hits (ids e.states) rs) in
      updated_onto rs e'
      ∙ ap (λ i. others e'.did_update (hits i rs) ++ last_of_each (hits i rs)) same
      ∙ moved

  pub update_records-last_of_each :
      (rs : List TwccSendRecord) (e : ProbeEstimator F)
      → (update_records rs (record e { did_update = [] })).did_update
        ≡ last_of_each (hits (ids e.states) rs)
  unfolding others
  update_records-last_of_each rs e = updated_onto rs (record e { did_update = [] })
