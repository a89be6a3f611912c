-- ===== src/Reassembler/Recovery/Loop.antt =====
-- The loop over the groups in `reconstruct` of crates/client-core/src/reassembly.rs, from the first
-- group to the last.
use game_streamer_agent.Base.{
  ℕ, ◌+◌, ◌-◌, ◌≡◌, ◌≢◌, ◌≤◌, ◌<◌, ◌⊎◌, inl, inr, refl, sym, ap, ◌∙◌, true, none, some, List, [],
  ◌∷◌, ◌++◌, arith, length, get_or, ◌==◌, slice_of, All, dec_lt, Bool-cases, length-take,
  length-map,
}
use game_streamer_agent.Fec.Layout.{FecGroup}
use game_streamer_agent.Fec.Layout.Tiling.{Tiles}
use game_streamer_agent.Fec.Code.{Bytes, reconstruct_data}
use game_streamer_agent.Fec.Recovery.Erased.{IsErased, length-erased, get_or-take}
use game_streamer_agent.Reassembler.Shards.{
  Slots, count_some, recoverable_groups, clear_slots, write_slots, recover_groups,
}
use game_streamer_agent.Reassembler.Recovery.Slots.{
  slot, get_or-slice_of, length-clear_slots, clear_slots-none, clear_slots_outside,
  length-write_slots, write_slots_inside, write_slots_outside,
}
use game_streamer_agent.Reassembler.Recovery.Erasures.{
  ErasedAt, erased_at, IsErased-of_at, slot-map-some,
}
use game_streamer_agent.Reassembler.Recovery.Groups.{
  here, group_back, length-group, whole_Known, Known, IsSound, recoverable_groups_same, Tiles-reach,
  enough_of,
}

-- The slots once a group is restored: its data is there, its parity is not.
record Restored (sent : List Bytes) (g : FecGroup) (ss out : Slots) : Type 0 where
  count : length out ≡ length ss
  inside :
      (i : ℕ)
      → g.data_start ≤ i
      → i < g.data_start + g.data_len
      → slot out i ≡ some (get_or sent i [])
  cleared : (i : ℕ) → g.parity_start ≤ i → i < g.parity_start + g.parity_len → slot out i ≡ none
  front : (i : ℕ) → i < g.data_start → slot out i ≡ slot ss i
  between : (i : ℕ) → g.data_start + g.data_len ≤ i → i < g.parity_start → slot out i ≡ slot ss i
  back : (i : ℕ) → g.parity_start + g.parity_len ≤ i → slot out i ≡ slot ss i

module _ (sent : List Bytes) (g : FecGroup) (ss : Slots) (erased : IsErased ss sent)
    (apart : g.data_start + g.data_len ≤ g.parity_start)
    (inside : g.parity_start + g.parity_len ≤ length ss) (sound : IsSound sent g)
    (partly : count_some (here sent g ss erased apart inside)
      ≢ length (here sent g ss erased apart inside))
    (ok : enough_of ss g ≡ true) where
  abbrev taken : Slots
  taken =
      clear_slots g.parity_start (g.parity_start + g.parity_len)
        (clear_slots g.data_start (g.data_start + g.data_len) ss)

  abbrev recovered : Slots
  recovered =
      (reconstruct_data
        (slice_of ss g.data_start (g.data_start + g.data_len)
          ++ slice_of ss g.parity_start (g.parity_start + g.parity_len))
        g.data_len).0

  length-taken : length taken ≡ length ss
  length-taken =
      let first = length-clear_slots g.data_start g.data_len ss (omega arith) in
      length-clear_slots g.parity_start g.parity_len
        (clear_slots g.data_start (g.data_start + g.data_len) ss) (omega arith)
      ∙ first

  -- The emptied slots, outside the group.
  taken_outside :
      (i : ℕ)
      → (i < g.data_start) ⊎ (g.data_start + g.data_len ≤ i)
      → (i < g.parity_start) ⊎ (g.parity_start + g.parity_len ≤ i)
      → slot taken i ≡ slot ss i
  taken_outside i h h' =
      let first = length-clear_slots g.data_start g.data_len ss (omega arith) in
      clear_slots_outside g.parity_start g.parity_len _ (omega arith) i h'
      ∙ clear_slots_outside g.data_start g.data_len ss (omega arith) i h

  recovered_slot :
      (t : ℕ) → t < g.data_len → slot recovered t ≡ some (get_or sent (g.data_start + t) [])
  recovered_slot t h =
      let back = (group_back sent g ss erased apart inside sound partly ok).1 in
      let size = length-group sent g ss erased apart inside sound partly ok in
      sym (get_or-take recovered g.data_len t none h)
      ∙ ap (λ l. slot l t) back
      ∙ slot-map-some _ t (omega arith)
      ∙ ap some (get_or-slice_of [] sent g.data_start g.data_len t h)

  length-recovered : g.data_len ≤ length recovered
  length-recovered =
      let back = ap length (group_back sent g ss erased apart inside sound partly ok).1 in
      let size = length-group sent g ss erased apart inside sound partly ok in
      let mapped = length-map (slice_of sent g.data_start (g.data_start + g.data_len)) some in
      omega (arith, length-take g.data_len recovered)

  step_Restored : Restored sent g ss (write_slots g.data_start g.data_len recovered taken)
  step_Restored = record {
    count = length-write_slots g.data_start g.data_len recovered taken ∙ length-taken;
    inside = λ i lo hi.
        let t : ℕ = i - g.data_start in
        let at : g.data_start + t ≡ i = omega arith in
        ap (slot (write_slots g.data_start g.data_len recovered taken)) (sym at)
        ∙ write_slots_inside g.data_start g.data_len recovered taken t (omega arith)
            (omega (arith, length-recovered)) (omega (arith, length-taken))
        ∙ recovered_slot t (omega arith)
        ∙ ap (λ u. some (get_or sent u [])) at;
    cleared = λ i lo hi.
        let first = length-clear_slots g.data_start g.data_len ss (omega arith) in
        write_slots_outside g.data_start g.data_len recovered taken i (inr (omega arith))
        ∙ clear_slots-none g.parity_start g.parity_len _ (omega arith) i lo hi;
    front = λ i h.
        write_slots_outside g.data_start g.data_len recovered taken i (inl h)
        ∙ taken_outside i (inl h) (inl (omega arith));
    between = λ i lo hi.
        write_slots_outside g.data_start g.data_len recovered taken i (inr lo)
        ∙ taken_outside i (inr lo) (inl hi);
    back = λ i h.
        write_slots_outside g.data_start g.data_len recovered taken i (inr (omega arith))
        ∙ taken_outside i (inr (omega arith)) (inr h);
  }

-- What a restored group leaves is still what was sent, or nothing.
Restored-ErasedAt :
    (sent : List Bytes) (g : FecGroup) (ss out : Slots)
    → IsErased ss sent
    → Restored sent g ss out
    → (i : ℕ) → ErasedAt out sent i
Restored-ErasedAt sent g ss out erased r i = elim (dec_lt i g.data_start) [
  | yes lo ↦ kept (r.front i lo)
  | no ge ↦ elim (dec_lt i (g.data_start + g.data_len)) [
    | yes within ↦ inr (r.inside i (omega arith) within)
    | no past ↦ elim (dec_lt i g.parity_start) [
      | yes mid ↦ kept (r.between i (omega arith) mid)
      | no ge' ↦ elim (dec_lt i (g.parity_start + g.parity_len)) [
        | yes gone ↦ inl (r.cleared i (omega arith) gone)
        | no past' ↦ kept (r.back i (omega arith))
      ]
    ]
  ]
]
  where
    kept : slot out i ≡ slot ss i → ErasedAt out sent i
    kept e = elim (erased_at ss sent i erased) [ inl n ↦ inl (e ∙ n) | inr s ↦ inr (e ∙ s) ]

-- What the loop over the groups gives.
pub record Recovered (sent : List Bytes) (k : ℕ) (gs : List FecGroup) (ss : Slots) : Type 0 where
  pub slots : Slots
  pub result : recover_groups gs ss ≡ some slots
  pub count : length slots ≡ length ss
  pub known : Known sent slots k

module _ (sent : List Bytes) (k n : ℕ) where
  -- The loop, from group to group: the data in front is known, and the groups that follow are
  -- recoverable.
  pub recover_groups-Recovered :
      (gs : List FecGroup) (d p : ℕ) (ss : Slots)
      → Tiles d p k n gs
      → k ≤ p
      → n ≤ length ss
      → All (IsSound sent) gs
      → IsErased ss sent
      → Known sent ss d
      → recoverable_groups ss gs ≡ true
      → Recovered sent k gs ss
  unfolding recover_groups recoverable_groups
  recover_groups-Recovered [] d p ss (ed, ep) low room sound erased known ok = record {
    slots = ss;
    result = refl;
    count = refl;
    known = λ i h. known i (omega arith);
  }
  recover_groups-Recovered (g ∷ gs) d p ss (ed, ep, t) low room sound erased known ok =
      let (reach, reach') = Tiles-reach gs _ _ k n t in
      let this : enough_of ss g ≡ true = ground arith in
      let others : recoverable_groups ss gs ≡ true = ground arith in
      let apart : g.data_start + g.data_len ≤ g.parity_start = omega arith in
      let inside : g.parity_start + g.parity_len ≤ length ss = omega arith in
      let at_hand = here sent g ss erased apart inside in
      elim (Bool-cases (count_some at_hand == length at_hand)) [
        | inl whole ↦
            let e : count_some at_hand ≡ length at_hand = ground arith in
            let later =
              recover_groups-Recovered gs _ _ ss t (omega arith) room sound.1 erased
                (λ i h. elim (dec_lt i d) [
                  | yes lo ↦ known i lo
                  | no ge ↦
                      whole_Known sent g ss erased apart inside e i (omega arith) (omega arith)
                ])
                others in
            record {
              slots = later.slots;
              result = rw whole (later.result);
              count = later.count;
              known = later.known;
            }
        | inr not_whole ↦
            let partly : count_some at_hand ≢ length at_hand = λ e. absurd (ground arith) in
            let step = step_Restored sent g ss erased apart inside sound.0 partly this in
            let complete = (group_back sent g ss erased apart inside sound.0 partly this).0 in
            let out =
              write_slots g.data_start g.data_len
                (recovered sent g ss erased apart inside sound.0 partly this)
                (taken sent g ss erased apart inside sound.0 partly this) in
            let size = step.count in
            let same =
              recoverable_groups_same gs out ss _ _ k n t (omega arith) (omega arith) size
                (λ i lo hi. step.between i (omega arith) (omega arith))
                (λ i lo hi. step.back i (omega arith)) in
            let later =
              recover_groups-Recovered gs _ _ out t (omega arith) (omega arith) sound.1
                (IsErased-of_at out sent (size ∙ length-erased ss sent erased)
                  (λ i h. Restored-ErasedAt sent g ss out erased step i))
                (λ i h. elim (dec_lt i d) [
                  | yes lo ↦ step.front i (omega arith) ∙ known i lo
                  | no ge ↦ step.inside i (omega arith) (omega arith)
                ])
                (same ∙ others) in
            record {
              slots = later.slots;
              result = rw (not_whole, complete) (later.result);
              count = later.count ∙ size;
              known = later.known;
            }
      ]
