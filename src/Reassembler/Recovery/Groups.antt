-- ===== src/Reassembler/Recovery/Groups.antt =====
-- `recover_groups` of the loop in `reconstruct` of crates/client-core/src/reassembly.rs: group after
-- group is completed from its parity.
use game_streamer_agent.Base.{
  ℕ, ◌+◌, ◌-◌, ◌≡◌, ◌≢◌, ◌≤◌, ◌<◌, ◌⊎◌, inl, inr, refl, sym, ap, ap₂, ◌∙◌, subst, Bool, true, false,
  ◌&&◌, ◌||◌, none, some, List, [], ◌∷◌, ◌++◌, map, arith, length, get_or, take, leb, ◌==◌,
  slice_of, All,
}
use game_streamer_agent.Fec.Layout.{FecGroup}
use game_streamer_agent.Fec.Layout.Tiling.{Tiles}
use game_streamer_agent.Fec.Code.{Bytes, first_len, encode_parity, reconstruct_data, present}
use game_streamer_agent.Fec.Recovery.Erased.{IsErased, length-erased}
use game_streamer_agent.Fec.Recovery.Restored.{reconstruct_data-encode_parity}
use game_streamer_agent.Reassembler.Shards.{Slots, count_some, recoverable_groups}
use game_streamer_agent.Reassembler.Recovery.Slots.{
  slot, slice_eq, length-slice_of, get_or-slice_of,
}
use game_streamer_agent.Reassembler.Recovery.Erasures.{
  IsErased-append, IsErased-slice_of, count_some-present, count_some-append, count_some_most,
  full_slots, slot-map-some,
}

-- Whether a group counts as recoverable in `recoverable_groups`.
abbrev pub enough_of : Slots → FecGroup → Bool
enough_of ss g =
    let here = count_some (slice_of ss g.data_start (g.data_start + g.data_len)) in
    let parity = count_some (slice_of ss g.parity_start (g.parity_start + g.parity_len)) in
    (here == g.data_len) || leb g.data_len (here + parity)

-- The slots of two lists from `a` on up to `b` are the same.
abbrev pub SameFrom : Slots → Slots → ℕ → ℕ → Type 0
SameFrom ss ss' a b = (i : ℕ) → a ≤ i → i < b → slot ss i ≡ slot ss' i

same_slices :
    (ss ss' : Slots) (a n b : ℕ)
    → b ≤ length ss
    → length ss ≡ length ss'
    → a + n ≤ b
    → SameFrom ss ss' a b
    → count_some (slice_of ss a (a + n)) ≡ count_some (slice_of ss' a (a + n))
same_slices ss ss' a n b room e h same =
    ap count_some
      (slice_eq none ss ss' a n (omega arith) e (λ t k. same (a + t) (omega arith) (omega arith)))

pub Tiles-reach : (gs : List FecGroup) (d p k n : ℕ) → Tiles d p k n gs → (d ≤ k) × (p ≤ n)
Tiles-reach [] d p k n (e, e') = omega arith
Tiles-reach (g ∷ gs) d p k n (e, e', t) =
    let (lo, lo') = Tiles-reach gs _ _ k n t in (omega arith, omega arith)

-- Groups whose slots are the same are recoverable or not alike.
pub recoverable_groups_same :
    (gs : List FecGroup) (ss ss' : Slots) (d p k n : ℕ)
    → Tiles d p k n gs
    → k ≤ length ss
    → n ≤ length ss
    → length ss ≡ length ss'
    → SameFrom ss ss' d k
    → SameFrom ss ss' p n
    → recoverable_groups ss gs ≡ recoverable_groups ss' gs
unfolding recoverable_groups
recoverable_groups_same [] ss ss' d p k n t room room' e data_same parity_same = refl
recoverable_groups_same (g ∷ gs) ss ss' d p k n (ed, ep, t) room room' e data_same parity_same =
    let (lo, lo') = Tiles-reach gs _ _ k n t in
    let here =
      same_slices ss ss' g.data_start g.data_len k room e (omega arith)
        (λ i l h. data_same i (omega arith) h) in
    let parity =
      same_slices ss ss' g.parity_start g.parity_len n room' e (omega arith)
        (λ i l h. parity_same i (omega arith) h) in
    let later =
      recoverable_groups_same gs ss ss' _ _ k n t room room' e
        (λ i l h. data_same i (omega arith) h) (λ i l h. parity_same i (omega arith) h) in
    ap₂ (λ a b. ((a == g.data_len) || leb g.data_len (a + b)) && recoverable_groups ss gs) here
      parity
    ∙ ap (λ b. enough_of ss' g && b) later

-- The parity of a group is what `encode_parity` made of its data.
abbrev pub IsCoded : List Bytes → FecGroup → Type 0
IsCoded sent g =
    (g.parity_len ≡ 0)
    ⊎ (encode_parity (slice_of sent g.data_start (g.data_start + g.data_len)) g.parity_len
        ≡ some (slice_of sent g.parity_start (g.parity_start + g.parity_len)))

-- The data of a group can be restored: bytes, and a first shard that is not empty.
pub record IsSound (sent : List Bytes) (g : FecGroup) : Type 0 where
  pub coded : IsCoded sent g
  pub some_data : 1 ≤ g.data_len
  pub bytes : All (All (λ v. v < 256)) (slice_of sent g.data_start (g.data_start + g.data_len))
  pub full : 0 < first_len (slice_of sent g.data_start (g.data_start + g.data_len))

-- The first `d` slots hold what was sent there.
abbrev pub Known : List Bytes → Slots → ℕ → Type 0
Known sent ss d = (i : ℕ) → i < d → slot ss i ≡ some (get_or sent i [])

module _ (sent : List Bytes) (g : FecGroup) (ss : Slots) (erased : IsErased ss sent)
    (apart : g.data_start + g.data_len ≤ g.parity_start)
    (inside : g.parity_start + g.parity_len ≤ length ss) where
  abbrev pub here : Slots
  here = slice_of ss g.data_start (g.data_start + g.data_len)

  abbrev pub parity : Slots
  parity = slice_of ss g.parity_start (g.parity_start + g.parity_len)

  pub length-here : length here ≡ g.data_len
  length-here = length-slice_of none ss g.data_start g.data_len (omega arith)

  -- A group that is whole holds what was sent.
  pub whole_Known :
      count_some here ≡ length here
      → (i : ℕ) → g.data_start ≤ i
      → i < g.data_start + g.data_len
      → slot ss i ≡ some (get_or sent i [])
  whole_Known e i lo hi =
      let t : ℕ = i - g.data_start in
      let at : g.data_start + t ≡ i = omega arith in
      let same = length-erased ss sent erased in
      let held =
        full_slots here (slice_of sent g.data_start (g.data_start + g.data_len))
          (IsErased-slice_of ss sent g.data_start g.data_len (omega arith) erased) e in
      let size = length-slice_of [] sent g.data_start g.data_len (omega arith) in
      ap (slot ss) (sym at)
      ∙ sym (get_or-slice_of none ss g.data_start g.data_len t (omega arith))
      ∙ ap (λ l. slot l t) held
      ∙ slot-map-some _ t (omega arith)
      ∙ ap some (get_or-slice_of [] sent g.data_start g.data_len t (omega arith))
      ∙ ap (λ u. some (get_or sent u [])) at

  -- A group that is not whole but recoverable has parity.
  parity_needed : count_some here ≢ length here → enough_of ss g ≡ true → g.parity_len ≢ 0
  parity_needed partly ok none_there =
      let most = count_some_most here in
      let most' = count_some_most parity in
      let size = length-here in
      let size' = length-slice_of none ss g.parity_start g.parity_len (omega arith) in
      let no : (count_some here == g.data_len) ≡ false = ground arith in
      let le : g.data_len ≤ count_some here + count_some parity = ground arith in omega arith

  module _ (sound : IsSound sent g) (partly : count_some here ≢ length here)
      (ok : enough_of ss g ≡ true) where
    abbrev pub group : List Bytes
    group = slice_of sent g.data_start (g.data_start + g.data_len)

    abbrev pub coded_parity : List Bytes
    coded_parity = slice_of sent g.parity_start (g.parity_start + g.parity_len)

    pub length-group : length group ≡ g.data_len
    length-group =
        length-slice_of [] sent g.data_start g.data_len
          (omega (arith, length-erased ss sent erased))

    encoded : encode_parity group g.parity_len ≡ some coded_parity
    encoded = elim sound.coded [ inl z ↦ absurd (parity_needed partly ok z) | inr e ↦ e ]

    enough_present : length group ≤ length (present 0 (here ++ parity))
    enough_present =
        let size = length-here in
        let most = count_some_most here in
        let no : (count_some here == g.data_len) ≡ false = ground arith in
        let le : g.data_len ≤ count_some here + count_some parity = ground arith in
        omega (
          arith,
          length-group,
          count_some-present 0 (here ++ parity),
          count_some-append here parity,
        )

    abbrev pub result : Slots × Bool
    result = reconstruct_data (here ++ parity) g.data_len

    -- The erasure code gives the group back.
    pub group_back : (result.1 ≡ true) × (take g.data_len result.0 ≡ map some group)
    group_back =
        subst
          (λ n.
            ((reconstruct_data (here ++ parity) n).1 ≡ true)
            × (take n (reconstruct_data (here ++ parity) n).0 ≡ map some group))
          length-group
          (reconstruct_data-encode_parity group coded_parity g.parity_len (here ++ parity) encoded
            sound.bytes sound.full
            (IsErased-append here group parity coded_parity
              (IsErased-slice_of ss sent g.data_start g.data_len (omega arith) erased)
              (IsErased-slice_of ss sent g.parity_start g.parity_len inside erased))
            enough_present)
