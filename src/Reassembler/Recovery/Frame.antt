-- ===== src/Reassembler/Recovery/Frame.antt =====
-- `reconstruct` of crates/client-core/src/reassembly.rs on a frame's shards of which enough arrived.
use game_streamer_agent.Base.{
  ℕ, zero, suc, ◌+◌, ◌-◌, ◌≡◌, ◌≤◌, ◌<◌, inl, inr, refl, sym, ap, ap₂, ◌∙◌, subst, min, true, false,
  none, some, List, [], ◌∷◌, ◌++◌, map, arith, length, take, drop, ◌==◌, ℕ_discrete, All,
  length-append, length-map, length-take, take-append_length, replicate, slice_of,
}
use game_streamer_agent.Fec.Layout.{FecGroup, group_layout}
use game_streamer_agent.Fec.Layout.Tiling.{Fits, Tiles, group_layout-Tiles}
use game_streamer_agent.Fec.Code.{Bytes, all_len, first_len}
use game_streamer_agent.Fec.Code.Shape.{all_len-take, all_len-drop}
use game_streamer_agent.Fec.Recovery.Erased.{IsErased, length-erased, get_or-take}
use game_streamer_agent.Chunker.Chunks.{concat}
use game_streamer_agent.Reassembler.Shards.{
  Slots, Pending, count_some, recoverable, recoverable_groups, recover_groups, longest_shard,
  uniform_shards, all_slots, recover_frame, reconstruct,
}
use game_streamer_agent.Reassembler.Recovery.Slots.{length-slice_of, ext_at, get_or-append_front}
use game_streamer_agent.Reassembler.Recovery.Erasures.{slot-map-some}
use game_streamer_agent.Reassembler.Recovery.Groups.{IsCoded, IsSound, Known, Tiles-reach}
use game_streamer_agent.Reassembler.Recovery.Loop.{Recovered, recover_groups-Recovered}
use game_streamer_agent.Reassembler.Recovery.Padded.{PadsTo, pads_pos, concat-PadsTo}
use game_streamer_agent.Reassembler.Recovery.Uniform.{
  Uniform, IsErased-Uniform, uniform_shards-IsErased, uniform_shards-SameFull,
  recoverable_groups-SameFull, longest_shard_cases, all_slots-map-some,
}

-- The shards of a frame: data shards as they are sent, the same padded, and the parity shards that
-- `encode_parity` made of the padded ones, group by group.
pub record IsCodeword (sl : ℕ) (raw padded parity : List Bytes) : Type 0 where
  pub some_len : 0 < sl
  pub pads : PadsTo sl raw padded
  pub uniform : all_len sl padded ≡ true
  pub parity_uniform : all_len sl parity ≡ true
  pub same_count : length padded ≡ length raw
  pub bytes : All (All (λ v. v < 256)) padded
  pub coded : All (IsCoded (padded ++ parity)) (group_layout (length raw) (length parity))
  pub fits : All Fits (group_layout (length raw) (length parity))

module _ {A : Type 0} (P : A → Type 0) where
  pub All-take : (n : ℕ) (xs : List A) → All P xs → All P (take n xs)
  All-take zero xs h = tt
  All-take (suc n) [] h = tt
  All-take (suc n) (x ∷ xs) (here, rest) = (here, All-take n xs rest)

  pub All-drop : (n : ℕ) (xs : List A) → All P xs → All P (drop n xs)
  All-drop zero xs h = h
  All-drop (suc n) [] h = tt
  All-drop (suc n) (x ∷ xs) (here, rest) = All-drop n xs rest

-- A slice of the front of two lists joined is one of the first.
pub slice_front :
    (xs ys : List Bytes) (a n : ℕ)
    → a + n ≤ length xs
    → slice_of (xs ++ ys) a (a + n) ≡ slice_of xs a (a + n)
slice_front xs ys zero n h = let z : 0 + n - 0 ≡ n = omega arith in rw z (front n xs (omega arith))
  where
    front : (n : ℕ) (xs : List Bytes) → n ≤ length xs → take n (xs ++ ys) ≡ take n xs
    front zero xs h = refl
    front (suc n) [] h = absurd (omega arith)
    front (suc n) (x ∷ xs) h = ap (λ l. x ∷ l) (front n xs (omega arith))
slice_front [] ys (suc a) n h = absurd (omega arith)
slice_front (x ∷ xs) ys (suc a) n h =
    let shift : suc a + n - suc a ≡ a + n - a = omega arith in
    rw shift (slice_front xs ys a n (omega arith))

first_len_eq : (sl : ℕ) (ss : List Bytes) → all_len sl ss ≡ true → 1 ≤ length ss → first_len ss ≡ sl
first_len_eq sl [] u h = absurd (omega arith)
first_len_eq sl (s ∷ ss) u h = ground arith

module _ (sl : ℕ) (padded parity : List Bytes) (some_len : 0 < sl)
    (uniform : all_len sl padded ≡ true) (bytes : All (All (λ v. v < 256)) padded) where
  group-IsSound :
      (g : FecGroup)
      → g.data_start + g.data_len ≤ length padded
      → IsCoded (padded ++ parity) g
      → Fits g
      → IsSound (padded ++ parity) g
  group-IsSound g inside coded (some_data, few, small) =
      let end = g.data_start + g.data_len in
      let part = slice_of padded g.data_start end in
      let same = slice_front padded parity g.data_start g.data_len inside in
      let size = length-slice_of [] padded g.data_start g.data_len inside in
      let long : all_len sl part ≡ true =
        all_len-take (end - g.data_start) sl (drop g.data_start padded)
          (all_len-drop g.data_start sl padded uniform) in
      record {
        coded = coded;
        some_data = some_data;
        bytes = rw same (All-take _ (end - g.data_start) _ (All-drop _ g.data_start padded bytes));
        full = rw same (omega (arith, first_len_eq sl part long (omega arith)));
      }

  groups-IsSound :
      (gs : List FecGroup) (d p k n : ℕ)
      → Tiles d p k n gs
      → k ≤ length padded
      → All (IsCoded (padded ++ parity)) gs
      → All Fits gs
      → All (IsSound (padded ++ parity)) gs
  groups-IsSound [] d p k n t h coded fits = tt
  groups-IsSound (g ∷ gs) d p k n (ed, ep, t) h (here, coded) (fit, fits) =
      let reach = Tiles-reach gs _ _ k n t in
      (group-IsSound g (omega arith) here fit, groups-IsSound gs _ _ k n t h coded fits)

-- Slots that are known to hold what was sent are the padded shards.
known_data :
    (padded parity : List Bytes) (ss : Slots)
    → length padded ≤ length ss
    → Known (padded ++ parity) ss (length padded)
    → take (length padded) ss ≡ map some padded
known_data padded parity ss room known =
    let size = length-map padded some in
    ext_at none (take (length padded) ss) (map some padded)
      (omega (arith, length-take (length padded) ss))
      (λ i h.
        let low : i < length padded = omega (arith, length-take (length padded) ss) in
        get_or-take ss (length padded) i none low
        ∙ known i low
        ∙ ap some (get_or-append_front [] padded parity i low)
        ∙ sym (slot-map-some padded i low))

cut_frame :
    (frame : Bytes) (n len : ℕ)
    → len ≡ length frame
    → let joined = frame ++ replicate n 0 in take (min len (length joined)) joined ≡ frame
cut_frame frame n len e =
    let size : min len (length (frame ++ replicate n 0)) ≡ length frame =
      omega (arith, length-append frame (replicate n 0)) in
    rw size (take-append_length frame (replicate n 0))

recovered_frame :
    (p : Pending) (sl : ℕ) (out : Slots) (frame : Bytes)
    → recover_groups
        (group_layout p.data_count (length p.shards - p.data_count))
        (uniform_shards sl (p.data_count - 1) 0 p.shards)
      ≡ some out
    → all_slots (take p.data_count out) ≡ some frame
    → recover_frame p sl ≡ some (take (min p.frame_len (length frame)) frame)
unfolding recover_frame
recovered_frame p sl out frame e e' = cc

pub take_whole : (ss : Slots) (n : ℕ) → length ss ≡ n → take n ss ≡ ss
take_whole [] zero e = refl
take_whole [] (suc n) e = refl
take_whole (s ∷ ss) zero e = absurd (omega arith)
take_whole (s ∷ ss) (suc n) e = ap (λ l. s ∷ l) (take_whole ss n (omega arith))

module _ (p : Pending) (sl : ℕ) (raw padded parity : List Bytes)
    (code : IsCodeword sl raw padded parity) (count : p.data_count ≡ length raw)
    (len : p.frame_len ≡ length (concat raw)) (erased : IsErased p.shards (raw ++ parity))
    (enough : recoverable p ≡ true) where
  abbrev last : ℕ
  last = p.data_count - 1

  raw_pos : 0 < length raw
  raw_pos = pads_pos sl raw padded code.pads

  length-shards : length p.shards ≡ length raw + length parity
  length-shards = length-erased p.shards (raw ++ parity) erased ∙ length-append raw parity

  slots_Uniform : Uniform sl last 0 p.shards
  slots_Uniform =
      IsErased-Uniform sl last 0 p.shards raw padded parity erased code.pads code.parity_uniform
        (omega (arith, raw_pos))

  abbrev slots : Slots
  slots = uniform_shards sl last 0 p.shards

  slots-IsErased : IsErased slots (padded ++ parity)
  slots-IsErased =
      uniform_shards-IsErased sl last 0 p.shards raw padded parity erased code.pads
        code.parity_uniform (omega (arith, raw_pos))

  length-slots : length slots ≡ length raw + length parity
  length-slots = omega (
    arith,
    length-erased slots (padded ++ parity) slots-IsErased,
    length-append padded parity,
    code.same_count,
  )

  layout_same :
      group_layout p.data_count (length p.shards - p.data_count)
      ≡ group_layout (length raw) (length parity)
  layout_same =
      let rest : length p.shards - p.data_count ≡ length parity = omega (arith, length-shards) in
      ap₂ group_layout count rest

  recoverable_slots : recoverable_groups slots (group_layout (length raw) (length parity)) ≡ true
  unfolding recoverable
  recoverable_slots =
      recoverable_groups-SameFull slots p.shards (group_layout (length raw) (length parity))
        (uniform_shards-SameFull sl last 0 p.shards slots_Uniform)
      ∙ ap (recoverable_groups p.shards) (sym layout_same)
      ∙ enough

  loop_Recovered :
      Recovered (padded ++ parity) (length raw) (group_layout (length raw) (length parity)) slots
  loop_Recovered =
      let tiles = group_layout-Tiles (length raw) (length parity) in
      recover_groups-Recovered (padded ++ parity) (length raw) (length raw + length parity)
        (group_layout (length raw) (length parity)) 0 (length raw) slots tiles (omega arith)
        (omega (arith, length-slots))
        (groups-IsSound sl padded parity code.some_len code.uniform code.bytes
          (group_layout (length raw) (length parity)) 0 (length raw) (length raw)
          (length raw + length parity) tiles (omega (arith, code.same_count)) code.coded code.fits)
        slots-IsErased (λ i h. absurd (omega arith)) recoverable_slots

  recover_frame_back : recover_frame p sl ≡ some (concat raw)
  unfolding recover_frame
  recover_frame_back =
      let done = loop_Recovered in
      let data_back =
        known_data padded parity done.slots
          (omega (arith, done.count, length-slots, code.same_count))
          (subst (Known (padded ++ parity) done.slots) (sym code.same_count) done.known) in
      let (n, joined) = concat-PadsTo sl raw padded code.pads in
      let size : p.data_count ≡ length padded = count ∙ sym code.same_count in
      recovered_frame p sl done.slots (concat raw ++ replicate n 0)
        (ap (λ gs. recover_groups gs slots) layout_same ∙ done.result)
        (ap (λ k. all_slots (take k done.slots)) size
          ∙ ap all_slots data_back
          ∙ all_slots-map-some padded
          ∙ ap some joined)
      ∙ ap some (cut_frame (concat raw) n p.frame_len len)

  -- A data shard is missing, but there are as many shards as data shards: the shard length is
  -- found on one that is not the last.
  module _ (missing : count_some (take p.data_count p.shards) < p.data_count)
      (many : p.data_count ≤ count_some p.shards) where
    longest_found : longest_shard last 0 p.shards ≡ some sl
    longest_found = elim (longest_shard_cases sl last 0 p.shards slots_Uniform) [
      | inl e ↦ e
      | inr (e, few) ↦
          let all : suc last - 0 ≡ p.data_count = omega (arith, raw_pos) in
          let front = rw all at few in absurd (omega arith)
    ]

    some_parity : (length p.shards - p.data_count == 0) ≡ false
    some_parity = elim (ℕ_discrete (length parity) 0) [
      | yes z ↦
          let all : length p.shards ≡ p.data_count = omega (arith, length-shards) in
          let whole : take p.data_count p.shards ≡ p.shards =
            take_whole p.shards p.data_count all in
          let same = ap count_some whole in absurd (omega arith)
      | no some_there ↦ let size = length-shards in ground arith
    ]

    pub reconstructed : reconstruct p ≡ some (concat raw)
    unfolding reconstruct
    reconstructed =
        let sized : (sl == 0) ≡ false = let pos = code.some_len in ground arith in
        rw (some_parity, longest_found, sized) recover_frame_back
