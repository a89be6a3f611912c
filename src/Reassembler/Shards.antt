-- ===== src/Reassembler/Shards.antt =====
-- `Pending`, `assemble_data` and `reconstruct` of crates/client-core/src/reassembly.rs: the shards of one
-- frame. A slice by a range of `group_layout` is in bounds, since the ranges tile the shards.
use game_streamer_agent.Base.{
  ℕ, zero, suc, ◌+◌, ◌-◌, ◌%◌, min, max, Bool, true, not, ◌&&◌, ◌||◌, Option, none, some, List, [],
  ◌∷◌, ◌++◌, ltb, leb, ◌==◌, if◌then◌else◌, length, set, take, drop, replicate, slice_of,
}
use game_streamer_agent.Wire.Bytes.{Outcome, ok, panic, ◌>>=◌, index}
use game_streamer_agent.Wire.Video.{VideoDatagramHeader, total_shards}
use game_streamer_agent.Fec.Layout.{FecGroup, group_layout}
use game_streamer_agent.Fec.Code.{Bytes, is_none, reconstruct_data}
use game_streamer_agent.Chunker.Chunks.{resize}

abbrev pub Slots : Type 0
Slots = List (Option Bytes)

pub record Pending : Type 0 where
  pub shards : Slots
  pub data_count : ℕ
  pub received_data : ℕ
  pub received_total : ℕ
  pub frame_len : ℕ
  pub epoch : ℕ

-- `Pending::new`
abbrev pub new_pending : VideoDatagramHeader → Pending
new_pending header = record {
  shards = replicate (total_shards header.chunk_count header.parity_count) none;
  data_count = header.chunk_count;
  received_data = 0;
  received_total = 0;
  frame_len = header.frame_len;
  epoch = header.session_epoch;
}

abbrev pub matches : Pending → VideoDatagramHeader → Bool
matches p header =
    (p.epoch == header.session_epoch)
    && (p.data_count == header.chunk_count)
    && (length p.shards == total_shards header.chunk_count header.parity_count)
    && (p.frame_len == header.frame_len)

abbrev pub count_some : Slots → ℕ
count_some [] = 0
count_some (none ∷ ss) = count_some ss
count_some (some b ∷ ss) = suc (count_some ss)

-- Whether each group has as many of its shards as it has data.
unfoldable pub recoverable_groups : Slots → List FecGroup → Bool
recoverable_groups shards [] = true
recoverable_groups shards (g ∷ gs) =
    let here = count_some (slice_of shards g.data_start (g.data_start + g.data_len)) in
    let parity = count_some (slice_of shards g.parity_start (g.parity_start + g.parity_len)) in
    ((here == g.data_len) || leb g.data_len (here + parity)) && recoverable_groups shards gs

unfoldable pub recoverable : Pending → Bool
unfolding recoverable_groups
recoverable p =
    recoverable_groups p.shards (group_layout p.data_count (length p.shards - p.data_count))

-- A shard goes to its slot, unless one is there; the counters are of 16 bits.
unfoldable pub store_shard : Pending → VideoDatagramHeader → Bytes → Outcome Pending
store_shard p header payload = do
  slot ← index p.shards header.chunk_index
  ok (
      if is_none slot
      then record p {
        shards = set p.shards header.chunk_index (some payload);
        received_total = (p.received_total + 1) % 0x1_0000;
        received_data =
            if ltb header.chunk_index header.chunk_count
            then (p.received_data + 1) % 0x1_0000
            else p.received_data;
      }
      else p)

-- The shards one after another; an absent one is a failed `expect`.
unfoldable pub concat_slots : Slots → Outcome Bytes
concat_slots [] = ok []
concat_slots (none ∷ ss) = panic
concat_slots (some b ∷ ss) = do rest ← concat_slots ss; ok (b ++ rest)

unfoldable pub assemble_data : Pending → Outcome Bytes
unfolding concat_slots
assemble_data done = concat_slots (take done.data_count done.shards)

-- The greatest length of a shard, but for that in slot `last`, from slot `i` on.
unfoldable pub longest_shard : ℕ → ℕ → Slots → Option ℕ
longest_shard last i [] = none
longest_shard last i (none ∷ ss) = longest_shard last (suc i) ss
longest_shard last i (some b ∷ ss) =
    let rest = longest_shard last (suc i) ss in
    if i == last
    then rest
    else elim rest [ none ↦ some (length b) | some n ↦ some (max (length b) n) ]

-- Shards of a wrong length go; the others are padded.
unfoldable pub uniform_shards : ℕ → ℕ → ℕ → Slots → Slots
uniform_shards shard_len last i [] = []
uniform_shards shard_len last i (none ∷ ss) = none ∷ uniform_shards shard_len last (suc i) ss
uniform_shards shard_len last i (some b ∷ ss) =
    (if ltb shard_len (length b) || (ltb (length b) shard_len && not (i == last))
      then none
      else some (resize shard_len b))
    ∷ uniform_shards shard_len last (suc i) ss

-- `Option::take` on the slots from `a` to `b`.
unfoldable pub clear_slots : ℕ → ℕ → Slots → Slots
clear_slots a b shards = take a shards ++ replicate (b - a) none ++ drop b shards

-- `for (slot, recovered) in shards[a..a + n].iter_mut().zip(group)`
unfoldable pub write_slots : ℕ → ℕ → Slots → Slots → Slots
write_slots zero zero group shards = shards
write_slots zero (suc n) (r ∷ group) (s ∷ shards) = r ∷ write_slots zero n group shards
write_slots (suc a) n group (s ∷ shards) = s ∷ write_slots a n group shards
write_slots _ _ group shards = shards

unfoldable pub recover_groups : List FecGroup → Slots → Option Slots
unfolding clear_slots write_slots
recover_groups [] shards = some shards
recover_groups (g ∷ gs) shards =
    let data_end = g.data_start + g.data_len in
    let parity_end = g.parity_start + g.parity_len in
    let here = slice_of shards g.data_start data_end in
    if count_some here == length here
    then recover_groups gs shards
    else (let group = here ++ slice_of shards g.parity_start parity_end in
        let taken =
          clear_slots g.parity_start parity_end (clear_slots g.data_start data_end shards) in
        let (recovered, complete) = reconstruct_data group g.data_len in
        if complete
        then recover_groups gs (write_slots g.data_start g.data_len recovered taken)
        else none)

-- `frame.extend_from_slice(s.as_ref()?)` over the slots
unfoldable pub all_slots : Slots → Option Bytes
all_slots [] = some []
all_slots (none ∷ ss) = none
all_slots (some b ∷ ss) = elim (all_slots ss) [ none ↦ none | some rest ↦ some (b ++ rest) ]

-- The recovery of the groups, joined and cut to the length that the header gives.
unfoldable pub recover_frame : Pending → ℕ → Option Bytes
unfolding uniform_shards recover_groups all_slots
recover_frame done shard_len =
    let k = done.data_count in
    let layout = group_layout k (length done.shards - k) in
    elim (recover_groups layout (uniform_shards shard_len (k - 1) 0 done.shards)) [
      | none ↦ none
      | some shards ↦ elim (all_slots (take k shards)) [
        | none ↦ none
        | some frame ↦ some (take (min done.frame_len (length frame)) frame)
      ]
    ]

unfoldable pub reconstruct : Pending → Option Bytes
unfolding longest_shard recover_frame
reconstruct done =
    if length done.shards - done.data_count == 0
    then none
    else elim (longest_shard (done.data_count - 1) 0 done.shards) [
      | none ↦ none
      | some shard_len ↦ if shard_len == 0 then none else recover_frame done shard_len
    ]
