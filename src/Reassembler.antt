-- ===== src/Reassembler.antt =====
-- `Reassembler` of crates/client-core/src/reassembly.rs: shards become frames, released in order. The map of
-- pending frames is an association list: no operation depends on the order of its iteration.
mod Tests
pub mod Shards
pub mod Counts
pub mod Table
pub mod Soundness
pub mod Delivery
pub mod Arrival
pub mod Sequence
pub mod Recovery
use game_streamer_agent.Base.{
  ℕ, zero, suc, ◌+◌, ◌-◌, ◌%◌, Bool, true, false, not, ◌&&◌, ◌||◌, Option, none, some, List, [],
  ◌∷◌, ◌++◌, map, ltb, leb, ◌==◌, if◌then◌else◌, length,
}
use game_streamer_agent.Wire.Bytes.{Outcome, ok, panic, ◌>>=◌}
use game_streamer_agent.Wire.FrameKind.{FrameKind, is_idr}
use game_streamer_agent.Wire.Video.{VideoDatagramHeader}
use game_streamer_agent.Fec.Code.{Bytes}
use Shards.{Pending, new_pending, matches, recoverable, store_shard, assemble_data, reconstruct}

pub record CompletedFrame : Type 0 where
  pub frame_id : ℕ
  pub kind : FrameKind
  pub capture_ts_us : ℕ
  pub «data» : Bytes

abbrev pub hold_limit : ℕ
hold_limit = 3

abbrev pub max_pending : ℕ
max_pending = 8

abbrev pub Table : Type 0
Table = List (ℕ × Pending)

pub record Reassembler : Type 0 where
  pub pending : Table
  pub held : List CompletedFrame
  pub dropped : ℕ
  pub recovered : ℕ
  pub latest_delivered : Option ℕ

-- `Reassembler::new`
abbrev pub new_reassembler : Reassembler
new_reassembler = record {
  pending = [];
  held = [];
  dropped = 0;
  recovered = 0;
  latest_delivered = none;
}

-- `b.wrapping_sub(a)` of 32-bit numbers
abbrev pub age_of : ℕ → ℕ → ℕ
age_of a b = (b + 0x1_0000_0000 - a) % 0x1_0000_0000

-- `u32::MAX / 2`
abbrev pub half : ℕ
half = 0x7fff_ffff

abbrev pub older : ℕ → ℕ → Bool
older a b = ltb 0 (age_of a b) && ltb (age_of a b) half

-- A 64-bit counter.
abbrev pub add_count : ℕ → ℕ → ℕ
add_count n k = (n + k) % 0x1_0000_0000_0000_0000

unfoldable pub lookup : ℕ → Table → Option Pending
lookup id [] = none
lookup id ((key, p) ∷ t) = let rest = lookup id t in if key == id then some p else rest

unfoldable pub remove : ℕ → Table → Table
remove id [] = []
remove id ((key, p) ∷ t) = let rest = remove id t in if key == id then rest else (key, p) ∷ rest

abbrev pub insert : ℕ → Pending → Table → Table
insert id p t = (id, p) ∷ remove id t

-- `retain` of the frames that are not older than `completed`
unfoldable pub retain_newer : ℕ → Table → Table
retain_newer completed [] = []
retain_newer completed ((key, p) ∷ t) =
    let rest = retain_newer completed t in if older key completed then rest else (key, p) ∷ rest

unfoldable pub prune_older_than : ℕ → Reassembler → Reassembler
unfolding retain_newer
prune_older_than completed r =
    let pending = retain_newer completed r.pending in
    record r {
      pending = pending;
      dropped = add_count r.dropped (length r.pending - length pending);
    }

-- `keys().max_by_key(rank)`, from the best key so far
unfoldable pub max_by_key : (ℕ → ℕ) → ℕ → Table → ℕ
max_by_key rank best [] = best
max_by_key rank best ((key, p) ∷ t) =
    max_by_key rank (if leb (rank best) (rank key) then key else best) t

unfoldable pub prune_oldest : Reassembler → Reassembler
unfolding max_by_key remove
prune_oldest r = elim r.pending [
  | [] ↦ r
  | (key, p) ∷ t ↦
      let newest = max_by_key (λ id. id) key t in
      let oldest = max_by_key (λ id. age_of id newest) key t in
      record r { pending = remove oldest r.pending; dropped = add_count r.dropped 1 }
]

unfoldable pub any_older : ℕ → Table → Bool
any_older id [] = false
any_older id ((key, p) ∷ t) = older key id || any_older id t

-- The loop of `drain`, over the frames that are held; the state's own `held` is set at the end.
unfoldable pub drain_held : List CompletedFrame → Reassembler → Reassembler × List CompletedFrame
unfolding any_older prune_older_than
drain_held [] r = (record r { held = [] }, [])
drain_held (head ∷ rest) r =
    let blocked = any_older head.frame_id r.pending in
    let force = is_idr head.kind || ltb hold_limit (length (head ∷ rest)) in
    let released =
      prune_older_than head.frame_id (record r { latest_delivered = some head.frame_id }) in
    let later = drain_held rest released in
    if blocked && not force
    then (record r { held = head ∷ rest }, [])
    else (later.0, head ∷ later.1)

unfoldable pub drain : Reassembler → Reassembler × List CompletedFrame
unfolding drain_held
drain r = drain_held r.held r

unfoldable pub is_held : ℕ → List CompletedFrame → Bool
is_held id [] = false
is_held id (h ∷ hs) = (h.frame_id == id) || is_held id hs

-- Before the first frame that is newer.
unfoldable pub insert_held : CompletedFrame → List CompletedFrame → List CompletedFrame
insert_held frame [] = frame ∷ []
insert_held frame (h ∷ hs) =
    let rest = insert_held frame hs in
    if older frame.frame_id h.frame_id then frame ∷ h ∷ hs else h ∷ rest

-- The shard of a frame at or before the last one delivered.
abbrev pub is_stale : Option ℕ → ℕ → Bool
is_stale none id = false
is_stale (some latest) id = ltb (age_of id latest) half

-- The entry of a frame: a new one where there is none, or none that fits the header.
unfoldable pub entry_for : Reassembler → VideoDatagramHeader → Pending
unfolding lookup
entry_for r header = elim (lookup header.frame_id r.pending) [
  | none ↦ new_pending header
  | some p ↦ if matches p header then p else new_pending header
]

abbrev completed : VideoDatagramHeader → Bytes → CompletedFrame
completed header bytes = record {
  frame_id = header.frame_id;
  kind = header.kind;
  capture_ts_us = header.capture_ts_us;
  «data» = bytes;
}

unfoldable pub hold_and_drain :
    VideoDatagramHeader → Bytes → Reassembler → Reassembler × List CompletedFrame
unfolding insert_held drain
hold_and_drain header bytes r =
    drain (record r { held = insert_held (completed header bytes) r.held })

-- What follows when a frame is still incomplete.
unfoldable pub keep_waiting : Reassembler → Reassembler × List CompletedFrame
unfolding prune_oldest drain
keep_waiting r = drain (if ltb max_pending (length r.pending) then prune_oldest r else r)

-- What follows when enough of a frame is there; its entry is removed from the table.
unfoldable pub finish :
    VideoDatagramHeader → Bool → Pending → Reassembler → Outcome (Reassembler × List CompletedFrame)
unfolding hold_and_drain
finish header complete_direct entry r =
    let rest = record r { pending = remove header.frame_id r.pending } in
    if complete_direct
    then (do bytes ← assemble_data entry; ok (hold_and_drain header bytes rest))
    else elim (reconstruct entry) [
      | some bytes ↦
          ok (hold_and_drain header bytes (record rest { recovered = add_count rest.recovered 1 }))
      | none ↦ ok (drain (record rest { dropped = add_count rest.dropped 1 }))
    ]

unfoldable pub push :
    Reassembler → VideoDatagramHeader → Bytes → Outcome (Reassembler × List CompletedFrame)
unfolding is_held entry_for keep_waiting finish
push r header payload =
    if is_stale r.latest_delivered header.frame_id || is_held header.frame_id r.held
    then ok (r, [])
    else (do
      entry ← store_shard (entry_for r header) header payload
      let stored = record r { pending = insert header.frame_id entry r.pending }
      let complete_direct = entry.received_data == entry.data_count
      let reconstructable =
          not complete_direct && leb entry.data_count entry.received_total && recoverable entry
      if complete_direct || reconstructable
          then finish header complete_direct entry stored
          else ok (keep_waiting stored))
