-- ===== src/Reassembler/Recovery/Arrivals.antt =====
-- `push` of crates/client-core/src/reassembly.rs on the data and parity shards of one frame.
use game_streamer_agent.Base.{
  ℕ, zero, suc, ◌+◌, ◌%◌, ◌≡◌, ◌≢◌, ◌≤◌, ◌<◌, ◌⊎◌, inl, inr, refl, sym, ap, ◌∙◌, subst, true, false,
  ◌&&◌, none, some, List, [], ◌∷◌, ◌++◌, arith, leb, ◌==◌, length, get_elem?, set, take,
  length-append, replicate, get_elem?-set_self,
}
use game_streamer_agent.Wire.Bytes.{ok, U32, IsByte}
use game_streamer_agent.Wire.Video.{VideoDatagramHeader, total_shards}
use game_streamer_agent.Wire.Video
use game_streamer_agent.Fec.Code.{Bytes}
use game_streamer_agent.Fec.Recovery.Erased.{IsErased, length-erased}
use game_streamer_agent.Chunker.{shard_header, u16_max}
use game_streamer_agent.Chunker.Chunks.{concat}
use game_streamer_agent.Reassembler.Shards.{
  Slots, Pending, matches, count_some, store_shard, recoverable,
}
use game_streamer_agent.Reassembler.{Reassembler, CompletedFrame, Table, insert, remove, entry_for}
use game_streamer_agent.Reassembler.Counts.{IsWellFormed, Stored, store_shard-Stored, same_count}
use game_streamer_agent.Reassembler.Delivery.{Agrees, Filled, Filled-set}
use game_streamer_agent.Reassembler.Arrival.{quiet}
use game_streamer_agent.Reassembler.Recovery.Erasures.{count_some_most}
use game_streamer_agent.Reassembler.Recovery.Frame.{IsCodeword}
use game_streamer_agent.Reassembler.Recovery.Padded.{pads_pos}

-- The types of the header's fields.
pub record HasFieldTypes (template : VideoDatagramHeader) : Type 0 where
  pub seq : U32 template.seq
  pub session_epoch : IsByte template.session_epoch
  pub frame_id : U32 template.frame_id
  pub capture_ts_us : U32 template.capture_ts_us

pub nothing-IsErased : (ss : List Bytes) (n : ℕ) → n ≡ length ss → IsErased (replicate n none) ss
nothing-IsErased [] zero e = tt
nothing-IsErased [] (suc n) e = absurd (omega arith)
nothing-IsErased (s ∷ ss) zero e = absurd (omega arith)
nothing-IsErased (s ∷ ss) (suc n) e = nothing-IsErased ss n (omega arith)

IsErased-set :
    (rx : Slots) (ss : List Bytes) (i : ℕ) (b : Bytes)
    → get_elem? ss i ≡ some b
    → IsErased rx ss
    → IsErased (set rx i (some b)) ss
IsErased-set [] [] i b e h = tt
IsErased-set [] (s ∷ ss) i b e h = elim h [ ]
IsErased-set (none ∷ rx) [] i b e h = elim h [ ]
IsErased-set (some t ∷ rx) [] i b e h = elim h [ ]
IsErased-set (none ∷ rx) (s ∷ ss) zero b e h = (sym (ground arith), h)
IsErased-set (some t ∷ rx) (s ∷ ss) zero b e (_, h) = (sym (ground arith), h)
IsErased-set (none ∷ rx) (s ∷ ss) (suc i) b e h = IsErased-set rx ss i b e h
IsErased-set (some t ∷ rx) (s ∷ ss) (suc i) b e (same, h) = (same, IsErased-set rx ss i b e h)

pub IsErased-Agrees :
    (rx : Slots) (raw parity : List Bytes) → IsErased rx (raw ++ parity) → Agrees raw rx
IsErased-Agrees rx [] parity h = tt
IsErased-Agrees [] (r ∷ raw) parity h = tt
IsErased-Agrees (none ∷ rx) (r ∷ raw) parity h = (inl refl, IsErased-Agrees rx raw parity h)
IsErased-Agrees (some t ∷ rx) (r ∷ raw) parity (e, h) =
    (inr (ap some e), IsErased-Agrees rx raw parity h)

pub remove_again :
    (id : ℕ) (e : Pending) (t : Table) → remove id t ≡ [] → remove id (insert id e t) ≡ []
unfolding remove
remove_again id e t h = let z : (id == id) ≡ true = ground arith in rw (z, h) refl

-- A reassembler that has delivered one frame, by recovery or not.
abbrev pub delivered : ℕ → ℕ → Reassembler
delivered id recovered = record {
  pending = [];
  held = [];
  dropped = 0;
  recovered = recovered;
  latest_delivered = some id;
}

-- A frame that can be sent under the headers of the template: its shards can be numbered, and its
-- length and the count of its parity shards fit their fields.
pub record IsSendable (template : VideoDatagramHeader) (sl : ℕ) (raw padded parity : List Bytes)
    : Type 0 where
  pub types : HasFieldTypes template
  pub code : IsCodeword sl raw padded parity
  pub few : length raw + length parity ≤ u16_max
  pub byte : IsByte (length parity)
  pub size : U32 (length (concat raw))

module _ (template : VideoDatagramHeader) (sl : ℕ) (raw padded parity : List Bytes)
    (ok_frame : IsSendable template sl raw padded parity) where
  abbrev pub header : ℕ → VideoDatagramHeader
  header = shard_header template (length (concat raw)) (length raw) (length parity)

  abbrev pub sent : List Bytes
  sent = raw ++ parity

  abbrev pub whole : CompletedFrame
  whole = record {
    frame_id = template.frame_id;
    kind = template.kind;
    capture_ts_us = template.capture_ts_us;
    «data» = concat raw;
  }

  pub some_data : 0 < length raw
  some_data = pads_pos sl raw padded ok_frame.code.pads

  pub header-IsWellFormed : (i : ℕ) → i < length sent → Video.IsWellFormed (header i)
  header-IsWellFormed i h =
      let few = ok_frame.few in
      let byte = ok_frame.byte in
      let size = ok_frame.size in
      let total = length-append raw parity in
      let pos = some_data in
      record {
        seq = ok_frame.types.seq;
        session_epoch = ok_frame.types.session_epoch;
        frame_id = ok_frame.types.frame_id;
        chunk_index = omega arith;
        chunk_count = omega arith;
        parity_count = omega arith;
        frame_len = omega arith;
        capture_ts_us = ok_frame.types.capture_ts_us;
        has_chunks = omega arith;
        in_range = omega arith;
      }

  -- The entry of the frame: what was sent, or nothing, in each slot, and not yet enough.
  pub record Waiting (t : Table) (p : Pending) : Type 0 where
    pub only : remove template.frame_id t ≡ []
    pub found : (i : ℕ) → entry_for (quiet t) (header i) ≡ p
    pub fine : IsWellFormed p
    pub same : matches p (header 0) ≡ true
    pub erased : IsErased p.shards sent
    pub missing : count_some (take p.data_count p.shards) ≢ p.data_count
    pub unready : (leb p.data_count (count_some p.shards) && recoverable p) ≡ false

  -- What the arrival of shard `i` makes of the entry.
  pub record Advanced (p : Pending) (i : ℕ) (b : Bytes) : Type 0 where
    pub entry : Pending
    pub stored : store_shard p (header i) b ≡ ok entry
    pub fine : IsWellFormed entry
    pub same : matches entry (header 0) ≡ true
    pub erased : IsErased entry.shards sent
    pub filled : Filled i entry.shards
    pub kept : (j : ℕ) → Filled j p.shards → Filled j entry.shards

  -- The counts of an entry that matches the header.
  pub entry_counts :
      (p : Pending)
      → IsWellFormed p
      → matches p (header 0) ≡ true
      → IsErased p.shards sent
      → (p.data_count ≡ length raw)
        × (p.received_total ≡ count_some p.shards)
        × (p.frame_len ≡ length (concat raw))
  entry_counts p fine same erased =
      let few = ok_frame.few in
      let size = ok_frame.size in
      let total = length-append raw parity in
      let len = length-erased p.shards sent erased in
      let most = count_some_most p.shards in
      let seen = fine.total_seen in
      let same_data = same_count p (header 0) fine same in
      let frame_len : p.frame_len ≡ length (concat raw) % 0x1_0000_0000 = ground arith in
      (omega arith, omega arith, omega arith)

  module _ (p : Pending) (fine : IsWellFormed p) (same : matches p (header 0) ≡ true)
      (erased : IsErased p.shards sent) (i : ℕ) (b : Bytes) (inside : i < length sent)
      (at : get_elem? sent i ≡ some b) where
    place : i % 0x1_0000 ≡ i
    place = let few = ok_frame.few in let total = length-append raw parity in omega arith

    pub advance : Advanced p i b
    advance =
        by_slots
          (store_shard-Stored p (header i) fine same b (header-IsWellFormed i inside).in_range)
      where
        by_slots : Stored p (header i) b → Advanced p i b
        by_slots s = split s.slots
          where
            split :
                ((get_elem? p.shards (header i).chunk_index ≡ some none)
                    × (s.entry.shards ≡ set p.shards (header i).chunk_index (some b)))
                  ⊎ ((c : Bytes) × (get_elem? p.shards (header i).chunk_index ≡ some (some c))
                      × (s.entry.shards ≡ p.shards))
                → Advanced p i b
            split (inl (e, made)) =
                let room : i < length p.shards =
                  omega (arith, length-erased p.shards sent erased) in
                let set_i : s.entry.shards ≡ set p.shards i (some b) =
                  made ∙ ap (λ n. set p.shards n (some b)) place in
                record {
                  entry = s.entry;
                  stored = s.result;
                  fine = s.fine;
                  same = s.still;
                  erased = rw set_i (IsErased-set p.shards sent i b at erased);
                  filled = rw set_i (b, get_elem?-set_self p.shards i (some b) room);
                  kept = λ j f. rw set_i (Filled-set p.shards i j b f);
                }
            split (inr (c, e, made)) = record {
              entry = s.entry;
              stored = s.result;
              fine = s.fine;
              same = s.still;
              erased = rw made erased;
              filled = rw made (c, subst (λ n. get_elem? p.shards n ≡ some (some c)) place e);
              kept = λ j f. rw made f;
            }
