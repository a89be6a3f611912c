-- ===== src/Reassembler/Arrival.antt =====
-- A frame's data shards arrive at a reassembler that works on no other frame.
use game_streamer_agent.Base.{
  ℕ, zero, suc, ◌%◌, ◌≡◌, ◌<◌, ◌⊎◌, refl, sym, ap, ◌∙◌, subst, inl, inr, true, false, none, some,
  List, [], ◌∷◌, leb, ◌==◌, arith, length, get_elem?, set, take, get_elem?-set_self, replicate,
}
use game_streamer_agent.Wire.Bytes.{ok, ◌>>=◌, U16, U32, IsByte}
use game_streamer_agent.Wire.Video.{VideoDatagramHeader, total_shards}
use game_streamer_agent.Wire.Video
use game_streamer_agent.Fec.Code.{Bytes}
use game_streamer_agent.Chunker.{shard_header}
use game_streamer_agent.Chunker.Chunks.{concat}
use game_streamer_agent.Reassembler.Shards.{
  Slots, Pending, new_pending, matches, count_some, store_shard, assemble_data,
}
use game_streamer_agent.Reassembler.{
  Reassembler, CompletedFrame, Table, insert, remove, entry_for, hold_and_drain, keep_waiting,
  finish, push, drain, drain_held, any_older, insert_held, prune_older_than, retain_newer, is_held,
}
use game_streamer_agent.Reassembler.Counts.{
  IsWellFormed, Stored, store_shard-Stored, new_pending-IsWellFormed, new_pending-matches,
  count_some-set, count_take-set, count_some-replicate, same_count,
}
use game_streamer_agent.Reassembler.Delivery.{
  Agrees, Agrees-set, concat_slots-Agrees, Filled, Filled-set,
}

-- The field types and the caps of the sender.
pub record IsSent (template : VideoDatagramHeader) (ps : List Bytes) (parity : ℕ) : Type 0 where
  pub seq : U32 template.seq
  pub session_epoch : IsByte template.session_epoch
  pub frame_id : U32 template.frame_id
  pub capture_ts_us : U32 template.capture_ts_us
  pub some_data : 0 < length ps
  pub data_U16 : U16 (length ps)
  pub parity_byte : IsByte parity

nothing_Agrees : (ps : List Bytes) (n : ℕ) → Agrees ps (replicate n none)
nothing_Agrees [] n = tt
nothing_Agrees (p ∷ ps) zero = tt
nothing_Agrees (p ∷ ps) (suc n) = (inl refl, nothing_Agrees ps n)

none_in_front : (n k : ℕ) → count_some (take k (replicate n none)) ≡ 0
none_in_front n zero = refl
none_in_front zero (suc k) = refl
none_in_front (suc n) (suc k) = none_in_front n k

none_there : (n k : ℕ) → count_some (replicate n none) ≡ count_some (take k (replicate n none))
none_there n k = count_some-replicate n ∙ sym (none_in_front n k)

set_no_parity :
    (k : ℕ) (ss : Slots) (i : ℕ) (b : Bytes)
    → i < k
    → get_elem? ss i ≡ some none
    → count_some ss ≡ count_some (take k ss)
    → count_some (set ss i (some b)) ≡ count_some (take k (set ss i (some b)))
set_no_parity k ss i b h e n = ground (arith, count_some-set ss i b e, count_take-set k ss i b e)

full_count :
    {d k r : ℕ} (ss : Slots)
    → d ≡ k
    → r ≡ count_some (take d ss)
    → count_some (take k ss) ≡ k
    → (r == d) ≡ true
full_count {d} {k} {r} ss e seen c =
    let s : r ≡ count_some (take k ss) = seen ∙ ap (λ n. count_some (take n ss)) e in ground arith

part_count :
    {d k r : ℕ} (ss : Slots)
    → d ≡ k
    → r ≡ count_some (take d ss)
    → count_some (take k ss) < k
    → (r == d) ≡ false
part_count {d} {k} {r} ss e seen c =
    let s : r ≡ count_some (take k ss) = seen ∙ ap (λ n. count_some (take n ss)) e in ground arith

few_count : {d k r n m : ℕ} → d ≡ k → r ≡ n % 0x1_0000 → n ≡ m → m < k → leb d r ≡ false
few_count e seen same c = ground arith

-- A reassembler with nothing held and nothing delivered.
abbrev pub quiet : Table → Reassembler
quiet t = record { pending = t; held = []; dropped = 0; recovered = 0; latest_delivered = none }

abbrev pub after : ℕ → Reassembler
after id = record {
  pending = [];
  held = [];
  dropped = 0;
  recovered = 0;
  latest_delivered = some id;
}

module _ (template : VideoDatagramHeader) (ps : List Bytes) (len parity : ℕ)
    (sent : IsSent template ps parity) where
  abbrev pub hdr : ℕ → VideoDatagramHeader
  hdr = shard_header template len (length ps) parity

  hdr-IsWellFormed : (i : ℕ) → i < length ps → Video.IsWellFormed (hdr i)
  hdr-IsWellFormed i h = record {
    seq = sent.seq;
    session_epoch = sent.session_epoch;
    frame_id = sent.frame_id;
    chunk_index = omega arith;
    chunk_count = omega arith;
    parity_count = omega arith;
    frame_len = omega arith;
    capture_ts_us = sent.capture_ts_us;
    has_chunks = omega (arith, sent.some_data, sent.data_U16);
    in_range = omega (arith, sent.data_U16);
  }

  abbrev pub frame : CompletedFrame
  frame = record {
    frame_id = template.frame_id;
    kind = template.kind;
    capture_ts_us = template.capture_ts_us;
    «data» = concat ps;
  }

  -- The entry `p` of the frame in table `t`: some data shards of `ps` at their places.
  pub record Waiting (t : Table) (p : Pending) : Type 0 where
    pub only : remove template.frame_id t ≡ []
    pub found : (i : ℕ) → entry_for (quiet t) (hdr i) ≡ p
    pub fine : IsWellFormed p
    pub same : matches p (hdr 0) ≡ true
    pub agrees : Agrees ps p.shards
    pub no_parity : count_some p.shards ≡ count_some (take (length ps) p.shards)
    pub incomplete : count_some (take (length ps) p.shards) < length ps

  pub start : Waiting [] (new_pending (hdr 0))
  unfolding remove entry_for
  start = record {
    only = refl;
    found = λ i. refl;
    fine = new_pending-IsWellFormed (hdr 0) (hdr-IsWellFormed 0 sent.some_data);
    same = new_pending-matches (hdr 0);
    agrees = nothing_Agrees ps _;
    no_parity = none_there _ (length ps);
    incomplete = omega (arith, none_in_front _ (length ps), sent.some_data);
  }

  -- What the arrival of shard `i` makes of the entry.
  pub record Advanced (p : Pending) (i : ℕ) (b : Bytes) : Type 0 where
    pub entry : Pending
    pub stored : store_shard p (hdr i) b ≡ ok entry
    pub fine : IsWellFormed entry
    pub same : matches entry (hdr 0) ≡ true
    pub agrees : Agrees ps entry.shards
    pub no_parity : count_some entry.shards ≡ count_some (take (length ps) entry.shards)
    pub filled : Filled i entry.shards
    pub kept : (j : ℕ) → Filled j p.shards → Filled j entry.shards

  module _ (t : Table) (p : Pending) (wait : Waiting t p) (i : ℕ) (b : Bytes)
      (inside : i < length ps) (at : get_elem? ps i ≡ some b) where
    place : i % 0x1_0000 ≡ i
    place = omega (arith, sent.data_U16)

    room : i < length p.shards
    room = omega (arith, wait.fine.room, same_count p (hdr 0) wait.fine wait.same, sent.data_U16)

    by_slots : Stored p (hdr i) b → Advanced p i b
    by_slots s = split s.slots
      where
        split :
            ((get_elem? p.shards (hdr i).chunk_index ≡ some none)
                × (s.entry.shards ≡ set p.shards (hdr i).chunk_index (some b)))
              ⊎ ((c : Bytes) × (get_elem? p.shards (hdr i).chunk_index ≡ some (some c))
                  × (s.entry.shards ≡ p.shards))
            → Advanced p i b
        split (inl (e, made)) =
            let free : get_elem? p.shards i ≡ some none =
              subst (λ n. get_elem? p.shards n ≡ some none) place e in
            let set_i : s.entry.shards ≡ set p.shards i (some b) =
              made ∙ ap (λ n. set p.shards n (some b)) place in
            record {
              entry = s.entry;
              stored = s.result;
              fine = s.fine;
              same = s.still;
              agrees = rw set_i (Agrees-set ps p.shards i (b) at wait.agrees);
              no_parity =
                  rw set_i (set_no_parity (length ps) p.shards i b inside free wait.no_parity);
              filled = rw set_i (b, get_elem?-set_self p.shards i (some b) room);
              kept = λ j f. rw set_i (Filled-set p.shards i j b f);
            }
        split (inr (c, e, made)) = record {
          entry = s.entry;
          stored = s.result;
          fine = s.fine;
          same = s.still;
          agrees = rw made wait.agrees;
          no_parity = rw made wait.no_parity;
          filled = rw made (c, subst (λ n. get_elem? p.shards n ≡ some (some c)) place e);
          kept = λ j f. rw made f;
        }

    pub advance : Advanced p i b
    advance =
        by_slots
          (store_shard-Stored p (hdr i) wait.fine wait.same b (hdr-IsWellFormed i inside).in_range)

    -- The count of the header.
    pub counted : (n : Advanced p i b) → n.entry.data_count ≡ length ps
    counted n = omega (arith, same_count n.entry (hdr 0) n.fine n.same, sent.data_U16)

    assembled :
        (n : Advanced p i b)
        → count_some (take (length ps) n.entry.shards) ≡ length ps
        → assemble_data n.entry ≡ ok (concat ps)
    unfolding assemble_data
    assembled n c =
        rw (counted n)
          (concat_slots-Agrees ps n.entry.shards (omega (arith, counted n, n.fine.room)) n.agrees c)

    pub removed : (e : Pending) → remove template.frame_id (insert template.frame_id e t) ≡ []
    unfolding remove
    removed e =
        let z : (template.frame_id == template.frame_id) ≡ true = ground arith in
        rw (z, wait.only) refl

    released : hold_and_drain (hdr i) (concat ps) (quiet []) ≡ (after template.frame_id, frame ∷ [])
    unfolding hold_and_drain insert_held drain drain_held any_older prune_older_than retain_newer
    released = refl

    finished :
        (n : Advanced p i b)
        → count_some (take (length ps) n.entry.shards) ≡ length ps
        → finish (hdr i) true n.entry (quiet (insert template.frame_id n.entry t))
          ≡ ok (after template.frame_id, frame ∷ [])
    unfolding finish
    finished n c = rw (assembled n c, ◌>>=◌, removed n.entry, released) refl

    -- The last shard that was missing completes the frame.
    pub completes :
        (n : Advanced p i b)
        → count_some (take (length ps) n.entry.shards) ≡ length ps
        → push (quiet t) (hdr i) b ≡ ok (after template.frame_id, frame ∷ [])
    unfolding push is_held
    completes n c =
        let seen = n.fine.data_seen in
        let count = counted n in
        let full : (n.entry.received_data == n.entry.data_count) ≡ true =
          full_count n.entry.shards count seen c in
        rw (wait.found i, n.stored, ◌>>=◌, full) (finished n c)

    waited :
        (e : Pending)
        → keep_waiting (quiet (insert template.frame_id e t))
          ≡ (quiet (insert template.frame_id e t), [])
    unfolding keep_waiting drain drain_held
    waited e = rw wait.only refl

    pub waits :
        (n : Advanced p i b)
        → count_some (take (length ps) n.entry.shards) < length ps
        → push (quiet t) (hdr i) b ≡ ok (quiet (insert template.frame_id n.entry t), [])
    unfolding push is_held
    waits n c =
        let seen = n.fine.data_seen in
        let count = counted n in
        let part : (n.entry.received_data == n.entry.data_count) ≡ false =
          part_count n.entry.shards count seen c in
        let few : leb n.entry.data_count n.entry.received_total ≡ false =
          few_count count n.fine.total_seen n.no_parity c in
        rw (wait.found i, n.stored, ◌>>=◌, part, few) (ap ok (waited n.entry))
