-- ===== src/Reassembler/Recovery/Pushes.antt =====
-- The three things that a `push` of crates/client-core/src/reassembly.rs does with the shard of a frame
-- that is alone in the table: wait, release the frame, or recover it.
use game_streamer_agent.Base.{
  ℕ, ◌≡◌, ◌≢◌, ◌≤◌, ◌⊎◌, inl, inr, refl, sym, ap, ◌∙◌, true, false, ◌&&◌, none, List, [], ◌∷◌,
  arith, leb, ◌==◌, Bool-cases, length, take, length-append, ℕ_discrete,
}
use game_streamer_agent.Wire.Bytes.{Outcome, ok, ◌>>=◌}
use game_streamer_agent.Wire.Video.{VideoDatagramHeader}
use game_streamer_agent.Fec.Code.{Bytes}
use game_streamer_agent.Fec.Recovery.Erased.{length-erased}
use game_streamer_agent.Chunker.Chunks.{concat}
use game_streamer_agent.Reassembler.Shards.{Pending, count_some, assemble_data, recoverable}
use game_streamer_agent.Reassembler.{
  Reassembler, CompletedFrame, Table, insert, hold_and_drain, keep_waiting, finish, push, drain,
  drain_held, any_older, insert_held, prune_older_than, retain_newer, is_held,
}
use game_streamer_agent.Reassembler.Counts.{count_some-le}
use game_streamer_agent.Reassembler.Delivery.{concat_slots-Agrees}
use game_streamer_agent.Reassembler.Arrival.{quiet}
use game_streamer_agent.Reassembler.Sequence.{found_again}
use game_streamer_agent.Reassembler.Recovery.Frame.{reconstructed}
use game_streamer_agent.Reassembler.Recovery.Arrivals.{
  IsSendable, Waiting, Advanced, entry_counts, header, sent, whole, delivered, remove_again,
  IsErased-Agrees,
}

module _ (template : VideoDatagramHeader) (sl : ℕ) (raw padded parity : List Bytes)
    (fr : IsSendable template sl raw padded parity) where
  abbrev frame : CompletedFrame
  frame = whole template sl raw padded parity fr

  abbrev hdr : ℕ → VideoDatagramHeader
  hdr = header template sl raw padded parity fr

  -- What a push returns, and where the entry is afterwards.
  pub record Waits (r : Outcome (Reassembler × List CompletedFrame)) (entry : Pending)
      : Type 0 where
    pub table : Table
    pub still : Waiting template sl raw padded parity fr table entry
    pub returns : r ≡ ok (quiet table, [])

  pub record Delivers (r : Outcome (Reassembler × List CompletedFrame)) : Type 0 where
    pub recovered : ℕ
    pub few : recovered ≤ 1
    pub returns : r ≡ ok (delivered template.frame_id recovered, frame ∷ [])

  module _ (t : Table) (p : Pending) (w : Waiting template sl raw padded parity fr t p) (i : ℕ)
      (b : Bytes) (n : Advanced template sl raw padded parity fr p i b) where
    abbrev front : ℕ
    front = count_some (take n.entry.data_count n.entry.shards)

    counts :
        (n.entry.data_count ≡ length raw)
        × (n.entry.received_total ≡ count_some n.entry.shards)
        × (n.entry.frame_len ≡ length (concat raw))
    counts = entry_counts template sl raw padded parity fr n.entry n.fine n.same n.erased

    assembled : front ≡ n.entry.data_count → assemble_data n.entry ≡ ok (concat raw)
    unfolding assemble_data
    assembled c =
        let (k, total, len) = counts in
        let all : count_some (take (length raw) n.entry.shards) ≡ length raw =
          ap (λ m. count_some (take m n.entry.shards)) (sym k) ∙ c ∙ k in
        rw k (
          concat_slots-Agrees raw n.entry.shards
            (omega (
              arith,
              length-erased n.entry.shards (sent template sl raw padded parity fr) n.erased,
              length-append raw parity,
            ))
            (IsErased-Agrees n.entry.shards raw parity n.erased) all)

    released :
        (extra : ℕ)
        → hold_and_drain (hdr i) (concat raw) (record {
          pending = [];
          held = [];
          dropped = 0;
          recovered = extra;
          latest_delivered = none;
        })
          ≡ (delivered template.frame_id extra, frame ∷ [])
    unfolding hold_and_drain insert_held drain drain_held any_older prune_older_than retain_newer
    released extra = refl

    -- The data shards are all there.
    pub completes : front ≡ n.entry.data_count → Delivers (push (quiet t) (hdr i) b)
    unfolding push is_held finish
    completes c =
        let seen = n.fine.data_seen in
        let full : (n.entry.received_data == n.entry.data_count) ≡ true = ground arith in
        let gone = remove_again template.frame_id n.entry t w.only in
        record {
          recovered = 0;
          few = omega arith;
          returns =
              rw (w.found i, n.stored, ◌>>=◌, full, assembled c, ◌>>=◌, gone, released 0) refl;
        }

    -- Enough of every group is there.
    pub recovers :
        front ≢ n.entry.data_count
        → (leb n.entry.data_count (count_some n.entry.shards) && recoverable n.entry) ≡ true
        → Delivers (push (quiet t) (hdr i) b)
    unfolding push is_held finish
    recovers c enough =
        let seen = n.fine.data_seen in
        let most = count_some-le n.entry.data_count n.entry.shards in
        let (k, total, len) = counts in
        let part : (n.entry.received_data == n.entry.data_count) ≡ false = ground arith in
        let many : leb n.entry.data_count n.entry.received_total ≡ true = ground arith in
        let ready : recoverable n.entry ≡ true = ground arith in
        let back =
          reconstructed n.entry sl raw padded parity fr.code k len n.erased ready (omega arith)
            (ground arith) in
        let gone = remove_again template.frame_id n.entry t w.only in
        record {
          recovered = 1;
          few = omega arith;
          returns = rw (w.found i, n.stored, ◌>>=◌, part, many, ready, back, gone, released 1) refl;
        }

    -- Not enough is there yet.
    pub keeps :
        front ≢ n.entry.data_count
        → (leb n.entry.data_count (count_some n.entry.shards) && recoverable n.entry) ≡ false
        → Waits (push (quiet t) (hdr i) b) n.entry
    unfolding push is_held keep_waiting drain drain_held
    keeps c less =
        let seen = n.fine.data_seen in
        let (k, total, len) = counts in
        let part : (n.entry.received_data == n.entry.data_count) ≡ false = ground arith in
        let unready : (leb n.entry.data_count n.entry.received_total && recoverable n.entry)
            ≡ false =
          ap (λ m. leb n.entry.data_count m && recoverable n.entry) total ∙ less in
        record {
          table = insert template.frame_id n.entry t;
          still = record {
            only = remove_again template.frame_id n.entry t w.only;
            found = λ j. found_again template.frame_id (hdr j) n.entry t refl n.same;
            fine = n.fine;
            same = n.same;
            erased = n.erased;
            missing = c;
            unready = less;
          };
          returns = rw (w.found i, n.stored, ◌>>=◌, part, unready, w.only) refl;
        }

    -- One of the three.
    pub push_cases : Delivers (push (quiet t) (hdr i) b) ⊎ Waits (push (quiet t) (hdr i) b) n.entry
    push_cases = elim (ℕ_discrete front n.entry.data_count) [
      | yes c ↦ inl (completes c)
      | no c ↦
          elim (Bool-cases
            (leb n.entry.data_count (count_some n.entry.shards) && recoverable n.entry)) [
              | inl enough ↦ inl (recovers c enough)
              | inr less ↦ inr (keeps c less)
            ]
    ]
