-- ===== src/Reassembler/Recovery/Stream.antt =====
-- A frame from `chunk_video_frame` of crates/protocol/src/datagram.rs through a network that loses,
-- repeats and reorders datagrams into a fresh `Reassembler` of crates/client-core/src/reassembly.rs.
use game_streamer_agent.Base.{
  ℕ, ◌+◌, ◌-◌, ◌≡◌, ◌≤◌, ◌<◌, ◌⊎◌, inl, inr, refl, sym, ap, ap₂, ◌∙◌, subst, true, Option, none,
  List, [], ◌∷◌, ◌++◌, arith, leb, ltb, ◌==◌, Bool-cases, length, All, length-append,
  length-replicate,
}
use game_streamer_agent.Wire.Bytes.{Outcome, ok, ◌>>=◌, U32}
use game_streamer_agent.Wire.Video.{VideoDatagramHeader, total_shards, video_header_len}
use game_streamer_agent.Fec.Layout.{group_layout}
use game_streamer_agent.Fec.Code.{Bytes}
use game_streamer_agent.Fec.Recovery.Erased.{length-erased}
use game_streamer_agent.Chunker.{
  u16_max, chunk_count, parity_count, shard_header, encode_shards, chunk_video_frame,
}
use game_streamer_agent.Chunker.Frame.{parity_count-bounds}
use game_streamer_agent.Chunker.Chunks.{concat}
use game_streamer_agent.Reassembler.Shards.{
  Pending, new_pending, count_some, recoverable, recoverable_groups,
}
use game_streamer_agent.Reassembler.{
  Reassembler, CompletedFrame, Table, new_reassembler, push, half, age_of, remove, entry_for,
}
use game_streamer_agent.Reassembler.Counts.{
  new_pending-IsWellFormed, new_pending-matches, count_some-replicate,
}
use game_streamer_agent.Reassembler.Delivery.{Filled}
use game_streamer_agent.Reassembler.Arrival.{quiet}
use game_streamer_agent.Reassembler.Sequence.{push_all, under_headers, places, IsArrival}
use game_streamer_agent.Reassembler.Recovery.Arrivals.{
  HasFieldTypes, IsSendable, Waiting, Advanced, advance, entry_counts, header, header-IsWellFormed,
  sent, whole, delivered, nothing-IsErased, some_data,
}
use game_streamer_agent.Reassembler.Recovery.Frame.{take_whole}
use game_streamer_agent.Reassembler.Recovery.Pushes.{Delivers, push_cases}
use game_streamer_agent.Reassembler.Recovery.Enough.{
  occurs, IsEnough, recoverable_groups_enough, count_enough,
}
use game_streamer_agent.Reassembler.Recovery.Transmission.{Transmission, transmitted, sent_shards}

module _ (template : VideoDatagramHeader) (sl : ℕ) (raw padded parity : List Bytes)
    (fr : IsSendable template sl raw padded parity) where
  abbrev frame : CompletedFrame
  frame = whole template sl raw padded parity fr

  abbrev hdr : ℕ → VideoDatagramHeader
  hdr = header template sl raw padded parity fr

  start : Waiting template sl raw padded parity fr [] (new_pending (hdr 0))
  unfolding remove entry_for
  start =
      let total = length-append raw parity in
      let few = fr.few in
      let byte = fr.byte in
      let pos = some_data template sl raw padded parity fr in
      let len =
        length-replicate {A = Option Bytes} (total_shards (hdr 0).chunk_count (hdr 0).parity_count)
          none in
      let empty = count_some-replicate (total_shards (hdr 0).chunk_count (hdr 0).parity_count) in
      let fine =
        new_pending-IsWellFormed (hdr 0)
          (header-IsWellFormed template sl raw padded parity fr 0 (omega arith)) in
      let seen = fine.data_seen in
      record {
        only = refl;
        found = λ i. refl;
        fine = fine;
        same = new_pending-matches (hdr 0);
        erased =
            nothing-IsErased (raw ++ parity) (total_shards (hdr 0).chunk_count (hdr 0).parity_count)
              (omega arith);
        missing = λ e. absurd (omega arith);
        unready = ground arith;
      }

  -- A frame that was delivered is not opened again.
  late :
      (recovered : ℕ) (ds : List (ℕ × Bytes))
      → push_all (delivered template.frame_id recovered) (under_headers hdr ds)
        ≡ ok (delivered template.frame_id recovered, [])
  unfolding push
  late recovered [] = refl
  late recovered ((i, b) ∷ ds) =
      let now : ltb (age_of template.frame_id template.frame_id) half ≡ true = ground arith in
      rw (now, ◌>>=◌, late recovered ds) refl

  -- Either the frame has gone out, or its entry has every shard that came.
  record Kept (p : Pending) (ds : List (ℕ × Bytes))
      (result : Outcome (Reassembler × List CompletedFrame)) : Type 0 where
    table : Table
    entry : Pending
    waiting : Waiting template sl raw padded parity fr table entry
    there : (j : ℕ) → Filled j p.shards ⊎ (occurs j (places ds) ≡ true) → Filled j entry.shards

  outcome :
      (ds : List (ℕ × Bytes)) (t : Table) (p : Pending)
      → Waiting template sl raw padded parity fr t p
      → All (IsArrival (raw ++ parity)) ds
      → Delivers template sl raw padded parity fr (push_all (quiet t) (under_headers hdr ds))
        ⊎ Kept p ds (push_all (quiet t) (under_headers hdr ds))
  outcome [] t p w a = inr (record {
    table = t;
    entry = p;
    waiting = w;
    there = λ j f. elim f [ inl g ↦ g | inr o ↦ absurd cc ];
  })
  outcome ((i, b) ∷ ds) t p w ((inside, at), a) =
      let n : Advanced template sl raw padded parity fr p i b =
        advance template sl raw padded parity fr p w.fine w.same w.erased i b inside at in
      elim (push_cases template sl raw padded parity fr t p w i b n) [
        | inl d ↦ inl (record {
          recovered = d.recovered;
          few = d.few;
          returns = rw (d.returns, ◌>>=◌, late d.recovered ds) refl;
        })
        | inr k ↦ elim (outcome ds k.table n.entry k.still a) [
          | inl d ↦ inl (record {
            recovered = d.recovered;
            few = d.few;
            returns = rw (k.returns, ◌>>=◌, d.returns) refl;
          })
          | inr l ↦ inr (record {
            table = l.table;
            entry = l.entry;
            waiting = l.waiting;
            there = λ j f. l.there j (elim f [
              | inl g ↦ inl (n.kept j g)
              | inr o ↦ elim (Bool-cases (i == j)) [
                | inl e ↦ inl (subst (λ m. Filled m n.entry.shards) (ground arith) n.filled)
                | inr ne ↦ inr (rw ne at o)
              ]
            ]);
          })
        ]
      ]

  -- With enough of every group the frame has gone out.
  pub recovers :
      (ds : List (ℕ × Bytes))
      → All (IsArrival (raw ++ parity)) ds
      → All (IsEnough (places ds)) (group_layout (length raw) (length parity))
      → Delivers template sl raw padded parity fr (push_all new_reassembler (under_headers hdr ds))
  unfolding recoverable
  recovers ds a enough = elim (outcome ds [] (new_pending (hdr 0)) start a) [
    | inl d ↦ d
    | inr k ↦
        let there : (j : ℕ) → occurs j (places ds) ≡ true → Filled j k.entry.shards =
          λ j o. k.there j (inr o) in
        let (count, total, len) =
          entry_counts template sl raw padded parity fr k.entry k.waiting.fine k.waiting.same
            k.waiting.erased in
        let size = length-erased k.entry.shards (raw ++ parity) k.waiting.erased in
        let joined = length-append raw parity in
        let rest : length k.entry.shards - k.entry.data_count ≡ length parity = omega arith in
        let ready : recoverable k.entry ≡ true =
          ap₂ (λ c m. recoverable_groups k.entry.shards (group_layout c m)) count rest
          ∙ recoverable_groups_enough (places ds) k.entry.shards there
              (group_layout (length raw) (length parity)) enough in
        let all =
          ap count_some (take_whole k.entry.shards (length raw + length parity) (omega arith)) in
        let many =
          count_enough (places ds) k.entry.shards there (length raw) (length parity) enough in
        let le : leb k.entry.data_count (count_some k.entry.shards) ≡ true = ground arith in
        let unready = k.waiting.unready in absurd (ground arith)
  ]

sendable :
    (template : VideoDatagramHeader) (frame : Bytes) (max_datagram permille : ℕ)
    (t : Transmission template frame max_datagram permille)
    → HasFieldTypes template
    → chunk_count (length frame) (max_datagram - video_header_len) ≤ u16_max
    → U32 (length frame)
    → IsSendable template t.shard_len t.raw t.padded t.parity
sendable template frame max_datagram permille t types few size =
    let count : ℕ = chunk_count (length frame) (max_datagram - video_header_len) in
    let (byte, total, _) = parity_count-bounds count permille few in
    record {
      types = types;
      code = t.code;
      few = omega (arith, t.data_count, t.tail_count);
      byte = omega (arith, t.tail_count);
      size = omega (arith, ap length t.whole);
    }

-- A frame of bytes that is not empty gets through a network that loses, repeats and reorders its
-- datagrams, where the header's fields fit their types, a datagram has room for more than the header,
-- the data shards can be numbered in 16 bits and the length fits 32. `chunk_video_frame` sends it in datagrams with the payloads `sent`, and `push` gets any
-- sequence `ds` of these, each under its header, on a fresh reassembler. If of every group of
-- `group_layout` as many different shards came as it has data shards, data or parity, whichever they
-- are, then no call panics, exactly one frame came out of all the calls together, with the header's
-- fields and exactly the frame's bytes, and at most one recovery was counted.
pub push_all-recovers :
    (template : VideoDatagramHeader) (x : ℕ) (xs : Bytes) (max_datagram permille : ℕ)
    (sent : List Bytes) (ds : List (ℕ × Bytes))
    → HasFieldTypes template
    → video_header_len < max_datagram
    → chunk_count (length (x ∷ xs)) (max_datagram - video_header_len) ≤ u16_max
    → U32 (length (x ∷ xs))
    → All (λ v. v < 256) (x ∷ xs)
    → (let count = chunk_count (length (x ∷ xs)) (max_datagram - video_header_len) in
        let hdr = shard_header template (length (x ∷ xs)) count (parity_count count permille) in
        chunk_video_frame template (x ∷ xs) max_datagram permille ≡ ok (encode_shards hdr 0 sent))
    → All (IsArrival sent) ds
    → (let count = chunk_count (length (x ∷ xs)) (max_datagram - video_header_len) in
        All (IsEnough (places ds)) (group_layout count (parity_count count permille)))
    → let count = chunk_count (length (x ∷ xs)) (max_datagram - video_header_len) in
      let hdr = shard_header template (length (x ∷ xs)) count (parity_count count permille) in
      (recovered : ℕ) × (recovered ≤ 1)
      × (push_all new_reassembler (under_headers hdr ds)
          ≡ ok (
            delivered template.frame_id recovered,
            record {
              frame_id = template.frame_id;
              kind = template.kind;
              capture_ts_us = template.capture_ts_us;
              «data» = x ∷ xs;
            }
                ∷ [],
          ))
push_all-recovers template x xs max_datagram permille sent ds types fits few size bytes result came
      enough =
    let t = transmitted template x xs max_datagram permille fits few bytes in
    let same = sent_shards template (x ∷ xs) max_datagram permille t sent result in
    let done =
      recovers template t.shard_len t.raw t.padded t.parity
        (sendable template (x ∷ xs) max_datagram permille t types few size) ds
        (subst (λ l. All (IsArrival l) ds) (sym same) came)
        (subst (All (IsEnough (places ds))) (sym (ap₂ group_layout t.data_count t.tail_count))
          enough) in
    let headers : shard_header template (length (concat t.raw)) (length t.raw) (length t.parity)
        ≡ shard_header template (length (x ∷ xs))
            (chunk_count (length (x ∷ xs)) (max_datagram - video_header_len))
            (parity_count (chunk_count (length (x ∷ xs)) (max_datagram - video_header_len))
              permille) =
      ap₂ (λ len c. shard_header template len c (length t.parity)) (ap length t.whole) t.data_count
      ∙ ap
          (shard_header template (length (x ∷ xs))
            (chunk_count (length (x ∷ xs)) (max_datagram - video_header_len)))
          t.tail_count in
    (
      done.recovered,
      done.few,
      ap (λ h. push_all new_reassembler (under_headers h ds)) (sym headers)
          ∙ done.returns
          ∙ ap
              (λ bytes. ok (
                delivered template.frame_id done.recovered,
                record {
                  frame_id = template.frame_id;
                  kind = template.kind;
                  capture_ts_us = template.capture_ts_us;
                  «data» = bytes;
                }
                    ∷ [],
              ))
              t.whole,
    )
