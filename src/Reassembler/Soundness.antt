-- ===== src/Reassembler/Soundness.antt =====
-- The soundness of the reassembler between calls of `push`.
use game_streamer_agent.Base.{
  ℕ, suc, ◌≡◌, ◌≤◌, refl, Bool, Bool-cases, inl, inr, true, false, ◌||◌, Option, none, some, List,
  [], ◌∷◌, ◌++◌, by_test, ltb, ◌==◌, if◌then◌else◌, arith, length, take, length-take,
}
use game_streamer_agent.Wire.Bytes.{Outcome, ok, ◌>>=◌}
use game_streamer_agent.Wire.Video.{VideoDatagramHeader, total_shards}
use game_streamer_agent.Wire.Video
use game_streamer_agent.Fec.Code.{Bytes}
use game_streamer_agent.Reassembler.Shards.{
  Slots, Pending, new_pending, matches, count_some, concat_slots, assemble_data, reconstruct,
}
use game_streamer_agent.Reassembler.{
  add_count, Reassembler, CompletedFrame, Table, max_pending, hold_limit, lookup, insert, remove,
  entry_for, hold_and_drain, keep_waiting, finish, push, drain, is_stale, is_held,
}
use game_streamer_agent.Reassembler.Counts.{
  IsWellFormed, store_shard-Stored, new_pending-IsWellFormed, new_pending-matches,
}
use game_streamer_agent.Reassembler.Table.{
  Bounded, Fine, lookup-Fine, remove-Bounded, drain_held-Bounded, prune_oldest-Bounded,
}

-- Between two calls: every pending frame is well-formed, at most 8 are pending and at most 3 are held.
abbrev pub IsSound : Reassembler → Type 0
IsSound r = Bounded IsWellFormed max_pending r.pending × (length r.held ≤ hold_limit)

count_some_most : (ss : Slots) → count_some ss ≤ length ss
count_some_most [] = omega arith
count_some_most (none ∷ ss) = omega (arith, count_some_most ss)
count_some_most (some b ∷ ss) = omega (arith, count_some_most ss)

concat_full :
    (ss : Slots) → count_some ss ≡ length ss → (bytes : Bytes) × (concat_slots ss ≡ ok bytes)
unfolding concat_slots
concat_full [] e = ([], refl)
concat_full (none ∷ ss) e = absurd (omega (arith, count_some_most ss))
concat_full (some b ∷ ss) e = let (rest, h) = concat_full ss (omega arith) in (b ++ rest, rw h refl)

-- With all data shards received none is missing.
pub assemble_data-ok :
    (p : Pending)
    → IsWellFormed p
    → p.received_data ≡ p.data_count
    → (bytes : Bytes) × (assemble_data p ≡ ok bytes)
unfolding assemble_data
assemble_data-ok p w e =
    concat_full (take p.data_count p.shards)
      (omega (arith, w.data_seen, w.room, length-take p.data_count p.shards))

abbrev Fits : VideoDatagramHeader → Pending → Type 0
Fits h p = IsWellFormed p × (matches p h ≡ true)

fresh-Fits : (h : VideoDatagramHeader) → Video.IsWellFormed h → Fits h (new_pending h)
fresh-Fits h w = (new_pending-IsWellFormed h w, new_pending-matches h)

found-Fits :
    (h : VideoDatagramHeader) (p : Pending)
    → Video.IsWellFormed h
    → IsWellFormed p
    → Fits h (if matches p h then p else new_pending h)
found-Fits h p w wp = elim (Bool-cases (matches p h)) [
  | inl z ↦ rw z (wp, z)
  | inr z ↦ rw z (fresh-Fits h w)
]

-- The entry of a frame fits its header.
entry_for-Fits :
    (r : Reassembler) (h : VideoDatagramHeader)
    → Bounded IsWellFormed max_pending r.pending
    → Video.IsWellFormed h
    → Fits h (entry_for r h)
unfolding entry_for
entry_for-Fits r h b w =
    chosen (lookup h.frame_id r.pending) (lookup-Fine IsWellFormed h.frame_id r.pending b.0)
  where
    chosen :
        (o : Option Pending)
        → Fine IsWellFormed o
        → Fits h
            (elim o [ none ↦ new_pending h | some p ↦ if matches p h then p else new_pending h ])
    chosen none f = fresh-Fits h w
    chosen (some p) f = found-Fits h p w f

-- What a call that does not panic leaves.
pub record Pushed (result : Outcome (Reassembler × List CompletedFrame)) : Type 0 where
  pub state : Reassembler
  pub frames : List CompletedFrame
  pub returns : result ≡ ok (state, frames)
  pub sound : IsSound state

drained : (r : Reassembler) → Bounded IsWellFormed max_pending r.pending → Pushed (ok (drain r))
unfolding drain
drained r b =
    let (left, few) = drain_held-Bounded IsWellFormed r.held r max_pending b in
    record { state = (drain r).0; frames = (drain r).1; returns = refl; sound = (left, few) }

finish-Pushed :
    (h : VideoDatagramHeader) (complete : Bool) (p : Pending) (r : Reassembler)
    → Bounded IsWellFormed max_pending (remove h.frame_id r.pending)
    → IsWellFormed p
    → (complete ≡ true → p.received_data ≡ p.data_count)
    → Pushed (finish h complete p r)
unfolding finish hold_and_drain
finish-Pushed h true p r b w e =
    let (bytes, done) = assemble_data-ok p w (e refl) in rw (done, ◌>>=◌) (drained _ b)
finish-Pushed h false p r b w e =
    elim (reconstruct p)
      as (λ o. Pushed (elim o [
        | some bytes ↦ ok (
            hold_and_drain h bytes (record r {
              pending = remove h.frame_id r.pending;
              recovered = add_count r.recovered 1;
            }))
        | none ↦ ok (
            drain
              (record r { pending = remove h.frame_id r.pending; dropped = add_count r.dropped 1 }))
      ])) [ none ↦ drained _ b | some bytes ↦ drained _ b ]

keep_waiting-Pushed :
    (t : Table) (r : Reassembler)
    → Bounded IsWellFormed (suc max_pending) t
    → Pushed (ok (keep_waiting (record r { pending = t })))
unfolding keep_waiting
keep_waiting-Pushed t r b = elim (Bool-cases (ltb max_pending (length t))) [
  | inl z ↦ rw z (drained _ (prune_oldest-Bounded IsWellFormed max_pending t r b))
  | inr z ↦ rw z (drained _ (b.0, ground arith))
]

remove-insert :
    (id n : ℕ) (p : Pending) (t : Table)
    → Bounded IsWellFormed n t
    → Bounded IsWellFormed n (remove id (insert id p t))
unfolding remove
remove-insert id n p t b =
    let z : (id == id) ≡ true = ground arith in
    rw z (remove-Bounded IsWellFormed id n (remove id t) (remove-Bounded IsWellFormed id n t b))

insert-Bounded :
    (id n : ℕ) (p : Pending) (t : Table)
    → IsWellFormed p
    → Bounded IsWellFormed n t
    → Bounded IsWellFormed (suc n) (insert id p t)
insert-Bounded id n p t w b =
    let (each, len) = remove-Bounded IsWellFormed id n t b in ((w, each), omega arith)

-- A shard with a header that the parser lets through, given to a sound reassembler: the call does
-- not panic, and what it leaves is sound.
pub push-Pushed :
    (r : Reassembler) (h : VideoDatagramHeader) (payload : Bytes)
    → IsSound r
    → Video.IsWellFormed h
    → Pushed (push r h payload)
unfolding push
push-Pushed r h payload sound w =
    let (fits, m) = entry_for-Fits r h sound.0 w in
    let stored = store_shard-Stored (entry_for r h) h fits m payload w.in_range in
    let p = stored.entry in
    by_test Pushed (is_stale r.latest_delivered h.frame_id || is_held h.frame_id r.held)
      (record { state = r; frames = []; returns = refl; sound = sound })
      (rw (stored.result, ◌>>=◌)
        (by_test Pushed _
          (finish-Pushed h (p.received_data == p.data_count) p
            (record r { pending = insert h.frame_id p r.pending })
            (remove-insert h.frame_id max_pending p r.pending sound.0) stored.fine
            (λ e. ground arith))
          (keep_waiting-Pushed (insert h.frame_id p r.pending) r
            (insert-Bounded h.frame_id max_pending p r.pending stored.fine sound.0))))
