-- ===== src/Reassembler/Sequence.antt =====
-- Whole sequences of arrivals.
use game_streamer_agent.Base.{
  ℕ, ◌≡◌, ◌<◌, ◌⊎◌, refl, sym, subst, inl, inr, true, some, List, [], ◌∷◌, ◌++◌, ltb, ◌==◌, arith,
  length, get_elem?, take, All, dec_lt,
}
use game_streamer_agent.Wire.Bytes.{Outcome, ok, ◌>>=◌}
use game_streamer_agent.Wire.Video.{VideoDatagramHeader}
use game_streamer_agent.Fec.Code.{Bytes}
use game_streamer_agent.Chunker.{shard_header}
use game_streamer_agent.Chunker.Chunks.{concat}
use game_streamer_agent.Reassembler.Shards.{matches, Pending, count_some}
use game_streamer_agent.Reassembler.{
  Reassembler, CompletedFrame, Table, new_reassembler, insert, remove, push, half, age_of,
  entry_for, lookup,
}
use game_streamer_agent.Reassembler.Counts.{count_some-le}
use game_streamer_agent.Reassembler.Delivery.{Filled, all_Filled}
use game_streamer_agent.Reassembler.Arrival.{
  IsSent, quiet, after, frame, Waiting, Advanced, start, advance, completes, waits, removed,
}

-- The calls of `push` for the shards one after another, with all frames that they return.
abbrev pub push_all :
    Reassembler → List (VideoDatagramHeader × Bytes) → Outcome (Reassembler × List CompletedFrame)
push_all r [] = ok (r, [])
push_all r ((h, b) ∷ ds) = do
  now ← push r h b
  later ← push_all now.0 ds
  ok (later.0, now.1 ++ later.1)

abbrev pub Occurs : ℕ → List ℕ → Type 0
Occurs j [] = ¬ Unit
Occurs j (i ∷ is) = (i ≡ j) ⊎ Occurs j is

-- A data shard of the frame, by its place.
abbrev pub IsArrival : List Bytes → ℕ × Bytes → Type 0
IsArrival ps (i, b) = (i < length ps) × (get_elem? ps i ≡ some b)

abbrev pub under_headers :
    (ℕ → VideoDatagramHeader) → List (ℕ × Bytes) → List (VideoDatagramHeader × Bytes)
under_headers header [] = []
under_headers header ((i, b) ∷ ds) = (header i, b) ∷ under_headers header ds

abbrev pub places : List (ℕ × Bytes) → List ℕ
places [] = []
places ((i, b) ∷ ds) = i ∷ places ds

front_entry : (key id : ℕ) (p : Pending) (t : Table) → key ≡ id → lookup id ((key, p) ∷ t) ≡ some p
unfolding lookup
front_entry key id p t e = let z : (key == id) ≡ true = ground arith in rw z refl

pub found_again :
    (id : ℕ) (h : VideoDatagramHeader) (p : Pending) (t : Table)
    → h.frame_id ≡ id
    → matches p h ≡ true
    → entry_for (quiet (insert id p t)) h ≡ p
unfolding entry_for
found_again id h p t e m = rw (front_entry id h.frame_id p (remove id t) (sym e), entry_for, m) refl

module _ (template : VideoDatagramHeader) (ps : List Bytes) (len parity : ℕ)
    (sent : IsSent template ps parity) where
  abbrev arrivals : List (ℕ × Bytes) → List (VideoDatagramHeader × Bytes)
  arrivals ds = under_headers (shard_header template len (length ps) parity) ds

  abbrev whole : CompletedFrame
  whole = frame template ps len parity sent

  -- A frame that was delivered is not opened again.
  late :
      (ds : List (ℕ × Bytes))
      → push_all (after template.frame_id) (arrivals ds) ≡ ok (after template.frame_id, [])
  unfolding push
  late [] = refl
  late ((i, b) ∷ ds) =
      let now : ltb (age_of template.frame_id template.frame_id) half ≡ true = ground arith in
      rw (now, ◌>>=◌, late ds) refl

  -- Either the frame has gone out, or its entry has every shard that came.
  record Kept (p : Pending) (ds : List (ℕ × Bytes))
      (result : Outcome (Reassembler × List CompletedFrame)) : Type 0 where
    table : Table
    entry : Pending
    waiting : Waiting template ps len parity sent table entry
    returns : result ≡ ok (quiet table, [])
    there : (j : ℕ) → Filled j p.shards ⊎ Occurs j (places ds) → Filled j entry.shards

  next :
      (t : Table) (p : Pending) (w : Waiting template ps len parity sent t p) (i : ℕ) (b : Bytes)
      (inside : i < length ps) (at : get_elem? ps i ≡ some b)
      (n : Advanced template ps len parity sent p i b)
      → count_some (take (length ps) n.entry.shards) < length ps
      → Waiting template ps len parity sent (insert template.frame_id n.entry t) n.entry
  next t p w i b inside at n c = record {
    only = removed template ps len parity sent t p w i b inside at n.entry;
    found = λ j.
        found_again template.frame_id (shard_header template len (length ps) parity j) n.entry t
          refl n.same;
    fine = n.fine;
    same = n.same;
    agrees = n.agrees;
    no_parity = n.no_parity;
    incomplete = c;
  }

  outcome :
      (ds : List (ℕ × Bytes)) (t : Table) (p : Pending)
      → Waiting template ps len parity sent t p
      → All (IsArrival ps) ds
      → (push_all (quiet t) (arrivals ds) ≡ ok (after template.frame_id, whole ∷ []))
        ⊎ Kept p ds (push_all (quiet t) (arrivals ds))
  outcome [] t p w a = inr (record {
    table = t;
    entry = p;
    waiting = w;
    returns = refl;
    there = λ j f. elim f [ inl g ↦ g | inr o ↦ absurd (o tt) ];
  })
  outcome ((i, b) ∷ ds) t p w ((inside, at), a) =
      let n = advance template ps len parity sent t p w i b inside at in
      elim (dec_lt (count_some (take (length ps) n.entry.shards)) (length ps)) [
        | yes c ↦
            let e = waits template ps len parity sent t p w i b inside at n c in
            let later = outcome ds _ n.entry (next t p w i b inside at n c) a in
            elim later [
              | inl gone ↦ inl (rw (e, ◌>>=◌, gone) refl)
              | inr k ↦ inr (record {
                table = k.table;
                entry = k.entry;
                waiting = k.waiting;
                returns = rw (e, ◌>>=◌, k.returns) refl;
                there = λ j f. k.there j (elim f [
                  | inl g ↦ inl (n.kept j g)
                  | inr (inl s) ↦ inl (subst (λ m. Filled m n.entry.shards) s n.filled)
                  | inr (inr o) ↦ inr o
                ]);
              })
            ]
        | no c ↦
            let e =
              completes template ps len parity sent t p w i b inside at n
                (omega (arith, count_some-le (length ps) n.entry.shards)) in
            inl (rw (e, ◌>>=◌, late ds) refl)
      ]

  -- The data shards of a frame, in any order and any number of times, given to a fresh reassembler:
  -- once every one of them has come, exactly one frame has come out, and its bytes are the shards
  -- joined in the order of their places. Further copies of its shards change nothing.
  pub push_all-delivers :
      (ds : List (ℕ × Bytes))
      → All (IsArrival ps) ds
      → ((j : ℕ) → j < length ps → Occurs j (places ds))
      → push_all new_reassembler (under_headers (shard_header template len (length ps) parity) ds)
        ≡ ok (
          after template.frame_id,
          record {
            frame_id = template.frame_id;
            kind = template.kind;
            capture_ts_us = template.capture_ts_us;
            «data» = concat ps;
          }
              ∷ [],
        )
  push_all-delivers ds a every = elim (outcome ds [] _ (start template ps len parity sent) a) [
    | inl e ↦ e
    | inr k ↦ absurd (
        omega (
          arith,
          all_Filled (length ps) k.entry.shards (λ j h. k.there j (inr (every j h))),
          k.waiting.incomplete,
        ))
  ]
