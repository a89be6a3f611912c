-- ===== src/Reassembler/Counts.antt =====
-- The counters of a pending frame and the slots that they count.
use game_streamer_agent.Base.{
  ℕ, zero, suc, ◌+◌, ◌%◌, ◌≡◌, ◌≤◌, ◌<◌, ◌⊎◌, refl, sym, ap, inl, inr, true, Option, none, some, [],
  ◌∷◌, ltb, if◌then◌else◌, arith, length, get_elem?, set, take, replicate, length-set,
  length-replicate,
}
use game_streamer_agent.Wire.Bytes.{ok, index, U16}
use game_streamer_agent.Wire.Video.{VideoDatagramHeader, total_shards}
use game_streamer_agent.Wire.Video
use game_streamer_agent.Fec.Code.{Bytes}
use game_streamer_agent.Reassembler.Shards.{
  Slots, Pending, new_pending, matches, count_some, store_shard,
}

pub record IsWellFormed (p : Pending) : Type 0 where
  pub some_data : 0 < p.data_count
  pub data_U16 : U16 p.data_count
  pub room : p.data_count ≤ length p.shards
  pub data_seen : p.received_data ≡ count_some (take p.data_count p.shards)
  pub total_seen : p.received_total ≡ count_some p.shards % 0x1_0000

pub count_some-replicate : (n : ℕ) → count_some (replicate n none) ≡ 0
count_some-replicate zero = refl
count_some-replicate (suc n) = count_some-replicate n

take-replicate : (k n : ℕ) → count_some (take k (replicate n none)) ≡ 0
take-replicate zero n = refl
take-replicate (suc k) zero = refl
take-replicate (suc k) (suc n) = take-replicate k n

pub count_some-le : (k : ℕ) (ss : Slots) → count_some (take k ss) ≤ k
count_some-le zero ss = omega arith
count_some-le (suc k) [] = omega arith
count_some-le (suc k) (none ∷ ss) = omega (arith, count_some-le k ss)
count_some-le (suc k) (some b ∷ ss) = omega (arith, count_some-le k ss)

-- Filling a slot adds one to the count, of the slots in front of it or not.
pub count_some-set :
    (ss : Slots) (i : ℕ) (b : Bytes)
    → get_elem? ss i ≡ some none
    → count_some (set ss i (some b)) ≡ suc (count_some ss)
count_some-set [] i b h = cc
count_some-set (none ∷ ss) zero b h = refl
count_some-set (some c ∷ ss) zero b h = cc
count_some-set (none ∷ ss) (suc i) b h = count_some-set ss i b h
count_some-set (some c ∷ ss) (suc i) b h = ap suc (count_some-set ss i b h)

pub count_take-set :
    (k : ℕ) (ss : Slots) (i : ℕ) (b : Bytes)
    → get_elem? ss i ≡ some none
    → count_some (take k (set ss i (some b)))
      ≡ (if ltb i k then suc (count_some (take k ss)) else count_some (take k ss))
count_take-set zero ss i b h = ground arith
count_take-set (suc k) [] i b h = cc
count_take-set (suc k) (none ∷ ss) zero b h = ground arith
count_take-set (suc k) (some c ∷ ss) zero b h = cc
count_take-set (suc k) (none ∷ ss) (suc i) b h = ground (arith, count_take-set k ss i b h)
count_take-set (suc k) (some c ∷ ss) (suc i) b h = ground (arith, count_take-set k ss i b h)

-- A new entry is well-formed.
pub new_pending-IsWellFormed :
    (h : VideoDatagramHeader) → Video.IsWellFormed h → IsWellFormed (new_pending h)
new_pending-IsWellFormed h w =
    let len =
      length-replicate {A = Option Bytes} (total_shards h.chunk_count h.parity_count) none in
    record {
      some_data = w.has_chunks;
      data_U16 = w.chunk_count;
      room = omega arith;
      data_seen = sym (take-replicate h.chunk_count (total_shards h.chunk_count h.parity_count));
      total_seen = omega (arith, count_some-replicate (total_shards h.chunk_count h.parity_count));
    }

pub new_pending-matches : (h : VideoDatagramHeader) → matches (new_pending h) h ≡ true
new_pending-matches h =
    let len =
      length-replicate {A = Option Bytes} (total_shards h.chunk_count h.parity_count) none in
    ground arith

-- What `store_shard` makes of a slot.
pub record Stored (p : Pending) (h : VideoDatagramHeader) (payload : Bytes) : Type 0 where
  pub entry : Pending
  pub result : store_shard p h payload ≡ ok entry
  pub fine : IsWellFormed entry
  pub still : matches entry h ≡ true
  pub slots :
      ((get_elem? p.shards h.chunk_index ≡ some none)
        × (entry.shards ≡ set p.shards h.chunk_index (some payload)))
      ⊎ ((b : Bytes) × (get_elem? p.shards h.chunk_index ≡ some (some b))
          × (entry.shards ≡ p.shards))

pub slot_cases :
    (ss : Slots) (i : ℕ) → i < length ss → (s : Option Bytes) × (get_elem? ss i ≡ some s)
slot_cases [] i h = absurd (omega arith)
slot_cases (s ∷ ss) zero h = (s, refl)
slot_cases (s ∷ ss) (suc i) h = slot_cases ss i (omega arith)

abbrev filled : Pending → VideoDatagramHeader → Bytes → Pending
filled p h payload = record p {
  shards = set p.shards h.chunk_index (some payload);
  received_total = (p.received_total + 1) % 0x1_0000;
  received_data =
      if ltb h.chunk_index h.chunk_count then (p.received_data + 1) % 0x1_0000 else p.received_data;
}

store_fills :
    (p : Pending) (h : VideoDatagramHeader) (payload : Bytes)
    → get_elem? p.shards h.chunk_index ≡ some none
    → store_shard p h payload ≡ ok (filled p h payload)
unfolding store_shard
store_fills p h payload e = rw (e, index) refl

count_step :
    (i k n c : ℕ) (seen : ℕ)
    → seen ≡ n
    → c ≡ (if ltb i k then suc n else n)
    → c ≤ k
    → U16 k
    → (if ltb i k then (seen + 1) % 0x1_0000 else seen) ≡ c
count_step i k n c seen e f b u = ground arith

module _ (p : Pending) (h : VideoDatagramHeader) (w : IsWellFormed p) (m : matches p h ≡ true) where
  pub same_count : p.data_count ≡ h.chunk_count
  same_count = ground arith

  pub same_len : length p.shards ≡ total_shards h.chunk_count h.parity_count
  same_len = ground arith

  still_matches :
      (payload : Bytes)
      → length (set p.shards h.chunk_index (some payload)) ≡ length p.shards
      → matches (filled p h payload) h ≡ true
  still_matches payload e = rw e m

  fill_slot : (payload : Bytes) → get_elem? p.shards h.chunk_index ≡ some none → Stored p h payload
  unfolding store_shard
  fill_slot payload e =
      let len = length-set p.shards h.chunk_index (some payload) in
      let all = count_some-set p.shards h.chunk_index payload e in
      let front = count_take-set p.data_count p.shards h.chunk_index payload e in
      let most = count_some-le p.data_count (set p.shards h.chunk_index (some payload)) in
      record {
        entry = filled p h payload;
        result = store_fills p h payload e;
        fine = record {
          some_data = w.some_data;
          data_U16 = w.data_U16;
          room = omega (arith, w.room, len);
          data_seen = rw (← same_count) (
              count_step h.chunk_index p.data_count _ _ p.received_data w.data_seen front most
                w.data_U16);
          total_seen = omega (arith, w.total_seen, all);
        };
        still = still_matches payload len;
        slots = inl (e, refl);
      }

  keep_slot :
      (payload b : Bytes) → get_elem? p.shards h.chunk_index ≡ some (some b) → Stored p h payload
  unfolding store_shard
  keep_slot payload b e = record {
    entry = p;
    result = rw (e, index) refl;
    fine = w;
    still = m;
    slots = inr (b, e, refl);
  }

  of_slot :
      (payload : Bytes) (slot : Option Bytes)
      → get_elem? p.shards h.chunk_index ≡ some slot
      → Stored p h payload
  of_slot payload none e = fill_slot payload e
  of_slot payload (some b) e = keep_slot payload b e

  -- A shard whose header matches the entry is stored, or its slot is taken: no index is out of
  -- bounds, and the entry stays well-formed.
  pub store_shard-Stored :
      (payload : Bytes)
      → h.chunk_index < total_shards h.chunk_count h.parity_count
      → Stored p h payload
  store_shard-Stored payload i =
      let e : h.chunk_index < length p.shards = omega (arith, same_len) in
      let (slot, found) = slot_cases p.shards h.chunk_index e in of_slot payload slot found
