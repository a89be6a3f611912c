-- ===== src/Reassembler/Recovery/Sent.antt =====
-- The shards that `chunk_video_frame` of crates/protocol/src/datagram.rs sends, as the receiver sees them.
use mathlib.Core.List.{append_assoc}
use native.Mathlib.Nat.{add-zero}
use game_streamer_agent.Base.{
  ℕ, suc, ◌+◌, ◌-◌, ◌≡◌, ◌≤◌, ◌⊎◌, inl, inr, refl, sym, ap, ◌∙◌, Bool-cases, true, some, List, [],
  ◌∷◌, ◌++◌, arith, length, take, drop, ◌==◌, All, length-append, slice_of, take-append_length,
  drop-append_length,
}
use game_streamer_agent.Wire.Bytes.{Outcome, ok}
use game_streamer_agent.Wire.Video.{VideoDatagramHeader, encode_with_payload}
use game_streamer_agent.Fec.Layout.{FecGroup}
use game_streamer_agent.Fec.Layout.Tiling.{Tiles, Fits}
use game_streamer_agent.Fec.Code.{Bytes, all_len, encode_parity}
use game_streamer_agent.Fec.Code.Shape.{HasLength}
use game_streamer_agent.Chunker.{encode_shards, encode_group, encode_groups}
use game_streamer_agent.Chunker.Numbered.{slice_shards, group_Emitted, Tiles-le}
use game_streamer_agent.Reassembler.Recovery.Groups.{IsCoded}

pub encode_shards-append :
    (hdr : ℕ → VideoDatagramHeader) (i : ℕ) (xs ys : List Bytes)
    → encode_shards hdr i (xs ++ ys)
      ≡ encode_shards hdr i xs ++ encode_shards hdr (i + length xs) ys
unfolding encode_shards
encode_shards-append hdr i [] ys = ap (λ n. encode_shards hdr n ys) (sym (add-zero i))
encode_shards-append hdr i (x ∷ xs) ys =
    let at : suc i + length xs ≡ i + suc (length xs) = omega arith in
    ap (λ l. encode_with_payload (hdr i) x ∷ l)
      (encode_shards-append hdr (suc i) xs ys
        ∙ ap (λ n. encode_shards hdr (suc i) xs ++ encode_shards hdr n ys) at)

pub all_len-append :
    (n : ℕ) (xs ys : List Bytes)
    → all_len n xs ≡ true
    → all_len n ys ≡ true
    → all_len n (xs ++ ys) ≡ true
all_len-append n [] ys h k = k
all_len-append n (x ∷ xs) ys h k = ground (arith, all_len-append n xs ys)

all_len_of : (n : ℕ) (xs : List Bytes) → All (HasLength n) xs → all_len n xs ≡ true
all_len_of n [] h = refl
all_len_of n (x ∷ xs) (here, rest) = ground (arith, all_len_of n xs rest)

-- A list in the middle of three, by its place.
slice_middle :
    (pre mid suf : List Bytes) (p : ℕ)
    → length pre ≡ p
    → slice_of (pre ++ (mid ++ suf)) p (p + length mid) ≡ mid
slice_middle pre mid suf p e =
    let size : p + length mid - p ≡ length mid = omega arith in
    ap (λ n. take n (drop p (pre ++ (mid ++ suf)))) size
    ∙ ap (λ n. take (length mid) (drop n (pre ++ (mid ++ suf)))) (sym e)
    ∙ ap (take (length mid)) (drop-append_length pre (mid ++ suf))
    ∙ take-append_length mid suf

-- The parity shards that `encode_groups` puts in the datagrams, from position `p` up to `p'`. In a
-- list of all shards that has them at their positions, they code the data of their groups.
pub record Parity (hdr : ℕ → VideoDatagramHeader) (sl : ℕ) (shards : List Bytes) (p p' : ℕ)
    (gs : List FecGroup) (r : Outcome (List Bytes)) : Type 0 where
  pub made : List Bytes
  pub result : r ≡ ok (encode_shards hdr p made)
  pub count : p + length made ≡ p'
  pub uniform : all_len sl made ≡ true
  pub coded :
      (pre sent : List Bytes)
      → length pre ≡ p
      → sent ≡ pre ++ made
      → ((a n : ℕ) → a + n ≤ length shards → slice_of sent a (a + n) ≡ take n (drop a shards))
      → All (IsCoded sent) gs

module _ (hdr : ℕ → VideoDatagramHeader) (b sl : ℕ) (shards : List Bytes) (fits : sl ≤ b)
    (uniform : all_len sl shards ≡ true) where
  -- The parity of one group.
  record GroupParity (g : FecGroup) (p : ℕ) : Type 0 where
    made : List Bytes
    result : encode_group hdr shards g ≡ ok (encode_shards hdr p made)
    count : length made ≡ g.parity_len
    same_len : all_len sl made ≡ true
    coded :
        (g.parity_len ≡ 0)
        ⊎ (encode_parity (take g.data_len (drop g.data_start shards)) g.parity_len ≡ some made)

  group_parity :
      (g : FecGroup) (p : ℕ)
      → Fits g
      → g.data_start + g.data_len ≤ length shards
      → g.parity_start ≡ p
      → GroupParity g p
  unfolding encode_group
  group_parity g p f inside e = elim (Bool-cases (g.parity_len == 0)) [
    | inl z ↦
        let none_there : g.parity_len ≡ 0 = ground arith in
        record {
          made = [];
          result = rw z refl;
          count = sym none_there;
          same_len = refl;
          coded = inl none_there;
        }
    | inr z ↦
        let parity = group_Emitted hdr b sl shards fits uniform g f inside in
        record {
          made = parity.shards;
          result =
              rw
                (
                  z,
                  slice_shards hdr b sl shards fits uniform g.data_start g.data_len inside,
                  parity.result,
                  e,
                )
                refl;
          count = parity.count;
          same_len = all_len_of sl parity.shards parity.lengths;
          coded = inr parity.result;
        }
  ]

  in_place :
      (g : FecGroup) (p : ℕ) (pre sent rest : List Bytes) (here : GroupParity g p)
      → g.data_start + g.data_len ≤ length shards
      → g.parity_start ≡ p
      → length pre ≡ p
      → sent ≡ pre ++ (here.made ++ rest)
      → ((a n : ℕ) → a + n ≤ length shards → slice_of sent a (a + n) ≡ take n (drop a shards))
      → IsCoded sent g
  in_place g p pre sent rest here inside at e whole slices = elim here.coded [
    | inl z ↦ inl z
    | inr made ↦ inr (
        ap (λ d. encode_parity d g.parity_len) (slices g.data_start g.data_len inside)
        ∙ made
        ∙ ap some (
            sym (
              ap (λ n. slice_of sent g.parity_start (g.parity_start + n)) (sym here.count)
              ∙ ap (λ n. slice_of sent n (n + length here.made)) at
              ∙ ap (λ l. slice_of l p (p + length here.made)) whole
              ∙ slice_middle pre here.made rest p e)))
  ]

  -- The groups of a tiling give the parity shards of the positions that it covers.
  pub encode_groups-Parity :
      (gs : List FecGroup) (d p d' p' : ℕ)
      → All Fits gs
      → Tiles d p d' p' gs
      → d' ≤ length shards
      → Parity hdr sl shards p p' gs (encode_groups hdr shards gs)
  unfolding encode_groups encode_shards
  encode_groups-Parity [] d p d' p' f t h = record {
    made = [];
    result = refl;
    count = add-zero p ∙ t.1;
    uniform = refl;
    coded = λ pre sent e whole slices. tt;
  }
  encode_groups-Parity (g ∷ gs) d p d' p' f (ed, ep, t) h =
      let within = Tiles-le hdr b sl shards fits uniform gs _ _ _ _ t in
      let here : GroupParity g p = group_parity g p f.0 (omega arith) ep in
      let later = encode_groups-Parity gs _ _ d' p' f.1 t h in
      let next : p + length here.made ≡ p + g.parity_len = omega (arith, here.count) in
      record {
        made = here.made ++ later.made;
        result =
            rw (here.result, later.result)
              (ap ok (
                ap (λ n. encode_shards hdr p here.made ++ encode_shards hdr n later.made) (sym next)
                ∙ sym (encode_shards-append hdr p here.made later.made)));
        count = omega (arith, length-append here.made later.made, here.count, later.count);
        uniform = all_len-append sl here.made later.made here.same_len later.uniform;
        coded = λ pre sent e whole slices. (
          in_place g p pre sent later.made here (omega arith) ep e whole slices,
          later.coded (pre ++ here.made) sent
              (omega (arith, length-append pre here.made, here.count))
              (whole ∙ sym (append_assoc pre here.made later.made)) slices,
        );
      }
