-- ===== src/Chunker/Numbered.antt =====
-- The positions of a frame's datagrams.
use native.Mathlib.Nat.{add-zero}
use game_streamer_agent.Base.{
  ℕ, suc, ◌+◌, ◌-◌, ◌≡◌, ◌≤◌, refl, sym, ap, subst, Bool-cases, inl, inr, true, false, List, [],
  ◌∷◌, ◌++◌, arith, leb, ◌==◌, length, take, drop, All, length-append, length-take, length-drop,
}
use game_streamer_agent.Wire.Bytes.{Outcome, ok, slice}
use game_streamer_agent.Wire.Video.{VideoDatagramHeader, encode_with_payload}
use game_streamer_agent.Fec.Layout.{FecGroup}
use game_streamer_agent.Fec.Layout.Tiling.{Tiles, Fits}
use game_streamer_agent.Fec.Code.{Bytes, all_len}
use game_streamer_agent.Fec.Code.Shape.{
  HasLength, ParityShards, encode_parity-ParityShards, all_len-drop, all_len-take,
}
use game_streamer_agent.Chunker.{encode_shards, encode_group, encode_groups}

-- Each datagram is the header of its position, counted from `i`, with a payload of at most `b` bytes.
abbrev pub Numbered : (ℕ → VideoDatagramHeader) → ℕ → ℕ → List Bytes → Type 0
Numbered hdr b i [] = Unit
Numbered hdr b i (d ∷ ds) =
    ((p : Bytes) × (d ≡ encode_with_payload (hdr i) p) × (length p ≤ b)) × Numbered hdr b (suc i) ds

module _ (hdr : ℕ → VideoDatagramHeader) (b : ℕ) where
  pub Numbered-append :
      (i : ℕ) (xs ys : List Bytes)
      → Numbered hdr b i xs
      → Numbered hdr b (i + length xs) ys
      → Numbered hdr b i (xs ++ ys)
  Numbered-append i [] ys hx hy = subst (λ n. Numbered hdr b n ys) (add-zero i) hy
  Numbered-append i (x ∷ xs) ys hx hy =
      (hx.0, Numbered-append (suc i) xs ys hx.1 (subst (λ n. Numbered hdr b n ys) (omega arith) hy))

  pub encode_shards-Numbered :
      (i : ℕ) (ss : List Bytes)
      → All (λ s. length s ≤ b) ss
      → Numbered hdr b i (encode_shards hdr i ss) × (length (encode_shards hdr i ss) ≡ length ss)
  unfolding encode_shards
  encode_shards-Numbered i [] h = (tt, refl)
  encode_shards-Numbered i (s ∷ ss) h =
      let (later, count) = encode_shards-Numbered (suc i) ss h.1 in
      (((s, refl, h.0), later), ap suc count)

  All-le :
      (len : ℕ) (ss : List Bytes) → len ≤ b → All (HasLength len) ss → All (λ s. length s ≤ b) ss
  All-le len [] h a = tt
  All-le len (s ∷ ss) h a = (omega arith, All-le len ss h a.1)

  -- The datagrams from position `p` up to `p'`.
  pub record Emitted (p p' : ℕ) (r : Outcome (List Bytes)) : Type 0 where
    pub out : List Bytes
    pub result : r ≡ ok out
    pub numbered : Numbered hdr b p out
    pub count : p + length out ≡ p'

  module _ (sl : ℕ) (shards : List Bytes) (fits : sl ≤ b) (uniform : all_len sl shards ≡ true) where
    pub slice_shards :
        (a n : ℕ) → a + n ≤ length shards → slice shards a (a + n) ≡ ok (take n (drop a shards))
    slice_shards a n h =
        let lo : leb a (a + n) ≡ true = ground arith in
        let hi : leb (a + n) (length shards) ≡ true = ground arith in
        let e : a + n - a ≡ n = omega arith in rw (lo, hi, e) refl

    pub group_Emitted :
        (g : FecGroup)
        → Fits g
        → g.data_start + g.data_len ≤ length shards
        → ParityShards sl g.parity_len (take g.data_len (drop g.data_start shards))
    group_Emitted g (some_data, few, small) inside =
        let len = length-take g.data_len (drop g.data_start shards) in
        let left = length-drop g.data_start shards in
        encode_parity-ParityShards sl g.parity_len _ (omega arith) (omega arith)
          (all_len-take g.data_len sl _ (all_len-drop g.data_start sl shards uniform))

    no_parity :
        (g : FecGroup) (p : ℕ)
        → g.parity_len ≡ 0
        → Emitted p (p + g.parity_len) (encode_group hdr shards g)
    unfolding encode_group
    no_parity g p e = record {
      out = [];
      result = let z : (g.parity_len == 0) ≡ true = ground arith in rw z refl;
      numbered = tt;
      count = omega arith;
    }

    some_parity :
        (g : FecGroup) (p : ℕ)
        → Fits g
        → g.data_start + g.data_len ≤ length shards
        → g.parity_start ≡ p
        → (g.parity_len == 0) ≡ false
        → Emitted p (p + g.parity_len) (encode_group hdr shards g)
    unfolding encode_group
    some_parity g p f inside e z =
        let made = group_Emitted g f inside in
        let (numbered, count) =
          encode_shards-Numbered p made.shards (All-le sl made.shards fits made.lengths) in
        record {
          out = encode_shards hdr p made.shards;
          result = rw (z, slice_shards g.data_start g.data_len inside, made.result, e) refl;
          numbered = numbered;
          count = omega (arith, count, made.count);
        }

    encode_group-Emitted :
        (g : FecGroup) (p : ℕ)
        → Fits g
        → g.data_start + g.data_len ≤ length shards
        → g.parity_start ≡ p
        → Emitted p (p + g.parity_len) (encode_group hdr shards g)
    encode_group-Emitted g p f inside e = elim (Bool-cases (g.parity_len == 0)) [
      | inl z ↦ no_parity g p (ground arith)
      | inr z ↦ some_parity g p f inside e z
    ]

    pub Tiles-le : (gs : List FecGroup) (d p d' p' : ℕ) → Tiles d p d' p' gs → d ≤ d'
    Tiles-le [] d p d' p' t = omega (arith, t.0)
    Tiles-le (g ∷ gs) d p d' p' (ed, ep, t) = omega (arith, Tiles-le gs _ _ _ _ t)

    -- A tiling by groups that fit gives the parity datagrams of the positions that it covers.
    pub encode_groups-Emitted :
        (gs : List FecGroup) (d p d' p' : ℕ)
        → All Fits gs
        → Tiles d p d' p' gs
        → d' ≤ length shards
        → Emitted p p' (encode_groups hdr shards gs)
    unfolding encode_groups
    encode_groups-Emitted [] d p d' p' f t h = record {
      out = [];
      result = refl;
      numbered = tt;
      count = rw add-zero t.1;
    }
    encode_groups-Emitted (g ∷ gs) d p d' p' f (ed, ep, t) h =
        let within = Tiles-le gs _ _ _ _ t in
        let here = encode_group-Emitted g p f.0 (omega arith) ep in
        let later = encode_groups-Emitted gs _ _ d' p' f.1 t h in
        record {
          out = here.out ++ later.out;
          result = rw (here.result, later.result) refl;
          numbered =
              Numbered-append p here.out later.out here.numbered
                (subst (λ n. Numbered hdr b n later.out) (sym here.count) later.numbered);
          count = omega (arith, length-append here.out later.out, here.count, later.count);
        }
