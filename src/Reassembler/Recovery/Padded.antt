-- ===== src/Reassembler/Recovery/Padded.antt =====
-- The zero padding of a frame's last data shard, by which `chunk_video_frame` of
-- crates/protocol/src/datagram.rs and `reconstruct` of crates/client-core/src/reassembly.rs agree.
use mathlib.Core.List.{append-nil, append_assoc}
use game_streamer_agent.Base.{
  ℕ, zero, suc, ◌-◌, ◌≡◌, ◌≤◌, ◌<◌, inl, inr, refl, sym, ap, ap₂, ◌∙◌, subst, Bool-cases, true,
  List, [], ◌∷◌, ◌++◌, arith, length, ltb, replicate, if◌then◌else◌, All, All-append,
}
use game_streamer_agent.Wire.Bytes.{Outcome, ok, err, panic, ◌>>=◌}
use game_streamer_agent.Fec.Code.{Bytes, all_len}
use game_streamer_agent.Chunker.Chunks.{resize, pad_last, concat}

-- All shards but the last have the shard length; the last is padded to it.
abbrev pub PadsTo : ℕ → List Bytes → List Bytes → Type 0
PadsTo sl [] ps = ⊥
PadsTo sl (r ∷ rs) [] = ⊥
PadsTo sl (r ∷ []) (p ∷ ps) = (length r ≤ sl) × (p ∷ ps ≡ resize sl r ∷ [])
PadsTo sl (r ∷ r' ∷ rs) (p ∷ ps) = (length r ≡ sl) × (p ≡ r) × PadsTo sl (r' ∷ rs) ps

pub pads_pos : (sl : ℕ) (raw padded : List Bytes) → PadsTo sl raw padded → 0 < length raw
pads_pos sl [] padded h = elim h [ ]
pads_pos sl (r ∷ rs) padded h = omega arith

pub resize_exact : (sl : ℕ) (s : Bytes) → length s ≡ sl → resize sl s ≡ s
resize_exact sl s e =
    let z : sl - length s ≡ 0 = omega arith in ap (λ n. s ++ replicate n 0) z ∙ append-nil s

-- The padded shards joined are the frame and zeros after it.
pub concat-PadsTo :
    (sl : ℕ) (raw padded : List Bytes)
    → PadsTo sl raw padded
    → (n : ℕ) × (concat padded ≡ concat raw ++ replicate n 0)
concat-PadsTo sl [] padded p = elim p [ ]
concat-PadsTo sl (r ∷ rs) [] p = elim p [ ]
concat-PadsTo sl (r ∷ []) (p ∷ ps) (fits, same) = (
  sl - length r,
  ap concat same
      ∙ append-nil (resize sl r)
      ∙ ap (λ l. l ++ replicate (sl - length r) 0) (sym (append-nil r)),
)
concat-PadsTo sl (r ∷ r' ∷ rs) (p ∷ ps) (size, same, later) =
    let (n, e) = concat-PadsTo sl (r' ∷ rs) ps later in
    (n, ap₂ (λ a b. a ++ b) same e ∙ sym (append_assoc r (concat (r' ∷ rs)) (replicate n 0)))

ok_inj : (x y : List Bytes) → ◌≡◌ {A = Outcome (List Bytes)} (ok x) (ok y) → x ≡ y
ok_inj x y e = cc

pads_last :
    (sl : ℕ) (r : Bytes)
    → let padded = (if ltb (length r) sl then resize sl r else r) ∷ [] in
      all_len sl padded ≡ true → PadsTo sl (r ∷ []) padded
pads_last sl r u = elim (Bool-cases (ltb (length r) sl)) [
  | inl short ↦ (ground arith, rw short refl)
  | inr long ↦
      let size = rw long at u in
      let exact : length r ≡ sl = ground arith in
      (omega arith, rw long (ap (λ s. s ∷ []) (sym (resize_exact sl r exact))))
]

-- What `pad_last` makes of the pieces, when it makes shards of one length.
pub pad_last-PadsTo :
    (sl : ℕ) (raw padded : List Bytes)
    → 0 < length raw
    → pad_last sl raw ≡ ok padded
    → all_len sl padded ≡ true
    → PadsTo sl raw padded
unfolding pad_last
pad_last-PadsTo sl [] padded h e u = absurd (omega arith)
pad_last-PadsTo sl (r ∷ []) padded h e u =
    let same = ok_inj _ _ e in
    subst (PadsTo sl (r ∷ [])) same (pads_last sl r (ap (all_len sl) same ∙ u))
pad_last-PadsTo sl (r ∷ r' ∷ rs) padded h e u =
    split (λ ps made same. pad_last-PadsTo sl (r' ∷ rs) ps (omega arith) made same)
      (pad_last sl (r' ∷ rs)) refl padded e u
  where
    split :
        ((ps : List Bytes)
          → pad_last sl (r' ∷ rs) ≡ ok ps
          → all_len sl ps ≡ true
          → PadsTo sl (r' ∷ rs) ps)
        → (o : Outcome (List Bytes)) → pad_last sl (r' ∷ rs) ≡ o
        → (padded : List Bytes) → (o >>= (λ later. ok (r ∷ later))) ≡ ok padded
        → all_len sl padded ≡ true
        → PadsTo sl (r ∷ r' ∷ rs) padded
    split ih (ok later) made [] e u = absurd cc
    split ih (ok later) made (p ∷ ps) e u =
        let first : p ≡ r = ground arith in
        let others : later ≡ ps = ground arith in
        let size : length p ≡ sl = ground arith in
        let same : all_len sl ps ≡ true = ground arith in
        (sym (ap length first) ∙ size, first, ih ps (made ∙ ap ok others) same)
    split ih (err x) made padded e u = absurd cc
    split ih panic made padded e u = absurd cc

zeros_bytes : (n : ℕ) → All (λ v. v < 256) (replicate n 0)
zeros_bytes zero = tt
zeros_bytes (suc n) = (omega arith, zeros_bytes n)

-- Padding keeps the shards bytes.
pub All-PadsTo :
    (sl : ℕ) (raw padded : List Bytes)
    → PadsTo sl raw padded
    → All (All (λ v. v < 256)) raw
    → All (All (λ v. v < 256)) padded
All-PadsTo sl [] padded p h = elim p [ ]
All-PadsTo sl (r ∷ rs) [] p h = elim p [ ]
All-PadsTo sl (r ∷ []) (p ∷ ps) (fits, same) (h, _) =
    subst (All (All (λ v. v < 256))) (sym same) (
      All-append (λ v. v < 256) r (replicate (sl - length r) 0) h (zeros_bytes (sl - length r)),
      tt,
    )
All-PadsTo sl (r ∷ r' ∷ rs) (p ∷ ps) (size, same, later) (h, hs) =
    (subst (All (λ v. v < 256)) (sym same) h, All-PadsTo sl (r' ∷ rs) ps later hs)
