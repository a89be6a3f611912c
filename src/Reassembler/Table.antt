-- ===== src/Reassembler/Table.antt =====
-- The table of pending frames: what pruning, removal and draining keep of it.
use game_streamer_agent.Base.{
  ℕ, zero, suc, ◌≡◌, ◌≤◌, ◌⊎◌, refl, sym, Bool, Bool-cases, inl, inr, true, not, ◌&&◌, ◌||◌, Option,
  none, some, List, [], ◌∷◌, by_test, ltb, leb, ◌==◌, arith, length, All,
}
use game_streamer_agent.Wire.FrameKind.{is_idr}
use game_streamer_agent.Reassembler.Shards.{Pending}
use game_streamer_agent.Reassembler.{
  Table, CompletedFrame, Reassembler, older, lookup, remove, retain_newer, prune_older_than,
  prune_oldest, max_by_key, any_older, drain_held, hold_limit,
}

-- `P` of every entry, in a table of at most `n`.
abbrev pub Bounded {ℓ} : (Pending → Type ℓ) → ℕ → Table → Type ℓ
Bounded P n t = All (λ e. P e.1) t × (length t ≤ n)

abbrev pub IsKey : ℕ → Table → Type 0
IsKey id [] = ¬ Unit
IsKey id ((key, p) ∷ t) = (key ≡ id) ⊎ IsKey id t

module _ {ℓ} (P : Pending → Type ℓ) where
  abbrev pub Each : Table → Type ℓ
  Each t = All (λ e. P e.1) t

  abbrev pub Fine : Option Pending → Type ℓ
  Fine none = Unit
  Fine (some p) = P p

  pub lookup-Fine : (id : ℕ) (t : Table) → Each t → Fine (lookup id t)
  unfolding lookup
  lookup-Fine id [] a = tt
  lookup-Fine id ((key, q) ∷ t) a = by_test Fine (key == id) a.0 (lookup-Fine id t a.1)

  pub remove-Bounded : (id n : ℕ) (t : Table) → Bounded P n t → Bounded P n (remove id t)
  unfolding remove
  remove-Bounded id n [] b = b
  remove-Bounded id zero ((key, q) ∷ t) b = absurd (omega (arith, b.1))
  remove-Bounded id (suc n) ((key, q) ∷ t) b =
      let (each, len) = remove-Bounded id n t (b.0.1, omega (arith, b.1)) in
      by_test (Bounded P (suc n)) (key == id) (each, omega arith) ((b.0.0, each), omega arith)

  pub retain_newer-Bounded :
      (id n : ℕ) (t : Table) → Bounded P n t → Bounded P n (retain_newer id t)
  unfolding retain_newer
  retain_newer-Bounded id n [] b = b
  retain_newer-Bounded id zero ((key, q) ∷ t) b = absurd (omega (arith, b.1))
  retain_newer-Bounded id (suc n) ((key, q) ∷ t) b =
      let (each, len) = retain_newer-Bounded id n t (b.0.1, omega (arith, b.1)) in
      by_test (Bounded P (suc n)) (older key id) (each, omega arith) ((b.0.0, each), omega arith)

  -- Removing a key of the table makes it shorter.
  remove_key : (id n : ℕ) (t : Table) → IsKey id t → Bounded P (suc n) t → Bounded P n (remove id t)
  unfolding remove
  remove_key id n [] k b = absurd (k tt)
  remove_key id n ((key, q) ∷ t) (inl e) b =
      let z : (key == id) ≡ true = ground arith in
      rw z (remove-Bounded id n t (b.0.1, omega (arith, b.1)))
  remove_key id zero ((key, q) ∷ []) (inr k) b = absurd (k tt)
  remove_key id zero ((key, q) ∷ e ∷ t) (inr k) b = absurd (omega (arith, b.1))
  remove_key id (suc n) ((key, q) ∷ t) (inr k) b =
      let (each, len) = remove_key id n t k (b.0.1, omega (arith, b.1)) in
      by_test (Bounded P (suc n)) (key == id) (each, omega arith) ((b.0.0, each), omega arith)

max_by_key-IsKey :
    (rank : ℕ → ℕ) (best : ℕ) (t : Table)
    → (max_by_key rank best t ≡ best) ⊎ IsKey (max_by_key rank best t) t
unfolding max_by_key
max_by_key-IsKey rank best [] = inl refl
max_by_key-IsKey rank best ((key, p) ∷ t) =
    by_test
      (λ b.
        (max_by_key rank b t ≡ best) ⊎ (key ≡ max_by_key rank b t) ⊎ IsKey (max_by_key rank b t) t)
      (leb (rank best) (rank key))
      (elim (max_by_key-IsKey rank key t) [ inl e ↦ inr (inl (sym e)) | inr k ↦ inr (inr k) ])
      (elim (max_by_key-IsKey rank best t) [ inl e ↦ inl e | inr k ↦ inr (inr k) ])

blocked_few :
    (blocked idr : Bool) (n : ℕ)
    → (blocked && not (idr || ltb hold_limit n)) ≡ true
    → n ≤ hold_limit
blocked_few blocked idr n e = ground arith

oldest-IsKey :
    (rank : ℕ → ℕ) (key : ℕ) (p : Pending) (t : Table)
    → IsKey (max_by_key rank key t) ((key, p) ∷ t)
oldest-IsKey rank key p t = elim (max_by_key-IsKey rank key t) [
  | inl e ↦ inl (sym e)
  | inr k ↦ inr k
]

module _ {ℓ} (P : Pending → Type ℓ) where
  -- Pruning the oldest makes room in a table that has one too many.
  pub prune_oldest-Bounded :
      (n : ℕ) (t : Table) (r : Reassembler)
      → Bounded P (suc n) t
      → Bounded P n (prune_oldest (record r { pending = t })).pending
  unfolding prune_oldest
  prune_oldest-Bounded n [] r b = (tt, omega arith)
  prune_oldest-Bounded n ((key, p) ∷ t) r b =
      remove_key P (max_by_key _ key t) n ((key, p) ∷ t) (oldest-IsKey _ key p t) b

  abbrev Drained : ℕ → Reassembler × List CompletedFrame → Type ℓ
  Drained n s = Bounded P n s.0.pending × (length s.0.held ≤ hold_limit)

  pub drain_held-Bounded :
      (hs : List CompletedFrame) (r : Reassembler) (n : ℕ)
      → Bounded P n r.pending
      → Drained n (drain_held hs r)
  unfolding drain_held prune_older_than
  drain_held-Bounded [] r n b = (b, omega arith)
  drain_held-Bounded (h ∷ hs) r n b =
      let later = drain_held-Bounded hs _ n (retain_newer-Bounded P h.frame_id n r.pending b) in
      elim (Bool-cases (
        any_older h.frame_id r.pending
        && not (is_idr h.kind || ltb hold_limit (length (h ∷ hs))))) [
          | inl z ↦ rw z (b, blocked_few _ _ _ z)
          | inr z ↦ rw z later
        ]
