-- ===== src/Session/Conns.antt =====
-- `LiveConns` of crates/session/src/state.rs: the live connections of each peer, by pin. A connection is its
-- stable id.
use game_streamer_agent.Base.{
  ℕ, ◌≡◌, refl, Bool-cases, inl, inr, List, [], ◌∷◌, ◌++◌, ◌==◌, if◌then◌else◌, length,
}
use game_streamer_agent.Pairing.{Text, same_text}
use game_streamer_agent.Pairing.Trace.{same_text_refl}

abbrev pub Registry : Type 0
Registry = List (Text × List ℕ)

-- `entry(pin).or_default().push(conn)`
unfoldable pub register : Text → ℕ → Registry → Registry
register pin conn [] = (pin, conn ∷ []) ∷ []
register pin conn ((key, conns) ∷ m) =
    let rest = register pin conn m in
    if same_text key pin then (key, conns ++ conn ∷ []) ∷ m else (key, conns) ∷ rest

abbrev pub without : ℕ → List ℕ → List ℕ
without id [] = []
without id (c ∷ cs) = if c == id then without id cs else c ∷ without id cs

abbrev keep_entry : Text → List ℕ → Registry → Registry
keep_entry key [] m = m
keep_entry key (c ∷ cs) m = (key, c ∷ cs) ∷ m

-- The connection goes, and with the last one the entry.
unfoldable pub unregister : Text → ℕ → Registry → Registry
unregister pin id [] = []
unregister pin id ((key, conns) ∷ m) =
    let rest = unregister pin id m in
    if same_text key pin then keep_entry key (without id conns) m else (key, conns) ∷ rest

-- What is registered for a pin.
unfoldable pub conns_of : Text → Registry → List ℕ
conns_of pin [] = []
conns_of pin ((key, conns) ∷ m) =
    let rest = conns_of pin m in if same_text key pin then conns else rest

unfoldable pub remove_pin : Text → Registry → Registry
remove_pin pin [] = []
remove_pin pin ((key, conns) ∷ m) =
    let rest = remove_pin pin m in if same_text key pin then m else (key, conns) ∷ rest

-- The registry afterwards, the connections that were closed, and their count.
unfoldable pub close_peer : Text → Registry → Registry × (List ℕ × ℕ)
unfolding conns_of remove_pin
close_peer pin m = (remove_pin pin m, (conns_of pin m, length (conns_of pin m)))

-- A connection that is registered for a peer is among those that a revocation of the peer closes,
-- after those registered before it.
pub close_peer-register :
    (pin : Text) (conn : ℕ) (m : Registry)
    → (close_peer pin (register pin conn m)).1.0 ≡ (close_peer pin m).1.0 ++ conn ∷ []
unfolding close_peer conns_of register
close_peer-register pin conn [] = rw (same_text_refl pin) refl
close_peer-register pin conn ((key, conns) ∷ m) = elim (Bool-cases (same_text key pin)) [
  | inl z ↦ rw (z, z) refl
  | inr z ↦ rw (z, z) (close_peer-register pin conn m)
]
