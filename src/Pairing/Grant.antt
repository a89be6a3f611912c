-- ===== src/Pairing/Grant.antt =====
-- `AccessGrant::signing_payload` of crates/protocol/src/grant.rs: the bytes that the owner signs.
use game_streamer_agent.Base.{ℕ, ◌≡◌, ◌<◌, refl, sym, ap, ◌∙◌, [], ◌∷◌, ◌++◌, length, arith}
use game_streamer_agent.Wire.Bytes.{to_be_bytes, be_value}
use game_streamer_agent.Pairing.{Text, Scope, view, interact, manage, rank}

pub record AccessGrant : Type 0 where
  pub peer : Text
  pub agent : Text
  pub scope : Scope
  pub expires_unix : ℕ

-- b"gsa-access-grant-v0"
abbrev pub domain : Text
domain =
    103 ∷ 115 ∷ 97 ∷ 45 ∷ 97 ∷ 99 ∷ 99 ∷ 101 ∷ 115 ∷ 115 ∷ 45 ∷ 103 ∷ 114 ∷ 97 ∷ 110 ∷ 116 ∷ 45
    ∷ 118 ∷ 48 ∷ []

unfoldable pub signing_payload : AccessGrant → Text
signing_payload g = domain ++ (g.peer ++ (g.agent ++ (rank g.scope ∷ to_be_bytes 8 g.expires_unix)))

head_eq : {x y : ℕ} {xs ys : Text} → x ∷ xs ≡ y ∷ ys → x ≡ y
head_eq e = cc

tail_eq : {x y : ℕ} {xs ys : Text} → x ∷ xs ≡ y ∷ ys → xs ≡ ys
tail_eq e = cc

append_cancel :
    (xs ys : Text) {us vs : Text}
    → length xs ≡ length ys
    → xs ++ us ≡ ys ++ vs
    → (xs ≡ ys) × (us ≡ vs)
append_cancel [] [] h e = (refl, e)
append_cancel [] (y ∷ ys) h e = absurd (omega arith)
append_cancel (x ∷ xs) [] h e = absurd (omega arith)
append_cancel (x ∷ xs) (y ∷ ys) h e =
    let (front, back) = append_cancel xs ys (omega arith) (tail_eq e) in
    let first = head_eq e in (cc, back)

rank-injective : (s t : Scope) → rank s ≡ rank t → s ≡ t
rank-injective view view e = refl
rank-injective view interact e = absurd (omega arith)
rank-injective view manage e = absurd (omega arith)
rank-injective interact view e = absurd (omega arith)
rank-injective interact interact e = refl
rank-injective interact manage e = absurd (omega arith)
rank-injective manage view e = absurd (omega arith)
rank-injective manage interact e = absurd (omega arith)
rank-injective manage manage e = refl

-- The field types: ids of 32 bytes, and seconds of 64 bits.
pub record IsTyped (g : AccessGrant) : Type 0 where
  pub peer : length g.peer ≡ 32
  pub agent : length g.agent ≡ 32
  pub expires_unix : g.expires_unix < 0x1_0000_0000_0000_0000

be_value-eight : (v : ℕ) → v < 0x1_0000_0000_0000_0000 → be_value 0 (to_be_bytes 8 v) ≡ v
be_value-eight v h = omega arith

-- Two grants with one signing payload are the same in every field that is signed: a signature cannot
-- be moved to another peer, agent, scope or expiry.
pub signing_payload-injective :
    (g h : AccessGrant)
    → IsTyped g
    → IsTyped h
    → signing_payload g ≡ signing_payload h
    → (g.peer ≡ h.peer)
      × (g.agent ≡ h.agent)
      × (g.scope ≡ h.scope)
      × (g.expires_unix ≡ h.expires_unix)
unfolding signing_payload
signing_payload-injective g h tg th e =
    let (_, rest) = append_cancel domain domain refl e in
    let (peers, rest1) = append_cancel g.peer h.peer (tg.peer ∙ sym th.peer) rest in
    let (agents, rest2) = append_cancel g.agent h.agent (tg.agent ∙ sym th.agent) rest1 in
    (
      peers,
      agents,
      rank-injective g.scope h.scope (head_eq rest2),
      sym (be_value-eight g.expires_unix tg.expires_unix)
          ∙ ap (be_value 0) (tail_eq rest2)
          ∙ be_value-eight h.expires_unix th.expires_unix,
    )
