-- ===== src/Pairing.antt =====
-- The pairing window of crates/session/src/pairing.rs, the peer store of crates/transport/src/peers.rs
-- and the scopes of crates/protocol/src/grant.rs. Instants are nanoseconds, strings their bytes.
use game_streamer_agent.Base.{
  ℕ, zero, suc, ◌+◌, ◌-◌, ◌%◌, Bool, true, false, not, ◌&&◌, ◌||◌, Option, none, some, List, [],
  ◌∷◌, ltb, leb, ◌==◌, if◌then◌else◌,
}
mod Tests
pub mod Window
pub mod Trace
pub mod Grant

abbrev pub Text : Type 0
Text = List ℕ

pub data Scope : Type 0 where
  view interact manage : Scope

-- The derived order.
abbrev pub rank : Scope → ℕ
rank view = 0
rank interact = 1
rank manage = 2

abbrev pub min_scope : Scope → Scope → Scope
min_scope a b = if leb (rank a) (rank b) then a else b

pub record PairOutcome : Type 0 where
  pub name : Text
  pub pin : Text
  pub scope : Scope

pub data PairingPoll : Type 0 where
  idle waiting expired : PairingPoll
  completed : PairOutcome → PairingPoll

pub record Pending : Type 0 where
  pub code : Text
  pub scope : Scope
  pub expires : ℕ
  pub outcome : Option PairOutcome
  pub attempts : ℕ

abbrev pub window : ℕ
window = 120_000_000_000

abbrev pub max_attempts : ℕ
max_attempts = 5

abbrev pub PairingState : Type 0
PairingState = Option Pending

-- `begin`, with the code that `generate_code` made
unfoldable pub begin : ℕ → Text → Scope → PairingState → PairingState
begin now code scope s =
    some
      (record { code = code; scope = scope; expires = now + window; outcome = none; attempts = 0 })

-- The state afterwards, and whether the window was burned.
unfoldable pub record_failure : PairingState → PairingState × Bool
record_failure none = (none, false)
record_failure (some p) =
    let attempts = (p.attempts + 1) % 0x1_0000_0000 in
    if leb max_attempts attempts
    then (none, true)
    else (some (record p { attempts = attempts }), false)

abbrev pub is_claimed : Pending → Bool
is_claimed p = elim p.outcome [ none ↦ false | some o ↦ true ]

unfoldable pub armed : ℕ → PairingState → Option (Text × Scope)
armed now none = none
armed now (some p) = if is_claimed p || ltb p.expires now then none else some (p.code, p.scope)

unfoldable pub complete : PairOutcome → PairingState → PairingState
complete outcome none = none
complete outcome (some p) = some (record p { outcome = some outcome })

unfoldable pub poll : ℕ → PairingState → PairingState × PairingPoll
poll now none = (none, idle)
poll now (some p) = elim p.outcome [
  | some outcome ↦ (none, completed outcome)
  | none ↦ if ltb p.expires now then (none, expired) else (some p, waiting)
]

pub record Peer : Type 0 where
  pub name : Text
  pub pin : Text
  pub scope : Scope
  pub paired_at : ℕ

abbrev pub same_text : Text → Text → Bool
same_text [] [] = true
same_text (x ∷ xs) (y ∷ ys) = (x == y) && same_text xs ys
same_text [] (y ∷ ys) = false
same_text (x ∷ xs) [] = false

abbrev pub Peers : Type 0
Peers = List Peer

unfoldable pub drop_pin : Text → Peers → Peers
drop_pin pin [] = []
drop_pin pin (p ∷ ps) = let rest = drop_pin pin ps in if same_text p.pin pin then rest else p ∷ rest

-- `PeerStore::add` in memory. The list is keyed by pin.
unfoldable pub add_peer : ℕ → Text → Text → Scope → Peers → Peers
unfolding drop_pin
add_peer now name pin scope peers =
    record { name = name; pin = pin; scope = scope; paired_at = now } ∷ drop_pin pin peers

-- `PeerStore::get`
unfoldable pub get_peer : Text → Peers → Option Peer
get_peer pin [] = none
get_peer pin (p ∷ ps) = let rest = get_peer pin ps in if same_text p.pin pin then some p else rest

-- `PeerStore::remove` in memory, and whether there was one
unfoldable pub remove_peer : Text → Peers → Peers × Bool
unfolding drop_pin get_peer
remove_peer pin peers =
    (drop_pin pin peers, elim (get_peer pin peers) [ none ↦ false | some p ↦ true ])

pub record PairConfirm : Type 0 where
  pub name : Text
  pub pin : Text
  pub requested_scope : Scope
  pub mac : List ℕ

-- One connection of `pair_inner`: before its first message, between the two, or at its end.
pub data Exchange : Type 0 where
  opened : Exchange
  responded : Text → Scope → Exchange
  ended : Option Text → Exchange
  failed : Exchange

pub record Shared : Type 0 where
  pub state : PairingState
  pub peers : Peers

-- `pair_inner` up to its second `recv_msg`; `respond` is whether `AgentPairing::respond` accepts the
-- hello under the code.
unfoldable pub on_hello : ℕ → (Text → Bool) → Shared → Exchange
unfolding armed
on_hello now respond w = elim (armed now w.state) [
  | none ↦ ended none
  | some found ↦ if respond found.0 then responded found.0 found.1 else failed
]

abbrev pub granted : Scope → PairConfirm → Scope
granted authorized confirm = min_scope confirm.requested_scope authorized

-- The rest of `pair_inner`: `verified` is what `AgentPairing::verify` says of the confirmation, and
-- `finished` whether the peer store
-- could be written and the acceptance sent. Where not, the peer is in memory and the window unclaimed.
unfoldable pub on_confirm : ℕ → Bool → Bool → Scope → PairConfirm → Shared → Shared × Exchange
unfolding record_failure add_peer complete
on_confirm now verified finished authorized confirm w =
    let scope = granted authorized confirm in
    let peers = add_peer now confirm.name confirm.pin scope w.peers in
    if not verified
    then (record w { state = (record_failure w.state).0 }, ended none)
    else if not finished
    then (record w { peers = peers }, failed)
    else (
      record {
        state = complete (record { name = confirm.name; pin = confirm.pin; scope = scope }) w.state;
        peers = peers;
      },
      ended (some confirm.name),
    )
