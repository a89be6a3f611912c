-- ===== src/Pairing/Tests.antt =====
-- The theorems on pairing at concrete windows and traces.
use game_streamer_agent.Base.{
  if◌then◌else◌, ltb, refl, replicate, ◌≡◌, true, none, some, List, [], ◌∷◌, arith,
}
use game_streamer_agent.Pairing.{
  Text, view, interact, manage, PairConfirm, idle, opened, begin, armed, poll, get_peer, on_confirm,
  granted,
}
use game_streamer_agent.Pairing.Window.{
  failures, failures-burn, is_open, is_waiting, armed-poll, poll-consumes,
}
use game_streamer_agent.Pairing.Grant.{AccessGrant, IsTyped, signing_payload-injective}
use game_streamer_agent.Pairing.Trace.{
  Event, arm, hello, confirm, ask, World, run, IsWithin, run-Within, burned_window-pairs,
}

abbrev code : Text
code = 65 ∷ 66 ∷ []

abbrev asked : PairConfirm
asked = record { name = 108 ∷ []; pin = 112 ∷ []; requested_scope = manage; mac = [] }

failures-burn_example :
    armed 9 (failures 4 (begin 0 code interact none))
    ≡ (if ltb 4 5 then some (code, interact) else none)
failures-burn_example = failures-burn 4 0 9 code interact none (omega arith)

armed-poll_example :
    is_open (begin 0 code interact none) 50 ≡ is_waiting (poll 50 (begin 0 code interact none)).1
armed-poll_example = armed-poll 50 (begin 0 code interact none)

poll-consumes_example :
    ((poll 9 (begin 0 code view none)).0
      ≡ (if is_waiting (poll 9 (begin 0 code view none)).1 then begin 0 code view none else none))
    × (poll 10 (poll 9 (begin 0 code view none)).0 ≡ (
        if is_waiting (poll 9 (begin 0 code view none)).1
        then poll 10 (begin 0 code view none)
        else (none, idle)))
poll-consumes_example = poll-consumes 9 10 (begin 0 code view none)

abbrev fresh : World
fresh = record { shared = record { state = none; peers = [] }; conns = λ id. opened }

-- The client asks for more than the owner allows.
abbrev trace : List Event
trace = arm 0 code interact ∷ hello 1 (λ t. true) 3 ∷ confirm 2 true true 3 asked ∷ ask 3 ∷ []

run-Within_example : IsWithin 1 (run trace fresh)
run-Within_example =
    run-Within 1 trace fresh (omega arith, (tt, (tt, (tt, tt))))
      (record { state = tt; peers = tt; conns = λ id. tt })

burned_window-pairs_example :
    let next =
      on_confirm 8 true true interact asked
        (record { state = failures 7 (begin 0 code interact none); peers = [] }) in
    (next.0.state ≡ none)
    × (get_peer asked.pin next.0.peers
        ≡ some (record {
          name = asked.name;
          pin = asked.pin;
          scope = granted interact asked;
          paired_at = 8;
        }))
burned_window-pairs_example =
    burned_window-pairs 7 0 8 code interact interact asked none [] (omega arith)

abbrev grant : AccessGrant
grant = record {
  peer = replicate 32 1;
  agent = replicate 32 2;
  scope = interact;
  expires_unix = 42;
}

grant-IsTyped : IsTyped grant
grant-IsTyped = record { peer = refl; agent = refl; expires_unix = omega arith }

signing_payload-injective_example :
    (grant.peer ≡ grant.peer)
    × (grant.agent ≡ grant.agent)
    × (grant.scope ≡ grant.scope)
    × (grant.expires_unix ≡ grant.expires_unix)
signing_payload-injective_example =
    signing_payload-injective grant grant grant-IsTyped grant-IsTyped refl
