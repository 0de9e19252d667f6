-- ===== src/Control/Relay.antt =====
-- The relay of a session: `rendezvous_relay`, up to two websockets whose bytes go through the
-- queues of a `RelayPair`. A put on a full queue and a get on an empty one wait, so they are no step.
use mesh_compute.Python.{Floats}
use mesh_compute.Prelude.{
  ℕ, ◌≡◌, not, Option, none, some, List, [], ◌∷◌, ◌++◌, if◌then◌else◌, ltb, length, ◌==◌, nat_eq,
  list_eq,
}
use mesh_compute.Prelude.Dict.{insert}
use mesh_compute.Prelude.Bytes.{codes, Str, Bytes}
use mesh_compute.Rendezvous.Tracker.{
  Rendezvous, RelayPair, claim_side, queues_for, session_known, relay_session,
}

-- What becomes of a websocket that asks for a session.
pub data Opening : Type 0 where
  -- code 1008
  unknown_session : Opening
  -- code 1013
  session_full : Opening
  joined : Str → Opening

abbrev pub opening_of : Option Str → Opening
opening_of none = session_full
opening_of (some side) = joined side

-- `asyncio.Queue(maxsize=64)`
abbrev pub queue_size : ℕ
queue_size = 64

module _ {F : Type 0} ⦃fl : Floats F⦄ where
  -- The pair is in the table, with the side that was taken.
  unfoldable pub open_relay : Str → Rendezvous F → Rendezvous F × Opening
  open_relay session rv =
      if not (session_known session rv)
      then (rv, unknown_session)
      else (let (rv2, pair) = relay_session session rv in
          let (pair2, side) = claim_side pair in
          (record rv2 { relays = insert session pair2 rv2.relays }, opening_of side))

-- A relay that runs: its queues, and for each side what came in from its websocket and what was
-- sent out to it.
pub record Relay : Type 0 where
  pub pair : RelayPair
  pub in_a : List Bytes
  pub out_a : List Bytes
  pub in_b : List Bytes
  pub out_b : List Bytes

abbrev pub start_relay : RelayPair → Relay
start_relay pair = record { pair = pair; in_a = []; out_a = []; in_b = []; out_b = [] }

-- `outbox.put(data)`, where there is room.
unfoldable pub put : Bytes → List Bytes → Option (List Bytes)
put bytes queue = if ltb (length queue) queue_size then some (queue ++ bytes ∷ []) else none

abbrev pub read_a : Bytes → Relay → Option (List Bytes) → Option Relay
read_a bytes r none = none
read_a bytes r (some queue) =
    some (record r { pair = record r.pair { to_b = queue }; in_a = r.in_a ++ bytes ∷ [] })

abbrev pub read_b : Bytes → Relay → Option (List Bytes) → Option Relay
read_b bytes r none = none
read_b bytes r (some queue) =
    some (record r { pair = record r.pair { to_a = queue }; in_b = r.in_b ++ bytes ∷ [] })

-- One turn of `pump_in` of a side: what it writes is its outbox.
unfoldable pub pump_in : Str → Bytes → Relay → Option Relay
pump_in side bytes r =
    let outbox = (queues_for side r.pair).1 in
    if side == codes "a"
    then read_a bytes r (put bytes outbox)
    else read_b bytes r (put bytes outbox)

abbrev pub send_a : List Bytes → Relay → Option Relay
send_a [] r = none
send_a (bytes ∷ queue) r =
    some (record r { pair = record r.pair { to_a = queue }; out_a = r.out_a ++ bytes ∷ [] })

abbrev pub send_b : List Bytes → Relay → Option Relay
send_b [] r = none
send_b (bytes ∷ queue) r =
    some (record r { pair = record r.pair { to_b = queue }; out_b = r.out_b ++ bytes ∷ [] })

-- One turn of `pump_out` of a side: what it reads is its inbox.
unfoldable pub pump_out : Str → Relay → Option Relay
pump_out side r =
    let inbox = (queues_for side r.pair).0 in
    if side == codes "a" then send_a inbox r else send_b inbox r

-- The turns of the four tasks, in any order.
pub data Turn (r : Relay) : Relay → Type 0 where
  came_in : (side : Str) (bytes : Bytes) {r2 : Relay} → pump_in side bytes r ≡ some r2 → Turn r r2
  went_out : (side : Str) {r2 : Relay} → pump_out side r ≡ some r2 → Turn r r2

pub data Turns (r : Relay) : Relay → Type 0 where
  none_yet : Turns r r
  then_turn : {r2 r3 : Relay} → Turns r r2 → Turn r2 r3 → Turns r r3
