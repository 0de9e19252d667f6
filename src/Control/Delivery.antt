-- ===== src/Control/Delivery.antt =====
-- The relay delivers: in order, nothing lost, and no queue above its bound.
use mesh_compute.Prelude.{
  ◌≤◌, ◌≡◌, inl, inr, refl, sym, ap, subst, ◌∙◌, Option, none, some, List, [], ◌∷◌, ◌++◌, arith,
  ltb, Bool-cases, length, ◌==◌, nat_eq, list_eq, length-append, ltb→lt,
}
use mesh_compute.Prelude.Bytes.{codes, Bytes}
use mesh_compute.Rendezvous.Tracker.{queues_for, new_relay}
use mesh_compute.Control.Relay.{
  Relay, Turn, Turns, came_in, went_out, none_yet, then_turn, pump_in, pump_out, put, read_a,
  read_b, send_a, send_b, start_relay, queue_size,
}
use mathlib.Core.List.{append_assoc}

-- What came in on one side is what was sent out on the other and then what waits, which is at most
-- 64 messages.
abbrev pub IsDelivered : Relay → Type 0
IsDelivered r =
    (r.in_a ≡ r.out_b ++ r.pair.to_b)
    × (length r.pair.to_b ≤ queue_size)
    × (r.in_b ≡ r.out_a ++ r.pair.to_a)
    × (length r.pair.to_a ≤ queue_size)

-- A message that comes in waits behind the others.
joins_queue :
    (sent out queue : List Bytes) (x : Bytes)
    → sent ≡ out ++ queue
    → sent ++ x ∷ [] ≡ out ++ (queue ++ x ∷ [])
joins_queue sent out queue x e = ap (λ l. l ++ x ∷ []) e ∙ append_assoc out queue (x ∷ [])

-- The first that waits goes out.
leaves_queue :
    (sent out queue : List Bytes) (x : Bytes)
    → sent ≡ out ++ x ∷ queue
    → sent ≡ (out ++ x ∷ []) ++ queue
leaves_queue sent out queue x e = e ∙ sym (append_assoc out (x ∷ []) queue)

put-eq-some :
    (x : Bytes) (queue : List Bytes) {queue2 : List Bytes}
    → put x queue ≡ some queue2
    → (queue2 ≡ queue ++ x ∷ []) × (length queue2 ≤ queue_size)
unfolding put
put-eq-some x queue {queue2} e = elim (Bool-cases (ltb (length queue) queue_size)) [
  | inl room ↦
      let same : queue ++ x ∷ [] ≡ queue2 = (let f = rw room at e in cc) in
      (
        sym same,
        rw (← same)
            (omega (arith, length-append queue (x ∷ []), ltb→lt (length queue) queue_size room)),
      )
  | inr full ↦ absurd (let f = rw full at e in cc)
]

read_a-IsDelivered :
    (x : Bytes) (r : Relay) (o : Option (List Bytes)) {r2 : Relay}
    → put x r.pair.to_b ≡ o
    → read_a x r o ≡ some r2
    → IsDelivered r
    → IsDelivered r2
read_a-IsDelivered x r none p e d = absurd cc
read_a-IsDelivered x r (some queue) {r2} p e (ab, small_b, ba, small_a) =
    let (grown, small) = put-eq-some x r.pair.to_b p in
    subst IsDelivered
      {x = record r { pair = record r.pair { to_b = queue }; in_a = r.in_a ++ x ∷ [] }} {y = r2}
      (cc e)
      (
        joins_queue r.in_a r.out_b r.pair.to_b x ab ∙ ap (λ l. r.out_b ++ l) (sym grown),
        small,
        ba,
        small_a,
      )

read_b-IsDelivered :
    (x : Bytes) (r : Relay) (o : Option (List Bytes)) {r2 : Relay}
    → put x r.pair.to_a ≡ o
    → read_b x r o ≡ some r2
    → IsDelivered r
    → IsDelivered r2
read_b-IsDelivered x r none p e d = absurd cc
read_b-IsDelivered x r (some queue) {r2} p e (ab, small_b, ba, small_a) =
    let (grown, small) = put-eq-some x r.pair.to_a p in
    subst IsDelivered
      {x = record r { pair = record r.pair { to_a = queue }; in_b = r.in_b ++ x ∷ [] }} {y = r2}
      (cc e)
      (
        ab,
        small_b,
        joins_queue r.in_b r.out_a r.pair.to_a x ba ∙ ap (λ l. r.out_a ++ l) (sym grown),
        small,
      )

send_a-IsDelivered :
    (queue : List Bytes) (r : Relay) {r2 : Relay}
    → r.pair.to_a ≡ queue
    → send_a queue r ≡ some r2
    → IsDelivered r
    → IsDelivered r2
send_a-IsDelivered [] r p e d = absurd cc
send_a-IsDelivered (x ∷ queue) r {r2} p e (ab, small_b, ba, small_a) =
    subst IsDelivered
      {x = record r { pair = record r.pair { to_a = queue }; out_a = r.out_a ++ x ∷ [] }} {y = r2}
      (cc e)
      (
        ab,
        small_b,
        leaves_queue r.in_b r.out_a queue x (ba ∙ ap (λ l. r.out_a ++ l) p),
        omega (arith, ap length p, small_a),
      )

send_b-IsDelivered :
    (queue : List Bytes) (r : Relay) {r2 : Relay}
    → r.pair.to_b ≡ queue
    → send_b queue r ≡ some r2
    → IsDelivered r
    → IsDelivered r2
send_b-IsDelivered [] r p e d = absurd cc
send_b-IsDelivered (x ∷ queue) r {r2} p e (ab, small_b, ba, small_a) =
    subst IsDelivered
      {x = record r { pair = record r.pair { to_b = queue }; out_b = r.out_b ++ x ∷ [] }} {y = r2}
      (cc e)
      (
        leaves_queue r.in_a r.out_b queue x (ab ∙ ap (λ l. r.out_b ++ l) p),
        omega (arith, ap length p, small_b),
        ba,
        small_a,
      )

Turn-IsDelivered : {r r2 : Relay} → Turn r r2 → IsDelivered r → IsDelivered r2
unfolding pump_in pump_out queues_for
Turn-IsDelivered {r} (came_in side bytes e) d = elim (Bool-cases (side == codes "a")) [
  | inl a ↦ read_a-IsDelivered bytes r (put bytes r.pair.to_b) refl (rw a at e) d
  | inr b ↦ read_b-IsDelivered bytes r (put bytes r.pair.to_a) refl (rw b at e) d
]
Turn-IsDelivered {r} (went_out side e) d = elim (Bool-cases (side == codes "a")) [
  | inl a ↦ send_a-IsDelivered r.pair.to_a r refl (rw a at e) d
  | inr b ↦ send_b-IsDelivered r.pair.to_b r refl (rw b at e) d
]

Turns-keeps : {r r2 : Relay} → Turns r r2 → IsDelivered r → IsDelivered r2
Turns-keeps none_yet d = d
Turns-keeps (then_turn ts t) d = Turn-IsDelivered t (Turns-keeps ts d)

-- In whatever order the tasks of a new relay take their turns, each side has been sent the first
-- messages that came in on the other, in their order, and all later ones wait: at most 64.
pub Turns-IsDelivered : {r : Relay} → Turns (start_relay new_relay) r → IsDelivered r
Turns-IsDelivered ts = Turns-keeps ts (refl, omega arith, refl, omega arith)
