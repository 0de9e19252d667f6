-- ===== src/Daemon/Answers.antt =====
-- Whose answer gives an address.
use mesh_compute.Prelude.{
  ◌≤◌, ◌≡◌, refl, ap, ◌∙◌, inl, inr, Option, Option-cases, none, some, List, [], ◌∷◌, Elem, arith,
  length, take, drop, nat_eq, list_eq, beq→eq,
}
use mesh_compute.Prelude.Bytes.{Bytes, Str, from_be}
use mesh_compute.Daemon.Stun.{
  magic_cookie, binding_success, parse_binding_response, discover_reflexive,
}

-- What the parser takes for an answer to a request.
abbrev pub IsAnswer : Bytes → Bytes → Type 0
IsAnswer txn_id data_bytes =
    (20 ≤ length data_bytes)
    × (from_be 0 (take 2 data_bytes) ≡ binding_success)
    × (from_be 0 (take 4 (drop 4 data_bytes)) ≡ magic_cookie)
    × (take 12 (drop 8 data_bytes) ≡ txn_id)

parse_binding_response-IsAnswer :
    (data_bytes txn_id : Bytes) {addr : Str}
    → parse_binding_response data_bytes txn_id ≡ some addr
    → IsAnswer txn_id data_bytes
unfolding parse_binding_response
parse_binding_response-IsAnswer data_bytes txn_id h =
    ground (arith, beq→eq (take 12 (drop 8 data_bytes)) txn_id)

-- The address that discover_reflexive returns stands in a binding success response, with the magic
-- cookie, to the very request for which it came in: a datagram with another transaction id never
-- gives an address.
pub discover_reflexive-IsAnswer :
    (servers : List (Bytes × Option Bytes)) {addr : Str}
    → discover_reflexive servers ≡ some addr
    → (txn_id : Bytes) × (data_bytes : Bytes) × Elem (txn_id, some data_bytes) servers
      × IsAnswer txn_id data_bytes
      × (parse_binding_response data_bytes txn_id ≡ some addr)
unfolding discover_reflexive
discover_reflexive-IsAnswer [] h = cc
discover_reflexive-IsAnswer ((txn_id, none) ∷ servers) h =
    let (t, d, m, answers, parsed) = discover_reflexive-IsAnswer servers h in
    (t, d, inr m, answers, parsed)
discover_reflexive-IsAnswer ((txn_id, some data_bytes) ∷ servers) {addr} h =
    elim (Option-cases (parse_binding_response data_bytes txn_id)) [
      | inl silent ↦
          let (t, d, m, answers, parsed) = discover_reflexive-IsAnswer servers (rw silent at h) in
          (t, d, inr m, answers, parsed)
      | inr (found, e) ↦
          let same : found ≡ addr = (let f = rw e at h in cc) in
          (
            txn_id,
            data_bytes,
            inl refl,
            parse_binding_response-IsAnswer data_bytes txn_id e,
            e ∙ ap some same,
          )
    ]
