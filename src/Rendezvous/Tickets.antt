-- ===== src/Rendezvous/Tickets.antt =====
-- The tickets of `connect`, the sessions that it makes known, and the two sides of a relay.
use mesh_compute.Prelude.{
  list_beq, ℕ, zero, suc, ◌≡◌, ◌≢◌, inl, inr, refl, ap, subst, ◌∙◌, Bool, true, false, Option, none,
  some, List, [], ◌∷◌, Bool-cases, Option-cases, ok, ◌==◌, nat_eq, list_eq,
}
use mesh_compute.Rendezvous.Peers.{Peer}
use mesh_compute.Prelude.Dict.{
  lookup-insert_ne, lookup-insert_self, is_some, insert, has_key, lookup, Dict,
}
use mesh_compute.Protocol.Identity.{
  verify-sign, sign_json, public_b64, verify_json, NodeIdentity, IsCrypto, Crypto,
}
use mesh_compute.Prelude.Int.{pos}
use mesh_compute.Python.{Floats}
use mesh_compute.Prelude.Bytes.{Bytes, codes, Str}
use mesh_compute.Rendezvous.Tracker.{
  ticket_for, connect_to, session_known, ticket_payload, ConnectTicket, Rendezvous, ConnectRequest,
  new_relay, claim_among, purge, RelayPair, claim_side, connect,
}

module _ {F : Type 0} ⦃fl : Floats F⦄ where
  -- An entry that expired more than an hour before.
  abbrev pub stale : F → F → Bool
  stale now exp = fl.lt exp (fl.sub now (fl.of_int (pos 3600)))

  purge-lookup_fresh :
      (now : F) (d : Dict Str F) (s : Str) (exp : F)
      → lookup s d ≡ some exp
      → stale now exp ≡ false
      → lookup s (purge now d) ≡ some exp
  unfolding purge
  purge-lookup_fresh now [] s exp found fresh = found
  purge-lookup_fresh now ((k, x) ∷ d) s exp found fresh = elim (Bool-cases (stale now x)) [
    | inr kept ↦ rw kept (elim (Bool-cases (s == k)) [
      | inl same ↦ rw same (rw same at found)
      | inr other ↦ rw other (purge-lookup_fresh now d s exp (rw other at found) fresh)
    ])
    | inl stale ↦ rw stale (elim (Bool-cases (s == k)) [
      | inl same ↦ absurd (let is_exp : some x ≡ some exp = rw same at found in cc)
      | inr other ↦ purge-lookup_fresh now d s exp (rw other at found) fresh
    ])
  ]

  purge-lookup-none :
      (now : F) (d : Dict Str F) (s : Str) → lookup s d ≡ none → lookup s (purge now d) ≡ none
  unfolding purge
  purge-lookup-none now [] s gone = gone
  purge-lookup-none now ((k, x) ∷ d) s gone = elim (Bool-cases (s == k)) [
    | inl same ↦ absurd (let no_value : some x ≡ none = rw same at gone in cc)
    | inr other ↦
        let rest = purge-lookup-none now d s (rw other at gone) in
        elim (Bool-cases (stale now x)) [
          | inr kept ↦ rw (kept, other) rest
          | inl stale ↦ rw stale rest
        ]
  ]

  has_key_lem : (s : Str) (d : Dict Str F) → has_key s d ≡ false → lookup s d ≡ none
  has_key_lem s d h = elim (Option-cases (lookup s d)) [
    | inl gone ↦ gone
    | inr (x, found) ↦ absurd (let e = rw found at h in cc)
  ]

  -- What a ticket and the table are after `connect`.
  abbrev pub Ticketed :
      ⦃cr : Crypto⦄
      → NodeIdentity
      → Str
      → F
      → Rendezvous F
      → Rendezvous F
      → ConnectTicket F
      → Type 0
  Ticketed identity s now rv rv2 ticket =
      (verify_json {F = F} (public_b64 identity) (ticket_payload ticket)
          ticket.control_signature_b64
        ≡ true)
      × (stale now ticket.expires_at ≡ false → session_known s rv2 ≡ true)
      × ((s2 : Str) (exp : F)
          → s2 ≢ s
          → lookup s2 rv.issued ≡ some exp
          → stale now exp ≡ false
          → session_known s2 rv2 ≡ true)
      × ((s2 : Str) → s2 ≢ s → session_known s2 rv ≡ false → session_known s2 rv2 ≡ false)

  ticket_lem :
      ⦃cr : Crypto⦄
      → IsCrypto cr
      → (identity : NodeIdentity) (s : Str) (now exp : F) (rv : Rendezvous F)
        (ticket : ConnectTicket F)
      → ticket.expires_at ≡ exp
      → Ticketed identity s now rv
          (record rv { issued = purge now (insert s exp rv.issued) })
          (record ticket { control_signature_b64 = sign_json identity (ticket_payload ticket) })
  unfolding session_known verify_json sign_json ticket_payload
  ticket_lem h identity s now exp rv ticket at_exp = (
    verify-sign h identity _,
    (λ fresh. ap is_some (
        purge-lookup_fresh now (insert s exp rv.issued) s exp (lookup-insert_self s exp rv.issued)
          (subst (λ x. stale now x ≡ false) at_exp fresh))),
    (λ s2 x other known fresh. ap is_some (
        purge-lookup_fresh now (insert s exp rv.issued) s2 x
          (lookup-insert_ne s2 s exp rv.issued other ∙ known) fresh)),
    λ s2 other unknown. ap is_some (
        purge-lookup-none now (insert s exp rv.issued) s2
          (lookup-insert_ne s2 s exp rv.issued other ∙ has_key_lem s2 rv.issued unknown)),
  )

  -- With a target in the table, `connect` gives a ticket: it verifies under the control plane's key
  -- and carries the target's entry. The session is known from then on, unless it is stale when it
  -- is issued; any session that was known stays known while it is not stale; and one that was not
  -- known, of another id, stays unknown.
  pub connect_lem :
      ⦃cr : Crypto⦄
      → IsCrypto cr
      → (identity : NodeIdentity) (s : Str) (req : ConnectRequest) (now ttl : F) (rv : Rendezvous F)
        (target : Peer F)
      → lookup req.to_node_id rv.peers ≡ some target
      → (rv2 : Rendezvous F) × (ticket : ConnectTicket F) × (connect identity s req now ttl rv
          ≡ ok (rv2, ticket))
        × (ticket.peer ≡ target.candidate)
        × Ticketed identity s now rv rv2 ticket
  unfolding connect connect_to ticket_for
  connect_lem h identity s req now ttl rv target found =
      let ticket = ticket_for (lookup req.from_node_id rv.peers) target s (fl.add now ttl) in
      (
        record rv { issued = purge now (insert s (fl.add now ttl) rv.issued) },
        record ticket { control_signature_b64 = sign_json identity (ticket_payload ticket) },
        rw found refl,
        refl,
        ticket_lem h identity s now (fl.add now ttl) rv ticket refl,
      )

-- The sides that `n` calls of `claim_side` give, one after the other.
unfoldable pub claims : ℕ → RelayPair → List (Option Str)
claims zero pair = []
claims (suc n) pair = let (pair2, side) = claim_side pair in side ∷ claims n pair2

abbrev pub repeat : ℕ → List (Option Str)
repeat zero = []
repeat (suc n) = none ∷ repeat n

claims_full :
    (n : ℕ) (a b : List Bytes)
    → claims n (record { to_a = a; to_b = b; claimed = codes "b" ∷ codes "a" ∷ [] }) ≡ repeat n
unfolding claims claim_side claim_among list_beq
claims_full zero a b = refl
claims_full (suc n) a b = ap (◌∷◌ none) (claims_full n a b)

-- Of a new pair, the first caller gets side "a", the second side "b", and no later one a side.
pub claims-new_relay :
    (n : ℕ) → claims (suc (suc n)) new_relay ≡ some (codes "a") ∷ some (codes "b") ∷ repeat n
unfolding claims claim_side claim_among list_beq
claims-new_relay n = ap (λ l. some (codes "a") ∷ some (codes "b") ∷ l) (claims_full n [] [])
