-- ===== src/Daemon/Stun.antt =====
-- stun.py: the binding request, the parser of the binding response, and the servers in turn. What a
-- server answers, and the transaction id drawn for it, are arguments.
use Prim.Native.Nat.{bit_xor}
use mesh_compute.Prelude.{
  ℕ, zero, suc, ◌+◌, ◌-◌, ◌/◌, ◌%◌, ◌^◌, Bool, not, ◌||◌, Option, none, some, List, [], ◌∷◌, ◌++◌,
  if◌then◌else◌, ltb, nat_beq, length, take, drop, ◌==◌, nat_eq, list_eq,
}
use mesh_compute.Prelude.Bytes.{codes, Str, Bytes, be_bytes, from_be}
use mesh_compute.Protocol.Json.{print_nat}

abbrev pub magic_cookie : ℕ
magic_cookie = 0x2112_a442

abbrev pub binding_request : ℕ
binding_request = 1

abbrev pub binding_success : ℕ
binding_success = 0x101

abbrev pub mapped_address : ℕ
mapped_address = 1

abbrev pub xor_mapped_address : ℕ
xor_mapped_address = 0x20

abbrev pub family_ipv4 : ℕ
family_ipv4 = 1

-- `_HEADER`, whose last field is the 12 bytes of a transaction id.
abbrev pub pack_header : ℕ → ℕ → Bytes → Bytes
pack_header msg_type msg_len txn_id =
    be_bytes 2 msg_type ++ (be_bytes 2 msg_len ++ (be_bytes 4 magic_cookie ++ txn_id))

unfoldable pub build_binding_request : Bytes → Bytes
build_binding_request txn_id = pack_header binding_request 0 txn_id

-- `bytes(b ^ c for b, c in zip(bs, cs))`
unfoldable pub xor_bytes : Bytes → Bytes → Bytes
xor_bytes [] cs = []
xor_bytes (b ∷ bs) [] = []
xor_bytes (b ∷ bs) (c ∷ cs) = bit_xor b c ∷ xor_bytes bs cs

-- `socket.inet_ntoa`
abbrev pub inet_ntoa : Bytes → Str
inet_ntoa [] = []
inet_ntoa (b ∷ []) = print_nat b
inet_ntoa (b ∷ bs) = print_nat b ++ (codes "." ++ inet_ntoa bs)

abbrev pub address_text : Bytes → ℕ → Str
address_text addr port = inet_ntoa addr ++ (codes ":" ++ print_nat port)

-- `-n % 4`
abbrev pub padding : ℕ → ℕ
padding n = (4 - n % 4) % 4

-- `mapped` and `xor_mapped`
pub record Addresses : Type 0 where
  pub mapped : Option Str
  pub xor_mapped : Option Str

-- `len(aval) < 8 or aval[1] != _FAMILY_IPV4`
unfoldable pub is_skipped : Bytes → Bool
is_skipped aval =
    ltb (length aval) 8 || not (nat_beq (from_be 0 (take 1 (drop 1 aval))) family_ipv4)

-- What one attribute changes; `cookie` is `data[4:8]`.
unfoldable pub read_attribute : Bytes → ℕ → Bytes → Addresses → Addresses
read_attribute cookie atype aval found =
    let port_raw = take 2 (drop 2 aval) in
    let addr_raw = take 4 (drop 4 aval) in
    if is_skipped aval
    then found
    else if nat_beq atype xor_mapped_address
    then record found {
      xor_mapped = some (
          address_text (xor_bytes addr_raw cookie)
            (bit_xor (from_be 0 port_raw) (magic_cookie / 2 ^ 16)));
    }
    else if nat_beq atype mapped_address
    then record found { mapped = some (address_text addr_raw (from_be 0 port_raw)) }
    else found

-- The loop from an offset on: the body behind it. Every round advances by four bytes or more, so the
-- length of the body is fuel enough.
unfoldable pub read_attributes : ℕ → Bytes → Bytes → Addresses → Addresses
read_attributes zero cookie body found = found
read_attributes (suc fuel) cookie body found =
    let atype = from_be 0 (take 2 body) in
    let alen = from_be 0 (take 2 (drop 2 body)) in
    let aval = take alen (drop 4 body) in
    let more =
      read_attributes fuel cookie (drop (4 + alen + padding alen) body)
        (read_attribute cookie atype aval found) in
    if ltb (length body) 4 then found else more

-- `first or later`
abbrev pub or_next : Option Str → Option Str → Option Str
or_next none later = later
or_next (some addr) later = some addr

-- `xor_mapped or mapped`
abbrev pub best : Addresses → Option Str
best found = or_next found.xor_mapped found.mapped

-- The body of a message of that length.
abbrev pub found_in : Bytes → ℕ → Addresses
found_in data_bytes msg_len =
    let body = take msg_len (drop 20 data_bytes) in
    read_attributes (length body) (take 4 (drop 4 data_bytes)) body
      (record { mapped = none; xor_mapped = none })

unfoldable pub parse_binding_response : Bytes → Bytes → Option Str
parse_binding_response data_bytes txn_id =
    if ltb (length data_bytes) 20
    then none
    else if not (nat_beq (from_be 0 (take 2 data_bytes)) binding_success)
        || (not (nat_beq (from_be 0 (take 4 (drop 4 data_bytes))) magic_cookie)
            || not (take 12 (drop 8 data_bytes) == txn_id))
    then none
    else best (found_in data_bytes (from_be 0 (take 2 (drop 2 data_bytes))))

-- `_query_one`, with the transaction id and the datagram that came, if one did in time.
abbrev pub query_one : Bytes → Option Bytes → Option Str
query_one txn_id none = none
query_one txn_id (some data_bytes) = parse_binding_response data_bytes txn_id

-- The servers in turn.
unfoldable pub discover_reflexive : List (Bytes × Option Bytes) → Option Str
discover_reflexive [] = none
discover_reflexive ((txn_id, reply) ∷ servers) =
    or_next (query_one txn_id reply) (discover_reflexive servers)
