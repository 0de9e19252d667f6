-- ===== src/Daemon/Reflexive.antt =====
-- The address that a STUN server saw, from its answer.
use mesh_compute.Prelude.{
  ℕ, ◌^◌, ◌<◌, ◌≡◌, refl, ap, ◌∙◌, none, some, List, ◌∷◌, ◌++◌, All, All-append, length, nat_eq,
  list_eq,
}
use mesh_compute.Prelude.Bytes.{Bytes, be_bytes}
use mesh_compute.Daemon.Stun.{
  Addresses, address_text, magic_cookie, read_attribute, parse_binding_response,
}
use mesh_compute.Daemon.Attributes.{Attribute, IsEncodable, attributes_bytes, read_all}
use mesh_compute.Daemon.Masks.{
  xor_attribute, IsOther, read_all_other, read_all-append, xor_attribute-IsEncodable,
  read_attribute-xor_attribute,
}
use mesh_compute.Daemon.Responses.{binding_response, parse_binding_response-binding_response}

-- A binding success response with our transaction id, in which a server put the IPv4 address and
-- the port that it saw under the cookie, is read back as that address and port, whatever other
-- attributes stand before and behind, as long as none behind is another XOR-MAPPED-ADDRESS, each
-- type and length fits its field, and the whole body does.
pub parse_binding_response-reflexive :
    (txn_id addr : Bytes) (port : ℕ) (before after : List Attribute)
    → length txn_id ≡ 12
    → length addr ≡ 4
    → port < 2 ^ 16
    → All IsEncodable before
    → All IsEncodable after
    → All IsOther after
    → length (attributes_bytes (before ++ xor_attribute addr port ∷ after)) < 256 ^ 2
    → parse_binding_response
        (binding_response txn_id (before ++ xor_attribute addr port ∷ after))
        txn_id
      ≡ some (address_text addr port)
parse_binding_response-reflexive txn_id addr port before after twelve four small good_before
      good_after others fits =
    let cookie = be_bytes 4 magic_cookie in
    let start : Addresses = record { mapped = none; xor_mapped = none } in
    let x = xor_attribute addr port in
    let earlier = read_all cookie before start in
    let seen : (read_all cookie (before ++ x ∷ after) start).xor_mapped
        ≡ some (address_text addr port) =
      ap (λ f. f.xor_mapped) (read_all-append cookie before (x ∷ after) start)
      ∙ read_all_other cookie after (read_attribute cookie x.atype x.value earlier) others
      ∙ read_attribute-xor_attribute addr port earlier four small in
    parse_binding_response-binding_response txn_id (before ++ x ∷ after) twelve
      (All-append IsEncodable before (x ∷ after) good_before
        (xor_attribute-IsEncodable addr port four, good_after))
      fits
    ∙ rw seen refl
