-- ===== src/Daemon/Responses.antt =====
-- A binding success response, and how the parser takes it apart.
use mesh_compute.Prelude.{
  take_prefix, drop_prefix, ℕ, ◌^◌, ◌<◌, ◌≡◌, sym, ap, ◌∙◌, false, none, List, ◌++◌, All, arith,
  ltb, length, take, drop, nat_eq, list_eq, length-append, take-length, beq_self,
}
use mesh_compute.Prelude.Bytes.{Bytes, be_bytes, from_be, length-be_bytes}
use mesh_compute.Frames.Struct.{from_be-be_bytes}
use mesh_compute.Daemon.Stun.{
  magic_cookie, binding_success, pack_header, parse_binding_response, best,
}
use mesh_compute.Daemon.Attributes.{
  Attribute, IsEncodable, attributes_bytes, read_all, read_attributes-attributes_bytes,
}
use mathlib.Core.List.{append_assoc}

-- A binding success response with those attributes.
abbrev pub binding_response : Bytes → List Attribute → Bytes
binding_response txn_id attrs =
    pack_header binding_success (length (attributes_bytes attrs)) txn_id ++ attributes_bytes attrs

-- The fields of the header, read off the message.
pack_header-parts :
    (msg_len : ℕ) (txn_id body : Bytes)
    → msg_len < 256 ^ 2
    → length txn_id ≡ 12
    → (from_be 0 (take 2 (pack_header binding_success msg_len txn_id ++ body)) ≡ binding_success)
      × (from_be 0 (take 2 (drop 2 (pack_header binding_success msg_len txn_id ++ body))) ≡ msg_len)
      × (take 4 (drop 4 (pack_header binding_success msg_len txn_id ++ body))
          ≡ be_bytes 4 magic_cookie)
      × (take 12 (drop 8 (pack_header binding_success msg_len txn_id ++ body)) ≡ txn_id)
      × (drop 20 (pack_header binding_success msg_len txn_id ++ body) ≡ body)
      × (length (pack_header binding_success msg_len txn_id) ≡ 20)
pack_header-parts msg_len txn_id body small twelve =
    let tag = be_bytes 2 binding_success in
    let size = be_bytes 2 msg_len in
    let cookie = be_bytes 4 magic_cookie in
    let tag_size = length-be_bytes 2 binding_success in
    let size_size = length-be_bytes 2 msg_len in
    let cookie_size = length-be_bytes 4 magic_cookie in
    let whole : (tag ++ (size ++ (cookie ++ txn_id))) ++ body
        ≡ tag ++ (size ++ (cookie ++ (txn_id ++ body))) =
      append_assoc tag (size ++ (cookie ++ txn_id)) body
      ∙ ap (λ l. tag ++ l)
          (append_assoc size (cookie ++ txn_id) body
            ∙ ap (λ l. size ++ l) (append_assoc cookie txn_id body)) in
    let by_four = whole ∙ sym (append_assoc tag size (cookie ++ (txn_id ++ body))) in
    let by_eight = by_four ∙ sym (append_assoc (tag ++ size) cookie (txn_id ++ body)) in
    let four : length (tag ++ size) ≡ 4 =
      omega (arith, length-append tag size, tag_size, size_size) in
    let eight : length ((tag ++ size) ++ cookie) ≡ 8 =
      omega (arith, length-append (tag ++ size) cookie, four, cookie_size) in
    let twenty : length (tag ++ (size ++ (cookie ++ txn_id))) ≡ 20 = omega (
      arith,
      length-append tag (size ++ (cookie ++ txn_id)),
      length-append size (cookie ++ txn_id),
      length-append cookie txn_id,
      tag_size,
      size_size,
      cookie_size,
      twelve,
    ) in
    (
      ap (λ l. from_be 0 (take 2 l)) whole
          ∙ ap (from_be 0) (take_prefix 2 tag _ tag_size)
          ∙ from_be-be_bytes 2 binding_success (omega arith),
      ap (λ l. from_be 0 (take 2 (drop 2 l))) whole
          ∙ ap (λ l. from_be 0 (take 2 l)) (drop_prefix 2 tag _ tag_size)
          ∙ ap (from_be 0) (take_prefix 2 size _ size_size)
          ∙ from_be-be_bytes 2 msg_len small,
      ap (λ l. take 4 (drop 4 l)) by_four
          ∙ ap (take 4) (drop_prefix 4 (tag ++ size) _ four)
          ∙ take_prefix 4 cookie _ cookie_size,
      ap (λ l. take 12 (drop 8 l)) by_eight
          ∙ ap (take 12) (drop_prefix 8 ((tag ++ size) ++ cookie) _ eight)
          ∙ take_prefix 12 txn_id body twelve,
      drop_prefix 20 _ body twenty,
      twenty,
    )

-- Of a binding success response with our transaction id, the parser reads the attributes in order.
pub parse_binding_response-binding_response :
    (txn_id : Bytes) (attrs : List Attribute)
    → length txn_id ≡ 12
    → All IsEncodable attrs
    → length (attributes_bytes attrs) < 256 ^ 2
    → parse_binding_response (binding_response txn_id attrs) txn_id
      ≡ best
          (read_all (be_bytes 4 magic_cookie) attrs (record { mapped = none; xor_mapped = none }))
unfolding parse_binding_response
parse_binding_response-binding_response txn_id attrs twelve good small =
    let body = attributes_bytes attrs in
    let head = pack_header binding_success (length body) txn_id in
    let (tag, size, cookie, txn, left, twenty) =
      pack_header-parts (length body) txn_id body small twelve in
    let long : ltb (length (head ++ body)) 20 ≡ false =
      ground (arith, length-append head body, twenty) in
    rw
      (
        long,
        tag,
        cookie,
        from_be-be_bytes 4 magic_cookie (omega arith),
        txn,
        beq_self txn_id,
        size,
        left,
        take-length body,
      )
      (ap best (
        read_attributes-attributes_bytes attrs (length body) (be_bytes 4 magic_cookie)
          (record { mapped = none; xor_mapped = none }) good (omega arith)))
