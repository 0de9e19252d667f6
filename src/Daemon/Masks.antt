-- ===== src/Daemon/Masks.antt =====
-- The address that a STUN server fills in under the cookie, and the attributes around it.
use Prim.Native.Nat.{bit_xor}
use mesh_compute.Prelude.{
  take_prefix, drop_prefix, ℕ, ◌/◌, ◌^◌, ◌≤◌, ◌<◌, ◌≡◌, refl, sym, ap, ◌∙◌, false, some, List, [],
  ◌∷◌, ◌++◌, All, arith, ltb, nat_beq, length, take, drop, nat_eq, list_eq, length-append,
  take-length,
}
use mesh_compute.Prelude.Bits.{bit_xor_twice, bit_xor_bounded}
use mesh_compute.Prelude.Bytes.{Bytes, be_bytes, from_be, length-be_bytes}
use mesh_compute.Frames.Struct.{from_be-be_bytes}
use mesh_compute.Daemon.Stun.{
  Addresses, address_text, xor_bytes, magic_cookie, family_ipv4, xor_mapped_address, is_skipped,
  read_attribute,
}
use mesh_compute.Daemon.Attributes.{Attribute, IsEncodable, read_all}

-- XOR-MAPPED-ADDRESS, as a server fills it in.
abbrev pub xor_attribute : Bytes → ℕ → Attribute
xor_attribute addr port = record {
  atype = xor_mapped_address;
  value =
      0
      ∷ family_ipv4
      ∷ (be_bytes 2 (bit_xor port (magic_cookie / 2 ^ 16))
          ++ xor_bytes addr (be_bytes 4 magic_cookie));
}

abbrev pub IsOther : Attribute → Type 0
IsOther a = nat_beq a.atype xor_mapped_address ≡ false

-- Any other attribute leaves what was found under that one.
read_attribute_other :
    (cookie : Bytes) (a : Attribute) (found : Addresses)
    → IsOther a
    → (read_attribute cookie a.atype a.value found).xor_mapped ≡ found.xor_mapped
unfolding read_attribute
read_attribute_other cookie a found h = ground arith

pub read_all_other :
    (cookie : Bytes) (attrs : List Attribute) (found : Addresses)
    → All IsOther attrs
    → (read_all cookie attrs found).xor_mapped ≡ found.xor_mapped
read_all_other cookie [] found h = refl
read_all_other cookie (a ∷ attrs) found (other, h) =
    read_all_other cookie attrs (read_attribute cookie a.atype a.value found) h
    ∙ read_attribute_other cookie a found other

pub read_all-append :
    (cookie : Bytes) (xs ys : List Attribute) (found : Addresses)
    → read_all cookie (xs ++ ys) found ≡ read_all cookie ys (read_all cookie xs found)
read_all-append cookie [] ys found = refl
read_all-append cookie (x ∷ xs) ys found =
    read_all-append cookie xs ys (read_attribute cookie x.atype x.value found)

xor_bytes_twice : (bs cs : Bytes) → length bs ≤ length cs → xor_bytes (xor_bytes bs cs) cs ≡ bs
unfolding xor_bytes
xor_bytes_twice [] cs h = refl
xor_bytes_twice (b ∷ bs) [] h = absurd (omega arith)
xor_bytes_twice (b ∷ bs) (c ∷ cs) h =
    rw (bit_xor_twice b c, xor_bytes_twice bs cs (omega arith)) refl

length-xor_bytes : (bs cs : Bytes) → length bs ≤ length cs → length (xor_bytes bs cs) ≡ length bs
unfolding xor_bytes
length-xor_bytes [] cs h = refl
length-xor_bytes (b ∷ bs) [] h = absurd (omega arith)
length-xor_bytes (b ∷ bs) (c ∷ cs) h = omega (arith, length-xor_bytes bs cs (omega arith))

pub xor_attribute-IsEncodable :
    (addr : Bytes) (port : ℕ) → length addr ≡ 4 → IsEncodable (xor_attribute addr port)
xor_attribute-IsEncodable addr port four =
    let hidden = be_bytes 2 (bit_xor port (magic_cookie / 2 ^ 16)) in
    let masked = xor_bytes addr (be_bytes 4 magic_cookie) in
    (
      omega arith,
      omega (
        arith,
        length-append hidden masked,
        length-be_bytes 2 (bit_xor port (magic_cookie / 2 ^ 16)),
        length-xor_bytes addr (be_bytes 4 magic_cookie)
            (omega (arith, four, length-be_bytes 4 magic_cookie)),
        four,
      ),
    )

-- The server's attribute gives the address back.
pub read_attribute-xor_attribute :
    (addr : Bytes) (port : ℕ) (found : Addresses)
    → length addr ≡ 4
    → port < 2 ^ 16
    → (read_attribute
        (be_bytes 4 magic_cookie)
        xor_mapped_address
        (xor_attribute addr port).value
        found).xor_mapped
      ≡ some (address_text addr port)
unfolding read_attribute is_skipped take drop from_be
read_attribute-xor_attribute addr port found four small =
    let hidden = bit_xor port (magic_cookie / 2 ^ 16) in
    let masked = xor_bytes addr (be_bytes 4 magic_cookie) in
    let bounded : hidden < 256 ^ 2 =
      bit_xor_bounded 16 port (magic_cookie / 2 ^ 16) small (omega arith) in
    let size : length masked ≡ 4 =
      length-xor_bytes addr (be_bytes 4 magic_cookie)
        (omega (arith, four, length-be_bytes 4 magic_cookie))
      ∙ four in
    let port_back =
      ap (λ p. from_be 0 p) (take_prefix 2 (be_bytes 2 hidden) masked (length-be_bytes 2 hidden))
      ∙ from_be-be_bytes 2 hidden bounded in
    let addr_back : take 4 (drop 2 (be_bytes 2 hidden ++ masked)) ≡ masked =
      ap (take 4) (drop_prefix 2 (be_bytes 2 hidden) masked (length-be_bytes 2 hidden))
      ∙ ap (λ k. take k masked) (sym size)
      ∙ take-length masked in
    let whole : ltb (length (0 ∷ family_ipv4 ∷ (be_bytes 2 hidden ++ masked))) 8 ≡ false =
      ground (arith, length-append (be_bytes 2 hidden) masked, length-be_bytes 2 hidden, size) in
    rw
      (
        whole,
        addr_back,
        port_back,
        bit_xor_twice port (magic_cookie / 2 ^ 16),
        xor_bytes_twice addr (be_bytes 4 magic_cookie)
            (omega (arith, four, length-be_bytes 4 magic_cookie)),
      )
      refl
