-- ===== src/Daemon/Attributes.antt =====
-- The attributes of a STUN message, and the loop of the parser over them.
use mesh_compute.Prelude.{
  take_prefix, drop_prefix, ℕ, zero, suc, ◌+◌, ◌-◌, ◌^◌, ◌≤◌, ◌<◌, ◌≡◌, refl, sym, ap, ◌∙◌, inl,
  inr, List, [], ◌∷◌, ◌++◌, All, false, arith, ltb, Bool-cases, length-drop, length, take, drop,
  nat_eq, list_eq, length-append, take-append,
}
use mesh_compute.Prelude.Bytes.{Bytes, be_bytes, from_be, length-be_bytes}
use mesh_compute.Frames.Struct.{from_be-be_bytes}
use mesh_compute.Daemon.Stun.{Addresses, padding, read_attribute, read_attributes}
use mathlib.Core.List.{append_assoc}

pub record Attribute : Type 0 where
  pub atype : ℕ
  pub value : Bytes

-- Its type and its length fit their fields.
abbrev pub IsEncodable : Attribute → Type 0
IsEncodable a = (a.atype < 256 ^ 2) × (length a.value < 256 ^ 2)

abbrev pub zero_bytes : ℕ → Bytes
zero_bytes zero = []
zero_bytes (suc n) = 0 ∷ zero_bytes n

length-zero_bytes : (n : ℕ) → length (zero_bytes n) ≡ n
length-zero_bytes zero = refl
length-zero_bytes (suc n) = ap suc (length-zero_bytes n)

-- An attribute as RFC 5389 lays it out: type, length, value, and padding to four bytes.
unfoldable pub attribute_bytes : Attribute → Bytes
attribute_bytes a =
    be_bytes 2 a.atype
    ++ (be_bytes 2 (length a.value) ++ (a.value ++ zero_bytes (padding (length a.value))))

abbrev pub attributes_bytes : List Attribute → Bytes
attributes_bytes [] = []
attributes_bytes (a ∷ attrs) = attribute_bytes a ++ attributes_bytes attrs

pub attributes_bytes-append :
    (xs ys : List Attribute)
    → attributes_bytes (xs ++ ys) ≡ attributes_bytes xs ++ attributes_bytes ys
attributes_bytes-append [] ys = refl
attributes_bytes-append (a ∷ xs) ys =
    ap (λ l. attribute_bytes a ++ l) (attributes_bytes-append xs ys)
    ∙ sym (append_assoc (attribute_bytes a) (attributes_bytes xs) (attributes_bytes ys))

-- What a list of attributes changes, one after the other.
abbrev pub read_all : Bytes → List Attribute → Addresses → Addresses
read_all cookie [] found = found
read_all cookie (a ∷ attrs) found =
    read_all cookie attrs (read_attribute cookie a.atype a.value found)

pub length-attribute_bytes :
    (a : Attribute) → length (attribute_bytes a) ≡ 4 + length a.value + padding (length a.value)
unfolding attribute_bytes
length-attribute_bytes a = omega (
  arith,
  length-append (be_bytes 2 a.atype)
      (be_bytes 2 (length a.value) ++ (a.value ++ zero_bytes (padding (length a.value)))),
  length-append (be_bytes 2 (length a.value)) (a.value ++ zero_bytes (padding (length a.value))),
  length-append a.value (zero_bytes (padding (length a.value))),
  length-be_bytes 2 a.atype,
  length-be_bytes 2 (length a.value),
  length-zero_bytes (padding (length a.value)),
)

-- The parts of an attribute, read off the bytes that start with it.
attribute_bytes-parts :
    (a : Attribute) (rest : Bytes)
    → IsEncodable a
    → (from_be 0 (take 2 (attribute_bytes a ++ rest)) ≡ a.atype)
      × (from_be 0 (take 2 (drop 2 (attribute_bytes a ++ rest))) ≡ length a.value)
      × (take (length a.value) (drop 4 (attribute_bytes a ++ rest)) ≡ a.value)
unfolding attribute_bytes
attribute_bytes-parts a rest (small, short) =
    let tag = be_bytes 2 a.atype in
    let size = be_bytes 2 (length a.value) in
    let pad = zero_bytes (padding (length a.value)) in
    let tail = a.value ++ (pad ++ rest) in
    let whole : attribute_bytes a ++ rest ≡ tag ++ (size ++ tail) =
      append_assoc tag (size ++ (a.value ++ pad)) rest
      ∙ ap (λ l. tag ++ l)
          (append_assoc size (a.value ++ pad) rest
            ∙ ap (λ l. size ++ l) (append_assoc a.value pad rest)) in
    let four : length (tag ++ size) ≡ 4 = omega (
      arith,
      length-append tag size,
      length-be_bytes 2 a.atype,
      length-be_bytes 2 (length a.value),
    ) in
    (
      ap (λ l. from_be 0 (take 2 l)) whole
          ∙ ap (from_be 0) (take_prefix 2 tag (size ++ tail) (length-be_bytes 2 a.atype))
          ∙ from_be-be_bytes 2 a.atype small,
      ap (λ l. from_be 0 (take 2 (drop 2 l))) whole
          ∙ ap (λ l. from_be 0 (take 2 l))
              (drop_prefix 2 tag (size ++ tail) (length-be_bytes 2 a.atype))
          ∙ ap (from_be 0) (take_prefix 2 size tail (length-be_bytes 2 (length a.value)))
          ∙ from_be-be_bytes 2 (length a.value) short,
      ap (λ l. take (length a.value) (drop 4 l)) (whole ∙ sym (append_assoc tag size tail))
          ∙ ap (take (length a.value)) (drop_prefix 4 (tag ++ size) tail four)
          ∙ take-append a.value (pad ++ rest),
    )

-- The loop reads attributes one after the other, on any fuel from the length of the body on.
pub read_attributes-attributes_bytes :
    (attrs : List Attribute) (fuel : ℕ) (cookie : Bytes) (found : Addresses)
    → All IsEncodable attrs
    → length (attributes_bytes attrs) ≤ fuel
    → read_attributes fuel cookie (attributes_bytes attrs) found ≡ read_all cookie attrs found
unfolding read_attributes
read_attributes-attributes_bytes [] zero cookie found good enough = refl
read_attributes-attributes_bytes [] (suc fuel) cookie found good enough = refl
read_attributes-attributes_bytes (a ∷ attrs) zero cookie found good enough = absurd (
    omega
      (arith, length-append (attribute_bytes a) (attributes_bytes attrs), length-attribute_bytes a))
read_attributes-attributes_bytes (a ∷ attrs) (suc fuel) cookie found (fits, good) enough =
    let rest = attributes_bytes attrs in
    let (tag, size, value) = attribute_bytes-parts a rest fits in
    let long = length-append (attribute_bytes a) rest in
    let left : drop (4 + length a.value + padding (length a.value)) (attribute_bytes a ++ rest)
        ≡ rest =
      drop_prefix _ (attribute_bytes a) rest (length-attribute_bytes a) in
    let goes_on : ltb (length (attribute_bytes a ++ rest)) 4 ≡ false =
      ground (arith, long, length-attribute_bytes a) in
    rw (goes_on, tag, size, value, left)
      (read_attributes-attributes_bytes attrs fuel cookie
        (read_attribute cookie a.atype a.value found) good
        (omega (arith, long, length-attribute_bytes a, enough)))

-- More fuel than the length of the body changes nothing: the loop ends within it.
pub read_attributes_fuel :
    (fuel more : ℕ) (cookie body : Bytes) (found : Addresses)
    → length body ≤ fuel
    → length body ≤ more
    → read_attributes fuel cookie body found ≡ read_attributes more cookie body found
unfolding read_attributes
read_attributes_fuel zero zero cookie body found h k = refl
read_attributes_fuel zero (suc more) cookie body found h k = ground arith
read_attributes_fuel (suc fuel) zero cookie body found h k = ground arith
read_attributes_fuel (suc fuel) (suc more) cookie body found h k =
    elim (Bool-cases (ltb (length body) 4)) [
      | inl short ↦ rw short refl
      | inr long ↦
          let alen = from_be 0 (take 2 (drop 2 body)) in
          let rest = drop (4 + alen + padding alen) body in
          let less : length rest ≤ length body - 4 =
            omega (arith, length-drop (4 + alen + padding alen) body) in
          let alive : 4 ≤ length body = ground arith in
          rw long (
            read_attributes_fuel fuel more cookie rest _ (omega (arith, less, alive, h))
              (omega (arith, less, alive, k)))
    ]
