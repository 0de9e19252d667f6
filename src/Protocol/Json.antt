-- ===== src/Protocol/Json.antt =====
-- `canonical_json` of packages/protocol/meshcompute_protocol/identity.py: JSON with sorted keys and
-- no spaces, every character beyond ASCII escaped.
use mesh_compute.Prelude.{
  ℕ, zero, suc, ◌+◌, ◌-◌, ◌/◌, ◌%◌, Bool, true, false, List, [], ◌∷◌, ◌++◌, if◌then◌else◌, ltb,
  nat_beq,
}
use mesh_compute.Prelude.Int.{ℤ, pos, negsuc}
use mesh_compute.Prelude.Bytes.{Bytes, Str, codes, lex_le, hex}
use mesh_compute.Prelude.Sort.{sort}
use mesh_compute.Python.{Floats}

mutual
  -- What `model_dump(mode="json")` gives.
  pub data Json (F : Type 0) : Type 0 where
    null : Json F
    bool : Bool → Json F
    int : ℤ → Json F
    float : F → Json F
    str : Str → Json F
    arr : Items F → Json F
    obj : Fields F → Json F

  pub data Items (F : Type 0) : Type 0 where
    nil : Items F
    cons : Json F → Items F → Items F

  pub data Fields (F : Type 0) : Type 0 where
    end : Fields F
    field : Str → Json F → Fields F → Fields F

-- The digits of a number, the last one first in the recursion.
decimal_digits : ℕ → ℕ → Str
decimal_digits zero n = []
decimal_digits (suc fuel) n =
    let more = decimal_digits fuel (n / 10) in
    if ltb n 10 then (48 + n) ∷ [] else more ++ (48 + n % 10) ∷ []

-- A number has fewer digits than its successor counts.
pub print_nat : ℕ → Str
unfolding decimal_digits
print_nat n = decimal_digits (suc n) n

print_int : ℤ → Str
unfolding print_nat
print_int (pos n) = print_nat n
print_int (negsuc n) = b'-' ∷ print_nat (suc n)

-- `\uXXXX`
unicode_escape : ℕ → Str
unicode_escape c = b'\\' ∷ b'u' ∷ hex (c / 256 ∷ c % 256 ∷ [])

escape_char : ℕ → Str
unfolding unicode_escape
escape_char c =
    if nat_beq c 34
    then b'\\' ∷ 34 ∷ []
    else if nat_beq c 92
    then b'\\' ∷ b'\\' ∷ []
    else if nat_beq c 10
    then b'\\' ∷ b'n' ∷ []
    else if nat_beq c 13
    then b'\\' ∷ b'r' ∷ []
    else if nat_beq c 9
    then b'\\' ∷ b't' ∷ []
    else if nat_beq c 12
    then b'\\' ∷ b'f' ∷ []
    else if nat_beq c 8
    then b'\\' ∷ b'b' ∷ []
    else if ltb c 32
    then unicode_escape c
    else if ltb c 127
    then c ∷ []
    else if ltb c 65536
    then unicode_escape c
    else unicode_escape (0xd800 + (c - 65536) / 1024)
      ++ unicode_escape (0xdc00 + (c - 65536) % 1024)

escape : Str → Str
unfolding escape_char
escape [] = []
escape (c ∷ cs) = escape_char c ++ escape cs

quote : Str → Str
unfolding escape
quote s = 34 ∷ (escape s ++ 34 ∷ [])

-- The printed members in the order of their keys, with commas between them.
join_members : List (Str × Str) → Str
unfolding quote
join_members [] = []
join_members ((k, v) ∷ []) = quote k ++ (b':' ∷ v)
join_members ((k, v) ∷ m ∷ ms) = quote k ++ (b':' ∷ (v ++ (b',' ∷ join_members (m ∷ ms))))

abbrev key_le : Str × Str → Str × Str → Bool
key_le a b = lex_le a.0 b.0

join_items : List Str → Str
join_items [] = []
join_items (v ∷ []) = v
join_items (v ∷ w ∷ vs) = v ++ (b',' ∷ join_items (w ∷ vs))

module _ {F : Type 0} ⦃fl : Floats F⦄ where
  unfoldable mutual
    unfolding print_int quote join_members join_items sort lex_le hex

    pub dumps : Json F → Str
    dumps null = codes "null"
    dumps (bool true) = codes "true"
    dumps (bool false) = codes "false"
    dumps (int n) = print_int n
    dumps (float x) = fl.repr x
    dumps (str s) = quote s
    dumps (arr xs) = b'[' ∷ (join_items (dump_items xs) ++ b']' ∷ [])
    dumps (obj fs) = b'{' ∷ (join_members (sort key_le (dump_fields fs)) ++ b'}' ∷ [])

    pub dump_items : Items F → List Str
    dump_items nil = []
    dump_items (cons x xs) = dumps x ∷ dump_items xs

    pub dump_fields : Fields F → List (Str × Str)
    dump_fields end = []
    dump_fields (field k v fs) = (k, dumps v) ∷ dump_fields fs

  -- `json.dumps(obj, sort_keys=True, separators=(",", ":")).encode("utf-8")`: the text is ASCII.
  unfoldable pub canonical_json : Json F → Bytes
  canonical_json v = dumps v
