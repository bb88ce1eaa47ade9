-- ===== src/Go/Json.antt =====
-- Package encoding/json: strings and the JSON Patch document that the program marshals. Bytes
-- from 128 on are copied, as json.Marshal does for UTF-8 text other than U+2028 and U+2029.
pub mod Read
use ebpf_ssf_broker.Base.{
  ℕ, ◌+◌, ◌-◌, ◌/◌, ◌%◌, ◌||◌, Option, some, List, [], ◌∷◌, ◌++◌, ltb, ◌==◌, if◌then◌else◌, Text,
  codes,
}

hex_digit : ℕ → ℕ
hex_digit d = if ltb d 10 then b'0' + d else b'a' + (d - 10)

-- One byte of a string, escaped for HTML too.
escape : ℕ → Text
unfolding hex_digit
escape c =
    if c == b'"'
    then codes "\\\""
    else if c == b'\\'
    then codes "\\\\"
    else if c == 8
    then codes "\\b"
    else if c == 12
    then codes "\\f"
    else if c == 10
    then codes "\\n"
    else if c == 13
    then codes "\\r"
    else if c == 9
    then codes "\\t"
    else if ltb c 32 || c == b'<' || c == b'>' || c == b'&'
    then codes "\\u00" ++ hex_digit (c / 16) ∷ hex_digit (c % 16) ∷ []
    else c ∷ []

abbrev escaped : Text → Text
escaped [] = []
escaped (c ∷ s) = escape c ++ escaped s

-- A JSON string.
unfoldable pub quote : Text → Text
unfolding escape
quote s = b'"' ∷ escaped s ++ b'"' ∷ []

-- One operation of an RFC 6902 patch: map[string]any{"op", "path", "value"}.
pub record PatchOp : Type 0 where
  pub op : Text
  pub path : Text
  pub value : Text

-- The keys of a map are written in sorted order.
abbrev object : PatchOp → Text
object o =
    codes "{\"op\":"
    ++ quote o.op
    ++ codes ",\"path\":"
    ++ quote o.path
    ++ codes ",\"value\":"
    ++ quote o.value
    ++ codes "}"

abbrev more_objects : List PatchOp → Text
more_objects [] = codes "]"
more_objects (o ∷ os) = codes "," ++ object o ++ more_objects os

-- json.Marshal of a list of such maps; `none` would be its error, which text values never cause.
unfoldable pub marshal : List PatchOp → Option Text
unfolding quote
marshal [] = some (codes "[]")
marshal (o ∷ os) = some (codes "[" ++ object o ++ more_objects os)
