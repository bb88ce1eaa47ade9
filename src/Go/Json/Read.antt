-- ===== src/Go/Json/Read.antt =====
-- A reader of JSON strings, for what json.Marshal writes.
use ebpf_ssf_broker.Base.{
  ℕ, suc, ◌+◌, ◌-◌, ◌*◌, ◌/◌, ◌%◌, ◌<◌, ◌≡◌, refl, ap, ◌∙◌, Option, none, some, [], ◌∷◌, ◌++◌,
  append_assoc, arith, ltb, ◌==◌, if◌then◌else◌, Text,
}
use ebpf_ssf_broker.Go.Json.{hex_digit, escape, escaped, quote}

-- Where the reader stands: in plain text, behind a backslash, or in \uXXXX after some digits.
pub data Mode : Type 0 where
  plain behind_backslash : Mode
  in_hex : (digits value : ℕ) → Mode

hex_value : ℕ → ℕ
hex_value c = if ltb c b'a' then c - b'0' else c - b'a' + 10

named : ℕ → ℕ
named c =
    if c == b'b'
    then 8
    else if c == b'f'
    then 12
    else if c == b'n'
    then 10
    else if c == b'r'
    then 13
    else if c == b't'
    then 9
    else c

cons : ℕ → Option (Text × Text) → Option (Text × Text)
cons c none = none
cons c (some (s, rest)) = some (c ∷ s, rest)

read : Mode → Text → Option (Text × Text)
unfolding hex_value named cons
read m [] = none
read plain (c ∷ s) =
    let escape_next = read behind_backslash s in
    let more = cons c (read plain s) in
    if c == b'"' then some ([], s) else if c == b'\\' then escape_next else more
read behind_backslash (c ∷ s) =
    let digits = read (in_hex 0 0) s in
    let more = cons (named c) (read plain s) in if c == b'u' then digits else more
read (in_hex k v) (c ∷ s) =
    let v' = v * 16 + hex_value c in
    let more = read (in_hex (suc k) v') s in
    let last = cons v' (read plain s) in if k == 3 then last else more

-- A string at the front of a text, and what is behind it.
unfoldable pub read_string : Text → Option (Text × Text)
unfolding read
read_string [] = none
read_string (c ∷ s) = if c == b'"' then read plain s else none

cons-some : (c : ℕ) (s rest : Text) → cons c (some (s, rest)) ≡ some (c ∷ s, rest)
unfolding cons
cons-some c s rest = refl

hex_value-hex_digit : (d : ℕ) → d < 16 → hex_value (hex_digit d) ≡ d
unfolding hex_value hex_digit
hex_value-hex_digit d h = ground arith

read-escape : (c : ℕ) (rest : Text) → read plain (escape c ++ rest) ≡ cons c (read plain rest)
read-escape c rest =
    unfold escape read in ground (arith, hex_value-hex_digit (c / 16), hex_value-hex_digit (c % 16))

read-escaped : (s rest : Text) → read plain (escaped s ++ b'"' ∷ rest) ≡ some (s, rest)
read-escaped [] rest = unfold read in refl
read-escaped (c ∷ s) rest =
    ap (read plain) (append_assoc (escape c) (escaped s) (b'"' ∷ rest))
    ∙ read-escape c (escaped s ++ b'"' ∷ rest)
    ∙ ap (cons c) (read-escaped s rest)
    ∙ cons-some c s rest

pub read_string-quote : (s rest : Text) → read_string (quote s ++ rest) ≡ some (s, rest)
unfolding read_string quote
read_string-quote s rest =
    ap (read plain) (append_assoc (escaped s) (b'"' ∷ []) rest) ∙ read-escaped s rest
