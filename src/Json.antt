-- ===== src/Json.antt =====
-- admin/JsonWriter.h: the streaming emitter. The appender is the list of the bytes written so far, a
-- string the list of its bytes, and `to_string` of a number, of the standard library, an argument.
pub mod Escape
pub mod Commas
use moq_testbed.Prelude.{
  ℕ, ◌+◌, ◌/◌, ◌%◌, Bool, true, false, List, [], ◌∷◌, ◌++◌, ltb, ◌==◌, if◌then◌else◌,
}

pub record JsonWriter : Type 0 where
  pub app : List ℕ
  pub needs_comma : Bool

abbrev pub append : List ℕ → JsonWriter → JsonWriter
append s w = record w { app = w.app ++ s }

abbrev pub maybe_comma : JsonWriter → JsonWriter
maybe_comma w = if w.needs_comma then append (44 ∷ []) w else w

abbrev pub needs : Bool → JsonWriter → JsonWriter
needs comma w = record w { needs_comma = comma }

-- A digit of `%04x`.
abbrev pub hex_digit : ℕ → ℕ
hex_digit d = if ltb d 10 then 48 + d else 87 + d

-- One character of `writeString`; a byte below 32 takes two hexadecimal digits after "\u00".
abbrev pub escape : ℕ → List ℕ
escape c =
    if c == 34
    then 92 ∷ 34 ∷ []
    else if c == 92
    then 92 ∷ 92 ∷ []
    else if c == 10
    then 92 ∷ 110 ∷ []
    else if c == 13
    then 92 ∷ 114 ∷ []
    else if c == 9
    then 92 ∷ 116 ∷ []
    else if ltb c 32
    then 92 ∷ 117 ∷ 48 ∷ 48 ∷ hex_digit (c / 16) ∷ hex_digit (c % 16) ∷ []
    else c ∷ []

unfoldable pub escape_all : List ℕ → List ℕ
escape_all [] = []
escape_all (c ∷ s) = escape c ++ escape_all s

unfoldable pub write_string : List ℕ → JsonWriter → JsonWriter
unfolding escape_all
write_string s w = append (34 ∷ escape_all s ++ 34 ∷ []) w

-- A value that is written as it stands.
abbrev pub value : List ℕ → JsonWriter → JsonWriter
value s w = needs true (append s (maybe_comma w))

unfoldable pub begin_object : JsonWriter → JsonWriter
begin_object w = needs false (append (123 ∷ []) (maybe_comma w))

unfoldable pub end_object : JsonWriter → JsonWriter
end_object w = needs true (append (125 ∷ []) w)

unfoldable pub begin_array : JsonWriter → JsonWriter
begin_array w = needs false (append (91 ∷ []) (maybe_comma w))

unfoldable pub end_array : JsonWriter → JsonWriter
end_array w = needs true (append (93 ∷ []) w)

unfoldable pub key : List ℕ → JsonWriter → JsonWriter
unfolding write_string
key k w = needs false (append (58 ∷ []) (write_string k (maybe_comma w)))

unfoldable pub str_val : List ℕ → JsonWriter → JsonWriter
unfolding write_string
str_val v w = needs true (write_string v (maybe_comma w))

unfoldable pub bool_val : Bool → JsonWriter → JsonWriter
bool_val v w = value (if v then 116 ∷ 114 ∷ 117 ∷ 101 ∷ [] else 102 ∷ 97 ∷ 108 ∷ 115 ∷ 101 ∷ []) w

unfoldable pub uint_val : (ℕ → List ℕ) → ℕ → JsonWriter → JsonWriter
uint_val to_string v w = value (to_string v) w

unfoldable pub null_val : JsonWriter → JsonWriter
null_val w = value (110 ∷ 117 ∷ 108 ∷ 108 ∷ []) w

-- `field` for a string, a Boolean and a number.
unfoldable pub str_field : List ℕ → List ℕ → JsonWriter → JsonWriter
unfolding key str_val
str_field k v w = str_val v (key k w)

unfoldable pub bool_field : List ℕ → Bool → JsonWriter → JsonWriter
unfolding key bool_val
bool_field k v w = bool_val v (key k w)

unfoldable pub uint_field : (ℕ → List ℕ) → List ℕ → ℕ → JsonWriter → JsonWriter
unfolding key uint_val
uint_field to_string k v w = uint_val to_string v (key k w)
