-- ===== src/Json/Escape.antt =====
-- JsonWriter::writeString and a reader of JSON strings, by RFC 8259.
use moq_testbed.Prelude.{
  ℕ, zero, suc, ◌+◌, ◌-◌, ◌*◌, ◌/◌, ◌%◌, ◌<◌, ◌≡◌, refl, ap, ◌∙◌, Option, none, some, List, [], ◌∷◌,
  ◌++◌, ltb, ◌==◌, if◌then◌else◌, arith,
}
use mathlib.Core.List.{append_assoc}
use moq_testbed.Json.{hex_digit, escape, escape_all}

-- Within a string, after a backslash, and with so many hexadecimal digits left after one.
pub data Mode : Type 0 where
  plain backslash : Mode
  digits : ℕ → ℕ → Mode

abbrev hex_value : ℕ → ℕ
hex_value c = if ltb c 58 then c - 48 else c - 87

abbrev with : ℕ → Option (List ℕ × List ℕ) → Option (List ℕ × List ℕ)
with c none = none
with c (some (s, rest)) = some (c ∷ s, rest)

-- The string up to its closing quote, and what follows it.
unfoldable pub read : Mode → List ℕ → Option (List ℕ × List ℕ)
read mode [] = none
read plain (c ∷ cs) =
    let more = read plain cs in
    let escaped = read backslash cs in
    if c == 34
    then some ([], cs)
    else if c == 92
    then escaped
    else if ltb c 32
    then none
    else with c more
read backslash (c ∷ cs) =
    let more = read plain cs in
    let hex = read (digits 3 0) cs in
    if c == 34
    then with 34 more
    else if c == 92
    then with 92 more
    else if c == 110
    then with 10 more
    else if c == 114
    then with 13 more
    else if c == 116
    then with 9 more
    else if c == 117
    then hex
    else none
read (digits zero acc) (c ∷ cs) = with (16 * acc + hex_value c) (read plain cs)
read (digits (suc n) acc) (c ∷ cs) = read (digits n (16 * acc + hex_value c)) cs

hex_value-hex_digit : (d : ℕ) → d < 16 → hex_value (hex_digit d) ≡ d
hex_value-hex_digit d h = ground arith

read-hex :
    (c : ℕ) (rest : List ℕ)
    → c < 32
    → read plain (92 ∷ 117 ∷ 48 ∷ 48 ∷ hex_digit (c / 16) ∷ hex_digit (c % 16) ∷ rest)
      ≡ with c (read plain rest)
unfolding read
read-hex c rest h =
    let high = hex_value-hex_digit (c / 16) (omega (arith, h)) in
    let low = hex_value-hex_digit (c % 16) (omega arith) in
    ap (λ x. with x (read plain rest)) (rw (high, low) (omega arith))

read-escape : (c : ℕ) (rest : List ℕ) → read plain (escape c ++ rest) ≡ with c (read plain rest)
unfolding read
read-escape c rest = ground (arith, read-hex c rest)

-- What `writeString` puts between the quotes reads back as the string, with what follows left.
pub read-escape_all : (s rest : List ℕ) → read plain (escape_all s ++ 34 ∷ rest) ≡ some (s, rest)
unfolding escape_all read
read-escape_all [] rest = refl
read-escape_all (c ∷ s) rest =
    ap (read plain) (append_assoc (escape c) (escape_all s) (34 ∷ rest))
    ∙ read-escape c (escape_all s ++ 34 ∷ rest)
    ∙ ap (with c) (read-escape_all s rest)
