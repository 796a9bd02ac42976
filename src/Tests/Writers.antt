-- ===== src/Tests/Writers.antt =====
-- admin/JsonWriter.h on short strings.
use moq_testbed.Prelude.{ℕ, ◌≡◌, refl, some, List, [], ◌∷◌, ◌++◌, ◌+◌, true, false}
use moq_testbed.Json.{
  JsonWriter, escape_all, begin_array, end_array, begin_object, end_object, str_field, write_string,
  key, str_val,
}
use moq_testbed.Json.Escape.{plain, read, read-escape_all}
use moq_testbed.Json.Commas.{write_all, array_lem}

-- A quote, a tab, a byte below 32 and a letter.
abbrev text : List ℕ
text = 34 ∷ 9 ∷ 31 ∷ 97 ∷ []

escaped : escape_all text ≡ 92 ∷ 34 ∷ 92 ∷ 116 ∷ 92 ∷ 117 ∷ 48 ∷ 48 ∷ 49 ∷ 102 ∷ 97 ∷ []
unfolding escape_all
escaped = refl

read-escape_all_example : read plain (escape_all text ++ 34 ∷ 44 ∷ []) ≡ some (text, 44 ∷ [])
read-escape_all_example = read-escape_all text (44 ∷ [])

-- Numbers below ten.
abbrev digit : ℕ → List ℕ
digit n = (48 + n) ∷ []

abbrev writer : JsonWriter
writer = record { app = 58 ∷ []; needs_comma = false }

array_lem_example :
    (end_array (write_all digit (3 ∷ 5 ∷ []) (begin_array writer))).app
    ≡ 58 ∷ 91 ∷ 51 ∷ 44 ∷ 53 ∷ 93 ∷ []
array_lem_example = array_lem digit (3 ∷ 5 ∷ []) writer

-- An object with one field, and after it a comma is due.
object_of_one :
    end_object (str_field (107 ∷ []) (118 ∷ []) (begin_object writer))
    ≡ record { app = 58 ∷ 123 ∷ 34 ∷ 107 ∷ 34 ∷ 58 ∷ 34 ∷ 118 ∷ 34 ∷ 125 ∷ []; needs_comma = true }
unfolding end_object str_field key str_val begin_object write_string escape_all
object_of_one = refl
