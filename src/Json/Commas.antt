-- ===== src/Json/Commas.antt =====
-- JsonWriter: the commas of an array.
use moq_testbed.Prelude.{ℕ, ◌≡◌, sym, ap, ◌∙◌, true, false, List, [], ◌∷◌, ◌++◌}
use mathlib.Core.List.{append_assoc, append-nil}
use moq_testbed.Json.{JsonWriter, maybe_comma, uint_val, begin_array, end_array}

module _ (to_string : ℕ → List ℕ) where
  -- The numbers written one after the other.
  unfoldable pub write_all : List ℕ → JsonWriter → JsonWriter
  unfolding uint_val
  write_all [] w = w
  write_all (v ∷ vs) w = write_all vs (uint_val to_string v w)

  -- Each number after a comma.
  abbrev pub commas : List ℕ → List ℕ
  commas [] = []
  commas (v ∷ vs) = 44 ∷ to_string v ++ commas vs

  abbrev pub separated : List ℕ → List ℕ
  separated [] = []
  separated (v ∷ vs) = to_string v ++ commas vs

  write_all-commas :
      (vs : List ℕ) (out : List ℕ)
      → (write_all vs (record { app = out; needs_comma = true })).app ≡ out ++ commas vs
  unfolding write_all uint_val
  write_all-commas [] out = sym (append-nil out)
  write_all-commas (v ∷ vs) out =
      write_all-commas vs ((out ++ 44 ∷ []) ++ to_string v)
      ∙ append_assoc (out ++ 44 ∷ []) (to_string v) (commas vs)
      ∙ append_assoc out (44 ∷ []) (to_string v ++ commas vs)

  write_all-separated :
      (vs : List ℕ) (out : List ℕ)
      → (write_all vs (record { app = out; needs_comma = false })).app ≡ out ++ separated vs
  unfolding write_all uint_val
  write_all-separated [] out = sym (append-nil out)
  write_all-separated (v ∷ vs) out =
      write_all-commas vs (out ++ to_string v) ∙ append_assoc out (to_string v) (commas vs)

  -- An array of numbers is written as the numbers between brackets with a comma between each two, after
  -- a comma of its own if the writer was to write one.
  pub array_lem :
      (vs : List ℕ) (w : JsonWriter)
      → (end_array (write_all vs (begin_array w))).app
        ≡ (maybe_comma w).app ++ 91 ∷ separated vs ++ 93 ∷ []
  unfolding begin_array end_array
  array_lem vs w =
      let out = (maybe_comma w).app in
      ap (λ x. x ++ 93 ∷ []) (write_all-separated vs (out ++ 91 ∷ []))
      ∙ ap (λ x. x ++ 93 ∷ []) (append_assoc out (91 ∷ []) (separated vs))
