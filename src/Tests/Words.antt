-- ===== src/Tests/Words.antt =====
-- Words and bodies at fixed inputs, and the theorems at them.
use wiremux.Prelude.{List, [], ◌∷◌, some, ◌≡◌, refl, ltb, if◌then◌else◌, length, arith}
use wiremux.Prelude.Results.{ok, err}
use wiremux.Prelude.Text.{str, Bytes}
use wiremux.Prelude.Utf8.{from_utf8_lossy}
use wiremux.Profile.Kebab.{
  edit_distance, fill, fill_row, count_up, last_cell, levenshtein, reverse_onto,
  edit_distance-eq-levenshtein,
}
use wiremux.CappedBody.{
  read_capped_text, arrived, concat, too_large, is_declared_over, read_capped_text-arrived,
}

distance_of_words : edit_distance (str "mesages") (str "messages") ≡ 1
unfolding edit_distance fill fill_row count_up last_cell
distance_of_words = refl

edit_distance-eq-levenshtein_example :
    edit_distance (str "gemni") (str "gemini")
    ≡ levenshtein (reverse_onto (str "gemni") []) (reverse_onto (str "gemini") [])
edit_distance-eq-levenshtein_example = edit_distance-eq-levenshtein (str "gemni") (str "gemini")

abbrev cut_body : List Bytes
cut_body = str "he" ∷ str "llo" ∷ []

read_capped_text-arrived_example : read_capped_text (some 5) (arrived cut_body) 8 ≡ (
    if ltb 8 (length (concat cut_body))
    then err (too_large 8)
    else ok (from_utf8_lossy (concat cut_body)))
unfolding is_declared_over
read_capped_text-arrived_example = read_capped_text-arrived (some 5) cut_body 8 (omega arith) refl
