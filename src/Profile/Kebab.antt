-- ===== src/Profile/Kebab.antt =====
-- crates/wiremux-auth/src/profile/types.rs: the edit distance of a spelling to the legal ones.
use wiremux.Prelude.{
  ℕ, suc, List, [], ◌∷◌, if◌then◌else◌, ◌==◌, length, min, ◌+◌, ◌≡◌, refl, ap, ◌∙◌, arith,
}

-- One row of the table from the one above it: `left` is the cell that was written last.
unfoldable pub fill_row : ℕ → List ℕ → List ℕ → ℕ → List ℕ
fill_row ca (cb ∷ b) (p ∷ q ∷ prev) left =
    left ∷ fill_row ca b (q ∷ prev) (min (min (q + 1) (left + 1)) (p + (if ca == cb then 0 else 1)))
fill_row ca b prev left = left ∷ []

-- The loop over the first word, row `i` above.
unfoldable pub fill : List ℕ → List ℕ → ℕ → List ℕ → List ℕ
fill [] b i prev = prev
fill (ca ∷ a) b i prev = fill a b (i + 1) (fill_row ca b prev (i + 1))

-- `(n..=n + b.len()).collect()`.
unfoldable pub count_up : ℕ → List ℕ → List ℕ
count_up n [] = n ∷ []
count_up n (c ∷ b) = n ∷ count_up (n + 1) b

unfoldable pub last_cell : List ℕ → ℕ
last_cell [] = 0
last_cell (x ∷ []) = x
last_cell (x ∷ y ∷ xs) = last_cell (y ∷ xs)

-- The words are lists of characters by their code points.
unfoldable pub edit_distance : List ℕ → List ℕ → ℕ
edit_distance a b = last_cell (fill a b 0 (count_up 0 b))

-- Levenshtein's distance, by its recursion on the first characters.
unfoldable pub levenshtein : List ℕ → List ℕ → ℕ
levenshtein [] b = length b
levenshtein (x ∷ a) [] = suc (length a)
levenshtein (x ∷ a) (y ∷ b) =
    min (min (levenshtein a (y ∷ b) + 1) (levenshtein (x ∷ a) b + 1))
      (levenshtein a b + (if x == y then 0 else 1))

unfoldable pub reverse_onto : List ℕ → List ℕ → List ℕ
reverse_onto [] acc = acc
reverse_onto (x ∷ xs) acc = reverse_onto xs (x ∷ acc)

-- The row of a word behind the words that the other one's prefixes make.
row : List ℕ → List ℕ → List ℕ → List ℕ
row a b [] = levenshtein a b ∷ []
row a b (c ∷ cs) = levenshtein a b ∷ row a (c ∷ b) cs

fill_row-row :
    (x : ℕ) (a b cs : List ℕ)
    → fill_row x cs (row a b cs) (levenshtein (x ∷ a) b) ≡ row (x ∷ a) b cs
unfolding fill_row row levenshtein
fill_row-row x a b [] = refl
fill_row-row x a b (c ∷ []) = refl
fill_row-row x a b (c ∷ d ∷ cs) =
    ap (λ r. levenshtein (x ∷ a) b ∷ r) (fill_row-row x a (c ∷ b) (d ∷ cs))

row-count_up : (b cs : List ℕ) → count_up (length b) cs ≡ row [] b cs
unfolding count_up row levenshtein
row-count_up b [] = refl
row-count_up b (c ∷ cs) =
    let one_more : length b + 1 ≡ length (c ∷ b) = omega arith in
    ap (λ r. length b ∷ r) (ap (λ n. count_up n cs) one_more ∙ row-count_up (c ∷ b) cs)

fill-row : (a b acc : List ℕ) → fill a b (length acc) (row acc [] b) ≡ row (reverse_onto a acc) [] b
unfolding fill reverse_onto levenshtein
fill-row [] b acc = refl
fill-row (x ∷ a) b acc =
    let one_more : length acc + 1 ≡ length (x ∷ acc) = omega arith in
    ap (λ n. fill a b n (fill_row x b (row acc [] b) n)) one_more
    ∙ ap (λ r. fill a b (length (x ∷ acc)) r) (fill_row-row x acc [] b)
    ∙ fill-row a b (x ∷ acc)

last_cell-row : (a b cs : List ℕ) → last_cell (row a b cs) ≡ levenshtein a (reverse_onto cs b)
unfolding last_cell row reverse_onto
last_cell-row a b [] = refl
last_cell-row a b (c ∷ []) = refl
last_cell-row a b (c ∷ d ∷ cs) = last_cell-row a (c ∷ b) (d ∷ cs)

-- The two rows of the loop compute Levenshtein's distance of the words, read from their ends.
pub edit_distance-eq-levenshtein :
    (a b : List ℕ) → edit_distance a b ≡ levenshtein (reverse_onto a []) (reverse_onto b [])
unfolding edit_distance
edit_distance-eq-levenshtein a b =
    ap (λ r. last_cell (fill a b 0 r)) (row-count_up [] b)
    ∙ ap last_cell (fill-row a b [])
    ∙ last_cell-row (reverse_onto a []) [] b
