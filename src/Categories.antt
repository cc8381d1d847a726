-- ===== src/Categories.antt =====
-- app/domain/categories.py: titles and codes of categories. What rests on Unicode's tables and on
-- hashing (`slugify_code`, `str.casefold`, the emoji's grapheme cluster) is a parameter.
pub mod Codes
use remindo.Prelude.{
  ℕ, zero, suc, ◌+◌, ◌-◌, ◌/◌, ◌%◌, Bool, true, false, List, [], ◌∷◌, ◌++◌, Text, text_eq, ltb,
  ◌==◌, if◌then◌else◌, length, take, words, join_words,
}
use remindo.Contracts.{Result, ok, err, validation}
use remindo.Schedules.{within}

abbrev pub category_title_max_length : ℕ
category_title_max_length = 64

abbrev pub code_max_length : ℕ
code_max_length = 32

unfoldable pub normalize_category_title : (ℕ → Bool) → Text → Result Text
unfolding words join_words
normalize_category_title is_space raw =
    let title = join_words (words is_space raw) in
    if within 1 category_title_max_length (length title) then ok title else err validation

-- The digits of `str(n)`; the fuel is more than there are digits.
unfoldable pub decimal_of : ℕ → ℕ → Text
decimal_of zero n = []
decimal_of (suc fuel) n =
    let tens = decimal_of fuel (n / 10) in
    if ltb n 10 then (48 + n) ∷ [] else tens ++ (48 + n % 10) ∷ []

-- f"_{index}"
unfoldable pub suffix_of : ℕ → Text
unfolding decimal_of
suffix_of index = 95 ∷ decimal_of (index + 1) index

-- t.lstrip("_")
unfoldable pub lstrip : Text → Text
lstrip [] = []
lstrip (c ∷ t) = let rest = lstrip t in if c == 95 then rest else c ∷ t

abbrev pub put_unless_end : ℕ → Text → Text
put_unless_end c [] = if c == 95 then [] else c ∷ []
put_unless_end c (d ∷ t) = c ∷ d ∷ t

-- t.rstrip("_")
unfoldable pub rstrip : Text → Text
rstrip [] = []
rstrip (c ∷ t) = put_unless_end c (rstrip t)

unfoldable pub candidate : Text → ℕ → Text
unfolding suffix_of lstrip rstrip
candidate base index =
    let suffix = suffix_of index in
    rstrip (lstrip (take (code_max_length - length suffix) base)) ++ suffix

-- code in taken
unfoldable pub is_taken : Text → List Text → Bool
is_taken code [] = false
is_taken code (t ∷ taken) = let rest = is_taken code taken in if text_eq code t then true else rest

-- The loop over the indices.
unfoldable pub free_from : ℕ → ℕ → Text → List Text → Result Text
unfolding candidate is_taken
free_from zero index base taken = err validation
free_from (suc more) index base taken =
    let rest = free_from more (index + 1) base taken in
    if is_taken (candidate base index) taken then rest else ok (candidate base index)

unfoldable pub next_free_code : Text → List Text → Result Text
unfolding is_taken free_from
next_free_code base taken =
    if is_taken base taken then free_from (length taken + 1) 2 base taken else ok base
