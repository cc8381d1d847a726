-- ===== src/Prelude/Texts.antt =====
-- Python's `str`: a text is the list of its code points. What counts as white space (`str.isspace`) is
-- Unicode's and a parameter.
use Prim.Native.Nat.{ℕ}
use mathlib.Core.Path.{◌≡◌, refl}
use mathlib.Core.Bool.{Bool, true, false, not, ◌&&◌}
use mathlib.Core.Logic.{inl, inr}
use mathlib.Core.List.{List, [], ◌∷◌, ◌++◌}
use native.Mathlib.Omega.{arith}
use remindo.Prelude.Tests.{◌==◌, if◌then◌else◌, Bool-cases}
use remindo.Prelude.Lists.{all_of}

abbrev pub Text : Type 0
Text = List ℕ

abbrev pub text_eq : Text → Text → Bool
text_eq [] [] = true
text_eq (c ∷ s) (d ∷ t) = (c == d) && text_eq s t
text_eq [] (d ∷ t) = false
text_eq (c ∷ s) [] = false

-- Whether a word goes on with the next character.
abbrev pub goes_on : (ℕ → Bool) → Text → Bool
goes_on is_space [] = false
goes_on is_space (c ∷ t) = not (is_space c)

abbrev pub put_first : ℕ → Bool → List Text → List Text
put_first c true (w ∷ ws) = (c ∷ w) ∷ ws
put_first c true [] = (c ∷ []) ∷ []
put_first c false ws = (c ∷ []) ∷ ws

-- t.split()
unfoldable pub words : (ℕ → Bool) → Text → List Text
words is_space [] = []
words is_space (c ∷ t) =
    let rest = words is_space t in
    if is_space c then rest else put_first c (goes_on is_space t) rest

-- " ".join(ws)
unfoldable pub join_words : List Text → Text
join_words [] = []
join_words (w ∷ []) = w
join_words (w ∷ v ∷ ws) = w ++ (32 ∷ join_words (v ∷ ws))

abbrev is_word : (ℕ → Bool) → Text → Bool
is_word is_space [] = false
is_word is_space (c ∷ t) = not (is_space c) && all_of (λ d. not (is_space d)) t

module _ (is_space : ℕ → Bool) where
  words-are : (t : Text) → all_of (is_word is_space) (words is_space t) ≡ true
  unfolding words
  words-are [] = refl
  words-are (c ∷ t) = elim (Bool-cases (is_space c)) [
    | inl e ↦ rw e (words-are t)
    | inr e ↦ rw e (first (goes_on is_space t) (words is_space t) e (words-are t))
  ]
    where
      first :
          (b : Bool) (ws : List Text)
          → is_space c ≡ false
          → all_of (is_word is_space) ws ≡ true
          → all_of (is_word is_space) (put_first c b ws) ≡ true
      first true [] e h = ground arith
      first true ([] ∷ ws) e h = ground arith
      first true ((d ∷ w) ∷ ws) e h = ground arith
      first false ws e h = ground arith

  -- A word in front of a space, and a word at the end.
  words-word :
      (c : ℕ) (w rest : Text)
      → is_space 32 ≡ true
      → is_word is_space (c ∷ w) ≡ true
      → words is_space ((c ∷ w) ++ (32 ∷ rest)) ≡ (c ∷ w) ∷ words is_space rest
  unfolding words
  words-word c [] rest sp h = ground arith
  words-word c (d ∷ w) rest sp h =
      let own : is_space c ≡ false = ground arith in
      let next : is_space d ≡ false = ground arith in
      rw (own, words-word d w rest sp (ground arith), next) refl

  words-last :
      (c : ℕ) (w : Text) → is_word is_space (c ∷ w) ≡ true → words is_space (c ∷ w) ≡ (c ∷ w) ∷ []
  unfolding words
  words-last c [] h = ground arith
  words-last c (d ∷ w) h =
      let own : is_space c ≡ false = ground arith in
      let next : is_space d ≡ false = ground arith in
      rw (own, words-last d w (ground arith), next) refl

  join_back :
      (ws : List Text)
      → is_space 32 ≡ true
      → all_of (is_word is_space) ws ≡ true
      → words is_space (join_words ws) ≡ ws
  unfolding join_words words
  join_back [] sp h = refl
  join_back ([] ∷ ws) sp h = ground arith
  join_back ((c ∷ w) ∷ []) sp h = words-last c w (ground arith)
  join_back ((c ∷ w) ∷ v ∷ ws) sp h =
      rw
        (
          words-word c w (join_words (v ∷ ws)) sp (ground arith),
          join_back (v ∷ ws) sp (ground arith),
        )
        refl

  -- What is joined from the words of a text has the same words.
  pub words-join :
      (t : Text)
      → is_space 32 ≡ true
      → words is_space (join_words (words is_space t)) ≡ words is_space t
  words-join t sp = join_back (words is_space t) sp (words-are t)
