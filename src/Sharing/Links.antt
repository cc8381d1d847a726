-- ===== src/Sharing/Links.antt =====
-- Tokens, payloads and what a payload is read as.
use remindo.Prelude.{
  Text, ℕ, zero, suc, ◌+◌, ◌*◌, ◌/◌, ◌%◌, ◌<◌, ◌≤◌, ◌≡◌, ◌↔◌, refl, Bool, true, false, Option, none,
  some, List, [], ◌∷◌, ◌++◌, ltb, ◌==◌, arith, all_of, ap, length, Bool-cases, inl, inr, ==_iff,
}
use remindo.Contracts.{ok, ok-injective, invite_token_length}
use remindo.Sharing.{
  is_letter, matches, digit, b64encode, keep_char, rstrip, new_invite_token, build_invite_payload,
  after_prefix, checked_token, parse_invite_payload, invite_deep_link_prefix,
}

digit-letter : (n : ℕ) → n < 64 → (is_letter (digit n) ≡ true) × ((digit n == 61) ≡ false)
unfolding digit is_letter
digit-letter n h = ground arith

-- A letter is no padding, so it stays.
keep-matches :
    (c n : ℕ) (t : Text)
    → is_letter c ≡ true
    → (c == 61) ≡ false
    → matches n t ≡ true
    → matches (suc n) (keep_char c t) ≡ true
unfolding matches
keep-matches c n [] l p h = rw p (ground arith)
keep-matches c n (d ∷ t) l p h = ground arith

abbrev pub are_bytes : List ℕ → Bool
are_bytes t = all_of (λ b. ltb b 256) t

last_group : (a : ℕ) → a < 256 → matches 2 (rstrip (b64encode (a ∷ []))) ≡ true
unfolding b64encode rstrip matches
last_group a h =
    let (l, p) = digit-letter (a / 4) (omega arith) in
    let (m, q) = digit-letter ((a % 4) * 16) (omega arith) in
    keep-matches _ 1 _ l p (keep-matches _ 0 [] m q refl)

group :
    (a b c n : ℕ) (t : Text)
    → a < 256
    → b < 256
    → c < 256
    → matches n (rstrip t) ≡ true
    → matches (suc (suc (suc (suc n)))) (
        rstrip (
          digit (a / 4)
          ∷ digit ((a % 4) * 16 + b / 16)
          ∷ digit ((b % 16) * 4 + c / 64)
          ∷ digit (c % 64)
          ∷ t))
      ≡ true
unfolding rstrip
group a b c n t ha hb hc h =
    let (l, l') = digit-letter (a / 4) (omega arith) in
    let (m, m') = digit-letter ((a % 4) * 16 + b / 16) (omega arith) in
    let (o, o') = digit-letter ((b % 16) * 4 + c / 64) (omega arith) in
    let (q, q') = digit-letter (c % 64) (omega arith) in
    keep-matches _ (suc (suc (suc n))) _ l l' (
      keep-matches _ (suc (suc n)) _ m m'
        (keep-matches _ (suc n) _ o o' (keep-matches _ n (rstrip t) q q' h)))

abbrev letters : ℕ → ℕ
letters zero = 2
letters (suc k) = suc (suc (suc (suc (letters k))))

-- Groups of three bytes and one byte more give groups of four letters and two letters more.
groups :
    (k : ℕ) (bytes : List ℕ)
    → length bytes ≡ 1 + k * 3
    → are_bytes bytes ≡ true
    → matches (letters k) (rstrip (b64encode bytes)) ≡ true
unfolding b64encode
groups k [] e h = ground arith
groups zero (a ∷ b ∷ bytes) e h = ground arith
groups (suc k) (a ∷ []) e h = ground arith
groups (suc k) (a ∷ b ∷ []) e h = ground arith
groups zero (a ∷ []) e h = last_group a (ground arith)
groups (suc k) (a ∷ b ∷ c ∷ bytes) e h =
    group a b c (letters k) (b64encode bytes) (ground arith) (ground arith) (ground arith)
      (groups k bytes (ground arith) (ground arith))

-- Sixteen bytes of entropy are always a token, of twenty-two letters.
pub new_invite_token_total :
    (entropy : List ℕ)
    → length entropy ≡ 16
    → are_bytes entropy ≡ true
    → new_invite_token entropy ≡ ok (rstrip (b64encode entropy))
unfolding new_invite_token
new_invite_token_total entropy n h =
    let fits : matches 22 (rstrip (b64encode entropy)) ≡ true = groups 5 entropy n h in rw fits refl

after_prefix_append : (p t : Text) → after_prefix p (p ++ t) ≡ some t
unfolding after_prefix
after_prefix_append [] t = refl
after_prefix_append (c ∷ p) t = ground (arith, after_prefix_append p t)

after_prefix-some : (p raw : Text) {t : Text} → after_prefix p raw ≡ some t → raw ≡ p ++ t
unfolding after_prefix
after_prefix-some [] raw h = ground arith
after_prefix-some (c ∷ p) [] h = ground arith
after_prefix-some (c ∷ p) (d ∷ raw) {t} h = elim (Bool-cases (c == d)) [
  | inl e ↦ let same : c ≡ d = (==_iff c d).0 e in ground (arith, after_prefix-some p raw {t = t})
  | inr e ↦ ground arith
]

matches-length : (n : ℕ) (t : Text) → matches n t ≡ true → length t ≤ n + 1
unfolding matches
matches-length zero [] h = ground arith
matches-length zero (c ∷ []) h = ground arith
matches-length zero (c ∷ d ∷ t) h = ground arith
matches-length (suc n) [] h = ground arith
matches-length (suc n) (c ∷ t) h = ground (arith, matches-length n t)

-- Every token fits a payload, and the payload is read back as that token.
pub parse-build :
    (token : Text)
    → matches invite_token_length token ≡ true
    → (payload : Text) × (build_invite_payload token ≡ ok payload)
      × (parse_invite_payload payload ≡ ok token)
unfolding build_invite_payload parse_invite_payload checked_token
parse-build token h =
    let short : length token ≤ 23 = matches-length 22 token h in
    (
      invite_deep_link_prefix ++ token,
      ground arith,
      rw (after_prefix_append invite_deep_link_prefix token, h) refl,
    )

checked :
    (token : Text) (o : Option Text)
    → checked_token o ≡ ok token
    → (o ≡ some token) × (matches invite_token_length token ≡ true)
unfolding checked_token
checked token none h = ground arith
checked token (some t) h = elim (Bool-cases (matches invite_token_length t)) [
  | inl e ↦ let same : t ≡ token = ok-injective (ground arith) in (ap some same, rw⁻¹ same e)
  | inr e ↦ ground arith
]

-- A payload is read as a token exactly when it is the prefix followed by that token, and the pattern
-- accepts the token.
parse_invite_payload-ok :
    (raw token : Text)
    → (parse_invite_payload raw ≡ ok token)
      ↔ ((raw ≡ invite_deep_link_prefix ++ token) × (matches invite_token_length token ≡ true))
unfolding parse_invite_payload checked_token
parse_invite_payload-ok raw token = (
  λ h.
      let (e, m) = checked token (after_prefix invite_deep_link_prefix raw) h in
      (after_prefix-some invite_deep_link_prefix raw e, m),
  λ (e, m). rw e (rw (after_prefix_append invite_deep_link_prefix token) (rw m refl)),
)
