-- ===== src/Sharing.antt =====
-- app/domain/sharing.py: invitation tokens and deep links, and who may join.
pub mod Links
use remindo.Prelude.{
  Text, text_eq, ℕ, zero, suc, ◌+◌, ◌*◌, ◌/◌, ◌%◌, ◌-◌, Bool, true, false, ◌&&◌, ◌||◌, Option, none,
  some, List, [], ◌∷◌, ◌++◌, ltb, leb, ◌==◌, if◌then◌else◌, length,
}
use remindo.Time.{Moment}
use remindo.Contracts.{
  RecipientRole, owner, watcher, Result, ok, err, validation, permission_denied, recipient_limit,
  invite_token_length, deep_link_max_length,
}

-- "inv_"
abbrev pub invite_deep_link_prefix : Text
invite_deep_link_prefix = 105 ∷ 110 ∷ 118 ∷ 95 ∷ []

-- [A-Za-z0-9_-]
unfoldable pub is_letter : ℕ → Bool
is_letter c =
    (leb 65 c && leb c 90)
    || ((leb 97 c && leb c 122) || ((leb 48 c && leb c 57) || ((c == 95) || (c == 45))))

-- The pattern: so many letters, then `$`, which also matches before a newline at the end.
unfoldable pub matches : ℕ → Text → Bool
matches zero [] = true
matches zero (c ∷ []) = c == 10
matches zero (c ∷ d ∷ t) = false
matches (suc n) [] = false
matches (suc n) (c ∷ t) = is_letter c && matches n t

-- The URL-safe alphabet of base64.
unfoldable pub digit : ℕ → ℕ
digit n =
    if ltb n 26
    then n + 65
    else if ltb n 52
    then n + 71
    else if ltb n 62
    then n - 4
    else if n == 62
    then 45
    else 95

-- `base64.urlsafe_b64encode`
unfoldable pub b64encode : List ℕ → Text
b64encode [] = []
b64encode (a ∷ []) = digit (a / 4) ∷ digit ((a % 4) * 16) ∷ 61 ∷ 61 ∷ []
b64encode (a ∷ b ∷ []) =
    digit (a / 4) ∷ digit ((a % 4) * 16 + b / 16) ∷ digit ((b % 16) * 4) ∷ 61 ∷ []
b64encode (a ∷ b ∷ c ∷ bytes) =
    digit (a / 4)
    ∷ digit ((a % 4) * 16 + b / 16)
    ∷ digit ((b % 16) * 4 + c / 64)
    ∷ digit (c % 64)
    ∷ b64encode bytes

-- `s.rstrip("=")`
abbrev pub keep_char : ℕ → Text → Text
keep_char c (d ∷ t) = c ∷ d ∷ t
keep_char c [] = if c == 61 then [] else c ∷ []

unfoldable pub rstrip : Text → Text
rstrip [] = []
rstrip (c ∷ t) = keep_char c (rstrip t)

unfoldable pub new_invite_token : List ℕ → Result Text
new_invite_token entropy =
    let token = rstrip (b64encode entropy) in
    if matches invite_token_length token then ok token else err validation

unfoldable pub build_invite_payload : Text → Result Text
build_invite_payload token =
    let payload = invite_deep_link_prefix ++ token in
    if ltb deep_link_max_length (length payload) then err validation else ok payload

-- What follows the prefix, if the text starts with it.
unfoldable pub after_prefix : Text → Text → Option Text
after_prefix [] t = some t
after_prefix (c ∷ s) [] = none
after_prefix (c ∷ s) (d ∷ t) = let rest = after_prefix s t in if c == d then rest else none

unfoldable pub checked_token : Option Text → Result Text
checked_token none = err validation
checked_token (some token) = if matches invite_token_length token then ok token else err validation

unfoldable pub parse_invite_payload : Text → Result Text
parse_invite_payload raw = checked_token (after_prefix invite_deep_link_prefix raw)

pub data InviteState : Type 0 where
  live expired revoked : InviteState

unfoldable pub invite_state : Moment → Option Moment → Moment → InviteState
invite_state expires_at (some m) now = revoked
invite_state expires_at none now = if leb expires_at now then expired else live

unfoldable pub check_join : Option RecipientRole → ℕ → ℕ → Result (Unit {0})
check_join (some owner) watchers limit = err permission_denied
check_join (some watcher) watchers limit = ok tt
check_join none watchers limit = if leb limit watchers then err recipient_limit else ok tt
