-- ===== src/Tiles/Resolve.antt =====
-- src/app/core/tiles.py: placeholders `{{KEY}}` in a link, and what a link must be.
use papaia_manager.Base.{
  ℕ, zero, suc, ◌-◌, String, Bool, true, false, ◌&&◌, ◌||◌, Option, none, some, if◌then◌else◌,
  nat_eq, leb,
}
use Prim.Native.String.{[] as end, ◌∷◌ as char, ◌++◌ as text_append}
use Prim.Native.Char.{code}
use papaia_manager.Base.Dict
use papaia_manager.Base.Dict.{Dict}
use papaia_manager.Base.Text.{TextOps, size, after_prefix, starts_with, is_alphanumeric}

-- `[A-Za-z0-9_]`
abbrev is_key_char : ℕ → Bool
is_key_char c = is_alphanumeric c || nat_eq c b'_'

abbrev is_digit : ℕ → Bool
is_digit c = leb b'0' c && leb c b'9'

-- The longest prefix of characters of a class, and what follows it.
abbrev span : (ℕ → Bool) → String → String × String
span is_char end = (end, end)
span is_char (char c s) =
    let (taken, rest) = span is_char s in
    if is_char (code c) then (char c taken, rest) else (end, char c s)

-- The key of a placeholder starts with a letter or `_`.
abbrev is_key : String → Bool
is_key end = false
is_key (char c s) = if is_digit (code c) then false else true

-- A match that starts here: its key, and what follows it.
pub record Match : Type 0 where
  pub key : String
  pub rest : String

-- What happens to the characters of a match that is already dealt with: an unknown key's are kept.
pub data Rest : Type 0 where
  dropped copied : ℕ → Rest

-- Why a link would be dropped.
pub data LinkProblem : Type 0 where
  no_value not_safe : LinkProblem

-- `_SAFE_HREF_RE.match`
unfoldable pub is_safe : String → Bool
is_safe s = starts_with "http://" s || starts_with "https://" s || starts_with "/" s

module _ (t : TextOps) where
  abbrev after_key : String × String → Option Match
  after_key (key, rest) = elim (after_prefix "}}" (span t.is_space rest).1) [
    | none ↦ none
    | some rest ↦ if is_key key then some (record { key = key; rest = rest }) else none
  ]

  -- `_PLACEHOLDER_RE` at the start of a text
  unfoldable pub match_at : String → Option Match
  match_at s = elim (after_prefix "{{" s) [
    | none ↦ none
    | some inner ↦ after_key (span is_key_char (span t.is_space inner).1)
  ]

  -- `_PLACEHOLDER_RE.search(s) is not None`
  unfoldable pub has_placeholder : String → Bool
  has_placeholder end = false
  has_placeholder (char c s) =
      let later = has_placeholder s in
      elim (match_at (char c s)) [ none ↦ later | some found ↦ true ]

  module _ (env : Dict String) where
    -- `_PLACEHOLDER_RE.sub(_replace, value)`
    unfoldable pub substitute : Rest → String → String
    substitute mode end = end
    substitute (dropped (suc n)) (char c s) = substitute (dropped n) s
    substitute (copied (suc n)) (char c s) = char c (substitute (copied n) s)
    substitute mode (char c s) = elim (match_at (char c s)) [
      | none ↦ char c (substitute (dropped zero) s)
      | some found ↦ elim (Dict.get found.key env) [
        | none ↦ char c (substitute (copied (size s - size found.rest)) s)
        | some value ↦ text_append value (substitute (dropped (size s - size found.rest)) s)
      ]
    ]

    unfoldable pub resolve_placeholders : String → String
    resolve_placeholders value = substitute (dropped zero) value

    -- The link as it resolves, and why it would be dropped, if it would be.
    unfoldable pub check_value : String → String × Option LinkProblem
    check_value value =
        let resolved = resolve_placeholders value in
        (
          resolved,
          (if has_placeholder resolved
              then some no_value
              else if is_safe resolved
              then none
              else some not_safe),
        )
