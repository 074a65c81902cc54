-- ===== src/Base/Text.antt =====
-- Texts as lists of code points, and what the program takes of Python's `str`.
use Prim.Native.Char.{code}
use Prim.Native.Nat.{ℕ, zero, suc}
use Prim.Native.String.{String, [] as end, ◌∷◌ as char, ◌++◌ as text_append}
use Prim.Native.String.append
use mathlib.Core.Path.{◌≡◌, refl}
use mathlib.Core.Bool.{Bool, true, false, ◌&&◌, ◌||◌}
use mathlib.Core.List.{List, [], ◌∷◌}
use mathlib.Core.Option.{Option, none, some}
use native.Mathlib.Omega.{arith}
use papaia_manager.Base.Tests.{leb, nat_eq, if◌then◌else◌}
use papaia_manager.Base.Lists.{length, every}

abbrev pub codes : String → List ℕ
codes (char first rest) = code first ∷ codes rest
codes end = []

-- `len(s)`
abbrev pub size : String → ℕ
size s = length (codes s)

-- The methods of `str` that go by Unicode's tables: `strip()`, `" ".join(s.split())`, `lower()`,
-- `casefold()`, and `isspace()` of a character.
pub record TextOps : Type 0 where
  pub strip : String → String
  pub squeeze : String → String
  pub lower : String → String
  pub casefold : String → String
  pub is_space : ℕ → Bool

-- `[a-z0-9]`, and with capitals
abbrev pub is_low_or_digit : ℕ → Bool
is_low_or_digit c = (leb b'a' c && leb c b'z') || (leb b'0' c && leb c b'9')

abbrev pub is_alphanumeric : ℕ → Bool
is_alphanumeric c = is_low_or_digit c || (leb b'A' c && leb c b'Z')

-- So many characters of a class at most and then `$`, which also matches in front of a last line
-- feed.
abbrev pub up_to : (ℕ → Bool) → ℕ → List ℕ → Bool
up_to is_char left [] = true
up_to is_char zero (c ∷ cs) = nat_eq c 10 && every (λ _. false) cs
up_to is_char (suc left) (c ∷ cs) =
    let rest = up_to is_char left cs in
    (is_char c && rest) || (nat_eq c 10 && every (λ _. false) cs)

-- `s.startswith(prefix)`
abbrev pub begins : List ℕ → List ℕ → Bool
begins [] cs = true
begins (p ∷ ps) [] = false
begins (p ∷ ps) (c ∷ cs) = nat_eq p c && begins ps cs

-- `s[len(prefix):]` of a text that starts with the prefix
abbrev pub after_prefix : String → String → Option String
after_prefix end s = some s
after_prefix (char p ps) end = none
after_prefix (char p ps) (char c s) = if nat_eq (code p) (code c) then after_prefix ps s else none

-- `s.startswith(prefix)`
abbrev pub starts_with : String → String → Bool
starts_with prefix s = elim (after_prefix prefix s) [ none ↦ false | some _ ↦ true ]

pub after_prefix-append : (p s : String) → after_prefix p (text_append p s) ≡ some s
after_prefix-append end s = rw (append.nil s) refl
after_prefix-append (char c p) s = rw (append.cons c p s) (ground (arith, after_prefix-append p s))
