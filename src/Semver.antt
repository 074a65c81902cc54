-- ===== src/Semver.antt =====
-- src/app/core/semver.py: the precedence of add-on versions.
-- A text is the list of its code points. What Python's Unicode tables say is a parameter: the
-- characters that `strip` takes off, and the value of a character that `\d` matches and `int`
-- reads; no character of the grammar (`.`, `-`, `+`) is one of either.
pub mod Order
mod Tests
use Prim.Native.Char.{code}
use Prim.Native.Nat.{compare as compare_numbers, Ordering}
use Prim.Native.String.{[] as end, ◌∷◌ as char}
use papaia_manager.Base.{
  ℕ, ◌+◌, ◌-◌, ◌*◌, String, Bool, true, false, ◌&&◌, ◌||◌, not, Option, none, some, List, [], ◌∷◌,
  ◌++◌, if◌then◌else◌, leb, nat_eq,
}
use papaia_manager.Base.Compare.{then_by, compare_list}

abbrev pub codes : String → List ℕ
codes end = []
codes (char c s) = code c ∷ codes s

-- `[0-9A-Za-z-]`
is_identifier_char : ℕ → Bool
is_identifier_char c =
    (leb b'0' c && leb c b'9')
    || (leb b'A' c && leb c b'Z')
    || (leb b'a' c && leb c b'z')
    || nat_eq c b'-'

-- A pre-release identifier: `(0, int(p), "")` or `(1, 0, p)`.
pub data Identifier : Type 0 where
  numeric : ℕ → Identifier
  alphanumeric : List ℕ → Identifier

-- The triple, whether it is a release, and the identifiers.
pub record Key : Type 0 where
  pub major : ℕ
  pub minor : ℕ
  pub patch : ℕ
  pub release : Bool
  pub identifiers : List Identifier

-- `isdigit` and `int` of an identifier, whose digits are ASCII: `none` if a character is none.
digits_from : ℕ → List ℕ → Option ℕ
digits_from n [] = some n
digits_from n (c ∷ cs) =
    let rest = digits_from (n * 10 + (c - b'0')) cs in
    if leb b'0' c && leb c b'9' then rest else none

identifier : List ℕ → Identifier
unfolding digits_from
identifier p = elim (digits_from 0 p) [ none ↦ alphanumeric p | some n ↦ numeric n ]

-- The end of an identifier: it is not empty.
close : List ℕ → List ℕ → Option (List (List ℕ) × List ℕ)
close [] rest = none
close (c ∷ cs) rest = some ((c ∷ cs) ∷ [], rest)

prepend : List ℕ → Option (List (List ℕ) × List ℕ) → Option (List (List ℕ) × List ℕ)
prepend [] more = none
prepend (c ∷ cs) none = none
prepend (c ∷ cs) (some (ids, rest)) = some ((c ∷ cs) ∷ ids, rest)

-- Identifiers joined by dots, and what stands behind them.
dotted : List ℕ → List ℕ → Option (List (List ℕ) × List ℕ)
unfolding is_identifier_char close prepend
dotted current [] = close current []
dotted current (c ∷ cs) =
    let longer = dotted (current ++ c ∷ []) cs in
    let next = prepend current (dotted [] cs) in
    if is_identifier_char c then longer else if nat_eq c b'.' then next else close current (c ∷ cs)

-- `(?:\+…)?$`: build metadata, which is dropped, and the end of the text.
build_and_end : List ℕ → Bool
unfolding dotted
build_and_end [] = true
build_and_end (c ∷ cs) = nat_eq c b'+' && elim (dotted [] cs) [ some (ids, []) ↦ true | _ ↦ false ]

abbrev map_identifiers : List (List ℕ) → List Identifier
map_identifiers [] = []
map_identifiers (p ∷ ps) = identifier p ∷ map_identifiers ps

module _ (is_space : ℕ → Bool) (digit : ℕ → Option ℕ) where
  drop_spaces : List ℕ → List ℕ
  drop_spaces [] = []
  drop_spaces (c ∷ cs) = if is_space c then drop_spaces cs else c ∷ cs

  -- Spaces at the end: a run of them is dropped if nothing follows it.
  drop_trailing : List ℕ → List ℕ
  drop_trailing [] = []
  drop_trailing (c ∷ cs) = elim (drop_trailing cs) [
    | [] ↦ if is_space c then [] else c ∷ []
    | d ∷ ds ↦ c ∷ d ∷ ds
  ]

  strip : List ℕ → List ℕ
  unfolding drop_spaces drop_trailing
  strip text = drop_trailing (drop_spaces text)

  -- `\d*` from the accumulated value on, and what follows.
  more_digits : ℕ → List ℕ → ℕ × List ℕ
  more_digits n [] = (n, [])
  more_digits n (c ∷ cs) = elim (digit c) [
    | none ↦ (n, c ∷ cs)
    | some d ↦ more_digits (n * 10 + d) cs
  ]

  -- `(\d+)`
  number : List ℕ → Option (ℕ × List ℕ)
  unfolding more_digits
  number [] = none
  number (c ∷ cs) = elim (digit c) [ none ↦ none | some d ↦ some (more_digits d cs) ]

  dot : List ℕ → Option (List ℕ)
  dot [] = none
  dot (c ∷ cs) = if nat_eq c b'.' then some cs else none

  infixl 5 ◌>>=◌
  abbrev ◌>>=◌ : {A B : Type 0} → Option A → (A → Option B) → Option B
  none >>= f = none
  some a >>= f = f a

  -- What follows the triple: the pre-release after a `-`, the build after a `+`, the end.
  suffix : ℕ → ℕ → ℕ → List ℕ → Option Key
  unfolding dotted build_and_end identifier
  suffix major minor patch [] =
      some
        (record { major = major; minor = minor; patch = patch; release = true; identifiers = [] })
  suffix major minor patch (c ∷ cs) =
      if nat_eq c b'-'
      then elim (dotted [] cs) [
        | none ↦ none
        | some (ids, rest) ↦
            if build_and_end rest
            then some (record {
              major = major;
              minor = minor;
              patch = patch;
              release = false;
              identifiers = map_identifiers ids;
            })
            else none
      ]
      else if build_and_end (c ∷ cs)
      then some
          (record { major = major; minor = minor; patch = patch; release = true; identifiers = [] })
      else none

  -- `_key`
  pub key : List ℕ → Option Key
  unfolding strip number dot suffix
  key text = do
    (major, a) ← number (strip text)
    b ← dot a
    (minor, c) ← number b
    d ← dot c
    (patch, e) ← number d
    suffix major minor patch e

-- Tuples of an identifier compare by their first difference.
pub compare_identifiers : Identifier → Identifier → Ordering
compare_identifiers (numeric m) (numeric n) = compare_numbers m n
compare_identifiers (numeric m) (alphanumeric q) = Ordering.lt
compare_identifiers (alphanumeric p) (numeric n) = Ordering.gt
compare_identifiers (alphanumeric p) (alphanumeric q) = compare_list compare_numbers p q

-- The triples first.
compare_triples : Key → Key → Ordering
compare_triples a b =
    then_by (compare_numbers a.major b.major)
      (then_by (compare_numbers a.minor b.minor) (compare_numbers a.patch b.patch))

-- `-1 if kb[1] else 1` where the two differ: a pre-release is below its release.
compare_release : Bool → Bool → Ordering
compare_release true true = Ordering.eq
compare_release false false = Ordering.eq
compare_release false true = Ordering.lt
compare_release true false = Ordering.gt

pub compare_keys : Key → Key → Ordering
unfolding compare_triples compare_release compare_identifiers compare_list
compare_keys a b = then_by (compare_triples a b) (
    then_by (compare_release a.release b.release)
      (compare_list compare_identifiers a.identifiers b.identifiers))

abbrev both : Option Key → Option Key → Option Ordering
both (some a) (some b) = some (compare_keys a b)
both _ _ = none

module _ (is_space : ℕ → Bool) (digit : ℕ → Option ℕ) where
  -- `none` if either is not SemVer.
  pub compare : String → String → Option Ordering
  unfolding key compare_keys
  compare a b = both (key is_space digit (codes a)) (key is_space digit (codes b))

  unfoldable pub is_newer : String → String → Option Bool
  unfolding compare
  is_newer candidate installed = elim (compare candidate installed) [
    | none ↦ none
    | some Ordering.gt ↦ some true
    | some _ ↦ some false
  ]
