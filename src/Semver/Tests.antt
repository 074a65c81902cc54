-- ===== src/Semver/Tests.antt =====
-- Precedence on concrete versions, with the ASCII part of Python's tables.
use papaia_manager.Base.{
  ℕ, ◌-◌, ◌≡◌, refl, Bool, true, false, ◌&&◌, ◌||◌, Option, none, some, leb, nat_eq, if◌then◌else◌,
}
use papaia_manager.Semver.{is_newer}

abbrev is_space : ℕ → Bool
is_space c = nat_eq c b' ' || (leb 9 c && leb c 13)

abbrev digit : ℕ → Option ℕ
digit c = if leb b'0' c && leb c b'9' then some (c - b'0') else none

release_above_pre_release : is_newer is_space digit " 1.2.0+b.7" "1.2.0-rc.1\n" ≡ some true
unfolding is_newer
release_above_pre_release = refl

numbers_as_numbers : is_newer is_space digit "1.10.0" "1.9.0" ≡ some true
unfolding is_newer
numbers_as_numbers = refl

numeric_identifier_below : is_newer is_space digit "1.0.0-9" "1.0.0-alpha" ≡ some false
unfolding is_newer
numeric_identifier_below = refl

not_semver : is_newer is_space digit "1.0" "1.0.0" ≡ none
unfolding is_newer
not_semver = refl

empty_identifier : is_newer is_space digit "1.0.0-a..b" "1.0.0" ≡ none
unfolding is_newer
empty_identifier = refl
