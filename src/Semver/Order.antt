-- ===== src/Semver/Order.antt =====
-- Precedence is an order of the versions.
use Prim.Native.Nat.{compare as compare_numbers, Ordering}
use papaia_manager.Base.{ℕ, String, ◌≡◌, refl, ap, Bool, true, false, Option, none, some, arith}
use papaia_manager.Base.Compare.{IsOrder, flip, compare_list, compare-IsOrder, compare_list-IsOrder}
use papaia_manager.Semver.{
  Identifier, numeric, alphanumeric, Key, key, codes, compare_identifiers, compare_keys, both,
  compare, is_newer,
}

text-IsOrder : IsOrder (compare_list compare_numbers)
text-IsOrder = compare_list-IsOrder compare-IsOrder

identifiers-same : (a : Identifier) → compare_identifiers a a ≡ Ordering.eq
unfolding compare_identifiers
identifiers-same (numeric m) = compare-IsOrder.same m
identifiers-same (alphanumeric p) = text-IsOrder.same p

identifiers-equal : (a b : Identifier) → compare_identifiers a b ≡ Ordering.eq → a ≡ b
unfolding compare_identifiers
identifiers-equal (numeric m) (numeric n) h = ap numeric (compare-IsOrder.equal m n h)
identifiers-equal (numeric m) (alphanumeric q) h = cc
identifiers-equal (alphanumeric p) (numeric n) h = cc
identifiers-equal (alphanumeric p) (alphanumeric q) h = ap alphanumeric (text-IsOrder.equal p q h)

identifiers-swap : (a b : Identifier) → compare_identifiers b a ≡ flip (compare_identifiers a b)
unfolding compare_identifiers
identifiers-swap (numeric m) (numeric n) = compare-IsOrder.swap m n
identifiers-swap (numeric m) (alphanumeric q) = refl
identifiers-swap (alphanumeric p) (numeric n) = refl
identifiers-swap (alphanumeric p) (alphanumeric q) = text-IsOrder.swap p q

identifiers-chain :
    (a b c : Identifier)
    → compare_identifiers a b ≡ Ordering.lt
    → compare_identifiers b c ≡ Ordering.lt
    → compare_identifiers a c ≡ Ordering.lt
unfolding compare_identifiers
identifiers-chain (numeric m) (numeric n) (numeric o) h k = compare-IsOrder.chain m n o h k
identifiers-chain (numeric m) b (alphanumeric r) h k = refl
identifiers-chain (numeric m) (alphanumeric q) (numeric o) h k = cc
identifiers-chain (alphanumeric p) (numeric n) c h k = cc
identifiers-chain (alphanumeric p) (alphanumeric q) (numeric o) h k = cc
identifiers-chain (alphanumeric p) (alphanumeric q) (alphanumeric r) h k =
    text-IsOrder.chain p q r h k

pub compare_identifiers-IsOrder : IsOrder compare_identifiers
compare_identifiers-IsOrder = record {
  same = identifiers-same;
  equal = identifiers-equal;
  swap = identifiers-swap;
  chain = identifiers-chain;
}

lists-IsOrder : IsOrder (compare_list compare_identifiers)
lists-IsOrder = compare_list-IsOrder compare_identifiers-IsOrder

keys-same : (a : Key) → compare_keys a a ≡ Ordering.eq
unfolding compare_keys
keys-same a = ground (arith, lists-IsOrder.same a.identifiers)

keys-equal : (a b : Key) → compare_keys a b ≡ Ordering.eq → a ≡ b
unfolding compare_keys
keys-equal a b h = ground (arith, lists-IsOrder.equal a.identifiers b.identifiers)

keys-swap : (a b : Key) → compare_keys b a ≡ flip (compare_keys a b)
unfolding compare_keys
keys-swap a b = ground (arith, lists-IsOrder.swap a.identifiers b.identifiers)

keys-chain :
    (a b c : Key)
    → compare_keys a b ≡ Ordering.lt
    → compare_keys b c ≡ Ordering.lt
    → compare_keys a c ≡ Ordering.lt
unfolding compare_keys
keys-chain a b c h k = ground (arith, lists-IsOrder.chain a.identifiers b.identifiers c.identifiers)

-- The precedence of version keys is a total order that tells distinct keys apart: comparing with
-- the sides exchanged gives the mirrored answer, equal answers mean equal triples, release flags
-- and identifiers, and "below" is transitive.
pub compare_keys-IsOrder : IsOrder compare_keys
compare_keys-IsOrder = record {
  same = keys-same;
  equal = keys-equal;
  swap = keys-swap;
  chain = keys-chain;
}

module _ (is_space : ℕ → Bool) (digit : ℕ → Option ℕ) where
  both-newer-swap :
      (ka kb : Option Key) → both ka kb ≡ some Ordering.gt → both kb ka ≡ some Ordering.lt
  both-newer-swap none kb h = cc
  both-newer-swap (some a) none h = cc
  both-newer-swap (some a) (some b) h = ground (arith, keys-swap a b)

  both-newer-chain :
      (ka kb kc : Option Key)
      → both ka kb ≡ some Ordering.gt
      → both kb kc ≡ some Ordering.gt
      → both ka kc ≡ some Ordering.gt
  both-newer-chain none kb kc h k = cc
  both-newer-chain (some a) none kc h k = cc
  both-newer-chain (some a) (some b) none h k = cc
  both-newer-chain (some a) (some b) (some c) h k =
      ground (arith, keys-swap a b, keys-swap b c, keys-swap a c, keys-chain c b a)

  newer-gt :
      (a b : String)
      → is_newer is_space digit a b ≡ some true
      → compare is_space digit a b ≡ some Ordering.gt
  unfolding is_newer
  newer-gt a b h = ground arith

  gt-newer :
      (a b : String)
      → compare is_space digit a b ≡ some Ordering.gt
      → is_newer is_space digit a b ≡ some true
  unfolding is_newer
  gt-newer a b h = ground arith

  -- A version that is newer than another is not older than it: the two are never each an upgrade
  -- of the other, whatever the texts.
  pub is_newer_asymmetric :
      (a b : String)
      → is_newer is_space digit a b ≡ some true
      → is_newer is_space digit b a ≡ some false
  unfolding is_newer compare
  is_newer_asymmetric a b h =
      ground (arith, both-newer-swap (key is_space digit (codes a)) (key is_space digit (codes b)))

  -- Newer than newer is newer: with three versions of which the first is newer than the second
  -- and the second than the third, the first and the third are comparable too, and it is newer.
  pub is_newer_transitive :
      (a b c : String)
      → is_newer is_space digit a b ≡ some true
      → is_newer is_space digit b c ≡ some true
      → is_newer is_space digit a c ≡ some true
  unfolding compare
  is_newer_transitive a b c h k = gt-newer a c (
      both-newer-chain (key is_space digit (codes a)) (key is_space digit (codes b))
        (key is_space digit (codes c)) (newer-gt a b h) (newer-gt b c k))
