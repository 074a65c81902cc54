-- ===== src/RestoreScope/Guard/Nodes.antt =====
-- Keycloak's group among the members of a node: the loop over the artifacts in `_node_groups` of
-- src/app/core/restore_scope.py.
use papaia_manager.Base.{
  ℕ, suc, String, ◌≡◌, refl, sym, ap, ◌∙◌, subst, Bool, true, false, ◌||◌, Option, none, some, List,
  [], ◌∷◌, map, ◌==◌, eq_iff, if◌then◌else◌, any, arith, inl, inr, Bool-cases, Option-cases,
  any-append,
}
use papaia_manager.Base.Dict
use papaia_manager.Base.Dict.{Dict}
use papaia_manager.Base.Names.{has_name}
use papaia_manager.RestoreScope.Model.{Artifact, ScopeGroup, artifact_selector}
use papaia_manager.RestoreScope.Nodes.{
  NodeGroups, is_remote, add_member, add_node, node_scan, groups_named, or_else,
}
use papaia_manager.RestoreScope.Guard.{Listed, head, tail}

pub has_name-keys {ℓ} :
    {V : Type ℓ} (k : String) (v : V) (d : Dict V)
    → Dict.get k d ≡ some v
    → has_name k (Dict.keys d) ≡ true
unfolding Dict.get
has_name-keys k v [] h = cc
has_name-keys k v ((i, w) ∷ d) h = ground (arith, has_name-keys k v d)

-- A pair that is found in the dict passes a test.
pub any-entry {ℓ} :
    {V : Type ℓ} (p : String × V → Bool) (k : String) (v : V) (d : Dict V)
    → Dict.get k d ≡ some v
    → p (k, v) ≡ true
    → any p d ≡ true
unfolding Dict.get
any-entry p k v [] h t = cc
any-entry p k v ((i, w) ∷ d) h t = elim (Bool-cases (i == k)) [
  | inl e ↦
      let same : some w ≡ some v = rw e at h in
      let passes : p (i, w) ≡ true =
        subst (λ (o : Option _). (elim o [ none ↦ false | some x ↦ p (i, x) ]) ≡ true) (sym same)
          (subst (λ j. p (j, v) ≡ true) (sym ((eq_iff i k).0 e)) t) in
      rw passes refl
  | inr e ↦ rw (any-entry p k v d (rw e at h) t) (ground arith)
]

pub any-map {ℓ κ} :
    {A : Type ℓ} {B : Type κ} (p : B → Bool) (f : A → B) (xs : List A)
    → any p (map f xs) ≡ any (λ x. p (f x)) xs
any-map p f [] = refl
any-map p f (x ∷ xs) = ap (λ b. p (f x) || b) (any-map p f xs)

-- One of the groups that some selectors name asks for the configuration.
pub any-named :
    (k : String) (g : ScopeGroup) (groups : Dict ScopeGroup) (ns : List String)
    → Dict.get k groups ≡ some g
    → g.requires_config ≡ true
    → has_name k ns ≡ true
    → any (λ (x : ScopeGroup). x.requires_config) (groups_named groups ns) ≡ true
any-named k g groups [] found asks h = cc
any-named k g groups (n ∷ ns) found asks h = elim (Bool-cases (n == k)) [
  | inl e ↦
      let there = subst (λ j. Dict.get j groups ≡ some g) (sym ((eq_iff n k).0 e)) found in
      ground arith
  | inr e ↦
      let rest = any-named k g groups ns found asks (rw e at h) in
      elim (Option-cases (Dict.get n groups)) [
        | inl absent ↦ ground arith
        | inr (x, there) ↦ ground arith
      ]
]

module _ (groups : Dict ScopeGroup) (k : String) where
  add_member-keeps :
      (selector : String) (known : List String)
      → has_name k known ≡ true
      → has_name k (add_member groups selector known) ≡ true
  add_member-keeps selector known h = ground (arith, any-append (λ n. n == k) known (selector ∷ []))

  add_member-adds :
      (selector : String) (known : List String)
      → selector ≡ k
      → has_name k (Dict.keys groups) ≡ true
      → has_name k (add_member groups selector known) ≡ true
  add_member-adds selector known same h =
      rw (same, h) (ground (arith, any-append (λ n. n == k) known (k ∷ []), eq_iff k k))

  -- The node is found, and the group is one of its members.
  abbrev pub IsMember : String → NodeGroups → Type 0
  IsMember node nodes =
      ((c : ℕ) × (Dict.get node nodes.found ≡ some c))
      × (has_name k (or_else [] (Dict.get node nodes.members)) ≡ true)

  add_node-keeps :
      (node : String) (nodes : NodeGroups) (b : Artifact)
      → IsMember node nodes
      → IsMember node (add_node groups nodes b)
  unfolding add_node
  add_node-keeps node nodes b ((c, found), member) = elim (Bool-cases (b.node == node)) [
    | inl e ↦
        let same : b.node ≡ node = (eq_iff b.node node).0 e in
        (
          (
            suc (or_else 0 (Dict.get b.node nodes.found)),
            Dict.get-put b.node node _ nodes.found ∙ rw e refl,
          ),
          rw (Dict.get-put b.node node _ nodes.members, e)
              (add_member-keeps (artifact_selector b) _ (
                subst (λ n. has_name k (or_else [] (Dict.get n nodes.members)) ≡ true) (sym same)
                  member)),
        )
    | inr e ↦ (
      (c, Dict.get-put b.node node _ nodes.found ∙ rw e found),
      rw (Dict.get-put b.node node _ nodes.members, e) member,
    )
  ]

  add_node-adds :
      (nodes : NodeGroups) (a : Artifact)
      → artifact_selector a ≡ k
      → has_name k (Dict.keys groups) ≡ true
      → IsMember a.node (add_node groups nodes a)
  unfolding add_node
  add_node-adds nodes a same h =
      let own : (a.node == a.node) ≡ true = (eq_iff a.node a.node).1 refl in
      (
        (
          suc (or_else 0 (Dict.get a.node nodes.found)),
          Dict.get-put a.node a.node _ nodes.found ∙ rw own refl,
        ),
        rw (Dict.get-put a.node a.node _ nodes.members, own)
            (add_member-adds (artifact_selector a) _ same h),
      )

  node_scan-keeps :
      (controller node : String) (nodes : NodeGroups) (xs : List (Option Artifact))
      → IsMember node nodes
      → IsMember node (node_scan groups controller nodes xs)
  unfolding node_scan
  node_scan-keeps controller node nodes [] h = h
  node_scan-keeps controller node nodes (none ∷ xs) h = node_scan-keeps controller node nodes xs h
  node_scan-keeps controller node nodes (some b ∷ xs) h =
      node_scan-keeps controller node
        (if is_remote controller b then add_node groups nodes b else nodes) xs
        (elim (Bool-cases (is_remote controller b)) [
          | inl e ↦ rw e (add_node-keeps node nodes b h)
          | inr e ↦ rw e h
        ])

  pub node_scan-adds :
      (controller : String) (nodes : NodeGroups) (a : Artifact) (xs : List (Option Artifact))
      → Listed a xs
      → is_remote controller a ≡ true
      → artifact_selector a ≡ k
      → has_name k (Dict.keys groups) ≡ true
      → IsMember a.node (node_scan groups controller nodes xs)
  unfolding node_scan
  node_scan-adds controller nodes a [] l remote same h = elim l [ ]
  node_scan-adds controller nodes a (_ ∷ xs) head remote same h =
      node_scan-keeps controller a.node
        (if is_remote controller a then add_node groups nodes a else nodes) xs
        (rw remote (add_node-adds nodes a same h))
  node_scan-adds controller nodes a (none ∷ xs) (tail l) remote same h =
      node_scan-adds controller nodes a xs l remote same h
  node_scan-adds controller nodes a (some b ∷ xs) (tail l) remote same h =
      node_scan-adds controller (if is_remote controller b then add_node groups nodes b else nodes)
        a xs l remote same h
