-- ===== src/RestoreScope/Selection.antt =====
-- What `selection_flag` of src/app/core/ctl.py lets through.
use papaia_manager.Base.{
  String, ◌≡◌, ◌∙◌, subst, true, false, not, List, [], ◌∷◌, ◌==◌, eq_iff, ltb, length, arith, inl,
  inr, Bool-cases, ◌≤◌,
}
use Prim.Native.String.{◌++◌ as text_append}
use papaia_manager.Base.Names.{has_name, sorted_set, has_name-sorted_set}
use papaia_manager.Base.Result.{ok, >>=-returns, raise_if-returns}
use papaia_manager.RestoreScope.Choice.{
  bad_selector, own_panel, not_in_restore_point, no_selection, too_many_selectors, is_selector,
  check_selectors, selection_flag, comma_joined, is_empty, max_selectors,
}

-- A selector that is well formed, is not the panel's own and names something on offer.
abbrev pub IsOffered : List String → String → Type 0
IsOffered allowed s =
    (is_selector s ≡ true) × ((s == "module:manager") ≡ false) × (has_name s allowed ≡ true)

check_selectors-returns :
    (allowed ss : List String) (s : String)
    → check_selectors allowed ss ≡ ok tt
    → has_name s ss ≡ true
    → IsOffered allowed s
unfolding check_selectors
check_selectors-returns allowed [] s returned h = cc
check_selectors-returns allowed (x ∷ ss) s returned h =
    let (formed, later) = raise_if-returns (not (is_selector x)) (bad_selector x) _ returned in
    let (other, last) = raise_if-returns (x == "module:manager") (own_panel x) _ later in
    let (offered, rest) =
      raise_if-returns (not (has_name x allowed)) (not_in_restore_point x) _ last in
    elim (Bool-cases (x == s)) [
      | inl e ↦ subst (IsOffered allowed) ((eq_iff x s).0 e) (ground arith, other, ground arith)
      | inr e ↦ check_selectors-returns allowed ss s rest (rw e at h)
    ]

-- When the flag is made, it lists the selectors, each once and in order; there is at least one, they
-- are no more than the limit, and each is well formed, is not that of the panel and is one of those
-- that the restore point offers.
pub selection_flag-returns :
    (selectors allowed : List String) (flag : String)
    → selection_flag selectors allowed ≡ ok flag
    → (flag ≡ text_append "--only=" (comma_joined (sorted_set selectors)))
      × (is_empty (sorted_set selectors) ≡ false)
      × (length (sorted_set selectors) ≤ max_selectors)
      × ((s : String) → has_name s selectors ≡ true → IsOffered allowed s)
unfolding selection_flag
selection_flag-returns selectors allowed flag returned =
    let (some_chosen, later) =
      raise_if-returns (is_empty (sorted_set selectors)) no_selection _ returned in
    let (few, last) =
      raise_if-returns (ltb max_selectors (length (sorted_set selectors))) too_many_selectors _
        later in
    let (done, checked, made) =
      >>=-returns (check_selectors allowed (sorted_set selectors)) _ last in
    (
      cc made,
      some_chosen,
      ground arith,
      λ s h.
          check_selectors-returns allowed (sorted_set selectors) s checked
            (has_name-sorted_set s selectors ∙ h),
    )
