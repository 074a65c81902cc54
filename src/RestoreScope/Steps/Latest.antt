-- ===== src/RestoreScope/Steps/Latest.antt =====
-- The checklist of a scoped restore has each step once: src/app/core/restore_scope.py.
use papaia_manager.Base.{
  String, ◌≡◌, refl, sym, ◌∙◌, Bool, true, false, ◌||◌, Option, none, some, List, [], ◌∷◌, ◌++◌,
  eq_iff, if◌then◌else◌, keep, any, arith, inl, inr, Bool-cases, Option-cases,
}
use papaia_manager.Base.Text.{TextOps, after_prefix}
use papaia_manager.RestoreScope.Steps.{
  RestoreStep, same_step, put_step, step_of, step_prefix, read_steps, parse_steps,
}

-- The last one of a list, as a list of one.
abbrev pub latest {ℓ} : {A : Type ℓ} → List A → List A
latest [] = []
latest (x ∷ []) = x ∷ []
latest (x ∷ xs) = latest xs

latest-append {ℓ} :
    {A : Type ℓ} (xs : List A) (y : A) (ys : List A) → latest (xs ++ y ∷ ys) ≡ latest (y ∷ ys)
latest-append [] y ys = refl
latest-append (x ∷ []) y ys = refl
latest-append (x ∷ z ∷ xs) y ys = latest-append (z ∷ xs) y ys

keep-none {ℓ} : {A : Type ℓ} (p : A → Bool) (xs : List A) → any p xs ≡ false → keep p xs ≡ []
keep-none p [] h = refl
keep-none p (x ∷ xs) h = ground (arith, keep-none p xs)

same_step-left : (x y z : RestoreStep) → same_step x y ≡ true → same_step x z ≡ same_step y z
same_step-left x y z h =
    let phases : x.phase ≡ y.phase = (eq_iff x.phase y.phase).0 (ground arith) in
    let subjects : x.subject ≡ y.subject = (eq_iff x.subject y.subject).0 (ground arith) in
    rw (phases, subjects) refl

same_step-sym : (x y : RestoreStep) → same_step x y ≡ same_step y x
same_step-sym x y = ground (
  arith,
  eq_iff x.phase y.phase,
  eq_iff y.phase x.phase,
  eq_iff x.subject y.subject,
  eq_iff y.subject x.subject,
)

same_step-right : (x y z : RestoreStep) → same_step x y ≡ true → same_step z x ≡ same_step z y
same_step-right x y z h = same_step-sym z x ∙ same_step-left x y z h ∙ same_step-sym y z

-- No step stands twice in the checklist.
Once : List RestoreStep → Type 0
Once [] = Unit {0}
Once (x ∷ xs) = (any (same_step x) xs ≡ false) × Once xs

any-put_step :
    (k s : RestoreStep) (xs : List RestoreStep)
    → any (same_step k) (put_step s xs) ≡ (same_step k s || any (same_step k) xs)
unfolding put_step
any-put_step k s [] = refl
any-put_step k s (x ∷ xs) = elim (Bool-cases (same_step x s)) [
  | inl e ↦ rw (e, same_step-right x s k e) (ground arith)
  | inr e ↦ rw (e, any-put_step k s xs) (ground arith)
]

any-same :
    (x y : RestoreStep) (zs : List RestoreStep)
    → same_step x y ≡ true
    → any (same_step x) zs ≡ any (same_step y) zs
any-same x y [] h = refl
any-same x y (z ∷ zs) h = rw (same_step-left x y z h, any-same x y zs h) refl

put_step-Once : (s : RestoreStep) (xs : List RestoreStep) → Once xs → Once (put_step s xs)
unfolding put_step Once
put_step-Once s [] h = (refl, tt)
put_step-Once s (x ∷ xs) h = elim (Bool-cases (same_step x s)) [
  | inl e ↦ rw e (sym (any-same x s xs e) ∙ h.0, h.1)
  | inr e ↦ rw e (any-put_step x s xs ∙ rw (e, h.0) refl, put_step-Once s xs h.1)
]

keep-put_step :
    (k s : RestoreStep) (xs : List RestoreStep)
    → Once xs
    → keep (same_step k) (put_step s xs) ≡ (if same_step k s then s ∷ [] else keep (same_step k) xs)
unfolding put_step Once
keep-put_step k s [] h = refl
keep-put_step k s (x ∷ xs) h = elim (Bool-cases (same_step x s)) [
  | inl e ↦
      let of_x = same_step-right x s k e in
      elim (Bool-cases (same_step k s)) [
        | inl own ↦
            let no_more : keep (same_step k) xs ≡ [] =
              keep-none (same_step k) xs (any-same k s xs own ∙ sym (any-same x s xs e) ∙ h.0) in
            rw (e, own, no_more) refl
        | inr other ↦ rw (e, other, of_x, other) refl
      ]
  | inr e ↦
      let rest = keep-put_step k s xs h.1 in
      elim (Bool-cases (same_step k x)) [
        | inl own ↦
            let other : same_step k s ≡ false = same_step-left k x s own ∙ e in
            rw (e, own, rest, other) refl
        | inr other ↦ rw (e, other, rest) refl
      ]
]

latest-keep :
    (k : RestoreStep) (xs : List RestoreStep)
    → Once xs
    → keep (same_step k) xs ≡ latest (keep (same_step k) xs ++ [])
unfolding Once
latest-keep k [] h = refl
latest-keep k (x ∷ xs) h = elim (Bool-cases (same_step k x)) [
  | inl own ↦
      let no_more : keep (same_step k) xs ≡ [] =
        keep-none (same_step k) xs (any-same k x xs own ∙ h.0) in
      rw (own, no_more) refl
  | inr other ↦ rw other (latest-keep k xs h.1)
]

module _ (t : TextOps) (lines split : String → List String) where
  -- The step that a line of the log reports.
  abbrev pub reported : String → Option RestoreStep
  reported l = step_of t lines split (after_prefix step_prefix l)

  abbrev pub reports : List String → List RestoreStep
  reports [] = []
  reports (l ∷ ls) = let rest = reports ls in elim (reported l) [ none ↦ rest | some s ↦ s ∷ rest ]

  keep-read_steps :
      (k : RestoreStep) (steps : List RestoreStep) (ls : List String)
      → Once steps
      → keep (same_step k) (read_steps t lines split steps ls)
        ≡ latest (keep (same_step k) steps ++ keep (same_step k) (reports ls))
  unfolding read_steps
  keep-read_steps k steps [] h = latest-keep k steps h
  keep-read_steps k steps (l ∷ ls) h = elim (Option-cases (reported l)) [
    | inl absent ↦ rw absent (keep-read_steps k steps ls h)
    | inr (s, there) ↦ rw there (
        keep-read_steps k (put_step s steps) ls (put_step-Once s steps h)
        ∙ rw (keep-put_step k s steps h) (elim (Bool-cases (same_step k s)) [
          | inl own ↦
              rw (own)
                (sym (latest-append (keep (same_step k) steps) s (keep (same_step k) (reports ls))))
          | inr other ↦ rw other refl
        ]))
  ]

  -- The checklist of a log has of each step, by phase and subject, the last line that reports it
  -- and nothing else; of a step that no line reports it has nothing.
  pub parse_steps-latest :
      (k : RestoreStep) (log : String)
      → keep (same_step k) (parse_steps t lines split log)
        ≡ latest (keep (same_step k) (reports (lines log)))
  unfolding parse_steps Once
  parse_steps-latest k log = keep-read_steps k [] (lines log) tt
