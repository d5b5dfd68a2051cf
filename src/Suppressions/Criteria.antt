-- ===== src/Suppressions/Criteria.antt =====
-- The criterion that most properties of a suppression are: a name, or else a regular expression, that
-- one of both subjects has.
use cyglibabigail.Base.{
  Bool, true, false, not, ◌&&◌, [], ◌∷◌, Option, none, some, if◌then◌else◌, same_text, same_text-eq,
  same_text_refl, ◌≡◌, refl, ◌≢◌, ◌⊎◌, inl, inr, ◌↔◌, Bool-cases, Option-cases,
}
use cyglibabigail.Symbols.Symbol.{is_empty}
use cyglibabigail.Changes.Maps.{Text}

-- `regcomp` and `regexec` of the C library: the test that a regular expression compiles to, if it does.
abbrev pub Regcomp : Type 0
Regcomp = Text → Option (Text → Bool)

module _ (regcomp : Regcomp) where
  -- `get_name_regex` and the like: no regular expression for the empty string
  unfoldable pub get_regex : Text → Option (Text → Bool)
  get_regex regex_str = if is_empty regex_str then none else regcomp regex_str

-- Neither of two subjects has the name that is asked for.
unfoldable pub name_misses : Text → Text → Text → Bool
name_misses name a b = not (is_empty name) && (not (same_text name a) && not (same_text name b))

unfoldable pub regex_misses : Option (Text → Bool) → Text → Text → Bool
regex_misses none a b = false
regex_misses (some matches) a b = not (matches a) && not (matches b)

module _ (regcomp : Regcomp) where
  -- The name of one of `a` and `b` if there is one, and else the regular expression for one of `c` and
  -- `d`
  unfoldable pub either_misses : Text → Text → (a b c d : Text) → Bool
  either_misses name regex_str a b c d =
      if is_empty name then regex_misses (get_regex regcomp regex_str) c d else name_misses name a b

  abbrev pub misses : Text → Text → Text → Text → Bool
  misses name regex_str a b = either_misses name regex_str a b a b

-- The criterion in words: no name, or the name of one of both.
abbrev pub NameMet : Text → Text → Text → Type 0
NameMet name a b = (name ≡ []) ⊎ ((name ≡ a) ⊎ (name ≡ b))

abbrev pub RegexMet : Regcomp → Text → Text → Text → Type 0
RegexMet regcomp regex_str a b =
    (matches : Text → Bool)
    → regex_str ≢ []
    → regcomp regex_str ≡ some matches
    → (matches a ≡ true) ⊎ (matches b ≡ true)

-- A regular expression counts only where no name is given.
abbrev pub EitherMet : Regcomp → (name regex_str a b c d : Text) → Type 0
EitherMet regcomp name regex_str a b c d =
    NameMet name a b × (name ≡ [] → RegexMet regcomp regex_str c d)

abbrev pub Met : Regcomp → (name regex_str a b : Text) → Type 0
Met regcomp name regex_str a b = EitherMet regcomp name regex_str a b a b

is_empty_iff : (t : Text) → (is_empty t ≡ true) ↔ (t ≡ [])
is_empty_iff [] = ((λ h. refl), λ h. refl)
is_empty_iff (c ∷ cs) = ((λ h. cc h), λ h. cc h)

guard_fails : (p : Bool) → (p && false) ≡ false
guard_fails true = refl
guard_fails false = refl

name_met : (name a b : Text) → name_misses name a b ≡ false → NameMet name a b
unfolding name_misses
name_met name a b h = elim (Bool-cases (is_empty name)) [
  | inl none_asked ↦ inl ((is_empty_iff name).0 none_asked)
  | inr asked ↦ elim (Bool-cases (same_text name a)) [
    | inl at_a ↦ inr (inl (same_text-eq name a at_a))
    | inr not_a ↦ elim (Bool-cases (same_text name b)) [
      | inl at_b ↦ inr (inr (same_text-eq name b at_b))
      | inr not_b ↦ let bad : true ≡ false = rw (asked, not_a, not_b) at h in absurd (cc bad)
    ]
  ]
]

name_not_missed : (name a b : Text) → NameMet name a b → name_misses name a b ≡ false
unfolding name_misses
name_not_missed name a b (inl e) = rw e refl
name_not_missed name a b (inr (inl e)) = rw (e, same_text_refl a) (guard_fails (not (is_empty a)))
name_not_missed name a b (inr (inr e)) =
    rw (e, same_text_refl b, guard_fails (not (same_text b a))) (guard_fails (not (is_empty b)))

pub name_misses-NameMet : (name a b : Text) → (name_misses name a b ≡ false) ↔ NameMet name a b
name_misses-NameMet name a b = (name_met name a b, name_not_missed name a b)

module _ (regcomp : Regcomp) (regex_str a b : Text) where
  regex_met :
      regex_misses (get_regex regcomp regex_str) a b ≡ false → RegexMet regcomp regex_str a b
  unfolding regex_misses get_regex
  regex_met h matches asked compiles = elim (Bool-cases (is_empty regex_str)) [
    | inl nothing ↦ absurd (asked ((is_empty_iff regex_str).0 nothing))
    | inr something ↦
        let h' : (not (matches a) && not (matches b)) ≡ false = rw (something, compiles) at h in
        elim (Bool-cases (matches a)) [
          | inl at_a ↦ inl at_a
          | inr not_a ↦ elim (Bool-cases (matches b)) [
            | inl at_b ↦ inr at_b
            | inr not_b ↦ let bad : true ≡ false = rw (not_a, not_b) at h' in absurd (cc bad)
          ]
        ]
  ]

  regex_not_missed :
      RegexMet regcomp regex_str a b → regex_misses (get_regex regcomp regex_str) a b ≡ false
  unfolding regex_misses get_regex
  regex_not_missed h = elim (Bool-cases (is_empty regex_str)) [
    | inl nothing ↦ rw nothing refl
    | inr something ↦ elim (Option-cases (regcomp regex_str)) [
      | inl wrong ↦ rw (something, wrong) refl
      | inr (matches, compiles) ↦
          rw (something, compiles)
            (elim (h matches (λ e. cc (something, (is_empty_iff regex_str).1 e)) compiles) [
              | inl at_a ↦ rw at_a refl
              | inr at_b ↦ rw at_b (guard_fails (not (matches a)))
            ])
    ]
  ]

  pub regex_misses-RegexMet :
      (regex_misses (get_regex regcomp regex_str) a b ≡ false) ↔ RegexMet regcomp regex_str a b
  regex_misses-RegexMet = (regex_met, regex_not_missed)

module _ (regcomp : Regcomp) (name regex_str a b c d : Text) where
  met :
      either_misses regcomp name regex_str a b c d ≡ false
      → EitherMet regcomp name regex_str a b c d
  unfolding either_misses
  met h = elim (Bool-cases (is_empty name)) [
    | inl nothing ↦
        let h' : regex_misses (get_regex regcomp regex_str) c d ≡ false = rw nothing at h in
        (
          inl ((is_empty_iff name).0 nothing),
          λ e. (regex_misses-RegexMet regcomp regex_str c d).0 h',
        )
    | inr something ↦
        let h' : name_misses name a b ≡ false = rw something at h in
        (name_met name a b h', λ e. absurd (cc (something, (is_empty_iff name).1 e)))
  ]

  not_missed :
      EitherMet regcomp name regex_str a b c d
      → either_misses regcomp name regex_str a b c d ≡ false
  unfolding either_misses
  not_missed (by_name, by_regex) = elim (Bool-cases (is_empty name)) [
    | inl nothing ↦
        rw nothing (
          (regex_misses-RegexMet regcomp regex_str c d).1
            (by_regex ((is_empty_iff name).0 nothing)))
    | inr something ↦ rw something (name_not_missed name a b by_name)
  ]

  pub either_misses-EitherMet :
      (either_misses regcomp name regex_str a b c d ≡ false)
      ↔ EitherMet regcomp name regex_str a b c d
  either_misses-EitherMet = (met, not_missed)

-- An early `return false`, and what is left to check.
pub return_false_iff :
    {P Q : Type 0} (g b : Bool)
    → ((g ≡ false) ↔ P)
    → ((b ≡ true) ↔ Q)
    → ((if g then false else b) ≡ true) ↔ (P × Q)
return_false_iff true b p q = ((λ h. cc h), λ (x, y). cc (p.1 x))
return_false_iff false b p q = ((λ h. (p.0 refl, q.0 h)), λ (x, y). q.1 y)

-- The last early `return false`, and then `return true`.
pub return_true_iff :
    {P : Type 0} (g : Bool) → ((g ≡ false) ↔ P) → ((if g then false else true) ≡ true) ↔ P
return_true_iff true p = ((λ h. cc h), λ x. cc (p.1 x))
return_true_iff false p = ((λ h. p.0 refl), λ x. refl)
