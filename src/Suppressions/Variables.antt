-- ===== src/Suppressions/Variables.antt =====
-- `variable_suppression` of `src/abg-comparison.cc`.
use cyglibabigail.Base.{
  Bool, true, false, [], Option, none, some, if◌then◌else◌, ◌≡◌, ◌↔◌, refl, inl, inr, Bool-cases,
  Outcome, returned, aborted, ◌>>=◌,
}
use cyglibabigail.Symbols.Symbol.{Symbol}
use cyglibabigail.Changes.Maps.{Text}
use cyglibabigail.Suppressions.Functions.{symbol_name_of, symbol_version_of}
use cyglibabigail.Suppressions.Criteria.{
  Regcomp, misses, Met, either_misses-EitherMet, return_false_iff, return_true_iff,
}

pub record VariableSuppression : Type 0 where
  pub label : Text
  pub name : Text
  pub name_regex_str : Text
  pub symbol_name : Text
  pub symbol_name_regex_str : Text
  pub symbol_version : Text
  pub symbol_version_regex_str : Text
  pub type_name : Text
  pub type_name_regex_str : Text

-- What the suppression asks of a variable: the name of the type is the qualified one.
pub record VariableSubject : Type 0 where
  pub name : Text
  pub symbol : Option Symbol
  pub type_name : Text

-- `sv_sym_version`: where the second variable has a symbol, the version of the symbol of the first,
-- which may be null.
unfoldable pub second_version : Option Symbol → Option Symbol → Outcome Text
second_version first none = returned []
second_version none (some s) = aborted
second_version (some f) (some s) = returned f.version.version

module _ (regcomp : Regcomp) where
  -- The checks of `variable_suppression::suppresses_diff` from the symbol version on
  abbrev from_version : VariableSuppression → VariableSubject → VariableSubject → Text → Bool
  from_version s fv sv version =
      if misses regcomp s.symbol_version s.symbol_version_regex_str (symbol_version_of fv.symbol)
        version
      then false
      else if misses regcomp s.type_name s.type_name_regex_str fv.type_name sv.type_name
      then false
      else true

  -- The checks of the name and of the symbol name
  abbrev names_pass : VariableSuppression → VariableSubject → VariableSubject → Bool
  names_pass s fv sv =
      if misses regcomp s.name s.name_regex_str fv.name sv.name
      then false
      else if misses regcomp s.symbol_name s.symbol_name_regex_str (symbol_name_of fv.symbol)
          (symbol_name_of sv.symbol)
      then false
      else true

  -- `variable_suppression::suppresses_diff`, on a diff node of two variables. The version of the second
  -- is read only where the first two checks pass.
  unfoldable pub variable_suppresses :
      VariableSuppression → VariableSubject → VariableSubject → Outcome Bool
  variable_suppresses s fv sv =
      if names_pass s fv sv
      then (do
        version ← second_version fv.symbol sv.symbol
        returned (from_version s fv sv version))
      else returned false

module _ (regcomp : Regcomp) (s : VariableSuppression) (fv sv : VariableSubject) where
  -- The criteria on the name and the symbol name.
  abbrev pub NamesMet : Type 0
  NamesMet =
      Met regcomp s.name s.name_regex_str fv.name sv.name
      × Met regcomp s.symbol_name s.symbol_name_regex_str (symbol_name_of fv.symbol)
          (symbol_name_of sv.symbol)

  -- Those on the symbol version, which is asked of the first symbol only, and on the type.
  abbrev pub VersionAndTypeMet : Text → Type 0
  VersionAndTypeMet version =
      Met regcomp s.symbol_version s.symbol_version_regex_str (symbol_version_of fv.symbol) version
      × Met regcomp s.type_name s.type_name_regex_str fv.type_name sv.type_name

  names_pass-NamesMet : (names_pass regcomp s fv sv ≡ true) ↔ NamesMet
  names_pass-NamesMet =
      let f = symbol_name_of fv.symbol in
      let g = symbol_name_of sv.symbol in
      return_false_iff _ _
        (either_misses-EitherMet regcomp s.name s.name_regex_str fv.name sv.name fv.name sv.name)
        (return_true_iff _
          (either_misses-EitherMet regcomp s.symbol_name s.symbol_name_regex_str f g f g))

  from_version-VersionAndTypeMet :
      (version : Text) → (from_version regcomp s fv sv version ≡ true) ↔ VersionAndTypeMet version
  from_version-VersionAndTypeMet version =
      let v = symbol_version_of fv.symbol in
      return_false_iff _ _
        (either_misses-EitherMet regcomp s.symbol_version s.symbol_version_regex_str v version v
          version)
        (return_true_iff _ (
          either_misses-EitherMet regcomp s.type_name s.type_name_regex_str fv.type_name
            sv.type_name fv.type_name sv.type_name))

  abbrev pub Suppresses : Text → Type 0
  Suppresses version =
      (b : Bool) × (variable_suppresses regcomp s fv sv ≡ returned b)
      × ((b ≡ true) ↔ (NamesMet × VersionAndTypeMet version))

  Suppresses-with :
      (version : Text) → second_version fv.symbol sv.symbol ≡ returned version → Suppresses version
  unfolding variable_suppresses
  Suppresses-with version read = elim (Bool-cases (names_pass regcomp s fv sv)) [
    | inl pass ↦
        let names = names_pass-NamesMet.0 pass in
        let rest = from_version-VersionAndTypeMet version in
        (
          from_version regcomp s fv sv version,
          rw (pass, read) refl,
          ((λ h. (names, rest.0 h)), λ (m, v). rest.1 v),
        )
    | inr fail ↦
        (false, rw fail refl, ((λ h. cc h), λ (m, v). absurd (cc (fail, names_pass-NamesMet.1 m))))
  ]

  -- Where the second variable has no symbol, or both have one, a suppression of variables returns, and
  -- suppresses the diff of two variables just where one of them has the name asked for, one the symbol
  -- name and one the type, each by name or else by regular expression, and where the symbol version
  -- asked for is met by the first symbol alone. Where only the second has a symbol, and the names are
  -- met, it stops the program.
  pub variable_suppresses-NamesMet :
      (sv.symbol ≡ none → Suppresses [])
      × ((f t : Symbol) → fv.symbol ≡ some f → sv.symbol ≡ some t → Suppresses f.version.version)
      × ((t : Symbol)
          → fv.symbol ≡ none
          → sv.symbol ≡ some t
          → NamesMet
          → variable_suppresses regcomp s fv sv ≡ aborted)
  unfolding second_version variable_suppresses
  variable_suppresses-NamesMet = (
    (λ n. Suppresses-with [] (rw n refl)),
    (λ f t p q. Suppresses-with f.version.version (rw (p, q) refl)),
    λ t p q m. rw (names_pass-NamesMet.1 m, p, q) refl,
  )
