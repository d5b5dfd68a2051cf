-- ===== src/Suppressions/Functions.antt =====
-- `function_suppression` of `src/abg-comparison.cc`.
use cyglibabigail.Base.{
  ℕ, ◌+◌, Bool, true, false, ◌&&◌, List, [], ◌∷◌, Option, none, some, if◌then◌else◌, get_elem?, ◌≡◌,
  ◌≢◌, ◌↔◌, refl, ◌⊎◌, inl, inr,
}
use cyglibabigail.Symbols.Symbol.{Symbol}
use cyglibabigail.Changes.Maps.{Text}
use cyglibabigail.Suppressions.Parameters.{ParameterSpec}
use cyglibabigail.Suppressions.Criteria.{
  Regcomp, get_regex, name_misses, regex_misses, either_misses, misses, NameMet, RegexMet, Met,
  EitherMet, name_misses-NameMet, regex_misses-RegexMet, either_misses-EitherMet, return_false_iff,
  return_true_iff,
}

pub record FunctionSuppression : Type 0 where
  pub label : Text
  pub name : Text
  pub name_regex_str : Text
  pub return_type_name : Text
  pub return_type_regex_str : Text
  pub parameter_specs : List ParameterSpec
  pub symbol_name : Text
  pub symbol_name_regex_str : Text
  pub symbol_version : Text
  pub symbol_version_regex_str : Text

-- What the suppression asks of a function: the names of types are qualified ones.
pub record FunctionSubject : Type 0 where
  pub qualified_name : Text
  pub return_type_name : Option Text
  pub symbol : Option Symbol
  pub is_method : Bool
  pub parameter_type_names : List Text

abbrev pub or_empty : Option Text → Text
or_empty none = []
or_empty (some t) = t

abbrev pub symbol_name_of : Option Symbol → Text
symbol_name_of none = []
symbol_name_of (some s) = s.name

abbrev pub symbol_version_of : Option Symbol → Text
symbol_version_of none = []
symbol_version_of (some s) = s.version.version

-- `function_type::get_parm_at_index_from_first_non_implicit_parm`
unfoldable pub get_parm_at_index_from_first_non_implicit_parm : FunctionSubject → ℕ → Option Text
get_parm_at_index_from_first_non_implicit_parm f i =
    if f.is_method
    then get_elem? f.parameter_type_names (i + 1)
    else get_elem? f.parameter_type_names i

abbrev is_nil : Option Text → Bool
is_nil none = true
is_nil (some t) = false

module _ (regcomp : Regcomp) where
  module _ (ff sf : FunctionSubject) where
    -- The body of the loop over the specifications of parameters
    unfoldable pub parameter_misses : ParameterSpec → Bool
    parameter_misses p =
        let ff_parm = get_parm_at_index_from_first_non_implicit_parm ff p.index in
        let sf_parm = get_parm_at_index_from_first_non_implicit_parm sf p.index in
        if is_nil ff_parm && is_nil sf_parm
        then true
        else misses regcomp p.type_name p.type_name_regex_str (or_empty ff_parm) (or_empty sf_parm)

    unfoldable pub some_parameter_misses : List ParameterSpec → Bool
    some_parameter_misses [] = false
    some_parameter_misses (p ∷ ps) =
        let rest = some_parameter_misses ps in if parameter_misses p then true else rest

  -- `function_suppression::suppresses_diff`, on a diff node of two functions. The version asked for is
  -- compared with the version of the first symbol and with the name of the second.
  unfoldable pub function_suppresses :
      FunctionSuppression → FunctionSubject → FunctionSubject → Bool
  function_suppresses s ff sf =
      if name_misses s.name ff.qualified_name sf.qualified_name
      then false
      else if regex_misses (get_regex regcomp s.name_regex_str) ff.qualified_name sf.qualified_name
      then false
      else if misses regcomp s.return_type_name s.return_type_regex_str
          (or_empty ff.return_type_name) (or_empty sf.return_type_name)
      then false
      else if misses regcomp s.symbol_name s.symbol_name_regex_str (symbol_name_of ff.symbol)
          (symbol_name_of sf.symbol)
      then false
      else if either_misses regcomp s.symbol_version s.symbol_version_regex_str
          (symbol_version_of ff.symbol) (symbol_name_of sf.symbol) (symbol_version_of ff.symbol)
          (symbol_version_of sf.symbol)
      then false
      else if some_parameter_misses ff sf s.parameter_specs
      then false
      else true

module _ (regcomp : Regcomp) (ff sf : FunctionSubject) where
  -- One of both functions has the parameter, and one of its types is met.
  abbrev pub ParameterMet : ParameterSpec → Type 0
  ParameterMet p =
      let f = get_parm_at_index_from_first_non_implicit_parm ff p.index in
      let s = get_parm_at_index_from_first_non_implicit_parm sf p.index in
      ((f ≢ none) ⊎ (s ≢ none))
      × Met regcomp p.type_name p.type_name_regex_str (or_empty f) (or_empty s)

  abbrev pub ParametersMet : List ParameterSpec → Type 0
  ParametersMet [] = Unit {0}
  ParametersMet (p ∷ ps) = ParameterMet p × ParametersMet ps

  parameter_test :
      (f s : Option Text) (b : Bool) {P : Type 0}
      → ((b ≡ false) ↔ P)
      → (((if is_nil f && is_nil s then true else b) ≡ false) ↔ (((f ≢ none) ⊎ (s ≢ none)) × P))
  parameter_test none none b p =
      ((λ h. cc h), λ (x, y). elim x [ inl n ↦ absurd (n refl) | inr n ↦ absurd (n refl) ])
  parameter_test none (some t) b p = ((λ h. (inr (λ e. cc e), p.0 h)), λ (x, y). p.1 y)
  parameter_test (some t) s b p = ((λ h. (inl (λ e. cc e), p.0 h)), λ (x, y). p.1 y)

  parameter_misses-ParameterMet :
      (p : ParameterSpec) → (parameter_misses regcomp ff sf p ≡ false) ↔ ParameterMet p
  unfolding parameter_misses
  parameter_misses-ParameterMet p =
      let f = get_parm_at_index_from_first_non_implicit_parm ff p.index in
      let s = get_parm_at_index_from_first_non_implicit_parm sf p.index in
      parameter_test f s
        (misses regcomp p.type_name p.type_name_regex_str (or_empty f) (or_empty s))
        (either_misses-EitherMet regcomp p.type_name p.type_name_regex_str (or_empty f) (or_empty s)
          (or_empty f) (or_empty s))

  both_tests :
      {P Q : Type 0} (g b : Bool)
      → ((g ≡ false) ↔ P)
      → ((b ≡ false) ↔ Q)
      → ((if g then true else b) ≡ false) ↔ (P × Q)
  both_tests true b p q = ((λ h. cc h), λ (x, y). p.1 x)
  both_tests false b p q = ((λ h. (p.0 refl, q.0 h)), λ (x, y). q.1 y)

  some_parameter_misses-ParametersMet :
      (ps : List ParameterSpec)
      → (some_parameter_misses regcomp ff sf ps ≡ false) ↔ ParametersMet ps
  unfolding some_parameter_misses
  some_parameter_misses-ParametersMet [] = ((λ h. tt), λ h. refl)
  some_parameter_misses-ParametersMet (p ∷ ps) =
      both_tests (parameter_misses regcomp ff sf p) (some_parameter_misses regcomp ff sf ps)
        (parameter_misses-ParameterMet p) (some_parameter_misses-ParametersMet ps)

  pub record FunctionMet (s : FunctionSuppression) : Type 0 where
    pub name : NameMet s.name ff.qualified_name sf.qualified_name
    pub name_regex : RegexMet regcomp s.name_regex_str ff.qualified_name sf.qualified_name
    pub return_type :
        Met regcomp s.return_type_name s.return_type_regex_str
          (or_empty ff.return_type_name)
          (or_empty sf.return_type_name)
    pub symbol_name :
        Met regcomp s.symbol_name s.symbol_name_regex_str
          (symbol_name_of ff.symbol)
          (symbol_name_of sf.symbol)
    pub symbol_version :
        EitherMet regcomp s.symbol_version s.symbol_version_regex_str
          (symbol_version_of ff.symbol)
          (symbol_name_of sf.symbol)
          (symbol_version_of ff.symbol)
          (symbol_version_of sf.symbol)
    pub parameters : ParametersMet s.parameter_specs

  -- A suppression of functions suppresses the diff of two functions just where one of them has the
  -- name asked for, one matches the regular expression for names, one has the return type and one the
  -- symbol name asked for by name, or else by regular expression, where the version asked for is that of
  -- the first symbol or the name of the second, or where none is, one version matches, and where for each
  -- parameter asked for one function has it, and one of both its types is met.
  pub function_suppresses-FunctionMet :
      (s : FunctionSuppression) → (function_suppresses regcomp s ff sf ≡ true) ↔ FunctionMet s
  unfolding function_suppresses
  function_suppresses-FunctionMet s =
      let f = symbol_name_of ff.symbol in
      let g = symbol_name_of sf.symbol in
      let v = symbol_version_of ff.symbol in
      let w = symbol_version_of sf.symbol in
      let r = or_empty ff.return_type_name in
      let t = or_empty sf.return_type_name in
      let iff =
        return_false_iff _ _ (name_misses-NameMet s.name ff.qualified_name sf.qualified_name) (
          return_false_iff _ _
            (regex_misses-RegexMet regcomp s.name_regex_str ff.qualified_name sf.qualified_name)
            (return_false_iff _ _
              (either_misses-EitherMet regcomp s.return_type_name s.return_type_regex_str r t r t)
              (return_false_iff _ _
                (either_misses-EitherMet regcomp s.symbol_name s.symbol_name_regex_str f g f g)
                (return_false_iff _ _
                  (either_misses-EitherMet regcomp s.symbol_version s.symbol_version_regex_str v g v
                    w)
                  (return_true_iff _ (some_parameter_misses-ParametersMet s.parameter_specs)))))) in
      (
        (λ h.
            let (a, (b, (c, (d, (e, k))))) = iff.0 h in
            record {
              name = a;
              name_regex = b;
              return_type = c;
              symbol_name = d;
              symbol_version = e;
              parameters = k;
            }),
        λ m. iff.1 (
          m.name,
          (m.name_regex, (m.return_type, (m.symbol_name, (m.symbol_version, m.parameters)))),
        ),
      )
