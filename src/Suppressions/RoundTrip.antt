-- ===== src/Suppressions/RoundTrip.antt =====
-- The suppressions that are read from sections written for them.
use cyglibabigail.Base.{
  Bool, true, false, ◌&&◌, List, [], ◌∷◌, ◌++◌, none, some, same_text, codes, append_assoc, ◌≡◌,
  refl, sym, ◌∙◌, ap, append-nil,
}
use cyglibabigail.Symbols.Symbol.{is_empty}
use cyglibabigail.Changes.Maps.{Text}
use cyglibabigail.Ini.Sections.{Property, Section}
use cyglibabigail.Suppressions.Parameters.{Atoi, ParameterSpec, read_parameter_spec_from_string}
use cyglibabigail.Suppressions.Types.{
  TypeKind, unknown_type_kind, class_type_kind, struct_type_kind, union_type_kind, enum_type_kind,
  array_type_kind, typedef_type_kind, builtin_type_kind, TypeSuppression,
}
use cyglibabigail.Suppressions.Functions.{FunctionSuppression}
use cyglibabigail.Suppressions.Variables.{VariableSuppression}
use cyglibabigail.Suppressions.Reading.{
  Suppression, of_types, of_functions, of_variables, find_property, read_type_kind_string,
  read_type_suppression, read_parameters, has_no_function_property, read_function_suppression,
  has_no_variable_property, read_variable_suppression, read_suppression, push_back,
  read_suppressions,
}

-- The word for a kind of types; any other word than the seven stands for the unknown kind.
abbrev pub kind_word : TypeKind → Text
kind_word unknown_type_kind = codes "unknown"
kind_word class_type_kind = codes "class"
kind_word struct_type_kind = codes "struct"
kind_word union_type_kind = codes "union"
kind_word enum_type_kind = codes "enum"
kind_word array_type_kind = codes "array"
kind_word typedef_type_kind = codes "typedef"
kind_word builtin_type_kind = codes "builtin"

abbrev pub prop : Text → Text → Property
prop n v = record { name = n; value = v }

abbrev pub kind_property : Bool → TypeKind → List Property
kind_property true k = prop (codes "type_kind") (kind_word k) ∷ []
kind_property false k = []

abbrev pub type_section : TypeSuppression → Section
type_section s = record {
  name = codes "suppress_type";
  properties =
      prop (codes "label") s.label
      ∷ prop (codes "name_regexp") s.type_name_regex_str
      ∷ prop (codes "name") s.type_name
      ∷ kind_property s.consider_type_kind s.type_kind;
}

abbrev pub parameter_properties : List Text → List Property
parameter_properties [] = []
parameter_properties (t ∷ ts) = prop (codes "parameter") t ∷ parameter_properties ts

abbrev pub function_section : FunctionSuppression → List Text → Section
function_section s parameters = record {
  name = codes "suppress_function";
  properties =
      prop (codes "label") s.label
      ∷ prop (codes "name") s.name
      ∷ prop (codes "name_regexp") s.name_regex_str
      ∷ prop (codes "return_type_name") s.return_type_name
      ∷ prop (codes "return_type_regexp") s.return_type_regex_str
      ∷ prop (codes "symbol_name") s.symbol_name
      ∷ prop (codes "symbol_name_regexp") s.symbol_name_regex_str
      ∷ prop (codes "symbol_version") s.symbol_version
      ∷ prop (codes "symbol_version_regexp") s.symbol_version_regex_str
      ∷ parameter_properties parameters;
}

abbrev pub variable_section : VariableSuppression → Section
variable_section s = record {
  name = codes "suppress_variable";
  properties =
      prop (codes "label") s.label
      ∷ prop (codes "name") s.name
      ∷ prop (codes "name_regexp") s.name_regex_str
      ∷ prop (codes "symbol_name") s.symbol_name
      ∷ prop (codes "symbol_name_regexp") s.symbol_name_regex_str
      ∷ prop (codes "symbol_version") s.symbol_version
      ∷ prop (codes "symbol_version_regexp") s.symbol_version_regex_str
      ∷ prop (codes "type_name") s.type_name
      ∷ prop (codes "type_name_regexp") s.type_name_regex_str
      ∷ [];
}

-- The texts of parameters, and the specifications they are read as.
pub data Texts (atoi : Atoi) : List Text → List ParameterSpec → Type 0 where
  no_text : Texts atoi [] []
  text :
      {t : Text} {p : ParameterSpec} {ts : List Text} {ps : List ParameterSpec}
      → read_parameter_spec_from_string atoi t ≡ some p
      → Texts atoi ts ps
      → Texts atoi (t ∷ ts) (p ∷ ps)

-- A suppression of types asks for a kind, or for the kind that is set by default and a name.
abbrev pub IsTypeSpec : TypeSuppression → Type 0
IsTypeSpec s =
    (s.consider_type_kind ≡ false)
    → (s.type_kind ≡ class_type_kind)
      × ((is_empty s.type_name_regex_str && is_empty s.type_name) ≡ false)

-- The sections that suppressions are written as.
pub data Written (atoi : Atoi) : Section → Suppression → Type 0 where
  types : (s : TypeSuppression) → IsTypeSpec s → Written atoi (type_section s) (of_types s)
  functions :
      (s : FunctionSuppression) (ts : List Text)
      → Texts atoi ts s.parameter_specs
      → has_no_function_property s ≡ false
      → Written atoi (function_section s ts) (of_functions s)
  variables :
      (s : VariableSuppression)
      → has_no_variable_property s ≡ false
      → Written atoi (variable_section s) (of_variables s)

-- A file of such sections, between sections of other names.
pub data File (atoi : Atoi) : List Section → List Suppression → Type 0 where
  ends : File atoi [] []
  spec :
      {i : Section} {s : Suppression} {is : List Section} {ss : List Suppression}
      → Written atoi i s
      → File atoi is ss
      → File atoi (i ∷ is) (s ∷ ss)
  other :
      {i : Section} {is : List Section} {ss : List Suppression}
      → same_text i.name (codes "suppress_type") ≡ false
      → same_text i.name (codes "suppress_function") ≡ false
      → same_text i.name (codes "suppress_variable") ≡ false
      → File atoi is ss
      → File atoi (i ∷ is) ss

kind_word-read : (k : TypeKind) → read_type_kind_string (kind_word k) ≡ k
unfolding read_type_kind_string
kind_word-read unknown_type_kind = refl
kind_word-read class_type_kind = refl
kind_word-read struct_type_kind = refl
kind_word-read union_type_kind = refl
kind_word-read enum_type_kind = refl
kind_word-read array_type_kind = refl
kind_word-read typedef_type_kind = refl
kind_word-read builtin_type_kind = refl

type_fields_read :
    (l r n : Text) (b : Bool) (k : TypeKind)
    → let s : TypeSuppression = record {
      label = l;
      type_name_regex_str = r;
      type_name = n;
      consider_type_kind = b;
      type_kind = k;
    } in
      (IsTypeSpec s → read_type_suppression (type_section s) ≡ some s)
unfolding read_type_suppression find_property
type_fields_read l r n true k h = rw (kind_word-read k) refl
type_fields_read l r n false k h = rw ((h refl).1, (h refl).0) refl

type_read : (s : TypeSuppression) → IsTypeSpec s → read_type_suppression (type_section s) ≡ some s
type_read s h =
    type_fields_read s.label s.type_name_regex_str s.type_name s.consider_type_kind s.type_kind h

parameters_read :
    (atoi : Atoi) {ts : List Text} {ps : List ParameterSpec}
    → Texts atoi ts ps
    → read_parameters atoi (parameter_properties ts) ≡ ps
unfolding read_parameters
parameters_read atoi no_text = refl
parameters_read atoi (text h k) = rw (h, parameters_read atoi k) refl

function_read :
    (atoi : Atoi) (s : FunctionSuppression) (ts : List Text)
    → Texts atoi ts s.parameter_specs
    → has_no_function_property s ≡ false
    → read_function_suppression atoi (function_section s ts) ≡ some s
unfolding read_function_suppression find_property read_parameters
function_read atoi s ts h given = rw (parameters_read atoi h, given) refl

variable_read :
    (s : VariableSuppression)
    → has_no_variable_property s ≡ false
    → read_variable_suppression (variable_section s) ≡ some s
unfolding read_variable_suppression find_property
variable_read s given = rw given refl

no_type :
    (i : Section)
    → same_text i.name (codes "suppress_type") ≡ false
    → read_type_suppression i ≡ none
unfolding read_type_suppression
no_type i h = rw h refl

no_function :
    (atoi : Atoi) (i : Section)
    → same_text i.name (codes "suppress_function") ≡ false
    → read_function_suppression atoi i ≡ none
unfolding read_function_suppression
no_function atoi i h = rw h refl

no_variable :
    (i : Section)
    → same_text i.name (codes "suppress_variable") ≡ false
    → read_variable_suppression i ≡ none
unfolding read_variable_suppression
no_variable i h = rw h refl

Written-read :
    (atoi : Atoi) {i : Section} {s : Suppression}
    → Written atoi i s
    → read_suppression atoi i ≡ some s
unfolding read_suppression
Written-read atoi (types s h) = rw (type_read s h) refl
Written-read atoi (functions s ts h given) =
    rw (no_type (function_section s ts) refl, function_read atoi s ts h given) refl
Written-read atoi (variables s given) =
    rw
      (
        no_type (variable_section s) refl,
        no_function atoi (variable_section s) refl,
        variable_read s given,
      )
      refl

-- Reading the sections of a file appends to the suppressions that are there the ones that were
-- written, in their order, and passes over sections of other names. A suppression can be written where
-- reading can tell it: one of types asks for a kind, or else has the default kind and a name or
-- regular expression for names; one of functions or of variables has some property, and the texts of the
-- parameters are read as those that it has.
pub read_suppressions-File :
    (atoi : Atoi) {is : List Section} {ss : List Suppression}
    → File atoi is ss
    → (before : List Suppression) → read_suppressions atoi is before ≡ before ++ ss
unfolding read_suppressions read_suppression
read_suppressions-File atoi ends before = sym (append-nil before)
read_suppressions-File atoi (spec {i} {s} {is} {ss} w f) before =
    ap (λ z. read_suppressions atoi is (push_back z before)) (Written-read atoi w)
    ∙ read_suppressions-File atoi f (before ++ s ∷ [])
    ∙ append_assoc before (s ∷ []) ss
read_suppressions-File atoi (other {i} p q r f) before =
    rw (no_type i p, no_function atoi i q, no_variable i r) (read_suppressions-File atoi f before)
