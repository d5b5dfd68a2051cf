-- ===== src/Suppressions/Reading.antt =====
-- How `src/abg-comparison.cc` reads suppressions from the sections of an INI file, and
-- `config::section::find_property` of `src/abg-ini.cc`.
use cyglibabigail.Base.{
  Bool, true, false, ◌&&◌, List, [], ◌∷◌, ◌++◌, Option, none, some, if◌then◌else◌, same_text, codes,
}
use cyglibabigail.Symbols.Symbol.{is_empty}
use cyglibabigail.Changes.Maps.{Text}
use cyglibabigail.Ini.Sections.{Property, Section}
use cyglibabigail.Suppressions.Parameters.{Atoi, ParameterSpec, read_parameter_spec_from_string}
use cyglibabigail.Suppressions.Types.{
  TypeKind, unknown_type_kind, class_type_kind, struct_type_kind, union_type_kind, enum_type_kind,
  array_type_kind, typedef_type_kind, builtin_type_kind, TypeSuppression, new_type_suppression,
  set_consider_type_kind, set_type_kind,
}
use cyglibabigail.Suppressions.Functions.{FunctionSuppression}
use cyglibabigail.Suppressions.Variables.{VariableSuppression}

unfoldable pub find_property : Text → List Property → Option Property
find_property prop_name [] = none
find_property prop_name (p ∷ ps) =
    let rest = find_property prop_name ps in if same_text p.name prop_name then some p else rest

-- `prop && !prop->second.empty() ? prop->second : ""`
abbrev pub value_of : Option Property → Text
value_of none = []
value_of (some p) = p.value

abbrev pub property : Text → Section → Text
property name section = value_of (find_property name section.properties)

unfoldable pub read_type_kind_string : Text → TypeKind
read_type_kind_string input =
    if same_text input (codes "class")
    then class_type_kind
    else if same_text input (codes "struct")
    then struct_type_kind
    else if same_text input (codes "union")
    then union_type_kind
    else if same_text input (codes "enum")
    then enum_type_kind
    else if same_text input (codes "array")
    then array_type_kind
    else if same_text input (codes "typedef")
    then typedef_type_kind
    else if same_text input (codes "builtin")
    then builtin_type_kind
    else unknown_type_kind

-- The end of `read_type_suppression`, by the property `type_kind` and whether a name is given
abbrev with_type_kind : Option Property → Bool → TypeSuppression → Option TypeSuppression
with_type_kind none unnamed suppr = if unnamed then none else some suppr
with_type_kind (some p) unnamed suppr =
    some (set_type_kind (read_type_kind_string p.value) (set_consider_type_kind true suppr))

unfoldable pub read_type_suppression : Section → Option TypeSuppression
read_type_suppression section =
    let label_str = property (codes "label") section in
    let name_regex_str = property (codes "name_regexp") section in
    let name_str = property (codes "name") section in
    if same_text section.name (codes "suppress_type")
    then with_type_kind (find_property (codes "type_kind") section.properties)
        (is_empty name_regex_str && is_empty name_str)
        (new_type_suppression label_str name_regex_str name_str)
    else none

-- The loop over the properties named `parameter`
unfoldable pub read_parameters : Atoi → List Property → List ParameterSpec
read_parameters atoi [] = []
read_parameters atoi (p ∷ ps) =
    let parms = read_parameters atoi ps in
    if same_text p.name (codes "parameter")
    then elim (read_parameter_spec_from_string atoi p.value) [
      | none ↦ parms
      | some parm ↦ parm ∷ parms
    ]
    else parms

abbrev is_empty_list : List ParameterSpec → Bool
is_empty_list [] = true
is_empty_list (p ∷ ps) = false

-- Whether a suppression of functions has no property at all.
unfoldable pub has_no_function_property : FunctionSuppression → Bool
has_no_function_property s =
    is_empty s.label
    && is_empty s.name
    && is_empty s.name_regex_str
    && is_empty s.return_type_name
    && is_empty s.return_type_regex_str
    && is_empty s.symbol_name
    && is_empty s.symbol_name_regex_str
    && is_empty s.symbol_version
    && is_empty s.symbol_version_regex_str
    && is_empty_list s.parameter_specs

unfoldable pub read_function_suppression : Atoi → Section → Option FunctionSuppression
read_function_suppression atoi section =
    let result : FunctionSuppression = record {
      label = property (codes "label") section;
      name = property (codes "name") section;
      name_regex_str = property (codes "name_regexp") section;
      return_type_name = property (codes "return_type_name") section;
      return_type_regex_str = property (codes "return_type_regexp") section;
      parameter_specs = read_parameters atoi section.properties;
      symbol_name = property (codes "symbol_name") section;
      symbol_name_regex_str = property (codes "symbol_name_regexp") section;
      symbol_version = property (codes "symbol_version") section;
      symbol_version_regex_str = property (codes "symbol_version_regexp") section;
    } in
    if same_text section.name (codes "suppress_function")
    then if has_no_function_property result then none else some result
    else none

unfoldable pub has_no_variable_property : VariableSuppression → Bool
has_no_variable_property s =
    is_empty s.label
    && is_empty s.name
    && is_empty s.name_regex_str
    && is_empty s.symbol_name
    && is_empty s.symbol_name_regex_str
    && is_empty s.symbol_version
    && is_empty s.symbol_version_regex_str
    && is_empty s.type_name
    && is_empty s.type_name_regex_str

unfoldable pub read_variable_suppression : Section → Option VariableSuppression
read_variable_suppression section =
    let result : VariableSuppression = record {
      label = property (codes "label") section;
      name = property (codes "name") section;
      name_regex_str = property (codes "name_regexp") section;
      symbol_name = property (codes "symbol_name") section;
      symbol_name_regex_str = property (codes "symbol_name_regexp") section;
      symbol_version = property (codes "symbol_version") section;
      symbol_version_regex_str = property (codes "symbol_version_regexp") section;
      type_name = property (codes "type_name") section;
      type_name_regex_str = property (codes "type_name_regexp") section;
    } in
    if same_text section.name (codes "suppress_variable")
    then if has_no_variable_property result then none else some result
    else none

pub data Suppression : Type 0 where
  of_types : TypeSuppression → Suppression
  of_functions : FunctionSuppression → Suppression
  of_variables : VariableSuppression → Suppression

abbrev or_variable : Option VariableSuppression → Option Suppression
or_variable none = none
or_variable (some s) = some (of_variables s)

abbrev or_function : Option FunctionSuppression → Option Suppression → Option Suppression
or_function none rest = rest
or_function (some s) rest = some (of_functions s)

abbrev or_type : Option TypeSuppression → Option Suppression → Option Suppression
or_type none rest = rest
or_type (some s) rest = some (of_types s)

-- The condition of the `if` in `read_suppressions`
unfoldable pub read_suppression : Atoi → Section → Option Suppression
read_suppression atoi section = or_type (read_type_suppression section) (
    or_function (read_function_suppression atoi section)
      (or_variable (read_variable_suppression section)))

abbrev pub push_back : Option Suppression → List Suppression → List Suppression
push_back none suppressions = suppressions
push_back (some s) suppressions = suppressions ++ s ∷ []

-- `read_suppressions`, which appends to the suppressions that are there
unfoldable pub read_suppressions : Atoi → List Section → List Suppression → List Suppression
read_suppressions atoi [] suppressions = suppressions
read_suppressions atoi (i ∷ is) suppressions =
    read_suppressions atoi is (push_back (read_suppression atoi i) suppressions)
