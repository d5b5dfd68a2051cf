-- ===== src/Tests/Suppressions.antt =====
-- Runs and witnesses of the suppression specifications of `src/abg-comparison.cc`.
use cyglibabigail.Base.{
  ℕ, ◌<◌, Bool, true, false, List, [], ◌∷◌, ◌++◌, Option, none, some, ◌≡◌, ◌↔◌, refl, returned,
  aborted, codes, same_text, arith,
}
use cyglibabigail.Symbols.Symbol.{Symbol, new_symbol, func_type, global_binding}
use cyglibabigail.Ini.Sections.{Section}
use cyglibabigail.Changes.Maps.{Text}
use cyglibabigail.Suppressions.Criteria.{
  Regcomp, Met, name_misses, regex_misses, get_regex, either_misses,
}
use cyglibabigail.Suppressions.Parameters.{
  ParameterSpec, isspace, isdigit, number, number_from, skip_spaces, read_digits, read_index,
  read_slash, read_type_name, read_parameter_spec_from_string, without_spaces, All, is_no_slash,
  read_parameter_spec_from_string_lem,
}
use cyglibabigail.Suppressions.Types.{
  TypeSuppression, TypeSubject, type_suppresses, kind_misses, struct_type_kind, AsksForUnion,
  KindAsked, type_suppresses-Met,
}
use cyglibabigail.Suppressions.Functions.{
  FunctionSuppression, FunctionSubject, FunctionMet, function_suppresses, parameter_misses,
  some_parameter_misses, get_parm_at_index_from_first_non_implicit_parm,
  function_suppresses-FunctionMet,
}
use cyglibabigail.Suppressions.Variables.{
  VariableSuppression, VariableSubject, NamesMet, Suppresses, variable_suppresses,
  variable_suppresses-NamesMet,
}
use cyglibabigail.Suppressions.Reading.{
  Suppression, of_types, of_functions, of_variables, read_suppressions, has_no_function_property,
  has_no_variable_property,
}
use cyglibabigail.Suppressions.RoundTrip.{
  prop, type_section, function_section, variable_section, Texts, no_text, text, types, functions,
  variables, File, ends, spec, other, read_suppressions-File,
}

-- A regular expression without operators matches its own text.
abbrev literal : Regcomp
literal regex = some (same_text regex)

abbrev structs : TypeSuppression
structs = record {
  label = [];
  type_name_regex_str = [];
  type_name = codes "point";
  consider_type_kind = true;
  type_kind = struct_type_kind;
}

abbrev class_named : Text → Bool → TypeSubject
class_named n is_struct = record {
  name = n;
  class_decl = some is_struct;
  is_enum_type = false;
  is_array_type = false;
  is_typedef = false;
  is_type_decl = false;
}

structs_run :
    type_suppresses literal structs
      (class_named (codes "point") true)
      (class_named (codes "point") false)
    ≡ returned true
unfolding type_suppresses kind_misses either_misses name_misses
structs_run = refl

type_suppresses-Met_example :
    let ft = class_named (codes "point") true in
    let st = class_named (codes "line") true in
    ((AsksForUnion structs → type_suppresses literal structs ft st ≡ aborted)
      × (¬ AsksForUnion structs
          → (b : Bool) × (type_suppresses literal structs ft st ≡ returned b)
            × ((b ≡ true) ↔ (
                KindAsked structs ft st
                × Met literal structs.type_name structs.type_name_regex_str ft.name st.name))))
type_suppresses-Met_example =
    type_suppresses-Met literal structs (class_named (codes "point") true)
      (class_named (codes "line") true)

-- A parameter whose type has two words loses the blank between them.
parameter_run :
    read_parameter_spec_from_string number (codes "'4 unsigned char*")
    ≡ some (record { index = 4; type_name = codes "unsignedchar*"; type_name_regex_str = [] })
unfolding read_parameter_spec_from_string read_index read_digits read_slash read_type_name
    skip_spaces isspace isdigit number_from
parameter_run = refl

small_number : number (49 ∷ 50 ∷ []) < 2147483648
unfolding number_from
small_number = omega arith

read_parameter_spec_from_string_lem_example :
    ((c : ℕ) (cs : Text)
      → isspace c ≡ false
      → is_no_slash c ≡ true
      → read_parameter_spec_from_string number (39 ∷ (49 ∷ 50 ∷ []) ++ 32 ∷ c ∷ cs)
        ≡ some (record {
          index = number (49 ∷ 50 ∷ []);
          type_name = without_spaces (c ∷ cs);
          type_name_regex_str = [];
        }))
    × ((re after : Text)
        → All is_no_slash re
        → read_parameter_spec_from_string number
            (39 ∷ (49 ∷ 50 ∷ []) ++ 32 ∷ 47 ∷ (re ++ 47 ∷ after))
          ≡ some (record {
            index = number (49 ∷ 50 ∷ []);
            type_name = [];
            type_name_regex_str = without_spaces re;
          }))
unfolding isdigit
read_parameter_spec_from_string_lem_example =
    read_parameter_spec_from_string_lem number (λ s digits small. refl) 49 (50 ∷ [])
      (refl, (refl, tt)) small_number

abbrev first_parameter : ParameterSpec
first_parameter = record { index = 0; type_name = codes "int"; type_name_regex_str = [] }

abbrev versioned : Text → FunctionSuppression
versioned version = record {
  label = [];
  name = codes "open";
  name_regex_str = [];
  return_type_name = [];
  return_type_regex_str = [];
  parameter_specs = first_parameter ∷ [];
  symbol_name = [];
  symbol_name_regex_str = [];
  symbol_version = version;
  symbol_version_regex_str = [];
}

symbol_with : Text → Text → Symbol
unfolding new_symbol
symbol_with n v =
    new_symbol 1 0 n func_type global_binding true (record { version = v; is_default = true })

abbrev function_with : Text → FunctionSubject
function_with v = record {
  qualified_name = codes "open";
  return_type_name = none;
  symbol = some (symbol_with (codes "open_impl") v);
  is_method = true;
  parameter_type_names = codes "file*" ∷ codes "int" ∷ [];
}

-- The version of the second symbol does not count, and its name does.
version_run :
    (function_suppresses literal
        (versioned (codes "V2"))
        (function_with (codes "V1"))
        (function_with (codes "V2"))
      ≡ false)
    × (function_suppresses literal
          (versioned (codes "V2"))
          (function_with (codes "V2"))
          (function_with (codes "V1"))
        ≡ true)
    × (function_suppresses literal
          (versioned (codes "open_impl"))
          (function_with (codes "V1"))
          (function_with (codes "V2"))
        ≡ true)
unfolding function_suppresses name_misses regex_misses get_regex either_misses parameter_misses
    some_parameter_misses get_parm_at_index_from_first_non_implicit_parm symbol_with new_symbol
version_run = (refl, refl, refl)

function_suppresses-FunctionMet_example :
    (function_suppresses literal
        (versioned (codes "V1"))
        (function_with (codes "V1"))
        (function_with (codes "V2"))
      ≡ true)
    ↔ FunctionMet literal
        (function_with (codes "V1"))
        (function_with (codes "V2"))
        (versioned (codes "V1"))
function_suppresses-FunctionMet_example =
    function_suppresses-FunctionMet literal (function_with (codes "V1"))
      (function_with (codes "V2")) (versioned (codes "V1"))

abbrev counters : VariableSuppression
counters = record {
  label = codes "counters";
  name = [];
  name_regex_str = codes "counter";
  symbol_name = [];
  symbol_name_regex_str = [];
  symbol_version = [];
  symbol_version_regex_str = [];
  type_name = [];
  type_name_regex_str = [];
}

abbrev counter : Option Symbol → VariableSubject
counter s = record { name = codes "counter"; symbol = s; type_name = codes "int" }

variable_suppresses-NamesMet_example :
    let fv = counter none in
    let sv = counter (some (symbol_with (codes "counter") [])) in
    ((sv.symbol ≡ none → Suppresses literal counters fv sv [])
      × ((f t : Symbol)
          → fv.symbol ≡ some f
          → sv.symbol ≡ some t
          → Suppresses literal counters fv sv f.version.version)
      × ((t : Symbol)
          → fv.symbol ≡ none
          → sv.symbol ≡ some t
          → NamesMet literal counters fv sv
          → variable_suppresses literal counters fv sv ≡ aborted))
variable_suppresses-NamesMet_example =
    variable_suppresses-NamesMet literal counters (counter none)
      (counter (some (symbol_with (codes "counter") [])))

abbrev unrelated : Section
unrelated = record { name = codes "options"; properties = prop (codes "label") (codes "x") ∷ [] }

abbrev parameter_text : Text
parameter_text = codes "'0 int"

abbrev sections : List Section
sections =
    type_section structs
    ∷ unrelated
    ∷ function_section (versioned (codes "V1")) (parameter_text ∷ [])
    ∷ variable_section counters
    ∷ []

abbrev suppressions : List Suppression
suppressions = of_types structs ∷ of_functions (versioned (codes "V1")) ∷ of_variables counters ∷ []

parameter_Texts : Texts number (parameter_text ∷ []) (first_parameter ∷ [])
unfolding read_parameter_spec_from_string read_index read_digits read_slash read_type_name
    skip_spaces isspace isdigit number_from
parameter_Texts = text refl no_text

sections-File : File number sections suppressions
unfolding has_no_function_property has_no_variable_property
sections-File = spec (types structs (λ h. cc h)) (
    other refl refl refl (
      spec (functions (versioned (codes "V1")) (parameter_text ∷ []) parameter_Texts refl)
        (spec (variables counters refl) ends)))

read_suppressions-File_example : read_suppressions number sections [] ≡ [] ++ suppressions
read_suppressions-File_example = read_suppressions-File number sections-File []
