-- ===== src/Changes/Decls.antt =====
-- The declarations of `src/abg-ir.cc` as far as `corpus_diff` reads them, and the lookup of symbols in a
-- corpus of `src/abg-corpus.cc`.
use cyglibabigail.Base.{
  Bool, true, false, List, [], ◌∷◌, Option, none, some, if◌then◌else◌, Outcome, returned, ◌>>=◌,
  same_text,
}
use cyglibabigail.Symbols.Symbol.{Symbol, is_empty, get_id_string}
use cyglibabigail.Changes.Maps.{Text, Map, find, names_with, erase_all}
use cyglibabigail.Changes.Loops.{element_of}

-- The parts of `function_decl` and `var_decl` that the tables read: `is_static_member` is what
-- `is_member_decl` and `get_member_is_static` say of a variable.
pub record Decl : Type 0 where
  pub id : Text
  pub symbol : Option Symbol
  pub linkage_name : Text
  pub pretty_representation : Text
  pub is_static_member : Bool

-- `function_decl::get_id`, and `var_decl::get_id` in the same words. The id it keeps is the one it
-- returns, so that the next call returns the same.
unfoldable pub get_id : Decl → Text
get_id d =
    if is_empty d.id
    then elim d.symbol [
      | some s ↦ (get_id_string s).0
      | none ↦ if is_empty d.linkage_name then d.pretty_representation else d.linkage_name
    ]
    else d.id

pub record Corpus : Type 0 where
  pub functions : List Decl
  pub variables : List Decl
  pub unreferenced_function_symbols : List Symbol
  pub unreferenced_variable_symbols : List Symbol
  pub fun_symbol_map : Option (Map (List Symbol))
  pub var_symbol_map : Option (Map (List Symbol))

-- The loop over the symbols of a name
unfoldable pub with_version : Text → List Symbol → Option Symbol
with_version version [] = none
with_version version (s ∷ ss) =
    let rest = with_version version ss in
    if same_text s.version.version version then some s else rest

abbrev lookup_symbol : Option (Map (List Symbol)) → Text → Text → Option Symbol
lookup_symbol none name version = none
lookup_symbol (some m) name version = elim (find name m) [
  | none ↦ none
  | some ss ↦ with_version version ss
]

unfoldable pub lookup_function_symbol : Corpus → Text → Text → Option Symbol
lookup_function_symbol c name version = lookup_symbol c.fun_symbol_map name version

unfoldable pub lookup_variable_symbol : Corpus → Text → Text → Option Symbol
lookup_variable_symbol c name version = lookup_symbol c.var_symbol_map name version

-- A function of a corpus that looks a symbol up by name and version.
abbrev pub Lookup : Type 0
Lookup = Text → Text → Option Symbol

abbrev pub is_found : Option Symbol → Bool
is_found none = false
is_found (some s) = true

abbrev pub has : Lookup → Symbol → Bool
has look s = is_found (look s.name s.version.version)

-- Whether the symbol of a declaration is found. A declaration with no symbol, which the source reads
-- through a null pointer, aborts.
unfoldable pub symbol_is_in : Lookup → Decl → Outcome Bool
symbol_is_in look d = do s ← element_of d.symbol; returned (has look s)

-- Erase from a table what another table has whose symbol is found.
unfoldable pub without_found : Lookup → Map Decl → Map Decl → Outcome (Map Decl)
without_found look m erased = do
  to_delete ← names_with (symbol_is_in look) m
  returned (erase_all to_delete erased)
