-- ===== src/Exports/Builder.antt =====
-- `corpus::exported_decls_builder` of `src/abg-corpus.cc`, which chooses the functions and variables of
-- a corpus. It treats both in the same words; here a set of declarations is built of either.
use cyglibabigail.Base.{
  Bool, true, false, not, ◌&&◌, ◌||◌, List, [], ◌∷◌, ◌++◌, Option, none, some, if◌then◌else◌,
  same_text, Outcome, returned, ◌>>=◌,
}
use cyglibabigail.Symbols.Symbol.{Symbol, is_empty}
use cyglibabigail.Symbols.Ids.{get_name_and_version_from_id}
use cyglibabigail.Changes.Maps.{Text, Map, find, put}
use cyglibabigail.Changes.Loops.{assert_true}
use cyglibabigail.Changes.Decls.{Decl, get_id}
use cyglibabigail.Suppressions.Criteria.{Regcomp}

-- What is asked of a declaration that may be exported.
pub record Candidate : Type 0 where
  pub decl : Decl
  pub qualified_name : Text
  pub is_in_public_symbol_table : Bool

-- The functions of `exported_decls_builder::priv` and the options on functions, or those on variables
pub record Builder : Type 0 where
  pub decls : List Decl
  pub decls_map : Map Decl
  pub suppress_regexps : List Text
  pub keep_regexps : List Text
  pub sym_ids_to_keep : List Text

-- The regular expressions that compile
unfoldable pub compiled : Regcomp → List Text → List (Text → Bool)
compiled regcomp [] = []
compiled regcomp (i ∷ is) =
    let rest = compiled regcomp is in elim (regcomp i) [ none ↦ rest | some r ↦ r ∷ rest ]

unfoldable pub some_matches : List (Text → Bool) → Text → Bool
some_matches [] frep = false
some_matches (r ∷ rs) frep = let rest = some_matches rs frep in if r frep then true else rest

abbrev pub has_none : {A : Type 0} → List A → Bool
has_none [] = true
has_none (x ∷ xs) = false

unfoldable pub keep_wrt_regex_to_suppress : List (Text → Bool) → Text → Bool
keep_wrt_regex_to_suppress rs frep = not (some_matches rs frep)

unfoldable pub keep_wrt_regex_to_keep : List (Text → Bool) → Text → Bool
keep_wrt_regex_to_keep rs frep = has_none rs || some_matches rs frep

-- The loop over the ids. An id without version leaves `sym_version` as the ids before set it.
unfoldable pub id_is_listed : List Text → Symbol → Text → Bool
id_is_listed [] s sym_version = false
id_is_listed (i ∷ is) s sym_version =
    let (sym_name, version) = get_name_and_version_from_id i sym_version in
    let rest = id_is_listed is s version in
    if same_text sym_name s.name && same_text version s.version.version then true else rest

unfoldable pub keep_wrt_id : List Text → Option Symbol → Bool
keep_wrt_id ids none = false
keep_wrt_id ids (some s) = has_none ids || id_is_listed ids s []

abbrev pub is_in_map : Option Decl → Bool
is_in_map none = false
is_in_map (some d) = true

unfoldable pub add_to_exported : Decl → Builder → Builder
add_to_exported d b =
    if is_in_map (find (get_id d) b.decls_map)
    then b
    else record b { decls = b.decls ++ d ∷ []; decls_map = put (get_id d) d b.decls_map }

module _ (regcomp : Regcomp) where
  unfoldable pub is_kept : Decl → Text → Builder → Bool
  is_kept d qualified_name b =
      keep_wrt_id b.sym_ids_to_keep d.symbol
      && (keep_wrt_regex_to_suppress (compiled regcomp b.suppress_regexps) qualified_name
          && keep_wrt_regex_to_keep (compiled regcomp b.keep_regexps) qualified_name)

  -- `maybe_add_fn_to_exported_fns`
  unfoldable pub maybe_add_to_exported : Candidate → Builder → Outcome Builder
  maybe_add_to_exported c b = if not c.is_in_public_symbol_table then returned b else (do
    _ ← assert_true (not (is_empty (get_id c.decl)))
    returned (
        if is_in_map (find (get_id c.decl) b.decls_map)
        then b
        else if is_kept c.decl c.qualified_name b
        then add_to_exported c.decl b
        else b))
