-- ===== src/Changes/Corpus.antt =====
-- `corpus_diff` of `src/abg-comparison.cc`, and what it asks of `src/abg-corpus.cc` and of the
-- declarations of `src/abg-ir.cc`: the lookup tables of the functions, variables and symbols of two
-- corpora.
use cyglibabigail.Base.{
  ℕ, Bool, not, ◌&&◌, List, [], Option, none, some, if◌then◌else◌, ℤ, Outcome, returned, ◌>>=◌,
  length, get_elem?,
}
use cyglibabigail.Symbols.Symbol.{Symbol, is_empty, same_symbol, get_id_string}
use cyglibabigail.EditScripts.Scripts.{EditScript, empty_script}
use cyglibabigail.EditScripts.Compute.{compute_diff}
use cyglibabigail.Changes.Maps.{Text, Map, find, put, erase}
use cyglibabigail.Changes.Loops.{element_of, assert_none, assert_true, for_each, for_each_inserted}
use cyglibabigail.Changes.Tables.{
  Tables, empty_tables, is_empty_map, to_unsigned, add_deleted, add_inserted,
}
use cyglibabigail.Changes.Agreement.{same_at}
use cyglibabigail.Changes.Decls.{
  Corpus, Decl, Lookup, get_id, has, lookup_function_symbol, lookup_variable_symbol, without_found,
}

-- The body of the loop over the deletions, of functions and of variables.
unfoldable pub delete_decl : List Decl → ℤ → Tables Decl → Outcome (Tables Decl)
delete_decl xs d t = do
  fn ← element_of (get_elem? xs (to_unsigned d))
  _ ← assert_true (not (is_empty (get_id fn)))
  _ ← assert_none (find (get_id fn) t.deleted)
  returned (add_deleted get_id fn t)

module _ (same : Decl → Decl → Bool) where
  unfoldable pub insert_function : List Decl → ℕ → Tables Decl → Outcome (Tables Decl)
  insert_function ys i t = do
    fn ← element_of (get_elem? ys i)
    _ ← assert_true (not (is_empty (get_id fn)))
    _ ← assert_none (find (get_id fn) t.inserted)
    returned (add_inserted get_id same fn t)

  abbrev add_variable : Option Decl → Decl → Tables Decl → Outcome (Tables Decl)
  add_variable none v t = returned (add_inserted get_id same v t)
  add_variable (some k) v t = do _ ← assert_true k.is_static_member; returned t

  -- A variable that is there already is passed over; it is to be a static member.
  unfoldable pub insert_variable : List Decl → ℕ → Tables Decl → Outcome (Tables Decl)
  insert_variable ys i t = do
    v ← element_of (get_elem? ys i)
    _ ← assert_true (not (is_empty (get_id v)))
    add_variable (find (get_id v) t.inserted) v t

  -- The block of `ensure_lookup_tables_populated` on functions, from their tables
  unfoldable pub populate_functions :
      Corpus → Corpus → EditScript → Tables Decl → Outcome (Tables Decl)
  populate_functions first second e t = do
    t ←
        for_each (delete_decl first.functions) e.deletions t
        >>= (λ u. for_each_inserted (insert_function second.functions) e.insertions u)
    deleted ← without_found (lookup_function_symbol second) t.deleted t.deleted
    inserted ← without_found (lookup_function_symbol first) t.inserted t.inserted
    returned (record t { deleted = deleted; inserted = inserted })

  -- The block on variables, from their tables and the deleted functions, from which it erases the names
  -- of deleted variables.
  unfoldable pub populate_variables :
      Corpus → Corpus → EditScript → Tables Decl → Map Decl → Outcome (Tables Decl × Map Decl)
  populate_variables first second e t deleted_fns = do
    t ←
        for_each (delete_decl first.variables) e.deletions t
        >>= (λ u. for_each_inserted (insert_variable second.variables) e.insertions u)
    deleted_fns ← without_found (lookup_variable_symbol second) t.deleted deleted_fns
    inserted ← without_found (lookup_variable_symbol first) t.inserted t.inserted
    returned (record t { inserted = inserted }, deleted_fns)

abbrev pub symbol_id : Symbol → Text
symbol_id s = (get_id_string s).0

abbrev pub drop_symbol : Lookup → Symbol → Tables Symbol → Tables Symbol
drop_symbol second s t =
    if has second s then t else record t { deleted = put (symbol_id s) s t.deleted }

unfoldable pub delete_symbol : Lookup → List Symbol → ℤ → Tables Symbol → Outcome (Tables Symbol)
delete_symbol second xs d t = do
  s ← element_of (get_elem? xs (to_unsigned d))
  returned (drop_symbol second s t)

abbrev pub settle_symbol : Lookup → Option Symbol → Symbol → Tables Symbol → Tables Symbol
settle_symbol first none s t =
    if has first s then t else record t { inserted = put (symbol_id s) s t.inserted }
settle_symbol first (some old) s t = record t { deleted = erase (symbol_id s) t.deleted }

unfoldable pub insert_symbol : Lookup → List Symbol → ℕ → Tables Symbol → Outcome (Tables Symbol)
insert_symbol first ys i t = do
  s ← element_of (get_elem? ys i)
  returned (settle_symbol first (find (symbol_id s) t.deleted) s t)

-- A block on the symbols that no debug info refers to
unfoldable pub populate_symbols :
    Lookup
    → Lookup
    → List Symbol
    → List Symbol
    → EditScript
    → Tables Symbol
    → Outcome (Tables Symbol)
populate_symbols first second xs ys e t =
    for_each (delete_symbol second xs) e.deletions t
    >>= (λ u. for_each_inserted (insert_symbol first ys) e.insertions u)

-- The tables and scripts of `corpus_diff::priv`. The tables of symbols have no changes.
pub record CorpusDiff : Type 0 where
  pub fns_edit_script : EditScript
  pub vars_edit_script : EditScript
  pub unrefed_fn_syms_edit_script : EditScript
  pub unrefed_var_syms_edit_script : EditScript
  pub fns : Tables Decl
  pub vars : Tables Decl
  pub unrefed_fn_syms : Tables Symbol
  pub unrefed_var_syms : Tables Symbol

unfoldable pub corpus_tables_empty : CorpusDiff → Bool
corpus_tables_empty d =
    is_empty_map d.fns.deleted
    && is_empty_map d.fns.inserted
    && is_empty_map d.fns.changed
    && is_empty_map d.vars.deleted
    && is_empty_map d.vars.inserted
    && is_empty_map d.vars.changed

unfoldable pub clear_corpus_tables : CorpusDiff → CorpusDiff
clear_corpus_tables d = record d { fns = empty_tables; vars = empty_tables }

-- The script between two sequences, with a bound on the recursion
unfoldable pub script_of : {A : Type 0} → ℕ → (A → A → Bool) → List A → List A → Outcome EditScript
script_of n same xs ys = do
  d ← compute_diff (same_at same xs ys) n 0 (length xs) 0 (length ys) [] empty_script
  returned d.ses

-- `same_function` and `same_variable` are the deep equality of the declarations.
module _ (same_function same_variable : Decl → Decl → Bool) (first second : Corpus) where
  unfoldable pub ensure_corpus_tables_populated : CorpusDiff → Outcome CorpusDiff
  ensure_corpus_tables_populated d =
      if corpus_tables_empty d
      then (do
        fns ← populate_functions same_function first second d.fns_edit_script d.fns
        vars ← populate_variables same_variable first second d.vars_edit_script d.vars fns.deleted
        unrefed_fn_syms ←
            populate_symbols (lookup_function_symbol first) (lookup_function_symbol second)
              first.unreferenced_function_symbols second.unreferenced_function_symbols
              d.unrefed_fn_syms_edit_script d.unrefed_fn_syms
        unrefed_var_syms ←
            populate_symbols (lookup_variable_symbol first) (lookup_variable_symbol second)
              first.unreferenced_variable_symbols second.unreferenced_variable_symbols
              d.unrefed_var_syms_edit_script d.unrefed_var_syms
        returned (record d {
          fns = record fns { deleted = vars.1 };
          vars = vars.0;
          unrefed_fn_syms = unrefed_fn_syms;
          unrefed_var_syms = unrefed_var_syms;
        }))
      else returned d

  -- `compute_diff` of two corpora
  unfoldable pub compute_corpus_diff : ℕ → Outcome CorpusDiff
  compute_corpus_diff n = do
    f ← script_of n same_function first.functions second.functions
    v ← script_of n same_variable first.variables second.variables
    fs ←
        script_of n same_symbol first.unreferenced_function_symbols
          second.unreferenced_function_symbols
    vs ←
        script_of n same_symbol first.unreferenced_variable_symbols
          second.unreferenced_variable_symbols
    ensure_corpus_tables_populated (record {
      fns_edit_script = f;
      vars_edit_script = v;
      unrefed_fn_syms_edit_script = fs;
      unrefed_var_syms_edit_script = vs;
      fns = empty_tables;
      vars = empty_tables;
      unrefed_fn_syms = empty_tables;
      unrefed_var_syms = empty_tables;
    })
