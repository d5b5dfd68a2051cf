-- ===== src/Tests/Changes.antt =====
-- Runs and witnesses of the lookup tables of `src/abg-comparison.cc`.
use cyglibabigail.Base.{
  ℕ, Bool, true, false, ◌&&◌, List, [], ◌∷◌, Option, none, some, ◌≡◌, refl, Outcome, returned,
  codes, ◌+ℤ◌, ◌-ℤ◌, sub_ℕ, same_text, same_text-eq, Bool-cases, inl, inr, arith,
}
use cyglibabigail.Symbols.Symbol.{
  Symbol, new_symbol, make_id, get_id_string, same_symbol, is_public, func_type, global_binding,
}
use cyglibabigail.EditScripts.Points.{
  add, snake_is_empty, add_to_snake, snake_end_points, ends_of_furthest_d_paths_overlap,
}
use cyglibabigail.EditScripts.Scripts.{append, count_inserted}
use cyglibabigail.EditScripts.Paths.{
  fr_snake, frr_snake, follow_forward, follow_backward, goes_down, goes_left, end_of_fr_d_path_in_k,
  end_of_frr_d_path_in_k_plus_delta,
}
use cyglibabigail.EditScripts.Snakes.{
  forward_overlap, forward_paths, reverse_overlap, reverse_paths, middle_snake_loop,
  compute_middle_snake,
}
use cyglibabigail.EditScripts.Compute.{
  diff_with_empty, trace_points, trace_of, single_edit, join_diffs, split_diff, diff_with_snake,
  diff_of_sizes, compute_diff,
}
use cyglibabigail.Changes.Maps.{Text, Map, find, put, erase, names_with, erase_all}
use cyglibabigail.Changes.Loops.{named, AreDistinct}
use cyglibabigail.Changes.Tables.{Tables, view, to_unsigned, add_inserted}
use cyglibabigail.Changes.Populated.{difference}
use cyglibabigail.Changes.Enums.{
  Enumerator, enumerator_name, same_enumerator, compute_enum_diff, compute_enum_diff-difference,
  ensure_lookup_tables_populated, lookup_tables_empty, delete_enumerator, insert_enumerator,
}
use cyglibabigail.Changes.Decls.{
  Decl, Corpus, get_id, symbol_is_in, without_found, lookup_function_symbol, lookup_variable_symbol,
  with_version,
}
use cyglibabigail.Changes.Corpus.{
  CorpusDiff, compute_corpus_diff, ensure_corpus_tables_populated, corpus_tables_empty, script_of,
  populate_functions, populate_variables, populate_symbols, delete_decl, insert_function,
  insert_variable, delete_symbol, insert_symbol,
}
use cyglibabigail.Changes.CorpusLaws.{functions_view, variables_view}
use cyglibabigail.Changes.Reports.{
  AreComparable, PathOf, SidedOf, beside_variables, compute_corpus_diff_lem,
  compute_corpus_diff-Sided,
}

abbrev enumerator : Text → ℕ → Enumerator
enumerator n v = record { name = n; value = v }

-- red is deleted, green changes its value, blue is moved, and black is new.
abbrev old_colors : List Enumerator
old_colors =
    enumerator (codes "red") 0 ∷ enumerator (codes "green") 1 ∷ enumerator (codes "blue") 2 ∷ []

abbrev new_colors : List Enumerator
new_colors =
    enumerator (codes "blue") 2 ∷ enumerator (codes "green") 5 ∷ enumerator (codes "black") 6 ∷ []

abbrev keys : {A : Type 0} → Map A → List Text
keys [] = []
keys (e ∷ m) = e.key ∷ keys m

abbrev tables_of : {E : Type 0} → Tables E → List Text × List Text × List Text
tables_of t = (keys t.deleted, keys t.inserted, keys t.changed)

abbrev colors_of : Outcome (Tables Enumerator) → Option (List Text × List Text × List Text)
colors_of (returned t) = some (tables_of t)
colors_of _ = none

colors_run :
    colors_of (compute_enum_diff 7 old_colors new_colors)
    ≡ some (codes "red" ∷ [], codes "black" ∷ [], codes "green" ∷ [])
unfolding compute_enum_diff ensure_lookup_tables_populated lookup_tables_empty delete_enumerator
    insert_enumerator to_unsigned find put erase add_inserted same_enumerator add snake_is_empty
    add_to_snake snake_end_points ends_of_furthest_d_paths_overlap append count_inserted fr_snake
    frr_snake follow_forward follow_backward goes_down goes_left end_of_fr_d_path_in_k
    end_of_frr_d_path_in_k_plus_delta forward_overlap forward_paths reverse_overlap reverse_paths
    middle_snake_loop compute_middle_snake diff_with_empty trace_points trace_of single_edit
    join_diffs split_diff diff_with_snake diff_of_sizes compute_diff sub_ℕ ◌+ℤ◌ ◌-ℤ◌
colors_run = refl

compute_enum_diff-difference_example :
    (t : Tables Enumerator) × (compute_enum_diff 7 old_colors new_colors ≡ returned t)
    × ((k : Text)
        → view k t
          ≡ difference same_enumerator
              (named enumerator_name k old_colors)
              (named enumerator_name k new_colors))
unfolding AreDistinct named
compute_enum_diff-difference_example =
    compute_enum_diff-difference 7 old_colors new_colors (refl, (refl, (refl, tt)))
      (refl, (refl, (refl, tt))) (omega arith) (omega arith)

unfoldable pub symbol : Text → Symbol
unfolding new_symbol
symbol n =
    new_symbol 1 0 n func_type global_binding true (record { version = []; is_default = false })

abbrev pub decl : Text → Text → Decl
decl n representation = record {
  id = [];
  symbol = some (symbol n);
  linkage_name = n;
  pretty_representation = representation;
  is_static_member = false;
}

abbrev pub old_open : Decl
old_open = decl (codes "open") (codes "int open(char*)")

abbrev old_close : Decl
old_close = decl (codes "close") (codes "int close(int)")

abbrev pub new_open : Decl
new_open = decl (codes "open") (codes "int open(char*, int)")

abbrev new_read : Decl
new_read = decl (codes "read") (codes "int read(int)")

abbrev errno : Decl
errno = decl (codes "errno") (codes "int errno")

abbrev symbol_map : List Text → Map (List Symbol)
symbol_map [] = []
symbol_map (n ∷ ns) = record { key = n; value = symbol n ∷ [] } ∷ symbol_map ns

-- The variable errno is gone from the debug info of the second corpus, not from its symbols.
abbrev old_corpus : Corpus
old_corpus = record {
  functions = old_open ∷ old_close ∷ [];
  variables = errno ∷ [];
  unreferenced_function_symbols = symbol (codes "old") ∷ [];
  unreferenced_variable_symbols = [];
  fun_symbol_map = some (symbol_map (codes "open" ∷ codes "close" ∷ codes "old" ∷ []));
  var_symbol_map = some (symbol_map (codes "errno" ∷ []));
}

abbrev new_corpus : Corpus
new_corpus = record {
  functions = new_open ∷ new_read ∷ [];
  variables = [];
  unreferenced_function_symbols = symbol (codes "new") ∷ [];
  unreferenced_variable_symbols = symbol (codes "errno") ∷ [];
  fun_symbol_map = some (symbol_map (codes "open" ∷ codes "read" ∷ codes "new" ∷ []));
  var_symbol_map = some (symbol_map (codes "errno" ∷ []));
}

abbrev same_decl : Decl → Decl → Bool
same_decl a b =
    same_text (get_id a) (get_id b) && same_text a.pretty_representation b.pretty_representation

abbrev corpus_run_of : Outcome CorpusDiff → Option (List (List Text × List Text × List Text))
corpus_run_of (returned d) = some (
    tables_of d.fns
    ∷ tables_of d.vars
    ∷ tables_of d.unrefed_fn_syms
    ∷ tables_of d.unrefed_var_syms
    ∷ [])
corpus_run_of _ = none

corpus_run :
    corpus_run_of (compute_corpus_diff same_decl same_decl old_corpus new_corpus 5)
    ≡ some (
        (codes "close" ∷ [], codes "read" ∷ [], codes "open" ∷ [])
        ∷ (codes "errno" ∷ [], [], [])
        ∷ (codes "old" ∷ [], codes "new" ∷ [], [])
        ∷ ([], [], [])
        ∷ [])
unfolding compute_corpus_diff ensure_corpus_tables_populated corpus_tables_empty script_of
    populate_functions populate_variables populate_symbols delete_decl insert_function
    insert_variable delete_symbol insert_symbol without_found names_with erase_all symbol_is_in
    get_id make_id get_id_string symbol new_symbol same_symbol is_public lookup_function_symbol
    lookup_variable_symbol with_version to_unsigned find put erase add_inserted add snake_is_empty
    add_to_snake snake_end_points ends_of_furthest_d_paths_overlap append count_inserted fr_snake
    frr_snake follow_forward follow_backward goes_down goes_left end_of_fr_d_path_in_k
    end_of_frr_d_path_in_k_plus_delta forward_overlap forward_paths reverse_overlap reverse_paths
    middle_snake_loop compute_middle_snake diff_with_empty trace_points trace_of single_edit
    join_diffs split_diff diff_with_snake diff_of_sizes compute_diff sub_ℕ ◌+ℤ◌ ◌-ℤ◌
corpus_run = refl

same_decl_id : (a b : Decl) → same_decl a b ≡ true → get_id a ≡ get_id b
same_decl_id a b h = elim (Bool-cases (same_text (get_id a) (get_id b))) [
  | inl here ↦ same_text-eq (get_id a) (get_id b) here
  | inr there ↦ absurd (cc (h, there))
]

old_new_AreComparable : AreComparable 5 old_corpus new_corpus
unfolding AreDistinct named get_id make_id get_id_string symbol new_symbol
old_new_AreComparable = record {
  functions = record {
    symbols = ((symbol (codes "open"), refl), ((symbol (codes "close"), refl), tt));
    ids = (refl, (refl, tt));
    distinct = (refl, (refl, tt));
  };
  new_functions = record {
    symbols = ((symbol (codes "open"), refl), ((symbol (codes "read"), refl), tt));
    ids = (refl, (refl, tt));
    distinct = (refl, (refl, tt));
  };
  variables = record {
    symbols = ((symbol (codes "errno"), refl), tt);
    ids = (refl, tt);
    distinct = (refl, tt);
  };
  new_variables = record { symbols = tt; ids = tt; distinct = tt };
  few_functions = omega arith;
  few_variables = omega arith;
  few_function_symbols = omega arith;
  few_variable_symbols = omega arith;
  deep_functions = omega arith;
  deep_variables = omega arith;
  deep_function_symbols = omega arith;
  deep_variable_symbols = omega arith;
}

compute_corpus_diff_lem_example :
    (d : CorpusDiff) × (compute_corpus_diff same_decl same_decl old_corpus new_corpus 5
      ≡ returned d)
    × ((k : Text)
        → view k d.fns
          ≡ beside_variables new_corpus
              (named get_id k old_corpus.variables)
              (named get_id k new_corpus.variables)
              (functions_view same_decl old_corpus new_corpus
                (named get_id k old_corpus.functions)
                (named get_id k new_corpus.functions)))
    × ((k : Text)
        → view k d.vars
          ≡ variables_view same_decl old_corpus
              (named get_id k old_corpus.variables)
              (named get_id k new_corpus.variables))
compute_corpus_diff_lem_example =
    compute_corpus_diff_lem same_decl same_decl old_corpus new_corpus 5
      (λ i j a b _ _ e. same_decl_id a b e) (λ i j a b _ _ e. same_decl_id a b e)
      old_new_AreComparable

compute_corpus_diff-Sided_example :
    (d : CorpusDiff) × (compute_corpus_diff same_decl same_decl old_corpus new_corpus 5
      ≡ returned d)
    × PathOf same_decl old_corpus.functions new_corpus.functions d.fns_edit_script
    × PathOf same_decl old_corpus.variables new_corpus.variables d.vars_edit_script
    × (f : SidedOf old_corpus.functions new_corpus.functions d.fns_edit_script) × (v : SidedOf
        old_corpus.variables new_corpus.variables d.vars_edit_script)
    × ((k : Text)
        → view k d.fns
          ≡ beside_variables new_corpus (named get_id k v.deleted) (named get_id k v.inserted) (
              functions_view same_decl old_corpus new_corpus
                (named get_id k f.deleted)
                (named get_id k f.inserted)))
    × ((k : Text)
        → view k d.vars
          ≡ variables_view same_decl old_corpus
              (named get_id k v.deleted)
              (named get_id k v.inserted))
compute_corpus_diff-Sided_example =
    compute_corpus_diff-Sided same_decl same_decl old_corpus new_corpus 5 old_new_AreComparable
