-- ===== src/Changes/Reports.antt =====
-- `compute_diff` of two corpora, of `src/abg-comparison.cc`: all blocks together.
use cyglibabigail.Base.{
  ℕ, ◌+◌, ◌<◌, ◌≤◌, Bool, List, Option, none, if◌then◌else◌, ◌≡◌, refl, ap, ◌∙◌, length, returned,
}
use cyglibabigail.Symbols.Symbol.{same_symbol}
use cyglibabigail.EditScripts.Scripts.{EditScript}
use cyglibabigail.EditScripts.Edits.{Edits, all_inserted}
use cyglibabigail.Changes.Maps.{Text}
use cyglibabigail.Changes.Loops.{named}
use cyglibabigail.Changes.Tables.{View, view}
use cyglibabigail.Changes.Agreement.{same_at, Sided, sided}
use cyglibabigail.Changes.Paths.{NamedAlike, Edits-Edited, Edits-Sided}
use cyglibabigail.Changes.Populated.{gone, agreed_difference}
use cyglibabigail.Changes.Decls.{
  Decl, Corpus, get_id, lookup_variable_symbol, lookup_function_symbol,
}
use cyglibabigail.Changes.Corpus.{
  CorpusDiff, corpus_tables_empty, ensure_corpus_tables_populated, compute_corpus_diff,
}
use cyglibabigail.Changes.Pruned.{is_kept}
use cyglibabigail.Changes.CorpusLaws.{
  AreExported, functions_view, variables_view, populate_functions_lem, populate_variables_lem,
  functions_view_of, variables_view_of,
}
use cyglibabigail.Changes.SymbolTables.{script_of_lem, populate_symbols_returns}

-- The functions, variables and symbols of both corpora are few enough for the indexes and for the
-- recursion, and those with a declaration are exported.
pub record AreComparable (n : ℕ) (first second : Corpus) : Type 0 where
  pub functions : AreExported first.functions
  pub new_functions : AreExported second.functions
  pub variables : AreExported first.variables
  pub new_variables : AreExported second.variables
  pub few_functions : length first.functions ≤ 4294967296
  pub few_variables : length first.variables ≤ 4294967296
  pub few_function_symbols : length first.unreferenced_function_symbols ≤ 4294967296
  pub few_variable_symbols : length first.unreferenced_variable_symbols ≤ 4294967296
  pub deep_functions : length first.functions + length second.functions < n
  pub deep_variables : length first.variables + length second.variables < n
  pub deep_function_symbols :
      length first.unreferenced_function_symbols + length second.unreferenced_function_symbols < n
  pub deep_variable_symbols :
      length first.unreferenced_variable_symbols + length second.unreferenced_variable_symbols < n

-- What the variables with an id leave of what the table of functions has for it.
abbrev pub beside_variables : Corpus → Option Decl → Option Decl → View Decl → View Decl
beside_variables second v w view = record view {
  deleted = if is_kept (lookup_variable_symbol second) (gone v w) then none else view.deleted;
}

beside_variables_of :
    (second : Corpus) (q r o p : Option Decl) (v w : View Decl)
    → gone q r ≡ gone o p
    → v ≡ w
    → beside_variables second q r v ≡ beside_variables second o p w
beside_variables_of second q r o p v w h e = rw (h, e) refl

-- The script is one of a path through both sequences, which keeps only pairs that are equal.
abbrev pub PathOf : (Decl → Decl → Bool) → List Decl → List Decl → EditScript → Type 0
PathOf same xs ys ses =
    Edits (same_at same xs ys) 0 0 (length xs) (length ys) (all_inserted ses.insertions)
      ses.deletions

-- The declarations that it deletes and inserts
abbrev pub SidedOf : List Decl → List Decl → EditScript → Type 0
SidedOf xs ys ses = Sided get_id xs ys 0 0 (all_inserted ses.insertions) ses.deletions

module _ (same_function same_variable : Decl → Decl → Bool) (first second : Corpus) where
  abbrev FunctionPath : EditScript → Type 0
  FunctionPath = PathOf same_function first.functions second.functions

  abbrev VariablePath : EditScript → Type 0
  VariablePath = PathOf same_variable first.variables second.variables

  abbrev FunctionSides : EditScript → Type 0
  FunctionSides = SidedOf first.functions second.functions

  abbrev VariableSides : EditScript → Type 0
  VariableSides = SidedOf first.variables second.variables

  -- The tables by what the scripts edit, however that is found of their paths.
  compute_corpus_diff_from :
      (n : ℕ)
      → AreComparable n first second
      → (side_f : (ses : EditScript) → FunctionPath ses → FunctionSides ses)
        (side_v : (ses : EditScript) → VariablePath ses → VariableSides ses)
      → (d : CorpusDiff) × (compute_corpus_diff same_function same_variable first second n
          ≡ returned d)
        × (p : FunctionPath d.fns_edit_script) × (q : VariablePath d.vars_edit_script) × ((k : Text)
            → view k d.fns
              ≡ beside_variables second
                  (named get_id k (side_v d.vars_edit_script q).deleted)
                  (named get_id k (side_v d.vars_edit_script q).inserted)
                  (functions_view same_function first second
                    (named get_id k (side_f d.fns_edit_script p).deleted)
                    (named get_id k (side_f d.fns_edit_script p).inserted)))
        × ((k : Text)
            → view k d.vars
              ≡ variables_view same_variable first
                  (named get_id k (side_v d.vars_edit_script q).deleted)
                  (named get_id k (side_v d.vars_edit_script q).inserted))
  unfolding compute_corpus_diff ensure_corpus_tables_populated corpus_tables_empty view
  compute_corpus_diff_from n c side_f side_v =
      let (f, made_f, path_f) =
        script_of_lem n same_function first.functions second.functions c.deep_functions in
      let (v, made_v, path_v) =
        script_of_lem n same_variable first.variables second.variables c.deep_variables in
      let (fs, made_fs, path_fs) =
        script_of_lem n same_symbol first.unreferenced_function_symbols
          second.unreferenced_function_symbols c.deep_function_symbols in
      let (vs, made_vs, path_vs) =
        script_of_lem n same_symbol first.unreferenced_variable_symbols
          second.unreferenced_variable_symbols c.deep_variable_symbols in
      let sides_f = side_f f path_f in
      let sides_v = side_v v path_v in
      let (fns, returns, at_f) =
        populate_functions_lem same_function first second c.functions c.new_functions f sides_f in
      let (vars, left, returns', at_v, at_left) =
        populate_variables_lem same_variable first second c.variables c.new_variables v fns.deleted
          sides_v in
      let (fn_syms, returns_fs) =
        populate_symbols_returns (lookup_function_symbol first) (lookup_function_symbol second)
          first.unreferenced_function_symbols second.unreferenced_function_symbols
          c.few_function_symbols fs path_fs in
      let (var_syms, returns_vs) =
        populate_symbols_returns (lookup_variable_symbol first) (lookup_variable_symbol second)
          first.unreferenced_variable_symbols second.unreferenced_variable_symbols
          c.few_variable_symbols vs path_vs in
      (
        record {
          fns_edit_script = f;
          vars_edit_script = v;
          unrefed_fn_syms_edit_script = fs;
          unrefed_var_syms_edit_script = vs;
          fns = record fns { deleted = left };
          vars = vars;
          unrefed_fn_syms = fn_syms;
          unrefed_var_syms = var_syms;
        },
        rw (made_f, made_v, made_fs, made_vs, returns, returns', returns_fs, returns_vs) refl,
        path_f,
        path_v,
        (λ k. rw (at_left k) (
            ap
              (beside_variables second (named get_id k sides_v.deleted)
                (named get_id k sides_v.inserted))
              (at_f k))),
        at_v,
      )

  -- On corpora whose functions and whose variables have symbols and distinct, non-empty ids, with at
  -- most 2 ^ 32 of each kind in the first, and a recursion deeper than the counts together, whatever
  -- the equalities are, `compute_diff` of the corpora returns with no assertion failing. Its scripts
  -- are those of paths through the functions and through the variables that keep only equal pairs.
  -- The tables are those of what the scripts delete and insert: at each id, a function is deleted
  -- where one is deleted and none inserted, and neither the second corpus has its symbol nor is a
  -- variable of that id and of a symbol of the second corpus deleted and none inserted; it is added
  -- where one is inserted and none deleted and the first corpus has no such symbol; and changed where
  -- one of each is edited and they differ. Likewise with variables, of which a deleted one stays
  -- although the second corpus has its symbol.
  pub compute_corpus_diff-Sided :
      (n : ℕ)
      → AreComparable n first second
      → (d : CorpusDiff) × (compute_corpus_diff same_function same_variable first second n
          ≡ returned d)
        × FunctionPath d.fns_edit_script
        × VariablePath d.vars_edit_script
        × (f : FunctionSides d.fns_edit_script) × (v : VariableSides d.vars_edit_script)
        × ((k : Text)
            → view k d.fns
              ≡ beside_variables second (named get_id k v.deleted) (named get_id k v.inserted) (
                  functions_view same_function first second
                    (named get_id k f.deleted)
                    (named get_id k f.inserted)))
        × ((k : Text)
            → view k d.vars
              ≡ variables_view same_variable first
                  (named get_id k v.deleted)
                  (named get_id k v.inserted))
  compute_corpus_diff-Sided n c =
      let side_f : (ses : EditScript) → FunctionPath ses → FunctionSides ses = λ ses p.
        Edits-Sided get_id same_function first.functions second.functions c.few_functions p refl
          refl c.functions.distinct c.new_functions.distinct in
      let side_v : (ses : EditScript) → VariablePath ses → VariableSides ses = λ ses p.
        Edits-Sided get_id same_variable first.variables second.variables c.few_variables p refl
          refl c.variables.distinct c.new_variables.distinct in
      let (d, returns, p, q, at_f, at_v) = compute_corpus_diff_from n c side_f side_v in
      (d, returns, p, q, side_f d.fns_edit_script p, side_v d.vars_edit_script q, at_f, at_v)

  -- On corpora whose functions and whose variables have symbols and distinct, non-empty ids, with
  -- at most 2 ^ 32 of each kind in the first, and a recursion deeper than the counts together, where
  -- a function of the first corpus and one of the second that are equal have the same id, and so with
  -- variables, `compute_diff` of the corpora returns with no assertion failing. (The equality of
  -- functions holds of two whose symbols alias each other, or have versions that differ in the flag
  -- of the default; corpora with such a pair of other ids are those of `compute_corpus_diff-Sided`
  -- alone.) At each id, a function is deleted where only the first corpus has it and neither the
  -- second corpus has its symbol nor is it the id of a variable that only the first corpus has and
  -- whose symbol the second has; it is added where only the second has it and the first has no such
  -- symbol; and changed where both have it and they differ. A variable is deleted where only the
  -- first corpus has it, whether or not the second has its symbol; it is added where only the second
  -- has it and the first has no such symbol; and changed where both have it and they differ.
  pub compute_corpus_diff_lem :
      (n : ℕ)
      → NamedAlike get_id same_function first.functions second.functions
      → NamedAlike get_id same_variable first.variables second.variables
      → AreComparable n first second
      → (d : CorpusDiff) × (compute_corpus_diff same_function same_variable first second n
          ≡ returned d)
        × ((k : Text)
            → view k d.fns
              ≡ beside_variables second
                  (named get_id k first.variables)
                  (named get_id k second.variables)
                  (functions_view same_function first second
                    (named get_id k first.functions)
                    (named get_id k second.functions)))
        × ((k : Text)
            → view k d.vars
              ≡ variables_view same_variable first
                  (named get_id k first.variables)
                  (named get_id k second.variables))
  compute_corpus_diff_lem n same_f same_v c =
      let edit_f = λ (ses : EditScript) (p : FunctionPath ses).
        Edits-Edited get_id same_function first.functions second.functions same_f c.few_functions p
          refl refl c.functions.distinct c.new_functions.distinct in
      let edit_v = λ (ses : EditScript) (p : VariablePath ses).
        Edits-Edited get_id same_variable first.variables second.variables same_v c.few_variables p
          refl refl c.variables.distinct c.new_variables.distinct in
      let (d, returns, p, q, at_f, at_v) =
        compute_corpus_diff_from n c (λ ses p. sided get_id same_function (edit_f ses p))
          (λ ses p. sided get_id same_variable (edit_v ses p)) in
      let agree_f = λ (k : Text).
        agreed_difference get_id same_function ((edit_f d.fns_edit_script p).agree k) in
      let agree_v = λ (k : Text).
        agreed_difference get_id same_variable ((edit_v d.vars_edit_script q).agree k) in
      (
        d,
        returns,
        (λ k.
            at_f k
            ∙ beside_variables_of second _ _ _ _ _ _ (ap (λ z. z.deleted) (agree_v k))
                (functions_view_of same_function first second _ _ _ _ (agree_f k))),
        λ k. at_v k ∙ variables_view_of same_variable first _ _ _ _ (agree_v k),
      )
