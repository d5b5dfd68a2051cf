-- ===== src/Changes/SymbolTables.antt =====
-- The scripts of `corpus_diff` of `src/abg-comparison.cc`, and its tables of symbols without a declaration.
use cyglibabigail.Base.{
  ℕ, ℤ, ◌+◌, ◌<◌, ◌≤◌, Bool, List, [], ◌≡◌, refl, ◌∙◌, length, returned, arith,
}
use cyglibabigail.Symbols.Symbol.{Symbol, same_symbol}
use cyglibabigail.EditScripts.Scripts.{EditScript}
use cyglibabigail.EditScripts.Edits.{Edits, all_inserted}
use cyglibabigail.EditScripts.DiffLaws.{compute_diff-Diffs}
use cyglibabigail.Changes.Maps.{find}
use cyglibabigail.Changes.Loops.{for_each_inserted-indexes, for_each_returns}
use cyglibabigail.Changes.Tables.{Tables, empty_tables}
use cyglibabigail.Changes.Agreement.{same_at, Deletes, Inserts}
use cyglibabigail.Changes.Paths.{Edits-Picks}
use cyglibabigail.Changes.Decls.{Lookup}
use cyglibabigail.Changes.Corpus.{
  drop_symbol, settle_symbol, symbol_id, delete_symbol, insert_symbol, populate_symbols, script_of,
}

module _ {A : Type 0} (n : ℕ) (same : A → A → Bool) (xs ys : List A) where
  pub script_of_lem :
      length xs + length ys < n
      → (ses : EditScript) × (script_of n same xs ys ≡ returned ses)
        × Edits
            (same_at same xs ys)
            0
            0
            (length xs)
            (length ys)
            (all_inserted ses.insertions)
            ses.deletions
  unfolding script_of
  script_of_lem h =
      let d = compute_diff-Diffs (same_at same xs ys) n 0 (length xs) 0 (length ys) [] h in
      let p : 0 + length xs ≡ length xs = omega arith in
      let q : 0 + length ys ≡ length ys = omega arith in
      let e = rw (p, q) at d.returns in (d.diff.ses, rw e refl, rw (p, q) at d.scripted.edits)

module _ (first second : Lookup) (xs ys : List Symbol) where
  delete_symbol_returns :
      (d : ℤ) (s : Symbol) (t : Tables Symbol)
      → Deletes xs d s
      → (u : Tables Symbol) × (delete_symbol second xs d t ≡ returned u)
  unfolding delete_symbol
  delete_symbol_returns d s t at = (drop_symbol second s t, rw at refl)

  insert_symbol_returns :
      (i : ℕ) (s : Symbol) (t : Tables Symbol)
      → Inserts ys i s
      → (u : Tables Symbol) × (insert_symbol first ys i t ≡ returned u)
  unfolding insert_symbol
  insert_symbol_returns i s t at =
      (settle_symbol first (find (symbol_id s) t.deleted) s t, rw at refl)

  pub populate_symbols_returns :
      length xs ≤ 4294967296
      → (ses : EditScript)
      → Edits
          (same_at same_symbol xs ys)
          0
          0
          (length xs)
          (length ys)
          (all_inserted ses.insertions)
          ses.deletions
      → (t : Tables Symbol) × (populate_symbols first second xs ys ses empty_tables ≡ returned t)
  unfolding populate_symbols
  populate_symbols_returns small ses p =
      let (gones, news, picks, picks') =
        Edits-Picks (λ s. s.name) same_symbol xs ys small p refl refl in
      let (t, returns) =
        for_each_returns (delete_symbol second xs) delete_symbol_returns picks empty_tables in
      let (u, returns') =
        for_each_returns (insert_symbol first ys) insert_symbol_returns picks' t in
      (
        u,
        rw returns (for_each_inserted-indexes (insert_symbol first ys) ses.insertions t ∙ returns'),
      )
