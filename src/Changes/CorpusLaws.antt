-- ===== src/Changes/CorpusLaws.antt =====
-- What `corpus_diff` of `src/abg-comparison.cc` finds deleted, added and changed among functions and
-- variables.
use cyglibabigail.Base.{
  ℕ, zero, suc, Bool, false, List, [], ◌∷◌, Option, none, some, if◌then◌else◌, ◌≡◌, refl, ◌∙◌, ap,
  returned, get_elem?,
}
use mathlib.Core.Path.{subst}
use cyglibabigail.Symbols.Symbol.{is_empty}
use cyglibabigail.EditScripts.Scripts.{EditScript}
use cyglibabigail.EditScripts.Edits.{all_inserted}
use cyglibabigail.Changes.Maps.{Text, Map, find}
use cyglibabigail.Changes.Loops.{named, AreDistinct, Acts}
use cyglibabigail.Changes.Tables.{
  Tables, empty_tables, View, view, add_deleted, deleted_view, add_inserted, inserted_view,
  view-add_deleted, view-add_inserted, settle, to_unsigned,
}
use cyglibabigail.Changes.Agreement.{Deletes, Inserts, Sided}
use cyglibabigail.Changes.Populated.{
  gone, differing, difference, NotDeleted, NotInserted, walked_sided,
}
use cyglibabigail.Changes.Decls.{
  Decl, Corpus, get_id, lookup_function_symbol, lookup_variable_symbol,
}
use cyglibabigail.Changes.Corpus.{
  delete_decl, insert_function, insert_variable, populate_functions, populate_variables,
}
use cyglibabigail.Changes.Pruned.{
  HasSymbol, IsTable, put-IsTable, erase-IsTable, is_kept, unless_found, without_found_lem,
}

abbrev pub HasId : Decl → Type 0
HasId d = is_empty (get_id d) ≡ false

abbrev pub Every : (Decl → Type 0) → List Decl → Type 0
Every P [] = Unit {0}
Every P (d ∷ ds) = P d × Every P ds

element_or : Decl → Option Decl → Decl
element_or d none = d
element_or d (some x) = x

every_at :
    (P : Decl → Type 0) (xs : List Decl) (i : ℕ) (d : Decl)
    → Every P xs
    → get_elem? xs i ≡ some d
    → P d
unfolding element_or
every_at P [] i d h e = absurd (cc e)
every_at P (x ∷ xs) zero d h e = subst P (ap (element_or x) e) h.0
every_at P (x ∷ xs) (suc i) d h e = every_at P xs i d h.1 e

-- Each declaration of a corpus has a symbol and an id, and no other has its id.
pub record AreExported (xs : List Decl) : Type 0 where
  pub symbols : Every HasSymbol xs
  pub ids : Every HasId xs
  pub distinct : AreDistinct get_id xs

abbrev AreTables : Tables Decl → Type 0
AreTables t = IsTable t.deleted × IsTable t.inserted

delete_decl-Acts :
    (xs : List Decl)
    → AreExported xs
    → Acts get_id (Deletes xs) view (delete_decl xs) (deleted_view get_id) NotDeleted AreTables
unfolding delete_decl view
delete_decl-Acts xs x d n t at ready good = (
  add_deleted get_id n t,
  rw (at, every_at HasId xs (to_unsigned d) n x.ids at, ready) refl,
  (
    put-IsTable (get_id n) n t.deleted (every_at HasSymbol xs (to_unsigned d) n x.symbols at)
        good.0,
    good.1,
  ),
  λ k. view-add_deleted get_id n t k,
)

module _ (same : Decl → Decl → Bool) where
  settle-AreTables :
      (o : Option Decl) (n : Decl) (t : Tables Decl)
      → HasSymbol n
      → AreTables t
      → AreTables (settle get_id same o n t)
  settle-AreTables none n t h good = (good.0, put-IsTable (get_id n) n t.inserted h good.1)
  settle-AreTables (some old) n t h good = (erase-IsTable (get_id n) t.deleted good.0, good.1)

  insert_function-Acts :
      (ys : List Decl)
      → AreExported ys
      → Acts get_id
          (Inserts ys)
          view
          (insert_function same ys)
          (inserted_view get_id same)
          NotInserted
          AreTables
  unfolding insert_function view add_inserted
  insert_function-Acts ys y i n t at ready good = (
    add_inserted get_id same n t,
    rw (at, every_at HasId ys i n y.ids at, ready) refl,
    settle-AreTables (find (get_id n) t.deleted) n t (every_at HasSymbol ys i n y.symbols at) good,
    λ k. view-add_inserted get_id same n t k,
  )

  insert_variable-Acts :
      (ys : List Decl)
      → AreExported ys
      → Acts get_id
          (Inserts ys)
          view
          (insert_variable same ys)
          (inserted_view get_id same)
          NotInserted
          AreTables
  unfolding insert_variable view add_inserted
  insert_variable-Acts ys y i n t at ready good = (
    add_inserted get_id same n t,
    rw (at, every_at HasId ys i n y.ids at, ready) refl,
    settle-AreTables (find (get_id n) t.deleted) n t (every_at HasSymbol ys i n y.symbols at) good,
    λ k. view-add_inserted get_id same n t k,
  )

-- What the tables of functions and of variables are to have at an id: the elements that the corpora
-- have for it, where the tables of deleted and added ones leave out those whose symbol is found.
abbrev pub functions_view :
    (Decl → Decl → Bool) → Corpus → Corpus → Option Decl → Option Decl → View Decl
functions_view same first second o p = record {
  deleted = unless_found (lookup_function_symbol second) (gone o p);
  inserted = unless_found (lookup_function_symbol first) (gone p o);
  changed = differing same o p;
}

abbrev pub variables_view : (Decl → Decl → Bool) → Corpus → Option Decl → Option Decl → View Decl
variables_view same first o p = record {
  deleted = gone o p;
  inserted = unless_found (lookup_variable_symbol first) (gone p o);
  changed = differing same o p;
}

module _ (same : Decl → Decl → Bool) (first second : Corpus) where
  pub populate_functions_lem :
      AreExported first.functions
      → AreExported second.functions
      → (ses : EditScript)
      → (r : Sided get_id first.functions second.functions 0 0
          (all_inserted ses.insertions)
          ses.deletions)
      → (t : Tables Decl) × (populate_functions same first second ses empty_tables ≡ returned t)
        × ((k : Text)
            → view k t
              ≡ functions_view same first second
                  (named get_id k r.deleted)
                  (named get_id k r.inserted))
  unfolding populate_functions view IsTable
  populate_functions_lem x y ses r =
      let (t, returns, good, views) =
        walked_sided get_id same first.functions second.functions ses (delete_decl first.functions)
          (insert_function same second.functions) AreTables r (delete_decl-Acts first.functions x)
          (insert_function-Acts same second.functions y) (tt, tt) in
      let (deleted, returns_deleted, at_deleted) =
        without_found_lem (lookup_function_symbol second) t.deleted t.deleted good.0 in
      let (inserted, returns_inserted, at_inserted) =
        without_found_lem (lookup_function_symbol first) t.inserted t.inserted good.1 in
      (
        record t { deleted = deleted; inserted = inserted },
        rw (returns, returns_deleted, returns_inserted) refl,
        λ k.
            rw
              (
                at_deleted k,
                at_inserted k,
                ap (λ z. z.deleted) (views k),
                ap (λ z. z.inserted) (views k),
                ap (λ z. z.changed) (views k),
              )
              refl,
      )

  pub populate_variables_lem :
      AreExported first.variables
      → AreExported second.variables
      → (ses : EditScript) (fns : Map Decl)
      → (r : Sided get_id first.variables second.variables 0 0
          (all_inserted ses.insertions)
          ses.deletions)
      → (t : Tables Decl) × (left : Map Decl) × (populate_variables same first second ses
            empty_tables fns
          ≡ returned (t, left))
        × ((k : Text)
            → view k t
              ≡ variables_view same first (named get_id k r.deleted) (named get_id k r.inserted))
        × ((k : Text)
            → find k left ≡ (
                if is_kept
                  (lookup_variable_symbol second)
                  (gone (named get_id k r.deleted) (named get_id k r.inserted))
                then none
                else find k fns))
  unfolding populate_variables view IsTable
  populate_variables_lem x y ses fns r =
      let (t, returns, good, views) =
        walked_sided get_id same first.variables second.variables ses (delete_decl first.variables)
          (insert_variable same second.variables) AreTables r (delete_decl-Acts first.variables x)
          (insert_variable-Acts same second.variables y) (tt, tt) in
      let (left, returns_left, at_left) =
        without_found_lem (lookup_variable_symbol second) t.deleted fns good.0 in
      let (inserted, returns_inserted, at_inserted) =
        without_found_lem (lookup_variable_symbol first) t.inserted t.inserted good.1 in
      (
        record t { inserted = inserted },
        left,
        rw (returns, returns_left, returns_inserted) refl,
        (λ k.
            rw
              (
                at_inserted k,
                ap (λ z. z.deleted) (views k),
                ap (λ z. z.inserted) (views k),
                ap (λ z. z.changed) (views k),
              )
              refl),
        λ k. at_left k ∙ rw (ap (λ z. z.deleted) (views k)) refl,
      )

-- The views depend on the difference of what the sequences have alone.
pub functions_view_of :
    (same : Decl → Decl → Bool) (first second : Corpus) (q r o p : Option Decl)
    → difference same q r ≡ difference same o p
    → functions_view same first second q r ≡ functions_view same first second o p
functions_view_of same first second q r o p h =
    ap
      (λ v. record {
        deleted = unless_found (lookup_function_symbol second) v.deleted;
        inserted = unless_found (lookup_function_symbol first) v.inserted;
        changed = v.changed;
      })
      h

pub variables_view_of :
    (same : Decl → Decl → Bool) (first : Corpus) (q r o p : Option Decl)
    → difference same q r ≡ difference same o p
    → variables_view same first q r ≡ variables_view same first o p
variables_view_of same first q r o p h =
    ap
      (λ v. record {
        deleted = v.deleted;
        inserted = unless_found (lookup_variable_symbol first) v.inserted;
        changed = v.changed;
      })
      h
