-- ===== src/Tests/Exports.antt =====
-- Runs and witnesses of the `exported_decls_builder` of `src/abg-corpus.cc`.
use cyglibabigail.Base.{
  true, false, [], ◌∷◌, ◌++◌, some, ◌⊎◌, ◌≡◌, refl, returned, codes, same_text,
}
use cyglibabigail.Symbols.Symbol.{make_id, get_id_string, new_symbol}
use cyglibabigail.Symbols.Ids.{find_at, get_name_and_version_from_id}
use cyglibabigail.Changes.Maps.{find}
use cyglibabigail.Changes.Loops.{named, AreDistinct}
use cyglibabigail.Changes.Decls.{get_id}
use cyglibabigail.Suppressions.Criteria.{Regcomp}
use cyglibabigail.Exports.Builder.{Candidate, Builder, maybe_add_to_exported, id_is_listed}
use cyglibabigail.Exports.Built.{IsBuilt, IsAdded, maybe_add_to_exported-IsBuilt}
use cyglibabigail.Tests.Changes.{old_open, symbol}

-- A regular expression without operators matches its own text.
abbrev literal : Regcomp
literal regex = some (same_text regex)

abbrev nothing_yet : Builder
nothing_yet = record {
  decls = [];
  decls_map = [];
  suppress_regexps = codes "close" ∷ [];
  keep_regexps = [];
  sym_ids_to_keep = codes "open" ∷ [];
}

abbrev public_open : Candidate
public_open = record {
  decl = old_open;
  qualified_name = codes "open";
  is_in_public_symbol_table = true;
}

nothing_yet-IsBuilt : IsBuilt nothing_yet
unfolding AreDistinct named find
nothing_yet-IsBuilt = record {
  exported = record { symbols = tt; ids = tt; distinct = tt };
  in_map = λ k. refl;
}

maybe_add_to_exported-IsBuilt_example :
    (b : Builder) × (maybe_add_to_exported literal public_open nothing_yet ≡ returned b)
    × IsBuilt b
    × ((IsAdded literal public_open nothing_yet × (b.decls ≡ [] ++ old_open ∷ []))
        ⊎ (¬ IsAdded literal public_open nothing_yet × (b ≡ nothing_yet)))
unfolding get_id make_id get_id_string symbol new_symbol
maybe_add_to_exported-IsBuilt_example =
    maybe_add_to_exported-IsBuilt literal public_open nothing_yet nothing_yet-IsBuilt refl

-- An id without version keeps the symbol with no version, but not behind an id with a version.
version_kept_run :
    (id_is_listed (codes "open" ∷ []) (symbol (codes "open")) [] ≡ true)
    × (id_is_listed (codes "read@V1" ∷ codes "open" ∷ []) (symbol (codes "open")) [] ≡ false)
unfolding id_is_listed get_name_and_version_from_id find_at symbol new_symbol
version_kept_run = (refl, refl)
