-- ===== src/Tests/Symbols.antt =====
-- Runs on symbols and a small ring of aliases.
use cyglibabigail.Base.{
  ℕ, zero, suc, true, false, [], ◌∷◌, Option, none, some, if◌then◌else◌, ◌≡◌, ◌↔◌, refl, inl, inr,
  ◌⊎◌, arith, returned, codes,
}
use cyglibabigail.Symbols.Symbol.{
  SymbolType, func_type, Binding, global_binding, Version, Symbol, new_symbol, copy_symbol, assign,
  set_name, set_version, write_version, make_id, get_id_string, is_empty,
}
use cyglibabigail.Symbols.Kinds.{
  type_repr, binding_repr, string_to_elf_symbol_type, string_to_elf_symbol_binding,
  string_to_elf_symbol_type_lem,
}
use cyglibabigail.Symbols.Ids.{
  find_at, get_name_and_version_from_id, IsCached, set_name-IsCached,
  get_name_and_version_from_id-get_id_string,
}
use cyglibabigail.Symbols.Aliases.{
  Symbols, add_alias, elf_symbols_alias, compute_aliases_for_elf_symbol,
}
use cyglibabigail.Symbols.Rings.{IsRing, add_alias-IsRing}
use cyglibabigail.Symbols.Walks.{compute_aliases_for_elf_symbol-IsRing, elf_symbols_alias-IsRing}

string_to_elf_symbol_type_lem_example :
    ((t : SymbolType)
      → string_to_elf_symbol_type (codes "func-type") ≡ some t ↔ codes "func-type" ≡ type_repr t)
    × ((b : Binding)
        → string_to_elf_symbol_binding (codes "func-type") ≡ some b
          ↔ codes "func-type" ≡ binding_repr b)
string_to_elf_symbol_type_lem_example = string_to_elf_symbol_type_lem (codes "func-type")

abbrev glibc : Version
glibc = record { version = codes "GLIBC_2.14"; is_default = true }

memcpy : Symbol
unfolding new_symbol
memcpy = new_symbol 1 7 (codes "memcpy") func_type global_binding true glibc

get_name_and_version_from_id-get_id_string_example :
    get_name_and_version_from_id (get_id_string memcpy).0 []
    ≡ (memcpy.name, if is_empty memcpy.version.version then [] else memcpy.version.version)
unfolding memcpy new_symbol find_at
get_name_and_version_from_id-get_id_string_example =
    get_name_and_version_from_id-get_id_string memcpy [] (inl refl) refl refl

abbrev older : Version
older = record { version = codes "GLIBC_2.2.5"; is_default = false }

-- The symbol once its id has been asked for
named_memcpy : Symbol
unfolding get_id_string
named_memcpy = (get_id_string memcpy).1

named_memcpy-IsCached : IsCached named_memcpy
unfolding named_memcpy get_id_string memcpy new_symbol make_id
named_memcpy-IsCached = inr refl

set_name-IsCached_example :
    ((get_id_string named_memcpy).0 ≡ make_id named_memcpy.name named_memcpy.version)
    × IsCached (new_symbol 2 0 (codes "memmove") func_type global_binding true older)
    × IsCached (copy_symbol 2 named_memcpy)
    × IsCached (assign 2 named_memcpy)
    × IsCached (set_name (codes "memmove") named_memcpy)
    × IsCached (set_version older named_memcpy)
    × IsCached (get_id_string named_memcpy).1
    × (IsCached (write_version older named_memcpy) ↔ (
        (is_empty named_memcpy.id_string ≡ true)
        ⊎ (make_id named_memcpy.name named_memcpy.version ≡ make_id named_memcpy.name older)))
set_name-IsCached_example =
    set_name-IsCached named_memcpy 2 0 (codes "memmove") func_type global_binding true older
      named_memcpy-IsCached

-- Written through the reference, the version is not in the id.
stale_run : (get_id_string (write_version older named_memcpy)).0 ≡ codes "memcpy@@GLIBC_2.14"
unfolding write_version named_memcpy get_id_string memcpy new_symbol make_id
stale_run = refl

-- Each address holds a symbol of its own, without aliases.
apart : Symbols
unfolding new_symbol
apart x = new_symbol x x (codes "memcpy") func_type global_binding true glibc

apart-IsRing : IsRing apart 1 []
unfolding apart new_symbol
apart-IsRing = record { distinct = (tt, tt); mains = (refl, tt); chained = refl }

add_alias-IsRing_example :
    (t : Symbols) × (add_alias 2 1 (some 2) apart ≡ returned t) × IsRing t 1 (2 ∷ [])
unfolding apart new_symbol
add_alias-IsRing_example =
    add_alias-IsRing 2 apart 1 2 [] apart-IsRing (refl, tt) refl (omega arith)

-- The symbol at 1 with the aliases 2 and 3.
abbrev next_of : ℕ → Option ℕ
next_of (suc zero) = some 2
next_of (suc (suc zero)) = some 3
next_of (suc (suc (suc zero))) = some 1
next_of _ = none

ring : Symbols
unfolding apart new_symbol
ring x = record (apart x) { main_symbol = 1; next_alias = next_of x }

ring-IsRing : IsRing ring 1 (2 ∷ 3 ∷ [])
unfolding ring apart new_symbol
ring-IsRing = record {
  distinct = ((refl, (refl, tt)), ((refl, tt), (tt, tt)));
  mains = (refl, (refl, (refl, tt)));
  chained = (refl, (refl, refl));
}

compute_aliases_for_elf_symbol-IsRing_example :
    compute_aliases_for_elf_symbol 3 ring 1 [] ≡ returned (2 ∷ 3 ∷ [])
compute_aliases_for_elf_symbol-IsRing_example =
    compute_aliases_for_elf_symbol-IsRing 3 ring 1 2 (3 ∷ []) [] ring-IsRing (omega arith)

elf_symbols_alias-IsRing_example : elf_symbols_alias 3 ring 3 2 ≡ returned true
elf_symbols_alias-IsRing_example =
    elf_symbols_alias-IsRing 3 ring 1 2 (3 ∷ []) 3 2 ring-IsRing (omega arith)
      (inr (inr (inl refl))) (inr (inl refl))
