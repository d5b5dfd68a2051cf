-- ===== src/Symbols/Aliases.antt =====
-- The chains of aliases of `src/abg-ir.cc`: the symbols are a store, from addresses to symbols.
use cyglibabigail.Base.{
  ℕ, zero, suc, Bool, true, false, List, [], ◌∷◌, ◌++◌, Option, none, some, if◌then◌else◌, ◌==◌,
  Outcome, returned, aborted, out_of_fuel, ◌>>=◌, codes,
}
use cyglibabigail.Symbols.Symbol.{Symbol, same_symbol, get_id_string}

abbrev pub Symbols : Type 0
Symbols = ℕ → Symbol

abbrev pub write : Symbols → ℕ → Symbol → Symbols
write s x v y = if y == x then v else s y

-- A pointer, null or not, compared with an address.
abbrev pub points_to : Option ℕ → ℕ → Bool
points_to none m = false
points_to (some a) m = a == m

-- The loop of `elf_symbol::add_alias`, from `a`, with what `last_alias` is so far. A null pointer is
-- read there with no test, which stops the program.
unfoldable pub find_last_alias : ℕ → Symbols → ℕ → Option ℕ → Option ℕ → Outcome (Option ℕ)
find_last_alias zero s m a last = out_of_fuel
find_last_alias (suc n) s m none last = aborted
find_last_alias (suc n) s m (some a) last = elim (a == m) [
  | true ↦ returned last
  | false ↦ elim (points_to (s a).next_alias m) [
    | false ↦ find_last_alias n s m (s a).next_alias last
    | true ↦ elim last [ some l ↦ aborted | none ↦ find_last_alias n s m (s a).next_alias (some a) ]
  ]
]

-- The last two statements, which close the chain of `this` behind the new alias `b`.
unfoldable pub close_chain : ℕ → ℕ → Symbols → Symbols
close_chain this b s =
    let m = (s this).main_symbol in
    write s b (record (s b) { next_alias = some m; main_symbol = m })

unfoldable pub set_next_alias : ℕ → ℕ → Symbols → Symbols
set_next_alias x b s = write s x (record (s x) { next_alias = some b })

unfoldable pub append_alias : ℕ → ℕ → ℕ → Symbols → Outcome Symbols
append_alias n this b s = elim (s this).next_alias [
  | none ↦ returned (close_chain this b (set_next_alias this b s))
  | some a ↦
      find_last_alias n s (s this).main_symbol (some a) none
      >>= elim [ none ↦ aborted | some l ↦ returned (close_chain this b (set_next_alias l b s)) ]
]

unfoldable pub add_alias : ℕ → ℕ → Option ℕ → Symbols → Outcome Symbols
add_alias n this none s = returned s
add_alias n this (some b) s = elim (s b).next_alias [
  | some c ↦ aborted
  | none ↦ if (s this).main_symbol == this then append_alias n this b s else aborted
]

-- The loop of `elf_symbol::does_alias`, over the aliases from `a`.
unfoldable pub any_alias : ℕ → Symbols → ℕ → Option ℕ → ℕ → Outcome Bool
any_alias zero s m a o = out_of_fuel
any_alias (suc n) s m none o = returned false
any_alias (suc n) s m (some a) o = elim (a == m) [
  | true ↦ returned false
  | false ↦ elim (same_symbol (s o) (s a)) [
    | true ↦ returned true
    | false ↦ any_alias n s m (s a).next_alias o
  ]
]

unfoldable pub does_alias : ℕ → Symbols → ℕ → ℕ → Outcome Bool
does_alias n s x o =
    if same_symbol (s x) (s o)
    then returned true
    else any_alias n s (s x).main_symbol (s x).next_alias o

-- `elf_symbols_alias`, on two symbols and on two pointers
unfoldable pub elf_symbols_alias : ℕ → Symbols → ℕ → ℕ → Outcome Bool
elf_symbols_alias n s x y = do
  aliases ← does_alias n s x y
  if aliases then returned true else does_alias n s y x

unfoldable pub elf_symbol_pointers_alias : ℕ → Symbols → Option ℕ → Option ℕ → Outcome Bool
elf_symbol_pointers_alias n s none none = returned true
elf_symbol_pointers_alias n s none (some y) = returned false
elf_symbol_pointers_alias n s (some x) none = returned false
elf_symbol_pointers_alias n s (some x) (some y) =
    if x == y then returned true else elf_symbols_alias n s x y

-- The first loop of `compute_aliases_for_elf_symbol`, from `a`, which tests for no null pointer.
unfoldable pub push_aliases : ℕ → Symbols → ℕ → Option ℕ → Outcome (List ℕ)
push_aliases zero s m a = out_of_fuel
push_aliases (suc n) s m none = aborted
push_aliases (suc n) s m (some a) = elim (a == m) [
  | true ↦ returned []
  | false ↦ (push_aliases n s m (s a).next_alias >>= λ found. returned (a ∷ found))
]

-- The two inner loops on a symbol `j` of the table: all of its aliases, or `j` itself for each of
-- them that equals `sym`.
unfoldable pub push_found : ℕ → Symbols → ℕ → Bool → ℕ → Option ℕ → ℕ → Outcome (List ℕ)
push_found zero s j equal m a sym = out_of_fuel
push_found (suc n) s j equal m none sym = returned []
push_found (suc n) s j equal m (some a) sym = elim (a == m) [
  | true ↦ returned []
  | false ↦ push_found n s j equal m (s a).next_alias sym >>= λ found.
      returned (if equal then a ∷ found else if same_symbol (s a) (s sym) then j ∷ found else found)
]

unfoldable pub push_from_table : ℕ → Symbols → ℕ → List ℕ → Outcome (List ℕ)
push_from_table n s sym [] = returned []
push_from_table n s sym (j ∷ js) = do
  found ← push_found n s j (same_symbol (s j) (s sym)) (s j).main_symbol (s j).next_alias sym
  others ← push_from_table n s sym js
  returned (found ++ others)

-- `symtab` lists the symbols of the table in its order.
unfoldable pub compute_aliases_for_elf_symbol : ℕ → Symbols → ℕ → List ℕ → Outcome (List ℕ)
compute_aliases_for_elf_symbol n s sym symtab = elim (s sym).next_alias [
  | some a ↦ push_aliases n s (s sym).main_symbol (some a)
  | none ↦ push_from_table n s sym symtab
]

-- `get_id_string` of a symbol of the store
unfoldable pub id_string_of : ℕ → Symbols → List ℕ × Symbols
id_string_of x s = let (id, v) = get_id_string (s x) in (id, write s x v)

-- The loop of `elf_symbol::get_aliases_id_string`, with the string so far.
unfoldable pub append_ids : Bool → List ℕ → List ℕ → Symbols → List ℕ × Symbols
append_ids first [] result s = (result, s)
append_ids first (x ∷ xs) result s =
    let (id, t) = id_string_of x s in
    append_ids false xs ((if first then result else result ++ codes ", ") ++ id) t

unfoldable pub get_aliases_id_string : ℕ → ℕ → List ℕ → Bool → Symbols → Outcome (List ℕ × Symbols)
get_aliases_id_string n this syms include_symbol_itself s = do
  let (result, t) = if include_symbol_itself then id_string_of this s else ([], s)
  aliases ← compute_aliases_for_elf_symbol n t this syms
  let comma : Bool = elim aliases [ [] ↦ false | a ∷ rest ↦ include_symbol_itself ]
  returned (append_ids true aliases (if comma then result ++ codes ", " else result) t)
