-- ===== src/Symbols/Symbol.antt =====
-- `elf_symbol` of `src/abg-ir.cc`, its members and accessors.
use cyglibabigail.Base.{
  ℕ, Bool, true, false, ◌&&◌, List, [], ◌∷◌, ◌++◌, Option, none, if◌then◌else◌, same_text, codes,
}

-- `elf_symbol::type`
pub data SymbolType : Type 0 where
  notype_type object_type func_type section_type file_type : SymbolType
  common_type tls_type gnu_ifunc_type : SymbolType

-- `elf_symbol::binding`
pub data Binding : Type 0 where
  local_binding global_binding weak_binding gnu_unique_binding : Binding

-- `elf_symbol::version`
pub record Version : Type 0 where
  pub version : List ℕ
  pub is_default : Bool

-- `elf_symbol::priv`; a symbol is named by a number, which stands for its address.
pub record Symbol : Type 0 where
  pub index : ℕ
  pub name : List ℕ
  pub type : SymbolType
  pub binding : Binding
  pub version : Version
  pub is_defined : Bool
  pub main_symbol : ℕ
  pub next_alias : Option ℕ
  pub id_string : List ℕ

-- `elf_symbol::elf_symbol`, at the address `this`
unfoldable pub new_symbol : ℕ → ℕ → List ℕ → SymbolType → Binding → Bool → Version → Symbol
new_symbol this i n t b d v = record {
  index = i;
  name = n;
  type = t;
  binding = b;
  version = v;
  is_defined = d;
  main_symbol = this;
  next_alias = none;
  id_string = [];
}

-- The constructor that copies, and `elf_symbol::operator=`
unfoldable pub copy_symbol : ℕ → Symbol → Symbol
copy_symbol this s = new_symbol this s.index s.name s.type s.binding s.is_defined s.version

unfoldable pub assign : ℕ → Symbol → Symbol
assign this s = record s { main_symbol = this; next_alias = none }

unfoldable pub set_name : List ℕ → Symbol → Symbol
set_name n s = record s { name = n; id_string = [] }

unfoldable pub set_version : Version → Symbol → Symbol
set_version v s = record s { version = v; id_string = [] }

-- An assignment through the reference that `get_version` returns
unfoldable pub write_version : Version → Symbol → Symbol
write_version v s = record s { version = v }

abbrev pub is_empty : List ℕ → Bool
is_empty [] = true
is_empty (c ∷ cs) = false

-- The string that `get_id_string` makes where none is kept: `s` is the name.
unfoldable pub make_id : List ℕ → Version → List ℕ
make_id s v =
    if is_empty v.version
    then s
    else (if v.is_default then s ++ codes "@@" else s ++ codes "@") ++ v.version

unfoldable pub get_id_string : Symbol → List ℕ × Symbol
get_id_string s =
    let id = if is_empty s.id_string then make_id s.name s.version else s.id_string in
    (id, record s { id_string = id })

abbrev is_exported : Binding → Bool
is_exported local_binding = false
is_exported global_binding = true
is_exported weak_binding = true
is_exported gnu_unique_binding = true

unfoldable pub is_public : Symbol → Bool
is_public s = s.is_defined && is_exported s.binding

abbrev pub same_type : SymbolType → SymbolType → Bool
same_type notype_type notype_type = true
same_type object_type object_type = true
same_type func_type func_type = true
same_type section_type section_type = true
same_type file_type file_type = true
same_type common_type common_type = true
same_type tls_type tls_type = true
same_type gnu_ifunc_type gnu_ifunc_type = true
same_type _ _ = false

abbrev pub same_flag : Bool → Bool → Bool
same_flag true true = true
same_flag false false = true
same_flag _ _ = false

-- `elf_symbol::operator==`
unfoldable pub same_symbol : Symbol → Symbol → Bool
same_symbol s t =
    same_text s.name t.name
    && same_type s.type t.type
    && same_flag (is_public s) (is_public t)
    && same_flag s.is_defined t.is_defined
    && same_text s.version.version t.version.version
