-- ===== src/Symbols/Kinds.antt =====
-- The words for the type and the binding of a symbol, as `src/abg-writer.cc` writes them and
-- `src/abg-ir.cc` reads them.
use cyglibabigail.Base.{
  ℕ, List, ◌++◌, Option, none, some, if◌then◌else◌, ◌≡◌, refl, ◌↔◌, sym, ap, ◌∙◌, inl, inr,
  Bool-cases, same_text, same_text-eq, codes,
}
use cyglibabigail.Symbols.Symbol.{
  SymbolType, notype_type, object_type, func_type, section_type, file_type, common_type, tls_type,
  gnu_ifunc_type, Binding, local_binding, global_binding, weak_binding, gnu_unique_binding,
}

-- `repr` in `write_elf_symbol_type`
abbrev pub type_repr : SymbolType → List ℕ
type_repr notype_type = codes "no-type"
type_repr object_type = codes "object-type"
type_repr func_type = codes "func-type"
type_repr section_type = codes "section-type"
type_repr file_type = codes "file-type"
type_repr common_type = codes "common-type"
type_repr tls_type = codes "tls-type"
type_repr gnu_ifunc_type = codes "gnu-ifunc-type"

unfoldable pub write_elf_symbol_type : SymbolType → List ℕ → List ℕ
write_elf_symbol_type t o = o ++ codes " type='" ++ type_repr t ++ codes "'"

-- `repr` in `write_elf_symbol_binding`
abbrev pub binding_repr : Binding → List ℕ
binding_repr local_binding = codes "local-binding"
binding_repr global_binding = codes "global-binding"
binding_repr weak_binding = codes "weak-binding"
binding_repr gnu_unique_binding = codes "gnu-unique-binding"

unfoldable pub write_elf_symbol_binding : Binding → List ℕ → List ℕ
write_elf_symbol_binding b o = o ++ codes " binding='" ++ binding_repr b ++ codes "'"

unfoldable pub string_to_elf_symbol_type : List ℕ → Option SymbolType
string_to_elf_symbol_type s =
    if same_text s (codes "no-type")
    then some notype_type
    else if same_text s (codes "object-type")
    then some object_type
    else if same_text s (codes "func-type")
    then some func_type
    else if same_text s (codes "section-type")
    then some section_type
    else if same_text s (codes "file-type")
    then some file_type
    else if same_text s (codes "common-type")
    then some common_type
    else if same_text s (codes "tls-type")
    then some tls_type
    else if same_text s (codes "gnu-ifunc-type")
    then some gnu_ifunc_type
    else none

unfoldable pub string_to_elf_symbol_binding : List ℕ → Option Binding
string_to_elf_symbol_binding s =
    if same_text s (codes "local-binding")
    then some local_binding
    else if same_text s (codes "global-binding")
    then some global_binding
    else if same_text s (codes "weak-binding")
    then some weak_binding
    else if same_text s (codes "gnu-unique-binding")
    then some gnu_unique_binding
    else none

string_to_elf_symbol_type-type_repr :
    (t : SymbolType) → string_to_elf_symbol_type (type_repr t) ≡ some t
unfolding string_to_elf_symbol_type
string_to_elf_symbol_type-type_repr notype_type = refl
string_to_elf_symbol_type-type_repr object_type = refl
string_to_elf_symbol_type-type_repr func_type = refl
string_to_elf_symbol_type-type_repr section_type = refl
string_to_elf_symbol_type-type_repr file_type = refl
string_to_elf_symbol_type-type_repr common_type = refl
string_to_elf_symbol_type-type_repr tls_type = refl
string_to_elf_symbol_type-type_repr gnu_ifunc_type = refl

string_to_elf_symbol_binding-binding_repr :
    (b : Binding) → string_to_elf_symbol_binding (binding_repr b) ≡ some b
unfolding string_to_elf_symbol_binding
string_to_elf_symbol_binding-binding_repr local_binding = refl
string_to_elf_symbol_binding-binding_repr global_binding = refl
string_to_elf_symbol_binding-binding_repr weak_binding = refl
string_to_elf_symbol_binding-binding_repr gnu_unique_binding = refl

-- A step through the chain of tests: a word is read as the value that it is written for.
word :
    {A : Type 0} (s w : List ℕ) (a : A) (rest : Option A) (repr : A → List ℕ)
    → repr a ≡ w
    → ((b : A) → rest ≡ some b → s ≡ repr b)
    → (b : A) → (if same_text s w then some a else rest) ≡ some b
    → s ≡ repr b
word s w a rest repr e k b h = elim (Bool-cases (same_text s w)) [
  | inl same ↦
      let found : some a ≡ some b = cc (h, same) in
      let value : a ≡ b = cc found in same_text-eq s w same ∙ sym e ∙ ap repr value
  | inr other ↦ k b (cc (h, other))
]

type_repr-string_to_elf_symbol_type :
    (s : List ℕ) (t : SymbolType) → string_to_elf_symbol_type s ≡ some t → s ≡ type_repr t
unfolding string_to_elf_symbol_type
type_repr-string_to_elf_symbol_type s = word s (codes "no-type") notype_type _ type_repr refl (
    word s (codes "object-type") object_type _ type_repr refl (
      word s (codes "func-type") func_type _ type_repr refl (
        word s (codes "section-type") section_type _ type_repr refl (
          word s (codes "file-type") file_type _ type_repr refl (
            word s (codes "common-type") common_type _ type_repr refl (
              word s (codes "tls-type") tls_type _ type_repr refl (
                word s (codes "gnu-ifunc-type") gnu_ifunc_type _ type_repr refl (λ a e. cc e))))))))

binding_repr-string_to_elf_symbol_binding :
    (s : List ℕ) (b : Binding) → string_to_elf_symbol_binding s ≡ some b → s ≡ binding_repr b
unfolding string_to_elf_symbol_binding
binding_repr-string_to_elf_symbol_binding s =
    word s (codes "local-binding") local_binding _ binding_repr refl (
      word s (codes "global-binding") global_binding _ binding_repr refl (
        word s (codes "weak-binding") weak_binding _ binding_repr refl (
          word s (codes "gnu-unique-binding") gnu_unique_binding _ binding_repr refl
            (λ a e. cc e))))

-- `string_to_elf_symbol_type` reads a word as a type just where `write_elf_symbol_type` writes that
-- word for the type, and `string_to_elf_symbol_binding` likewise for the bindings.
pub string_to_elf_symbol_type_lem :
    (s : List ℕ)
    → ((t : SymbolType) → string_to_elf_symbol_type s ≡ some t ↔ s ≡ type_repr t)
      × ((b : Binding) → string_to_elf_symbol_binding s ≡ some b ↔ s ≡ binding_repr b)
string_to_elf_symbol_type_lem s = (
  λ t. (
    type_repr-string_to_elf_symbol_type s t,
    λ e. ap string_to_elf_symbol_type e ∙ string_to_elf_symbol_type-type_repr t,
  ),
  λ b. (
    binding_repr-string_to_elf_symbol_binding s b,
    λ e. ap string_to_elf_symbol_binding e ∙ string_to_elf_symbol_binding-binding_repr b,
  ),
)
