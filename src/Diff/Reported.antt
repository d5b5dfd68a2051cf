-- ===== src/Diff/Reported.antt =====
-- What `diff::priv::is_filtered_out` of `src/abg-comparison.cc` decides, bit by bit, and how the
-- categories that the user switches on and off change it.
use cyglibabigail.Base.{
  Bool, true, false, not, ◌&&◌, ◌||◌, if◌then◌else◌, ◌≡◌, refl, ◌⊎◌, inl, inr, ◌↔◌, arith,
  Bool-cases, List, [], ◌∷◌, sym, ◌∙◌,
}
use cyglibabigail.Diff.Category.{
  Category, category_or, category_and, category_minus, redundant_category, is_set, is_everything,
  Settings, switch_categories_on, is_filtered_out,
}
use cyglibabigail.Diff.Grows.{
  Enumerator, access, compatible_type, harmless_decl_name, non_virt_mem_fun, static_data_member,
  harmless_enum, harmless_symbol_alias, suppressed, size_or_offset, virtual_member, redundant, has,
  has-zip_with,
}

-- `a || ...` over some enumerators.
any_from : Bool → List Enumerator → Category → Bool
any_from a [] c = a
any_from a (b ∷ bs) c = any_from (a || has b c) bs c

any_from-has :
    (a : Bool) (bs : List Enumerator) (c : Category)
    → any_from a bs c ≡ true
    → (a ≡ true) ⊎ ((b : Enumerator) × (has b c ≡ true))
unfolding any_from
any_from-has a [] c h = inl h
any_from-has a (b ∷ bs) c h = elim (any_from-has (a || has b c) bs c h) [
  | inr found ↦ inr found
  | inl either ↦ elim (Bool-cases a) [ inl here ↦ inl here | inr there ↦ inr (b, ground arith) ]
]

is_set-has : (c : Category) → is_set c ≡ true → (b : Enumerator) × (has b c ≡ true)
unfolding any_from
is_set-has c h =
    elim (any_from-has c.access
      (compatible_type ∷ harmless_decl_name ∷ non_virt_mem_fun ∷ static_data_member ∷ harmless_enum
        ∷ harmless_symbol_alias ∷ suppressed ∷ size_or_offset ∷ virtual_member ∷ redundant ∷ [])
      c h) [ inl first ↦ (access, first) | inr found ↦ found ]

-- A category in a condition is one with some bit.
has-is_set : (b : Enumerator) (c : Category) → has b c ≡ true → is_set c ≡ true
has-is_set access c h = ground arith
has-is_set compatible_type c h = ground arith
has-is_set harmless_decl_name c h = ground arith
has-is_set non_virt_mem_fun c h = ground arith
has-is_set static_data_member c h = ground arith
has-is_set harmless_enum c h = ground arith
has-is_set harmless_symbol_alias c h = ground arith
has-is_set suppressed c h = ground arith
has-is_set size_or_offset c h = ground arith
has-is_set virtual_member c h = ground arith
has-is_set redundant c h = ground arith

-- `EVERYTHING_CATEGORY` is the set with each bit.
is_everything-has : (b : Enumerator) (c : Category) → is_everything c ≡ true → has b c ≡ true
is_everything-has access c h = ground arith
is_everything-has compatible_type c h = ground arith
is_everything-has harmless_decl_name c h = ground arith
is_everything-has non_virt_mem_fun c h = ground arith
is_everything-has static_data_member c h = ground arith
is_everything-has harmless_enum c h = ground arith
is_everything-has harmless_symbol_alias c h = ground arith
is_everything-has suppressed c h = ground arith
is_everything-has size_or_offset c h = ground arith
is_everything-has virtual_member c h = ground arith
is_everything-has redundant c h = ground arith

has-is_everything : (c : Category) → ((b : Enumerator) → has b c ≡ true) → is_everything c ≡ true
has-is_everything c h = ground (
  arith,
  h access,
  h compatible_type,
  h harmless_decl_name,
  h non_virt_mem_fun,
  h static_data_member,
  h harmless_enum,
  h harmless_symbol_alias,
  h suppressed,
  h size_or_offset,
  h virtual_member,
  h redundant,
)

-- When a category does not keep a node from being reported: the user allows everything, or the node
-- is not suppressed, is not redundant unless redundant changes are shown, and has no category or an
-- allowed one beside REDUNDANT.
pub data IsReported (s : Settings) (c : Category) : Type 0 where
  all_allowed : is_everything s.allowed_category ≡ true → IsReported s c
  uncategorized :
      c.suppressed ≡ false
      → s.show_redundant_changes || not c.redundant ≡ true
      → is_set c ≡ false
      → IsReported s c
  one_allowed :
      c.suppressed ≡ false
      → s.show_redundant_changes || not c.redundant ≡ true
      → (b : Enumerator) → has b redundant_category ≡ false
      → has b c ≡ true
      → has b s.allowed_category ≡ true
      → IsReported s c

-- The bits that `is_filtered_out` compares.
abbrev compared : Settings → Category → Category
compared s c =
    category_and (category_minus c redundant_category)
      (category_minus s.allowed_category redundant_category)

has-compared :
    (b : Enumerator) (s : Settings) (c : Category)
    → has b (compared s c)
      ≡ (has b c && not (has b redundant_category))
        && (has b s.allowed_category && not (has b redundant_category))
has-compared b s c =
    has-zip_with (λ x y. x && y) b (category_minus c redundant_category)
      (category_minus s.allowed_category redundant_category)
    ∙ rw
        (
          has-zip_with (λ x y. x && not y) b c redundant_category,
          has-zip_with (λ x y. x && not y) b s.allowed_category redundant_category,
        )
        refl

all_three :
    (x r y : Bool) → (x && not r) && (y && not r) ≡ true → (r ≡ false) × (x ≡ true) × (y ≡ true)
all_three x r y h = (ground arith, ground arith, ground arith)

-- The last test of `is_filtered_out` decides, where those before it let the category pass.
last_test :
    (e p q r m : Bool)
    → (if e then false else if p then true else if q then true else if not r then false else not m)
      ≡ false
    → e ≡ false
    → r ≡ true
    → m ≡ true
last_test e p q r m h f k = ground arith

-- The bits that `is_filtered_out` compares meet just where some bit but REDUNDANT is in both sets.
compared-has :
    (s : Settings) (c : Category)
    → is_set (compared s c) ≡ true
    → (b : Enumerator) × (has b redundant_category ≡ false)
      × (has b c ≡ true)
      × (has b s.allowed_category ≡ true)
compared-has s c h =
    let (b, e) = is_set-has (compared s c) h in
    let (r, p, q) =
      all_three (has b c) (has b redundant_category) (has b s.allowed_category)
        (sym (has-compared b s c) ∙ e) in
    (b, r, p, q)

has-is_set-compared :
    (b : Enumerator) (s : Settings) (c : Category)
    → has b redundant_category ≡ false
    → has b c ≡ true
    → has b s.allowed_category ≡ true
    → is_set (compared s c) ≡ true
has-is_set-compared b s c r h k =
    has-is_set b (compared s c) (has-compared b s c ∙ rw (r, h, k) refl)

is_filtered_out-IsReported_only :
    (s : Settings) (c : Category) → is_filtered_out s c ≡ false → IsReported s c
unfolding is_filtered_out
is_filtered_out-IsReported_only s c h = elim (Bool-cases (is_everything s.allowed_category)) [
  | inl everything ↦ all_allowed everything
  | inr part ↦
      let kept : c.suppressed ≡ false = ground arith in
      let shown : s.show_redundant_changes || not c.redundant ≡ true = ground arith in
      elim (Bool-cases (is_set c)) [
        | inr empty ↦ uncategorized kept shown empty
        | inl some_bit ↦
            let meets : is_set (compared s c) ≡ true = last_test _ _ _ _ _ h part some_bit in
            let (b, r, p, q) = compared-has s c meets in one_allowed kept shown b r p q
      ]
]

is_filtered_out-reported_kept :
    (s : Settings) (c : Category) → IsReported s c → is_filtered_out s c ≡ false
unfolding is_filtered_out
is_filtered_out-reported_kept s c (all_allowed everything) = rw everything refl
is_filtered_out-reported_kept s c (uncategorized kept shown empty) = ground arith
is_filtered_out-reported_kept s c (one_allowed kept shown b r p q) =
    let meets : is_set (compared s c) ≡ true = has-is_set-compared b s c r p q in ground arith

-- A node is kept by `is_filtered_out` just where its category does not keep it from being reported.
pub is_filtered_out-IsReported :
    (s : Settings) (c : Category) → is_filtered_out s c ≡ false ↔ IsReported s c
is_filtered_out-IsReported s c =
    (is_filtered_out-IsReported_only s c, is_filtered_out-reported_kept s c)

IsReported-switch_categories_on :
    (s : Settings) (k c : Category) → IsReported s c → IsReported (switch_categories_on k s) c
unfolding switch_categories_on
IsReported-switch_categories_on s k c (all_allowed everything) = all_allowed (
    has-is_everything (category_or s.allowed_category k) λ b.
      has-zip_with (λ x y. x || y) b s.allowed_category k
      ∙ rw (is_everything-has b s.allowed_category everything) refl)
IsReported-switch_categories_on s k c (uncategorized kept shown empty) =
    uncategorized kept shown empty
IsReported-switch_categories_on s k c (one_allowed kept shown b r p q) =
    one_allowed kept shown b r p (has-zip_with (λ x y. x || y) b s.allowed_category k ∙ rw q refl)

-- Allowing more categories filters out no node that was reported.
pub is_filtered_out-switch_categories_on :
    (s : Settings) (k c : Category)
    → is_filtered_out s c ≡ false
    → is_filtered_out (switch_categories_on k s) c ≡ false
is_filtered_out-switch_categories_on s k c h =
    (is_filtered_out-IsReported (switch_categories_on k s) c).1
      (IsReported-switch_categories_on s k c ((is_filtered_out-IsReported s c).0 h))
