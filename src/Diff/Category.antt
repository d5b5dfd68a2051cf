-- ===== src/Diff/Category.antt =====
-- `diff_category` of `include/abg-comparison.h`, with its operators of `src/abg-comparison.cc` and
-- `diff::priv::is_filtered_out`.
use cyglibabigail.Base.{Bool, true, false, not, ◌&&◌, ◌||◌, if◌then◌else◌}

-- A set of enumerators: one field for each bit, from the lowest.
pub record Category : Type 0 where
  pub access : Bool
  pub compatible_type : Bool
  pub harmless_decl_name : Bool
  pub non_virt_mem_fun : Bool
  pub static_data_member : Bool
  pub harmless_enum : Bool
  pub harmless_symbol_alias : Bool
  pub suppressed : Bool
  pub size_or_offset : Bool
  pub virtual_member : Bool
  pub redundant : Bool

-- The operation on each bit.
abbrev pub zip_with : (Bool → Bool → Bool) → Category → Category → Category
zip_with f c d = record {
  access = f c.access d.access;
  compatible_type = f c.compatible_type d.compatible_type;
  harmless_decl_name = f c.harmless_decl_name d.harmless_decl_name;
  non_virt_mem_fun = f c.non_virt_mem_fun d.non_virt_mem_fun;
  static_data_member = f c.static_data_member d.static_data_member;
  harmless_enum = f c.harmless_enum d.harmless_enum;
  harmless_symbol_alias = f c.harmless_symbol_alias d.harmless_symbol_alias;
  suppressed = f c.suppressed d.suppressed;
  size_or_offset = f c.size_or_offset d.size_or_offset;
  virtual_member = f c.virtual_member d.virtual_member;
  redundant = f c.redundant d.redundant;
}

-- `operator|`, `operator&`, and `c & ~d`, the only form in which `operator~` is used.
abbrev pub category_or : Category → Category → Category
category_or = zip_with (λ x y. x || y)

abbrev pub category_and : Category → Category → Category
category_and = zip_with (λ x y. x && y)

abbrev pub category_minus : Category → Category → Category
category_minus = zip_with (λ x y. x && not y)

-- The same value in every bit.
abbrev pub every_bit : Bool → Category
every_bit b = record {
  access = b;
  compatible_type = b;
  harmless_decl_name = b;
  non_virt_mem_fun = b;
  static_data_member = b;
  harmless_enum = b;
  harmless_symbol_alias = b;
  suppressed = b;
  size_or_offset = b;
  virtual_member = b;
  redundant = b;
}

abbrev pub no_change_category : Category
no_change_category = every_bit false

abbrev pub everything_category : Category
everything_category = every_bit true

abbrev pub suppressed_category : Category
suppressed_category = record no_change_category { suppressed = true }

abbrev pub redundant_category : Category
redundant_category = record no_change_category { redundant = true }

-- A category in a condition: whether some bit is set.
abbrev pub is_set : Category → Bool
is_set c =
    c.access || c.compatible_type || c.harmless_decl_name || c.non_virt_mem_fun
    || c.static_data_member || c.harmless_enum || c.harmless_symbol_alias || c.suppressed
    || c.size_or_offset || c.virtual_member || c.redundant

-- `c == EVERYTHING_CATEGORY`
abbrev pub is_everything : Category → Bool
is_everything c =
    c.access && c.compatible_type && c.harmless_decl_name && c.non_virt_mem_fun
    && c.static_data_member && c.harmless_enum && c.harmless_symbol_alias && c.suppressed
    && c.size_or_offset && c.virtual_member && c.redundant

-- The settings of a `diff_context` that decide what is reported.
pub record Settings : Type 0 where
  pub allowed_category : Category
  pub show_redundant_changes : Bool

-- `diff_context::switch_categories_on`, `diff_context::switch_categories_off`
unfoldable pub switch_categories_on : Category → Settings → Settings
switch_categories_on c s = record s { allowed_category = category_or s.allowed_category c }

unfoldable pub switch_categories_off : Category → Settings → Settings
switch_categories_off c s = record s { allowed_category = category_minus s.allowed_category c }

-- `diff::priv::is_filtered_out`
unfoldable pub is_filtered_out : Settings → Category → Bool
is_filtered_out s category =
    if is_everything s.allowed_category
    then false
    else if category.suppressed
    then true
    else if not s.show_redundant_changes && category.redundant
    then true
    else if not (is_set category)
    then false
    else not (
        is_set (
          category_and (category_minus category redundant_category)
            (category_minus s.allowed_category redundant_category)))
