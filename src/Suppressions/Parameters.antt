-- ===== src/Suppressions/Parameters.antt =====
-- `function_suppression::parameter_spec` of `src/abg-comparison.cc`, and how one is read.
use cyglibabigail.Base.{
  ℕ, ◌+◌, ◌-◌, ◌*◌, ◌<◌, Bool, true, false, not, ◌&&◌, ◌||◌, [], ◌∷◌, ◌++◌, Option, none, some,
  if◌then◌else◌, ◌==◌, leb, ◌≡◌, refl,
}
use cyglibabigail.Symbols.Symbol.{is_empty}
use cyglibabigail.Changes.Maps.{Text}

pub record ParameterSpec : Type 0 where
  pub index : ℕ
  pub type_name : Text
  pub type_name_regex_str : Text

-- `isspace` and `isdigit` of the C library, in its standard locale
unfoldable pub isspace : ℕ → Bool
isspace c = c == 32 || leb 9 c && leb c 13

unfoldable pub isdigit : ℕ → Bool
isdigit c = leb 48 c && leb c 57

-- `atoi` of the C library; its `int` becomes a `size_t`.
abbrev pub Atoi : Type 0
Atoi = Text → ℕ

-- The loops of `read_parameter_spec_from_string` move `cur` along the string; here they take what is
-- left of it.
unfoldable pub skip_spaces : Text → Text
skip_spaces [] = []
skip_spaces (c ∷ cs) = let rest = skip_spaces cs in if isspace c then rest else c ∷ cs

unfoldable pub read_digits : Text → Text × Text
read_digits [] = ([], [])
read_digits (c ∷ cs) =
    let (digits, rest) = read_digits cs in if isdigit c then (c ∷ digits, rest) else ([], c ∷ cs)

unfoldable pub read_index : Text → Text × Text
read_index [] = ([], [])
read_index (c ∷ cs) = if c == 39 then read_digits cs else ([], c ∷ cs)

unfoldable pub read_slash : Text → Bool × Text
read_slash [] = (false, [])
read_slash (c ∷ cs) = if c == 47 then (true, cs) else (false, c ∷ cs)

unfoldable pub read_type_name : Bool → Text → Text
read_type_name is_regex [] = []
read_type_name is_regex (c ∷ cs) =
    let rest = read_type_name is_regex cs in
    if isspace c then rest else if is_regex && c == 47 then [] else c ∷ rest

unfoldable pub read_parameter_spec_from_string : Atoi → Text → Option ParameterSpec
read_parameter_spec_from_string atoi str =
    let (index_str, rest) = read_index (skip_spaces str) in
    let (is_regex, rest') = read_slash (skip_spaces rest) in
    let type_name = read_type_name is_regex rest' in
    if is_empty index_str && is_empty type_name
    then none
    else some (
        if is_regex
        then record { index = atoi index_str; type_name = []; type_name_regex_str = type_name }
        else record { index = atoi index_str; type_name = type_name; type_name_regex_str = [] })

-- A text with its blanks left out.
unfoldable pub without_spaces : Text → Text
without_spaces [] = []
without_spaces (c ∷ cs) = let rest = without_spaces cs in if isspace c then rest else c ∷ rest

-- All characters of a text pass a test.
abbrev pub All : (ℕ → Bool) → Text → Type 0
All p [] = Unit {0}
All p (c ∷ cs) = (p c ≡ true) × All p cs

abbrev pub is_no_slash : ℕ → Bool
is_no_slash c = not (c == 47)

read_digits-All :
    (digits : Text) (c : ℕ) (rest : Text)
    → All isdigit digits
    → isdigit c ≡ false
    → read_digits (digits ++ c ∷ rest) ≡ (digits, c ∷ rest)
unfolding read_digits
read_digits-All [] c rest h stops = rw stops refl
read_digits-All (d ∷ ds) c rest h stops = rw (h.0, read_digits-All ds c rest h.1 stops) refl

read_type_name-without_spaces : (name : Text) → read_type_name false name ≡ without_spaces name
unfolding read_type_name without_spaces
read_type_name-without_spaces [] = refl
read_type_name-without_spaces (c ∷ cs) = rw (read_type_name-without_spaces cs) refl

refuted : (b : Bool) → not b ≡ true → b ≡ false
refuted true h = cc h
refuted false h = refl

read_type_name_regex :
    (re rest : Text)
    → All is_no_slash re
    → read_type_name true (re ++ 47 ∷ rest) ≡ without_spaces re
unfolding read_type_name without_spaces isspace
read_type_name_regex [] rest h = refl
read_type_name_regex (c ∷ cs) rest h =
    let other : (c == 47) ≡ false = refuted (c == 47) h.0 in
    rw (other, read_type_name_regex cs rest h.1) refl

-- The number that decimal digits stand for
unfoldable pub number_from : ℕ → Text → ℕ
number_from n [] = n
number_from n (c ∷ cs) = number_from (10 * n + (c - 48)) cs

abbrev pub number : Text → ℕ
number s = number_from 0 s

-- What is documented of `atoi`: digits whose number an `int` of 32 bits can hold give that number. Of
-- larger ones nothing is.
abbrev pub IsAtoi : Atoi → Type 0
IsAtoi atoi = (s : Text) → All isdigit s → number s < 2147483648 → atoi s ≡ number s

-- Where the index of a parameter is a quote and digits `d` and `ds` whose number is below 2 ^ 31, which
-- `atoi` then gives, and then a blank, and where the rest starts with neither a blank nor a slash, the
-- specification that is read has the number of the digits, and as type name the rest with all its
-- blanks left out, those between two words too. Where the rest is a regular expression without slash
-- between two slashes, it has that with its blanks left out, whatever follows.
pub read_parameter_spec_from_string_lem :
    (atoi : Atoi)
    → IsAtoi atoi
    → (d : ℕ) (ds : Text) → All isdigit (d ∷ ds)
    → number (d ∷ ds) < 2147483648
    → ((c : ℕ) (cs : Text)
        → isspace c ≡ false
        → is_no_slash c ≡ true
        → read_parameter_spec_from_string atoi (39 ∷ (d ∷ ds) ++ 32 ∷ c ∷ cs)
          ≡ some (record {
            index = number (d ∷ ds);
            type_name = without_spaces (c ∷ cs);
            type_name_regex_str = [];
          }))
      × ((re after : Text)
          → All is_no_slash re
          → read_parameter_spec_from_string atoi (39 ∷ (d ∷ ds) ++ 32 ∷ 47 ∷ (re ++ 47 ∷ after))
            ≡ some (record {
              index = number (d ∷ ds);
              type_name = [];
              type_name_regex_str = without_spaces re;
            }))
unfolding read_parameter_spec_from_string skip_spaces read_index read_slash isspace isdigit
read_parameter_spec_from_string_lem atoi is_atoi d ds h small = (
  λ c cs visible plain.
      let after_index = read_digits-All (d ∷ ds) 32 (c ∷ cs) h refl in
      let other : (c == 47) ≡ false = refuted (c == 47) plain in
      rw
        (
          after_index,
          visible,
          other,
          read_type_name-without_spaces (c ∷ cs),
          is_atoi (d ∷ ds) h small,
        )
        refl,
  λ re after plain.
      let after_index = read_digits-All (d ∷ ds) 32 (47 ∷ (re ++ 47 ∷ after)) h refl in
      rw (after_index, read_type_name_regex re after plain, is_atoi (d ∷ ds) h small) refl,
)
