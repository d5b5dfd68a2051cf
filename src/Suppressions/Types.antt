-- ===== src/Suppressions/Types.antt =====
-- `type_suppression` of `src/abg-comparison.cc`.
use cyglibabigail.Base.{
  Bool, true, false, not, ◌&&◌, ◌||◌, Option, none, some, if◌then◌else◌, ◌≡◌, ◌≢◌, ◌↔◌, refl, ◌⊎◌,
  inl, inr, Bool-cases, Outcome, returned, aborted, ◌>>=◌,
}
use cyglibabigail.Changes.Maps.{Text}
use cyglibabigail.Suppressions.Criteria.{
  Regcomp, misses, Met, either_misses-EitherMet, return_false_iff, return_true_iff,
}

pub data TypeKind : Type 0 where
  unknown_type_kind class_type_kind struct_type_kind union_type_kind : TypeKind
  enum_type_kind array_type_kind typedef_type_kind builtin_type_kind : TypeKind

pub record TypeSuppression : Type 0 where
  pub label : Text
  pub type_name_regex_str : Text
  pub type_name : Text
  pub consider_type_kind : Bool
  pub type_kind : TypeKind

-- `type_suppression::type_suppression`
abbrev pub new_type_suppression : Text → Text → Text → TypeSuppression
new_type_suppression label type_name_regexp type_name = record {
  label = label;
  type_name_regex_str = type_name_regexp;
  type_name = type_name;
  consider_type_kind = false;
  type_kind = class_type_kind;
}

abbrev pub set_consider_type_kind : Bool → TypeSuppression → TypeSuppression
set_consider_type_kind f s = record s { consider_type_kind = f }

abbrev pub set_type_kind : TypeKind → TypeSuppression → TypeSuppression
set_type_kind k s = record s { type_kind = k }

-- What the suppression asks of a type: its name, and what the casts to each class of types give. A
-- class has the flag of a struct.
pub record TypeSubject : Type 0 where
  pub name : Text
  pub class_decl : Option Bool
  pub is_enum_type : Bool
  pub is_array_type : Bool
  pub is_typedef : Bool
  pub is_type_decl : Bool

abbrev pub is_class : Option Bool → Bool
is_class none = false
is_class (some is_struct) = true

abbrev pub is_plain_class : Option Bool → Bool
is_plain_class none = false
is_plain_class (some is_struct) = not is_struct

-- The `switch`: whether neither type is of the kind.
unfoldable pub kind_misses : TypeKind → TypeSubject → TypeSubject → Outcome Bool
kind_misses unknown_type_kind ft st =
    returned (not (is_class ft.class_decl) && not (is_class st.class_decl))
kind_misses class_type_kind ft st =
    returned (not (is_class ft.class_decl) && not (is_class st.class_decl))
kind_misses struct_type_kind ft st = returned (
    (not (is_class ft.class_decl) && not (is_class st.class_decl))
    || (is_plain_class ft.class_decl && is_plain_class st.class_decl))
kind_misses union_type_kind ft st = aborted
kind_misses enum_type_kind ft st = returned (not ft.is_enum_type && not st.is_enum_type)
kind_misses array_type_kind ft st = returned (not ft.is_array_type && not st.is_array_type)
kind_misses typedef_type_kind ft st = returned (not ft.is_typedef && not st.is_typedef)
kind_misses builtin_type_kind ft st = returned (not ft.is_type_decl && not st.is_type_decl)

-- The test of the kind that a suppression asks for, when it asks for one.
abbrev kind_test : TypeSuppression → TypeSubject → TypeSubject → Outcome Bool
kind_test s ft st = if s.consider_type_kind then kind_misses s.type_kind ft st else returned false

module _ (regcomp : Regcomp) where
  -- `type_suppression::suppresses_diff`, on a diff node of two types
  unfoldable pub type_suppresses : TypeSuppression → TypeSubject → TypeSubject → Outcome Bool
  type_suppresses s ft st = do
    other_kind ← kind_test s ft st
    returned (
        if other_kind
        then false
        else if misses regcomp s.type_name s.type_name_regex_str ft.name st.name
        then false
        else true)

-- One of both types is of the kind. A plain class counts as a struct where the other type is none.
unfoldable pub KindMet : TypeKind → TypeSubject → TypeSubject → Type 0
KindMet unknown_type_kind ft st = (is_class ft.class_decl ≡ true) ⊎ (is_class st.class_decl ≡ true)
KindMet class_type_kind ft st = (is_class ft.class_decl ≡ true) ⊎ (is_class st.class_decl ≡ true)
KindMet struct_type_kind ft st =
    ((ft.class_decl ≡ some true) ⊎ (st.class_decl ≡ some true))
    ⊎ (((ft.class_decl ≡ some false) × (st.class_decl ≡ none))
        ⊎ ((ft.class_decl ≡ none) × (st.class_decl ≡ some false)))
KindMet union_type_kind ft st = ⊥
KindMet enum_type_kind ft st = (ft.is_enum_type ≡ true) ⊎ (st.is_enum_type ≡ true)
KindMet array_type_kind ft st = (ft.is_array_type ≡ true) ⊎ (st.is_array_type ≡ true)
KindMet typedef_type_kind ft st = (ft.is_typedef ≡ true) ⊎ (st.is_typedef ≡ true)
KindMet builtin_type_kind ft st = (ft.is_type_decl ≡ true) ⊎ (st.is_type_decl ≡ true)

one_of : (p q : Bool) → ((not p && not q) ≡ false) ↔ ((p ≡ true) ⊎ (q ≡ true))
one_of true q = ((λ h. inl refl), λ h. refl)
one_of false true = ((λ h. inr refl), λ h. refl)
one_of false false = ((λ h. cc h), λ h. elim h [ inl e ↦ cc e | inr e ↦ cc e ])

abbrev IsStruct : Option Bool → Option Bool → Type 0
IsStruct o p =
    ((o ≡ some true) ⊎ (p ≡ some true))
    ⊎ (((o ≡ some false) × (p ≡ none)) ⊎ ((o ≡ none) × (p ≡ some false)))

abbrev struct_misses : Option Bool → Option Bool → Bool
struct_misses o p = (not (is_class o) && not (is_class p)) || (is_plain_class o && is_plain_class p)

IsStruct-met : (o p : Option Bool) → struct_misses o p ≡ false → IsStruct o p
IsStruct-met none none h = cc h
IsStruct-met none (some true) h = inl (inr refl)
IsStruct-met none (some false) h = inr (inr (refl, refl))
IsStruct-met (some true) p h = inl (inl refl)
IsStruct-met (some false) none h = inr (inl (refl, refl))
IsStruct-met (some false) (some true) h = inl (inr refl)
IsStruct-met (some false) (some false) h = cc h

struct_not_missed : (o p : Option Bool) → IsStruct o p → struct_misses o p ≡ false
struct_not_missed none none (inl (inl e)) = cc e
struct_not_missed none none (inl (inr e)) = cc e
struct_not_missed none none (inr (inl (e, f))) = cc e
struct_not_missed none none (inr (inr (e, f))) = cc f
struct_not_missed none (some b) h = refl
struct_not_missed (some true) p h = refl
struct_not_missed (some false) none h = refl
struct_not_missed (some false) (some true) h = refl
struct_not_missed (some false) (some false) (inl (inl e)) = cc e
struct_not_missed (some false) (some false) (inl (inr e)) = cc e
struct_not_missed (some false) (some false) (inr (inl (e, f))) = cc f
struct_not_missed (some false) (some false) (inr (inr (e, f))) = cc e

module _ (ft st : TypeSubject) where
  kind_misses-KindMet :
      (k : TypeKind)
      → k ≢ union_type_kind
      → (b : Bool) × (kind_misses k ft st ≡ returned b) × ((b ≡ false) ↔ KindMet k ft st)
  unfolding kind_misses KindMet
  kind_misses-KindMet unknown_type_kind u =
      (_, refl, one_of (is_class ft.class_decl) (is_class st.class_decl))
  kind_misses-KindMet class_type_kind u =
      (_, refl, one_of (is_class ft.class_decl) (is_class st.class_decl))
  kind_misses-KindMet struct_type_kind u = (
    _,
    refl,
    (IsStruct-met ft.class_decl st.class_decl, struct_not_missed ft.class_decl st.class_decl),
  )
  kind_misses-KindMet union_type_kind u = absurd (u refl)
  kind_misses-KindMet enum_type_kind u = (_, refl, one_of ft.is_enum_type st.is_enum_type)
  kind_misses-KindMet array_type_kind u = (_, refl, one_of ft.is_array_type st.is_array_type)
  kind_misses-KindMet typedef_type_kind u = (_, refl, one_of ft.is_typedef st.is_typedef)
  kind_misses-KindMet builtin_type_kind u = (_, refl, one_of ft.is_type_decl st.is_type_decl)

abbrev pub AsksForUnion : TypeSuppression → Type 0
AsksForUnion s = (s.consider_type_kind ≡ true) × (s.type_kind ≡ union_type_kind)

abbrev pub KindAsked : TypeSuppression → TypeSubject → TypeSubject → Type 0
KindAsked s ft st = s.consider_type_kind ≡ true → KindMet s.type_kind ft st

kind_test-KindAsked :
    (s : TypeSuppression) (ft st : TypeSubject)
    → ¬ AsksForUnion s
    → (b : Bool) × (kind_test s ft st ≡ returned b) × ((b ≡ false) ↔ KindAsked s ft st)
kind_test-KindAsked s ft st supported = elim (Bool-cases s.consider_type_kind) [
  | inl asked ↦
      let (b, returns, iff) = kind_misses-KindMet ft st s.type_kind (λ e. supported (asked, e)) in
      (b, rw asked returns, ((λ h a. iff.0 h), λ k. iff.1 (k asked)))
  | inr unasked ↦ (false, rw unasked refl, ((λ h a. absurd (cc (a, unasked))), λ k. refl))
]

-- A suppression of types that asks for unions, which the manual documents, stops the program, and
-- only such. Any other returns, and suppresses the diff of two types just where one of them is of the
-- kind asked for, if one is asked for, and where one has the name that is asked for, or, where no name
-- is, one matches the regular expression, if there is one that compiles. A class that is no struct
-- counts as a struct where the other type is no class.
pub type_suppresses-Met :
    (regcomp : Regcomp) (s : TypeSuppression) (ft st : TypeSubject)
    → (AsksForUnion s → type_suppresses regcomp s ft st ≡ aborted)
      × (¬ AsksForUnion s
          → (b : Bool) × (type_suppresses regcomp s ft st ≡ returned b)
            × ((b ≡ true) ↔ (
                KindAsked s ft st × Met regcomp s.type_name s.type_name_regex_str ft.name st.name)))
unfolding type_suppresses kind_misses
type_suppresses-Met regcomp s ft st = (
  λ (asked, union). rw (asked, union) refl,
  λ supported.
      let (other_kind, returns, iff) = kind_test-KindAsked s ft st supported in
      let missed = misses regcomp s.type_name s.type_name_regex_str ft.name st.name in
      (
        if other_kind then false else if missed then false else true,
        rw returns refl,
        return_false_iff other_kind (if missed then false else true) iff (
            return_true_iff missed (
              either_misses-EitherMet regcomp s.type_name s.type_name_regex_str ft.name st.name
                ft.name st.name)),
      ),
)
