-- ===== src/Changes/Maps.antt =====
-- The maps from strings that the lookup tables are, `std::unordered_map`, as association lists.
use cyglibabigail.Base.{
  Bool, true, false, List, [], ◌∷◌, Option, none, some, if◌then◌else◌, same_text, same_text_refl,
  same_text-eq, ◌≡◌, refl, sym, Bool-cases, inl, inr, ℕ, Outcome, returned, ◌>>=◌,
}

abbrev pub Text : Type 0
Text = List ℕ

pub record Entry {ℓ} (A : Type ℓ) : Type ℓ where
  pub key : Text
  pub value : A

abbrev pub Map {ℓ} : Type ℓ → Type ℓ
Map A = List (Entry A)

module _ {ℓ} {A : Type ℓ} where
  unfoldable pub find : Text → Map A → Option A
  find k [] = none
  find k (e ∷ m) = let rest = find k m in if same_text k e.key then some e.value else rest

  -- `m[k] = v`
  unfoldable pub put : Text → A → Map A → Map A
  put k v [] = record { key = k; value = v } ∷ []
  put k v (e ∷ m) =
      let rest = put k v m in
      if same_text k e.key then record { key = k; value = v } ∷ m else e ∷ rest

  unfoldable pub erase : Text → Map A → Map A
  erase k [] = []
  erase k (e ∷ m) = let rest = erase k m in if same_text k e.key then rest else e ∷ rest

-- The names of the entries whose value satisfies a test
unfoldable pub names_with : {A : Type 0} → (A → Outcome Bool) → Map A → Outcome (List Text)
names_with test [] = returned []
names_with test (e ∷ m) = do
  b ← test e.value
  ks ← names_with test m
  returned (if b then e.key ∷ ks else ks)

-- Erase each of the names
unfoldable pub erase_all : {A : Type 0} → List Text → Map A → Map A
erase_all [] m = m
erase_all (k ∷ ks) m = erase_all ks (erase k m)

pub same_text_sym : (k l : Text) → same_text k l ≡ false → same_text l k ≡ false
same_text_sym k l h = elim (Bool-cases (same_text l k)) [
  | inr there ↦ there
  | inl here ↦
      let e : same_text k l ≡ true = rw (same_text-eq l k here) (same_text_refl k) in cc (e, h)
]

different_text :
    (k l m : Text) → same_text l m ≡ false → same_text k m ≡ true → same_text k l ≡ false
different_text k l m h g = elim (Bool-cases (same_text k l)) [
  | inr there ↦ there
  | inl here ↦
      let e : k ≡ l = same_text-eq k l here in
      let f : same_text l m ≡ true = rw (sym e) g in cc (f, h)
]

module _ {ℓ} {A : Type ℓ} where
  same_test :
      (b : Bool) (o p q : A) → (if b then o else q) ≡ (if b then o else (if b then p else q))
  same_test true o p q = refl
  same_test false o p q = refl

  -- Two tests of which one holds at most.
  swap_tests :
      (b c : Bool) (o p q : A)
      → (b ≡ true → c ≡ false)
      → (if b then o else (if c then p else q)) ≡ (if c then p else (if b then o else q))
  swap_tests true c o p q h = rw (h refl) refl
  swap_tests false c o p q h = refl

module _ {ℓ} {A : Type ℓ} where
  pub find-put :
      (k l : Text) (v : A) (m : Map A)
      → find k (put l v m) ≡ (if same_text k l then some v else find k m)
  unfolding find put
  find-put k l v [] = refl
  find-put k l v (e ∷ m) = elim (Bool-cases (same_text l e.key)) [
    | inl here ↦
        rw (here, same_text-eq l e.key here)
          (same_test (same_text k e.key) (some v) (some e.value) (find k m))
    | inr there ↦
        rw (there, find-put k l v m)
          (swap_tests (same_text k e.key) (same_text k l) (some e.value) (some v) (find k m)
            (different_text k l e.key there))
  ]

  pub find-erase :
      (k l : Text) (m : Map A) → find k (erase l m) ≡ (if same_text k l then none else find k m)
  unfolding find erase
  find-erase k l [] = elim (Bool-cases (same_text k l)) [ inl h ↦ rw h refl | inr h ↦ rw h refl ]
  find-erase k l (e ∷ m) = elim (Bool-cases (same_text l e.key)) [
    | inl here ↦
        rw (here, find-erase k l m)
          (rw (same_text-eq l e.key here)
            (same_test (same_text k e.key) none (some e.value) (find k m)))
    | inr there ↦
        rw (there, find-erase k l m)
          (swap_tests (same_text k e.key) (same_text k l) (some e.value) none (find k m)
            (different_text k l e.key there))
  ]
