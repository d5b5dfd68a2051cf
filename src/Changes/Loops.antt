-- ===== src/Changes/Loops.antt =====
-- The loops of `src/abg-comparison.cc` over the deletions and insertions of an edit script, and what a
-- loop does to each name when each of its steps acts on the name of its element only.
use cyglibabigail.Base.{
  ℕ, ℤ, Bool, true, false, List, [], ◌∷◌, ◌++◌, Option, none, some, if◌then◌else◌, Outcome,
  returned, aborted, out_of_fuel, ◌>>=◌, same_text, same_text_refl, same_text-eq, ◌≡◌, refl, sym,
  ◌∙◌, ap, ◌⊎◌, inl, inr, Bool-cases,
}
use mathlib.Core.Path.{subst}
use cyglibabigail.EditScripts.Scripts.{Insertion}
use cyglibabigail.EditScripts.Edits.{Inserted, all_inserted, inserted_at}
use cyglibabigail.Changes.Maps.{Text}

-- A `for` loop whose body may stop the program
abbrev pub for_each {ℓ κ} : {A : Type ℓ} {S : Type κ} → (A → S → Outcome S) → List A → S → Outcome S
for_each f [] s = returned s
for_each f (x ∷ xs) s = f x s >>= (λ t. for_each f xs t)

-- The loop over the insertions and, for each, over its indexes
abbrev pub for_each_inserted {ℓ} :
    {S : Type ℓ} → (ℕ → S → Outcome S) → List Insertion → S → Outcome S
for_each_inserted f is s = for_each (λ i t. for_each f i.inserted_indexes t) is s

-- The indexes that the insertions of a path name.
abbrev pub inserted_indexes : List Inserted → List ℕ
inserted_indexes [] = []
inserted_indexes (p ∷ ps) = p.1 ∷ inserted_indexes ps

module _ {S : Type 0} where
  bind_cong : (o : Outcome S) {g h : S → Outcome S} → ((s : S) → g s ≡ h s) → o >>= g ≡ o >>= h
  bind_cong (returned s) e = e s
  bind_cong aborted e = refl
  bind_cong out_of_fuel e = refl

  bind_assoc : (o : Outcome S) (g h : S → Outcome S) → o >>= g >>= h ≡ o >>= (λ s. g s >>= h)
  bind_assoc (returned s) g h = refl
  bind_assoc aborted g h = refl
  bind_assoc out_of_fuel g h = refl

module _ {S : Type 0} (f : ℕ → S → Outcome S) where
  for_each-++ :
      (xs ys : List ℕ) (s : S)
      → for_each f (xs ++ ys) s ≡ for_each f xs s >>= (λ t. for_each f ys t)
  for_each-++ [] ys s = refl
  for_each-++ (x ∷ xs) ys s =
      bind_cong (f x s) (for_each-++ xs ys)
      ∙ sym (bind_assoc (f x s) (λ t. for_each f xs t) (λ t. for_each f ys t))

  indexes_of_one :
      (p : ℤ) (js : List ℕ) (ps : List Inserted)
      → inserted_indexes (inserted_at p js ++ ps) ≡ js ++ inserted_indexes ps
  indexes_of_one p [] ps = refl
  indexes_of_one p (j ∷ js) ps = ap (λ z. j ∷ z) (indexes_of_one p js ps)

  -- The two nested loops are one over all the indexes.
  pub for_each_inserted-indexes :
      (is : List Insertion) (s : S)
      → for_each_inserted f is s ≡ for_each f (inserted_indexes (all_inserted is)) s
  unfolding all_inserted
  for_each_inserted-indexes [] s = refl
  for_each_inserted-indexes (i ∷ is) s =
      bind_cong (for_each f i.inserted_indexes s) (for_each_inserted-indexes is)
      ∙ sym (for_each-++ i.inserted_indexes (inserted_indexes (all_inserted is)) s)
      ∙ ap (λ z. for_each f z s)
          (sym (indexes_of_one i.insertion_point_index i.inserted_indexes (all_inserted is)))

-- The elements that a list of indexes is of.
pub data Picks {A E : Type 0} (At : A → E → Type 0) : List A → List E → Type 0 where
  nothing_picked : Picks At [] []
  picked :
      {a : A} {e : E} {xs : List A} {es : List E}
      → At a e
      → Picks At xs es
      → Picks At (a ∷ xs) (e ∷ es)

module _ {E : Type 0} (name : E → Text) where
  -- The first element with a name
  unfoldable pub named : Text → List E → Option E
  named k [] = none
  named k (e ∷ es) = let rest = named k es in if same_text k (name e) then some e else rest

  unfoldable pub AreDistinct : List E → Type 0
  AreDistinct [] = Unit {0}
  AreDistinct (e ∷ es) = (named (name e) es ≡ none) × AreDistinct es

  pub named_self : (e : E) (es : List E) → named (name e) (e ∷ es) ≡ some e
  unfolding named
  named_self e es = rw (same_text_refl (name e)) refl

  pub named_other :
      (k : Text) (e : E) (es : List E)
      → same_text k (name e) ≡ false
      → named k (e ∷ es) ≡ named k es
  unfolding named
  named_other k e es h = rw h refl

-- What is done for the element of a name, when there is one.
abbrev pub act_on : {E V : Type 0} → (E → V → V) → Option E → V → V
act_on act none v = v
act_on act (some e) v = act e v

-- A step that acts on what the state has at the name of its element, where that is ready for it.
module _ {A E S V : Type 0} (name : E → Text) (At : A → E → Type 0) (view : Text → S → V) where
  abbrev pub Acts : (A → S → Outcome S) → (E → V → V) → (V → Type 0) → (S → Type 0) → Type 0
  Acts step act Ready Good =
      (a : A) (e : E) (s : S)
      → At a e
      → Ready (view (name e) s)
      → Good s
      → (t : S) × (step a s ≡ returned t)
        × Good t
        × ((k : Text) → view k t ≡ (if same_text k (name e) then act e (view k s) else view k s))

  module _ (step : A → S → Outcome S) (act : E → V → V) (Ready : V → Type 0)
      (Good : S → Type 0) where
    rest_distinct : (e : E) (es : List E) → AreDistinct name (e ∷ es) → AreDistinct name es
    unfolding AreDistinct
    rest_distinct e es d = d.1

    still-Ready :
        (e : E) (es : List E) (s t : S)
        → AreDistinct name (e ∷ es)
        → ((k : Text) → view k t ≡ (if same_text k (name e) then act e (view k s) else view k s))
        → ((k : Text) → (named name k (e ∷ es) ≡ none) ⊎ Ready (view k s))
        → (k : Text) → (named name k es ≡ none) ⊎ Ready (view k t)
    unfolding AreDistinct
    still-Ready e es s t d v ready k = elim (Bool-cases (same_text k (name e))) [
      | inl here ↦ inl (rw (same_text-eq k (name e) here) d.0)
      | inr there ↦
          let same : view k t ≡ view k s = rw there at (v k) in
          elim (ready k) [
            | inl h ↦ inl (sym (named_other name k e es there) ∙ h)
            | inr r ↦ inr (subst Ready (sym same) r)
          ]
    ]

    acted_on :
        (e : E) (es : List E) (s t u : S)
        → AreDistinct name (e ∷ es)
        → ((k : Text) → view k t ≡ (if same_text k (name e) then act e (view k s) else view k s))
        → ((k : Text) → view k u ≡ act_on act (named name k es) (view k t))
        → (k : Text) → view k u ≡ act_on act (named name k (e ∷ es)) (view k s)
    unfolding AreDistinct named
    acted_on e es s t u d v w k = elim (Bool-cases (same_text k (name e))) [
      | inl here ↦
          let none_left : named name k es ≡ none = rw (same_text-eq k (name e) here) d.0 in
          let first : view k t ≡ act e (view k s) = rw here at (v k) in
          let last : view k u ≡ view k t = rw none_left at (w k) in rw here (last ∙ first)
      | inr there ↦
          let same : view k t ≡ view k s = rw there at (v k) in
          rw there (w k ∙ ap (λ z. act_on act (named name k es) z) same)
    ]

    -- A loop of such steps over elements with distinct names.
    pub for_each-Acts :
        Acts step act Ready Good
        → {xs : List A} {es : List E} → Picks At xs es
        → AreDistinct name es
        → (s : S) → ((k : Text) → (named name k es ≡ none) ⊎ Ready (view k s))
        → Good s
        → (t : S) × (for_each step xs s ≡ returned t)
          × Good t
          × ((k : Text) → view k t ≡ act_on act (named name k es) (view k s))
    unfolding named
    for_each-Acts acts nothing_picked d s ready good = (s, refl, good, λ k. refl)
    for_each-Acts acts (picked {a} {e} {xs} {es} p q) d s ready good =
        let here : Ready (view (name e) s) = elim (ready (name e)) [
          | inl h ↦ absurd (cc (h, named_self name e es))
          | inr r ↦ r
        ] in
        let (t, returns, good', v) = acts a e s p here good in
        let (u, returns', good'', w) =
          for_each-Acts acts q (rest_distinct e es d) t (still-Ready e es s t d v ready) good' in
        (u, rw returns returns', good'', acted_on e es s t u d v w)

-- The element at an index; out of range is undefined in the source, and aborts here.
abbrev pub element_of {ℓ} : {A : Type ℓ} → Option A → Outcome A
element_of none = aborted
element_of (some a) = returned a

-- `assert(m.find(name) == m.end())`
abbrev pub assert_none {ℓ} : {A : Type ℓ} → Option A → Outcome (Unit {0})
assert_none none = returned tt
assert_none (some a) = aborted

abbrev pub assert_true : Bool → Outcome (Unit {0})
assert_true true = returned tt
assert_true false = aborted

-- A loop of steps that return does return.
pub for_each_returns :
    {A E S : Type 0} {At : A → E → Type 0} (step : A → S → Outcome S)
    → ((a : A) (e : E) (s : S) → At a e → (t : S) × (step a s ≡ returned t))
    → {xs : List A} {es : List E} → Picks At xs es
    → (s : S) → (t : S) × (for_each step xs s ≡ returned t)
for_each_returns step steps nothing_picked s = (s, refl)
for_each_returns step steps (picked p q) s =
    let (t, returns) = steps _ _ s p in
    let (u, returns') = for_each_returns step steps q t in (u, rw returns returns')
