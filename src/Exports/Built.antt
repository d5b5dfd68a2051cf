-- ===== src/Exports/Built.antt =====
-- What the `exported_decls_builder` of `src/abg-corpus.cc` builds is ready for the comparison of corpora.
use cyglibabigail.Base.{
  true, false, List, [], ◌∷◌, ◌++◌, none, some, if◌then◌else◌, same_text, same_text-eq, ◌≡◌, refl,
  sym, ◌∙◌, ap, Bool-cases, Option-cases, inl, inr, ◌⊎◌, returned,
}
use cyglibabigail.Changes.Maps.{Text, find, put, find-put, same_text_sym}
use cyglibabigail.Changes.Loops.{named, AreDistinct}
use cyglibabigail.Changes.Decls.{Decl, get_id}
use cyglibabigail.Changes.Pruned.{HasSymbol}
use cyglibabigail.Changes.CorpusLaws.{AreExported, Every, HasId}
use cyglibabigail.Suppressions.Criteria.{Regcomp}
use cyglibabigail.Exports.Kept.{IsKept, is_kept-IsKept, IsKept-is_kept}
use cyglibabigail.Exports.Builder.{
  Candidate, Builder, add_to_exported, is_kept, maybe_add_to_exported,
}

-- The declarations are ready to be compared, and the map finds each by its id.
pub record IsBuilt (b : Builder) : Type 0 where
  pub exported : AreExported b.decls
  pub in_map : (k : Text) → find k b.decls_map ≡ named get_id k b.decls

Every-append :
    (P : Decl → Type 0) (xs : List Decl) (d : Decl) → Every P xs → P d → Every P (xs ++ d ∷ [])
Every-append P [] d h p = (p, tt)
Every-append P (x ∷ xs) d h p = (h.0, Every-append P xs d h.1 p)

module _ (d : Decl) where
  named-append :
      (k : Text) (xs : List Decl)
      → named get_id (get_id d) xs ≡ none
      → named get_id k (xs ++ d ∷ [])
        ≡ (if same_text k (get_id d) then some d else named get_id k xs)
  unfolding named
  named-append k [] h = refl
  named-append k (x ∷ xs) h = elim (Bool-cases (same_text (get_id d) (get_id x))) [
    | inl here ↦ absurd (cc (h, here))
    | inr there ↦
        let h' : named get_id (get_id d) xs ≡ none = rw there at h in
        elim (Bool-cases (same_text k (get_id x))) [
          | inl at_x ↦
              let other : same_text k (get_id d) ≡ false =
                rw (same_text-eq k (get_id x) at_x) (same_text_sym (get_id d) (get_id x) there) in
              rw (at_x, other) refl
          | inr not_x ↦ rw not_x (named-append k xs h')
        ]
  ]

  AreDistinct-append :
      (xs : List Decl)
      → AreDistinct get_id xs
      → named get_id (get_id d) xs ≡ none
      → AreDistinct get_id (xs ++ d ∷ [])
  unfolding AreDistinct named
  AreDistinct-append [] u h = (refl, tt)
  AreDistinct-append (x ∷ xs) u h = elim (Bool-cases (same_text (get_id d) (get_id x))) [
    | inl here ↦ absurd (cc (h, here))
    | inr there ↦
        let h' : named get_id (get_id d) xs ≡ none = rw there at h in
        (
          named-append (get_id x) xs h' ∙ rw (same_text_sym (get_id d) (get_id x) there) u.0,
          AreDistinct-append xs u.1 h',
        )
  ]

module _ (d : Decl) (b : Builder) (built : IsBuilt b) where
  -- A declaration of a new id keeps the builder well-formed.
  added-IsBuilt :
      HasSymbol d
      → HasId d
      → named get_id (get_id d) b.decls ≡ none
      → IsBuilt (record b { decls = b.decls ++ d ∷ []; decls_map = put (get_id d) d b.decls_map })
  added-IsBuilt symbol id new = record {
    exported = record {
      symbols = Every-append HasSymbol b.decls d built.exported.symbols symbol;
      ids = Every-append HasId b.decls d built.exported.ids id;
      distinct = AreDistinct-append d b.decls built.exported.distinct new;
    };
    in_map = λ k.
        find-put k (get_id d) d b.decls_map
        ∙ ap (λ z. if same_text k (get_id d) then some d else z) (built.in_map k)
        ∙ sym (named-append d k b.decls new);
  }

added :
    (b : Builder) (d : Decl)
    → find (get_id d) b.decls_map ≡ none
    → add_to_exported d b
      ≡ record b { decls = b.decls ++ d ∷ []; decls_map = put (get_id d) d b.decls_map }
unfolding add_to_exported
added b d e = rw e refl

-- The builder is to add a candidate: it is public, its id is new, and the options keep it.
pub record IsAdded (regcomp : Regcomp) (c : Candidate) (b : Builder) : Type 0 where
  pub public : c.is_in_public_symbol_table ≡ true
  pub new : named get_id (get_id c.decl) b.decls ≡ none
  pub kept : IsKept regcomp c.decl c.qualified_name b

-- From declarations that each have a symbol and an id of their own, and that the map of the builder
-- finds by their ids, offering it a declaration with an id returns with no assertion failing, and the
-- declarations are again such. The declaration is added behind them where it is public, none of them
-- has its id, it has a symbol, which an id to keep names if there are any, no regular expression to
-- suppress matches its qualified name, and one to keep does, if any compiles; else the builder stays
-- as it is. An id to keep names a symbol by name and version, and one without a version by the
-- version of the ids before it.
pub maybe_add_to_exported-IsBuilt :
    (regcomp : Regcomp) (c : Candidate) (b : Builder)
    → IsBuilt b
    → HasId c.decl
    → (b' : Builder) × (maybe_add_to_exported regcomp c b ≡ returned b')
      × IsBuilt b'
      × ((IsAdded regcomp c b × (b'.decls ≡ b.decls ++ c.decl ∷ []))
          ⊎ (¬ IsAdded regcomp c b × (b' ≡ b)))
unfolding maybe_add_to_exported
maybe_add_to_exported-IsBuilt regcomp c b built id = elim (Bool-cases c.is_in_public_symbol_table) [
  | inr private ↦
      (b, rw private refl, built, inr ((λ a. let p = a.public in cc (p, private)), refl))
  | inl public ↦ elim (Option-cases (named get_id (get_id c.decl) b.decls)) [
    | inr (d, old) ↦
        let e : find (get_id c.decl) b.decls_map ≡ some d = built.in_map (get_id c.decl) ∙ old in
        (b, rw (public, id, e) refl, built, inr ((λ a. let n = a.new in cc (n, old)), refl))
    | inl new ↦
        let e : find (get_id c.decl) b.decls_map ≡ none = built.in_map (get_id c.decl) ∙ new in
        elim (Bool-cases (is_kept regcomp c.decl c.qualified_name b)) [
          | inr dropped ↦ (
            b,
            rw (public, id, e, dropped) refl,
            built,
            inr (
              (λ a.
                  let k = IsKept-is_kept regcomp c.decl c.qualified_name b a.kept in
                  cc (k, dropped)),
              refl,
            ),
          )
          | inl kept ↦
              let k = is_kept-IsKept regcomp c.decl c.qualified_name b kept in
              (
                record b {
                  decls = b.decls ++ c.decl ∷ [];
                  decls_map = put (get_id c.decl) c.decl b.decls_map;
                },
                rw (public, id, e, kept) (ap returned (added b c.decl e)),
                added-IsBuilt c.decl b built (k.symbol, k.has_symbol) id new,
                inl (record { public = public; new = new; kept = k }, refl),
              )
        ]
  ]
]
