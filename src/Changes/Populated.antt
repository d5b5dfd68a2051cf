-- ===== src/Changes/Populated.antt =====
-- What lookup tables of `src/abg-comparison.cc` hold once a script has been walked, by name.
use cyglibabigail.Base.{
  ℕ, Bool, List, Option, none, some, if◌then◌else◌, ◌≡◌, refl, ◌∙◌, ap, inr, ℤ, Outcome, returned,
  ◌>>=◌,
}
use cyglibabigail.EditScripts.Scripts.{EditScript}
use cyglibabigail.EditScripts.Edits.{all_inserted}
use cyglibabigail.Changes.Maps.{Text}
use cyglibabigail.Changes.Loops.{
  for_each, for_each_inserted, for_each_inserted-indexes, named, act_on, Acts, for_each-Acts,
}
use cyglibabigail.Changes.Tables.{
  Tables, empty_tables, View, view, empty_view, view-empty, deleted_view, inserted_view,
}
use cyglibabigail.Changes.Agreement.{Agree, kept, edited, Edited, Sided, sided, Deletes, Inserts}

module _ {E : Type 0} where
  -- The element of the one side that the other side has none for.
  abbrev pub gone : Option E → Option E → Option E
  gone (some a) none = some a
  gone _ _ = none

  -- The element before and after, where they differ.
  abbrev pub differing : (E → E → Bool) → Option E → Option E → Option (E × E)
  differing same (some a) (some b) = if same a b then none else some (a, b)
  differing same _ _ = none

  -- The abstract view of a comparison at a name that the sequences have these elements for.
  abbrev pub difference : (E → E → Bool) → Option E → Option E → View E
  difference same o p = record {
    deleted = gone o p;
    inserted = gone p o;
    changed = differing same o p;
  }

  abbrev pub NotDeleted : View E → Type 0
  NotDeleted v = v.deleted ≡ none

  abbrev pub NotInserted : View E → Type 0
  NotInserted v = v.inserted ≡ none

module _ {E : Type 0} (name : E → Text) (same : E → E → Bool) where
  edited_view :
      (q r : Option E)
      → act_on (inserted_view name same) r (act_on (deleted_view name) q empty_view)
        ≡ difference same q r
  unfolding inserted_view
  edited_view none none = refl
  edited_view none (some b) = refl
  edited_view (some a) none = refl
  edited_view (some a) (some b) = refl

  -- The elements that are edited differ as the sequences do.
  pub agreed_difference :
      {o p q r : Option E} → Agree name same o p q r → difference same q r ≡ difference same o p
  agreed_difference (kept h) = rw h refl
  agreed_difference edited = refl

  still-NotInserted : (o : Option E) → NotInserted (act_on (deleted_view name) o empty_view)
  still-NotInserted none = refl
  still-NotInserted (some e) = refl

  -- The tables after both loops over a script, by the elements that it edits.
  pub walked_sided :
      (xs ys : List E) (ses : EditScript) (delete : ℤ → Tables E → Outcome (Tables E))
      (insert : ℕ → Tables E → Outcome (Tables E)) (Good : Tables E → Type 0)
      → (r : Sided name xs ys 0 0 (all_inserted ses.insertions) ses.deletions)
      → Acts name (Deletes xs) view delete (deleted_view name) NotDeleted Good
      → Acts name (Inserts ys) view insert (inserted_view name same) NotInserted Good
      → Good empty_tables
      → (t : Tables E) × (for_each delete ses.deletions empty_tables
            >>= (λ s. for_each_inserted insert ses.insertions s)
          ≡ returned t)
        × Good t
        × ((k : Text)
            → view k t ≡ difference same (named name k r.deleted) (named name k r.inserted))
  walked_sided xs ys ses delete insert Good r deletes inserts good =
      let (s, returns, good', v) =
        for_each-Acts name (Deletes xs) view delete (deleted_view name) NotDeleted Good deletes
          r.deletes r.deleted_apart empty_tables (λ k. inr (ap (λ z. z.deleted) (view-empty k)))
          good in
      let at : (k : Text)
          → view k s ≡ act_on (deleted_view name) (named name k r.deleted) empty_view =
        λ k. v k ∙ ap (λ z. act_on (deleted_view name) (named name k r.deleted) z) (view-empty k) in
      let (t, returns', good'', w) =
        for_each-Acts name (Inserts ys) view insert (inserted_view name same) NotInserted Good
          inserts r.inserts r.inserted_apart s
          (λ k. inr (ap (λ z. z.inserted) (at k) ∙ still-NotInserted (named name k r.deleted)))
          good' in
      (
        t,
        rw returns (for_each_inserted-indexes insert ses.insertions s ∙ returns'),
        good'',
        λ k.
            w k
            ∙ ap (λ z. act_on (inserted_view name same) (named name k r.inserted) z) (at k)
            ∙ edited_view (named name k r.deleted) (named name k r.inserted),
      )

  -- The same, by both sequences.
  pub walked :
      (xs ys : List E) (ses : EditScript) (delete : ℤ → Tables E → Outcome (Tables E))
      (insert : ℕ → Tables E → Outcome (Tables E)) (Good : Tables E → Type 0)
      → Edited name same xs ys 0 0 (all_inserted ses.insertions) ses.deletions
      → Acts name (Deletes xs) view delete (deleted_view name) NotDeleted Good
      → Acts name (Inserts ys) view insert (inserted_view name same) NotInserted Good
      → Good empty_tables
      → (t : Tables E) × (for_each delete ses.deletions empty_tables
            >>= (λ s. for_each_inserted insert ses.insertions s)
          ≡ returned t)
        × Good t
        × ((k : Text) → view k t ≡ difference same (named name k xs) (named name k ys))
  walked xs ys ses delete insert Good r deletes inserts good =
      let (t, returns, good', views) =
        walked_sided xs ys ses delete insert Good (sided name same r) deletes inserts good in
      (t, returns, good', λ k. views k ∙ agreed_difference (r.agree k))
