-- ===== src/Changes/Tables.antt =====
-- The three tables of `src/abg-comparison.cc` that a pair of sequences is compared with, and what one
-- inserted or deleted element does to them, seen at one name.
use cyglibabigail.Base.{
  ℕ, Bool, true, false, [], ◌∷◌, Option, none, some, if◌then◌else◌, same_text, same_text_refl, ◌≡◌,
  refl, ℤ, pos, negsuc, ◌-◌, ◌%◌, ◌<◌, arith, Bool-cases, inl, inr, same_text-eq,
}
use cyglibabigail.Changes.Maps.{Text, Map, find, put, erase, find-put, find-erase}

-- A change is the pair of the element before and the element after.
pub record Tables (E : Type 0) : Type 0 where
  pub deleted : Map E
  pub inserted : Map E
  pub changed : Map (E × E)

abbrev pub empty_tables : {E : Type 0} → Tables E
empty_tables = record { deleted = []; inserted = []; changed = [] }

abbrev pub is_empty_map : {A : Type 0} → Map A → Bool
is_empty_map [] = true
is_empty_map (e ∷ m) = false

-- `unsigned i = it->index()`, of an `int`
unfoldable pub to_unsigned : ℤ → ℕ
to_unsigned (pos n) = n % 4294967296
to_unsigned (negsuc n) = 4294967295 - n % 4294967296

pub to_unsigned-pos : (n : ℕ) → n < 4294967296 → to_unsigned (pos n) ≡ n
unfolding to_unsigned
to_unsigned-pos n h = omega arith

-- What the tables have at one name.
pub record View (E : Type 0) : Type 0 where
  pub deleted : Option E
  pub inserted : Option E
  pub changed : Option (E × E)

module _ {E : Type 0} where
  unfoldable pub view : Text → Tables E → View E
  view k t = record {
    deleted = find k t.deleted;
    inserted = find k t.inserted;
    changed = find k t.changed;
  }

  abbrev pub empty_view : View E
  empty_view = record { deleted = none; inserted = none; changed = none }

  pub view-empty : (k : Text) → view k empty_tables ≡ empty_view
  unfolding view find
  view-empty k = refl

  module _ (name : E → Text) where
    abbrev pub add_deleted : E → Tables E → Tables E
    add_deleted e t = record t { deleted = put (name e) e t.deleted }

    abbrev pub deleted_view : E → View E → View E
    deleted_view e v = record v { deleted = some e }

    pub view-add_deleted :
        (e : E) (t : Tables E) (k : Text)
        → view k (add_deleted e t)
          ≡ (if same_text k (name e) then deleted_view e (view k t) else view k t)
    unfolding view
    view-add_deleted e t k = elim (Bool-cases (same_text k (name e))) [
      | inl here ↦ rw (find-put k (name e) e t.deleted, here) refl
      | inr there ↦ rw (find-put k (name e) e t.deleted, there) refl
    ]

    module _ (same : E → E → Bool) where
      abbrev pub settle : Option E → E → Tables E → Tables E
      settle none e t = record t { inserted = put (name e) e t.inserted }
      settle (some old) e t = record t {
        changed = if same old e then t.changed else put (name e) (old, e) t.changed;
        deleted = erase (name e) t.deleted;
      }

      -- An inserted element whose name was deleted is a change, if it differs.
      unfoldable pub add_inserted : E → Tables E → Tables E
      add_inserted e t = settle (find (name e) t.deleted) e t

      abbrev pub settled_view : Option E → E → View E → View E
      settled_view none e v = record v { inserted = some e }
      settled_view (some old) e v = record v {
        deleted = none;
        changed = if same old e then v.changed else some (old, e);
      }

      unfoldable pub inserted_view : E → View E → View E
      inserted_view e v = settled_view v.deleted e v

      self_settled :
          (o : Option E) (e : E) (t : Tables E)
          → view (name e) (settle o e t) ≡ settled_view o e (view (name e) t)
      unfolding view
      self_settled none e t =
          rw (find-put (name e) (name e) e t.inserted, same_text_refl (name e)) refl
      self_settled (some old) e t =
          rw (find-erase (name e) (name e) t.deleted, same_text_refl (name e))
            (elim (Bool-cases (same old e)) [
              | inl b ↦ rw b refl
              | inr b ↦
                  rw (b, find-put (name e) (name e) (old, e) t.changed, same_text_refl (name e))
                    refl
            ])

      other_settled :
          (o : Option E) (e : E) (t : Tables E) (k : Text)
          → same_text k (name e) ≡ false
          → view k (settle o e t) ≡ view k t
      unfolding view
      other_settled none e t k other = rw (find-put k (name e) e t.inserted, other) refl
      other_settled (some old) e t k other =
          rw (find-erase k (name e) t.deleted, other)
            (elim (Bool-cases (same old e)) [
              | inl b ↦ rw b refl
              | inr b ↦ rw (b, find-put k (name e) (old, e) t.changed, other) refl
            ])

      pub view-add_inserted :
          (e : E) (t : Tables E) (k : Text)
          → view k (add_inserted e t)
            ≡ (if same_text k (name e) then inserted_view e (view k t) else view k t)
      unfolding add_inserted inserted_view view
      view-add_inserted e t k = elim (Bool-cases (same_text k (name e))) [
        | inl here ↦
            rw (here, same_text-eq k (name e) here) (self_settled (find (name e) t.deleted) e t)
        | inr there ↦ rw there (other_settled (find (name e) t.deleted) e t k there)
      ]
