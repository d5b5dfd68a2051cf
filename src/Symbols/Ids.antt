-- ===== src/Symbols/Ids.antt =====
-- The id of a symbol of `src/abg-ir.cc`, taken apart into the name and the version.
use cyglibabigail.Base.{
  ℕ, zero, suc, ◌+◌, Bool, true, false, List, [], ◌∷◌, ◌++◌, Option, none, some, if◌then◌else◌,
  ◌==◌, leb, ◌≡◌, refl, ap, sym, ◌∙◌, ◌⊎◌, ◌↔◌, inl, inr, arith, Bool-cases, Option-cases, codes,
  length, take, drop, append_assoc, length-append,
}
use cyglibabigail.Symbols.Symbol.{
  Symbol, Version, set_name, set_version, write_version, is_empty, make_id, get_id_string,
  new_symbol, copy_symbol, assign, SymbolType, Binding,
}

-- `id.find("@")`
unfoldable pub find_at : List ℕ → Option ℕ
find_at [] = none
find_at (c ∷ cs) =
    let rest = find_at cs in
    if c == 64 then some 0 else elim rest [ none ↦ none | some i ↦ some (suc i) ]

-- `elf_symbol::get_name_and_version_from_id`, which always returns true: the name, and the version,
-- which is as before where none is set.
unfoldable pub get_name_and_version_from_id : List ℕ → List ℕ → List ℕ × List ℕ
get_name_and_version_from_id id ver = elim (find_at id) [
  | none ↦ (id, ver)
  | some i ↦
      let name = take i id in
      let next = suc i in
      if leb (length id) next
      then (name, ver)
      else let j : ℕ = elim (find_at (drop next id)) [ none ↦ next | some k ↦ suc (next + k) ] in
        if leb (length id) j then (name, []) else (name, drop j id)
]

find_at-append : (cs ds : List ℕ) → find_at cs ≡ none → find_at (cs ++ 64 ∷ ds) ≡ some (length cs)
unfolding find_at
find_at-append [] ds h = refl
find_at-append (c ∷ cs) ds h = elim (Bool-cases (c == 64)) [
  | inl here ↦ cc (h, here)
  | inr there ↦ elim (Option-cases (find_at cs)) [
    | inl nowhere ↦ rw (there, find_at-append cs ds nowhere) refl
    | inr (i, e) ↦ cc (h, there, e)
  ]
]

take-append : (cs ds : List ℕ) → take (length cs) (cs ++ ds) ≡ cs
take-append [] ds = refl
take-append (c ∷ cs) ds = ap (λ x. c ∷ x) (take-append cs ds)

drop-append : (cs ds : List ℕ) (k m : ℕ) → m ≡ length cs + k → drop m (cs ++ ds) ≡ drop k ds
drop-append [] ds k m h = let e : m ≡ k = omega arith in ap (λ x. drop x ds) e
drop-append (c ∷ cs) ds k zero h = absurd (omega arith)
drop-append (c ∷ cs) ds k (suc m) h = drop-append cs ds k m (omega arith)

leb-suc : (a b k : ℕ) → a ≡ b + suc (suc k) → leb a (suc b) ≡ false
leb-suc a b k h = ground arith

leb-suc-suc : (a b j k : ℕ) → a ≡ b + suc (suc (suc k)) → j ≡ suc (suc b) → leb a j ≡ false
leb-suc-suc a b j k h e = ground arith

-- The version behind one `@`, and behind two.
one_at :
    (n v : List ℕ) (c : ℕ) (ver : List ℕ)
    → find_at n ≡ none
    → find_at (c ∷ v) ≡ none
    → get_name_and_version_from_id (n ++ 64 ∷ c ∷ v) ver ≡ (n, c ∷ v)
unfolding get_name_and_version_from_id
one_at n v c ver h k =
    let id = n ++ 64 ∷ c ∷ v in
    let size : length id ≡ length n + suc (suc (length v)) = length-append n (64 ∷ c ∷ v) in
    let longer : leb (length id) (suc (length n)) ≡ false =
      leb-suc (length id) (length n) (length v) size in
    let tail : drop (suc (length n)) id ≡ c ∷ v =
      drop-append n (64 ∷ c ∷ v) 1 (suc (length n)) (omega arith) in
    rw
      (
        find_at-append n (c ∷ v) h,
        get_name_and_version_from_id,
        longer,
        tail,
        k,
        longer,
        tail,
        take-append n (64 ∷ c ∷ v),
      )
      refl

two_at :
    (n v : List ℕ) (c : ℕ) (ver : List ℕ)
    → find_at n ≡ none
    → get_name_and_version_from_id (n ++ 64 ∷ 64 ∷ c ∷ v) ver ≡ (n, c ∷ v)
unfolding get_name_and_version_from_id
two_at n v c ver h =
    let id = n ++ 64 ∷ 64 ∷ c ∷ v in
    let j = suc (suc (length n) + 0) in
    let size : length id ≡ length n + suc (suc (suc (length v))) =
      length-append n (64 ∷ 64 ∷ c ∷ v) in
    let longer : leb (length id) (suc (length n)) ≡ false =
      leb-suc (length id) (length n) (suc (length v)) size in
    let longer' : leb (length id) j ≡ false =
      leb-suc-suc (length id) (length n) j (length v) size (omega arith) in
    let tail : drop (suc (length n)) id ≡ 64 ∷ c ∷ v =
      drop-append n (64 ∷ 64 ∷ c ∷ v) 1 (suc (length n)) (omega arith) in
    let tail' : drop j id ≡ c ∷ v = drop-append n (64 ∷ 64 ∷ c ∷ v) 2 j (omega arith) in
    let second : find_at (64 ∷ c ∷ v) ≡ some 0 = unfold find_at in refl in
    rw
      (
        find_at-append n (64 ∷ c ∷ v) h,
        get_name_and_version_from_id,
        longer,
        tail,
        second,
        longer',
        tail',
        take-append n (64 ∷ 64 ∷ c ∷ v),
      )
      refl

-- An id that a symbol keeps is that of its name and version.
abbrev pub IsCached : Symbol → Type 0
IsCached s = (is_empty s.id_string ≡ true) ⊎ (s.id_string ≡ make_id s.name s.version)

get_id_string-make_id : (s : Symbol) → IsCached s → (get_id_string s).0 ≡ make_id s.name s.version
unfolding get_id_string
get_id_string-make_id s (inl none_kept) = rw none_kept refl
get_id_string-make_id s (inr kept) = elim (Bool-cases (is_empty s.id_string)) [
  | inl e ↦ rw e refl
  | inr e ↦ rw e kept
]

-- The id that is kept for a symbol whose version is written over is right again just where none was
-- kept, or both versions make the same id.
write_version-IsCached :
    (s : Symbol) (v : Version)
    → IsCached s
    → IsCached (write_version v s)
      ↔ ((is_empty s.id_string ≡ true) ⊎ (make_id s.name s.version ≡ make_id s.name v))
unfolding write_version
write_version-IsCached s v (inl none_kept) = ((λ h. inl none_kept), λ h. inl none_kept)
write_version-IsCached s v (inr kept) = (
  λ h. elim h [ inl e ↦ inl e | inr e ↦ inr (sym kept ∙ e) ],
  λ h. elim h [ inl e ↦ inl e | inr e ↦ inr (kept ∙ e) ],
)

-- From a symbol whose kept id, if it has one, is that of its name and version, `get_id_string` gives
-- this id. What the constructors make of the parts of a symbol or of the symbol, and what assignment,
-- `set_name`, `set_version` and `get_id_string` make of it, has no kept id, or that of its own name and
-- version. So does what is left by writing another version through the reference that `get_version`
-- returns, but just where no id was kept or both versions make the same id.
pub set_name-IsCached :
    (s : Symbol) (this i : ℕ) (n : List ℕ) (t : SymbolType) (b : Binding) (d : Bool) (v : Version)
    → IsCached s
    → ((get_id_string s).0 ≡ make_id s.name s.version)
      × IsCached (new_symbol this i n t b d v)
      × IsCached (copy_symbol this s)
      × IsCached (assign this s)
      × IsCached (set_name n s)
      × IsCached (set_version v s)
      × IsCached (get_id_string s).1
      × (IsCached (write_version v s)
          ↔ ((is_empty s.id_string ≡ true) ⊎ (make_id s.name s.version ≡ make_id s.name v)))
unfolding new_symbol copy_symbol assign set_name set_version get_id_string
set_name-IsCached s this i n t b d v h =
    let id = get_id_string-make_id s h in
    (id, inl refl, inl refl, h, inl refl, inl refl, inr id, write_version-IsCached s v h)

parts_of_id :
    (n v ver : List ℕ) (default : Bool)
    → find_at n ≡ none
    → find_at v ≡ none
    → get_name_and_version_from_id (make_id n (record { version = v; is_default = default })) ver
      ≡ (n, if is_empty v then ver else v)
unfolding make_id get_name_and_version_from_id find_at
parts_of_id n [] ver default k l = rw k refl
parts_of_id n (c ∷ v) ver true k l =
    ap (λ x. get_name_and_version_from_id x ver) (append_assoc n (codes "@@") (c ∷ v))
    ∙ two_at n v c ver k
parts_of_id n (c ∷ v) ver false k l =
    ap (λ x. get_name_and_version_from_id x ver) (append_assoc n (codes "@") (c ∷ v))
    ∙ one_at n v c ver k l

-- The id of a symbol whose kept id, if it has one, is that of its name and version, and whose name and
-- version have no `@`, is taken apart into its name and, if it has one, its version; if it has none,
-- the version that the caller passed is left as it was.
pub get_name_and_version_from_id-get_id_string :
    (s : Symbol) (ver : List ℕ)
    → IsCached s
    → find_at s.name ≡ none
    → find_at s.version.version ≡ none
    → get_name_and_version_from_id (get_id_string s).0 ver
      ≡ (s.name, if is_empty s.version.version then ver else s.version.version)
get_name_and_version_from_id-get_id_string s ver h k l =
    rw (get_id_string-make_id s h)
      (parts_of_id s.name s.version.version ver s.version.is_default k l)
