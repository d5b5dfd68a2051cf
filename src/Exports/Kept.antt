-- ===== src/Exports/Kept.antt =====
-- Which declarations the options of the `exported_decls_builder` of `src/abg-corpus.cc` keep, apart
-- from its loops.
use cyglibabigail.Base.{
  Bool, true, false, ◌&&◌, ◌||◌, List, [], ◌∷◌, none, some, same_text, same_text-eq, same_text_refl,
  ◌≡◌, refl, ap, sym, ◌∙◌, ◌⊎◌, inl, inr, ◌↔◌, Bool-cases, Option-cases,
}
use cyglibabigail.Symbols.Symbol.{Symbol}
use cyglibabigail.Symbols.Ids.{get_name_and_version_from_id}
use cyglibabigail.Changes.Maps.{Text}
use cyglibabigail.Changes.Decls.{Decl}
use cyglibabigail.Suppressions.Criteria.{Regcomp}
use cyglibabigail.Exports.Builder.{
  Builder, compiled, some_matches, has_none, keep_wrt_regex_to_suppress, keep_wrt_regex_to_keep,
  id_is_listed, keep_wrt_id, is_kept,
}

abbrev pub IsAmong : Text → List Text → Type 0
IsAmong r [] = ⊥
IsAmong r (x ∷ xs) = (r ≡ x) ⊎ IsAmong r xs

-- Some listed expression compiles and matches the name; none compiles.
abbrev pub SomeMatches : Regcomp → List Text → Text → Type 0
SomeMatches regcomp rs name =
    (r : Text) × IsAmong r rs × (m : Text → Bool) × (regcomp r ≡ some m) × (m name ≡ true)

abbrev pub NoneCompiles : Regcomp → List Text → Type 0
NoneCompiles regcomp rs = (r : Text) → IsAmong r rs → regcomp r ≡ none

-- Some id has the name and the version of the symbol, where an id without a version has that of the
-- ids before it, and `held` is the version before the first.
abbrev pub IsListed : List Text → Symbol → Text → Type 0
IsListed [] s held = ⊥
IsListed (i ∷ is) s held =
    let (name, version) = get_name_and_version_from_id i held in
    ((name ≡ s.name) × (version ≡ s.version.version)) ⊎ IsListed is s version

-- The declaration has a symbol, which is listed if any ids are; no expression to suppress matches its
-- name; and one to keep does, if any of these compiles.
pub record IsKept (regcomp : Regcomp) (d : Decl) (name : Text) (b : Builder) : Type 0 where
  pub symbol : Symbol
  pub has_symbol : d.symbol ≡ some symbol
  pub id : (b.sym_ids_to_keep ≡ []) ⊎ IsListed b.sym_ids_to_keep symbol []
  pub not_suppressed : ¬ SomeMatches regcomp b.suppress_regexps name
  pub matched : NoneCompiles regcomp b.keep_regexps ⊎ SomeMatches regcomp b.keep_regexps name

and_iff : (p q : Bool) → ((p && q) ≡ true) ↔ ((p ≡ true) × (q ≡ true))
and_iff true q = ((λ h. (refl, h)), λ h. h.1)
and_iff false q = ((λ h. cc h), λ h. h.0)

or_iff : (p q : Bool) → ((p || q) ≡ true) ↔ ((p ≡ true) ⊎ (q ≡ true))
or_iff true q = ((λ h. inl refl), λ h. refl)
or_iff false q = ((λ h. inr h), λ h. elim h [ inl e ↦ cc e | inr e ↦ e ])

same_text_iff : (a b : Text) → (same_text a b ≡ true) ↔ (a ≡ b)
same_text_iff a b = (same_text-eq a b, λ e. rw e (same_text_refl b))

module _ (regcomp : Regcomp) where
  compiled-none :
      (i : Text) (is : List Text)
      → regcomp i ≡ none
      → compiled regcomp (i ∷ is) ≡ compiled regcomp is
  unfolding compiled
  compiled-none i is e = rw (e, compiled) refl

  compiled-some :
      (i : Text) (is : List Text) (m : Text → Bool)
      → regcomp i ≡ some m
      → compiled regcomp (i ∷ is) ≡ m ∷ compiled regcomp is
  unfolding compiled
  compiled-some i is m e = rw (e, compiled) refl

  matches_later :
      (i : Text) (is : List Text) (name : Text)
      → SomeMatches regcomp is name
      → SomeMatches regcomp (i ∷ is) name
  matches_later i is name (r, among, m, e, h) = (r, inr among, m, e, h)

  some_matches-SomeMatches :
      (rs : List Text) (name : Text)
      → some_matches (compiled regcomp rs) name ≡ true
      → SomeMatches regcomp rs name
  unfolding some_matches compiled
  some_matches-SomeMatches [] name h = cc h
  some_matches-SomeMatches (i ∷ is) name h = elim (Option-cases (regcomp i)) [
    | inl e ↦
        matches_later i is name (some_matches-SomeMatches is name (rw (compiled-none i is e) at h))
    | inr (m, e) ↦
        let h' : some_matches (m ∷ compiled regcomp is) name ≡ true =
          rw (compiled-some i is m e) at h in
        elim (Bool-cases (m name)) [
          | inl hit ↦ (i, inl refl, m, e, hit)
          | inr miss ↦ matches_later i is name (some_matches-SomeMatches is name (rw miss at h'))
        ]
  ]

  SomeMatches-some_matches :
      (rs : List Text) (name r : Text) (m : Text → Bool)
      → IsAmong r rs
      → regcomp r ≡ some m
      → m name ≡ true
      → some_matches (compiled regcomp rs) name ≡ true
  unfolding some_matches
  SomeMatches-some_matches [] name r m among e h = absurd among
  SomeMatches-some_matches (i ∷ is) name r m (inl same) e h =
      let at_i : regcomp i ≡ some m = rw (sym same) e in rw (compiled-some i is m at_i, h) refl
  SomeMatches-some_matches (i ∷ is) name r m (inr among) e h =
      let rest = SomeMatches-some_matches is name r m among e h in
      elim (Option-cases (regcomp i)) [
        | inl f ↦ rw (compiled-none i is f) rest
        | inr (k, f) ↦ elim (Bool-cases (k name)) [
          | inl hit ↦ rw (compiled-some i is k f, hit) refl
          | inr miss ↦ rw (compiled-some i is k f, miss, rest) refl
        ]
      ]

  has_none-NoneCompiles :
      (rs : List Text) → has_none (compiled regcomp rs) ≡ true → NoneCompiles regcomp rs
  has_none-NoneCompiles [] h r among = absurd among
  has_none-NoneCompiles (i ∷ is) h r among = elim (Option-cases (regcomp i)) [
    | inr (m, e) ↦
        let bad : false ≡ true = ap has_none (sym (compiled-some i is m e)) ∙ h in absurd (cc bad)
    | inl e ↦ elim among [
      | inl same ↦ rw same e
      | inr later ↦ has_none-NoneCompiles is (ap has_none (sym (compiled-none i is e)) ∙ h) r later
    ]
  ]

  NoneCompiles-has_none :
      (rs : List Text) → NoneCompiles regcomp rs → has_none (compiled regcomp rs) ≡ true
  unfolding compiled
  NoneCompiles-has_none [] h = refl
  NoneCompiles-has_none (i ∷ is) h =
      ap has_none (compiled-none i is (h i (inl refl)))
      ∙ NoneCompiles-has_none is (λ r among. h r (inr among))

id_is_listed-IsListed :
    (ids : List Text) (s : Symbol) (held : Text)
    → id_is_listed ids s held ≡ true
    → IsListed ids s held
unfolding id_is_listed
id_is_listed-IsListed [] s held h = cc h
id_is_listed-IsListed (i ∷ is) s held h =
    let (name, version) = get_name_and_version_from_id i held in
    elim (Bool-cases (same_text name s.name && same_text version s.version.version)) [
      | inl here ↦
          let (p, q) = (and_iff (same_text name s.name) _).0 here in
          inl (same_text-eq name s.name p, same_text-eq version s.version.version q)
      | inr later ↦ inr (id_is_listed-IsListed is s version (rw later at h))
    ]

IsListed-id_is_listed :
    (ids : List Text) (s : Symbol) (held : Text)
    → IsListed ids s held
    → id_is_listed ids s held ≡ true
unfolding id_is_listed
IsListed-id_is_listed [] s held h = absurd h
IsListed-id_is_listed (i ∷ is) s held (inl (p, q)) =
    rw (p, q, same_text_refl s.name, same_text_refl s.version.version) refl
IsListed-id_is_listed (i ∷ is) s held (inr later) =
    let (name, version) = get_name_and_version_from_id i held in
    let rest = IsListed-id_is_listed is s version later in
    elim (Bool-cases (same_text name s.name && same_text version s.version.version)) [
      | inl here ↦ rw here refl
      | inr there ↦ rw (there, rest) refl
    ]

has_none-nil : (ids : List Text) → has_none ids ≡ true → ids ≡ []
has_none-nil [] h = refl
has_none-nil (i ∷ is) h = cc h

keep_wrt_id-IsListed :
    (ids : List Text) (s : Symbol)
    → (keep_wrt_id ids (some s) ≡ true) ↔ ((ids ≡ []) ⊎ IsListed ids s [])
unfolding keep_wrt_id
keep_wrt_id-IsListed ids s = (
  λ h. elim ((or_iff (has_none ids) (id_is_listed ids s [])).0 h) [
    | inl e ↦ inl (has_none-nil ids e)
    | inr e ↦ inr (id_is_listed-IsListed ids s [] e)
  ],
  λ h.
      (or_iff (has_none ids) (id_is_listed ids s [])).1
        (elim h [ inl e ↦ inl (ap has_none e) | inr e ↦ inr (IsListed-id_is_listed ids s [] e) ]),
)

no_symbol_kept : (ids : List Text) → ¬ (keep_wrt_id ids none ≡ true)
unfolding keep_wrt_id
no_symbol_kept ids h = cc h

module _ (regcomp : Regcomp) (d : Decl) (name : Text) (b : Builder) where
  pub is_kept-IsKept : is_kept regcomp d name b ≡ true → IsKept regcomp d name b
  unfolding is_kept keep_wrt_regex_to_suppress keep_wrt_regex_to_keep
  is_kept-IsKept h =
      let (id, rest) = (and_iff (keep_wrt_id b.sym_ids_to_keep d.symbol) _).0 h in
      let (free, matched) =
        (and_iff (keep_wrt_regex_to_suppress (compiled regcomp b.suppress_regexps) name)
            (keep_wrt_regex_to_keep (compiled regcomp b.keep_regexps) name)).0
          rest in
      elim (Option-cases d.symbol) [
        | inl nothing ↦ absurd (no_symbol_kept b.sym_ids_to_keep (rw nothing at id))
        | inr (s, e) ↦ record {
          symbol = s;
          has_symbol = e;
          id = (keep_wrt_id-IsListed b.sym_ids_to_keep s).0 (rw e at id);
          not_suppressed = λ (r, among, m, c, hit).
              let found =
                SomeMatches-some_matches regcomp b.suppress_regexps name r m among c hit in
              cc (found, free);
          matched = elim ((or_iff _ _).0 matched) [
            | inl none_compiled ↦ inl (has_none-NoneCompiles regcomp b.keep_regexps none_compiled)
            | inr hit ↦ inr (some_matches-SomeMatches regcomp b.keep_regexps name hit)
          ];
        }
      ]

  pub IsKept-is_kept : IsKept regcomp d name b → is_kept regcomp d name b ≡ true
  unfolding is_kept keep_wrt_regex_to_suppress keep_wrt_regex_to_keep
  IsKept-is_kept k =
      let id : keep_wrt_id b.sym_ids_to_keep d.symbol ≡ true =
        rw k.has_symbol ((keep_wrt_id-IsListed b.sym_ids_to_keep k.symbol).1 k.id) in
      let free : some_matches (compiled regcomp b.suppress_regexps) name ≡ false =
        elim (Bool-cases (some_matches (compiled regcomp b.suppress_regexps) name)) [
          | inl hit ↦
              absurd
                (k.not_suppressed (some_matches-SomeMatches regcomp b.suppress_regexps name hit))
          | inr miss ↦ miss
        ] in
      let matched =
        (or_iff (has_none (compiled regcomp b.keep_regexps))
            (some_matches (compiled regcomp b.keep_regexps) name)).1
          (elim k.matched [
            | inl none_compiles ↦ inl (NoneCompiles-has_none regcomp b.keep_regexps none_compiles)
            | inr (r, among, m, c, hit) ↦
                inr (SomeMatches-some_matches regcomp b.keep_regexps name r m among c hit)
          ]) in
      rw (id, free, matched) refl
