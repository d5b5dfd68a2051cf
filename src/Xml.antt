-- ===== src/Xml.antt =====
-- `src/abg-libxml-utils.cc`: escaping the predefined entities of XML, and reading them back.
use cyglibabigail.Base.{
  ℕ, zero, suc, ◌<◌, ◌≤◌, Bool, true, false, ◌||◌, List, [], ◌∷◌, ◌++◌, Option, none, some,
  if◌then◌else◌, ◌==◌, ◌≡◌, refl, sym, ap, ◌∙◌, inl, inr, arith, Bool-cases, Option-cases, ==_iff,
  codes, length, Outcome, returned, out_of_fuel, ◌>>=◌,
}

-- What `escape_xml_string` appends for a character.
unfoldable pub escaped_char : ℕ → List ℕ
escaped_char c =
    if c == 60
    then codes "&lt;"
    else if c == 62
    then codes "&gt;"
    else if c == 38
    then codes "&amp;"
    else if c == 39
    then codes "&apos;"
    else if c == 34
    then codes "&quot;"
    else c ∷ []

unfoldable pub escape_xml_string : List ℕ → List ℕ
escape_xml_string [] = []
escape_xml_string (c ∷ cs) = escaped_char c ++ escape_xml_string cs

-- What stands behind the word, if the string starts with it.
unfoldable pub behind_word : List ℕ → List ℕ → Option (List ℕ)
behind_word [] cs = some cs
behind_word (w ∷ ws) [] = none
behind_word (w ∷ ws) (c ∷ cs) = let rest = behind_word ws cs in if c == w then rest else none

-- The character of the entity behind an `&`, and what stands behind it.
unfoldable pub entity : List ℕ → Option (ℕ × List ℕ)
entity cs = elim (behind_word (codes "lt;") cs) [
  | some rest ↦ some (60, rest)
  | none ↦ elim (behind_word (codes "gt;") cs) [
    | some rest ↦ some (62, rest)
    | none ↦ elim (behind_word (codes "amp;") cs) [
      | some rest ↦ some (38, rest)
      | none ↦ elim (behind_word (codes "apos;") cs) [
        | some rest ↦ some (39, rest)
        | none ↦ elim (behind_word (codes "quot;") cs) [ some rest ↦ some (34, rest) | none ↦ none ]
      ]
    ]
  ]
]

abbrev append_to : ℕ → Outcome (List ℕ) → Outcome (List ℕ)
append_to c o = o >>= λ cs. returned (c ∷ cs)

unfoldable pub unescape_xml_string : ℕ → List ℕ → Outcome (List ℕ)
unescape_xml_string zero cs = out_of_fuel
unescape_xml_string (suc n) [] = returned []
unescape_xml_string (suc n) (c ∷ cs) = elim (if c == 38 then entity cs else none) [
  | some (d, rest) ↦ append_to d (unescape_xml_string n rest)
  | none ↦ append_to c (unescape_xml_string n cs)
]

plain :
    (c : ℕ)
    → (c == 60) ≡ false
    → (c == 62) ≡ false
    → (c == 38) ≡ false
    → (c == 39) ≡ false
    → (c == 34) ≡ false
    → escaped_char c ≡ c ∷ []
unfolding escaped_char
plain c lt gt amp apos quot = rw (lt, gt, amp, apos, quot) refl

-- One escaped character is read back as that character.
unescape_xml_string-escaped_char :
    (n c : ℕ) (cs : List ℕ)
    → unescape_xml_string (suc n) (escaped_char c ++ cs) ≡ append_to c (unescape_xml_string n cs)
unfolding unescape_xml_string escaped_char entity behind_word
unescape_xml_string-escaped_char n c cs = elim (Bool-cases (c == 60)) [
  | inl h ↦ as_literal 60 ((==_iff c 60).0 h) refl
  | inr lt ↦ elim (Bool-cases (c == 62)) [
    | inl h ↦ as_literal 62 ((==_iff c 62).0 h) refl
    | inr gt ↦ elim (Bool-cases (c == 38)) [
      | inl h ↦ as_literal 38 ((==_iff c 38).0 h) refl
      | inr amp ↦ elim (Bool-cases (c == 39)) [
        | inl h ↦ as_literal 39 ((==_iff c 39).0 h) refl
        | inr apos ↦ elim (Bool-cases (c == 34)) [
          | inl h ↦ as_literal 34 ((==_iff c 34).0 h) refl
          | inr quot ↦
              ap (λ x. unescape_xml_string (suc n) (x ++ cs)) (plain c lt gt amp apos quot)
              ∙ rw (amp, unescape_xml_string) refl
        ]
      ]
    ]
  ]
]
  where
    as_literal :
        (k : ℕ)
        → c ≡ k
        → unescape_xml_string (suc n) (escaped_char k ++ cs)
          ≡ append_to k (unescape_xml_string n cs)
        → unescape_xml_string (suc n) (escaped_char c ++ cs)
          ≡ append_to c (unescape_xml_string n cs)
    as_literal k e h =
        ap (λ x. unescape_xml_string (suc n) (escaped_char x ++ cs)) e
        ∙ h
        ∙ ap (λ x. append_to x (unescape_xml_string n cs)) (sym e)

-- An escaped string is read back as it was, with fuel above its length.
pub unescape_xml_string-escape_xml_string :
    (n : ℕ) (cs : List ℕ)
    → length cs < n
    → unescape_xml_string n (escape_xml_string cs) ≡ returned cs
unfolding escape_xml_string
unescape_xml_string-escape_xml_string zero cs h = absurd (omega arith)
unescape_xml_string-escape_xml_string (suc n) [] h = unfold unescape_xml_string in refl
unescape_xml_string-escape_xml_string (suc n) (c ∷ cs) h =
    unescape_xml_string-escaped_char n c (escape_xml_string cs)
    ∙ ap (append_to c) (unescape_xml_string-escape_xml_string n cs (omega arith))

-- Whether the character stands in the string.
unfoldable pub has_char : ℕ → List ℕ → Bool
has_char k [] = false
has_char k (c ∷ cs) = c == k || has_char k cs

has_char-append :
    (k : ℕ) (cs ds : List ℕ)
    → has_char k cs ≡ false
    → has_char k ds ≡ false
    → has_char k (cs ++ ds) ≡ false
unfolding has_char
has_char-append k [] ds h j = j
has_char-append k (c ∷ cs) ds h j = ground (arith, has_char-append k cs ds)

-- The characters that XML gives a meaning in text and attributes, but `&`.
abbrev pub special : ℕ → Bool
special k = k == 60 || k == 62 || k == 39 || k == 34

-- The words written for the five characters have none of them.
has_char-words :
    (k : ℕ)
    → special k ≡ true
    → (has_char k (codes "&lt;") ≡ false)
      × (has_char k (codes "&gt;") ≡ false)
      × (has_char k (codes "&amp;") ≡ false)
      × (has_char k (codes "&apos;") ≡ false)
      × (has_char k (codes "&quot;") ≡ false)
unfolding has_char
has_char-words k h = (ground arith, ground arith, ground arith, ground arith, ground arith)

has_char-escaped_char : (k c : ℕ) → special k ≡ true → has_char k (escaped_char c) ≡ false
unfolding escaped_char
has_char-escaped_char k c h =
    let (w₁, w₂, w₃, w₄, w₅) = has_char-words k h in
    choose (c == 60) _ _ w₁ λ lt. choose (c == 62) _ _ w₂ λ gt. choose (c == 38) _ _ w₃ λ amp.
      choose (c == 39) _ _ w₄
        λ apos. choose (c == 34) _ (c ∷ []) w₅ λ quot. unfold has_char in ground arith
  where
    choose :
        (b : Bool) (cs ds : List ℕ)
        → has_char k cs ≡ false
        → (b ≡ false → has_char k ds ≡ false)
        → has_char k (if b then cs else ds) ≡ false
    choose true cs ds p q = p
    choose false cs ds p q = q refl

-- No `<`, `>`, `'` or `"` is left in an escaped string.
pub has_char-escape_xml_string :
    (k : ℕ) (cs : List ℕ) → special k ≡ true → has_char k (escape_xml_string cs) ≡ false
unfolding escape_xml_string
has_char-escape_xml_string k [] h = unfold has_char in refl
has_char-escape_xml_string k (c ∷ cs) h =
    has_char-append k (escaped_char c) (escape_xml_string cs) (has_char-escaped_char k c h)
      (has_char-escape_xml_string k cs h)

-- What stands behind an entity is shorter.
behind_word-length : (ws cs rest : List ℕ) → behind_word ws cs ≡ some rest → length rest ≤ length cs
unfolding behind_word
behind_word-length [] cs rest h = let e : cs ≡ rest = cc h in ground (arith, ap length e)
behind_word-length (w ∷ ws) [] rest h = cc h
behind_word-length (w ∷ ws) (c ∷ cs) rest h = elim (Bool-cases (c == w)) [
  | inl here ↦ omega (arith, behind_word-length ws cs rest (cc (h, here)))
  | inr there ↦ cc (h, there)
]

abbrev found : ℕ → List ℕ → Option (ℕ × List ℕ)
found k rest = some (k, rest)

entity-length :
    (cs : List ℕ) (d : ℕ) (rest : List ℕ) → entity cs ≡ found d rest → length rest ≤ length cs
unfolding entity
entity-length cs d rest = one_word (codes "lt;") 60 λ e.
    one_word (codes "gt;") 62
      (λ e.
        one_word (codes "amp;") 38
          (λ e. one_word (codes "apos;") 39 (λ e. one_word (codes "quot;") 34 (λ e. cc e) e) e) e)
      e
  where
    one_word :
        (w : List ℕ) (k : ℕ) {o : Option (ℕ × List ℕ)}
        → (o ≡ found d rest → length rest ≤ length cs)
        → (elim (behind_word w cs) as (λ x. Option (ℕ × List ℕ)) [
          | some r ↦ some (k, r)
          | none ↦ o
        ])
          ≡ found d rest
        → length rest ≤ length cs
    one_word w k {o} next h = elim (Option-cases (behind_word w cs)) [
      | inl none_there ↦ next (cc (h, none_there))
      | inr (r, e) ↦
          let same : found k r ≡ found d rest = cc (h, e) in
          let tail : r ≡ rest = cc same in behind_word-length w cs rest (e ∙ ap some tail)
    ]

-- One round of `unescape_xml_string`, given what the test for an entity finds.
abbrev one_step : ℕ → ℕ → List ℕ → Option (ℕ × List ℕ) → Outcome (List ℕ)
one_step n c cs o = elim o [
  | some (d, rest) ↦ append_to d (unescape_xml_string n rest)
  | none ↦ append_to c (unescape_xml_string n cs)
]

-- Reading a string back ends on every string, well formed or not, with fuel above its length.
pub unescape_xml_string-returns :
    (n : ℕ) (cs : List ℕ)
    → length cs < n
    → (ds : List ℕ) × (unescape_xml_string n cs ≡ returned ds) × (length ds ≤ length cs)
unfolding unescape_xml_string
unescape_xml_string-returns zero cs h = absurd (omega arith)
unescape_xml_string-returns (suc n) [] h = ([], refl, omega arith)
unescape_xml_string-returns (suc n) (c ∷ cs) h =
    elim (Option-cases (if c == 38 then entity cs else none)) [
      | inl e ↦
          let (ds, f, shorter) = unescape_xml_string-returns n cs (omega arith) in
          (c ∷ ds, ap (one_step n c cs) e ∙ ap (append_to c) f, omega arith)
      | inr ((d, rest), e) ↦
          let behind : length rest ≤ length cs = within (c == 38) d rest e in
          let (ds, f, shorter) = unescape_xml_string-returns n rest (omega (arith, behind)) in
          (d ∷ ds, ap (one_step n c cs) e ∙ ap (append_to d) f, omega (arith, behind))
    ]
  where
    within :
        (b : Bool) (d : ℕ) (rest : List ℕ)
        → (if b then entity cs else none) ≡ found d rest
        → length rest ≤ length cs
    within true d rest e = entity-length cs d rest e
    within false d rest e = cc e
