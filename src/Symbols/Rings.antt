-- ===== src/Symbols/Rings.antt =====
-- The chain of aliases of `src/abg-ir.cc` is a ring through the main symbol, and adding an alias
-- keeps it one.
use cyglibabigail.Base.{
  ℕ, zero, suc, ◌<◌, Bool, true, false, List, [], ◌∷◌, ◌++◌, Option, none, some, if◌then◌else◌,
  ◌==◌, ◌≡◌, refl, sym, ap, ◌∙◌, inl, inr, arith, Bool-cases, ==_iff, length, Outcome, returned,
}
use cyglibabigail.Symbols.Aliases.{
  Symbols, points_to, find_last_alias, close_chain, set_next_alias, append_alias, add_alias,
}

-- `x` is none of the addresses.
abbrev pub Avoids : ℕ → List ℕ → Type 0
Avoids x [] = Unit {0}
Avoids x (a ∷ l) = ((a == x) ≡ false) × Avoids x l

abbrev pub Distinct : List ℕ → Type 0
Distinct [] = Unit {0}
Distinct (a ∷ l) = Avoids a l × Distinct l

-- From `x` the links go through `l` and back to `m`.
abbrev pub Links : Symbols → ℕ → ℕ → List ℕ → Type 0
Links s m x [] = (s x).next_alias ≡ some m
Links s m x (a ∷ l) = ((s x).next_alias ≡ some a) × Links s m a l

abbrev pub HaveMain : Symbols → ℕ → List ℕ → Type 0
HaveMain s m [] = Unit {0}
HaveMain s m (a ∷ l) = ((s a).main_symbol ≡ m) × HaveMain s m l

-- A main symbol without aliases has no link.
abbrev pub Chained : Symbols → ℕ → List ℕ → Type 0
Chained s m [] = (s m).next_alias ≡ none
Chained s m (a ∷ l) = Links s m m (a ∷ l)

-- The main symbol `m` has the aliases `l`, in this order.
pub record IsRing (s : Symbols) (m : ℕ) (l : List ℕ) : Type 0 where
  pub distinct : Distinct (m ∷ l)
  pub mains : HaveMain s m (m ∷ l)
  pub chained : Chained s m l

abbrev last : ℕ → List ℕ → ℕ
last a [] = a
last a (b ∷ l) = last b l

-- The store behind the two writes of `append_alias`.
abbrev linked : Symbols → ℕ → ℕ → ℕ → Symbols
linked s this x b = close_chain this b (set_next_alias x b s)

-- One round of the loop of `find_last_alias`, given the tests and the next pointer.
abbrev go_on : ℕ → Symbols → ℕ → ℕ → Bool → Option ℕ → Outcome (Option ℕ)
go_on n s m a last next = elim last [
  | false ↦ find_last_alias n s m next none
  | true ↦ find_last_alias n s m next (some a)
]

abbrev one_step : ℕ → Symbols → ℕ → ℕ → Bool → Option ℕ → Outcome (Option ℕ)
one_step n s m a back next = elim back [
  | true ↦ returned none
  | false ↦ go_on n s m a (points_to next m) next
]

find_last_alias-Links :
    (n : ℕ) (s : Symbols) (m a : ℕ) (l : List ℕ)
    → Links s m a l
    → Avoids m (a ∷ l)
    → suc (length l) < n
    → find_last_alias n s m (some a) none ≡ returned (some (last a l))
unfolding find_last_alias
find_last_alias-Links zero s m a l k v h = absurd (omega arith)
find_last_alias-Links (suc zero) s m a l k v h = absurd (omega arith)
find_last_alias-Links (suc (suc n)) s m a [] k v h =
    let same : (m == m) ≡ true = (==_iff m m).1 refl in
    rw (v.0, find_last_alias, k, same, find_last_alias, k, same) refl
find_last_alias-Links (suc (suc n)) s m a (b ∷ l) k v h =
    ap (λ t. one_step (suc n) s m a t (s a).next_alias) v.0
    ∙ ap (one_step (suc n) s m a false) k.0
    ∙ ap (λ t. go_on (suc n) s m a t (some b)) v.1.0
    ∙ find_last_alias-Links (suc n) s m b l k.1 v.1 (omega arith)

set_next_alias-main :
    (s : Symbols) (b x z : ℕ) → (set_next_alias x b s z).main_symbol ≡ (s z).main_symbol
unfolding set_next_alias
set_next_alias-main s b x z = elim (Bool-cases (z == x)) [
  | inl here ↦ rw here (ap (λ w. (s w).main_symbol) (sym ((==_iff z x).0 here)))
  | inr there ↦ rw there refl
]

-- The members of the symbols behind the writes.
linked-main :
    (s : Symbols) (this x b y : ℕ)
    → (linked s this x b y).main_symbol
      ≡ (if y == b then (s this).main_symbol else (s y).main_symbol)
unfolding close_chain
linked-main s this x b y = elim (Bool-cases (y == b)) [
  | inl new ↦ rw new (set_next_alias-main s b x this)
  | inr old ↦ rw old (set_next_alias-main s b x y)
]

linked-new :
    (s : Symbols) (this x b : ℕ) → (linked s this x b b).next_alias ≡ some (s this).main_symbol
unfolding close_chain
linked-new s this x b =
    let same : (b == b) ≡ true = (==_iff b b).1 refl in
    rw same (ap some (set_next_alias-main s b x this))

linked-last :
    (s : Symbols) (this x b : ℕ) → (x == b) ≡ false → (linked s this x b x).next_alias ≡ some b
unfolding close_chain set_next_alias
linked-last s this x b h = let same : (x == x) ≡ true = (==_iff x x).1 refl in rw (h, same) refl

linked-other :
    (s : Symbols) (this x b y : ℕ) → (y == b) ≡ false → (y == x) ≡ false → linked s this x b y ≡ s y
unfolding close_chain set_next_alias
linked-other s this x b y h k = rw (h, k) refl

-- The new alias stands behind the last one.
Links-linked :
    (s : Symbols) (this m b x : ℕ) (l : List ℕ)
    → (s this).main_symbol ≡ m
    → Links s m x l
    → Distinct (x ∷ l)
    → Avoids b (x ∷ l)
    → Links (linked s this (last x l) b) m x (l ++ b ∷ [])
Links-linked s this m b x [] p k d v =
    (linked-last s this x b v.0, linked-new s this x b ∙ ap some p)
Links-linked s this m b x (a ∷ l) p k d v = (
  ap (λ z. z.next_alias) (linked-other s this (last a l) b x v.0 (last-ne x a l d.0)) ∙ k.0,
  Links-linked s this m b a l p k.1 d.1 v.1,
)
  where
    last-ne : (x a : ℕ) (l : List ℕ) → Avoids x (a ∷ l) → (x == last a l) ≡ false
    last-ne x a [] v = ground (arith, v.0)
    last-ne x a (c ∷ l) v = last-ne x c l v.1

HaveMain-linked :
    (s : Symbols) (this m b y : ℕ) (l : List ℕ)
    → (s this).main_symbol ≡ m
    → HaveMain s m l
    → HaveMain (linked s this y b) m (l ++ b ∷ [])
HaveMain-linked s this m b y [] p h =
    let same : (b == b) ≡ true = (==_iff b b).1 refl in (linked-main s this y b b ∙ rw same p, tt)
HaveMain-linked s this m b y (a ∷ l) p h = (
  linked-main s this y b a ∙ either (a == b) (s a).main_symbol h.0,
  HaveMain-linked s this m b y l p h.1,
)
  where
    either : (t : Bool) (n : ℕ) → n ≡ m → (if t then (s this).main_symbol else n) ≡ m
    either true n e = p
    either false n e = e

Avoids-append : (x b : ℕ) (l : List ℕ) → Avoids x l → (b == x) ≡ false → Avoids x (l ++ b ∷ [])
Avoids-append x b [] v h = (h, tt)
Avoids-append x b (a ∷ l) v h = (v.0, Avoids-append x b l v.1 h)

Distinct-append : (b : ℕ) (l : List ℕ) → Distinct l → Avoids b l → Distinct (l ++ b ∷ [])
Distinct-append b [] d v = (tt, tt)
Distinct-append b (a ∷ l) d v =
    (Avoids-append a b l d.0 (ground (arith, v.0)), Distinct-append b l d.1 v.1)

-- The ring that `add_alias` makes: the new alias is the last, and no other symbol is written but the
-- one before it.
added :
    (n : ℕ) (s : Symbols) (m b : ℕ) (l : List ℕ)
    → IsRing s m l
    → Avoids b (m ∷ l)
    → suc (length l) < n
    → append_alias n m b s ≡ returned (linked s m (last m l) b)
unfolding append_alias
added n s m b [] r v h = rw (r.chained, append_alias) refl
added n s m b (a ∷ l) r v h =
    rw
      (
        r.chained.0,
        append_alias,
        r.mains.0,
        find_last_alias-Links n s m a l r.chained.1 r.distinct.0 (omega arith),
      )
      refl

Chained-linked :
    (s : Symbols) (m b : ℕ) (l : List ℕ)
    → IsRing s m l
    → Avoids b (m ∷ l)
    → Chained (linked s m (last m l) b) m (l ++ b ∷ [])
Chained-linked s m b [] r v = (linked-last s m m b v.0, linked-new s m m b ∙ ap some r.mains.0)
Chained-linked s m b (a ∷ l) r v = Links-linked s m m b m (a ∷ l) r.mains.0 r.chained r.distinct v

-- Adding an alias to a main symbol, with fuel above the number of aliases plus one, appends it to the ring: the call returns, the
-- assertions hold, and the chain goes once through the aliases, the new one last, and back. The new
-- alias has none of its own and is not yet in the ring.
pub add_alias-IsRing :
    (n : ℕ) (s : Symbols) (m b : ℕ) (l : List ℕ)
    → IsRing s m l
    → Avoids b (m ∷ l)
    → (s b).next_alias ≡ none
    → suc (length l) < n
    → (t : Symbols) × (add_alias n m (some b) s ≡ returned t) × IsRing t m (l ++ b ∷ [])
unfolding add_alias
add_alias-IsRing n s m b l r v e h =
    let own : ((s m).main_symbol == m) ≡ true = (==_iff (s m).main_symbol m).1 r.mains.0 in
    (
      linked s m (last m l) b,
      rw (e, add_alias, own) (added n s m b l r v h),
      record {
        distinct = Distinct-append b (m ∷ l) r.distinct v;
        mains = HaveMain-linked s m m b (last m l) (m ∷ l) r.mains.0 r.mains;
        chained = Chained-linked s m b l r v;
      },
    )
