-- ===== src/Diff/Passes/Adding.antt =====
-- A pass of `src/abg-comparison.cc` whose visitor only adds categories ends, and only adds categories.
use cyglibabigail.Base.{
  ℕ, ◌<◌, Bool, true, false, if◌then◌else◌, ◌≡◌, refl, ◌∙◌, arith, Outcome, returned, ◌>>=◌,
  Ensures, returns, Ensures-bind,
}
use cyglibabigail.Diff.Graph.{Diffs, State, diff_has_been_visited}
use cyglibabigail.Diff.Traverse.{Visitor}
use cyglibabigail.Diff.Traverse.Flags.{IsClosed, free-le, Keeps}
use cyglibabigail.Diff.Traverse.Steps.{Stays}
use cyglibabigail.Diff.Traverse.Ends.{traverse-Ensures}
use cyglibabigail.Diff.Visitors.{walk_with, fresh_visitor}
use cyglibabigail.Diff.Grows.{Enumerator, Grows, Grows-refl, Grows-trans, Grows-same}

-- No node is being traversed, as between two passes.
abbrev pub IsIdle : State → Type 0
IsIdle s = (x : ℕ) → s.traversing x ≡ false

-- What is shown of a pass: no node is being traversed behind it, and the categories gain only bits
-- of the given sets and lose none.
abbrev pub Adds : (Enumerator → Bool) → (Enumerator → Bool) → State → State → Type 0
Adds may may_local s t = IsIdle t × Grows may may_local s t

module _ (g : Diffs) (size : ℕ) (closed : IsClosed g size) where
  -- A visitor stays in `Grows` if its calls do.
  pub record Adding (v : Visitor) (may may_local : Enumerator → Bool) : Type 0 where
    pub begins :
        (d : ℕ) (s : State)
        → d < size
        → Ensures ⊥ (λ t. Keeps s t × Grows may may_local s t) (v.visit_begin d s)
    pub visits :
        (d : ℕ) (pre : Bool) (s : State)
        → d < size
        → Ensures ⊥ (λ p. Keeps s p.1 × Grows may may_local s p.1) (v.visit d pre s)
    pub ends :
        (d : ℕ) (s : State)
        → d < size
        → Ensures ⊥ (λ t. Keeps s t × Grows may may_local s t) (v.visit_end d s)

  module _ (may may_local : Enumerator → Bool) where
    pub Adding-Stays : (v : Visitor) → Adding v may may_local → Stays g size v (Grows may may_local)
    Adding-Stays v a = record {
      same = Grows-refl may may_local;
      both = Grows-trans may may_local;
      begins = a.begins;
      visits = a.visits;
      ends = a.ends;
      marks = λ s f. Grows-same may may_local s _ refl refl;
      flags = λ s f. Grows-same may may_local s _ refl refl;
    }

    pub unchanged : (s : State) → Keeps s s × Grows may may_local s s
    unchanged s = ((λ x. refl), Grows-refl may may_local s)

    pub walk_with-Adds :
        (v : Visitor) (forbid : Bool) (n d : ℕ) (s : State)
        → Adding v may may_local
        → d < size
        → size < n
        → IsIdle s
        → Ensures ⊥ (Adds may may_local s) (walk_with g v forbid n d s)
    unfolding walk_with
    walk_with-Adds v forbid n d s a h enough idle =
        Ensures-bind
          (traverse-Ensures g size closed v (Grows may may_local) (Adding-Stays v a) n d
            (fresh_visitor (record s { forbid_visiting_a_node_twice = forbid })) h
            (λ x hx on. cc (idle x)) (omega (arith, free-le size s.traversing)))
          (λ (more, t) p. returns (
            λ x. p.0 x ∙ idle x,
            record { inherited = λ x b. p.1.inherited x b; own = λ x b. p.1.own x b },
          ))

  -- `diff_has_been_visited` finds the canonical node.
  pub after_seen :
      {A : Type 0} {P : A → Type 0} (d : ℕ) (s : State) (f : Bool → Outcome A)
      → d < size
      → ((b : Bool) → Ensures ⊥ P (f b))
      → Ensures ⊥ P (diff_has_been_visited g d s >>= f)
  unfolding diff_has_been_visited
  after_seen d s f h k =
      let (c, e, p, q) = closed.canonical d h in
      let visited : diff_has_been_visited g d s ≡ returned (s.visited c) =
        rw (e, diff_has_been_visited) in
      rw visited (k (s.visited c))

  -- Two changes, one behind the other.
  pub then_ :
      (may may_local : Enumerator → Bool) (s t u : State)
      → Keeps s t × Grows may may_local s t
      → Keeps t u × Grows may may_local t u
      → Keeps s u × Grows may may_local s u
  then_ may may_local s t u p q = ((λ x. q.0 x ∙ p.0 x), Grows-trans may may_local s t u p.1 q.1)

  pub either_of :
      (may may_local : Enumerator → Bool) (b : Bool) (s t u : State)
      → Keeps s t × Grows may may_local s t
      → Keeps s u × Grows may may_local s u
      → (let w = if b then t else u in Keeps s w × Grows may may_local s w)
  either_of may may_local true s t u p q = p
  either_of may may_local false s t u p q = q

  -- A change that is made under a test.
  pub under_test :
      (may may_local : Enumerator → Bool) (b : Bool) (s t : State)
      → Keeps s t × Grows may may_local s t
      → (let u = if b then t else s in Keeps s u × Grows may may_local s u)
  under_test may may_local true s t p = p
  under_test may may_local false s t p = unchanged may may_local s
