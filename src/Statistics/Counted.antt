-- ===== src/Statistics/Counted.antt =====
-- What the statistics of `src/abg-comparison.cc` count.
use cyglibabigail.Base.{
  ℕ, suc, ◌+◌, ◌%◌, ◌<◌, Bool, true, false, not, List, [], ◌∷◌, if◌then◌else◌, Outcome, length, ◌≡◌,
  refl, ◌∙◌, arith, Ensures, returns, Ensures-bind, Ensures-map, Bool-cases, inl, inr,
}
use cyglibabigail.Diff.Category.{Category, is_filtered_out}
use cyglibabigail.Diff.Graph.{Diffs, State}
use cyglibabigail.Diff.Visitors.{maybe_apply_filters, categorize_redundancy, forget_visited_diffs}
use cyglibabigail.Diff.Grows.{
  Enumerator, BitGrows, anything, nothing, only_redundant, Grows, Grows-refl, Grows-trans,
}
use cyglibabigail.Diff.Traverse.Flags.{IsClosed}
use cyglibabigail.Diff.Passes.Adding.{IsIdle, Adds}
use cyglibabigail.Diff.Passes.Filters.{maybe_apply_filters-Adds}
use cyglibabigail.Diff.Passes.Redundancy.{categorize_redundancy-Adds}
use cyglibabigail.Changes.Loops.{for_each}
use cyglibabigail.Changes.Corpus.{CorpusDiff}
use cyglibabigail.Statistics.Stats.{
  DiffStats, no_stats, size_t_values, sub_size_t, net_num_func_changed, net_num_vars_changed,
  categorize_redundant_changed_sub_nodes, count_filtered_fns, count_filtered_vars, set_changes,
  set_symbols, apply_filters_and_compute_diff_stats,
}

-- How many nodes pass a test.
unfoldable pub number_of : (ℕ → Bool) → List ℕ → ℕ
number_of p [] = 0
number_of p (d ∷ ds) = let rest = number_of p ds in if p d then suc rest else rest

abbrev pub AreNodes : ℕ → List ℕ → Type 0
AreNodes size [] = Unit {0}
AreNodes size (d ∷ ds) = (d < size) × AreNodes size ds

-- What the statistics say of the tables, and of the nodes that are filtered out of the report behind
-- the passes.
pub record AreStats (g : Diffs) (d : CorpusDiff) (fns vars : List ℕ) (stat : DiffStats) (t : State)
    : Type 0 where
  pub func_removed : stat.num_func_removed ≡ length d.fns.deleted
  pub func_added : stat.num_func_added ≡ length d.fns.inserted
  pub vars_removed : stat.num_vars_removed ≡ length d.vars.deleted
  pub vars_added : stat.num_vars_added ≡ length d.vars.inserted
  pub func_syms_removed : stat.num_func_syms_removed ≡ length d.unrefed_fn_syms.deleted
  pub func_syms_added : stat.num_func_syms_added ≡ length d.unrefed_fn_syms.inserted
  pub var_syms_removed : stat.num_var_syms_removed ≡ length d.unrefed_var_syms.deleted
  pub var_syms_added : stat.num_var_syms_added ≡ length d.unrefed_var_syms.inserted
  pub func_filtered_out :
      stat.num_func_filtered_out ≡ number_of (λ x. is_filtered_out g.settings (t.category x)) fns
  pub vars_filtered_out :
      stat.num_vars_filtered_out ≡ number_of (λ x. is_filtered_out g.settings (t.category x)) vars
  pub net_func_changed :
      net_num_func_changed stat
      ≡ number_of (λ x. not (is_filtered_out g.settings (t.category x))) fns
  pub net_vars_changed :
      net_num_vars_changed stat
      ≡ number_of (λ x. not (is_filtered_out g.settings (t.category x))) vars

numbers_add :
    (p : ℕ → Bool) (ds : List ℕ) → number_of p ds + number_of (λ x. not (p x)) ds ≡ length ds
unfolding number_of
numbers_add p [] = omega arith
numbers_add p (d ∷ ds) = elim (Bool-cases (p d)) [
  | inl h ↦ rw h (omega (arith, numbers_add p ds))
  | inr h ↦ rw h (omega (arith, numbers_add p ds))
]

module _ (g : Diffs) (s : State) where
  abbrev filtered : ℕ → Bool
  filtered x = is_filtered_out g.settings (s.category x)

  -- Each loop changes only its own number.
  fns_counted :
      (ds : List ℕ) (stat : DiffStats)
      → stat.num_func_filtered_out + length ds < size_t_values
      → count_filtered_fns g ds s stat
        ≡ record stat { num_func_filtered_out = stat.num_func_filtered_out + number_of filtered ds }
  unfolding count_filtered_fns number_of
  fns_counted [] stat h =
      let e : stat.num_func_filtered_out + 0 ≡ stat.num_func_filtered_out = omega arith in rw e refl
  fns_counted (d ∷ ds) stat h = elim (Bool-cases (filtered d)) [
    | inl out ↦
        let e : (stat.num_func_filtered_out + 1) % size_t_values ≡ stat.num_func_filtered_out + 1 =
          omega arith in
        let more : stat.num_func_filtered_out + suc (number_of filtered ds)
            ≡ stat.num_func_filtered_out + 1 + number_of filtered ds =
          omega arith in
        rw (out, e, more)
          (fns_counted ds (record stat { num_func_filtered_out = stat.num_func_filtered_out + 1 })
            (omega arith))
    | inr shown ↦ rw shown (fns_counted ds stat (omega arith))
  ]

  vars_counted :
      (ds : List ℕ) (stat : DiffStats)
      → stat.num_vars_filtered_out + length ds < size_t_values
      → count_filtered_vars g ds s stat
        ≡ record stat { num_vars_filtered_out = stat.num_vars_filtered_out + number_of filtered ds }
  unfolding count_filtered_vars number_of
  vars_counted [] stat h =
      let e : stat.num_vars_filtered_out + 0 ≡ stat.num_vars_filtered_out = omega arith in rw e refl
  vars_counted (d ∷ ds) stat h = elim (Bool-cases (filtered d)) [
    | inl out ↦
        let e : (stat.num_vars_filtered_out + 1) % size_t_values ≡ stat.num_vars_filtered_out + 1 =
          omega arith in
        let more : stat.num_vars_filtered_out + suc (number_of filtered ds)
            ≡ stat.num_vars_filtered_out + 1 + number_of filtered ds =
          omega arith in
        rw (out, e, more)
          (vars_counted ds (record stat { num_vars_filtered_out = stat.num_vars_filtered_out + 1 })
            (omega arith))
    | inr shown ↦ rw shown (vars_counted ds stat (omega arith))
  ]

net_number :
    (p : ℕ → Bool) (ds : List ℕ) (n : ℕ)
    → n ≡ length ds
    → n < size_t_values
    → sub_size_t n (number_of p ds) ≡ number_of (λ x. not (p x)) ds
net_number p ds n e h = omega (arith, numbers_add p ds)

more_bits : (m p q : Bool) → BitGrows m p q → BitGrows true p q
more_bits true p q h = h
more_bits false p q h = λ x. h ∙ x

pub Grows-anything :
    (may may_local : Enumerator → Bool) (s t : State)
    → Grows may may_local s t
    → Grows anything anything s t
Grows-anything may may_local s t h = record {
  inherited = λ x b. more_bits (may b) _ _ (h.inherited x b);
  own = λ x b. more_bits (may_local b) _ _ (h.own x b);
}

counted :
    (g : Diffs) (d : CorpusDiff) (fns vars : List ℕ) (t : State)
    → length d.fns.changed ≡ length fns
    → length d.vars.changed ≡ length vars
    → length fns < size_t_values
    → length vars < size_t_values
    → AreStats g d fns vars
        (set_symbols d
          (count_filtered_vars g vars t (count_filtered_fns g fns t (set_changes d no_stats))))
        t
unfolding set_symbols set_changes net_num_func_changed net_num_vars_changed
counted g d fns vars t as_fns as_vars few_fns few_vars =
    let f : 0 + number_of (filtered g t) fns ≡ number_of (filtered g t) fns = omega arith in
    let v : 0 + number_of (filtered g t) vars ≡ number_of (filtered g t) vars = omega arith in
    rw
      (
        fns_counted g t fns (set_changes d no_stats) (omega arith),
        vars_counted g t vars
            (record (set_changes d no_stats) {
              num_func_filtered_out = 0 + number_of (filtered g t) fns;
            })
            (omega arith),
      )
      (record {
        func_removed = refl;
        func_added = refl;
        vars_removed = refl;
        vars_added = refl;
        func_syms_removed = refl;
        func_syms_added = refl;
        var_syms_removed = refl;
        var_syms_added = refl;
        func_filtered_out = omega arith;
        vars_filtered_out = omega arith;
        net_func_changed =
            rw f (net_number (filtered g t) fns (length d.fns.changed) as_fns (omega arith));
        net_vars_changed =
            rw v (net_number (filtered g t) vars (length d.vars.changed) as_vars (omega arith));
      })

module _ (g : Diffs) (size : ℕ) (closed : IsClosed g size) where
  -- A loop of passes over nodes.
  for_each-Adds :
      (step : ℕ → State → Outcome State)
      → ((d : ℕ) (s : State)
          → d < size
          → IsIdle s
          → Ensures ⊥ (Adds anything anything s) (step d s))
      → (ds : List ℕ) (s : State) → AreNodes size ds
      → IsIdle s
      → Ensures ⊥ (Adds anything anything s) (for_each step ds s)
  for_each-Adds step pass [] s h idle = returns (idle, Grows-refl anything anything s)
  for_each-Adds step pass (d ∷ ds) s h idle = Ensures-bind (pass d s h.0 idle) (λ t p.
      Ensures-map (for_each-Adds step pass ds t h.1 p.0)
        (λ u q. (q.0, Grows-trans anything anything s t u p.1 q.1)))

  module _ (n : ℕ) (enough : size < n) where
    filters_pass :
        (filters : List (ℕ → Category)) (d : ℕ) (s : State)
        → d < size
        → IsIdle s
        → Ensures ⊥ (Adds anything anything s) (maybe_apply_filters g filters n d s)
    filters_pass filters d s h idle =
        maybe_apply_filters-Adds g size closed filters n d s h enough idle

    redundancy_pass :
        (d : ℕ) (s : State)
        → d < size
        → IsIdle s
        → Ensures ⊥ (Adds anything anything s) (categorize_redundancy g n d s)
    redundancy_pass d s h idle =
        Ensures-map (categorize_redundancy-Adds g size closed n d s h enough idle)
          (λ t p. (p.0, Grows-anything only_redundant nothing s t p.1))

    sub_nodes_pass :
        (fns vars : List ℕ) (s : State)
        → AreNodes size fns
        → AreNodes size vars
        → IsIdle s
        → Ensures ⊥
            (Adds anything anything s)
            (categorize_redundant_changed_sub_nodes g n fns vars s)
    unfolding categorize_redundant_changed_sub_nodes
    sub_nodes_pass fns vars s in_fns in_vars idle =
        Ensures-bind
          (for_each-Adds (λ d t. categorize_redundancy g n d t) redundancy_pass fns
            (forget_visited_diffs s) in_fns idle)
          (λ t p.
            Ensures-map
              (for_each-Adds (λ d t. categorize_redundancy g n d t) redundancy_pass vars t in_vars
                p.0)
              (λ u q. (
                q.0,
                Grows-trans anything anything s t u
                    (record { inherited = λ x b. p.1.inherited x b; own = λ x b. p.1.own x b }) q.1,
              )))

    -- On a closed graph of fewer nodes than the fuel, cycles included, with no node being traversed,
    -- where the nodes of the changes are in the graph, as many as the tables have, and fewer than
    -- 2 ^ 64, and from fresh statistics, `apply_filters_and_compute_diff_stats` ends without a failed
    -- assertion. No node loses a category, and the statistics have the sizes of the tables, the number of
    -- the changes that are filtered out behind the passes, and as net number that of the changes that
    -- are not.
    pub apply_filters_and_compute_diff_stats-AreStats :
        (filters : List (ℕ → Category)) (d : CorpusDiff) (fns vars : List ℕ) (s : State)
        → AreNodes size fns
        → AreNodes size vars
        → length d.fns.changed ≡ length fns
        → length d.vars.changed ≡ length vars
        → length fns < size_t_values
        → length vars < size_t_values
        → IsIdle s
        → Ensures ⊥
            (λ (stat, t). Adds anything anything s t × AreStats g d fns vars stat t)
            (apply_filters_and_compute_diff_stats g filters n d fns vars no_stats s)
    unfolding apply_filters_and_compute_diff_stats
    apply_filters_and_compute_diff_stats-AreStats filters d fns vars s in_fns in_vars as_fns as_vars
          few_fns few_vars idle =
        Ensures-bind
          (for_each-Adds (λ x t. maybe_apply_filters g filters n x t) (filters_pass filters) fns s
            in_fns idle)
          (λ t p.
            Ensures-bind
              (for_each-Adds (λ x t. maybe_apply_filters g filters n x t) (filters_pass filters)
                vars t in_vars p.0)
              (λ u q. Ensures-bind (sub_nodes_pass fns vars u in_fns in_vars q.0) (λ v r. returns (
                (
                  r.0,
                  Grows-trans anything anything s u v (Grows-trans anything anything s t u p.1 q.1)
                      r.1,
                ),
                counted g d fns vars v as_fns as_vars few_fns few_vars,
              ))))
