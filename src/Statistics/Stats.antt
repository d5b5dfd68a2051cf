-- ===== src/Statistics/Stats.antt =====
-- `corpus_diff::diff_stats` of `src/abg-comparison.cc`, and how it is filled.
use cyglibabigail.Base.{
  ℕ, ◌+◌, ◌-◌, ◌%◌, List, [], ◌∷◌, if◌then◌else◌, Outcome, returned, ◌>>=◌, length,
}
use cyglibabigail.Diff.Category.{Category, is_filtered_out}
use cyglibabigail.Diff.Graph.{Diffs, State}
use cyglibabigail.Diff.Visitors.{
  maybe_apply_filters, categorize_redundancy, clear_redundancy_categorization, forget_visited_diffs,
}
use cyglibabigail.Changes.Loops.{for_each}
use cyglibabigail.Changes.Corpus.{CorpusDiff}

-- `corpus_diff::diff_stats::priv`, of fields of type `size_t`
pub record DiffStats : Type 0 where
  pub num_func_removed : ℕ
  pub num_func_added : ℕ
  pub num_func_changed : ℕ
  pub num_func_filtered_out : ℕ
  pub num_vars_removed : ℕ
  pub num_vars_added : ℕ
  pub num_vars_changed : ℕ
  pub num_vars_filtered_out : ℕ
  pub num_func_syms_removed : ℕ
  pub num_func_syms_added : ℕ
  pub num_var_syms_removed : ℕ
  pub num_var_syms_added : ℕ

-- `diff_stats::diff_stats`
abbrev pub no_stats : DiffStats
no_stats = record {
  num_func_removed = 0;
  num_func_added = 0;
  num_func_changed = 0;
  num_func_filtered_out = 0;
  num_vars_removed = 0;
  num_vars_added = 0;
  num_vars_changed = 0;
  num_vars_filtered_out = 0;
  num_func_syms_removed = 0;
  num_func_syms_added = 0;
  num_var_syms_removed = 0;
  num_var_syms_added = 0;
}

-- 2 ^ 64
abbrev pub size_t_values : ℕ
size_t_values = 18446744073709551616

abbrev pub sub_size_t : ℕ → ℕ → ℕ
sub_size_t a b = (a + size_t_values - b) % size_t_values

unfoldable pub net_num_func_changed : DiffStats → ℕ
net_num_func_changed s = sub_size_t s.num_func_changed s.num_func_filtered_out

unfoldable pub net_num_vars_changed : DiffStats → ℕ
net_num_vars_changed s = sub_size_t s.num_vars_changed s.num_vars_filtered_out

-- The sizes of the tables, before and after the passes
unfoldable pub set_changes : CorpusDiff → DiffStats → DiffStats
set_changes d stat = record stat {
  num_func_removed = length d.fns.deleted;
  num_func_added = length d.fns.inserted;
  num_func_changed = length d.fns.changed;
  num_vars_removed = length d.vars.deleted;
  num_vars_added = length d.vars.inserted;
  num_vars_changed = length d.vars.changed;
}

unfoldable pub set_symbols : CorpusDiff → DiffStats → DiffStats
set_symbols d stat = record stat {
  num_func_syms_added = length d.unrefed_fn_syms.inserted;
  num_func_syms_removed = length d.unrefed_fn_syms.deleted;
  num_var_syms_added = length d.unrefed_var_syms.inserted;
  num_var_syms_removed = length d.unrefed_var_syms.deleted;
}

module _ (g : Diffs) where
  -- `corpus_diff::priv::categorize_redundant_changed_sub_nodes`, on the nodes of the changed functions
  -- and variables
  unfoldable pub categorize_redundant_changed_sub_nodes :
      ℕ → List ℕ → List ℕ → State → Outcome State
  categorize_redundant_changed_sub_nodes n fns vars s = do
    s₁ ← for_each (λ d t. categorize_redundancy g n d t) fns (forget_visited_diffs s)
    for_each (λ d t. categorize_redundancy g n d t) vars s₁

  -- `corpus_diff::priv::clear_redundancy_categorization`
  unfoldable pub clear_changed_sub_nodes : ℕ → List ℕ → List ℕ → State → Outcome State
  clear_changed_sub_nodes n fns vars s = do
    s₁ ← for_each (λ d t. clear_redundancy_categorization g n d t) fns s
    for_each (λ d t. clear_redundancy_categorization g n d t) vars s₁

  -- The loops that count what is filtered out, with `size_t` numbers
  unfoldable pub count_filtered_fns : List ℕ → State → DiffStats → DiffStats
  count_filtered_fns [] s stat = stat
  count_filtered_fns (d ∷ ds) s stat = count_filtered_fns ds s (
      if is_filtered_out g.settings (s.category d)
      then record stat { num_func_filtered_out = (stat.num_func_filtered_out + 1) % size_t_values }
      else stat)

  unfoldable pub count_filtered_vars : List ℕ → State → DiffStats → DiffStats
  count_filtered_vars [] s stat = stat
  count_filtered_vars (d ∷ ds) s stat = count_filtered_vars ds s (
      if is_filtered_out g.settings (s.category d)
      then record stat { num_vars_filtered_out = (stat.num_vars_filtered_out + 1) % size_t_values }
      else stat)

  -- `corpus_diff::priv::apply_filters_and_compute_diff_stats`, with the filters of the context, and the
  -- nodes of the changed functions and variables
  unfoldable pub apply_filters_and_compute_diff_stats :
      List (ℕ → Category)
      → ℕ
      → CorpusDiff
      → List ℕ
      → List ℕ
      → DiffStats
      → State
      → Outcome (DiffStats × State)
  apply_filters_and_compute_diff_stats filters n d fns vars stat s = do
    s₁ ← for_each (λ x t. maybe_apply_filters g filters n x t) fns s
    s₂ ← for_each (λ x t. maybe_apply_filters g filters n x t) vars s₁
    s₃ ← categorize_redundant_changed_sub_nodes n fns vars s₂
    returned (
      set_symbols d (count_filtered_vars vars s₃ (count_filtered_fns fns s₃ (set_changes d stat))),
      s₃,
    )
