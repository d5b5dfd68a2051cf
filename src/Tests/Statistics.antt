-- ===== src/Tests/Statistics.antt =====
-- Runs and witnesses of the statistics of `src/abg-comparison.cc`.
use cyglibabigail.Base.{[], ◌∷◌, ◌≡◌, refl, arith, Ensures, codes}
use cyglibabigail.Diff.Category.{suppressed_category}
use cyglibabigail.Diff.Grows.{anything}
use cyglibabigail.Diff.Passes.Adding.{Adds}
use cyglibabigail.EditScripts.Scripts.{empty_script}
use cyglibabigail.Changes.Tables.{empty_tables}
use cyglibabigail.Changes.Corpus.{CorpusDiff}
use cyglibabigail.Statistics.Stats.{
  no_stats, net_num_func_changed, apply_filters_and_compute_diff_stats,
}
use cyglibabigail.Statistics.Counted.{AreStats, apply_filters_and_compute_diff_stats-AreStats}
use cyglibabigail.Tests.Diff.{graph, start, graph-IsClosed}
use cyglibabigail.Tests.Changes.{old_open, new_open}

-- One function has changed, and its diff is the node 0 of the graph.
abbrev one_change : CorpusDiff
one_change = record {
  fns_edit_script = empty_script;
  vars_edit_script = empty_script;
  unrefed_fn_syms_edit_script = empty_script;
  unrefed_var_syms_edit_script = empty_script;
  fns = record empty_tables {
    changed = record { key = codes "open"; value = (old_open, new_open) } ∷ [];
  };
  vars = empty_tables;
  unrefed_fn_syms = empty_tables;
  unrefed_var_syms = empty_tables;
}

-- More filtered out than changed wraps around.
wrap_run :
    net_num_func_changed (record no_stats { num_func_filtered_out = 1 }) ≡ 18446744073709551615
unfolding net_num_func_changed
wrap_run = refl

apply_filters_and_compute_diff_stats-AreStats_example :
    Ensures ⊥
      (λ (stat, t). Adds anything anything start t × AreStats graph one_change (0 ∷ []) [] stat t)
      (apply_filters_and_compute_diff_stats graph
        ((λ d. suppressed_category) ∷ [])
        5
        one_change
        (0 ∷ [])
        []
        no_stats
        start)
apply_filters_and_compute_diff_stats-AreStats_example =
    apply_filters_and_compute_diff_stats-AreStats graph 4 graph-IsClosed 5 (omega arith)
      ((λ d. suppressed_category) ∷ []) one_change (0 ∷ []) [] start (omega arith, tt) tt refl refl
      (omega arith) (omega arith) (λ x. refl)
