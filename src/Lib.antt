-- ===== src/Lib.antt =====
-- Verification library of libabigail: models of parts of the library, and theorems about them.
--
-- The parts, and the files that model them:
--
-- Ini: src/abg-ini.cc, which reads and writes the INI files that hold suppression
--   specifications. Ini/Stream is the input stream, Ini/Reader is `read_context` with its
--   position and the skipping of blanks and comments, Ini/Sections is each `read_` function up
--   to `read_sections`, Ini/Writer the writers. Ini/RoundTrip, Ini/Total and Ini/Escapes hold
--   proofs.
-- EditScripts: include/abg-diff-utils.h and src/abg-diff-utils.cc, which compute the shortest
--   edit script of two sequences by Myers' algorithm. EditScripts/Points is `point` and
--   `snake`, EditScripts/Scripts is `edit_script`, EditScripts/Paths is `d_path_vec` and the
--   two searches for the end of a furthest path on a diagonal, EditScripts/Snakes is
--   `compute_middle_snake` and `ses_len`, EditScripts/Compute is `compute_diff`, `compute_ses`
--   and `compute_lcs`. EditScripts/Distance is the edit distance, against which they are
--   measured, and EditScripts/Edits the paths that an edit script stands for; the other files
--   hold proofs, from the search on a diagonal (Follow, Furthest, LandForward, LandReverse,
--   Ends, EndsReverse) over a step of all diagonals (Sweep, ForwardPaths, ReversePaths) to the
--   whole (SesLen, MiddleSnake, DiffLaws, Strings), and for the sizes of vectors (Bounds,
--   BoundsReverse).
-- Changes: the lookup tables of src/abg-comparison.cc, filled from an edit script. Changes/Maps
--   is the maps from strings, Changes/Loops the loops over a script, Changes/Tables the three
--   tables of one kind of element, Changes/Enums `enum_diff`, Changes/Decls `get_id` of
--   src/abg-ir.cc and the lookup of symbols of src/abg-corpus.cc, Changes/Corpus `corpus_diff`.
--   Changes/Populated has the abstract difference of two sequences, an element or none at each
--   name; the other files hold proofs, and the whole is in Changes/Enums and Changes/Reports.
-- Diff: the graph of diff nodes of src/abg-comparison.cc. Diff/Category is `diff_category` and
--   `is_filtered_out`; Diff/Graph is the nodes as a store from addresses to members, and the
--   state that walks change; Diff/Traverse is `diff::traverse` for every visitor; Diff/Visitors
--   is the visitors that propagate categories, apply suppressions, mark and clear redundant
--   nodes and apply the filters of src/abg-comp-filter.cc, with the functions that run them.
--   Diff/Traverse/*, Diff/Grows, Diff/Reported and Diff/Passes/* hold proofs.
-- Suppressions: the suppression specifications of src/abg-comparison.cc. Suppressions/Criteria
--   is the choice of a name or a regular expression, Suppressions/Types, Functions and
--   Variables are `suppresses_diff` of each kind, Suppressions/Parameters the specification of
--   a parameter, Suppressions/Reading `read_suppressions` on the sections of an INI file.
--   Suppressions/RoundTrip holds proofs.
-- Statistics: `diff_stats` of src/abg-comparison.cc. Statistics/Stats runs the passes of Diff
--   on the changes of a `CorpusDiff` of Changes, and counts them; Statistics/Counted holds
--   proofs.
-- Exports: `exported_decls_builder` of src/abg-corpus.cc, which chooses the declarations that a
--   corpus has, for Changes to compare. Exports/Builder is the builder, Exports/Kept says
--   which declarations its options keep, Exports/Built holds proofs.
-- Symbols: `elf_symbol` of src/abg-ir.cc. Symbols/Symbol is the symbol and its version,
--   Symbols/Aliases the chains of aliases on a store from addresses to symbols, Symbols/Ids the
--   id of a symbol and taking it apart, Symbols/Kinds the words for types and bindings, which
--   src/abg-writer.cc writes. Symbols/Rings and Symbols/Walks hold proofs.
-- Xml: the escaping of strings of src/abg-libxml-utils.cc.
-- FileType: `guess_file_type` of src/abg-tools-utils.cc.
-- Base: what the parts share, and Tests: runs on concrete inputs.
--
-- Suppressions makes specifications of the sections that Ini reads, and they become the
-- predicates that the suppressing pass of Diff asks of each node; the strings of the XML files
-- that hold symbols pass through Xml.
--
-- The diffs of enums and corpora call `compute_diff` of EditScripts on their members, and
-- Changes makes tables of the script. Those of functions and classes do so in
-- `finish_diff_type`, which is not modelled.
--
-- Conventions. A call that may stop the program, or whose loop is not structural, gives an
-- `Outcome`: it returns, it aborts (an `assert` fails, or a null pointer is read), or its fuel
-- runs out. Fuel is the bound on the rounds of a loop or the depth of a walk. It is enough
-- where it is above the number of bytes plus four (Ini), the two sizes together (EditScripts),
-- the number of nodes (Diff), the number of aliases plus one (Symbols) and the length of the
-- string (Xml): the theorems that a call returns are stated with these bounds. Strings are
-- lists of character codes, and addresses are numbers. In EditScripts a sequence is its size,
-- and a function tells which elements are equal, as the iterators and the functor that compares
-- do; `int` is an integer without bounds, and a `d_path_vec` a function of the index that its
-- operators are given, holding zeros at first.
--
-- In Changes, an index that is out of range, undefined in the source, aborts; the index of a
-- deletion is read as an `unsigned` of 32 bits; the equality of functions and of variables is
-- given to the model.
--
-- `atoi` of the C library is given to Suppressions; the index of a parameter beyond the range of
-- `int` is its matter.
--
-- Not modelled: the overflow of `int` in EditScripts, which needs very long sequences; the
-- printing of edit scripts; opening files by their path; what makes the children of a diff node
-- (`finish_diff_type`), taken as done; what a filter or a suppression finds on a node of the
-- graph of Diff, which is a function given to the model; `regcomp` and `regexec`, which are
-- given to Suppressions and Exports as one; the passes of suppressions and of redundancy that
-- start at a `corpus_diff`, which run the modelled ones on each child; libxml2, libelf,
-- elfutils and libzip, and the readers and writers built on them.
pub mod Base
pub mod Ini
pub mod EditScripts
pub mod Xml
pub mod FileType
pub mod Symbols
pub mod Changes
pub mod Suppressions
pub mod Exports
pub mod Diff
pub mod Statistics
mod Tests
