-- ===== src/Tests/FileType.antt =====
-- Runs of the guessing of a file's type.
use cyglibabigail.Base.{true, false, ◌≡◌, ◌↔◌, refl, codes, List, ℕ}
use cyglibabigail.FileType.{
  xml_corpus, unknown, starts_with, type_of_bytes, guess_file_type, magic, guess_file_type_lem,
}

abbrev corpus : List ℕ
corpus = codes "<abi-corpus path='libfoo.so'>"

corpus_run : guess_file_type false corpus ≡ xml_corpus
unfolding guess_file_type type_of_bytes starts_with
corpus_run = refl

short_run : guess_file_type false (codes "<ab") ≡ unknown
unfolding guess_file_type type_of_bytes starts_with
short_run = refl

guess_file_type_lem_example :
    guess_file_type false corpus ≡ xml_corpus ↔ starts_with (magic xml_corpus) corpus ≡ true
guess_file_type_lem_example = guess_file_type_lem xml_corpus corpus refl
