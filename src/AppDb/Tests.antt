-- ===== src/AppDb/Tests.antt =====
-- The theorems at work: two directories with two desktop files of one name.
use gnu_lash.Prelude.{
  ◌≡◌, ◌≢◌, ◌↔◌, refl, true, none, some, List, [], ◌∷◌, ◌++◌, Str, str_eq, codes, arith, length,
  ◌>>=◌, if◌then◌else◌,
}
use gnu_lash.AppDb.Parse.{parse_file_data, group_line, is_skipped, is_blank, find_key}
use gnu_lash.AppDb.Parse.Printed.{
  Line, remark, empty, pair, AreLines, print_lines, entries_of, parse_file_data-print_lines,
}
use gnu_lash.AppDb.Load.{System, suffix_match, load, AppEntry}
use gnu_lash.AppDb.Load.Suffix.{extension, suffix_match_iff}
use gnu_lash.AppDb.Load.Priority.{
  IsFirsts, candidates, desktop_files, data_directories, load-IsFirsts,
}

abbrev synth_lines : List Line
synth_lines =
    remark (codes " a synthesiser")
    ∷ pair (codes "Type") [] [] (codes "Application")
    ∷ pair (codes "Name") (codes " ") (codes " ") (codes "Synth")
    ∷ empty
    ∷ pair (codes "X-LASH") (codes " yes no") [] []
    ∷ pair (codes "Exec") [] [] (codes "synth -j")
    ∷ []

synth_lines-AreLines : AreLines synth_lines
unfolding is_skipped is_blank
synth_lines-AreLines = ground arith

parse_file_data-print_lines_example :
    parse_file_data (group_line ++ (b'\n' ∷ print_lines synth_lines)) 1000
    ≡ some (entries_of synth_lines)
parse_file_data-print_lines_example =
    parse_file_data-print_lines 1000 synth_lines synth_lines-AreLines (omega arith)

abbrev synth_file : Str
synth_file = group_line ++ (b'\n' ∷ print_lines synth_lines)

-- Two directories have a file for the application.
abbrev two_directories : System
two_directories = record {
  read_file = λ path. some synth_file;
  list_dir = λ path. some ((codes "synth.desktop", true) ∷ (codes ".desktop", true) ∷ []);
  getenv = λ name. if str_eq name (codes "HOME") then some (codes "/home/a") else none;
}

home_is_set : two_directories.getenv (codes "HOME") ≡ some (codes "/home/a")
unfolding str_eq
home_is_set = refl

-- Four files name the application, and it is listed once.
found_once : (load two_directories >>= λ appdb. some (length appdb)) ≡ some 1
unfolding load str_eq parse_file_data find_key
found_once = refl

load-IsFirsts_example :
    (appdb : List AppEntry) × (load two_directories ≡ some appdb)
    × IsFirsts appdb (
        candidates two_directories
          (desktop_files two_directories (data_directories two_directories (codes "/home/a"))))
load-IsFirsts_example = load-IsFirsts two_directories (codes "/home/a") home_is_set

suffix_match_iff_example :
    (suffix_match (codes "synth.desktop") extension ≡ true)
    ↔ ((stem : Str) × (stem ≢ []) × (codes "synth.desktop" ≡ stem ++ extension))
suffix_match_iff_example = suffix_match_iff (codes "synth.desktop")
