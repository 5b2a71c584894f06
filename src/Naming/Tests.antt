-- ===== src/Naming/Tests.antt =====
-- The naming theorems at work on one running client and one lost one, and on one loaded project.
use gnu_lash.Prelude.{
  ℕ, zero, suc, ◌+◌, ◌≤◌, ◌≡◌, refl, Bool, true, none, some, List, [], ◌∷◌, Str, codes, length,
  arith, str_eq, decimal, decimal_digits,
}
use gnu_lash.Naming.{
  NamedClient, client_find_by_name, get_client_by_name, two_digits, numbered, try_numbers,
  unique_client_name, new_client, find_project_by_name, is_free, project_name, try_names,
  create_new_project_name,
}
use gnu_lash.Naming.Distinct.{NoRepeats}
use gnu_lash.Naming.Candidates.{taken}
use gnu_lash.Naming.Clients.{new_client-NoRepeats}
use gnu_lash.Naming.Projects.{IsFree, create_new_project_name-IsFree}

abbrev synth_class : Str
synth_class = codes "synth"

abbrev running : List NamedClient
running = record { class_name = synth_class; name = some (codes "synth") } ∷ []

abbrev lost : List NamedClient
lost = record { class_name = synth_class; name = some (codes "synth 01") } ∷ []

third_name : unique_client_name running lost synth_class ≡ some (codes "synth 02")
unfolding unique_client_name try_numbers get_client_by_name client_find_by_name numbered two_digits
    decimal decimal_digits str_eq
third_name = refl

abbrev unnamed : NamedClient
unnamed = record { class_name = synth_class; name = none }

names-NoRepeats : NoRepeats (taken running lost)
names-NoRepeats = ground arith

new_client-NoRepeats_example : NoRepeats (taken (new_client running lost unnamed) lost)
new_client-NoRepeats_example =
    new_client-NoRepeats running lost unnamed refl names-NoRepeats (omega arith)

-- One project is on disk.
abbrev on_disk : Str → Bool
on_disk s = str_eq s (codes "Song 2")

second_song :
    create_new_project_name (codes "Song" ∷ []) on_disk (some (codes "Song"))
    ≡ some (codes "Song 3")
unfolding create_new_project_name try_names is_free find_project_by_name project_name decimal
    decimal_digits str_eq
second_song = refl

create_new_project_name-IsFree_example :
    IsFree (codes "Song" ∷ []) on_disk (codes "Song 3") × (length (codes "Song 3") + 1 ≤ 1034)
create_new_project_name-IsFree_example =
    create_new_project_name-IsFree (codes "Song" ∷ []) on_disk (some (codes "Song"))
      (codes "Song 3") second_song

-- Every name is on disk.
abbrev full_disk : Str → Bool
full_disk s = true

try_names-full_disk :
    (suggestion : Str) (n i : ℕ) (s : Str) → try_names [] full_disk suggestion n i s ≡ none
unfolding try_names is_free find_project_by_name
try_names-full_disk suggestion zero i s = refl
try_names-full_disk suggestion (suc n) i s =
    try_names-full_disk suggestion n (suc i) (project_name suggestion i)

no_song_left : create_new_project_name [] full_disk (some (codes "Song")) ≡ none
unfolding create_new_project_name
no_song_left = try_names-full_disk (codes "Song") 999999999 2 (codes "Song")
