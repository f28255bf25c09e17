-- ===== src/Tests/FilesRuns.antt =====
-- The file manager (web/src/components/devops/FileSystem.js) on a directory of three entries.
use next_terminal.Base.{
  ◌≡◌, refl, ◌↔◌, ◌&&◌, ◌-◌, ℕ, Bool, true, false, not, Option, none, some, List, [], ◌∷◌, ◌++◌,
  map, keep, leb, if◌then◌else◌,
}
use next_terminal.Base.Text.{Text, codes, text_eq}
use next_terminal.Request.Handlers.{Body}
use next_terminal.Request.Verbs.{Promise, resolved, pending}
use next_terminal.Files.Listing.{Item, dots}
use next_terminal.Files.Manager.{FileSystem, key_or_root, load_files, delete_selected}
use next_terminal.Files.Laws.{
  Shows, removed, load_files-loading_iff, load_files-Shows, delete_selected-removed,
}

abbrev small : ℕ → ℕ
small c = if leb 97 c && leb c 122 then c - 32 else c

abbrev upper : Text → Text
upper = map small

abbrev file : Text → Bool → Item
file name dir = record { name = name; path = codes "/home/" ++ name; is_dir = dir; is_link = false }

abbrev items : List Item
items = file (codes "zeta") false ∷ file (codes "src") true ∷ file (codes "Alpha") false ∷ []

abbrev listed : Body (Option (List Item))
listed = record { code = some 1; message = none; data' = some items }

abbrev manager : FileSystem
manager = record {
  storage_id = some (codes "s");
  storage_type = codes "storages";
  current_directory = codes "/home/work";
  current_directory_input = codes "/home/work";
  files = [];
  loading = false;
  current_file_key = none;
  selected_row_keys = [];
  has_callback = false;
  rights = record { upload = true; download = true; delete = true; rename = true; edit = true };
  editor_visible = false;
  file_name = [];
  file_content = [];
  confirm_loading = false;
  mkdir_visible = false;
  rename_visible = false;
  events = [];
}

abbrev waiting : Promise (Option (List Item))
waiting = pending

load_files-loading_iff_example :
    ((load_files upper (codes "/home") waiting manager).loading ≡ true) ↔ (waiting ≡ pending)
load_files-loading_iff_example = load_files-loading_iff upper (codes "/home") waiting manager

load_files-Shows_example :
    Shows upper
      (key_or_root (codes "/home"))
      items
      (load_files upper (codes "/home") (resolved (some listed)) manager)
load_files-Shows_example = load_files-Shows upper (codes "/home") listed items manager refl refl

abbrev answering : Text → Promise (Option (List Item))
answering key = resolved (some listed)

abbrev selection : List Text
selection = codes "/home/zeta" ∷ codes ".." ∷ []

delete_selected-removed_example :
    (removed upper (delete_selected upper answering selection manager).0.events
      ≡ removed upper manager.events ++ keep (λ key. not (text_eq key dots)) selection)
    × ((delete_selected upper answering selection manager).1 ≡ true)
delete_selected-removed_example =
    delete_selected-removed upper answering selection manager ((listed, refl), ((listed, refl), tt))

abbrev ends : List Bool
ends = true ∷ false ∷ true ∷ []
