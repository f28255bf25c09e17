-- ===== src/Files/Manager.antt =====
-- The state of the file manager and its handlers (the component `FileSystem` of
-- web/src/components/devops/FileSystem.js). A handler that awaits takes the promise of each request
-- that it makes; nothing behind an `await` runs while its promise is pending.
use next_terminal.Base.{
  Bool, true, false, ◌||◌, Option, none, some, List, [], ◌∷◌, ◌++◌, if◌then◌else◌,
}
use next_terminal.Base.Text.{Text, text_eq, has_text}
use next_terminal.Request.Handlers.{Body, code_is}
use next_terminal.Request.Verbs.{Promise, resolved, rejected, pending}
use next_terminal.Files.Paths.{parent_directory}
use next_terminal.Files.Listing.{Item, Row, dots, root, listing}

-- What is shown, and what is sent: the calls of `request` with their parameters.
pub data Event : Type 0 where
  failure : Option Text → Event
  success : Text → Event
  callback : Event
  ls mkdir rm : Text → Event
  rename : (old_name new_name : Text) → Event
  edit : (file content : Text) → Event
  load_file : Text → Event

pub record Rights : Type 0 where
  pub upload : Bool
  pub download : Bool
  pub delete : Bool
  pub rename : Bool
  pub edit : Bool

pub record FileSystem : Type 0 where
  pub storage_id : Option Text
  pub storage_type : Text
  pub current_directory : Text
  pub current_directory_input : Text
  pub files : List Row
  pub loading : Bool
  pub current_file_key : Option Text
  pub selected_row_keys : List Text
  pub has_callback : Bool
  pub rights : Rights
  pub editor_visible : Bool
  pub file_name : Text
  pub file_content : Text
  pub confirm_loading : Bool
  pub mkdir_visible : Bool
  pub rename_visible : Bool
  pub events : List Event

abbrev pub log : List Event → FileSystem → FileSystem
log es s = record s { events = s.events ++ es }

abbrev pub key_or_root : Text → Text
key_or_root key = if has_text key then key else root

module _ (upper : Text → Text) where
  -- The body of the `try` of `loadFiles` behind the request; data that is null throws.
  unfoldable pub show_listing : Text → Body (Option (List Item)) → FileSystem → FileSystem
  show_listing key result s =
      if code_is result.code 1
      then elim (result.data') [
        | none ↦ s
        | some data' ↦ record s {
          files = listing upper key data';
          current_directory = key;
          current_directory_input = key;
        }
      ]
      else log (failure result.message ∷ []) s

  -- The `finally` of `loadFiles`.
  abbrev pub done_loading : FileSystem → FileSystem
  done_loading s = record s { loading = false; selected_row_keys = [] }

  -- `loadFiles` up to its `await`, and from there on.
  abbrev pub load_start : Text → FileSystem → FileSystem
  load_start key s = log (ls (key_or_root key) ∷ []) (record s { loading = true })

  unfoldable pub load_end : Text → Promise (Option (List Item)) → FileSystem → FileSystem
  load_end key pending s = s
  load_end key (rejected f) s = done_loading s
  load_end key (resolved none) s = done_loading s
  load_end key (resolved (some result)) s = done_loading (show_listing (key_or_root key) result s)

  unfoldable pub load_files : Text → Promise (Option (List Item)) → FileSystem → FileSystem
  load_files key p s = load_end key p (load_start key s)

  -- What `componentDidMount` takes from the properties.
  pub record Props : Type 0 where
    pub storage_id : Option Text
    pub storage_type : Text
    pub has_callback : Bool
    pub rights : Rights

  unfoldable pub component_did_mount :
      Props → Promise (Option (List Item)) → FileSystem → FileSystem
  component_did_mount props p s = elim (props.storage_id) [
    | none ↦ s
    | some id ↦ load_files s.current_directory p (record s {
      storage_id = some id;
      storage_type = props.storage_type;
      has_callback = props.has_callback;
      rights = props.rights;
    })
  ]

  unfoldable pub reset_storage_id : Text → Promise (Option (List Item)) → FileSystem → FileSystem
  reset_storage_id id p s = load_files root p (record s { storage_id = some id })

  -- `loadFiles` is not awaited: the callback runs as soon as its request is on the way.
  unfoldable pub refresh : Promise (Option (List Item)) → FileSystem → FileSystem
  refresh p s =
      let started = load_start s.current_directory s in
      load_end s.current_directory p
        (if s.has_callback then log (callback ∷ []) started else started)

  unfoldable pub handle_current_directory_input_change : Text → FileSystem → FileSystem
  handle_current_directory_input_change value s = record s { current_directory_input = value }

  unfoldable pub handle_current_directory_input_press_enter :
      Text → Promise (Option (List Item)) → FileSystem → FileSystem
  handle_current_directory_input_press_enter value p s = load_files value p s

  -- A double click on a row.
  unfoldable pub on_double_click : Row → Promise (Option (List Item)) → FileSystem → FileSystem
  on_double_click row p s =
      if row.item.is_dir || row.item.is_link
      then (if text_eq row.item.path dots
          then load_files (parent_directory s.current_directory) p s
          else load_files row.item.path p s)
      else s

  -- `delete`, which says whether the caller goes on behind its `await`.
  unfoldable pub delete : Text → Promise (Option (List Item)) → FileSystem → FileSystem × Bool
  delete key pending s = (log (rm key ∷ []) s, false)
  delete key (rejected f) s = (log (rm key ∷ []) s, false)
  delete key (resolved none) s = (log (rm key ∷ []) s, false)
  delete key (resolved (some result)) s =
      (log (rm key ∷ (if code_is result.code 1 then [] else failure result.message ∷ [])) s, true)

  -- The loop of the batch deletion over the selected keys, with the promise of each request.
  unfoldable pub delete_selected :
      (Text → Promise (Option (List Item))) → List Text → FileSystem → FileSystem × Bool
  delete_selected answer [] s = (s, true)
  delete_selected answer (key ∷ keys) s =
      let (s', goes_on) = delete key (answer key) s in
      let skip = delete_selected answer keys s in
      let rest = delete_selected answer keys s' in
      if text_eq key dots then skip else if goes_on then rest else (s', false)

  -- The `onOk` of the batch deletion.
  unfoldable pub confirm_delete :
      (Text → Promise (Option (List Item))) → Promise (Option (List Item)) → FileSystem → FileSystem
  confirm_delete answer p s =
      let (s', goes_on) = delete_selected answer s.selected_row_keys s in
      if goes_on then refresh p s' else s'
