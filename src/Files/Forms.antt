-- ===== src/Files/Forms.antt =====
-- The dialogues of the file manager (web/src/components/devops/FileSystem.js): the editor of a file,
-- and the forms for a new directory and a new name.
use next_terminal.Base.{true, false, Option, none, some, List, [], ◌∷◌, ◌++◌, if◌then◌else◌}
use next_terminal.Base.Text.{Text, codes, text_eq}
use next_terminal.Request.Handlers.{code_is}
use next_terminal.Request.Verbs.{Promise, resolved, rejected, pending}
use next_terminal.Files.Paths.{renamed}
use next_terminal.Files.Listing.{Item}
use next_terminal.Files.Manager.{
  failure, success, load_file, edit, mkdir, rename, FileSystem, log, load_files, refresh,
}

module _ (upper : Text → Text) where
  unfoldable pub show_editor : Text → Text → Option Text → FileSystem → FileSystem
  show_editor name key none s = log (load_file key ∷ []) s
  show_editor name key (some content) s = record (log (load_file key ∷ []) s) {
    current_file_key = some key;
    file_name = name;
    file_content = content;
    editor_visible = true;
  }

  unfoldable pub hide_editor : FileSystem → FileSystem
  hide_editor s = record s {
    editor_visible = false;
    file_name = [];
    file_content = [];
    current_file_key = some [];
  }

  -- `edit`: with no key, the form field is the text "undefined".
  abbrev key_text : Option Text → Text
  key_text none = codes "undefined"
  key_text (some key) = key

  unfoldable pub edit_file : Promise (Option (List Item)) → FileSystem → FileSystem
  edit_file p s =
      let sent =
        log (edit (key_text s.current_file_key) s.file_content ∷ [])
          (record s { confirm_loading = true }) in
      elim p [
        | pending ↦ sent
        | rejected f ↦ sent
        | resolved d ↦ elim d [
          | none ↦ sent
          | some result ↦
              hide_editor
                (record (log (if code_is result.code 1 then [] else failure result.message ∷ [])
                  sent) { confirm_loading = false })
        ]
      ]

  -- The `onOk` of the form for a new directory, and of that for a new name.
  unfoldable pub mkdir_ok :
      Text → Promise (Option (List Item)) → Promise (Option (List Item)) → FileSystem → FileSystem
  mkdir_ok dir p reload s =
      let sent =
        log (mkdir (s.current_directory ++ (codes "/" ++ dir)) ∷ [])
          (record s { confirm_loading = true }) in
      elim p [
        | pending ↦ sent
        | rejected f ↦ sent
        | resolved d ↦ elim d [
          | none ↦ sent
          | some result ↦
              record (if code_is result.code 1
                then load_files upper s.current_directory reload
                    (log (success (codes "创建成功") ∷ []) sent)
                else log (failure result.message ∷ []) sent) {
                  confirm_loading = false;
                  mkdir_visible = false;
                }
        ]
      ]

  abbrev pub done_renaming : FileSystem → FileSystem
  done_renaming s = record s { confirm_loading = false; rename_visible = false }

  unfoldable pub rename_ok :
      Text → Promise (Option (List Item)) → Promise (Option (List Item)) → FileSystem → FileSystem
  rename_ok value p reload s =
      let old_name = key_text s.current_file_key in
      let new_name = renamed s.current_directory value in
      let sent = log (rename old_name new_name ∷ []) (record s { confirm_loading = true }) in
      if text_eq old_name new_name
      then done_renaming (log (success (codes "重命名成功") ∷ []) s)
      else elim p [
        | pending ↦ sent
        | rejected f ↦ done_renaming sent
        | resolved d ↦ elim d [
          | none ↦ done_renaming sent
          | some result ↦ done_renaming (
              if code_is result.code 1
              then refresh upper reload (log (success (codes "重命名成功") ∷ []) sent)
              else log (failure result.message ∷ []) sent)
        ]
      ]
