-- ===== src/Files/Laws.antt =====
-- What the handlers of the file manager keep and give.
use next_terminal.Base.{
  ◌≡◌, refl, sym, ap, ◌∙◌, ◌↔◌, true, false, not, Option, none, some, List, [], ◌∷◌, ◌++◌, map,
  keep, All, if◌then◌else◌, Bool-cases, inl, inr, arith,
}
use mathlib.Core.List.{append_assoc, append-nil}
use next_terminal.Base.Text.{Text, text_eq, Lacks}
use next_terminal.Request.Handlers.{Body, code_is}
use next_terminal.Request.Verbs.{Promise, resolved, rejected, pending}
use next_terminal.Files.Paths.{solidus, parent_directory, path_parts}
use next_terminal.Files.Listing.{Item, Row, dots, root, parent_row, row_of, sorted_rows, listing}
use next_terminal.Files.Order.{IsListing, sorted_rows-IsListing}
use next_terminal.Files.Manager.{
  Event, rm, failure, FileSystem, key_or_root, show_listing, load_end, load_files, on_double_click,
  delete, delete_selected,
}

module _ (upper : Text → Text) where
  -- After loadFiles the spinner stands exactly as long as the request is pending: on an answer, an
  -- error or an exception it is gone.
  pub load_files-loading_iff :
      (key : Text) (p : Promise (Option (List Item))) (s : FileSystem)
      → ((load_files upper key p s).loading ≡ true) ↔ (p ≡ pending)
  unfolding load_files load_end show_listing
  load_files-loading_iff key pending s = ground arith
  load_files-loading_iff key (rejected f) s = ground arith
  load_files-loading_iff key (resolved none) s = ground arith
  load_files-loading_iff key (resolved (some b)) s = ground arith

  -- What a successful answer shows for a directory.
  pub record Shows (key : Text) (items : List Item) (s : FileSystem) : Type 0 where
    pub rows : List Row
    pub files_are : s.files ≡ (if text_eq key root then rows else parent_row ∷ rows)
    pub rows_are : IsListing upper items rows
    pub directory_is : s.current_directory ≡ key
    pub input_is : s.current_directory_input ≡ key
    pub none_selected : s.selected_row_keys ≡ []
    pub loaded : s.loading ≡ false

  -- A successful answer to loadFiles shows every item once, the directories before the files and
  -- both by upper-case name, under the row of the parent directory except at the root; nothing is
  -- selected and the spinner is gone.
  pub load_files-Shows :
      (key : Text) (b : Body (Option (List Item))) (items : List Item) (s : FileSystem)
      → b.code ≡ some 1
      → b.data' ≡ some items
      → Shows (key_or_root key) items (load_files upper key (resolved (some b)) s)
  unfolding load_files load_end show_listing listing
  load_files-Shows key b items s c d = record {
    rows = sorted_rows upper (map row_of items);
    files_are = simp (c, d);
    rows_are = sorted_rows-IsListing upper items;
    directory_is = simp (c, d);
    input_is = simp (c, d);
    none_selected = refl;
    loaded = refl;
  }

  -- A double click on the row of the parent directory, in a directory dir/name, shows dir, if the
  -- server answers with its items.
  pub on_double_click-parent :
      (dir name : Text) (b : Body (Option (List Item))) (items : List Item) (s : FileSystem)
      → s.current_directory ≡ dir ++ solidus ∷ name
      → Lacks solidus name
      → b.code ≡ some 1
      → b.data' ≡ some items
      → Shows (key_or_root dir) items (on_double_click upper parent_row (resolved (some b)) s)
  unfolding on_double_click
  on_double_click-parent dir name b items s at h c d =
      let parent = ap parent_directory at ∙ (path_parts dir name h).0 in
      rw parent (load_files-Shows dir b items s c d)

  abbrev removal : Event → List Text
  removal (rm key) = key ∷ []
  removal _ = []

  -- The keys that have been sent for deletion, in order.
  abbrev pub removed : List Event → List Text
  removed [] = []
  removed (e ∷ es) = removal e ++ removed es

  removed-append : (es fs : List Event) → removed (es ++ fs) ≡ removed es ++ removed fs
  removed-append [] fs = refl
  removed-append (e ∷ es) fs =
      ap (λ t. removal e ++ t) (removed-append es fs)
      ∙ sym (append_assoc (removal e) (removed es) (removed fs))

  -- The server answers every deletion.
  abbrev pub AnswersAll : (Text → Promise (Option (List Item))) → List Text → Type 0
  AnswersAll answer keys =
      All (λ key. (b : Body (Option (List Item))) × (answer key ≡ resolved (some b))) keys

  abbrev said : Body (Option (List Item)) → List Event
  said b = if code_is b.code 1 then [] else failure b.message ∷ []

  removed-said : (b : Body (Option (List Item))) → removed (said b) ≡ []
  removed-said b = elim (Bool-cases (code_is b.code 1)) [ inl e ↦ rw e | inr e ↦ rw e ]

  delete_answered :
      (key : Text) (b : Body (Option (List Item))) (s : FileSystem)
      → (removed (delete upper key (resolved (some b)) s).0.events ≡ removed s.events ++ key ∷ [])
        × ((delete upper key (resolved (some b)) s).1 ≡ true)
  unfolding delete
  delete_answered key b s = (
    removed-append s.events (rm key ∷ said b)
        ∙ ap (λ t. removed s.events ++ key ∷ t) (removed-said b),
    refl,
  )

  -- Deleting the selected keys asks the server to remove each of them but "..", in order, and goes
  -- on to the end, if the server answers every request, with an error or not.
  pub delete_selected-removed :
      (answer : Text → Promise (Option (List Item))) (keys : List Text) (s : FileSystem)
      → AnswersAll answer keys
      → (removed (delete_selected upper answer keys s).0.events
          ≡ removed s.events ++ keep (λ key. not (text_eq key dots)) keys)
        × ((delete_selected upper answer keys s).1 ≡ true)
  unfolding delete_selected
  delete_selected-removed answer [] s h = (sym (append-nil (removed s.events)), refl)
  delete_selected-removed answer (key ∷ keys) s (here, later) =
      elim (Bool-cases (text_eq key dots)) [
        | inl is_dots ↦ rw is_dots (delete_selected-removed answer keys s later)
        | inr other ↦
            let (b, e) = here in
            let s' = (delete upper key (resolved (some b)) s).0 in
            let (sent, goes_on) = delete_answered key b s in
            let (rest, done) = delete_selected-removed answer keys s' later in
            rw (other, e, goes_on)
              (
                rest
                    ∙ ap (λ t. t ++ keep (λ k. not (text_eq k dots)) keys) sent
                    ∙ append_assoc (removed s.events) (key ∷ [])
                        (keep (λ k. not (text_eq k dots)) keys),
                done,
              )
      ]
