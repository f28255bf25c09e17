-- ===== src/Files/Rows.antt =====
-- What the file manager (web/src/components/devops/FileSystem.js) shows of a row, and which buttons it
-- enables.
use next_terminal.Base.{
  Bool, not, ◌&&◌, ◌||◌, Option, none, some, List, [], ◌∷◌, any, ltb, length, if◌then◌else◌,
}
use next_terminal.Base.Text.{Text, codes, text_eq, split}
use next_terminal.Files.Listing.{Item, Row, dots}
use next_terminal.Files.Manager.{Rights, FileSystem}

-- The buttons of a row: `none` for the row of the parent directory.
pub record Buttons : Type 0 where
  pub disable_edit : Bool
  pub disable_download : Bool
  pub disable_rename : Bool
  pub disable_delete : Bool

unfoldable pub row_buttons : Rights → Row → Option Buttons
row_buttons rights row =
    let no_content = row.item.is_dir || row.item.is_link in
    if text_eq row.key dots
    then none
    else some (record {
      disable_edit = no_content || not rights.edit;
      disable_download = no_content || not rights.download;
      disable_rename = not rights.rename;
      disable_delete = not rights.delete;
    })

-- The button of the batch deletion is enabled.
unfoldable pub has_selected : FileSystem → Bool
has_selected s = ltb 0 (length s.selected_row_keys) && s.rights.delete

pub data Icon : Type 0 where
  folder link word excel image markdown pdf text zip file : Icon

last_part : List Text → Text
last_part [] = []
last_part (t ∷ []) = t
last_part (t ∷ u ∷ ts) = last_part (u ∷ ts)

abbrev one_of : List Text → Text → Bool
one_of names t = any (text_eq t) names

unfoldable pub icon_of : (Text → Text) → Item → Icon
unfolding last_part
icon_of lower item =
    let extension = lower (last_part (split b'.' item.name)) in
    if item.is_dir
    then folder
    else if item.is_link
    then link
    else if one_of (codes "doc" ∷ codes "docx" ∷ []) extension
    then word
    else if one_of (codes "xls" ∷ codes "xlsx" ∷ []) extension
    then excel
    else if one_of
        (codes "bmp"
          ∷ codes "jpg"
          ∷ codes "jpeg"
          ∷ codes "png"
          ∷ codes "tif"
          ∷ codes "gif"
          ∷ codes "pcx"
          ∷ codes "tga"
          ∷ codes "exif"
          ∷ codes "svg"
          ∷ codes "psd"
          ∷ codes "ai"
          ∷ codes "webp"
          ∷ [])
        extension
    then image
    else if text_eq extension (codes "md")
    then markdown
    else if text_eq extension (codes "pdf")
    then pdf
    else if text_eq extension (codes "txt")
    then text
    else if one_of (codes "zip" ∷ codes "gz" ∷ codes "tar" ∷ codes "tgz" ∷ []) extension
    then zip
    else file
