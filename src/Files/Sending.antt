-- ===== src/Files/Sending.antt =====
-- What an upload asks for (web/src/components/devops/FileSystem.js): the directory of each chosen file and
-- the address that it is sent to.
use next_terminal.Base.{
  ℕ, ◌-◌, ◌≡◌, refl, ap, Option, none, some, List, [], ◌∷◌, ◌++◌, map, length, length-append, take,
  arith,
}
use next_terminal.Base.Text.{Text, codes}
use next_terminal.Files.Manager.{FileSystem}

-- A file that was chosen: its name, its size and `webkitRelativePath`.
pub record File : Type 0 where
  pub name : Text
  pub size : ℕ
  pub relative_path : Text

abbrev id_of : Option Text → Text
id_of none = codes "undefined"
id_of (some id) = id

-- `relativePath.substring(0, relativePath.length - name.length)`
unfoldable pub dir_of : File → Text
dir_of file = take (length file.relative_path - length file.name) file.relative_path

unfoldable pub upload_url : (server token : Text) → Text → FileSystem → Text
upload_url server token dir s =
    server
    ++ (codes "/"
        ++ (s.storage_type
            ++ (codes "/"
                ++ (id_of s.storage_id
                    ++ (codes "/upload?X-Auth-Token=" ++ (token ++ (codes "&dir=" ++ dir)))))))

-- The requests of `handleUploadFile` and of `handleUploadDir`: a file with its address.
unfoldable pub handle_upload_file :
    (server token : Text) → List File → FileSystem → List (File × Text)
unfolding upload_url
handle_upload_file server token files s =
    map (λ file. (file, upload_url server token s.current_directory s)) files

unfoldable pub handle_upload_dir :
    (server token : Text) → List File → FileSystem → List (File × Text)
unfolding upload_url dir_of
handle_upload_dir server token files s =
    map
      (λ file.
        (file, upload_url server token (s.current_directory ++ (codes "/" ++ dir_of file)) s))
      files

take-append : (s t : Text) (n : ℕ) → length s ≡ n → take n (s ++ t) ≡ s
take-append [] t n e = rw⁻¹ e refl
take-append (c ∷ s) t n e = rw⁻¹ e (ap (c ∷◌) (take-append s t (length s) refl))

-- The directory of a file that lies in one, and is named at the end of its path, is that directory.
pub dir_of-append :
    (dir name : Text) (size : ℕ)
    → dir_of (record { name = name; size = size; relative_path = dir ++ name }) ≡ dir
unfolding dir_of
dir_of-append dir name size = take-append dir name _ (omega (arith, length-append dir name))
