-- ===== src/Server/Listing.antt =====
-- `handle_file_list` of cloudmer_SRV.py. The order of `os.listdir`, the times of the files and their
-- dates are of the operating system: parameters.
use cloudmer_cloud_storage.Prelude.{
  ℕ, ◌+◌, ◌*◌, ◌/◌, ◌%◌, String, ◌<>◌, ◌||◌, Option, none, some, List, [], ◌∷◌, Bytes, length, ltb,
  leb, str_eq, lookup, map, if◌then◌else◌,
}
use cloudmer_cloud_storage.Text.{begins_with, str, join}
use cloudmer_cloud_storage.Chunks.{Codecs}
use cloudmer_cloud_storage.Server.{Files, path_join, uploads_dir, trash_dir, starred_dir, line}

-- `os.listdir(folder)`, and `os.path.getmtime(path)` with its date as a text.
pub record Os : Type 0 where
  pub listdir : String → Files → List String
  pub mtime : String → ℕ
  pub date : String → String

-- `n / d` rounded to a whole number, a half to the even one.
unfoldable pub rounded : ℕ → ℕ → ℕ
rounded n d =
    let q = n / d in
    let twice = 2 * (n % d) in if ltb twice d then q else if ltb d twice then q + 1 else q + q % 2

abbrev pub padded_cents : ℕ → String
padded_cents cents = if ltb cents 10 then "0" <> str cents else str cents

-- The three formats of a size.
unfoldable pub size_str : ℕ → String
unfolding rounded str
size_str sb =
    if ltb sb 1024
    then str sb <> " B"
    else if ltb sb 1048576
    then (let tenths = rounded (sb * 10) 1024 in
        str (tenths / 10) <> ("." <> (str (tenths % 10) <> " KB")))
    else (let cents = rounded (sb * 100) 1048576 in
        str (cents / 100) <> ("." <> (padded_cents (cents % 100) <> " MB")))

abbrev pub folder_of : String → String
folder_of filter_type =
    if str_eq filter_type "trash"
    then trash_dir
    else if str_eq filter_type "starred"
    then starred_dir
    else uploads_dir

-- `parts[1] if len(parts) > 1 else "all"`
abbrev pub filter_of : List String → String
filter_of (_ ∷ filter_type ∷ _) = filter_type
filter_of _ = "all"

module _ (k : Codecs) (os : Os) where
  abbrev pub entry : String → String → Bytes → String
  entry folder fname bytes =
      join "|" (
        fname
        ∷ size_str (length bytes)
        ∷ os.date (path_join folder fname)
        ∷ k.sha256_hex bytes
        ∷ [])

  abbrev pub add_entry :
      String → String → Option Bytes → List (String × String) → List (String × String)
  add_entry folder fname none rest = rest
  add_entry folder fname (some bytes) rest =
      if begins_with fname "." then rest else (fname, entry folder fname bytes) ∷ rest

  -- What is no file, or hidden, is skipped.
  unfoldable pub entries : String → Files → List String → List (String × String)
  unfolding lookup path_join
  entries folder files [] = []
  entries folder files (fname ∷ names) =
      add_entry folder fname (lookup (path_join folder fname) files) (entries folder files names)

  module _ {A : Type 0} where
    -- `sort(key=mtime, reverse=True)`: newest first, and files of one time in their order.
    unfoldable pub insert_newest : String → String × A → List (String × A) → List (String × A)
    insert_newest folder e [] = e ∷ []
    insert_newest folder e (f ∷ fs) =
        let rest = insert_newest folder e fs in
        if leb (os.mtime (path_join folder f.0)) (os.mtime (path_join folder e.0))
        then e ∷ f ∷ fs
        else f ∷ rest

    unfoldable pub newest_first : String → List (String × A) → List (String × A)
    unfolding insert_newest
    newest_first folder [] = []
    newest_first folder (e ∷ es) = insert_newest folder e (newest_first folder es)

    abbrev pub ordered : String → List (String × A) → List (String × A)
    ordered filter_type es =
        if str_eq filter_type "all" || str_eq filter_type "recent"
        then newest_first (folder_of filter_type) es
        else es

  unfoldable pub handle_file_list : List String → Files → String
  unfolding entries
  handle_file_list parts files =
      let filter_type = filter_of parts in
      let folder = folder_of filter_type in
      let es = ordered filter_type (entries folder files (os.listdir folder files)) in
      line ("FLST" ∷ "OK" ∷ join ";" (map (λ e. e.1) es) ∷ [])
