-- ===== src/Sdk/Encoder.antt =====
-- image/png-collection-encoder.ts: the class `PNGCollectionEncoder`.
pub mod Stable
use lilnouns_monorepo.Base.{
  ℕ, zero, suc, Bool, true, false, str_eq, Option, some, none, String, List, [], ◌∷◌, ◌++◌, map,
  if◌then◌else◌, not, ◌&&◌,
}
use lilnouns_monorepo.Base.Table.{Table, load, save}
use lilnouns_monorepo.Base.Chars.{Chars}
use lilnouns_monorepo.Sdk.Image.{Image, Colors, chars_eq, to_rle}

pub record Encoder : Type 0 where
  pub colors : Colors
  pub images : Table Chars
  pub folders : Table (List String)

-- `colors.set(color, index)`
set_color : Chars → ℕ → Colors → Colors
set_color color i [] = (color, i) ∷ []
set_color color i ((k, j) ∷ cs) =
    let rest = set_color color i cs in if chars_eq k color then (k, i) ∷ cs else (k, j) ∷ rest

set_colors : List Chars → ℕ → Colors → Colors
unfolding set_color
set_colors [] i cs = cs
set_colors (c ∷ colors) i cs = set_colors colors (suc i) (set_color c i cs)

-- The transparent color has the empty text and the index 0.
unfoldable pub new_encoder : List Chars → Encoder
unfolding set_colors
new_encoder colors = record {
  colors = set_colors colors 0 (([], 0) ∷ []);
  images = [];
  folders = [];
}

files_of : Option (List String) → List String
files_of none = []
files_of (some files) = files

-- `if (folder) (this._folders[folder] ||= []).push(name)`
add_to_folder : Option String → String → Table (List String) → Table (List String)
unfolding files_of load save
add_to_folder none name folders = folders
add_to_folder (some folder) name folders =
    if str_eq folder ""
    then folders
    else save folder (files_of (load folder folders) ++ name ∷ []) folders

unfoldable pub encode_image : Encoder → String → Image → Option String → Chars × Encoder
unfolding add_to_folder save to_rle
encode_image encoder name png folder =
    let (rle, colors) = to_rle png encoder.colors in
    (
      rle,
      record {
        colors = colors;
        images = save name rle encoder.images;
        folders = add_to_folder folder name encoder.folders;
      },
    )

pub record EncodedImage : Type 0 where
  pub filename : String
  pub rle : Option Chars

-- `images.delete(filename)`
delete : String → Table Chars → Table Chars
delete name [] = []
delete name ((k, v) ∷ t) = let rest = delete name t in if str_eq k name then t else (k, v) ∷ rest

-- The files of one folder, and the images that are left.
take_files : List String → Table Chars → List EncodedImage × Table Chars
unfolding delete load
take_files [] images = ([], images)
take_files (f ∷ files) images =
    let rest = take_files files (delete f images) in
    ((record { filename = f; rle = load f images }) ∷ rest.0, rest.1)

take_folders : Table (List String) → Table Chars → Table (List EncodedImage) × Table Chars
unfolding take_files
take_folders [] images = ([], images)
take_folders ((folder, files) ∷ folders) images =
    let taken = take_files files images in
    let rest = take_folders folders taken.1 in ((folder, taken.0) ∷ rest.0, rest.1)

entries : Table Chars → List EncodedImage
entries [] = []
entries ((k, v) ∷ t) = (record { filename = k; rle = some v }) ∷ entries t

-- All remaining images are written to `root`, over a folder of that name.
with_root : Table Chars → Table (List EncodedImage) → Table (List EncodedImage)
unfolding entries save
with_root [] groups = groups
with_root (i ∷ images) groups = save "root" (entries (i ∷ images)) groups

-- The folders in the order in which they were added, as `Object.entries` has them if no name is a
-- number.
unfoldable pub format : Encoder → Bool → Table (List EncodedImage)
unfolding take_folders with_root
format encoder true = with_root encoder.images []
format encoder false =
    let (groups, images) = take_folders encoder.folders encoder.images in with_root images groups

-- The palette, and the images in their folders.
unfoldable pub image_data : Encoder → List Chars × Table (List EncodedImage)
unfolding format
image_data encoder = (map (λ c. c.0) encoder.colors, format encoder false)
