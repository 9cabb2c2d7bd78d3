-- ===== src/Store.antt =====
-- resource/store.go: named filesystems under one authority, with views that add a default.
-- A view shares its authority's names, so the names are the one state and a handle is a view of
-- them. Filesystems, and fs.ValidPath, are other code: a type and parameters.
pub mod Names
use bindly.Prelude.{
  String, Bool, true, false, not, ◌||◌, ◌&&◌, Option, none, some, List, [], ◌∷◌, is_some, str_eq,
  if◌then◌else◌,
}
use bindly.Prelude.Comparable.{string_comparable}
use bindly.Prelude.Text.{trim_space, contains_any, cut}
use bindly.Map
use bindly.Map.{Map}
use bindly.Errors.{Error, Result, ok, err}

-- A *Store: nil, the authority, or a view of the authority with a default.
pub data Handle (F : Type 0) : Type 0 where
  missing : Handle F
  authority : Handle F
  view : F → Handle F

-- ":/\\"
abbrev invalid_name : String → Bool
invalid_name name = contains_any (b':' ∷ b'/' ∷ 92 ∷ []) name

-- A reference's namespace and path.
unfoldable pub split_reference : String → String × String
split_reference reference = elim (cut (b':') reference) [
  | some parts ↦ parts
  | none ↦ ("", reference)
]

module _ {F : Type 0} where
  -- (*Store).WithDefault: a view of a view is one of its authority.
  unfoldable pub with_default : Handle F → Option F → Result (Handle F)
  with_default missing source = err (Error.message "resource filesystem is required" [])
  with_default h none = err (Error.message "resource filesystem is required" [])
  with_default h (some source) = ok (view source)

  abbrev register_name : Map String F → String → F → Result (Map String F)
  register_name sources name source =
      if Map.exists sources name
      then err (Error.message "resource namespace %q is already registered" (name ∷ []))
      else ok (Map.put sources name source)

  -- (*Store).Register of the authority
  unfoldable pub register_authority : Map String F → String → Option F → Result (Map String F)
  register_authority sources name none = err (Error.message "resource filesystem is required" [])
  register_authority sources name (some source) =
      if invalid_name (trim_space name)
      then err (Error.message "invalid resource namespace %q" (trim_space name ∷ []))
      else register_name sources (trim_space name) source

  -- (*Store).Register. A view calls its authority, which trims and tests the name again.
  unfoldable pub register : Handle F → Map String F → String → Option F → Result (Map String F)
  register missing sources name source = err (Error.message "resource filesystem is required" [])
  register authority sources name source = register_authority sources name source
  register (view default) sources name none =
      err (Error.message "resource filesystem is required" [])
  register (view default) sources name (some source) =
      if invalid_name (trim_space name)
      then err (Error.message "invalid resource namespace %q" (trim_space name ∷ []))
      else if str_eq (trim_space name) ""
      then err (Error.message "scoped resource default is already registered" [])
      else register_authority sources (trim_space name) (some source)

  -- (*Store).Lookup
  unfoldable pub lookup : Handle F → Map String F → String → Option F
  lookup missing sources name = none
  lookup authority sources name = Map.get sources name
  lookup (view default) sources name = if str_eq name "" then some default else Map.get sources name

  -- (*Store).Filesystem
  unfoldable pub filesystem : Handle F → Map String F → String → Option F
  filesystem h sources name = lookup h sources (trim_space name)

  -- (*Store).Open
  unfoldable pub open_reference {ℓ} :
      {A : Type ℓ}
      → (String → Bool)
      → (F → String → Result A)
      → Handle F
      → Map String F
      → String
      → Result A
  unfolding split_reference
  open_reference valid_path open_file h sources reference =
      let (namespace, path) = split_reference reference in
      if not (valid_path path)
      then err (Error.message "open %s: invalid argument" (reference ∷ []))
      else elim (lookup h sources namespace) [
        | none ↦ err (
            Error.wrapped "open"
              (Error.message "resource namespace %q: file does not exist" (namespace ∷ [])))
        | some source ↦ open_file source path
      ]
