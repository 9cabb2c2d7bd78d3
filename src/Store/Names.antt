-- ===== src/Store/Names.antt =====
-- resource/store.go: what registration under one handle means for lookups under another.
use bindly.Prelude.{◌≡◌, String, none, some, str_eq, if◌then◌else◌, arith}
use bindly.Prelude.Comparable.{string_comparable}
use bindly.Prelude.Text.{trim_space}
use bindly.Map
use bindly.Map.{Map}
use bindly.Map.Laws.{get-put}
use bindly.Errors.{ok}
use bindly.Store.{Handle, missing, authority, view, register, register_authority, lookup}

-- The name that a registration under a handle enters; a view's name is trimmed twice.
abbrev pub entered_name : {F : Type 0} → Handle F → String → String
entered_name (view default) name = trim_space (trim_space name)
entered_name h name = trim_space name

module _ {F : Type 0} where
  -- A registration that succeeds enters a name that was free, and then every lookup of that name
  -- through the authority finds the filesystem, and every other name is looked up as before; a
  -- view finds its own default for the empty name and the authority's entry for any other.
  pub register-lookup :
      (h : Handle F) (sources sources' : Map String F) (name : String) (source default : F)
      (n : String)
      → register h sources name (some source) ≡ ok sources'
      → (lookup authority sources (entered_name h name) ≡ none)
        × (lookup authority sources' n
            ≡ (if str_eq (entered_name h name) n then some source else lookup authority sources n))
        × (lookup (view default) sources' n
            ≡ (if str_eq n "" then some default else lookup authority sources' n))
  unfolding register register_authority lookup Map.exists
  register-lookup missing sources sources' name source default n h = cc
  register-lookup authority sources sources' name source default n h =
      (ground arith, ground (arith, get-put sources (trim_space name) n source), ground arith)
  register-lookup (view d) sources sources' name source default n h = (
    ground arith,
    ground (arith, get-put sources (trim_space (trim_space name)) n source),
    ground arith,
  )
