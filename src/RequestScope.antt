-- ===== src/RequestScope.antt =====
-- provider/request/scope.go: the value providers of one HTTP request. Multipart values, the form
-- read on demand and the parsed request's own objects are other components' work: parameters.
pub mod Lookups
use bindly.Prelude.{
  String, Bool, true, false, not, ◌||◌, ◌&&◌, Option, none, some, List, [], ◌∷◌, ◌++◌, is_some,
  str_eq, if◌then◌else◌,
}
use bindly.Prelude.Comparable.{string_comparable}
use bindly.Map
use bindly.Map.{Map}
use bindly.Reflect.{GoType, Basic, base_type, bytes, same_type}

-- url.Values and http.Header, and a map of single texts.
abbrev pub Texts : Type 0
Texts = Map String (List String)

-- What the providers read of an *http.Request: its URL's raw query and path, if it has a URL.
pub record HttpRequest : Type 0 where
  pub url : Option (String × String)

-- Scope. A nil map is none; `body` says whether there is a body source.
pub record Scope : Type 0 where
  pub request : Option HttpRequest
  pub path : Option (Map String String)
  pub query : Option Texts
  pub headers : Option Texts
  pub cookies : Option (Map String String)
  pub form : Option Texts
  pub has_body : Bool
  pub ignore_empty_query : Bool
  pub query_overlay : Bool

-- A value that a provider gives: one text or several.
pub data Given : Type 0 where
  one : String → Given
  several : List String → Given
  -- the zero value of an integer type
  zero_integer : Given

-- A lookup in a map that may be nil.
abbrev pub find {ℓ} : {V : Type ℓ} → Option (Map String V) → String → Option V
find none name = none
find (some m) name = Map.get m name

abbrev kind_if : Bool → String → List String
kind_if true kind = kind ∷ []
kind_if false kind = []

-- (*Scope).Providers: the kinds provided.
unfoldable pub provided_kinds : Scope → List String
provided_kinds s =
    let asked = is_some s.request in
    kind_if (asked || is_some s.query) "query"
    ++ (kind_if (asked || is_some s.path) "path"
        ++ (kind_if (asked || is_some s.headers) "header"
            ++ (kind_if (asked || is_some s.cookies) "cookie"
                ++ (kind_if (asked || is_some s.form) "form"
                    ++ (kind_if s.has_body "body" ++ kind_if asked "http_request")))))

abbrev pub url_of : Scope → Option (String × String)
url_of s = elim s.request [ none ↦ none | some r ↦ r.url ]

-- `len(value) == 0 || len(value) == 1 && value[0] == ""`
abbrev pub is_empty_value : List String → Bool
is_empty_value [] = true
is_empty_value (v ∷ []) = str_eq v ""
is_empty_value _ = false

abbrev pub several_of : Option (List String) → Option Given
several_of none = none
several_of (some vs) = some (several vs)

abbrev pub one_of : Option String → Option Given
one_of none = none
one_of (some v) = some (one v)

abbrev pub effective_ignore : Option Bool → Scope → Bool
effective_ignore none s = s.ignore_empty_query
effective_ignore (some b) s = b

-- The lookup of (*Scope).Query, with the context's query policy and url.Values.Encode.
unfoldable pub query_value : (Option Texts → String) → Option Bool → Scope → String → Option Given
query_value encode policy s name =
    if str_eq name ""
    then elim (url_of s) [
      | some url ↦ some (one (if s.query_overlay then encode s.query else url.0))
      | none ↦ some (one (encode s.query))
    ]
    else elim (find s.query name) [
      | none ↦ none
      | some vs ↦ if effective_ignore policy s && is_empty_value vs then none else some (several vs)
    ]

-- The lookup of (*Scope).Path
unfoldable pub path_value : Scope → String → Option Given
path_value s name =
    if str_eq name ""
    then some (one (elim (url_of s) [ some url ↦ url.1 | none ↦ "" ]))
    else one_of (find s.path name)

-- The lookup of (*Scope).Header, with http.CanonicalHeaderKey.
unfoldable pub header_value : (String → String) → Scope → String → Option Given
header_value canonical_key s name = several_of (find s.headers (canonical_key name))

-- The lookup of (*Scope).Cookie
unfoldable pub cookie_value : Scope → String → Option Given
cookie_value s name = one_of (find s.cookies name)

abbrev pub strip : Option GoType → Option GoType
strip none = none
strip (some t) = some (base_type t)

-- `collection`
abbrev pub is_collection_target : Option GoType → Bool
is_collection_target (some (GoType.slice name t)) = not (same_type (GoType.slice name t) bytes)
is_collection_target (some (GoType.array n t)) = true
is_collection_target _ = false

abbrev pub is_interface : Option GoType → Bool
is_interface (some (GoType.basic Basic.interface name)) = true
is_interface _ = false

-- The kinds of the switch on a query integer, which leaves out uintptr.
abbrev pub is_integer : GoType → Bool
is_integer (GoType.basic Basic.int name) = true
is_integer (GoType.basic Basic.uint name) = not (str_eq name "uintptr")
is_integer _ = false

-- The end of (*source).Value: what a lookup's value becomes for a target type.
unfoldable pub shape_value : String → Option GoType → Given → Given
shape_value kind target (several (v ∷ vs)) = elim (strip target) [
  | none ↦ several (v ∷ vs)
  | some t ↦
      if is_collection_target (some t) || is_interface (some t)
      then several (v ∷ vs)
      else if str_eq kind "query" && (is_empty_value (v ∷ vs) && is_integer t)
      then zero_integer
      else one v
]
shape_value kind target other = other

-- (*source).Value over a lookup.
unfoldable pub source_value : String → Option GoType → Option Given → Option Given
source_value kind target none = none
source_value kind target (some v) = some (shape_value kind target v)
