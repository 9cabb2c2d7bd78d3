-- ===== src/Tests/Replays.antt =====
-- Examples of replayed bindings.
use bindly.Prelude.{◌≡◌, refl, ℕ, String, Bool, true, false, Option, none, some, [], ◌∷◌, str_eq}
use mathlib.Core.List.{Memᴰ}
use bindly.Prelude.Comparable.{string_comparable}
use bindly.Map
use bindly.Map.{Map}
use bindly.Reflect.{GoType, Value, text_type, same_type}
use bindly.Errors.{Error, Result, ok, err}
use bindly.Locator.{Locator, Provider}
use bindly.Spec.{BindingSpec}
use bindly.Field.{behind, field_at, value_at, get}
use bindly.Resolve.{contains}
use bindly.Plan.{Plan, presence, presence_marker, marker_of, as_bool}
use bindly.Projection.{Projection}
use bindly.Replay.{
  ReplayPlan, ReplayValue, Replay, replay, select_bindings, Codec, find_binding, values_before,
  check_after, authorize,
}
use bindly.Replay.Source.{providers, group_bindings, add_binding, take_providers, replay_provider}
use bindly.Replay.Source.Answers.{IsAnswered, providers-IsAnswered}
use bindly.Replay.Authorized.{Copied, Same, authorize-keeps}
use bindly.Tests.{plain_binding}
use bindly.Tests.Bindings.{copy}
use bindly.Tests.Runs.{input_type, marked_input, input_of, marks_of, id_binding, input_plan}

abbrev same_text : Value → Value → Bool
same_text (Value.text t a) (Value.text u b) = str_eq a b
same_text v w = false

abbrev text_codec : Codec
text_codec = record {
  clone_value = copy;
  deep_equal = same_text;
  encode = λ v source field. err (Error.message "not encoded" []);
  decode = λ text target policy. ok none;
}

abbrev guarded_plan : ReplayPlan
guarded_plan = record {
  plan = input_plan;
  fields = Map.new;
  order = [];
  preflight = record { entries = ("Id", id_binding) ∷ [] };
  protected = "Id" ∷ [];
}

-- A gate that rewrites the note, which is not guarded.
abbrev approve : Value → Value × Option Error
approve v = (input_of "7" "approved" marks_of, none)

abbrev seven_present : ReplayValue
seven_present = record { value = Value.text text_type "7"; found = true }

authorize-keeps_example :
    (r : ReplayValue) × Copied text_codec guarded_plan marked_input "Id" r
    × Same text_codec guarded_plan (authorize text_codec guarded_plan approve marked_input).0 "Id" r
unfolding authorize values_before check_after presence presence_marker marker_of as_bool contains
    same_type Map.get Map.lookup Map.put Map.new Map.without get behind field_at value_at
authorize-keeps_example =
    authorize-keeps text_codec guarded_plan approve marked_input "Id" id_binding refl
      (Memᴰ.head refl) refl

abbrev region : BindingSpec
region = plain_binding "Region" "const"

abbrev region_plan : Plan
region_plan = record input_plan { bindings = region ∷ [] }

abbrev unprepared : ReplayPlan
unprepared = record {
  plan = region_plan;
  fields = Map.new;
  order = [];
  preflight = Map.new;
  protected = [];
}

abbrev prepared_region : ReplayPlan
prepared_region = record unprepared {
  preflight = record { entries = ("Region", region) ∷ [] };
  protected = "Region" ∷ [];
}

abbrev no_names : Projection
no_names = record { target = input_type; paths = Map.new; markers = Map.new; fields = Map.new }

abbrev unchanged : String → String
unchanged s = s

abbrev named_binding : BindingSpec
named_binding = record id_binding { name = "account" }

abbrev named_plan : Plan
named_plan = record input_plan { bindings = named_binding ∷ [] }

abbrev named_choice : ReplayPlan
named_choice = record {
  plan = named_plan;
  fields = record { entries = ("Id", named_binding) ∷ [] };
  order = "Id" ∷ [];
  preflight = record { entries = ("Id", named_binding) ∷ [] };
  protected = [];
}

abbrev seven_replay : Replay
seven_replay = record {
  plan = named_choice;
  raw = record { entries = ("account", "7") ∷ [] };
  prepared = none;
}

abbrev keep_text : Value → Option GoType → Result Value
keep_text v target = ok v

abbrev raw_text : String → Value
raw_text s = Value.text text_type s

abbrev uncancelled : ℕ → Option Error
uncancelled now = none

abbrev seven_provider : Provider
seven_provider =
    replay_provider text_codec keep_text raw_text uncancelled seven_replay
      named_binding.location.kind
      (record { entries = (named_binding.location.in_path, named_binding) ∷ [] })

providers-IsAnswered_example :
    (p : Provider) × Memᴰ p (seven_provider ∷ [])
    × (p.kind ≡ named_binding.location.kind)
    × ((state : Option Value)
        → (l : Locator) × (p.locate state ≡ some l)
          × IsAnswered text_codec keep_text raw_text uncancelled seven_replay l named_binding)
unfolding replay select_bindings find_binding contains providers group_bindings add_binding
    take_providers Map.get Map.lookup Map.put Map.new Map.without Map.keys
providers-IsAnswered_example =
    providers-IsAnswered text_codec keep_text raw_text uncancelled (λ l. l) (λ l k m. m)
      seven_replay named_plan ("Id" ∷ []) named_choice (seven_provider ∷ []) "Id" named_binding refl
      refl refl (Memᴰ.head refl)
