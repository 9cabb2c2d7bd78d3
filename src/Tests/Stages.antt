-- ===== src/Tests/Stages.antt =====
-- Examples of the stages of a bind with a group.
use bindly.Prelude.{◌≡◌, refl, true, false, some, List, [], ◌∷◌}
use bindly.Prelude.Comparable.{string_comparable}
use bindly.Map
use bindly.Reflect.{text_type, Value}
use bindly.Errors.{ok}
use bindly.Spec.{BindingSpec, dependencies}
use bindly.Plan.{Plan}
use bindly.Resolve.{contains}
use bindly.Groups.{GroupPlan}
use bindly.Replay.{find_binding}
use bindly.Groups.Stages.{
  Conditions, Stage, subset, group, check_conditions, seeded, barriers, remaining, group_stages,
  bind_stages,
}
use bindly.Groups.Stages.Ordered.{
  IsOrdered, Completes, bind_stages-IsOrdered, bind_stages-Completes,
}
use bindly.Tests.{plain_binding}

abbrev tenant : BindingSpec
tenant = plain_binding "Tenant" "header"

abbrev orders : BindingSpec
orders = plain_binding "Orders" "component"

abbrev page : BindingSpec
page = plain_binding "Page" "query"

abbrev note : BindingSpec
note = plain_binding "Note" "query"

abbrev orders_group : GroupPlan
orders_group = record {
  name = "data";
  mode = dependencies;
  after = "Tenant" ∷ [];
  members = orders ∷ [];
}

abbrev grouped_plan : Plan
grouped_plan = record {
  target = text_type;
  bindings = note ∷ orders ∷ tenant ∷ page ∷ [];
  fields = record { entries = [] };
  groups = orders_group ∷ [];
}

-- An invocation that was supplied with the page.
abbrev with_page : Conditions
with_page = record {
  has_controller = true;
  replaying = false;
  has_persistent = false;
  capture_sources = false;
  allowed_kinds = [];
  delayed_kinds = [];
  resolved = some (record { entries = ("Page", Value.text text_type "2") ∷ [] });
  is_resolved_target = true;
  is_leased = false;
}

abbrev page_first : List Stage
page_first =
    subset (page ∷ []) ∷ subset (tenant ∷ []) ∷ group orders_group ∷ subset (note ∷ []) ∷ []

staged : bind_stages with_page grouped_plan ≡ ok page_first
unfolding bind_stages check_conditions seeded group_stages barriers remaining find_binding contains
    Map.exists Map.get Map.lookup
staged = refl

bind_stages-IsOrdered_example : IsOrdered [] page_first
unfolding find_binding
bind_stages-IsOrdered_example =
    bind_stages-IsOrdered with_page grouped_plan page_first staged ((refl, tt), tt)

bind_stages-Completes_example : Completes page_first "Orders"
unfolding contains
bind_stages-Completes_example =
    bind_stages-Completes with_page grouped_plan page_first staged "Orders" refl
