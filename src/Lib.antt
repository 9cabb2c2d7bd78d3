-- ===== src/Lib.antt =====
-- Bindly: a model of the binding of request data to Go structs, and of what makes it correct.
--
-- The program compiles the bindings of a struct type into a plan and then, for each invocation,
-- resolves the location of every binding by a chain of value providers, converts what it finds and
-- assigns it. Each part has a file here, with the theorems about it in the files below it.
--
-- Prelude: shared names, tests, lists, integers and the string functions that the code calls.
-- Map: internal/map.go, the lock-guarded map; a method is one step on an association list.
-- Reflect: the Go types and values that the code inspects by reflection.
-- Errors: the error types of scope.go, input/error.go and required_absence.go. A binding error
--   carries its address, because the code compares pointers to it.
-- Locator, with Registry and Compose: locator/. A source is code outside the model. It is a
--   function of the moment it is called at, and a scoped source is a tree of questions to its scope.
-- Spec and RecordCount: spec.go and record_count.go.
-- Resolve: resolveBindingResult of scope.go, on a state with the active keys, the caches and the
--   moment. Its fuel bounds the depth of nested resolutions, which the cycle check keeps below
--   the number of distinct locations, so that one more than that number is enough.
-- Field: internal/field/field.go, reading and writing a field through the pointers before it.
-- Bind: the work of (*invocation).bind of scope.go on one binding, from its resolution to its value.
--   Sequence has the order of the bindings, and Run the loop over them, with the conditions, the
--   assignments, the presence markers and the observer.
-- For plan.go, Plan and Compile. CompilePlan is given the specifications and asks its surroundings for
--   fields, transformers and clones.
-- Groups, with Visit: compileResolutionGroups of resolution_group.go. The fuel of the search for
--   cycles is one more than the number of bindings, and a path of the search holds none twice.
--   Stages has the order of the work of bindWithGroups, as a list of stages.
--   Regrouped compares the groups with the specifications they are formed from.
-- Scheduler, with Steps and Report: resolution_dependencies.go and resolution_scheduler.go, a
--   dependency group as a machine whose events are the steps of its loop, its workers and the outside.
--   Member is the work of one worker, executeDependencyMember.
-- ResolvedInput: resolved_input.go, the supplied values, their checks against a plan and their seed.
-- Projection: projection.go, the names of the bindings of a plan.
-- Replay: replay.go, replay_plan.go and replay_binding.go, the choice, the capture and the
--   authorization of replayed values. Source: replay_provider.go, a replay as providers.
-- Deferred and RequestScope: provider/request/.
-- Store: resource/store.go.
-- Tests: concrete examples.
--
-- Integers are unbounded: the code only compares priorities, codes and counts. Strings are folded
-- and trimmed as ASCII. Conversion, cloning and comparison of values, JSON, and what reflect says of
-- a struct type are parameters, since they are library code or reflection over every Go type.
-- Values are trees, in which a pointer owns what it leads to: a target in which two pointers lead
-- to one value, or a pointer back to its own struct, is outside the model of reads and writes.
-- Not modelled: body decoding and the conversions of convert.go, the workers of concurrent groups
-- and RunResolutionGroupPhase, a replay inside bind and the capture of sources, the binding of
-- targets by scoped sources, the reading of specifications from tags, options and constructors,
-- and the compatibility cache.
pub mod Prelude
pub mod Map
pub mod Reflect
pub mod Errors
pub mod Locator
pub mod Spec
pub mod RecordCount
pub mod Resolve
pub mod Groups
pub mod Scheduler
pub mod Bind
pub mod Deferred
pub mod Store
pub mod RequestScope
pub mod Field
pub mod Plan
pub mod ResolvedInput
pub mod Projection
pub mod Replay
pub mod Tests
