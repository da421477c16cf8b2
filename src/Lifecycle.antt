-- ===== src/Lifecycle.antt =====
-- The lifecycle state machine of libabi/src/lifecycle.c over the event log of
-- libabi/include/abi/reconstruct.h.
pub mod Blame
pub mod Discipline
pub mod Verdict
use arrow_abi_doctor.Base.{
  ℕ, ◌+◌, ◌%◌, ◌^◌, List, [], ◌∷◌, ◌++◌, Bool, true, false, not, ◌&&◌, ◌||◌, Option, none, some,
  ltb, ◌==◌, if◌then◌else◌,
}
use arrow_abi_doctor.Reconstruct.Observer.{AbiEventKind, AbiEvent, AbiObserver}

pub data AbiLifecycleRule : Type 0 where
  released_before_import : AbiLifecycleRule
  not_released_by_consumer : AbiLifecycleRule
  released_twice : AbiLifecycleRule
  never_released : AbiLifecycleRule
  released_at_stale_location : AbiLifecycleRule
  imported_out_of_order : AbiLifecycleRule
  child_released_by_consumer : AbiLifecycleRule

pub data AbiLifecycleObject : Type 0 where
  schema : AbiLifecycleObject
  array : AbiLifecycleObject
  stream : AbiLifecycleObject

pub record AbiLifecycleFinding : Type 0 where
  pub rule : AbiLifecycleRule
  pub object : AbiLifecycleObject
  pub seq : ℕ
  pub path : List ℕ

-- The entries of `findings` that are filled.
pub record AbiLifecycleVerdict : Type 0 where
  pub count : ℕ
  pub findings : List AbiLifecycleFinding
  pub incomplete : Bool

pub data State : Type 0 where
  absent : State
  exported : State
  imported : State
  released : State

pub record Machine : Type 0 where
  pub state : State
  pub loc : ℕ

-- `m`, one machine for each object.
pub record Machines : Type 0 where
  pub schema : Machine
  pub array : Machine
  pub stream : Machine

pub data Transition : Type 0 where
  t_none : Transition
  t_exported : Transition
  t_moved : Transition
  t_imported : Transition
  t_returned : Transition
  t_release : Transition

abbrev pub machine : AbiLifecycleObject → Machines → Machine
machine AbiLifecycleObject.schema ms = ms.schema
machine AbiLifecycleObject.array ms = ms.array
machine AbiLifecycleObject.stream ms = ms.stream

abbrev pub set_machine : AbiLifecycleObject → Machine → Machines → Machines
set_machine AbiLifecycleObject.schema m ms = record ms { schema = m }
set_machine AbiLifecycleObject.array m ms = record ms { array = m }
set_machine AbiLifecycleObject.stream m ms = record ms { stream = m }

-- An event without a transition leaves `object` at its initial value.
abbrev pub classify : AbiEventKind → Transition × AbiLifecycleObject
classify AbiEventKind.schema_exported = (t_exported, AbiLifecycleObject.schema)
classify AbiEventKind.array_exported = (t_exported, AbiLifecycleObject.array)
classify AbiEventKind.stream_exported = (t_exported, AbiLifecycleObject.stream)
classify AbiEventKind.schema_moved = (t_moved, AbiLifecycleObject.schema)
classify AbiEventKind.array_moved = (t_moved, AbiLifecycleObject.array)
classify AbiEventKind.stream_moved = (t_moved, AbiLifecycleObject.stream)
classify AbiEventKind.schema_imported = (t_imported, AbiLifecycleObject.schema)
classify AbiEventKind.array_imported = (t_imported, AbiLifecycleObject.array)
classify AbiEventKind.stream_imported = (t_imported, AbiLifecycleObject.stream)
classify AbiEventKind.schema_returned = (t_returned, AbiLifecycleObject.schema)
classify AbiEventKind.array_returned = (t_returned, AbiLifecycleObject.array)
classify AbiEventKind.stream_returned = (t_returned, AbiLifecycleObject.stream)
classify AbiEventKind.schema_release_enter = (t_release, AbiLifecycleObject.schema)
classify AbiEventKind.array_release_enter = (t_release, AbiLifecycleObject.array)
classify AbiEventKind.stream_release_enter = (t_release, AbiLifecycleObject.stream)
classify _ = (t_none, AbiLifecycleObject.schema)

-- "/"
abbrev pub base_path : List ℕ
base_path = 47 ∷ []

abbrev pub max_findings : ℕ
max_findings = 16

abbrev pub finding_of :
    AbiLifecycleRule → AbiLifecycleObject → Option AbiEvent → AbiLifecycleFinding
finding_of rule object none = record { rule = rule; object = object; seq = 0; path = base_path }
finding_of rule object (some e) = record {
  rule = rule;
  object = object;
  seq = e.seq;
  path = e.path;
}

unfoldable pub add :
    AbiLifecycleRule
    → AbiLifecycleObject
    → Option AbiEvent
    → AbiLifecycleVerdict
    → AbiLifecycleVerdict
add rule object e v = record v {
  count = (v.count + 1) % 2 ^ 32;
  findings =
      if ltb v.count max_findings
      then v.findings ++ (finding_of rule object e ∷ [])
      else v.findings;
}

abbrev pub is_base_path : List ℕ → Bool
is_base_path [] = false
is_base_path (c ∷ []) = c == 47
is_base_path (c ∷ d ∷ path) = false

abbrev pub is_base : AbiEvent → Bool
is_base e = is_base_path e.path

abbrev is_released : State → Bool
is_released State.released = true
is_released _ = false

abbrev pub is_imported : State → Bool
is_imported State.imported = true
is_imported _ = false

abbrev is_exported : State → Bool
is_exported State.exported = true
is_exported _ = false

unfoldable pub release :
    Bool
    → AbiLifecycleObject
    → AbiEvent
    → AbiLifecycleVerdict × Machine
    → AbiLifecycleVerdict × Machine
unfolding add
release strict_location object e (out, mc) =
    if not (is_base e)
    then (if e.by_consumer then add child_released_by_consumer object (some e) out else out, mc)
    else (
      if is_released mc.state
          then add released_twice object (some e) out
          else if e.by_consumer
          then (if not (is_imported mc.state)
              then add released_before_import object (some e) out
              else if strict_location && not (e.addr == mc.loc)
              then add released_at_stale_location object (some e) out
              else out)
          else if is_imported mc.state
          then add not_released_by_consumer object (some e) out
          else out,
      record mc { state = State.released },
    )

-- The `switch` of `abi_lifecycle_verify`, for the machine of the event's object.
unfoldable pub drive :
    Bool
    → Transition
    → AbiLifecycleObject
    → AbiEvent
    → AbiLifecycleVerdict × Machine
    → AbiLifecycleVerdict × Machine
unfolding release add
drive strict_location t_none object e (out, mc) = (out, mc)
drive strict_location t_exported object e (out, mc) =
    (out, record { state = State.exported; loc = e.addr })
drive strict_location t_moved object e (out, mc) = (out, record mc { loc = e.addr })
drive strict_location t_imported object e (out, mc) = (
  if not (is_exported mc.state) then add imported_out_of_order object (some e) out else out,
  record { state = State.imported; loc = e.addr },
)
drive strict_location t_returned object e (out, mc) =
    (out, if is_imported mc.state then record mc { state = State.exported } else mc)
drive strict_location t_release object e (out, mc) = release strict_location object e (out, mc)

-- The body of the loop over the events.
unfoldable pub on_event :
    Bool → AbiEvent → AbiLifecycleVerdict × Machines → AbiLifecycleVerdict × Machines
unfolding drive
on_event strict_location e (out, ms) =
    let (t, object) = classify e.kind in
    let (out', mc) = drive strict_location t object e (out, machine object ms) in
    (out', set_machine object mc ms)

unfoldable pub walk :
    Bool → List AbiEvent → AbiLifecycleVerdict × Machines → AbiLifecycleVerdict × Machines
unfolding on_event
walk strict_location [] s = s
walk strict_location (e ∷ es) s = walk strict_location es (on_event strict_location e s)

abbrev pub is_live : State → Bool
is_live s = is_exported s || is_imported s

unfoldable pub add_live : AbiLifecycleObject → Machines → AbiLifecycleVerdict → AbiLifecycleVerdict
unfolding add
add_live object ms out =
    if is_live (machine object ms).state then add never_released object none out else out

abbrev pub no_findings : Bool → AbiLifecycleVerdict
no_findings incomplete = record { count = 0; findings = []; incomplete = incomplete }

abbrev pub at_rest : Machine
at_rest = record { state = State.absent; loc = 0 }

abbrev pub all_at_rest : Machines
all_at_rest = record { schema = at_rest; array = at_rest; stream = at_rest }

unfoldable pub abi_lifecycle_verify : Option AbiObserver → Bool → AbiLifecycleVerdict
unfolding walk add_live
abi_lifecycle_verify none strict_location = no_findings false
abi_lifecycle_verify (some o) strict_location =
    let (out, ms) =
      walk strict_location o.events (no_findings (not (o.events_dropped == 0)), all_at_rest) in
    add_live AbiLifecycleObject.stream ms
      (add_live AbiLifecycleObject.array ms (add_live AbiLifecycleObject.schema ms out))
