-- ===== src/Lifecycle/Verdict.antt =====
-- The verdict of libabi/src/lifecycle.c against the list of all findings in a log, by the rules of
-- libabi/include/abi/lifecycle.h.
use mathlib.Core.Path.{subst}
use arrow_abi_doctor.Base.{
  ℕ, ◌+◌, ◌^◌, ◌<◌, ◌≤◌, ◌≡◌, refl, sym, ◌∙◌, arith, List, [], ◌∷◌, ◌++◌, length, length-append,
  take, take-snoc, append_assoc, append-nil, Bool, true, false, not, ◌||◌, Option, none, some, ◌==◌,
  if◌then◌else◌, Bool-cases, inl, inr,
}
use arrow_abi_doctor.Reconstruct.Observer.{AbiEvent, AbiObserver}
use arrow_abi_doctor.Lifecycle.{
  AbiLifecycleObject, AbiLifecycleRule, AbiLifecycleFinding, AbiLifecycleVerdict, State, Machine,
  Machines, Transition, t_none, t_exported, t_moved, t_imported, t_returned, t_release, classify,
  machine, set_machine, is_base, is_live, add, finding_of, release, drive, on_event, walk, add_live,
  all_at_rest, no_findings, released_before_import, not_released_by_consumer, released_twice,
  never_released, released_at_stale_location, imported_out_of_order, child_released_by_consumer,
  base_path, max_findings, abi_lifecycle_verify,
}
use arrow_abi_doctor.Lifecycle.Blame.{after, drive-after}

-- The rule that a release breaks: of a base structure or not, by the consumer or not, in which state, and
-- whether it is where the structure was last put or that is not judged.
abbrev pub release_breaks : Bool → Bool → State → Bool → Option AbiLifecycleRule
release_breaks false true s here = some child_released_by_consumer
release_breaks false false s here = none
release_breaks true by_consumer State.released here = some released_twice
release_breaks true true State.imported here =
    if here then none else some released_at_stale_location
release_breaks true true State.absent here = some released_before_import
release_breaks true true State.exported here = some released_before_import
release_breaks true false State.imported here = some not_released_by_consumer
release_breaks true false State.absent here = none
release_breaks true false State.exported here = none

abbrev pub import_breaks : State → Option AbiLifecycleRule
import_breaks State.exported = none
import_breaks _ = some imported_out_of_order

abbrev pub breaks : Bool → Transition → AbiEvent → Machine → Option AbiLifecycleRule
breaks strict t_imported e mc = import_breaks mc.state
breaks strict t_release e mc =
    release_breaks (is_base e) e.by_consumer mc.state (not strict || e.addr == mc.loc)
breaks strict _ e mc = none

-- The finding of a broken rule names the event: its object, its number and its path.
abbrev pub found :
    AbiLifecycleObject → AbiEvent → Option AbiLifecycleRule → List AbiLifecycleFinding
found o e none = []
found o e (some rule) = record { rule = rule; object = o; seq = e.seq; path = e.path } ∷ []

-- A structure that is live at the end; there is no event to name.
abbrev pub left_live : AbiLifecycleObject → Machine → List AbiLifecycleFinding
left_live o mc =
    if is_live mc.state
    then record { rule = never_released; object = o; seq = 0; path = base_path } ∷ []
    else []

-- All findings of a log, in its order, and behind them those of its end.
unfoldable pub log_findings : Bool → List AbiEvent → Machines → List AbiLifecycleFinding
log_findings strict [] ms =
    left_live AbiLifecycleObject.schema ms.schema
    ++ (left_live AbiLifecycleObject.array ms.array
        ++ left_live AbiLifecycleObject.stream ms.stream)
log_findings strict (e ∷ es) ms =
    let (t, o) = classify e.kind in
    found o e (breaks strict t e (machine o ms))
    ++ log_findings strict es (set_machine o (after t e (machine o ms)) ms)

-- The verdict has counted the findings `fs` and holds the first of them.
record Recorded (incomplete : Bool) (fs : List AbiLifecycleFinding) (v : AbiLifecycleVerdict)
    : Type 0 where
  counts : v.count ≡ length fs
  holds : v.findings ≡ take max_findings fs
  same : v.incomplete ≡ incomplete

module _ (b : Bool) (fs : List AbiLifecycleFinding) (room : length fs + 1 < 2 ^ 32) where
  add-Recorded :
      (rule : AbiLifecycleRule) (o : AbiLifecycleObject) (e : Option AbiEvent)
      (v : AbiLifecycleVerdict)
      → Recorded b fs v
      → Recorded b (fs ++ (finding_of rule o e ∷ [])) (add rule o e v)
  unfolding add
  add-Recorded rule o e v k = record {
    counts = omega (arith, k.counts, room, length-append fs (finding_of rule o e ∷ []));
    holds = simp (k.counts, k.holds) (sym (take-snoc max_findings fs (finding_of rule o e)));
    same = k.same;
  }

  kept-Recorded : (v : AbiLifecycleVerdict) → Recorded b fs v → Recorded b (fs ++ []) v
  kept-Recorded v k = subst (λ gs. Recorded b gs v) (sym (append-nil fs)) k

  release-Recorded :
      (strict base by_consumer : Bool) (o : AbiLifecycleObject) (e : AbiEvent)
      (out : AbiLifecycleVerdict) (s : State) (loc : ℕ)
      → is_base e ≡ base
      → e.by_consumer ≡ by_consumer
      → Recorded b fs out
      → Recorded b
          (fs ++ found o e (release_breaks base by_consumer s (not strict || e.addr == loc)))
          (release strict o e (out, record { state = s; loc = loc })).0
  unfolding release
  release-Recorded strict false false o e out s loc eb ec k = rw (eb, ec) (kept-Recorded out k)
  release-Recorded strict false true o e out s loc eb ec k =
      rw (eb, ec) (add-Recorded _ o (some e) out k)
  release-Recorded strict true by_consumer o e out State.released loc eb ec k =
      rw eb (add-Recorded _ o (some e) out k)
  release-Recorded strict true true o e out State.absent loc eb ec k =
      rw (eb, ec) (add-Recorded _ o (some e) out k)
  release-Recorded strict true true o e out State.exported loc eb ec k =
      rw (eb, ec) (add-Recorded _ o (some e) out k)
  release-Recorded false true true o e out State.imported loc eb ec k =
      rw (eb, ec) (kept-Recorded out k)
  release-Recorded true true true o e out State.imported loc eb ec k =
      elim (Bool-cases (e.addr == loc)) [
        | inl here ↦ rw (eb, ec, here) (kept-Recorded out k)
        | inr stale ↦ rw (eb, ec, stale) (add-Recorded _ o (some e) out k)
      ]
  release-Recorded strict true false o e out State.imported loc eb ec k =
      rw (eb, ec) (add-Recorded _ o (some e) out k)
  release-Recorded strict true false o e out State.absent loc eb ec k =
      rw (eb, ec) (kept-Recorded out k)
  release-Recorded strict true false o e out State.exported loc eb ec k =
      rw (eb, ec) (kept-Recorded out k)

  import-Recorded :
      (strict : Bool) (o : AbiLifecycleObject) (e : AbiEvent) (out : AbiLifecycleVerdict)
      (s : State) (loc : ℕ)
      → Recorded b fs out
      → Recorded b
          (fs ++ found o e (import_breaks s))
          (drive strict t_imported o e (out, record { state = s; loc = loc })).0
  unfolding drive
  import-Recorded strict o e out State.exported loc k = kept-Recorded out k
  import-Recorded strict o e out State.absent loc k = add-Recorded _ o (some e) out k
  import-Recorded strict o e out State.imported loc k = add-Recorded _ o (some e) out k
  import-Recorded strict o e out State.released loc k = add-Recorded _ o (some e) out k

  drive-Recorded :
      (strict : Bool) (t : Transition) (o : AbiLifecycleObject) (e : AbiEvent)
      (out : AbiLifecycleVerdict) (mc : Machine)
      → Recorded b fs out
      → Recorded b (fs ++ found o e (breaks strict t e mc)) (drive strict t o e (out, mc)).0
  unfolding drive
  drive-Recorded strict t_none o e out mc k = kept-Recorded out k
  drive-Recorded strict t_exported o e out mc k = kept-Recorded out k
  drive-Recorded strict t_moved o e out mc k = kept-Recorded out k
  drive-Recorded strict t_imported o e out mc k = import-Recorded strict o e out mc.state mc.loc k
  drive-Recorded strict t_returned o e out mc k = kept-Recorded out k
  drive-Recorded strict t_release o e out mc k =
      release-Recorded strict (is_base e) e.by_consumer o e out mc.state mc.loc refl refl k

  add_live-Recorded :
      (o : AbiLifecycleObject) (ms : Machines) (out : AbiLifecycleVerdict)
      → Recorded b fs out
      → Recorded b (fs ++ left_live o (machine o ms)) (add_live o ms out)
  unfolding add_live
  add_live-Recorded o ms out k = elim (Bool-cases (is_live (machine o ms).state)) [
    | inl live ↦ rw live (add-Recorded never_released o none out k)
    | inr done ↦ rw done (kept-Recorded out k)
  ]

length-found :
    (o : AbiLifecycleObject) (e : AbiEvent) (r : Option AbiLifecycleRule) → length (found o e r) ≤ 1
length-found o e none = omega arith
length-found o e (some rule) = omega arith

length-left_live : (o : AbiLifecycleObject) (mc : Machine) → length (left_live o mc) ≤ 1
length-left_live o mc = elim (Bool-cases (is_live mc.state)) [
  | inl live ↦ rw live (omega arith)
  | inr done ↦ rw done (omega arith)
]

-- The verdict behind the loop, with the three tests for a structure that is live.
abbrev closed : AbiLifecycleVerdict × Machines → AbiLifecycleVerdict
closed (out, ms) =
    add_live AbiLifecycleObject.stream ms
      (add_live AbiLifecycleObject.array ms (add_live AbiLifecycleObject.schema ms out))

closed-Recorded :
    (b : Bool) (fs : List AbiLifecycleFinding) (out : AbiLifecycleVerdict) (ms : Machines)
    → length fs + 4 < 2 ^ 32
    → Recorded b fs out
    → Recorded b
        (fs
          ++ (left_live AbiLifecycleObject.schema ms.schema
              ++ (left_live AbiLifecycleObject.array ms.array
                  ++ left_live AbiLifecycleObject.stream ms.stream)))
        (closed (out, ms))
closed-Recorded b fs out ms room k =
    let f₁ = left_live AbiLifecycleObject.schema ms.schema in
    let f₂ = left_live AbiLifecycleObject.array ms.array in
    let f₃ = left_live AbiLifecycleObject.stream ms.stream in
    let l₁ = length-append fs f₁ in
    let l₂ = length-append (fs ++ f₁) f₂ in
    let s₁ = length-left_live AbiLifecycleObject.schema ms.schema in
    let s₂ = length-left_live AbiLifecycleObject.array ms.array in
    let k₁ = add_live-Recorded b fs (omega arith) AbiLifecycleObject.schema ms out k in
    let k₂ = add_live-Recorded b (fs ++ f₁) (omega arith) AbiLifecycleObject.array ms _ k₁ in
    let k₃ =
      add_live-Recorded b ((fs ++ f₁) ++ f₂) (omega arith) AbiLifecycleObject.stream ms _ k₂ in
    subst (λ gs. Recorded b gs (closed (out, ms)))
      (append_assoc (fs ++ f₁) f₂ f₃ ∙ append_assoc fs f₁ (f₂ ++ f₃)) k₃

walk-Recorded :
    (b strict : Bool) (es : List AbiEvent) (fs : List AbiLifecycleFinding)
    (out : AbiLifecycleVerdict) (ms : Machines)
    → length fs + length es + 4 < 2 ^ 32
    → Recorded b fs out
    → Recorded b (fs ++ log_findings strict es ms) (closed (walk strict es (out, ms)))
unfolding walk on_event log_findings
walk-Recorded b strict [] fs out ms room k = closed-Recorded b fs out ms (omega arith) k
walk-Recorded b strict (e ∷ es) fs out ms room k =
    let (t, o) = classify e.kind in
    let mc = machine o ms in
    let f = found o e (breaks strict t e mc) in
    let out' = (drive strict t o e (out, mc)).0 in
    let ms' = set_machine o (after t e mc) ms in
    let l = length-append fs f in
    let s = length-found o e (breaks strict t e mc) in
    let k' = drive-Recorded b fs (omega arith) strict t o e out mc k in
    let rest = walk-Recorded b strict es (fs ++ f) out' ms' (omega arith) k' in
    let all = f ++ log_findings strict es ms' in
    subst (λ m. Recorded b (fs ++ all) (closed (walk strict es (out', set_machine o m ms))))
      (sym (drive-after strict t o e out mc))
      (subst (λ gs. Recorded b gs (closed (walk strict es (out', ms'))))
        (append_assoc fs f (log_findings strict es ms')) rest)

-- The verdict on a log of at most 1024 events, the size of the observer's log: it is incomplete exactly
-- when events were dropped, its count is the number of all findings in the log, and its array holds the
-- first sixteen of them in their order, each with its rule, its object, and its event's number and path.
-- The findings of the log are listed by the rules of lifecycle.h alone: `release_breaks`,
-- `import_breaks` and `left_live`.
pub verify_findings :
    (o : AbiObserver) (strict : Bool)
    → length o.events ≤ 1024
    → let v = abi_lifecycle_verify (some o) strict in
      let all = log_findings strict o.events all_at_rest in
      (v.incomplete ≡ not (o.events_dropped == 0))
      × (v.count ≡ length all)
      × (v.findings ≡ take max_findings all)
unfolding abi_lifecycle_verify
verify_findings o strict short =
    let b = not (o.events_dropped == 0) in
    let k =
      walk-Recorded b strict o.events [] (no_findings b) all_at_rest (omega arith)
        (record { counts = refl; holds = refl; same = refl }) in
    (k.same, k.counts, k.holds)
