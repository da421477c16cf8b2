-- ===== src/Lifecycle/Discipline.antt =====
-- The life that the C Data Interface allows one base structure, and what libabi/src/lifecycle.c finds of
-- it.
use arrow_abi_doctor.Base.{
  ◌≤◌, ◌≡◌, ◌↔◌, List, [], ◌∷◌, length, Bool, true, false, some, inl, inr, Bool-cases,
  if◌then◌else◌,
}
use arrow_abi_doctor.Reconstruct.Observer.{AbiEvent, AbiObserver}
use arrow_abi_doctor.Lifecycle.{
  AbiLifecycleObject, State, Machine, Transition, t_none, t_exported, t_moved, t_imported,
  t_returned, t_release, classify, is_base, is_live, at_rest, abi_lifecycle_verify,
}
use arrow_abi_doctor.Lifecycle.Blame.{
  MayRelease, Unblamed, Faultless, after, same_object, verify_zero-Faultless,
}

-- A structure is exported when none is live, so that the one before was released; moved when it is live;
-- handed over when it is exported; returned by the consumer that has it; and released once.
abbrev pub Legal : Bool → Transition → AbiEvent → Machine → Type 0
Legal strict t_none e mc = Unit {0}
Legal strict t_exported e mc = is_live mc.state ≡ false
Legal strict t_moved e mc = is_live mc.state ≡ true
Legal strict t_imported e mc = mc.state ≡ State.exported
Legal strict t_returned e mc = mc.state ≡ State.imported
Legal strict t_release e mc = MayRelease strict (is_base e) e.by_consumer mc.state e.addr mc.loc

-- The whole life of one object in a log: its own events are legal one after the other, those of the
-- others do not matter to it, and it is not live at the end.
unfoldable pub Life : Bool → AbiLifecycleObject → List AbiEvent → Machine → Type 0
Life strict o [] mc = is_live mc.state ≡ false
Life strict o (e ∷ es) mc =
    if same_object (classify e.kind).1 o
    then Legal strict (classify e.kind).0 e mc × Life strict o es (after (classify e.kind).0 e mc)
    else Life strict o es mc

-- The events that are the producer's and the harness's own: exports, moves and returns.
abbrev pub InOrder : Transition → Machine → Type 0
InOrder t_exported mc = is_live mc.state ≡ false
InOrder t_moved mc = is_live mc.state ≡ true
InOrder t_returned mc = mc.state ≡ State.imported
InOrder _ mc = Unit {0}

unfoldable pub Orderly : AbiLifecycleObject → List AbiEvent → Machine → Type 0
Orderly o [] mc = Unit {0}
Orderly o (e ∷ es) mc =
    if same_object (classify e.kind).1 o
    then InOrder (classify e.kind).0 mc × Orderly o es (after (classify e.kind).0 e mc)
    else Orderly o es mc

Legal-split :
    (strict : Bool) (t : Transition) (e : AbiEvent) (mc : Machine)
    → Legal strict t e mc ↔ (Unblamed strict t e mc × InOrder t mc)
Legal-split strict t_none e mc = (λ h. (tt, tt), λ h. tt)
Legal-split strict t_exported e mc = (λ h. (tt, h), λ h. h.1)
Legal-split strict t_moved e mc = (λ h. (tt, h), λ h. h.1)
Legal-split strict t_imported e mc = (λ h. (h, tt), λ h. h.0)
Legal-split strict t_returned e mc = (λ h. (tt, h), λ h. h.1)
Legal-split strict t_release e mc = (λ h. (h, tt), λ h. h.0)

Life-split :
    (strict : Bool) (o : AbiLifecycleObject) (es : List AbiEvent) (mc : Machine)
    → Life strict o es mc ↔ (Faultless strict o es mc × Orderly o es mc)
unfolding Life Faultless Orderly
Life-split strict o [] mc = (λ h. (h, tt), λ h. h.0)
Life-split strict o (e ∷ es) mc =
    let t = (classify e.kind).0 in
    let mine = same_object (classify e.kind).1 o in
    elim (Bool-cases mine) [
      | inl own ↦
          let (f, g) = Life-split strict o es (after t e mc) in
          let (f', g') = Legal-split strict t e mc in
          rw own (
            λ (l, h). let (u, i) = f' l in let (x, y) = f h in ((u, x), (i, y)),
            λ ((u, x), (i, y)). (g' (u, i), g (x, y)),
          )
      | inr other ↦ rw other (Life-split strict o es mc)
    ]

-- Of a log that the observer can hold, at most ABI_MAX_EVENTS, 1024 events: the schema, the array and the
-- stream each live a legal life in it exactly when it gets no finding and its exports, moves and returns
-- are in order, which the verdict does not judge.
pub verify_zero-Life :
    (o : AbiObserver) (strict : Bool)
    → length o.events ≤ 1024
    → (((abi_lifecycle_verify (some o) strict).count ≡ 0)
        × Orderly AbiLifecycleObject.schema o.events at_rest
        × Orderly AbiLifecycleObject.array o.events at_rest
        × Orderly AbiLifecycleObject.stream o.events at_rest)
      ↔ (Life strict AbiLifecycleObject.schema o.events at_rest
          × Life strict AbiLifecycleObject.array o.events at_rest
          × Life strict AbiLifecycleObject.stream o.events at_rest)
verify_zero-Life o strict room =
    let (f, g) = verify_zero-Faultless o strict room in
    let (fs, gs) = Life-split strict AbiLifecycleObject.schema o.events at_rest in
    let (fa, ga) = Life-split strict AbiLifecycleObject.array o.events at_rest in
    let (ft, gt) = Life-split strict AbiLifecycleObject.stream o.events at_rest in
    (
      λ (z, os, oa, ot). let (s, a, t) = f z in (gs (s, os), ga (a, oa), gt (t, ot)),
      λ (s, a, t).
          let (s', os) = fs s in
          let (a', oa) = fa a in let (t', ot) = ft t in (g (s', a', t'), os, oa, ot),
    )
