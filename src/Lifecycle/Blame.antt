-- ===== src/Lifecycle/Blame.antt =====
-- The events that libabi/src/lifecycle.c finds nothing wrong with, and the logs without a finding.
use arrow_abi_doctor.Base.{
  ℕ, ◌+◌, ◌^◌, ◌<◌, ◌≤◌, ◌≡◌, ◌↔◌, ◌⊎◌, inl, inr, refl, arith, List, [], ◌∷◌, length, Bool, true,
  false, not, some, ◌==◌, if◌then◌else◌,
}
use arrow_abi_doctor.Reconstruct.Observer.{AbiEvent, AbiObserver}
use arrow_abi_doctor.Lifecycle.{
  AbiLifecycleObject, AbiLifecycleVerdict, State, Machine, Machines, Transition, t_none, t_exported,
  t_moved, t_imported, t_returned, t_release, classify, machine, set_machine, is_base, add, release,
  drive, on_event, walk, is_live, is_imported, add_live, at_rest, all_at_rest, no_findings,
  abi_lifecycle_verify,
}

-- A base structure is released once: by the consumer that imported it, where it was last put, or by
-- the producer that no longer or never handed it over. A child is released by its producer.
abbrev pub MayRelease : Bool → Bool → Bool → State → ℕ → ℕ → Type 0
MayRelease strict false by_consumer s addr loc = by_consumer ≡ false
MayRelease strict true true s addr loc = (s ≡ State.imported) × ((strict ≡ false) ⊎ (addr ≡ loc))
MayRelease strict true false s addr loc = (s ≡ State.absent) ⊎ (s ≡ State.exported)

-- An event that no rule is broken by. Exports, moves and returns are not judged.
abbrev pub Unblamed : Bool → Transition → AbiEvent → Machine → Type 0
Unblamed strict t_imported e mc = mc.state ≡ State.exported
Unblamed strict t_release e mc = MayRelease strict (is_base e) e.by_consumer mc.state e.addr mc.loc
Unblamed strict _ e mc = Unit {0}

-- `release` counts nothing exactly where the release is allowed.
release-Unblamed :
    (strict base by_consumer : Bool) (o : AbiLifecycleObject) (e : AbiEvent)
    (out : AbiLifecycleVerdict) (s : State) (loc : ℕ)
    → out.count + 1 < 2 ^ 32
    → is_base e ≡ base
    → e.by_consumer ≡ by_consumer
    → ((release strict o e (out, record { state = s; loc = loc })).0.count ≡ 0)
      ↔ ((out.count ≡ 0) × MayRelease strict base by_consumer s e.addr loc)
unfolding release add
release-Unblamed strict false false o e out s loc room eb ec =
    rw (eb, ec) (λ h. (h, refl), λ h. h.0)
release-Unblamed strict false true o e out s loc room eb ec =
    rw (eb, ec) (λ h. ground arith, λ h. ground arith)
release-Unblamed strict true true o e out State.absent loc room eb ec =
    rw (eb, ec) (λ h. ground arith, λ h. ground arith)
release-Unblamed strict true true o e out State.exported loc room eb ec =
    rw (eb, ec) (λ h. ground arith, λ h. ground arith)
release-Unblamed false true true o e out State.imported loc room eb ec =
    rw (eb, ec) (λ h. (h, (refl, inl refl)), λ h. h.0)
release-Unblamed true true true o e out State.imported loc room eb ec =
    rw (eb, ec)
      (λ h. ground arith, λ h. elim h.1.1 [ inl e ↦ ground arith | inr same ↦ ground arith ])
release-Unblamed strict true true o e out State.released loc room eb ec =
    rw eb (λ h. ground arith, λ h. ground arith)
release-Unblamed strict true false o e out State.absent loc room eb ec =
    rw (eb, ec) (λ h. (h, inl refl), λ h. h.0)
release-Unblamed strict true false o e out State.exported loc room eb ec =
    rw (eb, ec) (λ h. (h, inr refl), λ h. h.0)
release-Unblamed strict true false o e out State.imported loc room eb ec =
    rw (eb, ec) (λ h. ground arith, λ h. ground arith)
release-Unblamed strict true false o e out State.released loc room eb ec =
    rw eb (λ h. ground arith, λ h. ground arith)

drive-Unblamed :
    (strict : Bool) (t : Transition) (o : AbiLifecycleObject) (e : AbiEvent)
    (out : AbiLifecycleVerdict) (mc : Machine)
    → out.count + 1 < 2 ^ 32
    → ((drive strict t o e (out, mc)).0.count ≡ 0) ↔ ((out.count ≡ 0) × Unblamed strict t e mc)
unfolding drive release add
drive-Unblamed strict t_none o e out mc room = (λ h. (h, tt), λ h. h.0)
drive-Unblamed strict t_exported o e out mc room = ground arith
drive-Unblamed strict t_moved o e out mc room = ground arith
drive-Unblamed strict t_imported o e out mc room = ground arith
drive-Unblamed strict t_returned o e out mc room = ground arith
drive-Unblamed strict t_release o e out mc room =
    release-Unblamed strict (is_base e) e.by_consumer o e out mc.state mc.loc room refl refl

-- A release leaves its structure released, and `count` steps by at most one.
drive_count :
    (strict : Bool) (t : Transition) (o : AbiLifecycleObject) (e : AbiEvent)
    (out : AbiLifecycleVerdict) (mc : Machine)
    → out.count + 1 < 2 ^ 32
    → (drive strict t o e (out, mc)).0.count ≤ out.count + 1
unfolding drive release add
drive_count strict t_none o e out mc room = omega arith
drive_count strict t_exported o e out mc room = omega arith
drive_count strict t_moved o e out mc room = omega arith
drive_count strict t_imported o e out mc room = ground arith
drive_count strict t_returned o e out mc room = omega arith
drive_count strict t_release o e out mc room = ground arith

-- What the log says next of a structure.
abbrev pub after : Transition → AbiEvent → Machine → Machine
after t_none e mc = mc
after t_exported e mc = record { state = State.exported; loc = e.addr }
after t_moved e mc = record mc { loc = e.addr }
after t_imported e mc = record { state = State.imported; loc = e.addr }
after t_returned e mc = if is_imported mc.state then record mc { state = State.exported } else mc
after t_release e mc = if is_base e then record mc { state = State.released } else mc

pub drive-after :
    (strict : Bool) (t : Transition) (o : AbiLifecycleObject) (e : AbiEvent)
    (out : AbiLifecycleVerdict) (mc : Machine)
    → (drive strict t o e (out, mc)).1 ≡ after t e mc
unfolding drive release
drive-after strict t_none o e out mc = refl
drive-after strict t_exported o e out mc = refl
drive-after strict t_moved o e out mc = refl
drive-after strict t_imported o e out mc = refl
drive-after strict t_returned o e out mc = refl
drive-after strict t_release o e out mc = ground arith

abbrev pub same_object : AbiLifecycleObject → AbiLifecycleObject → Bool
same_object AbiLifecycleObject.schema AbiLifecycleObject.schema = true
same_object AbiLifecycleObject.array AbiLifecycleObject.array = true
same_object AbiLifecycleObject.stream AbiLifecycleObject.stream = true
same_object _ _ = false

-- No event of one object breaks a rule, and it is not live at the end.
unfoldable pub Faultless : Bool → AbiLifecycleObject → List AbiEvent → Machine → Type 0
Faultless strict o [] mc = is_live mc.state ≡ false
Faultless strict o (e ∷ es) mc =
    if same_object (classify e.kind).1 o
    then Unblamed strict (classify e.kind).0 e mc
      × Faultless strict o es (after (classify e.kind).0 e mc)
    else Faultless strict o es mc

AllFaultless : Bool → List AbiEvent → Machines → Type 0
AllFaultless strict es ms =
    Faultless strict AbiLifecycleObject.schema es ms.schema
    × Faultless strict AbiLifecycleObject.array es ms.array
    × Faultless strict AbiLifecycleObject.stream es ms.stream

abbrev finish : AbiLifecycleVerdict × Machines → AbiLifecycleVerdict
finish (out, ms) =
    add_live AbiLifecycleObject.stream ms
      (add_live AbiLifecycleObject.array ms (add_live AbiLifecycleObject.schema ms out))

add_live-lem :
    (o : AbiLifecycleObject) (out : AbiLifecycleVerdict) (ms : Machines)
    → out.count + 1 < 2 ^ 32
    → ((add_live o ms out).count ≤ out.count + 1)
      × (((add_live o ms out).count ≡ 0)
          ↔ ((out.count ≡ 0) × (is_live (machine o ms).state ≡ false)))
unfolding add_live add
add_live-lem o out ms room = by_state (is_live (machine o ms).state) refl
  where
    by_state :
        (live : Bool)
        → is_live (machine o ms).state ≡ live
        → ((add_live o ms out).count ≤ out.count + 1)
          × (((add_live o ms out).count ≡ 0)
              ↔ ((out.count ≡ 0) × (is_live (machine o ms).state ≡ false)))
    by_state false h = rw h (omega arith, (λ z. (z, refl), λ z. z.0))
    by_state true h = rw h (ground arith, (λ z. ground arith, λ z. ground arith))

finish-AllFaultless :
    (strict : Bool) (out : AbiLifecycleVerdict) (ms : Machines)
    → out.count + 3 < 2 ^ 32
    → ((finish (out, ms)).count ≡ 0) ↔ ((out.count ≡ 0) × AllFaultless strict [] ms)
unfolding Faultless AllFaultless
finish-AllFaultless strict out ms room =
    let (b₁, (f₁, g₁)) = add_live-lem AbiLifecycleObject.schema out ms (omega arith) in
    let out₁ = add_live AbiLifecycleObject.schema ms out in
    let (b₂, (f₂, g₂)) = add_live-lem AbiLifecycleObject.array out₁ ms (omega (arith, b₁)) in
    let out₂ = add_live AbiLifecycleObject.array ms out₁ in
    let (b₃, (f₃, g₃)) = add_live-lem AbiLifecycleObject.stream out₂ ms (omega (arith, b₁, b₂)) in
    (
      λ h. let (h₂, c) = f₃ h in let (h₁, b) = f₂ h₂ in let (h₀, a) = f₁ h₁ in (h₀, (a, b, c)),
      λ (h₀, lives). g₃ (g₂ (g₁ (h₀, lives.0), lives.1), lives.2),
    )

-- One event takes its own object one step further, and leaves the other two.
AllFaultless-next :
    (strict : Bool) (e : AbiEvent) (es : List AbiEvent) (ms : Machines)
    (c : Transition × AbiLifecycleObject)
    → classify e.kind ≡ c
    → AllFaultless strict (e ∷ es) ms ↔ (
        Unblamed strict c.0 e (machine c.1 ms)
        × AllFaultless strict es (set_machine c.1 (after c.0 e (machine c.1 ms)) ms))
unfolding Faultless AllFaultless
AllFaultless-next strict e es ms (t, AbiLifecycleObject.schema) h =
    rw h (λ ((l, x), y, z). (l, (x, y, z)), λ (l, (x, y, z)). ((l, x), y, z))
AllFaultless-next strict e es ms (t, AbiLifecycleObject.array) h =
    rw h (λ (x, (l, y), z). (l, (x, y, z)), λ (l, (x, y, z)). (x, (l, y), z))
AllFaultless-next strict e es ms (t, AbiLifecycleObject.stream) h =
    rw h (λ (x, y, (l, z)). (l, (x, y, z)), λ (l, (x, y, z)). (x, y, (l, z)))

walk-AllFaultless :
    (strict : Bool) (es : List AbiEvent) (out : AbiLifecycleVerdict) (ms : Machines)
    → out.count + length es + 3 < 2 ^ 32
    → ((finish (walk strict es (out, ms))).count ≡ 0)
      ↔ ((out.count ≡ 0) × AllFaultless strict es ms)
unfolding walk on_event
walk-AllFaultless strict [] out ms room = finish-AllFaultless strict out ms (omega arith)
walk-AllFaultless strict (e ∷ es) out ms room =
    let t = (classify e.kind).0 in
    let o = (classify e.kind).1 in
    let (f, g) = drive-Unblamed strict t o e out (machine o ms) (omega arith) in
    let bound = drive_count strict t o e out (machine o ms) (omega arith) in
    let out' = (drive strict t o e (out, machine o ms)).0 in
    let ms' = set_machine o (after t e (machine o ms)) ms in
    let (ihf, ihg) = walk-AllFaultless strict es out' ms' (omega (arith, bound)) in
    let (nf, ng) = AllFaultless-next strict e es ms (t, o) refl in
    rw (walk, on_event, drive-after strict t o e out (machine o ms))
      (
        λ h. let (z, lives) = ihf h in let (z', legal) = f z in (z', ng (legal, lives)),
        λ (z, lives). let (legal, rest) = nf lives in ihg (g (z, legal), rest),
      )

pub verify_zero-Faultless :
    (o : AbiObserver) (strict : Bool)
    → length o.events ≤ 1024
    → ((abi_lifecycle_verify (some o) strict).count ≡ 0) ↔ (
        Faultless strict AbiLifecycleObject.schema o.events at_rest
        × Faultless strict AbiLifecycleObject.array o.events at_rest
        × Faultless strict AbiLifecycleObject.stream o.events at_rest)
unfolding abi_lifecycle_verify AllFaultless
verify_zero-Faultless o strict room =
    let (f, g) =
      walk-AllFaultless strict o.events (no_findings (not (o.events_dropped == 0))) all_at_rest
        (omega arith) in
    (λ h. (f h).1, λ lives. g (refl, lives))
