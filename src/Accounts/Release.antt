-- ===== src/Accounts/Release.antt =====
-- Releasing a structure frees what it holds, whatever the state of its tree.
use arrow_abi_doctor.Base.{
  ℕ, ◌+◌, ◌≡◌, refl, arith, List, [], ◌∷◌, Bool, true, false, not, ◌&&◌, Option, none, some, ◌==◌,
  if◌then◌else◌, is_some, ap, ◌∙◌, if_cases,
}
use mathlib.Core.Path.{subst}
use arrow_abi_doctor.Reconstruct.Observer.{
  AbiEventKind, Block, Rec, obs_event, obs_free, deeper, shallower,
}
use arrow_abi_doctor.Reconstruct.Structs.{
  AbiNodePriv, ArrowSchema, SchemaArray, SchemaSlots, SchemaLink, ArrowArray, ArrayArray,
  ArraySlots, ArrayLink, arrow_schema, arrow_array,
}
use arrow_abi_doctor.Reconstruct.Release.{
  entered_by_consumer, violated, release_enter, release_exit, free_buffers, schema_release,
  release_children, release_slots, release_dictionary, free_all, free_backing_allocations,
  free_backing_if, array_release, release_array_children, release_array_slots,
  release_array_dictionary,
}
use arrow_abi_doctor.Accounts.{
  Measure, bytes, blocks, weight, weight_of, weights, is_intact, Balanced, schema_holds,
  schema_array_holds, schema_slots_hold, schema_link_holds, array_holds, array_array_holds,
  array_slots_hold, array_link_holds, obs_free-Balanced, obs_event-Balanced,
}

pub deeper-Balanced : (m : Measure) (x : ℕ) (r : Rec) → Balanced m x r → Balanced m x (deeper r)
deeper-Balanced bytes x r h = record { sum = h.sum; range = h.range; intact = h.intact }
deeper-Balanced blocks x r h = record { sum = h.sum; range = h.range; intact = h.intact }

pub shallower-Balanced :
    (m : Measure) (x : ℕ) (r : Rec) → Balanced m x r → Balanced m x (shallower r)
shallower-Balanced bytes x r h = record { sum = h.sum; range = h.range; intact = h.intact }
shallower-Balanced blocks x r h = record { sum = h.sum; range = h.range; intact = h.intact }

violated-Balanced : (m : Measure) (x : ℕ) (r : Rec) → Balanced m x r → Balanced m x (violated r)
violated-Balanced bytes x r h = record { sum = h.sum; range = h.range; intact = h.intact }
violated-Balanced blocks x r h = record { sum = h.sum; range = h.range; intact = h.intact }

module _ (m : Measure) where
  -- The same blocks, summed in another order.
  pub Balanced-of : {x y : ℕ} (r : Rec) → x ≡ y → Balanced m x r → Balanced m y r
  Balanced-of r e h = rw (← e) h

  release_enter-Balanced :
      (x : ℕ) (kind : AbiEventKind) (p : AbiNodePriv) (at : ℕ) (r : Rec)
      → Balanced m x r
      → Balanced m x (release_enter kind p at r)
  unfolding release_enter
  release_enter-Balanced x kind p at r h = deeper-Balanced m x _ (
      obs_event-Balanced m x kind p.path _ at _
        (by_violation (entered_by_consumer r && not p.is_root)))
    where
      by_violation :
          (b : Bool)
          → Balanced m x (
              if b
              then obs_event AbiEventKind.violation_child_released_by_consumer p.path true at
                  (violated r)
              else r)
      by_violation true = obs_event-Balanced m x _ p.path true at _ (violated-Balanced m x r h)
      by_violation false = h

  release_exit-Balanced :
      (x : ℕ) (kind : AbiEventKind) (p : AbiNodePriv) (at : ℕ) (c : Bool) (r : Rec)
      → Balanced m (x + weight m p.block) r
      → Balanced m x (release_exit kind p at c r)
  unfolding release_exit
  release_exit-Balanced x kind p at c r h =
      obs_free-Balanced m x (some p.block) _
        (obs_event-Balanced m _ kind p.path c at (shallower r) (shallower-Balanced m _ r h))

  free_buffers-Balanced :
      (x : ℕ) (p : AbiNodePriv) (r : Rec)
      → Balanced m
          (x + (weight_of m p.format_buf + (weight_of m p.name_buf + weight_of m p.metadata_buf)))
          r
      → Balanced m x (free_buffers p r)
  unfolding free_buffers
  free_buffers-Balanced x p r h = obs_free-Balanced m x p.metadata_buf _ (
      obs_free-Balanced m _ p.name_buf _
        (obs_free-Balanced m _ p.format_buf r (Balanced-of r (omega arith) h)))

mutual
  unfolding schema_release schema_holds release_children schema_array_holds release_slots
      schema_slots_hold release_dictionary schema_link_holds

  pub schema_release-frees :
      (m : Measure) (x at : ℕ) (s : ArrowSchema) (r : Rec)
      → Balanced m (x + schema_holds m s) r
      → Balanced m x (schema_release at s r)
  schema_release-frees m x at (arrow_schema none b children dictionary) r h =
      Balanced-of m r (omega arith) h
  schema_release-frees m x at (arrow_schema (some p) b children dictionary) r h =
      release_exit-Balanced m x _ p at _ _ (
        free_buffers-Balanced m _ p _ (
          release_dictionary-frees m _ dictionary _ (
            release_children-frees m _ children _
              (release_enter-Balanced m _ _ p at r (Balanced-of m r (omega arith) h)))))

  release_children-frees :
      (m : Measure) (x : ℕ) (children : SchemaArray) (r : Rec)
      → Balanced m (x + schema_array_holds m children) r
      → Balanced m x (release_children children r)
  release_children-frees m x SchemaArray.no_array r h = Balanced-of m r (omega arith) h
  release_children-frees m x (SchemaArray.array_in b slots) r h =
      obs_free-Balanced m x (some b) _
        (release_slots-frees m _ slots r (Balanced-of m r (omega arith) h))

  release_slots-frees :
      (m : Measure) (x : ℕ) (slots : SchemaSlots) (r : Rec)
      → Balanced m (x + schema_slots_hold m slots) r
      → Balanced m x (release_slots slots r)
  release_slots-frees m x SchemaSlots.end r h = Balanced-of m r (omega arith) h
  release_slots-frees m x (SchemaSlots.null_slot slots) r h = release_slots-frees m x slots r h
  release_slots-frees m x (SchemaSlots.slot b ch slots) r h = release_slots-frees m x slots _ (
      obs_free-Balanced m _ (some b) _
        (schema_release-frees m _ b.addr ch r (Balanced-of m r (omega arith) h)))

  release_dictionary-frees :
      (m : Measure) (x : ℕ) (d : SchemaLink) (r : Rec)
      → Balanced m (x + schema_link_holds m d) r
      → Balanced m x (release_dictionary d r)
  release_dictionary-frees m x SchemaLink.no_link r h = Balanced-of m r (omega arith) h
  release_dictionary-frees m x (SchemaLink.link_to b d) r h =
      obs_free-Balanced m x (some b) _
        (schema_release-frees m _ b.addr d r (Balanced-of m r (omega arith) h))

-- The backing allocations as freed.
abbrev settled : Rec → Rec
settled r = record r { alloc_data = none; buffers_freed = true }

obs_free-settled : (b : Option Block) (r : Rec) → obs_free b (settled r) ≡ settled (obs_free b r)
unfolding obs_free
obs_free-settled none r = refl
obs_free-settled (some b) r = ground arith

free_all-settled : (bs : List Block) (r : Rec) → free_all bs (settled r) ≡ settled (free_all bs r)
unfolding free_all
free_all-settled [] r = refl
free_all-settled (b ∷ bs) r =
    ap (free_all bs) (obs_free-settled (some b) r) ∙ free_all-settled bs (obs_free (some b) r)

free_all-Balanced :
    (m : Measure) (x : ℕ) (bs : List Block) (r : Rec)
    → Balanced m (x + weights m bs) r
    → Balanced m x (free_all bs r)
unfolding free_all weights
free_all-Balanced m x [] r h = Balanced-of m r (omega arith) h
free_all-Balanced m x (b ∷ bs) r h =
    free_all-Balanced m x bs _ (obs_free-Balanced m _ (some b) r (Balanced-of m r (omega arith) h))

settled-Balanced :
    (m : Measure) (x : ℕ) (r : Rec)
    → r.buffers_freed ≡ false
    → Balanced m x r
    → Balanced m (x + (weight_of m r.alloc_data + weights m r.allocations)) (settled r)
settled-Balanced bytes x r e h = ground arith
settled-Balanced blocks x r e h = ground arith

pub no_null_read :
    (r : Rec)
    → is_intact r ≡ true
    → r.buffers_freed ≡ false
    → (not (is_some r.alloc_data) && not (r.alloc_count == 0)) ≡ true
    → ⊥
no_null_read r h e null = ground arith

pub free_backing-Balanced :
    (m : Measure) (x : ℕ) (r : Rec) → Balanced m x r → Balanced m x (free_backing_allocations r)
unfolding free_backing_allocations
free_backing-Balanced m x r h =
    if_cases (Balanced m x) r.buffers_freed _ _ (λ _. h)
      λ e.
        if_cases (Balanced m x) _ _ _ (λ null. absurd (no_null_read r h.intact e null))
          λ _.
            let settle = settled-Balanced m x r e h in
            let done = obs_free-Balanced m x r.alloc_data _ (
              free_all-Balanced m _ r.allocations (settled r)
                (Balanced-of m _ (omega arith) settle)) in
            subst (Balanced m x)
              (ap (obs_free r.alloc_data) (free_all-settled r.allocations r)
                ∙ obs_free-settled r.alloc_data (free_all r.allocations r))
              done

free_backing_if-Balanced :
    (m : Measure) (x : ℕ) (root : Bool) (r : Rec)
    → Balanced m x r
    → Balanced m x (free_backing_if root r)
free_backing_if-Balanced m x true r h = free_backing-Balanced m x r h
free_backing_if-Balanced m x false r h = h

mutual
  unfolding array_release array_holds release_array_children array_array_holds release_array_slots
      array_slots_hold release_array_dictionary array_link_holds

  pub array_release-frees :
      (m : Measure) (x at : ℕ) (s : ArrowArray) (r : Rec)
      → Balanced m (x + array_holds m s) r
      → Balanced m x (array_release at s r)
  array_release-frees m x at (arrow_array none b children dictionary) r h =
      Balanced-of m r (omega arith) h
  array_release-frees m x at (arrow_array (some p) b children dictionary) r h =
      release_exit-Balanced m x _ p at _ _ (
        free_backing_if-Balanced m _ p.is_root _ (
          obs_free-Balanced m _ b.buffers _ (
            release_array_dictionary-frees m _ dictionary _ (
              release_array_children-frees m _ children _
                (release_enter-Balanced m _ _ p at r (Balanced-of m r (omega arith) h))))))

  release_array_children-frees :
      (m : Measure) (x : ℕ) (children : ArrayArray) (r : Rec)
      → Balanced m (x + array_array_holds m children) r
      → Balanced m x (release_array_children children r)
  release_array_children-frees m x ArrayArray.no_array r h = Balanced-of m r (omega arith) h
  release_array_children-frees m x (ArrayArray.array_in b slots) r h =
      obs_free-Balanced m x (some b) _
        (release_array_slots-frees m _ slots r (Balanced-of m r (omega arith) h))

  release_array_slots-frees :
      (m : Measure) (x : ℕ) (slots : ArraySlots) (r : Rec)
      → Balanced m (x + array_slots_hold m slots) r
      → Balanced m x (release_array_slots slots r)
  release_array_slots-frees m x ArraySlots.end r h = Balanced-of m r (omega arith) h
  release_array_slots-frees m x (ArraySlots.null_slot slots) r h =
      release_array_slots-frees m x slots r h
  release_array_slots-frees m x (ArraySlots.slot b ch slots) r h =
      release_array_slots-frees m x slots _ (
        obs_free-Balanced m _ (some b) _
          (array_release-frees m _ b.addr ch r (Balanced-of m r (omega arith) h)))

  release_array_dictionary-frees :
      (m : Measure) (x : ℕ) (d : ArrayLink) (r : Rec)
      → Balanced m (x + array_link_holds m d) r
      → Balanced m x (release_array_dictionary d r)
  release_array_dictionary-frees m x ArrayLink.no_link r h = Balanced-of m r (omega arith) h
  release_array_dictionary-frees m x (ArrayLink.link_to b d) r h =
      obs_free-Balanced m x (some b) _
        (array_release-frees m _ b.addr d r (Balanced-of m r (omega arith) h))
