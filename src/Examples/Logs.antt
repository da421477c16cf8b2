-- ===== src/Examples/Logs.antt =====
-- The properties of the verdict (libabi/src/lifecycle.c) at a small log.
use arrow_abi_doctor.Base.{ℕ, ◌≡◌, refl, arith, [], ◌∷◌, true, ◌==◌, not, some, length, ◌↔◌, take}
use arrow_abi_doctor.Reconstruct.Observer.{AbiEventKind, AbiEvent, AbiObserver}
use arrow_abi_doctor.Lifecycle.{
  AbiLifecycleRule, AbiLifecycleObject, all_at_rest, at_rest, base_path, max_findings, add, release,
  drive, on_event, walk, add_live, abi_lifecycle_verify,
}
use arrow_abi_doctor.Lifecycle.Discipline.{Life, Orderly, verify_zero-Life}
use arrow_abi_doctor.Lifecycle.Verdict.{log_findings, verify_findings}

-- A schema that is exported, moved, handed over and released where it was handed over.
abbrev event : AbiEventKind → ℕ → AbiEvent
event kind addr = record {
  seq = 0;
  kind = kind;
  depth = 0;
  by_consumer = true;
  path = base_path;
  addr = addr;
}

abbrev sample_log : AbiObserver
sample_log = record {
  events =
      event AbiEventKind.schema_exported 16
      ∷ event AbiEventKind.schema_moved 32
      ∷ event AbiEventKind.schema_imported 48
      ∷ event AbiEventKind.schema_release_enter 48
      ∷ [];
  events_dropped = 0;
  next_seq = 4;
  alloc = record { bytes_allocated = 0; bytes_freed = 0; blocks_allocated = 0; blocks_freed = 0 };
  release_depth = 0;
  violations = 0;
}

verify_zero-Life_example :
    (((abi_lifecycle_verify (some sample_log) true).count ≡ 0)
      × Orderly AbiLifecycleObject.schema sample_log.events at_rest
      × Orderly AbiLifecycleObject.array sample_log.events at_rest
      × Orderly AbiLifecycleObject.stream sample_log.events at_rest)
    ↔ (Life true AbiLifecycleObject.schema sample_log.events at_rest
        × Life true AbiLifecycleObject.array sample_log.events at_rest
        × Life true AbiLifecycleObject.stream sample_log.events at_rest)
verify_zero-Life_example = verify_zero-Life sample_log true (omega arith)

-- A schema that is exported again while it is live: the first one is never released, and no finding says so.
abbrev lost_schema : AbiObserver
lost_schema = record sample_log {
  events =
      event AbiEventKind.schema_exported 16
      ∷ event AbiEventKind.schema_imported 16
      ∷ event AbiEventKind.schema_exported 32
      ∷ event AbiEventKind.schema_imported 32
      ∷ event AbiEventKind.schema_release_enter 32
      ∷ [];
}

lost_schema_count : (abi_lifecycle_verify (some lost_schema) true).count ≡ 0
unfolding add release drive on_event walk add_live abi_lifecycle_verify
lost_schema_count = refl

not-Orderly_lost_schema : ¬ Orderly AbiLifecycleObject.schema lost_schema.events at_rest
unfolding Orderly
not-Orderly_lost_schema h = cc

-- A schema that is released where it no longer is, and an array that nothing releases.
abbrev faulty_log : AbiObserver
faulty_log = record sample_log {
  events =
      event AbiEventKind.schema_exported 16
      ∷ event AbiEventKind.array_exported 64
      ∷ event AbiEventKind.schema_imported 48
      ∷ record (event AbiEventKind.schema_release_enter 16) { seq = 3 }
      ∷ [];
}

verify_findings_example :
    let v = abi_lifecycle_verify (some faulty_log) true in
    let all = log_findings true faulty_log.events all_at_rest in
    (v.incomplete ≡ not (faulty_log.events_dropped == 0))
    × (v.count ≡ length all)
    × (v.findings ≡ take max_findings all)
verify_findings_example = verify_findings faulty_log true (omega arith)

-- The list of its findings.
faulty_log_findings : log_findings true faulty_log.events all_at_rest ≡ (
    record {
      rule = AbiLifecycleRule.released_at_stale_location;
      object = AbiLifecycleObject.schema;
      seq = 3;
      path = base_path;
    }
    ∷ record {
      rule = AbiLifecycleRule.never_released;
      object = AbiLifecycleObject.array;
      seq = 0;
      path = base_path;
    }
    ∷ [])
unfolding log_findings
faulty_log_findings = refl

-- The machines find nothing in this log.
sample_log_count : (abi_lifecycle_verify (some sample_log) true).count ≡ 0
unfolding add release drive on_event walk add_live abi_lifecycle_verify
sample_log_count = refl
