-- ===== src/Callseq/Stream.antt =====
-- The operations on a stream, libabi/src/callseq.c.
use arrow_abi_doctor.Base.{Bool, true, not, ◌||◌, none, some, if◌then◌else◌}
use arrow_abi_doctor.Reconstruct.State.{stream_at}
use arrow_abi_doctor.Reconstruct.Stream.{note_stream_import, note_stream_returned}
use arrow_abi_doctor.Callseq.{
  AbiOpCode, AbiCallseqOutcome, accepted, rejected, unsupported, invalid, World, AbiConsumer, Exec,
}

module _ {Ctx : Type 0} (consumer : AbiConsumer Ctx) where
  -- What follows a call of `import_stream`.
  unfoldable pub stream_answered : Bool × Ctx × World → Exec Ctx → AbiCallseqOutcome × Exec Ctx
  unfolding note_stream_returned
  stream_answered (refused, ctx, w) x =
      let x₁ = record x { ctx = ctx; world = w } in
      if not refused
      then (accepted, record x₁ { stream_imported = true })
      else if w.recon.stream.live
      then (
        rejected,
        record x₁ { world = record w { recon = note_stream_returned (stream_at w.recon) w.recon } },
      )
      else (rejected, x₁)

  unfoldable pub stream_handoff : Exec Ctx → AbiCallseqOutcome × Exec Ctx
  unfolding stream_answered note_stream_import
  stream_handoff x = if x.stream_imported then (accepted, x) else elim consumer.import_stream [
    | none ↦ (unsupported, x)
    | some call ↦
        let at = stream_at x.world.recon in
        stream_answered
          (call at x.ctx (record x.world { recon = note_stream_import at x.world.recon })) x
  ]

  -- `answered:`
  abbrev answered : Bool → Exec Ctx → AbiCallseqOutcome × Exec Ctx
  answered refused x = (if refused then rejected else accepted, x)

  -- The `switch` of `op_stream`.
  unfoldable pub stream_call : AbiOpCode → Exec Ctx → AbiCallseqOutcome × Exec Ctx
  stream_call AbiOpCode.stream_get_schema x = elim consumer.stream_get_schema [
    | none ↦ (unsupported, x)
    | some call ↦
        let (refused, ctx, w) = call x.ctx x.world in
        answered refused (record x { ctx = ctx; world = w })
  ]
  stream_call AbiOpCode.stream_get_next x = elim consumer.stream_get_next [
    | none ↦ (unsupported, x)
    | some call ↦
        let (refused, eof, ctx, w) = call x.ctx x.world in
        answered refused (record x { ctx = ctx; world = w; got_next = true; last_eof = eof })
  ]
  stream_call AbiOpCode.stream_get_last_error x = elim consumer.stream_get_last_error [
    | none ↦ (unsupported, x)
    | some call ↦
        let (refused, ctx, w) = call x.ctx x.world in
        answered refused (record x { ctx = ctx; world = w })
  ]
  stream_call _ x = (unsupported, x)

  -- `if (o != ABI_CALLSEQ_ACCEPTED) return o;`
  abbrev pub when_accepted :
      AbiCallseqOutcome × Exec Ctx
      → (Exec Ctx → AbiCallseqOutcome × Exec Ctx)
      → AbiCallseqOutcome × Exec Ctx
  when_accepted (accepted, x) f = f x
  when_accepted (o, x) f = (o, x)

  unfoldable pub op_expect_eof : Exec Ctx → AbiCallseqOutcome × Exec Ctx
  op_expect_eof x =
      if not x.has_stream
      then (unsupported, x)
      else if not x.got_next || not x.last_eof
      then (invalid, x)
      else (accepted, x)

  -- `op_stream` for the codes other than EXPECT_EOF.
  unfoldable pub op_stream : AbiOpCode → Exec Ctx → AbiCallseqOutcome × Exec Ctx
  unfolding stream_handoff stream_call
  op_stream code x =
      if not x.has_stream
      then (unsupported, x)
      else when_accepted (stream_handoff x) (stream_call code)
