-- ===== src/NullConsumer.antt =====
-- The null consumer of adapters/null/null_worker.c, in a build without ABI_ENABLE_USE_AFTER_RELEASE. What
-- a pointer of it to a base structure points to is where the executor keeps that structure: the
-- executor moves nothing that was handed over.
use arrow_abi_doctor.Base.{
  ℕ, zero, suc, ◌+◌, Bool, true, false, not, Option, none, some, ◌==◌, if◌then◌else◌,
}
use arrow_abi_doctor.Reconstruct.Observer.{Rec}
use arrow_abi_doctor.Reconstruct.Structs.{
  ArrowSchema, ArrowArray, ArrayArray, ArraySlots, ArrayLink, arrow_array, no_schema,
  no_arrow_array, schema_live, array_live,
}
use arrow_abi_doctor.Reconstruct.Release.{
  schema_release, released_schema, array_release, released_array,
}
use arrow_abi_doctor.Reconstruct.Stream.{stream_release, stream_get_schema, stream_get_next}
use arrow_abi_doctor.Callseq.{
  World, schema_of, array_of, put_schema, put_array, with_rec, AbiConsumer,
}

-- `at` is where it lives itself; the three pointers come first.
pub record NullCtx : Type 0 where
  pub at : ℕ
  pub schema : Option ℕ
  pub array : Option ℕ
  pub stream : Option ℕ
  pub stream_schema : ArrowSchema
  pub stream_batch : ArrowArray

-- After `memset`.
abbrev pub fresh_ctx : ℕ → NullCtx
fresh_ctx at = record {
  at = at;
  schema = none;
  array = none;
  stream = none;
  stream_schema = no_schema;
  stream_batch = no_arrow_array;
}

abbrev pub stream_schema_at : NullCtx → ℕ
stream_schema_at c = c.at + 24

abbrev pub stream_batch_at : NullCtx → ℕ
stream_batch_at c = c.at + 96

unfoldable pub null_import_schema : ℕ → NullCtx → World → Bool × NullCtx × World
null_import_schema s c w = (false, record c { schema = some s }, w)

unfoldable pub null_import_array : ℕ → NullCtx → World → Bool × NullCtx × World
null_import_array a c w = (false, record c { array = some a }, w)

unfoldable pub null_import_stream : ℕ → NullCtx → World → Bool × NullCtx × World
null_import_stream s c w = (false, record c { stream = some s }, w)

-- `if (p && p->release) p->release(p);` for the array, the schema and the stream that were handed over.
unfoldable pub let_array_go : Option ℕ → World → World
unfolding array_release put_array
let_array_go none w = w
let_array_go (some at) w =
    if array_live (array_of w)
    then with_rec (array_release at (array_of w) w.recon.rec)
        (put_array (released_array (array_of w)) w)
    else w

unfoldable pub let_schema_go : Option ℕ → World → World
unfolding schema_release put_schema
let_schema_go none w = w
let_schema_go (some at) w =
    if schema_live (schema_of w)
    then with_rec (schema_release at (schema_of w) w.recon.rec)
        (put_schema (released_schema (schema_of w)) w)
    else w

unfoldable pub let_stream_go : Option ℕ → World → World
unfolding stream_release
let_stream_go none w = w
let_stream_go (some at) w =
    let (s, r) = stream_release at w.recon in
    if w.recon.stream.live then record w { recon = record r { stream = s } } else w

-- The structures in the consumer's own storage.
unfoldable pub let_batch_go : NullCtx → World → NullCtx × World
unfolding array_release
let_batch_go c w =
    if array_live c.stream_batch
    then (
      record c { stream_batch = released_array c.stream_batch },
      with_rec (array_release (stream_batch_at c) c.stream_batch w.recon.rec) w,
    )
    else (c, w)

unfoldable pub let_stream_schema_go : NullCtx → World → NullCtx × World
unfolding schema_release
let_stream_schema_go c w =
    if schema_live c.stream_schema
    then (
      record c { stream_schema = released_schema c.stream_schema },
      with_rec (schema_release (stream_schema_at c) c.stream_schema w.recon.rec) w,
    )
    else (c, w)

unfoldable pub null_release_base : NullCtx → World → NullCtx × World
unfolding let_array_go let_schema_go let_batch_go let_stream_schema_go let_stream_go
null_release_base c w =
    let w₁ = let_schema_go c.schema (let_array_go c.array w) in
    let (c₂, w₂) = let_batch_go c w₁ in
    let (c₃, w₃) = let_stream_schema_go c₂ w₂ in (c₃, let_stream_go c₃.stream w₃)

-- `children[i]`, released in its place if it is live.
unfoldable pub release_slot : ℕ → ArraySlots → Rec → ArraySlots × Rec
unfolding array_release
release_slot i ArraySlots.end r = (ArraySlots.end, r)
release_slot zero (ArraySlots.null_slot slots) r = (ArraySlots.null_slot slots, r)
release_slot zero (ArraySlots.slot b a slots) r =
    if array_live a
    then (ArraySlots.slot b (released_array a) slots, array_release b.addr a r)
    else (ArraySlots.slot b a slots, r)
release_slot (suc i) (ArraySlots.null_slot slots) r =
    let (slots', r') = release_slot i slots r in (ArraySlots.null_slot slots', r')
release_slot (suc i) (ArraySlots.slot b a slots) r =
    let (slots', r') = release_slot i slots r in (ArraySlots.slot b a slots', r')

-- A NULL `children` is read through.
unfoldable pub release_child_of : ℕ → ArrowArray → Rec → ArrowArray × Rec
unfolding release_slot
release_child_of i (arrow_array p b ArrayArray.no_array d) r =
    (arrow_array p b ArrayArray.no_array d, record r { null_read = true })
release_child_of i (arrow_array p b (ArrayArray.array_in blk slots) d) r =
    let (slots', r') = release_slot i slots r in
    (arrow_array p b (ArrayArray.array_in blk slots') d, r')

unfoldable pub null_release_child : ℕ → NullCtx → World → NullCtx × World
unfolding release_child_of put_array
null_release_child i c w =
    let (a, r) = release_child_of i (array_of w) w.recon.rec in (c, with_rec r (put_array a w))

unfoldable pub release_dictionary_of : ArrowArray → Rec → ArrowArray × Rec
unfolding array_release
release_dictionary_of (arrow_array p b children ArrayLink.no_link) r =
    (arrow_array p b children ArrayLink.no_link, record r { null_read = true })
release_dictionary_of (arrow_array p b children (ArrayLink.link_to blk d)) r =
    if array_live d
    then (
      arrow_array p b children (ArrayLink.link_to blk (released_array d)),
      array_release blk.addr d r,
    )
    else (arrow_array p b children (ArrayLink.link_to blk d), r)

unfoldable pub null_release_dictionary : NullCtx → World → NullCtx × World
unfolding release_dictionary_of put_array
null_release_dictionary c w =
    let (a, r) = release_dictionary_of (array_of w) w.recon.rec in (c, with_rec r (put_array a w))

unfoldable pub null_stream_get_next : NullCtx → World → Bool × Bool × NullCtx × World
unfolding let_batch_go stream_get_next
null_stream_get_next c w =
    let (c₁, w₁) = let_batch_go c w in
    let (rc, batch, recon') = stream_get_next (stream_batch_at c₁) w₁.recon in
    (
      not (rc == 0),
      not (array_live batch),
      record c₁ { stream_batch = batch },
      record w₁ { recon = recon' },
    )

unfoldable pub null_stream_get_last_error : NullCtx → World → Bool × NullCtx × World
null_stream_get_last_error c w = (false, c, w)

-- `malloc` and `little` are the host's, for the schema that a stream builds.
module _ (malloc : ℕ → ℕ → Option ℕ) (little : Bool) where
  unfoldable pub null_stream_get_schema : NullCtx → World → Bool × NullCtx × World
  unfolding let_stream_schema_go stream_get_schema
  null_stream_get_schema c w =
      let (c₁, w₁) = let_stream_schema_go c w in
      let (rc, s, recon') = stream_get_schema malloc little (stream_schema_at c₁) w₁.recon in
      (not (rc == 0), record c₁ { stream_schema = s }, record w₁ { recon = recon' })

  abbrev pub null_consumer : AbiConsumer NullCtx
  null_consumer = record {
    begin = none;
    import_schema = some null_import_schema;
    import_array = some null_import_array;
    release_base = some null_release_base;
    release_child = some null_release_child;
    release_dictionary = some null_release_dictionary;
    use_after_release = none;
    import_stream = some null_import_stream;
    stream_get_schema = some null_stream_get_schema;
    stream_get_next = some null_stream_get_next;
    stream_get_last_error = some null_stream_get_last_error;
  }
