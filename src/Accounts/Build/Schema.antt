-- ===== src/Accounts/Build/Schema.antt =====
-- What the builders allocate is held by the part that they return, finished or not.
use arrow_abi_doctor.Base.{
  ℕ, zero, suc, ◌+◌, ◌-◌, ◌≡◌, refl, arith, List, Bool, true, false, Option, none, some, length,
  if_cases, elim_cases, elim_test,
}
use arrow_abi_doctor.Model.{
  AbiMetadataKv, SchemaFields, AbiSchemaNode, SchemaChildren, SchemaDictionary, schema_node,
  schema_count,
}
use arrow_abi_doctor.Reconstruct.Observer.{Block, Rec, obs_alloc}
use arrow_abi_doctor.Reconstruct.Structs.{ArrowSchema, SchemaSlots, SchemaLink, null_schemas}
use arrow_abi_doctor.Reconstruct.Build.{
  priv_size, schema_size, alloc_slots, priv_in, metadata_total, dup_cstr, encode_metadata, max_u32,
  child_path, index_leaf, dict_leaf,
}
use arrow_abi_doctor.Reconstruct.Build.Schema.{
  Begun, begun, then_step, with_format, with_name, with_metadata, begin_schema, schema_array,
  build_schema, build_slots, build_dictionary,
}
use arrow_abi_doctor.Accounts.{
  Measure, weight, weight_of, priv_weight, Balanced, schema_holds, schema_array_holds,
  schema_slots_hold, schema_link_holds,
}
use arrow_abi_doctor.Accounts.Release.{Balanced-of}
use arrow_abi_doctor.Accounts.Build.{
  obs_alloc-Balanced, alloc_slots-Balanced, alloc_slots-none, alloc_slots-fails,
}

-- The node under construction holds what it has allocated; the copies still to come are not there.
record Holds (m : Measure) (x : ℕ) (name meta : Option Block) (s : Begun) : Type 0 where
  balanced : Balanced m (x + priv_weight m s.priv) s.rec
  no_name : s.priv.name_buf ≡ name
  no_metadata : s.priv.metadata_buf ≡ meta

module _ (malloc : ℕ → ℕ → Option ℕ) (little : Bool) where
  with_format-Holds :
      (m : Measure) (x : ℕ) (format : List ℕ) (s : Begun)
      → s.priv.format_buf ≡ none
      → Holds m x none none s
      → Holds m x none none (with_format malloc little format s)
  unfolding with_format dup_cstr
  with_format-Holds m x format s e h =
      let held =
        obs_alloc-Balanced malloc m (x + priv_weight m s.priv) (length format + 1) s.rec
          h.balanced in
      elim_cases (Holds m x none none) (obs_alloc malloc (length format + 1) s.rec).0 _ _
        (λ n. record {
          balanced = Balanced-of m _ (ground arith) held;
          no_name = h.no_name;
          no_metadata = h.no_metadata;
        })
        (λ b n. record {
          balanced = Balanced-of m _ (ground arith) held;
          no_name = h.no_name;
          no_metadata = h.no_metadata;
        })

  with_name-Holds :
      (m : Measure) (x : ℕ) (has : Bool) (name : List ℕ) (s : Begun)
      → Holds m x none none s
      → (o : Option Block) × Holds m x o none (with_name malloc little has name s)
  unfolding with_name dup_cstr
  with_name-Holds m x false name s h = (none, h)
  with_name-Holds m x true name s h =
      let held =
        obs_alloc-Balanced malloc m (x + priv_weight m s.priv) (length name + 1) s.rec h.balanced in
      let e = h.no_name in
      elim_cases (λ t. (o : Option Block) × Holds m x o none t)
        (obs_alloc malloc (length name + 1) s.rec).0 _ _
        (λ n. (
          none,
          record {
            balanced = Balanced-of m _ (ground arith) held;
            no_name = h.no_name;
            no_metadata = h.no_metadata;
          },
        ))
        (λ b n. (
          some b,
          record {
            balanced = Balanced-of m _ (ground arith) held;
            no_name = refl;
            no_metadata = h.no_metadata;
          },
        ))

  with_metadata-Balanced :
      (m : Measure) (x : ℕ) (has : Bool) (kvs : List AbiMetadataKv) (o : Option Block) (s : Begun)
      → Holds m x o none s
      → Balanced m
          (x + priv_weight m (with_metadata malloc little has kvs s).priv)
          (with_metadata malloc little has kvs s).rec
  unfolding with_metadata encode_metadata
  with_metadata-Balanced m x false kvs o s h = h.balanced
  with_metadata-Balanced m x true kvs o s h =
      let held =
        obs_alloc-Balanced malloc m (x + priv_weight m s.priv) (metadata_total kvs 4) s.rec
          h.balanced in
      let e = h.no_metadata in
      elim_cases (λ (t : Begun). Balanced m (x + priv_weight m t.priv) t.rec)
        (obs_alloc malloc (metadata_total kvs 4) s.rec).0 _ _
        (λ n. Balanced-of m _ (ground arith) held) (λ b n. Balanced-of m _ (ground arith) held)

  begin_schema-Balanced :
      (m : Measure) (x : ℕ) (f : SchemaFields) (root : Bool) (path : List ℕ) (b : Block) (r : Rec)
      → Balanced m (x + weight m b) r
      → Balanced m
          (x + priv_weight m (begin_schema malloc little f root path b r).priv)
          (begin_schema malloc little f root path b r).rec
  unfolding begin_schema
  begin_schema-Balanced m x f root path b r h =
      let s₀ = begun (priv_in b root path) r in
      let s₁ = with_format malloc little f.format s₀ in
      let h₁ = with_format-Holds m x f.format s₀ refl (record {
        balanced = Balanced-of m r (omega arith) h;
        no_name = refl;
        no_metadata = refl;
      }) in
      let (o, h₂) =
        if_cases (λ t. (o : Option Block) × Holds m x o none t) s₁.good
          (with_name malloc little f.has_name f.name s₁) s₁
          (λ _. with_name-Holds m x f.has_name f.name s₁ h₁) (λ _. (none, h₁)) in
      let s₂ = then_step (with_name malloc little f.has_name f.name) s₁ in
      let s₃ = then_step (with_metadata malloc little f.has_metadata f.metadata) s₂ in
      let h₃ =
        if_cases (λ (t : Begun). Balanced m (x + priv_weight m t.priv) t.rec) s₂.good
          (with_metadata malloc little f.has_metadata f.metadata s₂) s₂
          (λ _. with_metadata-Balanced m x f.has_metadata f.metadata o s₂ h₂) (λ _. h₂.balanced) in
      if_cases (λ (t : Begun). Balanced m (x + priv_weight m t.priv) t.rec) s₃.good _ s₃ (λ _. h₃)
        (λ _. h₃)

pub null_schemas-hold : (m : Measure) (n : ℕ) → schema_slots_hold m (null_schemas n) ≡ 0
unfolding null_schemas schema_slots_hold
null_schemas-hold m zero = refl
null_schemas-hold m (suc n) = null_schemas-hold m n

-- The result of `build_schema`: what the structure holds is all that was allocated for it.
abbrev pub BuildsSchema : Measure → ℕ → Bool × ArrowSchema × Rec → Type 0
BuildsSchema m x t = Balanced m (x + schema_holds m t.1) t.2

abbrev BuildsSlots : Measure → ℕ → Bool × SchemaSlots × Rec → Type 0
BuildsSlots m x t = Balanced m (x + schema_slots_hold m t.1) t.2

abbrev BuildsLink : Measure → ℕ → Bool × SchemaLink × Rec → Type 0
BuildsLink m x t = Balanced m (x + schema_link_holds m t.1) t.2

schema_array-holds :
    (m : Measure) (a : Option Block) (slots : SchemaSlots)
    → (a ≡ none → schema_slots_hold m slots ≡ 0)
    → schema_array_holds m (schema_array a slots) ≡ weight_of m a + schema_slots_hold m slots
unfolding schema_array_holds
schema_array-holds m none slots h = omega (arith, h refl)
schema_array-holds m (some b) slots h = refl

module _ (malloc : ℕ → ℕ → Option ℕ) (little : Bool) where
  no_slots-hold :
      (m : Measure) (path : List ℕ) (n : ℕ) (cs : SchemaChildren) (r r' : Rec)
      → let slots = max_u32 n (schema_count cs) in
        (alloc_slots malloc slots r).0 ≡ true
        → (alloc_slots malloc slots r).1 ≡ none
        → schema_slots_hold m (build_slots malloc little path 0 slots cs r').1 ≡ 0
  unfolding build_slots
  no_slots-hold m path n SchemaChildren.nil r r' room e = null_schemas-hold m _
  no_slots-hold m path n (SchemaChildren.cons c cs) r r' room e =
      let z = alloc_slots-none malloc (max_u32 n (schema_count cs + 1)) r room e in
      absurd (ground arith)

module _ (malloc : ℕ → ℕ → Option ℕ) (little : Bool) where
  mutual
    unfolding build_schema build_slots build_dictionary schema_holds schema_array_holds
        schema_slots_hold schema_link_holds

    pub build_schema-holds :
        (m : Measure) (x : ℕ) (path : List ℕ) (root : Bool) (n : AbiSchemaNode) (r : Rec)
        → Balanced m x r
        → BuildsSchema m x (build_schema malloc little path root n r)
    build_schema-holds m x path root (schema_node f cs d) r h =
        let h₀ = obs_alloc-Balanced malloc m x priv_size r h in
        elim_cases (BuildsSchema m x) (obs_alloc malloc priv_size r).0 _ _
          (λ e. Balanced-of m _ (ground arith) h₀)
          λ b e.
            let s = begin_schema malloc little f root path b (obs_alloc malloc priv_size r).1 in
            let h₁ =
              begin_schema-Balanced malloc little m x f root path b _
                (Balanced-of m _ (ground arith) h₀) in
            let slots = max_u32 f.n_children (schema_count cs) in
            let h₂ = alloc_slots-Balanced malloc m _ slots s.rec h₁ in
            let a = alloc_slots malloc slots s.rec in
            let h₃ = build_slots-holds m _ path 0 slots cs a.2 h₂ in
            let ss = build_slots malloc little path 0 slots cs a.2 in
            let h₄ = build_dictionary-holds m _ path d ss.2 h₃ in
            elim_test (BuildsSchema m x) s.good _ _ (λ _. Balanced-of m _ (omega arith) h₁)
              λ _.
                elim_test (BuildsSchema m x) a.0 _ _
                  (λ refusal.
                    Balanced-of m _ (omega (arith, alloc_slots-fails malloc m slots s.rec refusal))
                      h₂)
                  λ room.
                    let sum =
                      schema_array-holds m a.1 ss.1
                        (no_slots-hold malloc little m path f.n_children cs s.rec a.2 room) in
                    elim_test (BuildsSchema m x) ss.0 _ _
                      (λ _. Balanced-of m _ (omega (arith, sum)) h₃)
                      (λ _. Balanced-of m _ (omega (arith, sum)) h₄)

    build_slots-holds :
        (m : Measure) (x : ℕ) (path : List ℕ) (i left : ℕ) (ns : SchemaChildren) (r : Rec)
        → Balanced m x r
        → BuildsSlots m x (build_slots malloc little path i left ns r)
    build_slots-holds m x path i left SchemaChildren.nil r h =
        Balanced-of m r (omega (arith, null_schemas-hold m left)) h
    build_slots-holds m x path i left (SchemaChildren.cons n ns) r h =
        let h₀ = obs_alloc-Balanced malloc m x schema_size r h in
        elim_cases (BuildsSlots m x) (obs_alloc malloc schema_size r).0 _ _
          (λ e. Balanced-of m _ (ground (arith, null_schemas-hold m left)) h₀)
          λ b e.
            let r₀ = (obs_alloc malloc schema_size r).1 in
            let sub = child_path path (index_leaf i) in
            let h₁ =
              build_schema-holds m (x + weight m b) sub false n r₀
                (Balanced-of m _ (ground arith) h₀) in
            let c = build_schema malloc little sub false n r₀ in
            let h₂ = build_slots-holds m _ path (suc i) (left - 1) ns c.2 h₁ in
            elim_test (BuildsSlots m x) c.0 _ _
              (λ _. Balanced-of m _ (omega (arith, null_schemas-hold m (left - 1))) h₁)
              (λ _. Balanced-of m _ (omega arith) h₂)

    build_dictionary-holds :
        (m : Measure) (x : ℕ) (path : List ℕ) (d : SchemaDictionary) (r : Rec)
        → Balanced m x r
        → BuildsLink m x (build_dictionary malloc little path d r)
    build_dictionary-holds m x path SchemaDictionary.absent r h = Balanced-of m r (omega arith) h
    build_dictionary-holds m x path (SchemaDictionary.present n) r h =
        let h₀ = obs_alloc-Balanced malloc m x schema_size r h in
        elim_cases (BuildsLink m x) (obs_alloc malloc schema_size r).0 _ _
          (λ e. Balanced-of m _ (ground arith) h₀)
          (λ b e.
            let r₀ = (obs_alloc malloc schema_size r).1 in
            Balanced-of m _ (omega arith) (
              build_schema-holds m (x + weight m b) (child_path path dict_leaf) false n r₀
                (Balanced-of m _ (ground arith) h₀)))
