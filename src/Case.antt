-- ===== src/Case.antt =====
-- A case file as a whole, docs/abicase-format.md 3 to 5: the header and the sections, the specification
-- that `abi_case_encode` and `abi_case_decode` share.
pub mod Write
pub mod Emitted
pub mod Read
pub mod Sections
pub mod Parts
pub mod Header
pub mod Live
pub mod Canonical
pub mod RoundTrip
use arrow_abi_doctor.Base.{
  ℕ, ◌+◌, List, [], ◌∷◌, ◌++◌, Option, none, some, length, take, if◌then◌else◌, Bool, ltb,
}
use arrow_abi_doctor.Bytes.{store_u16, store_u32}
use arrow_abi_doctor.Sha256.{abi_sha256}
use arrow_abi_doctor.Model.{AbiSchemaNode, AbiArrayNode, AbiOp, AbiCase}
use arrow_abi_doctor.Format.{
  provenance_bytes, allocations_bytes, schema_bytes, array_bytes, callseq_bytes, expected_bytes,
  section_bytes,
}

abbrev pub header_size : ℕ
header_size = 40

abbrev pub id_bytes : ℕ
id_bytes = 16

-- 'ABIC'
abbrev pub magic : List ℕ
magic = 0x41 ∷ 0x42 ∷ 0x49 ∷ 0x43 ∷ []

abbrev pub bom : ℕ
bom = 0x0000FEFF

-- The header up to the payload id.
abbrev pub header_bytes : ℕ → ℕ → ℕ → List ℕ
header_bytes cls section_count total =
    magic
    ++ (store_u16 1
        ++ (store_u16 header_size
            ++ (store_u32 bom
                ++ ((cls ∷ 0 ∷ 0 ∷ 0 ∷ []) ++ (store_u32 section_count ++ store_u32 total)))))

-- The optional sections: left out when there is no schema, no array or no operation.
abbrev pub schema_section : Option AbiSchemaNode → List ℕ
schema_section none = []
schema_section (some n) = section_bytes 3 (schema_bytes n)

abbrev pub array_section : Option AbiArrayNode → List ℕ
array_section none = []
array_section (some n) = section_bytes 4 (array_bytes n)

abbrev pub callseq_section : List AbiOp → List ℕ
callseq_section [] = []
callseq_section (op ∷ ops) = section_bytes 5 (callseq_bytes (op ∷ ops))

unfoldable pub payload_bytes : AbiCase → List ℕ
payload_bytes c =
    section_bytes 1 (provenance_bytes c.provenance)
    ++ (section_bytes 2 (allocations_bytes c.allocations)
        ++ (schema_section c.schema
            ++ (array_section c.array
                ++ (callseq_section c.ops ++ section_bytes 6 (expected_bytes c.expected)))))

abbrev pub count_of {ℓ} : {A : Type ℓ} → Option A → ℕ
count_of none = 0
count_of (some a) = 1

abbrev pub section_count_of : AbiCase → ℕ
section_count_of c =
    3 + count_of c.schema + count_of c.array + (if ltb 0 (length c.ops) then 1 else 0)

unfoldable pub case_bytes : AbiCase → List ℕ
unfolding payload_bytes
case_bytes c =
    let payload = payload_bytes c in
    header_bytes c.cls (section_count_of c) (header_size + length payload)
    ++ (take id_bytes (abi_sha256 payload) ++ payload)
