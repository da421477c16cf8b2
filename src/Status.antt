-- ===== src/Status.antt =====
-- `AbiStatus` and `AbiError` of libabi/include/abi/abicase.h. The message text of an error is left out.
use arrow_abi_doctor.Base.{ℕ}

pub data AbiStatus : Type 0 where
  ok invalid_argument no_memory truncated bad_magic bad_version bad_byte_order : AbiStatus
  not_canonical limit_exceeded bad_reference bad_enum trailing_bytes digest_mismatch : AbiStatus
  missing_section class_rule io : AbiStatus

pub record AbiError : Type 0 where
  pub status : AbiStatus
  pub offset : ℕ

-- ABI_LIMIT_BYTES_LEN, 1 MiB.
abbrev pub limit_bytes_len : ℕ
limit_bytes_len = 1048576
