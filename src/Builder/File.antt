-- ===== src/Builder/File.antt =====
-- abi_read_file of libabi/src/case.c behind its fopen: a whole file, up to the size limit of the format.
use arrow_abi_doctor.Base.{
  ℕ, zero, suc, ◌+◌, ◌-◌, ◌*◌, ◌<◌, ◌≤◌, ◌≡◌, refl, ap, ◌∙◌, sym, arith, List, [], ◌++◌, Bool, true,
  false, length, min, take, drop, take-append-drop, length-take, length-drop, length-zero, ◌==◌,
  if◌then◌else◌, append_assoc, append-nil, length-append, if_cases,
}
use mathlib.Core.Path.{subst}
use arrow_abi_doctor.Status.{AbiStatus, limit_exceeded, no_memory, io}
use arrow_abi_doctor.Model.{limit_total_size}

pub data FileRead : Type 0 where
  file_bytes : List ℕ → FileRead
  not_read : AbiStatus → FileRead

-- `cap` behind a full buffer.
abbrev pub larger : ℕ → ℕ
larger n = min (if n == 0 then 8192 else n * 2) (limit_total_size + 1)

-- The end of the loop.
abbrev pub finish_read : Bool → List ℕ → FileRead
finish_read true bytes = not_read io
finish_read false bytes = file_bytes bytes

-- `fread room left` is how many bytes a call gives when `left` are left in the file; `failed` is `ferror`
-- at the end; `realloc` says whether a size is granted.
module _ (realloc : ℕ → Bool) (fread : ℕ → ℕ → ℕ) (failed : Bool) where
  -- `buf` holds `n` bytes at most, `rest` is what the file has left. Every round but the last takes a byte.
  unfoldable pub read_loop : ℕ → ℕ → List ℕ → List ℕ → FileRead
  read_loop zero n buf rest = not_read io
  read_loop (suc fuel) n buf rest =
      let n' : ℕ = if length buf == n then larger n else n in
      let got = fread (n' - length buf) (length rest) in
      let next = read_loop fuel n' (buf ++ take got rest) (drop got rest) in
      if length buf == n'
      then not_read limit_exceeded
      else if length buf == n
      then (if realloc n'
          then (if got == 0 then finish_read failed buf else next)
          else not_read no_memory)
      else if got == 0
      then finish_read failed buf
      else next

  unfoldable pub abi_read_file : List ℕ → FileRead
  unfolding read_loop
  abi_read_file file = read_loop (suc (length file)) 0 [] file

-- What the loop makes of the bytes `all` of a file.
abbrev Reads : List ℕ → FileRead → Type 0
Reads all r =
    (length all ≤ limit_total_size → r ≡ file_bytes all)
    × (limit_total_size < length all → r ≡ not_read limit_exceeded)

larger-bounds :
    (n : ℕ)
    → n ≤ limit_total_size + 1
    → (n ≤ larger n) × (larger n ≤ limit_total_size + 1) × (larger n ≡ n → n ≡ limit_total_size + 1)
larger-bounds n h = (ground arith, ground arith, λ e. ground arith)

-- `fread` gives something when there is room and a rest, and never more than the two.
abbrev pub Gives : (ℕ → ℕ → ℕ) → Type 0
Gives fread =
    (room left : ℕ)
    → (fread room left ≤ room)
      × (fread room left ≤ left)
      × (0 < room → 0 < left → 0 < fread room left)

module _ (realloc : ℕ → Bool) (fread : ℕ → ℕ → ℕ) (granted : (n : ℕ) → realloc n ≡ true)
    (gives : Gives fread) where
  read_loop-Reads :
      (fuel n : ℕ) (buf rest : List ℕ)
      → length rest < fuel
      → length buf ≤ n
      → n ≤ limit_total_size + 1
      → Reads (buf ++ rest) (read_loop realloc fread false fuel n buf rest)
  unfolding read_loop
  read_loop-Reads zero n buf rest h p q = absurd (omega arith)
  read_loop-Reads (suc fuel) n buf rest h p q =
      let (up, within, stuck) = larger-bounds n q in
      let n' : ℕ = if length buf == n then larger n else n in
      let got = fread (n' - length buf) (length rest) in
      let (roomy, left, some_) = gives (n' - length buf) (length rest) in
      let total = length-append buf rest in
      let low : length buf ≤ n' = ground arith in
      let high : n' ≤ limit_total_size + 1 = ground arith in
      let Q = Reads (buf ++ rest) in
      let next = read_loop realloc fread false fuel n' (buf ++ take got rest) (drop got rest) in
      let same : (buf ++ take got rest) ++ drop got rest ≡ buf ++ rest =
        append_assoc buf (take got rest) (drop got rest)
        ∙ ap (λ (t : List ℕ). buf ++ t) (take-append-drop got rest) in
      let tail : (length buf == n') ≡ false → Q (if got == 0 then file_bytes buf else next) =
        λ room.
          let open_ : length buf < n' = ground (arith, low, room) in
          if_cases Q (got == 0) _ _
            (λ none_.
              let empty : length rest ≡ 0 = ground (arith, none_, open_, some_) in
              let whole : buf ++ rest ≡ buf =
                ap (λ (t : List ℕ). buf ++ t) (length-zero rest empty) ∙ append-nil buf in
              (
                λ small. ap file_bytes (sym whole),
                λ large. absurd (omega (arith, total, empty, open_, high, large)),
              ))
            (λ more.
              let pos_ : 0 < got = ground (arith, more) in
              subst (λ all. Reads all next) same
                (read_loop-Reads fuel n' (buf ++ take got rest) (drop got rest)
                  (omega (arith, length-drop got rest, pos_, left, h))
                  (omega (
                    arith,
                    length-append buf (take got rest),
                    length-take got rest left,
                    roomy,
                    open_,
                  ))
                  high)) in
      if_cases Q (length buf == n') _ _
        (λ full. (λ small. absurd (ground (arith, full, total, small, stuck)), λ large. refl))
        λ room.
          if_cases Q (length buf == n) _ _
            (λ _.
              if_cases Q (realloc n') _ _ (λ _. tail room)
                (λ no_. let clash : true ≡ false = sym (granted n') ∙ no_ in absurd (cc)))
            (λ _. tail room)

  -- When memory is granted, `fread` gives something as long as something is left, and no error occurs,
  -- abi_read_file ends with the bytes of a file of at most 64 MiB, and refuses every larger file.
  pub abi_read_file-Reads :
      (file : List ℕ)
      → (length file ≤ limit_total_size → abi_read_file realloc fread false file ≡ file_bytes file)
        × (limit_total_size < length file
            → abi_read_file realloc fread false file ≡ not_read limit_exceeded)
  unfolding abi_read_file
  abi_read_file-Reads file =
      read_loop-Reads (suc (length file)) 0 [] file (omega arith) (omega arith) (omega arith)
