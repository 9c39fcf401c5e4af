-- ===== src/System/Laws.antt =====
-- What the wrappers of lib/cfa/src/syscall.c make of the kernel's answer.
use chat_server.Base.{
  ℕ, zero, suc, ◌+◌, ◌<◌, ◌≡◌, ◌≢◌, refl, Bool, true, ◌&&◌, some, List, [], ◌∷◌, arith, ◌==◌,
  if◌then◌else◌, length, min,
}
use chat_server.System.Errors.{Error, syscall_errors, max_err_idx}
use chat_server.System.{row, set_error}

-- The code in the row of an index: the index, but for two rows of aliases.
abbrev pub code_of : ℕ → ℕ
code_of n = if n == 41 then 11 else (if n == 58 then 35 else n)

-- Do the rows from an index on have those codes?
abbrev rows_right : List Error → ℕ → Bool
rows_right [] i = true
rows_right (e ∷ es) i = (e.code == code_of i) && rows_right es (i + 1)

row-code_of :
    (es : List Error) (i n : ℕ)
    → rows_right es i ≡ true
    → n < length es
    → (e : Error) × (row es n ≡ some e) × (e.code ≡ code_of (i + n))
row-code_of [] i n h lt = absurd (omega arith)
row-code_of (e ∷ es) i zero h lt = (e, refl, ground arith)
row-code_of (e ∷ es) i (suc n) h lt =
    let (e1, r, c) = row-code_of es (i + 1) n (ground arith) (omega arith) in
    (e1, r, ground (arith, c))

all_right : rows_right syscall_errors 0 ≡ true
unfolding syscall_errors
all_right = refl

count_rows : length syscall_errors ≡ 135
unfolding syscall_errors
count_rows = refl

-- Every number but 0 has an error, the one of its row; the numbers above 133 have that of 133. The
-- code of the error is the number of the row, but 11 for 41 and 35 for 58.
pub set_error-code_of :
    (n : ℕ) → n ≢ 0 → (e : Error) × (set_error n ≡ some e) × (e.code ≡ code_of (min n max_err_idx))
unfolding set_error
set_error-code_of n ne =
    let (e, r, c) =
      row-code_of syscall_errors 0 (min n max_err_idx) all_right (omega (arith, count_rows)) in
    (e, ground (arith, r), ground (arith, c))
