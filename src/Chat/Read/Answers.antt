-- ===== src/Chat/Read/Answers.antt =====
-- The answers of `sys_read` that the handlers of src/chat_server.c tell apart.
use chat_server.Base.{
  ℕ, ◌-◌, ◌^◌, ◌<◌, ◌≡◌, ◌≢◌, refl, true, Option, none, some, List, [], ◌∷◌, arith, leb, ◌==◌,
  if◌then◌else◌, Bool-cases, inl, inr,
}
use chat_server.System.Errors.{Error}
use chat_server.System.Errno.Files.{eagain, eintr}
use chat_server.System.{set_error, syscall_result, Kernel, sys_read}
use chat_server.System.Laws.{set_error-code_of}
use chat_server.Chat.Read.{Answer, interrupted, failed, got}

-- What a handler does with the error and the bytes: `none` leaves the loop.
abbrev pub answer_of : Option Error → List ℕ → Option Answer
answer_of none sent = some (got sent)
answer_of (some err) sent =
    if err.code == eagain then none else some (if err.code == eintr then interrupted else failed)

-- The number of an error, as the kernel answers it in rax.
abbrev pub negative : ℕ → ℕ
negative n = 2 ^ 64 - n

answer-code_of :
    (rax : ℕ) (sent : List ℕ)
    → rax < 2 ^ 64
    → 2 ^ 64 - 4095 < rax
    → rax ≢ negative 41
    → answer_of (set_error (2 ^ 64 - rax)) sent ≡ (
        if rax == negative 11
        then none
        else some (if rax == negative 4 then interrupted else failed))
answer-code_of rax sent lt high ne =
    let (e, r, c) = set_error-code_of (2 ^ 64 - rax) (omega arith) in rw r (ground (arith, c))

-- For a kernel that does not use the number 41: the handlers leave their loop just at EAGAIN, try
-- again at EINTR and give up at every other error, of 1 to 4094; where there is no error they go on
-- with the bytes, whose number is the result.
pub sys_read-answer_of :
    {K : Type 0} (kernel : Kernel K) (k : K) (fd buf count : ℕ) (sent : List ℕ)
    → (kernel k 0 (fd ∷ buf ∷ count ∷ [])).1 < 2 ^ 64
    → (kernel k 0 (fd ∷ buf ∷ count ∷ [])).1 ≢ negative 41
    → let rax = (kernel k 0 (fd ∷ buf ∷ count ∷ [])).1 in
      let (k1, err, n) = sys_read kernel k fd buf count true in
      (e : Option Error) × (err ≡ some e)
      × (answer_of e sent ≡ (
          if leb rax (2 ^ 64 - 4095)
          then some (got sent)
          else (if rax == negative 11
              then none
              else some (if rax == negative 4 then interrupted else failed))))
      × (n ≡ (if leb rax (2 ^ 64 - 4095) then rax else 2 ^ 64 - 1))
unfolding sys_read syscall_result set_error
sys_read-answer_of kernel k fd buf count sent lt ne =
    let rax = (kernel k 0 (fd ∷ buf ∷ count ∷ [])).1 in
    elim (Bool-cases (leb rax (2 ^ 64 - 4095))) [
      | inl fine ↦ rw fine (none, refl, refl, refl)
      | inr bad ↦
          rw bad
            (set_error (2 ^ 64 - rax), refl, answer-code_of rax sent lt (ground arith) ne, refl)
    ]
