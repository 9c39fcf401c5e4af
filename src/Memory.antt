-- ===== src/Memory.antt =====
-- Byte memory: what the pointers of lib/cfa/src/builtin.c point into. An address is a number and
-- holds a byte; an object never wraps round the end of the address space.
pub mod Laws
pub mod Split
use chat_server.Base.{
  ℕ, zero, suc, ◌+◌, ◌-◌, List, [], ◌∷◌, Bool, ◌&&◌, ltb, leb, ◌==◌, if◌then◌else◌,
}

abbrev pub Mem : Type 0
Mem = ℕ → ℕ

-- `*p = v`
abbrev pub store : Mem → ℕ → ℕ → Mem
store m p v a = if a == p then v else m a

-- Is the address one of the n from d on?
abbrev pub inside : ℕ → ℕ → ℕ → Bool
inside d n a = leb d a && ltb a (d + n)

-- The memory after the n bytes from s on have been moved, all at once, to d.
abbrev pub moved : Mem → ℕ → ℕ → ℕ → Mem
moved m d s n a = if inside d n a then m (s + (a - d)) else m a

-- The n bytes from p on.
abbrev pub bytes : Mem → ℕ → ℕ → List ℕ
bytes m p zero = []
bytes m p (suc n) = m p ∷ bytes m (p + 1) n
