-- ===== src/Builtin/Text/Bounds.antt =====
-- `c_strncpy` never leaves its target.
use chat_server.Base.{
  ◌⊎◌, ◌<◌, ◌≡◌, ℕ, zero, suc, ◌+◌, ◌≤◌, inl, inr, refl, ◌||◌, arith, ◌==◌, Bool-cases,
}
use chat_server.Base.Int.{pos}
use chat_server.Memory.{Mem, store}
use chat_server.Builtin.Slices.Writes.{Writes, Writes-refl, Writes-store}
use chat_server.Builtin.Text.{strncpy_loop, c_strncpy}

strncpy_loop-Writes :
    (left : ℕ) (m : Mem) (dest src i bound : ℕ)
    → i + left ≤ bound
    → Writes dest i bound m (strncpy_loop left m dest src i)
      × ((strncpy_loop left m dest src i).1 ≤ i + left)
unfolding strncpy_loop
strncpy_loop-Writes zero m dest src i bound le =
    (Writes-refl dest i bound m (omega arith), omega arith)
strncpy_loop-Writes (suc left) m dest src i bound le =
    let (w, short) =
      strncpy_loop-Writes left (store m (dest + i) (m (src + i))) dest src (i + 1) bound
        (omega arith) in
    elim (Bool-cases (m (src + i) == 0)) [
      | inl stop ↦ rw stop (Writes-refl dest i bound m (omega arith), omega arith)
      | inr on ↦ rw on (
        Writes-store (dest + i) dest i (i + 1) bound _ m _ refl (omega arith) (omega arith)
            (omega arith) w,
        omega (arith, short),
      )
    ]

pub c_strncpy-Writes :
    (m : Mem) (dest src len : ℕ) → Writes dest 0 len m (c_strncpy m dest src (pos len))
unfolding c_strncpy
c_strncpy-Writes m dest src zero = Writes-refl dest 0 0 m (omega arith)
c_strncpy-Writes m dest src (suc n) = elim (Bool-cases ((dest == 0) || (src == 0))) [
  | inl nil ↦ rw nil (Writes-refl dest 0 (suc n) m (omega arith))
  | inr fine ↦
      let (w, short) = strncpy_loop-Writes n m dest src 0 (suc n) (omega arith) in
      rw fine (record {
        on = omega arith;
        within = w.within;
        outside = λ a h. ground (arith, short, w.outside a h);
      })
]

-- The copy of a string ends at its zero byte, which it does not write over.
strncpy_loop_short :
    (left : ℕ) (m : Mem) (dest src i k : ℕ)
    → m (src + k) ≡ 0
    → i ≤ k
    → (src + k < dest) ⊎ (dest + (i + left) ≤ src + k)
    → (strncpy_loop left m dest src i).1 ≤ k
unfolding strncpy_loop
strncpy_loop_short zero m dest src i k z le apart = le
strncpy_loop_short (suc left) m dest src i k z le apart = elim (Bool-cases (m (src + i) == 0)) [
  | inl stop ↦ rw stop le
  | inr on ↦
      let before_end : i + 1 ≤ k = elim (Bool-cases (i == k)) [
        | inl same ↦ absurd (ground (arith, z))
        | inr ne ↦ ground arith
      ] in
      rw on (
        strncpy_loop_short left (store m (dest + i) (m (src + i))) dest src (i + 1) k
          (ground (arith, z)) before_end (omega arith))
]

pub c_strncpy_short :
    (m : Mem) (dest src len k : ℕ)
    → m (src + k) ≡ 0
    → (src + k < dest) ⊎ (dest + len ≤ src + k)
    → (c_strncpy m dest src (pos len)).1 ≤ k
unfolding c_strncpy
c_strncpy_short m dest src zero k z apart = omega arith
c_strncpy_short m dest src (suc n) k z apart = elim (Bool-cases ((dest == 0) || (src == 0))) [
  | inl nil ↦ rw nil (omega arith)
  | inr fine ↦ rw fine (strncpy_loop_short n m dest src 0 k z (omega arith) (omega arith))
]
