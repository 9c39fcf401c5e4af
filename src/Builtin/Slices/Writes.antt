-- ===== src/Builtin/Slices/Writes.antt =====
-- What a function that fills an area from an index on has written.
use chat_server.Base.{ℕ, ◌+◌, ◌-◌, ◌≤◌, ◌<◌, ◌≡◌, refl, arith, ◌∙◌}
use chat_server.Memory.{Mem, store}
use chat_server.Builtin.Slices.Fill.{SameOutside}

-- From the index i on, bytes have been written up to an index within the bound, and none outside.
pub record Writes (buf i bound : ℕ) (m : Mem) (r : Mem × ℕ) : Type 0 where
  pub on : i ≤ r.1
  pub within : r.1 ≤ bound
  pub outside : SameOutside buf bound m r.0

pub Writes-refl : (buf i bound : ℕ) (m : Mem) → i ≤ bound → Writes buf i bound m (m, i)
Writes-refl buf i bound m le = record { on = omega arith; within = le; outside = λ a h. refl }

-- A byte at the index i, and what is written behind it.
pub Writes-store :
    (p buf i j bound x : ℕ) (m : Mem) (r : Mem × ℕ)
    → p ≡ buf + i
    → i < bound
    → j ≤ bound
    → i ≤ j
    → Writes buf j bound (store m p x) r
    → Writes buf i bound m r
Writes-store p buf i j bound x m r e lt le up w = record {
  on = omega (arith, w.on);
  within = w.within;
  outside = λ a h. ground (arith, w.outside a h);
}

-- What fills the rest of an area fills the area from there on.
pub Writes-rest :
    (buf j bound : ℕ) (m : Mem) (r : Mem × ℕ)
    → j ≤ bound
    → Writes (buf + j) 0 (bound - j) m r
    → Writes buf j bound m (r.0, j + r.1)
Writes-rest buf j bound m r le w = record {
  on = omega arith;
  within = omega (arith, w.within);
  outside = λ a h. w.outside a (ground arith);
}

pub Writes-trans :
    (buf i j bound : ℕ) (m m1 : Mem) (r : Mem × ℕ)
    → Writes buf i bound m (m1, j)
    → Writes buf j bound m1 r
    → Writes buf i bound m r
Writes-trans buf i j bound m m1 r v w = record {
  on = omega (arith, v.on, w.on);
  within = w.within;
  outside = λ a h. w.outside a h ∙ v.outside a h;
}
