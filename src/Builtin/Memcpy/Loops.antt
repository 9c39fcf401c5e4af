-- ===== src/Builtin/Memcpy/Loops.antt =====
-- The four copy loops of `memcpy` move their bytes as if all at once.
use chat_server.Base.{ℕ, zero, suc, ◌+◌, ◌-◌, ◌*◌, ◌≤◌, ◌≡◌, arith}
use chat_server.Memory.{moved}
use chat_server.Builtin.Memcpy.{Cursor, bytes_up, words_up, bytes_down, words_down}

-- From c to e a forward copy has moved n bytes.
pub record Up (n : ℕ) (c e : Cursor) : Type 0 where
  pub mem_is : (a : ℕ) → e.mem a ≡ moved c.mem c.dst c.src n a
  pub dst_is : e.dst ≡ c.dst + n
  pub src_is : e.src ≡ c.src + n

-- From c to e a backward copy has moved n bytes.
pub record Down (n : ℕ) (c e : Cursor) : Type 0 where
  pub mem_is : (a : ℕ) → e.mem a ≡ moved c.mem e.dst e.src n a
  pub dst_is : e.dst + n ≡ c.dst
  pub src_is : e.src + n ≡ c.src

Up-refl : (c : Cursor) → Up 0 c c
Up-refl c = record { mem_is = λ a. ground arith; dst_is = omega arith; src_is = omega arith }

Down-refl : (c : Cursor) → Down 0 c c
Down-refl c = record { mem_is = λ a. ground arith; dst_is = omega arith; src_is = omega arith }

module _ {c d e : Cursor} where
  -- A forward copy that goes on does not read what it has written.
  pub Up-trans : (k n s : ℕ) → Up k c d → Up n d e → k + n ≡ s → c.dst ≤ c.src → Up s c e
  Up-trans k n s p q sum h = record {
    mem_is = λ a. ground (arith, q.mem_is a, p.mem_is a, p.mem_is (d.src + (a - d.dst)));
    dst_is = omega (arith, p.dst_is, q.dst_is);
    src_is = omega (arith, p.src_is, q.src_is);
  }

  pub Down-trans : (k n s : ℕ) → Down k c d → Down n d e → k + n ≡ s → c.src ≤ c.dst → Down s c e
  Down-trans k n s p q sum h = record {
    mem_is = λ a. ground (arith, q.mem_is a, p.mem_is a, p.mem_is (e.src + (a - e.dst)));
    dst_is = omega (arith, p.dst_is, q.dst_is);
    src_is = omega (arith, p.src_is, q.src_is);
  }

pub bytes_up-Up : (t : ℕ) (c : Cursor) → c.dst ≤ c.src → Up t c (bytes_up t c)
unfolding bytes_up
bytes_up-Up zero c h = Up-refl c
bytes_up-Up (suc t) c h =
    Up-trans 1 t (suc t)
      (record { mem_is = λ a. ground arith; dst_is = omega arith; src_is = omega arith })
      (bytes_up-Up t _ (omega arith)) (omega arith) h

pub words_up-Up : (t : ℕ) (c : Cursor) → c.dst ≤ c.src → Up (t * 8) c (words_up t c)
unfolding words_up
words_up-Up zero c h = Up-refl c
words_up-Up (suc t) c h =
    Up-trans 8 (t * 8) (suc t * 8)
      (record { mem_is = λ a. ground arith; dst_is = omega arith; src_is = omega arith })
      (words_up-Up t _ (omega arith)) (omega arith) h

pub bytes_down-Down : (t : ℕ) (c : Cursor) → c.src ≤ c.dst → t ≤ c.src → Down t c (bytes_down t c)
unfolding bytes_down
bytes_down-Down zero c h k = Down-refl c
bytes_down-Down (suc t) c h k =
    Down-trans 1 t (suc t)
      (record { mem_is = λ a. ground arith; dst_is = omega arith; src_is = omega arith })
      (bytes_down-Down t _ (omega arith) (omega arith)) (omega arith) h

pub words_down-Down :
    (t : ℕ) (c : Cursor) → c.src ≤ c.dst → t * 8 ≤ c.src → Down (t * 8) c (words_down t c)
unfolding words_down
words_down-Down zero c h k = Down-refl c
words_down-Down (suc t) c h k =
    Down-trans 8 (t * 8) (suc t * 8)
      (record { mem_is = λ a. ground arith; dst_is = omega arith; src_is = omega arith })
      (words_down-Down t _ (omega arith) (omega arith)) (omega arith) h
