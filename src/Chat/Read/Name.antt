-- ===== src/Chat/Read/Name.antt =====
-- What the loop of `session_name_read` makes of the bytes that were read.
use chat_server.Base.{ℕ, zero, suc, ◌+◌, ◌≤◌, ◌<◌, ◌≡◌, ◌≢◌, ◌⊎◌, arith}
use chat_server.Memory.{store, bytes}
use chat_server.Memory.Laws.{bytes_congr}
use chat_server.Builtin.Text.Laws.{IsCString}
use chat_server.Chat.State.{update, World, name_of}
use chat_server.Chat.Read.{cut_name}

-- A line of k bytes, which are not zero, and its end.
pub record HasEnd (w : World) (c k : ℕ) : Type 0 where
  pub ends : (w.mem (name_of c + k) ≡ 10) ⊎ (w.mem (name_of c + k) ≡ 13)
  pub no_newline : (j : ℕ) → j < k → w.mem (name_of c + j) ≢ 10
  pub no_return : (j : ℕ) → j < k → w.mem (name_of c + j) ≢ 13
  pub no_zero : (j : ℕ) → j < k → w.mem (name_of c + j) ≢ 0

-- The client with its name.
abbrev pub named : ℕ → ℕ → World → World
named c k w = record w {
  clients = update w.clients c (record (w.clients c) { name_ok = 1; name_used = k });
  mem = store w.mem (name_of c + k) 0;
}

module _ (w : World) (c k : ℕ) (h : HasEnd w c k) where
  cut_name-named : (left n : ℕ) → n ≤ k → k < n + left → cut_name left c n w ≡ named c k w
  unfolding cut_name
  cut_name-named zero n le lt = absurd (omega arith)
  cut_name-named (suc left) n le lt =
      ground (arith, h.ends, h.no_newline n, h.no_return n, cut_name-named left (n + 1))

-- Where the name buffer holds the end of a line, and no zero byte before it, the client has a name
-- afterwards: the bytes before the first end, as a C string of which `name_used` is the length.
pub cut_name-IsCString :
    (w : World) (c k used : ℕ)
    → HasEnd w c k
    → k < used
    → let w' = cut_name used c 0 w in
      IsCString w'.mem (name_of c) k
      × (bytes w'.mem (name_of c) k ≡ bytes w.mem (name_of c) k)
      × ((w'.clients c).name_used ≡ k)
      × ((w'.clients c).name_ok ≡ 1)
cut_name-IsCString w c k used h lt =
    rw (cut_name-named w c k h used 0 (omega arith) (omega arith)) (
      record { ends = ground arith; runs = λ j k'. ground (arith, h.no_zero j) },
      bytes_congr (named c k w).mem w.mem (name_of c) (name_of c) k (λ j l. ground arith),
      ground arith,
      ground arith,
    )
