-- ===== src/Chat/Own.antt =====
-- A handler's change to its own client's struct.
use chat_server.Base.{ℕ, ◌≡◌, ◌⊎◌, refl, true, false, arith, has, List, ◌+◌, ◌≤◌}
use chat_server.Memory.{Mem, inside}
use chat_server.Builtin.Slices.Fill.{SameOutside}
use chat_server.Chat.State.{Client, update, Out, World, client_size, name_of}
use chat_server.Chat.Frame.{msg_size, Confined, IsSafe, Confined-IsSafe}
use chat_server.Chat.Line.Laws.{ArePools-buffer}
use chat_server.Chat.Close.Safe.{connected-has}
use chat_server.Chat.Invariant.{View, IsServer, connected}

module _ (c : ℕ) (w : World) (vs : List View) (i : IsSafe w vs)
    (there : has c (connected vs) ≡ true) (v : Client) (m : Mem) (os : List Out) where
  abbrev pub changed : World
  changed = record w { clients = update w.clients c v; mem = m; out = os }

  -- A connected client's fields but its link, and its arrays, may change, with the handlers' array.
  pub own_change :
      v.next ≡ (w.clients c).next
      → ((x : ℕ)
          → inside w.stack msg_size x ≡ false
          → inside c client_size x ≡ false
          → m x ≡ w.mem x)
      → (v.name_ok ≡ 0) ⊎ ((v.name_ok ≡ 1) × (v.name_used ≤ 31) × (m (name_of c + v.name_used) ≡ 0))
      → IsSafe changed vs × Confined c w changed
  own_change next same name =
      let chunk = connected-has c vs there in
      let f : Confined c w changed = record {
        same_stack = refl;
        same_rest = λ a ne. ground arith;
        same_fd = λ a ne. ground arith;
        same_mem = same;
      } in
      let j : IsServer changed vs = record {
        pools =
            ArePools-buffer w.clients changed.clients w.pools vs c i.server.pools i.server.distinct
              there (λ a. ground (arith, next)) (λ a ne. ground arith);
        distinct = i.server.distinct;
      } in
      (
        Confined-IsSafe c w changed f vs vs i chunk j (omega arith) (λ a h. h)
            (record { apart = (i.sound c chunk).apart; name = ground (arith, name) }),
        f,
      )

-- A message was put together in the handlers' array, and sent.
pub sent_change :
    (c : ℕ) (w : World) (vs : List View) (m : Mem) (os : List Out)
    → IsSafe w vs
    → has c (connected vs) ≡ true
    → SameOutside w.stack msg_size w.mem m
    → IsSafe (record w { mem = m; out = os }) vs × Confined c w (record w { mem = m; out = os })
sent_change c w vs m os i there same =
    let w' : World = record w { mem = m; out = os } in
    let chunk = connected-has c vs there in
    let s = i.sound c chunk in
    let f : Confined c w w' = record {
      same_stack = refl;
      same_rest = λ a ne. (refl, refl, refl);
      same_fd = λ a ne. refl;
      same_mem = λ x h k. same x h;
    } in
    let j : IsServer w' vs = record { pools = i.server.pools; distinct = i.server.distinct } in
    (
      Confined-IsSafe c w w' f vs vs i chunk j (omega arith) (λ a h. h)
          (record {
            apart = s.apart;
            name = ground (arith, s.name, s.apart, same (c + 520 + (w.clients c).name_used));
          }),
      f,
    )
