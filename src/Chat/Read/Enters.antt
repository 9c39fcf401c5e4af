-- ===== src/Chat/Read/Enters.antt =====
-- What a client and all others read when the client's name arrives.
use chat_server.Base.{
  ℕ, ◌+◌, ◌-◌, ◌≤◌, ◌≡◌, inl, inr, refl, ap, ap₂, sym, ◌∙◌, true, false, List, ◌∷◌, ◌++◌, arith,
  ltb, ◌==◌, length, take, take_all, append-nil,
}
use chat_server.Memory.{store, bytes}
use chat_server.Memory.Laws.{bytes-append, bytes_congr}
use chat_server.Memory.Split.{split_by-bytes}
use chat_server.Builtin.Slices.{put}
use chat_server.Builtin.Slices.Fill.{put_outside, bytes-put, bytes_outside}
use chat_server.Chat.State.{Client, write, World, Run, ok, name_of, buf_of, update}
use chat_server.Chat.Close.Safe.{connected-has}
use chat_server.Chat.Frame.{msg_size, IsSafe}
use chat_server.Chat.Own.{own_change, sent_change}
use chat_server.Chat.Read.{
  Answer, interrupted, going, entered_msg, name_got, name_loop, enter_chat, session_name_read,
}
use chat_server.Chat.Read.Name.{named}
use chat_server.Chat.Read.Safe.{IsNaming}
use chat_server.Chat.Line.Says.{name_bytes, pending}
use chat_server.Chat.Handler.{IsCounted}
use chat_server.Chat.Read.Enter.{welcome_text, enter_chat-deliveries}
use chat_server.Chat.Read.Naming.{
  naming, entrance, entrance_same, is_end, naming-none, naming-some, cut_name_none, cut_name_first,
}
use chat_server.Chat.Read.Hears.{OneRead, once, again, deliveries_same}
use chat_server.Chat.Invariant.{View, connected}

-- What the handler leaves when the client has sent more bytes of its name.
pub record Enters (c : ℕ) (sent : List ℕ) (w : World) (vs : List View) (r : Run World)
    : Type 0 where
  pub after : World
  pub returns : r ≡ ok after
  pub safe : IsSafe after vs
  pub name : name_bytes after c ≡ (naming (name_bytes w c ++ sent)).0
  pub is_named : (after.clients c).name_ok ≡ (naming (name_bytes w c ++ sent)).1
  pub written :
      after.out ≡ w.out ++ entrance w.clients c (connected vs) (naming (name_bytes w c ++ sent))
  pub counted : IsCounted after c
  pub same_pending : pending after c ≡ pending w c
  pub same_fds : (a : ℕ) → (after.clients a).fd ≡ (w.clients a).fd
  pub same_pools : after.pools ≡ w.pools

-- The state after bytes have been read.
abbrev name_read : ℕ → List ℕ → World → World
name_read c bs w = record w {
  clients =
      update w.clients c (record (w.clients c) { name_used = (w.clients c).name_used + length bs });
  mem = put w.mem (name_of c + (w.clients c).name_used) bs;
}

module _ (c : ℕ) (vs : List View) where
  name_read-IsNaming :
      (bs : List ℕ) (w : World)
      → (w.clients c).name_used + length bs ≤ 32
      → IsNaming w vs c
      → IsNaming (name_read c bs w) vs c
  name_read-IsNaming bs w fits i = record {
    safe =
        (own_change c w vs i.safe i.there
          (record (w.clients c) { name_used = (w.clients c).name_used + length bs })
          (put w.mem (name_of c + (w.clients c).name_used) bs) w.out refl
          (λ y h k. put_outside w.mem (name_of c + (w.clients c).name_used) bs y (ground arith))
          (inl i.nameless)).0;
    there = i.there;
    nameless = ground (arith, i.nameless);
    counted = ground (arith, i.counted);
  }

  name_read-name_bytes :
      (bs : List ℕ) (w : World) → name_bytes (name_read c bs w) c ≡ name_bytes w c ++ bs
  name_read-name_bytes bs w =
      let n = (w.clients c).name_used in
      let count : (update w.clients c (record (w.clients c) { name_used = n + length bs })
            c).name_used
          ≡ n + length bs =
        ground arith in
      let m = put w.mem (name_of c + n) bs in
      rw count (
        bytes-append m (name_of c) n (length bs)
        ∙ ap₂ ◌++◌
            (bytes_outside (name_of c + n) (length bs) w.mem m (name_of c) n
              (put_outside w.mem (name_of c + n) bs) (inl (omega arith)))
            (bytes-put w.mem (name_of c + n) bs))

  name_read-pending :
      (bs : List ℕ) (w : World)
      → (w.clients c).buf_used ≤ 512
      → pending (name_read c bs w) c ≡ pending w c
  name_read-pending bs w le =
      let n = (w.clients c).name_used in
      let count : (update w.clients c (record (w.clients c) { name_used = n + length bs })
            c).buf_used
          ≡ (w.clients c).buf_used =
        ground arith in
      rw count (
        bytes_outside (name_of c + n) (length bs) w.mem (put w.mem (name_of c + n) bs) (buf_of c)
          (w.clients c).buf_used (put_outside w.mem (name_of c + n) bs) (inl (omega (arith, le))))

  name_loop_once :
      (x : ℕ) (xs : List ℕ) (w : World) (answers : List Answer)
      → OneRead (x ∷ xs) answers
      → (w.clients c).name_used + length (x ∷ xs) ≤ 32
      → name_loop answers c (w.clients c).name_used w ≡ ok (going (name_read c (x ∷ xs) w))
  unfolding name_loop name_got
  name_loop_once x xs w answers once fits =
      let all : take (32 - (w.clients c).name_used) (x ∷ xs) ≡ x ∷ xs =
        take_all _ (x ∷ xs) (omega (arith, fits)) in
      let short : ltb 32 ((w.clients c).name_used + length (x ∷ xs)) ≡ false =
        ground (arith, fits) in
      rw (name_loop, all, name_got, short) refl
  name_loop_once x xs w (interrupted ∷ answers) (again o) fits =
      name_loop_once x xs w answers o fits

  -- A client whose name has k bytes enters.
  entered :
      (w : World) (k : ℕ)
      → IsNaming w vs c
      → k ≤ 31
      → (after : World) × (enter_chat c (named c k w) ≡ ok after)
        × IsSafe after vs
        × (name_bytes after c ≡ bytes w.mem (name_of c) k)
        × ((after.clients c).name_ok ≡ 1)
        × (after.out ≡ w.out ++ entrance w.clients c (connected vs) (bytes w.mem (name_of c) k, 1))
        × IsCounted after c
        × (pending after c ≡ pending w c)
        × ((a : ℕ) → (after.clients a).fd ≡ (w.clients a).fd)
        × (after.pools ≡ w.pools)
  entered w k i le =
      let v : Client = record (w.clients c) { name_ok = 1; name_used = k } in
      let m = store w.mem (name_of c + k) 0 in
      let w2 = named c k w in
      let p =
        own_change c w vs i.safe i.there v m w.out refl (λ y h l. ground arith)
          (inr (refl, le, ground arith)) in
      let used : (w2.clients c).name_used ≡ k = ground arith in
      let buffered : (w2.clients c).buf_used ≡ (w.clients c).buf_used = ground arith in
      let apart = (i.safe.sound c (connected-has c vs i.there)).apart in
      let (m', e, out) = enter_chat-deliveries w2 c vs p.0.server apart (omega arith) in
      let q = sent_change c w2 vs m' _ p.0 i.there out in
      let name : bytes m (name_of c) k ≡ bytes w.mem (name_of c) k =
        bytes_congr m w.mem (name_of c) (name_of c) k (λ j l. ground arith) in
      let fds : (a : ℕ) → (w2.clients a).fd ≡ (w.clients a).fd = λ a. ground arith in
      (
        _,
        e,
        q.0,
        rw used (
            bytes_outside w.stack msg_size m m' (name_of c) k out (omega (arith, apart, le))
            ∙ name),
        ground arith,
        rw (used, name, fds c)
            (ap
              (λ ds.
                w.out ++ write (w.clients c).fd (welcome_text (bytes w.mem (name_of c) k)) ∷ ds)
              (deliveries_same w.clients w2.clients (bytes w.mem (name_of c) k ++ entered_msg) c
                (connected vs) fds)),
        ground (arith, i.counted, le),
        rw buffered (
            bytes_outside w.stack msg_size m m' (buf_of c) (w.clients c).buf_used out
              (omega (arith, apart, i.counted.0))
            ∙ bytes_congr m w.mem (buf_of c) (buf_of c) (w.clients c).buf_used
                (λ j l. ground (arith, i.counted.0))),
        fds,
        refl,
      )

  -- In a safe state, for a connected client without a name and with its counts within its arrays,
  -- and for a wake-up in which one read gives bytes that fit: the bytes are put behind those that
  -- are there. If an end of a line is among them, what is before the first one becomes the name,
  -- the client is welcomed by it, and all others are told; else nothing is written. The state is
  -- safe again.
  pub session_name_read-Enters :
      (x : ℕ) (xs : List ℕ) (answers : List Answer) (w : World)
      → IsNaming w vs c
      → OneRead (x ∷ xs) answers
      → (w.clients c).name_used + length (x ∷ xs) ≤ 32
      → Enters c (x ∷ xs) w vs (session_name_read answers c w)
  unfolding session_name_read
  session_name_read-Enters x xs answers w i o fits =
      let bs = x ∷ xs in
      let w1 = name_read c bs w in
      let i1 = name_read-IsNaming bs w fits i in
      let n = (w1.clients c).name_used in
      let e = name_read-name_bytes bs w in
      let fds : (a : ℕ) → (w1.clients a).fd ≡ (w.clients a).fd = λ a. ground arith in
      let held = name_read-pending bs w i.counted.0 in
      elim (split_by-bytes is_end w1.mem (name_of c) n) [
        | inl (none_there, misses) ↦
            let cut = cut_name_none n c 0 w1 (λ j l. misses j (omega arith)) in
            let nameless : ((w1.clients c).name_ok == 1) ≡ false = ground (arith, i1.nameless) in
            let part = naming-none (name_bytes w1 c) none_there in
            rw (name_loop_once x xs w answers o fits, cut, nameless)
              (record {
                after = w1;
                returns = refl;
                safe = i1.safe;
                name = rw (← e, part) refl;
                is_named = rw (← e, part) i1.nameless;
                written = rw (← e, part) (sym (append-nil w.out));
                counted = i1.counted;
                same_pending = held;
                same_fds = fds;
                same_pools = refl;
              })
        | inr (k, f, split) ↦
            let cut = cut_name_first n c 0 n k w1 f (omega arith) (omega (arith, f.within)) in
            let yes : (((named c k w1).clients c).name_ok == 1) ≡ true = ground arith in
            let whole = naming-some (name_bytes w1 c) _ _ split in
            let (
              after, returns, safe, name, is_named, written, counted, same_pending, same_fds,
              same_pools,
            ) =
              entered w1 k i1 (omega (arith, f.within, i1.counted.1)) in
            rw (name_loop_once x xs w answers o fits, cut, yes, returns)
              (record {
                after = after;
                returns = refl;
                safe = safe;
                name = rw (← e, whole) name;
                is_named = rw (← e, whole) is_named;
                written =
                    written
                    ∙ ap (λ os. w.out ++ os)
                        (entrance_same w.clients w1.clients c (connected vs)
                          (bytes w1.mem (name_of c) k, 1) fds)
                    ∙ ap (λ r. w.out ++ entrance w.clients c (connected vs) r)
                        (sym (ap naming (sym e) ∙ whole));
                counted = counted;
                same_pending = same_pending ∙ held;
                same_fds = λ a. same_fds a ∙ fds a;
                same_pools = same_pools;
              })
      ]
