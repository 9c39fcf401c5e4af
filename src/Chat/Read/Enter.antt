-- ===== src/Chat/Read/Enter.antt =====
-- What `session_name_read` tells when a client enters.
use chat_server.Base.{
  ℕ, ◌+◌, ◌≤◌, ◌≡◌, ◌⊎◌, ap, ◌∙◌, List, [], ◌∷◌, ◌++◌, arith, length-append, append_assoc,
}
use chat_server.Memory.{Mem, bytes}
use chat_server.Memory.Laws.{length-bytes}
use chat_server.Builtin.Slices.{unsafe_slice, c_nstring_in_slice, literal_in_slice}
use chat_server.Builtin.Slices.Fill.{
  SameOutside, Filled, bytes_outside, nstring_starts, literal_starts,
}
use chat_server.Chat.State.{Out, World, ok, write, emit, client_size, max_name_len, name_of}
use chat_server.Chat.Send.Laws.{deliveries}
use chat_server.Chat.Send.Message.{send-Filled}
use chat_server.Chat.Line.{literal_at, nstring_at}
use chat_server.Chat.Line.Laws.{literal_at-Holds, nstring_at-Holds}
use chat_server.Chat.Read.{welcome_msg, entered_msg, enter_chat}
use chat_server.Chat.Frame.{msg_size}
use chat_server.Chat.Invariant.{View, IsServer, connected}

-- What the client and then the others read.
abbrev pub welcome_text : List ℕ → List ℕ
welcome_text name = (welcome_msg ++ name) ++ 10 ∷ []

module _ (w : World) (c : ℕ) (vs : List View) (i : IsServer w vs)
    (apart : (c + client_size ≤ w.stack) ⊎ (w.stack + msg_size ≤ c))
    (fits : (w.clients c).name_used ≤ max_name_len) where
  -- In well formed pools and for a struct apart from the array `msg`, with a name of at most 32
  -- bytes, `enter_chat` ends: the client is welcomed by its name, all other connected clients are
  -- told that it has entered, and no byte outside of `msg` has changed.
  pub enter_chat-deliveries :
      (m : Mem) × (enter_chat c w
        ≡ ok (
            emit
              (record w { mem = m })
              (write
                  (w.clients c).fd
                  (welcome_text (bytes w.mem (name_of c) (w.clients c).name_used))
                ∷ deliveries w.clients
                    (bytes w.mem (name_of c) (w.clients c).name_used ++ entered_msg)
                    c
                    (connected vs))))
      × SameOutside w.stack msg_size w.mem m
  unfolding enter_chat
  enter_chat-deliveries =
      let n = (w.clients c).name_used in
      let name = bytes w.mem (name_of c) n in
      let base = w.stack in
      let s = unsafe_slice base 71 in
      let r0 = literal_in_slice w.mem s welcome_msg 38 in
      let p0 = literal_starts base 71 w.mem welcome_msg (omega arith) (omega arith) in
      let f0 : Filled base 71 w.mem r0.0 r0.1 welcome_msg = rw p0.0 p0.1 in
      let len = length-bytes w.mem (name_of c) n in
      let f1 =
        nstring_at-Holds base 71 w.mem (omega arith) (name_of c) n welcome_msg r0 f0
          (omega (arith, fits)) (omega (arith, apart, fits)) in
      let r1 = nstring_at s (name_of c) n r0 in
      let f2 =
        literal_at-Holds base 71 w.mem (omega arith) (10 ∷ []) (welcome_msg ++ name) r1 f1
          (omega (arith, length-append welcome_msg name, len, fits)) in
      let r2 = literal_at s (10 ∷ []) r1 in
      let p3 =
        nstring_starts base 71 r2.0 (name_of c) n (omega arith) (omega (arith, fits))
          (omega (arith, apart, fits)) in
      let r3 = c_nstring_in_slice r2.0 s (name_of c) n in
      let kept : bytes r2.0 (name_of c) n ≡ name =
        bytes_outside base 71 w.mem r2.0 (name_of c) n f2.outside (omega (arith, apart, fits)) in
      let f3 : Filled base 71 r2.0 r3.0 r3.1 name = rw (p3.0, ← kept) p3.1 in
      let f4 =
        literal_at-Holds base 71 r2.0 (omega arith) entered_msg name r3 f3
          (omega (arith, len, fits)) in
      let r4 = literal_at s entered_msg r3 in
      let greeted = emit w (write (w.clients c).fd (bytes r2.0 base r2.1) ∷ []) in
      let j : IsServer greeted vs = record { pools = i.pools; distinct = i.distinct } in
      let sent = send-Filled greeted vs j base 71 r4.1 c r2.0 r4.0 (name ++ entered_msg) f4 in
      let told : bytes r2.0 base r2.1 ≡ welcome_text name = f2.reads in
      let ds = deliveries w.clients (name ++ entered_msg) c (connected vs) in
      let e =
        sent
        ∙ ap (λ (os : List Out). ok (record w { mem = r4.0; out = os }))
            (rw told (append_assoc w.out (write (w.clients c).fd (welcome_text name) ∷ []) ds)) in
      (r4.0, e, λ a h. f4.outside a (ground arith) ∙ f2.outside a (ground arith))
