-- ===== src/Chat/Read/Lines.antt =====
-- `session_line_read` keeps the server running, whatever `sys_read` answers.
use chat_server.Base.{
  ◌∙◌, ℕ, ◌+◌, ◌-◌, ◌≤◌, ◌≡◌, inl, inr, refl, false, Option, List, [], ◌∷◌, arith, ltb, length,
  take, length-take_le, Bool-cases,
}
use chat_server.Memory.{inside}
use chat_server.Builtin.Slices.{put}
use chat_server.Builtin.Slices.Fill.{put_outside}
use chat_server.Chat.State.{update, Out, World, Run, client_size, max_line_len, buf_of, name_of}
use chat_server.Chat.Close.Safe.{connected-has}
use chat_server.Chat.Frame.{Confined, Confined-refl, IsSafe}
use chat_server.Chat.Own.{own_change}
use chat_server.Chat.Watch.{interest-append, Quiet-refl}
use chat_server.Chat.Handler.{Handles, Handles-after, stays-Handles}
use chat_server.Chat.Line.Safe.{check_line_and_send-Sends}
use chat_server.Chat.Line.Says.{IsNamed}
use chat_server.Chat.Read.{
  Answer, interrupted, failed, got, Ended, line_got, line_loop, session_line_read,
}
use chat_server.Chat.Read.Rounds.{Round, stays, leaves, closes, later}
use chat_server.Chat.Invariant.{View}

abbrev Lining : ℕ → World → List View → Run Ended → Type 0
Lining c w vs r = Round (λ w1. IsNamed w1 vs c) c w vs r

-- The state after bytes have been read, with what was written by then.
abbrev pub line_read : ℕ → List ℕ → ℕ → List Out → World → World
line_read c bs bufp os w = record w {
  clients =
      update w.clients c (record (w.clients c) { buf_used = (w.clients c).buf_used + length bs });
  mem = put w.mem (buf_of c + bufp) bs;
  out = os;
}

module _ (clock : Option ℕ) (c : ℕ) (vs : List View) where
  line_read-IsSafe :
      (bs : List ℕ) (bufp : ℕ) (os : List Out) (w : World)
      → bufp + length bs ≤ 512
      → IsNamed w vs c
      → IsSafe (line_read c bs bufp os w) vs × Confined c w (line_read c bs bufp os w)
  line_read-IsSafe bs bufp os w room i =
      let s = i.safe.sound c (connected-has c vs i.there) in
      let name : ((w.clients c).name_ok ≡ 1)
          × ((w.clients c).name_used ≤ 31)
          × (w.mem (name_of c + (w.clients c).name_used) ≡ 0) =
        ground (arith, s.name, i.has_name) in
      let outside = λ (y : ℕ) (far : inside c client_size y ≡ false).
        put_outside w.mem (buf_of c + bufp) bs y (ground arith) in
      let zero_byte =
        put_outside w.mem (buf_of c + bufp) bs (name_of c + (w.clients c).name_used) (ground arith)
        ∙ name.2 in
      own_change c w vs i.safe i.there
        (record (w.clients c) { buf_used = (w.clients c).buf_used + length bs })
        (put w.mem (buf_of c + bufp) bs) os refl (λ y h k. outside y k)
        (inr (name.0, name.1, zero_byte))

  pub line_read-IsNamed :
      (bs : List ℕ) (bufp : ℕ) (w : World)
      → bufp + length bs ≤ 512
      → (w.clients c).buf_used + length bs ≤ 512
      → IsNamed w vs c
      → IsNamed (line_read c bs bufp w.out w) vs c
  line_read-IsNamed bs bufp w room fits i = record {
    safe = (line_read-IsSafe bs bufp w.out w room i).0;
    there = i.there;
    has_name = ground (arith, i.has_name);
    counted = ground (arith, i.counted);
  }

  line_got-Lining :
      (bs : List ℕ) (bufp : ℕ) (w : World)
      → bufp + length bs ≤ 512
      → IsNamed w vs c
      → Lining c w vs (line_got clock bs c bufp w)
  unfolding line_got
  line_got-Lining [] bufp w room i =
      let s = check_line_and_send-Sends clock c w vs i in
      rw s.returns (
        closes c vs (λ w1. IsNamed w1 vs c) w s.after s.named.safe s.named.there s.confined s.quiet)
  line_got-Lining (x ∷ xs) bufp w room i =
      let bs = x ∷ xs in
      elim (Bool-cases (ltb max_line_len ((w.clients c).buf_used + length bs))) [
        | inl long ↦
            let q = line_read-IsSafe bs bufp _ w room i in
            rw long (
              closes c vs (λ w1. IsNamed w1 vs c) w (line_read c bs bufp _ w) q.0 i.there q.1
                (record {
                  same_fd = λ a. ground arith;
                  same_table = λ t. interest-append w.out _ t;
                }))
        | inr fits ↦ rw fits (
            stays (line_read c bs bufp w.out w) refl
              (line_read-IsNamed bs bufp w room (ground arith) i)
              (line_read-IsSafe bs bufp w.out w room i).1
              (record { same_fd = λ a. ground arith; same_table = λ t. refl }))
      ]

  line_loop-Lining :
      (answers : List Answer) (bufp : ℕ) (w : World)
      → bufp ≤ 512
      → IsNamed w vs c
      → Lining c w vs (line_loop clock answers c bufp w)
  unfolding line_loop
  line_loop-Lining [] bufp w le i = stays w refl i (Confined-refl c w) (Quiet-refl w)
  line_loop-Lining (interrupted ∷ more) bufp w le i = line_loop-Lining more bufp w le i
  line_loop-Lining (failed ∷ more) bufp w le i =
      closes c vs (λ w1. IsNamed w1 vs c) w w i.safe i.there (Confined-refl c w) (Quiet-refl w)
  line_loop-Lining (got sent ∷ more) bufp w le i =
      elim (line_got-Lining (take (max_line_len - bufp) sent) bufp w
        (omega (arith, length-take_le (max_line_len - bufp) sent)) i) [
          | leaves w1 e h ↦ rw e (leaves w1 refl h)
          | stays w1 e i1 f q ↦
              rw e
                (later c vs (λ w1. IsNamed w1 vs c) w w1 f q (line_loop-Lining more bufp w1 le i1))
        ]

  -- In a safe state and whatever `sys_read` and the clock answer, reading the lines of a connected
  -- client that has a name, with its counts within its arrays, ends in a safe state: all others
  -- stay connected with their names, buffers and descriptors, and the client's counts are within
  -- its arrays while it is connected.
  pub session_line_read-Handles :
      (answers : List Answer) (w : World)
      → IsNamed w vs c
      → Handles c w vs (session_line_read clock answers c w)
  unfolding session_line_read
  session_line_read-Handles answers w i =
      elim (line_loop-Lining answers (w.clients c).buf_used w i.counted.0 i) [
        | leaves w1 e h ↦ rw e h
        | stays w1 e i1 f q ↦
            let s = check_line_and_send-Sends clock c w1 vs i1 in
            rw (e, s.returns)
              (Handles-after c w w1 vs _ f q
                (stays-Handles c w1 s.after vs s.named.safe s.confined s.quiet s.named.counted))
      ]
