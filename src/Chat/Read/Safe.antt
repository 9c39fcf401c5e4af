-- ===== src/Chat/Read/Safe.antt =====
-- `session_name_read` keeps the server running, whatever `sys_read` answers.
use chat_server.Base.{
  length-take_le, ℕ, zero, suc, ◌+◌, ◌-◌, ◌≤◌, ◌<◌, ◌≡◌, ◌⊎◌, inl, inr, refl, ◌∙◌, true, false,
  List, [], ◌∷◌, ◌++◌, arith, ltb, ◌==◌, ◌||◌, length, take, has, Bool-cases,
}
use chat_server.Memory.{store, inside}
use chat_server.Builtin.Slices.{put}
use chat_server.Builtin.Slices.Fill.{put_outside}
use chat_server.Chat.State.{Client, update, World, Run, write, client_size, max_name_len, name_of}
use chat_server.Chat.Close.Safe.{connected-has}
use chat_server.Chat.Frame.{msg_size, Confined, Confined-refl, Confined-trans, IsSafe}
use chat_server.Chat.Own.{own_change, sent_change, changed}
use chat_server.Chat.Watch.{
  interest, interest-append, interest-deliveries, Quiet, Quiet-refl, Quiet-trans,
}
use chat_server.Chat.Handler.{IsCounted, Handles, stays-Handles}
use chat_server.Chat.Read.{
  Answer, interrupted, failed, got, Ended, too_long_name, name_got, name_loop, cut_name, enter_chat,
  session_name_read,
}
use chat_server.Chat.Read.Rounds.{Round, stays, leaves, closes, later}
use chat_server.Chat.Read.Name.{named}
use chat_server.Chat.Read.Enter.{enter_chat-deliveries}
use chat_server.Chat.Invariant.{View, connected}

-- A connected client that has not given its name yet.
pub record IsNaming (w : World) (vs : List View) (c : ℕ) : Type 0 where
  pub safe : IsSafe w vs
  pub there : has c (connected vs) ≡ true
  pub nameless : (w.clients c).name_ok ≡ 0
  pub counted : IsCounted w c

abbrev Naming : ℕ → World → List View → Run Ended → Type 0
Naming c w vs r = Round (λ w1. IsNaming w1 vs c) c w vs r

module _ (c : ℕ) (vs : List View) where
  name_got-Naming :
      (bs : List ℕ) (bufn : ℕ) (w : World)
      → bufn + length bs ≤ 32
      → IsNaming w vs c
      → Naming c w vs (name_got bs c bufn w)
  unfolding name_got
  name_got-Naming [] bufn w room i =
      closes c vs (λ w1. IsNaming w1 vs c) w w i.safe i.there (Confined-refl c w) (Quiet-refl w)
  name_got-Naming (x ∷ xs) bufn w room i =
      let used = (w.clients c).name_used + length (x ∷ xs) in
      let v : Client = record (w.clients c) { name_used = used } in
      let m = put w.mem (name_of c + bufn) (x ∷ xs) in
      let same =
        λ (y : ℕ) (h : inside w.stack msg_size y ≡ false) (k : inside c client_size y ≡ false).
          put_outside w.mem (name_of c + bufn) (x ∷ xs) y (ground arith) in
      let bad = write (update w.clients c v c).fd too_long_name ∷ [] in
      let p = own_change c w vs i.safe i.there v m w.out refl same (inl i.nameless) in
      let q = own_change c w vs i.safe i.there v m (w.out ++ bad) refl same (inl i.nameless) in
      elim (Bool-cases (ltb max_name_len used)) [
        | inl long ↦ rw long (
            closes c vs (λ w1. IsNaming w1 vs c) w
              (changed c w vs i.safe i.there v m (w.out ++ bad)) q.0 i.there q.1
              (record {
                same_fd = λ a. ground arith;
                same_table = λ t. interest-append w.out bad t;
              }))
        | inr fits ↦ rw fits (
            stays (changed c w vs i.safe i.there v m w.out) refl
              (record {
                safe = p.0;
                there = i.there;
                nameless = ground (arith, i.nameless);
                counted = ground (arith, i.counted);
              })
              p.1 (record { same_fd = λ a. ground arith; same_table = λ t. refl }))
      ]

  name_loop-Naming :
      (answers : List Answer) (bufn : ℕ) (w : World)
      → bufn ≤ 32
      → IsNaming w vs c
      → Naming c w vs (name_loop answers c bufn w)
  unfolding name_loop
  name_loop-Naming [] bufn w le i = stays w refl i (Confined-refl c w) (Quiet-refl w)
  name_loop-Naming (interrupted ∷ more) bufn w le i = name_loop-Naming more bufn w le i
  name_loop-Naming (failed ∷ more) bufn w le i =
      closes c vs (λ w1. IsNaming w1 vs c) w w i.safe i.there (Confined-refl c w) (Quiet-refl w)
  name_loop-Naming (got sent ∷ more) bufn w le i =
      elim (name_got-Naming (take (max_name_len - bufn) sent) bufn w
        (omega (arith, length-take_le (max_name_len - bufn) sent)) i) [
          | leaves w1 e h ↦ rw e (leaves w1 refl h)
          | stays w1 e i1 f q ↦
              rw e
                (later c vs (λ w1. IsNaming w1 vs c) w w1 f q (name_loop-Naming more bufn w1 le i1))
        ]

cut_name-cases :
    (left c n : ℕ) (w : World)
    → (cut_name left c n w ≡ w) ⊎ ((k : ℕ) × (k < n + left) × (cut_name left c n w ≡ named c k w))
unfolding cut_name
cut_name-cases zero c n w = inl refl
cut_name-cases (suc left) c n w =
    elim (Bool-cases ((w.mem (name_of c + n) == 10) || (w.mem (name_of c + n) == 13))) [
      | inl ends ↦ inr (n, omega arith, rw ends refl)
      | inr goes_on ↦ elim (cut_name-cases left c (n + 1) w) [
        | inl e ↦ inl (rw goes_on e)
        | inr (k, lt, e) ↦ inr (k, omega arith, rw goes_on e)
      ]
    ]

module _ (c : ℕ) (vs : List View) where
  -- The client has its name, and enters.
  enters :
      (w w1 : World) (k : ℕ)
      → IsNaming w1 vs c
      → Confined c w w1
      → Quiet w w1
      → k ≤ 31
      → Handles c w vs (enter_chat c (named c k w1))
  enters w w1 k i f q1 le =
      let v : Client = record (w1.clients c) { name_ok = 1; name_used = k } in
      let m = store w1.mem (name_of c + k) 0 in
      let w2 = named c k w1 in
      let p =
        own_change c w1 vs i.safe i.there v m w1.out refl (λ y h l. ground arith)
          (inr (refl, le, ground arith)) in
      let used : (w2.clients c).name_used ≡ k = ground arith in
      let (m', e, out) =
        enter_chat-deliveries w2 c vs p.0.server (i.safe.sound c (connected-has c vs i.there)).apart
          (omega arith) in
      let q = sent_change c w2 vs m' _ p.0 i.there out in
      rw e (
        stays-Handles c w _ vs q.0 (Confined-trans c w w2 _ (Confined-trans c w w1 w2 f p.1) q.1)
          (Quiet-trans w w1 _ q1 (record {
            same_fd = λ a. ground arith;
            same_table = λ t.
                interest-append w1.out _ t
                ∙ interest-deliveries w2.clients _ c (connected vs) (interest w1.out t);
          }))
          (ground (arith, i.counted)))

  -- In a safe state and whatever `sys_read` answers, reading the name of a connected client that
  -- has none, with its counts within its arrays, ends in a safe state: all others stay connected
  -- with their names, buffers and descriptors, and the client's counts are within its arrays while
  -- it is connected.
  pub session_name_read-Handles :
      (answers : List Answer) (w : World)
      → IsNaming w vs c
      → Handles c w vs (session_name_read answers c w)
  unfolding session_name_read
  session_name_read-Handles answers w i =
      elim (name_loop-Naming c vs answers (w.clients c).name_used w i.counted.1 i) [
        | leaves w1 e h ↦ rw e h
        | stays w1 e i1 f q ↦ elim (cut_name-cases (w1.clients c).name_used c 0 w1) [
          | inl same ↦
              let no : ((w1.clients c).name_ok == 1) ≡ false = ground (arith, i1.nameless) in
              rw (e, same, no) (stays-Handles c w w1 vs i1.safe f q i1.counted)
          | inr (k, lt, cut) ↦
              let yes : (((named c k w1).clients c).name_ok == 1) ≡ true = ground arith in
              rw (e, cut, yes) (enters w w1 k i1 f q (omega (arith, i1.counted.1)))
        ]
      ]
