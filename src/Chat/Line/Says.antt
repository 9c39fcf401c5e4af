-- ===== src/Chat/Line/Says.antt =====
-- What `check_line_and_send` does, as a function on the bytes that a client has sent so far.
use chat_server.Base.{
  ◌∙◌, ℕ, ◌+◌, ◌-◌, ◌≤◌, ◌<◌, ◌≡◌, ◌≢◌, inl, inr, refl, ap, sym, Bool, true, false, Option, none,
  some, List, [], ◌∷◌, ◌++◌, arith, ◌==◌, append-nil, Bool-cases, ltb, has,
}
use chat_server.Memory.{Mem, bytes}
use chat_server.Memory.Laws.{bytes-append, bytes_congr}
use chat_server.Memory.Split.{split_by, before, split_by-bytes}
use chat_server.Builtin.Text.Laws.{IsCString, first_zero}
use chat_server.Chat.State.{Client, Clients, update, Out, World, Run, ok, buf_of, name_of}
use chat_server.Chat.Send.Laws.{deliveries}
use chat_server.Chat.Line.{int_rounds, find_newline, check_line_and_send}
use chat_server.Chat.Line.Laws.{
  line_text, find_newline-cases, HasLine, SendsLine, check_line_and_send-SendsLine,
}
use chat_server.Chat.Close.Safe.{connected-has}
use chat_server.Chat.Frame.{Confined, Confined-refl, IsSafe}
use chat_server.Chat.Own.{own_change, changed}
use chat_server.Chat.Handler.{IsCounted}
use chat_server.Chat.Invariant.{View, connected}

-- A connected client that has given its name.
pub record IsNamed (w : World) (vs : List View) (c : ℕ) : Type 0 where
  pub safe : IsSafe w vs
  pub there : has c (connected vs) ≡ true
  pub has_name : (w.clients c).name_ok ≢ 0
  pub counted : IsCounted w c

abbrev pub is_newline : ℕ → Bool
is_newline x = x == 10

abbrev pub is_zero : ℕ → Bool
is_zero x = x == 0

-- What a client has sent and the others have not read.
abbrev pub pending : World → ℕ → List ℕ
pending w c = bytes w.mem (buf_of c) (w.clients c).buf_used

-- What a client has sent of its name.
abbrev pub name_bytes : World → ℕ → List ℕ
name_bytes w c = bytes w.mem (name_of c) (w.clients c).name_used

-- The name that the others read: up to its first zero byte.
abbrev pub shown_name : World → ℕ → List ℕ
shown_name w c = before is_zero (name_bytes w c)

-- The messages that come of the bytes that a client has sent, and the bytes that are left: the first
-- line, if it is whole.
abbrev pub speech : Option ℕ → List ℕ → List ℕ → List (List ℕ) × List ℕ
speech clock name sent = elim (split_by is_newline sent) [
  | none ↦ ([], sent)
  | some (line, rest) ↦ (line_text clock name (line ++ 10 ∷ []) ∷ [], rest)
]

speech-none :
    (clock : Option ℕ) (name sent : List ℕ)
    → split_by is_newline sent ≡ none
    → speech clock name sent ≡ ([], sent)
speech-none clock name sent e = rw (speech, e) refl

speech-some :
    (clock : Option ℕ) (name sent line rest : List ℕ)
    → split_by is_newline sent ≡ some (line, rest)
    → speech clock name sent ≡ (line_text clock name (line ++ 10 ∷ []) ∷ [], rest)
speech-some clock name sent line rest e = rw (speech, e) refl

-- Each message is written to all but one.
abbrev pub told : Clients → List (List ℕ) → ℕ → List ℕ → List Out
told cs [] except xs = []
told cs (msg ∷ msgs) except xs = deliveries cs msg except xs ++ told cs msgs except xs

-- What `check_line_and_send` leaves, in terms of the bytes that the client has sent.
pub record Says (clock : Option ℕ) (c : ℕ) (w : World) (vs : List View) (r : Run World)
    : Type 0 where
  pub after : World
  pub returns : r ≡ ok after
  pub named : IsNamed after vs c
  pub confined : Confined c w after
  pub sent :
      after.out
      ≡ w.out ++ told w.clients (speech clock (shown_name w c) (pending w c)).0 c (connected vs)
  pub held : pending after c ≡ (speech clock (shown_name w c) (pending w c)).1
  pub same_fields :
      ((after.clients c).fd ≡ (w.clients c).fd)
      × ((after.clients c).name_ok ≡ (w.clients c).name_ok)
      × ((after.clients c).name_used ≡ (w.clients c).name_used)
  pub same_fds : (a : ℕ) → (after.clients a).fd ≡ (w.clients a).fd
  pub same_name :
      bytes after.mem (name_of c) (w.clients c).name_used
      ≡ bytes w.mem (name_of c) (w.clients c).name_used
  pub same_pools : after.pools ≡ w.pools

pub Says-name_bytes :
    (clock : Option ℕ) (c : ℕ) (w : World) (vs : List View) (r : Run World)
    (s : Says clock c w vs r)
    → name_bytes s.after c ≡ name_bytes w c
Says-name_bytes clock c w vs r s = rw s.same_fields.2 s.same_name

no_newline :
    (m : Mem) (buf n : ℕ)
    → ((j : ℕ) → j < n → is_newline (m (buf + j)) ≡ false)
    → find_newline (int_rounds n) m buf 0 ≡ none
no_newline m buf n h = elim (find_newline-cases (int_rounds n) m buf 0) [
  | inl e ↦ e
  | inr (p, e, le, lt, nl, first) ↦
      let miss : is_newline (m (buf + p)) ≡ false = h p (ground arith) in absurd (ground arith)
]

bytes_snoc : (m : Mem) (q k x : ℕ) → m (q + k) ≡ x → bytes m q (k + 1) ≡ bytes m q k ++ x ∷ []
bytes_snoc m q k x e = rw (bytes-append m q k 1, e)

-- A C string that n bytes hold is what stands before the first zero byte.
pub before-IsCString :
    (m : Mem) (q n k : ℕ) → k ≤ n → IsCString m q k → before is_zero (bytes m q n) ≡ bytes m q k
before-IsCString m q n k le z = elim (split_by-bytes is_zero m q n) [
  | inl (e, misses) ↦
      let same : k ≡ n = elim (Bool-cases (ltb k n)) [
        | inl lt ↦ absurd (ground (arith, z.ends, misses k))
        | inr ge ↦ ground arith
      ] in
      rw (before, e, same) refl
  | inr (j, f, e) ↦
      let same : j ≡ k = elim (Bool-cases (ltb j k)) [
        | inl lt ↦ absurd (ground (arith, f.hit, z.runs j))
        | inr ge ↦ elim (Bool-cases (ltb k j)) [
          | inl gt ↦ absurd (ground (arith, z.ends, f.misses k))
          | inr eq ↦ ground arith
        ]
      ] in
      rw (before, e, same) refl
]

-- Of what sending a whole line leaves.
SendsLine-Says :
    (clock : Option ℕ) (c p k : ℕ) (w : World) (vs : List View) (r : Run World)
    → IsNamed w vs c
    → k ≤ (w.clients c).name_used
    → HasLine w c p k
    → split_by is_newline (pending w c)
      ≡ some (
        bytes w.mem (buf_of c) p,
        bytes w.mem (buf_of c + (p + 1)) ((w.clients c).buf_used - (p + 1)),
      )
    → SendsLine clock c p k w vs r
    → Says clock c w vs r
SendsLine-Says clock c p k w vs r i short h e l =
    let n = (w.clients c).buf_used in
    let s = i.safe.sound c (connected-has c vs i.there) in
    let name : ((w.clients c).name_ok ≡ 1)
        × ((w.clients c).name_used ≤ 31)
        × (w.mem (name_of c + (w.clients c).name_used) ≡ 0) =
      ground (arith, s.name, i.has_name) in
    let v : Client = record (w.clients c) { buf_used = n - (p + 1) } in
    let q =
      own_change c w vs i.safe i.there v l.after.mem l.after.out refl
        (λ x o m. l.same_mem x o (ground arith))
        (inr (
          name.0,
          name.1,
          l.same_mem (name_of c + (w.clients c).name_used) (ground (arith, s.apart, name.1))
                (ground (arith, name.1))
              ∙ name.2,
        )) in
    let spoken =
      speech-some clock (shown_name w c) (pending w c) (bytes w.mem (buf_of c) p)
        (bytes w.mem (buf_of c + (p + 1)) (n - (p + 1))) e in
    let shown = before-IsCString w.mem (name_of c) (w.clients c).name_used k short h.name in
    let used : (update w.clients c v c).buf_used ≡ n - (p + 1) = ground arith in
    record {
      after = changed c w vs i.safe i.there v l.after.mem l.after.out;
      returns = l.returns ∙ ap (λ (x : World). ok x) l.after_is;
      named = record {
        safe = q.0;
        there = i.there;
        has_name = ground (arith, i.has_name);
        counted = ground (arith, i.counted);
      };
      confined = q.1;
      sent = rw (spoken, shown, append-nil, ← bytes_snoc w.mem (buf_of c) p 10 h.newline) l.sent;
      held = rw (spoken, used) l.bytes_left;
      same_fields = ground arith;
      same_fds = λ a. ground arith;
      same_name =
          bytes_congr l.after.mem w.mem (name_of c) (name_of c) (w.clients c).name_used
            (λ j lt. l.same_mem (name_of c + j) (ground (arith, s.apart, name.1)) (ground arith));
      same_pools = refl;
    }

-- In a safe state and for a connected client with a name and with its counts within its arrays,
-- `check_line_and_send` sends the first line that is pending, if it is whole, to all others behind
-- the client's name, and keeps what is behind that line; it ends in such a state.
pub check_line_and_send-Says :
    (clock : Option ℕ) (c : ℕ) (w : World) (vs : List View)
    → IsNamed w vs c
    → Says clock c w vs (check_line_and_send clock c w)
unfolding check_line_and_send
check_line_and_send-Says clock c w vs i =
    let n = (w.clients c).buf_used in
    elim (split_by-bytes is_newline w.mem (buf_of c) n) [
      | inl (e, misses) ↦
          let none_found = no_newline w.mem (buf_of c) n misses in
          record {
            after = w;
            returns = rw (check_line_and_send, none_found) refl;
            named = i;
            confined = Confined-refl c w;
            sent = rw (speech-none clock (shown_name w c) (pending w c) e) (sym (append-nil w.out));
            held = rw (speech-none clock (shown_name w c) (pending w c) e) refl;
            same_fields = (refl, refl, refl);
            same_fds = λ a. refl;
            same_name = refl;
            same_pools = refl;
          }
      | inr (p, f, e) ↦
          let s = i.safe.sound c (connected-has c vs i.there) in
          let name : ((w.clients c).name_ok ≡ 1)
              × ((w.clients c).name_used ≤ 31)
              × (w.mem (name_of c + (w.clients c).name_used) ≡ 0) =
            ground (arith, s.name, i.has_name) in
          let (k, short, z) = first_zero w.mem (name_of c) (w.clients c).name_used name.2 in
          let nl : w.mem (buf_of c + p) ≡ 10 = ground (arith, f.hit) in
          let h : HasLine w c p k = record {
            apart = s.apart;
            name = z;
            name_fits = omega (arith, name.1, short);
            used = f.within;
            used_fits = i.counted.0;
            newline = nl;
            first = λ j l. ground (arith, f.misses j);
          } in
          SendsLine-Says clock c p k w vs _ i short h e
            (check_line_and_send-SendsLine clock c p k w vs i.safe.server i.there h)
    ]
