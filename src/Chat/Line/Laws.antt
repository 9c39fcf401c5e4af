-- ===== src/Chat/Line/Laws.antt =====
-- What `check_line_and_send` makes of a line.
use chat_server.Base.{
  ◌==◌, ℕ, zero, suc, ◌+◌, ◌-◌, ◌≤◌, ◌<◌, ◌≡◌, ◌≢◌, ◌⊎◌, inl, inr, refl, ◌∙◌, Option, none, some,
  List, [], ◌∷◌, ◌++◌, arith, true, false, length, length-append, has, has-append, Distinct,
  Bool-cases,
}
use chat_server.Base.Addresses.{Distinct-right, Distinct-Apart, not-has-append}
use chat_server.Chat.Close.Views.{connected_is_chunk}
use chat_server.Memory.{Mem, bytes, inside}
use chat_server.Memory.Laws.{length-bytes, bytes-moved_self}
use chat_server.Builtin.Memcpy.Moves.{memmove_mem}
use chat_server.Builtin.Slices.{u64, unsafe_slice, c_nstring_in_slice}
use chat_server.Builtin.Slices.Fill.{
  SameOutside, bytes_outside, Filled, Filled-nested, Filled-length, slice_left_rest, nstring_starts,
  nstring_fills, literal_fills,
}
use chat_server.Builtin.Text.{c_string_in_slice}
use chat_server.Builtin.Text.Laws.{IsCString, c_string_in_slice_finds}
use chat_server.Time.{time_to_tm}
use chat_server.Time.Calendar.{time_to_tm-time}
use chat_server.Time.Clock.{clock_text, clock_text-length, tm_in_slice2-clock_text}
use chat_server.Chat.State.{
  update, Clients, ClientPool, World, Run, ok, emit, load_link, client_size, max_name_len,
  max_line_len, buf_of, name_of,
}
use chat_server.Chat.Send.Laws.{deliveries}
use chat_server.Chat.Send.Message.{send-Filled}
use chat_server.Chat.Line.{
  int_rounds, find_newline, literal_at, nstring_at, clock_at, line_rest, take_line, send_line,
  check_line_and_send,
}
use chat_server.Chat.Invariant.{
  View, IsServer, IsPool-frame, ArePools, ArePools-frame, chunks_of, links, connected,
}

-- What the others read: the name, the time in brackets if there is a clock, and the line.
abbrev pub line_text : Option ℕ → List ℕ → List ℕ → List ℕ
line_text none name line = (name ++ b':' ∷ b' ' ∷ []) ++ line
line_text (some sec) name line =
    (((name ++ b' ' ∷ b'(' ∷ []) ++ clock_text (time_to_tm sec)) ++ b')' ∷ b':' ∷ b' ' ∷ []) ++ line

module _ (base size : ℕ) (m : Mem) (small : size < u64) where
  -- The state of a message under way.
  abbrev pub Holds : List ℕ → Mem × ℕ → Type 0
  Holds text r = Filled base size m r.0 r.1 text

  pub literal_at-Holds :
      (xs text : List ℕ) (r : Mem × ℕ)
      → Holds text r
      → length text + length xs ≤ size
      → Holds (text ++ xs) (literal_at (unsafe_slice base size) xs r)
  literal_at-Holds xs text (m', i) f room =
      let p =
        literal_fills base size m m' i text f xs small
          (omega (arith, Filled-length base size m m' i text f)) in
      rw p.0 p.1

  pub nstring_at-Holds :
      (src n : ℕ) (text : List ℕ) (r : Mem × ℕ)
      → Holds text r
      → length text + n ≤ size
      → (src + n ≤ base) ⊎ (base + size ≤ src)
      → Holds (text ++ bytes m src n) (nstring_at (unsafe_slice base size) src n r)
  nstring_at-Holds src n text (m', i) f room apart =
      let p =
        nstring_fills base size m m' i text f src n small
          (omega (arith, Filled-length base size m m' i text f)) apart in
      rw p.0 p.1

  clock_at-Holds :
      (sec : ℕ) (text : List ℕ) (r : Mem × ℕ)
      → Holds text r
      → length text + 12 ≤ size
      → Holds (text ++ clock_text (time_to_tm sec)) (clock_at (unsafe_slice base size) sec r)
  clock_at-Holds sec text (m', i) f room =
      let d = time_to_tm-time sec in
      let count = Filled-length base size m m' i text f in
      let p =
        tm_in_slice2-clock_text (base + i) (size - i) m' (omega arith) (time_to_tm sec)
          (omega arith) d.2 d.1 d.0 in
      rw (slice_left_rest base size i f.fits small)
        (Filled-nested base size m m' _ i _ text (clock_text (time_to_tm sec)) f p.1)

  line_rest-Holds :
      (clock : Option ℕ) (src n : ℕ) (name : List ℕ) (r : Mem × ℕ)
      → Holds name r
      → length name + 17 + n ≤ size
      → (src + n ≤ base) ⊎ (base + size ≤ src)
      → Holds
          (line_text clock name (bytes m src n))
          (line_rest clock (unsafe_slice base size) src n r)
  unfolding line_rest
  line_rest-Holds none src n name r f room apart =
      nstring_at-Holds src n (name ++ b':' ∷ b' ' ∷ []) _
        (literal_at-Holds (b':' ∷ b' ' ∷ []) name r f (omega arith))
        (omega (arith, length-append name (b':' ∷ b' ' ∷ []))) apart
  line_rest-Holds (some sec) src n name r f room apart =
      let t = time_to_tm sec in
      let text1 = name ++ b' ' ∷ b'(' ∷ [] in
      let text2 = text1 ++ clock_text t in
      let text3 = text2 ++ b')' ∷ b':' ∷ b' ' ∷ [] in
      let l1 : length text1 ≡ length name + 2 = length-append name (b' ' ∷ b'(' ∷ []) in
      let l2 : length text2 ≤ length text1 + 12 =
        omega (
          arith,
          length-append text1 (clock_text t),
          clock_text-length t (time_to_tm-time sec).2,
        ) in
      let l3 : length text3 ≡ length text2 + 3 = length-append text2 (b')' ∷ b':' ∷ b' ' ∷ []) in
      let f1 = literal_at-Holds (b' ' ∷ b'(' ∷ []) name r f (omega arith) in
      let f2 = clock_at-Holds sec text1 _ f1 (omega arith) in
      let f3 = literal_at-Holds (b')' ∷ b':' ∷ b' ' ∷ []) text2 _ f2 (omega arith) in
      nstring_at-Holds src n text3 _ f3 (omega arith) apart

find_newline_first :
    (left : ℕ) (m : Mem) (buf i p : ℕ)
    → i ≤ p
    → p < i + left
    → m (buf + p) ≡ 10
    → ((j : ℕ) → j < p → m (buf + j) ≢ 10)
    → find_newline left m buf i ≡ some p
unfolding find_newline
find_newline_first zero m buf i p le lt nl first = absurd (omega arith)
find_newline_first (suc left) m buf i p le lt nl first =
    ground (arith, first i, find_newline_first left m buf (i + 1) p)

-- What the loop answers: nothing, or the first line end.
pub find_newline-cases :
    (left : ℕ) (m : Mem) (buf i : ℕ)
    → (find_newline left m buf i ≡ none)
      ⊎ ((p : ℕ) × (find_newline left m buf i ≡ some p)
          × (i ≤ p)
          × (p < i + left)
          × (m (buf + p) ≡ 10)
          × ((j : ℕ) → i ≤ j → j < p → m (buf + j) ≢ 10))
unfolding find_newline
find_newline-cases zero m buf i = inl refl
find_newline-cases (suc left) m buf i = elim (Bool-cases (m (buf + i) == 10)) [
  | inl hit ↦
      inr (i, rw hit refl, omega arith, omega arith, ground arith, λ j le lt. absurd (omega arith))
  | inr miss ↦ elim (find_newline-cases left m buf (i + 1)) [
    | inl e ↦ inl (rw miss e)
    | inr (p, e, le, lt, nl, first) ↦
        inr (p, rw miss e, omega arith, omega arith, nl, λ j l r. ground (arith, first j))
  ]
]

-- A change of the fields that a client has for its buffer does no harm: its chunk is not free.
pub ArePools-buffer :
    (cs cs' : Clients) (ps : List ClientPool) (vs : List View) (c : ℕ)
    → ArePools cs ps vs
    → Distinct (chunks_of vs)
    → has c (connected vs) ≡ true
    → ((a : ℕ) → links cs' a ≡ links cs a)
    → ((a : ℕ) → a ≢ c → load_link cs' a ≡ load_link cs a)
    → ArePools cs' ps vs
ArePools-buffer cs cs' [] [] c i d h same_next same_link = tt
ArePools-buffer cs cs' [] (v ∷ vs) c i d h same_next same_link = i
ArePools-buffer cs cs' (clp ∷ ps) [] c i d h same_next same_link = i
ArePools-buffer cs cs' (clp ∷ ps) (v ∷ vs) c i d h same_next same_link =
    let behind = Distinct-right v.used (v.free ++ chunks_of vs) d in
    elim (Bool-cases (has c v.used)) [
      | inl here ↦
          let out =
            not-has-append c v.free (chunks_of vs)
              (Distinct-Apart v.used (v.free ++ chunks_of vs) d c here) in
          (
            IsPool-frame cs cs' clp v i.0 (λ a k. same_next a)
                (λ a k. same_link a (ground (arith, out.0))),
            ArePools-frame cs cs' ps vs i.1
                (λ a k. (same_next a, same_link a (ground (arith, out.1)))),
          )
      | inr not_here ↦
          let later : has c (connected vs) ≡ true =
            ground (arith, has-append c v.used (connected vs)) in
          let out : has c v.free ≡ false = elim (Bool-cases (has c v.free)) [
            | inl free ↦ absurd (
                ground (
                  arith,
                  connected_is_chunk c vs (Distinct-Apart v.free (chunks_of vs) behind c free),
                ))
            | inr not_free ↦ not_free
          ] in
          (
            IsPool-frame cs cs' clp v i.0 (λ a k. same_next a)
                (λ a k. same_link a (ground (arith, out))),
            ArePools-buffer cs cs' ps vs c i.1 (Distinct-right v.free (chunks_of vs) behind) later
                same_next same_link,
          )
    ]

-- A client with a line of p bytes and '\n' in its buffer and a name of k bytes, whose struct is
-- apart from the handler's array.
pub record HasLine (w : World) (c p k : ℕ) : Type 0 where
  pub apart : (c + client_size ≤ w.stack) ⊎ (w.stack + 561 ≤ c)
  pub name : IsCString w.mem (name_of c) k
  pub name_fits : k < max_name_len
  pub used : p < (w.clients c).buf_used
  pub used_fits : (w.clients c).buf_used ≤ max_line_len
  pub newline : w.mem (buf_of c + p) ≡ 10
  pub first : (j : ℕ) → j < p → w.mem (buf_of c + j) ≢ 10

-- What sending that line leaves.
pub record SendsLine (clock : Option ℕ) (c p k : ℕ) (w : World) (vs : List View) (r : Run World)
    : Type 0 where
  pub after : World
  pub returns : r ≡ ok after
  pub well_formed : IsServer after vs
  pub sent :
      after.out
      ≡ w.out
        ++ deliveries w.clients
            (line_text clock (bytes w.mem (name_of c) k) (bytes w.mem (buf_of c) (p + 1)))
            c
            (connected vs)
  pub used_left : (after.clients c).buf_used ≡ (w.clients c).buf_used - (p + 1)
  pub bytes_left :
      bytes after.mem (buf_of c) ((w.clients c).buf_used - (p + 1))
      ≡ bytes w.mem (buf_of c + (p + 1)) ((w.clients c).buf_used - (p + 1))
  pub after_is : after ≡ record w {
    clients =
        update w.clients c (record (w.clients c) { buf_used = (w.clients c).buf_used - (p + 1) });
    mem = after.mem;
    out = after.out;
  }
  pub same_mem :
      (x : ℕ)
      → inside w.stack 561 x ≡ false
      → inside (buf_of c) max_line_len x ≡ false
      → after.mem x ≡ w.mem x

module _ (clock : Option ℕ) (c p k : ℕ) (w : World) (vs : List View) (i : IsServer w vs)
    (h : HasLine w c p k) where
  named_Filled :
      let s = unsafe_slice w.stack 561 in
      (r : Mem × ℕ) × (c_string_in_slice w.mem s (name_of c) ≡ some r)
      × Filled w.stack 561 w.mem r.0 r.1 (bytes w.mem (name_of c) k)
  named_Filled =
      let q =
        nstring_starts w.stack 561 w.mem (name_of c) k (omega arith) (omega (arith, h.name_fits))
          (omega (arith, h.name_fits, h.apart)) in
      let e =
        c_string_in_slice_finds w.mem (unsafe_slice w.stack 561) (name_of c) k (omega arith)
          (omega (arith, h.name_fits)) h.name in
      (c_nstring_in_slice w.mem (unsafe_slice w.stack 561) (name_of c) k, e, rw q.0 q.1)

  send_line-deliveries :
      (m : Mem) × (send_line clock c (p + 1) w
        ≡ ok (
            emit
              (record w { mem = m })
              (deliveries w.clients
                (line_text clock (bytes w.mem (name_of c) k) (bytes w.mem (buf_of c) (p + 1)))
                c
                (connected vs))))
      × SameOutside w.stack 561 w.mem m
  unfolding send_line
  send_line-deliveries =
      let (r, e, f) = named_Filled in
      let s = unsafe_slice w.stack 561 in
      let g =
        line_rest-Holds w.stack 561 w.mem (omega arith) clock (buf_of c) (p + 1)
          (bytes w.mem (name_of c) k) r f
          (omega (arith, length-bytes w.mem (name_of c) k, h.name_fits, h.used, h.used_fits))
          (omega (arith, h.apart, h.used, h.used_fits)) in
      let q = line_rest clock s (buf_of c) (p + 1) r in
      (q.0, rw e (send-Filled w vs i w.stack 561 q.1 c w.mem q.0 _ g), g.outside)

-- On well formed pools, a connected client's line, with or without a clock, is sent to all others
-- behind the client's name, and is taken out of the client's buffer, of which the bytes behind the
-- line move to the front. The pools stay well formed. The line is the first one in the buffer; the
-- client's struct is apart from the handler's array, and its name has at most 31 bytes and ends in a
-- zero byte.
pub check_line_and_send-SendsLine :
    (clock : Option ℕ) (c p k : ℕ) (w : World) (vs : List View)
    → IsServer w vs
    → has c (connected vs) ≡ true
    → HasLine w c p k
    → SendsLine clock c p k w vs (check_line_and_send clock c w)
unfolding take_line check_line_and_send
check_line_and_send-SendsLine clock c p k w vs i in_chat h =
    let (m, e, out) = send_line-deliveries clock c p k w vs i h in
    let n = (w.clients c).buf_used in
    let found : find_newline (int_rounds n) w.mem (buf_of c) 0 ≡ some p =
      find_newline_first (int_rounds n) w.mem (buf_of c) 0 p (omega arith)
        (ground (arith, h.used, h.used_fits)) h.newline h.first in
    let w1 =
      emit (record w { mem = m })
        (deliveries w.clients
          (line_text clock (bytes w.mem (name_of c) k) (bytes w.mem (buf_of c) (p + 1))) c
          (connected vs)) in
    let w2 = take_line c (p + 1) w1 in
    record {
      after = w2;
      returns = rw (check_line_and_send, found, e) refl;
      well_formed = record {
        pools =
            ArePools-buffer w.clients w2.clients w.pools vs c i.pools i.distinct in_chat
              (λ a. ground arith) (λ a ne. ground arith);
        distinct = i.distinct;
      };
      sent = refl;
      used_left = ground arith;
      bytes_left = rw (memmove_mem m (buf_of c) (buf_of c + (p + 1)) (n - (p + 1))) (
          bytes-moved_self m (buf_of c) (buf_of c + (p + 1)) (n - (p + 1))
          ∙ bytes_outside w.stack 561 w.mem m (buf_of c + (p + 1)) (n - (p + 1)) out
              (omega (arith, h.apart, h.used, h.used_fits)));
      after_is = refl;
      same_mem = λ x k l.
          rw (memmove_mem m (buf_of c) (buf_of c + (p + 1)) (n - (p + 1)))
            (ground (arith, out x k, h.used_fits));
    }
