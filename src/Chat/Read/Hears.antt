-- ===== src/Chat/Read/Hears.antt =====
-- What all others read when a client's bytes arrive.
use chat_server.Base.{
  ℕ, ◌+◌, ◌-◌, ◌≤◌, ◌≡◌, inl, inr, refl, ap, ap₂, ◌∙◌, false, Option, List, [], ◌∷◌, ◌++◌, arith,
  ltb, length, take, take_all,
}
use chat_server.Memory.Laws.{bytes-append}
use chat_server.Memory.Split.{before}
use chat_server.Builtin.Slices.{put}
use chat_server.Builtin.Slices.Fill.{put_outside, bytes-put, bytes_outside}
use chat_server.Chat.State.{Clients, World, Run, ok, buf_of, name_of, update}
use chat_server.Chat.Send.Laws.{deliveries}
use chat_server.Chat.Line.Says.{
  is_zero, IsNamed, pending, name_bytes, Says-name_bytes, shown_name, speech, told,
  check_line_and_send-Says,
}
use chat_server.Chat.Read.{Answer, interrupted, got, going, line_got, line_loop, session_line_read}
use chat_server.Chat.Read.Lines.{line_read, line_read-IsNamed}
use chat_server.Chat.Invariant.{View, connected}

-- A wake-up in which one read gives the bytes, and the others are interrupted.
pub data OneRead (sent : List ℕ) : List Answer → Type 0 where
  once : OneRead sent (got sent ∷ [])
  again : {answers : List Answer} → OneRead sent answers → OneRead sent (interrupted ∷ answers)

-- Who receives a message depends on the clients' descriptors alone.
pub deliveries_same :
    (cs cs' : Clients) (msg : List ℕ) (c : ℕ) (xs : List ℕ)
    → ((a : ℕ) → (cs' a).fd ≡ (cs a).fd)
    → deliveries cs' msg c xs ≡ deliveries cs msg c xs
deliveries_same cs cs' msg c [] h = refl
deliveries_same cs cs' msg c (x ∷ xs) h = ground (arith, h x, deliveries_same cs cs' msg c xs h)

pub told_same :
    (cs cs' : Clients) (msgs : List (List ℕ)) (c : ℕ) (xs : List ℕ)
    → ((a : ℕ) → (cs' a).fd ≡ (cs a).fd)
    → told cs' msgs c xs ≡ told cs msgs c xs
told_same cs cs' [] c xs h = refl
told_same cs cs' (msg ∷ msgs) c xs h =
    ap₂ ◌++◌ (deliveries_same cs cs' msg c xs h) (told_same cs cs' msgs c xs h)

-- What the handler leaves when the client has sent more bytes: the bytes are put behind those that
-- are pending, and then what `speech` says is told.
pub record Hears (clock : Option ℕ) (c : ℕ) (sent : List ℕ) (w : World) (vs : List View)
    (r : Run World) : Type 0 where
  pub after : World
  pub returns : r ≡ ok after
  pub named : IsNamed after vs c
  pub told_others :
      after.out
      ≡ w.out
        ++ told w.clients (speech clock (shown_name w c) (pending w c ++ sent)).0 c (connected vs)
  pub held : pending after c ≡ (speech clock (shown_name w c) (pending w c ++ sent)).1
  pub same_name : name_bytes after c ≡ name_bytes w c
  pub same_fds : (a : ℕ) → (after.clients a).fd ≡ (w.clients a).fd
  pub same_pools : after.pools ≡ w.pools

module _ (clock : Option ℕ) (c : ℕ) (vs : List View) where
  -- The bytes are behind the pending ones.
  line_read-pending :
      (bs : List ℕ) (w : World)
      → pending (line_read c bs (w.clients c).buf_used w.out w) c ≡ pending w c ++ bs
  line_read-pending bs w =
      let n = (w.clients c).buf_used in
      let count : (update w.clients c (record (w.clients c) { buf_used = n + length bs })
            c).buf_used
          ≡ n + length bs =
        ground arith in
      let m = put w.mem (buf_of c + n) bs in
      rw count (
        bytes-append m (buf_of c) n (length bs)
        ∙ ap₂ ◌++◌
            (bytes_outside (buf_of c + n) (length bs) w.mem m (buf_of c) n
              (put_outside w.mem (buf_of c + n) bs) (inl (omega arith)))
            (bytes-put w.mem (buf_of c + n) bs))

  line_read-name_bytes :
      (bs : List ℕ) (w : World)
      → (w.clients c).buf_used + length bs ≤ 512
      → name_bytes (line_read c bs (w.clients c).buf_used w.out w) c ≡ name_bytes w c
  line_read-name_bytes bs w fits =
      let n = (w.clients c).buf_used in
      let count : (update w.clients c (record (w.clients c) { buf_used = n + length bs })
            c).name_used
          ≡ (w.clients c).name_used =
        ground arith in
      rw count (
        bytes_outside (buf_of c + n) (length bs) w.mem (put w.mem (buf_of c + n) bs) (name_of c)
          (w.clients c).name_used (put_outside w.mem (buf_of c + n) bs) (inr (omega (arith, fits))))

  line_loop_once :
      (x : ℕ) (xs : List ℕ) (w : World) (answers : List Answer)
      → OneRead (x ∷ xs) answers
      → (w.clients c).buf_used + length (x ∷ xs) ≤ 512
      → line_loop clock answers c (w.clients c).buf_used w
        ≡ ok (going (line_read c (x ∷ xs) (w.clients c).buf_used w.out w))
  unfolding line_loop line_got
  line_loop_once x xs w answers once fits =
      let all : take (512 - (w.clients c).buf_used) (x ∷ xs) ≡ x ∷ xs =
        take_all _ (x ∷ xs) (omega (arith, fits)) in
      let short : ltb 512 ((w.clients c).buf_used + length (x ∷ xs)) ≡ false =
        ground (arith, fits) in
      rw (line_loop, all, line_got, short) refl
  line_loop_once x xs w (interrupted ∷ answers) (again o) fits =
      line_loop_once x xs w answers o fits

  -- In a safe state, for a connected client with a name and with its counts within its arrays, and
  -- for a wake-up in which one read gives bytes that fit into its buffer: the bytes are put behind
  -- the pending ones; the first whole line of these is told to all others behind the client's name,
  -- and taken out; the state is safe again.
  pub session_line_read-Hears :
      (x : ℕ) (xs : List ℕ) (answers : List Answer) (w : World)
      → IsNamed w vs c
      → OneRead (x ∷ xs) answers
      → (w.clients c).buf_used + length (x ∷ xs) ≤ 512
      → Hears clock c (x ∷ xs) w vs (session_line_read clock answers c w)
  unfolding session_line_read
  session_line_read-Hears x xs answers w i o fits =
      let bs = x ∷ xs in
      let n = (w.clients c).buf_used in
      let w1 = line_read c bs n w.out w in
      let s =
        check_line_and_send-Says clock c w1 vs (line_read-IsNamed clock c vs bs n w fits fits i) in
      let text = line_read-name_bytes bs w fits in
      let same_name : shown_name w1 c ≡ shown_name w c = ap (before is_zero) text in
      let same_fds : (a : ℕ) → (w1.clients a).fd ≡ (w.clients a).fd = λ a. ground arith in
      let e = line_read-pending bs w in
      rw (line_loop_once x xs w answers o fits, s.returns)
        (record {
          after = s.after;
          returns = refl;
          named = s.named;
          told_others =
              rw (← e, ← same_name)
                (s.sent
                  ∙ ap (λ os. w.out ++ os)
                      (told_same w.clients w1.clients _ c (connected vs) same_fds));
          held = rw (← e, ← same_name) s.held;
          same_name = Says-name_bytes clock c w1 vs _ s ∙ text;
          same_fds = λ a. s.same_fds a ∙ same_fds a;
          same_pools = s.same_pools;
        })
