-- ===== src/Chat/Close/Session.antt =====
-- `session_close` as a whole: what is sent, what is closed and unmapped, and what is left.
use chat_server.Base.{
  ℕ, ◌+◌, ◌≤◌, ◌≡◌, ◌≢◌, true, refl, ◌⊎◌, List, [], ◌∷◌, ◌++◌, arith, ◌==◌, if◌then◌else◌, length,
  erase, Bool-cases, inl, inr, append_assoc, append-nil,
}
use chat_server.Memory.{Mem, bytes}
use chat_server.Builtin.Slices.{unsafe_slice, slice_left, c_nstring_in_slice, literal_in_slice}
use chat_server.Builtin.Slices.Fill.{SameOutside, nstring_starts, literal_fills}
use chat_server.Chat.State.{Out, close, World, Run, ok, emit, client_size, name_of, max_name_len}
use chat_server.Chat.Send.Laws.{deliveries}
use chat_server.Chat.Send.Message.{send-Filled}
use chat_server.Chat.Close.{left_msg, say_left, session_close}
use chat_server.Chat.Close.Laws.{close_views, given_up, Kept, close_pools-Closed}
use chat_server.Chat.Close.Views.{close_views-Distinct, connected-close_views}
use chat_server.Chat.Frame.{msg_size}
use chat_server.Chat.Invariant.{View, IsServer, chunks_of, connected}

-- A client whose struct does not overlap the handler's array, and whose name, if it has one, is
-- within its own.
pub record IsClient (w : World) (c : ℕ) : Type 0 where
  pub apart : (c + client_size ≤ w.stack) ⊎ (w.stack + msg_size ≤ c)
  pub name_fits : ((w.clients c).name_ok ≢ 1) ⊎ ((w.clients c).name_used ≤ max_name_len)

-- What the others read when the client leaves: nothing, if it never gave a name.
abbrev pub farewell : World → ℕ → List View → List Out
farewell w c vs =
    if (w.clients c).name_ok == 1
    then deliveries w.clients (bytes w.mem (name_of c) (w.clients c).name_used ++ left_msg) c
        (connected vs)
    else []

module _ (w : World) (c : ℕ) (vs : List View) (i : IsServer w vs) (k : IsClient w c) where
  say_left-deliveries :
      ((w.clients c).name_ok == 1) ≡ true
      → (m : Mem) × (say_left c w
          ≡ ok (
              emit
                (record w { mem = m })
                (deliveries w.clients
                  (bytes w.mem (name_of c) (w.clients c).name_used ++ left_msg)
                  c
                  (connected vs))))
        × SameOutside w.stack msg_size w.mem m
  unfolding say_left
  say_left-deliveries is_named =
      let fits : (w.clients c).name_used ≤ max_name_len = ground (arith, k.name_fits) in
      let n = (w.clients c).name_used in
      let s = unsafe_slice w.stack 532 in
      let r1 = c_nstring_in_slice w.mem s (name_of c) n in
      let p1 =
        nstring_starts w.stack 532 w.mem (name_of c) n (omega arith) (omega (arith, fits))
          (omega (arith, fits, k.apart)) in
      let r2 = literal_in_slice r1.0 (slice_left s n) left_msg 19 in
      let p2 =
        literal_fills w.stack 532 w.mem r1.0 n (bytes w.mem (name_of c) n) p1.1 left_msg
          (omega arith) (omega (arith, fits)) in
      (
        r2.0,
        rw (p1.0, p2.0)
            (send-Filled w vs i w.stack 532 (n + 19) c w.mem r2.0
              (bytes w.mem (name_of c) n ++ left_msg) p2.1),
        λ a h. p2.1.outside a (ground arith),
      )

  said :
      (m : Mem) × ((if (w.clients c).name_ok == 1 then say_left c w else ok w)
        ≡ ok (emit (record w { mem = m }) (farewell w c vs)))
      × SameOutside w.stack msg_size w.mem m
  said = elim (Bool-cases ((w.clients c).name_ok == 1)) [
    | inl named ↦ let (m, e, out) = say_left-deliveries named in (m, rw (named, e), out)
    | inr nameless ↦ (w.mem, rw (nameless, append-nil w.out), λ a h. refl)
  ]

-- What `session_close` leaves.
pub record Closes (c : ℕ) (w : World) (vs : List View) (r : Run World) : Type 0 where
  pub after : World
  pub returns : r ≡ ok after
  pub well_formed : IsServer after (close_views (length w.pools) c vs)
  pub sent :
      after.out
      ≡ w.out
        ++ (farewell w c vs ++ close (w.clients c).fd ∷ given_up (length w.pools) c w.pools vs)
  pub kept : Kept c (chunks_of vs) w.clients after.clients
  pub memory : SameOutside w.stack msg_size w.mem after.mem
  pub same_stack : after.stack ≡ w.stack

-- On well formed pools, and for a client whose struct is apart from the handler's array and whose
-- name, if it has one, is within its own, `session_close` ends. It says farewell to the others if
-- the client had a name, closes its descriptor, unmaps the first page of a pool that it has
-- emptied, unless that is the only one, and leaves well formed pools in which the chunk is free.
pub session_close-Closes :
    (c : ℕ) (w : World) (vs : List View)
    → IsServer w vs
    → IsClient w c
    → Closes c w vs (session_close c w)
unfolding session_close
session_close-Closes c w vs i k =
    let n = length w.pools in
    let r = close_pools-Closed n c w.clients w.pools vs i.pools i.distinct in
    let (m, e, out) = said w c vs i k in
    let parting = close (w.clients c).fd ∷ given_up n c w.pools vs in
    record {
      after = record w {
        clients = r.clients;
        mem = m;
        pools = r.pools;
        out = (w.out ++ farewell w c vs) ++ parting;
      };
      returns = rw (e, r.returns);
      well_formed = record {
        pools = r.well_formed;
        distinct = close_views-Distinct n c vs i.distinct;
      };
      sent = append_assoc w.out (farewell w c vs) parting;
      kept = r.kept;
      memory = out;
      same_stack = refl;
    }

-- On well formed pools, and for a client whose struct is apart from the handler's array and whose
-- name, if it has one, is within its own, `session_close` ends and leaves well formed pools, in
-- which all clients but the one are connected, in the same order.
pub session_close-connected :
    (c : ℕ) (w : World) (vs : List View)
    → IsServer w vs
    → IsClient w c
    → (w' : World) × (vs' : List View) × (session_close c w ≡ ok w')
      × IsServer w' vs'
      × (connected vs' ≡ erase c (connected vs))
session_close-connected c w vs i k =
    let r = session_close-Closes c w vs i k in
    (
      r.after,
      close_views (length w.pools) c vs,
      r.returns,
      r.well_formed,
      connected-close_views (length w.pools) c vs i.distinct,
    )
