-- ===== src/Chat/Server/Accepting.antt =====
-- `server_handle` keeps the server running.
use chat_server.Base.{
  none, ap, Option, subst, sym, has-erase_self, ℕ, ◌≡◌, ◌≢◌, inl, inr, refl, ◌∙◌, true, false, Bool,
  some, List, [], ◌∷◌, ◌++◌, arith, ◌==◌, if◌then◌else◌, has, Bool-cases,
}
use chat_server.Chat.State.{Client, Out, write, close, watch, World, Run, ok, stopped, exited, emit}
use chat_server.Chat.New.Session.{reused, grown, refused, unmapped, session_new-NewOutcome}
use chat_server.Chat.Close.Safe.{Leaves, session_close-Leaves, connected-has}
use chat_server.Chat.Watch.{Table, unwatched, interest, interest-append, AreWatched}
use chat_server.Chat.Frame.{IsRunning}
use chat_server.Chat.Own.{own_change}
use chat_server.Chat.Room.{Room, room, room_same, enter-room, present-room}
use chat_server.Chat.Server.History.{Visit, turned_away, arrives, Visits, no_more, visit}
use chat_server.Chat.Close.Safe.{connected-Distinct}
use chat_server.Chat.Handler.{has-erase_other}
use chat_server.Chat.Server.Fresh.{IsFree, IsNew, reused-IsNew}
use chat_server.Chat.Server.Grown.{grown-IsNew}
use chat_server.Chat.Server.{
  session_close, Accept, accepted, greeted, greeting, limit_conn_msg, accept_one, server_handle,
}
use chat_server.Chat.Invariant.{View, connected, IsServer}

-- The kernel's promise for the mapping that a connection may need.
abbrev pub MapsFree : Accept → World → Type 0
MapsFree Accept.refused w = Unit {0}
MapsFree (accepted fd mapping registered) w =
    (vs : List View) → IsServer w vs → (buf : ℕ) → mapping ≡ some buf → IsFree w vs buf

-- Who was connected still is.
abbrev pub KeepsConnected : List View → List View → Type 0
KeepsConnected vs vs' = (a : ℕ) → has a (connected vs) ≡ true → has a (connected vs') ≡ true

-- The server goes on, or ends since all its pools are full and there is no memory for another.
pub data Served (P : Room → Room → Type 0) (w : World) (vs : List View) (r : Run World)
    : Type 0 where
  goes_on :
      (w' : World) (vs' : List View)
      → r ≡ ok w'
      → IsRunning w' vs'
      → KeepsConnected vs vs'
      → P (room vs) (room vs')
      → ((serv : ℕ) → AreWatched serv w vs → AreWatched serv w' vs')
      → Served P w vs r
  no_memory : r ≡ stopped (exited 1) → Served P w vs r

pub emit-IsRunning :
    (w : World) (vs : List View) (os : List Out) → IsRunning w vs → IsRunning (emit w os) vs
emit-IsRunning w vs os i = record {
  safe = record {
    server = record { pools = i.safe.server.pools; distinct = i.safe.server.distinct };
    few = i.safe.few;
    sound = λ a h. let s = i.safe.sound a h in record { apart = s.apart; name = s.name };
    spaced = i.safe.spaced;
  };
  counts = i.counts;
}

module _ (w w1 : World) (vs vs1 : List View) (c : ℕ) (i : IsRunning w vs) (n : IsNew w vs c w1 vs1)
    (same_out : w1.out ≡ w.out) where
  connected_now : has c (connected vs1) ≡ true
  connected_now = ground (arith, n.members c)

  pub greeted-IsRunning : (fd : ℕ) → IsRunning (greeted w1 c fd) vs1
  greeted-IsRunning fd =
      let v : Client = record (w1.clients c) {
        fd = fd;
        buf_used = 0;
        name_used = 0;
        name_ok = 0;
      } in
      let p =
        own_change c w1 vs1 n.safe connected_now v w1.mem
          (w1.out ++ watch fd c ∷ write fd greeting ∷ []) refl (λ x h k. refl) (inl refl) in
      record {
        safe = p.0;
        counts = λ a there. elim (Bool-cases (a == c)) [
          | inl same ↦ ground arith
          | inr other ↦
              let old : has a (connected vs) ≡ true = ground (arith, n.members a) in
              ground (arith, i.counts a old, n.same_rest a old)
        ];
      }

  -- The new descriptor is the new client's.
  greeted-AreWatched : (fd serv : ℕ) → AreWatched serv w vs → AreWatched serv (greeted w1 c fd) vs1
  greeted-AreWatched fd serv k a p e =
      let table : interest (greeted w1 c fd).out unwatched a
          ≡ (if a == fd then some c else interest w.out unwatched a) =
        ap (λ (t : Table). t a)
          (interest-append w1.out (watch fd c ∷ write fd greeting ∷ []) unwatched)
        ∙ rw same_out refl in
      elim (Bool-cases (a == fd)) [
        | inl same ↦
            let pointer : some c ≡ some p = sym (table ∙ rw same refl) ∙ e in
            let own : c ≡ p = cc (pointer) in
            inr (ground (arith, connected_now, own), ground (arith, same, own))
        | inr other ↦ elim (k a p (sym (table ∙ rw other refl) ∙ e)) [
          | inl server ↦ inl server
          | inr (there, d) ↦
              let ne : p ≢ c = λ q.
                let no : has c (connected vs) ≡ true = rw (← q) there in
                let new = n.new in absurd (cc) in
              inr (ground (arith, n.members p, there), ground (arith, n.same_fd p there, d, ne))
        ]
      ]

  -- A client that is closed at once was not watched.
  drops-AreWatched :
      (serv : ℕ) {r : Run World} (l : Leaves c w1 vs1 r)
      → ((a : ℕ) → has a (connected l.views) ≡ has a (connected vs))
      → AreWatched serv w vs
      → AreWatched serv l.after l.views
  drops-AreWatched serv l as_before k a p e =
      let table : interest l.after.out unwatched a
          ≡ (if a == (w1.clients c).fd then none else interest w.out unwatched a) =
        ap (λ (t : Table). t a) (l.hung.table unwatched) ∙ rw same_out refl in
      elim (Bool-cases (a == (w1.clients c).fd)) [
        | inl same ↦ let no : none ≡ some p = sym (table ∙ rw same refl) ∙ e in absurd (cc)
        | inr other ↦ elim (k a p (sym (table ∙ rw other refl) ∙ e)) [
          | inl server ↦ inl server
          | inr (there, d) ↦
              let ne : p ≢ c = λ q.
                let no : has c (connected vs) ≡ true = rw (← q) there in
                let new = n.new in absurd (cc) in
              inr (as_before p ∙ there, l.hung.same_fd p ne ∙ (n.same_fd p there ∙ d))
        ]
      ]

  welcomes :
      (fd : ℕ) (mapping : Option ℕ)
      → Served (Visit (accepted fd mapping true)) w vs (ok (greeted w1 c fd))
  welcomes fd mapping =
      goes_on (greeted w1 c fd) vs1 refl (greeted-IsRunning fd) (λ a h. ground (arith, n.members a))
        (subst (λ r. Visit (accepted fd mapping true) (room vs) r) (enter-room c vs vs1 n.members)
          (arrives fd mapping c (room vs) (present-room c vs ∙ n.new)))
        (λ serv i. greeted-AreWatched fd serv i)

  drops : (a : Accept) → Served (Visit a) w vs (session_close c w1)
  drops answer = went (session_close-Leaves c w1 vs1 n.safe (connected-has c vs1 connected_now))
    where
      went : {r : Run World} → Leaves c w1 vs1 r → Served (Visit answer) w vs r
      went l =
          let gone : has c (connected l.views) ≡ false =
            rw l.still
              (has-erase_self c (connected vs1) (connected-Distinct vs1 n.safe.server.distinct)) in
          let as_before : (a : ℕ) → has a (connected l.views) ≡ has a (connected vs) = λ a.
            elim (Bool-cases (a == c)) [
              | inl same ↦ let e : a ≡ c = ground arith in rw (e, gone, n.new) refl
              | inr other ↦
                  let still : has a (connected l.views) ≡ has a (connected vs1) =
                    rw l.still (has-erase_other a c (connected vs1) (ground arith)) in
                  still ∙ ground (arith, n.members a)
            ] in
          goes_on l.after l.views l.returns
            (record {
              safe = l.safe;
              counts = λ a there.
                  let old : has a (connected vs) ≡ true = sym (as_before a) ∙ there in
                  let ne : a ≢ c =
                    λ e. let no : has a (connected vs) ≡ false = rw e n.new in absurd (cc) in
                  ground (arith, l.confined.same_rest a ne, i.counts a old, n.same_rest a old);
            })
            (λ a there. as_before a ∙ there)
            (subst (λ r. Visit answer (room vs) r) (room_same vs l.views as_before)
              (turned_away answer (room vs)))
            (λ serv i. drops-AreWatched serv l as_before i)

  answers :
      (fd : ℕ) (mapping : Option ℕ) (registered : Bool)
      → Served
          (Visit (accepted fd mapping registered))
          w
          vs
          (if registered then ok (greeted w1 c fd) else session_close c w1)
  answers fd mapping true = welcomes fd mapping
  answers fd mapping false = drops (accepted fd mapping false)

refused-AreWatched :
    (fd serv : ℕ) (w : World) (vs : List View)
    → AreWatched serv w vs
    → AreWatched serv (emit w (write fd limit_conn_msg ∷ close fd ∷ [])) vs
refused-AreWatched fd serv w vs k a p e =
    let table =
      ap (λ (t : Table). t a)
        (interest-append w.out (write fd limit_conn_msg ∷ close fd ∷ []) unwatched) in
    elim (Bool-cases (a == fd)) [
      | inl same ↦ let no : none ≡ some p = sym (table ∙ rw same refl) ∙ e in absurd (cc)
      | inr other ↦ k a p (sym (table ∙ rw other refl) ∙ e)
    ]

-- One connection, with any answers of the kernel.
pub accept_one-Served :
    (a : Accept) (w : World) (vs : List View)
    → IsRunning w vs
    → MapsFree a w
    → Served (Visit a) w vs (accept_one a w)
unfolding accept_one
accept_one-Served Accept.refused w vs i k =
    goes_on w vs refl i (λ a h. h) (turned_away Accept.refused (room vs)) (λ serv k. k)
accept_one-Served (accepted fd mapping registered) w vs i k =
    elim (session_new-NewOutcome mapping w vs i.safe.server
      (λ buf e. (k vs i.safe.server buf e).mapping)) [
        | reused c w1 vs1 e ne t j l same o ↦
            let nz : (c == 0) ≡ false = ground arith in
            rw (e, nz)
              (answers w w1 vs vs1 c i (reused-IsNew w w1 vs vs1 c i.safe ne t j l same) o fd
                mapping registered)
        | grown c w1 rest buf e ne full room m f j only o ↦
            let nz : (c == 0) ≡ false = ground arith in
            rw (e, nz)
              (answers w w1 vs _ c i
                (grown-IsNew w w1 vs c buf rest i.safe (k vs i.safe.server buf m) f only ne room j)
                o fd mapping registered)
        | refused e full n ↦ rw e (
            goes_on (emit w (write fd limit_conn_msg ∷ close fd ∷ [])) vs refl
              (emit-IsRunning w vs _ i) (λ a h. h) (turned_away _ (room vs))
              (λ serv k. refused-AreWatched fd serv w vs k))
        | unmapped e full n m ↦ rw e (no_memory refl)
      ]

-- The kernel's promises along a run of accepts.
abbrev pub MapFree : List Accept → World → Type 0
MapFree [] w = Unit {0}
MapFree (a ∷ more) w = MapsFree a w × ((w' : World) → accept_one a w ≡ ok w' → MapFree more w')

-- What was connected before the first connection still is after the others.
pub then_served :
    (a : Accept) (more : List Accept) (w w1 : World) (vs vs1 : List View)
    → KeepsConnected vs vs1
    → Visit a (room vs) (room vs1)
    → ((serv : ℕ) → AreWatched serv w vs → AreWatched serv w1 vs1)
    → {r : Run World} → Served (Visits more) w1 vs1 r
    → Served (Visits (a ∷ more)) w vs r
then_served a more w w1 vs vs1 keeps p k (goes_on w2 vs2 e i keeps' q l) =
    goes_on w2 vs2 e i (λ a h. keeps' a (keeps a h)) (visit p q) (λ serv i. l serv (k serv i))
then_served a more w w1 vs vs1 keeps p k (no_memory e) = no_memory e

-- From a running server and with mappings that keep the kernel's promise, `server_handle` leaves a
-- running server in which all that were connected still are and into which at most one client has
-- come for each connection, and what is watched still belongs to connected clients, if it did before;
-- or the process ends with code 1 for want of memory.
pub server_handle-Served :
    (bs : List Accept) (w : World) (vs : List View)
    → IsRunning w vs
    → MapFree bs w
    → Served (Visits bs) w vs (server_handle bs w)
unfolding server_handle
server_handle-Served [] w vs i k = goes_on w vs refl i (λ a h. h) (no_more (room vs)) (λ serv k. k)
server_handle-Served (a ∷ more) w vs i k = elim (accept_one-Served a w vs i k.0) [
  | no_memory e ↦ rw e (no_memory refl)
  | goes_on w1 vs1 e i1 keeps p l ↦
      rw e
        (then_served a more w w1 vs vs1 keeps p l (server_handle-Served more w1 vs1 i1 (k.1 w1 e)))
]
