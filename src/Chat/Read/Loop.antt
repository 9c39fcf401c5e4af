-- ===== src/Chat/Read/Loop.antt =====
-- Reading a name: the loop of `session_name_read` ends and keeps the pools well formed.
use chat_server.Base.{
  ℕ, ◌+◌, ◌-◌, ◌≤◌, ◌≡◌, ◌≢◌, ◌⊎◌, inl, inr, refl, arith, List, [], ◌∷◌, ltb, take, length,
  Bool-cases,
}
use chat_server.Builtin.Slices.{put}
use chat_server.Chat.State.{update, World, Run, ok, emit, write, client_size, max_name_len, name_of}
use chat_server.Chat.Close.{session_close}
use chat_server.Chat.Close.Laws.{close_views}
use chat_server.Chat.Close.Session.{session_close-Closes}
use chat_server.Chat.Read.{
  Answer, interrupted, failed, got, Ended, going, returned, closed, too_long_name, name_got,
  name_loop,
}
use chat_server.Chat.Frame.{msg_size}
use chat_server.Chat.Invariant.{View, IsServer, ArePools-frame}

-- A client without a name, whose struct is apart from the handler's array.
pub record IsNameless (w : World) (c : ℕ) : Type 0 where
  pub apart : (c + client_size ≤ w.stack) ⊎ (w.stack + msg_size ≤ c)
  pub nameless : (w.clients c).name_ok ≢ 1

-- How the loop ends: with all read, and the client still there, or with the client closed.
pub data NameOutcome (n c : ℕ) (vs : List View) (r : Run Ended) : Type 0 where
  stays :
      (w : World)
      → r ≡ ok (going w)
      → IsServer w vs
      → IsNameless w c
      → length w.pools ≡ n
      → NameOutcome n c vs r
  leaves :
      (w : World) → r ≡ ok (returned w) → IsServer w (close_views n c vs) → NameOutcome n c vs r

module _ (c : ℕ) (vs : List View) where
  closed-NameOutcome :
      (w : World)
      → IsServer w vs
      → IsNameless w c
      → NameOutcome (length w.pools) c vs (closed (session_close c w))
  closed-NameOutcome w i k =
      let r =
        session_close-Closes c w vs i (record { apart = k.apart; name_fits = inl k.nameless }) in
      leaves r.after (rw r.returns refl) r.well_formed

  name_got-NameOutcome :
      (bs : List ℕ) (bufn : ℕ) (w : World)
      → IsServer w vs
      → IsNameless w c
      → NameOutcome (length w.pools) c vs (name_got bs c bufn w)
  unfolding name_got
  name_got-NameOutcome [] bufn w i k = closed-NameOutcome w i k
  name_got-NameOutcome (x ∷ xs) bufn w i k =
      let used = (w.clients c).name_used + length (x ∷ xs) in
      let w1 : World = record w {
        clients = update w.clients c (record (w.clients c) { name_used = used });
        mem = put w.mem (name_of c + bufn) (x ∷ xs);
      } in
      let i1 : IsServer w1 vs = record {
        pools =
            ArePools-frame w.clients w1.clients w.pools vs i.pools
              (λ a h. (ground arith, ground arith));
        distinct = i.distinct;
      } in
      let k1 : IsNameless w1 c = record {
        apart = k.apart;
        nameless = ground (arith, k.nameless);
      } in
      let w2 = emit w1 (write (w1.clients c).fd too_long_name ∷ []) in
      elim (Bool-cases (ltb max_name_len used)) [
        | inl long ↦ rw long (
            closed-NameOutcome w2 (record { pools = i1.pools; distinct = i1.distinct })
              (record { apart = k1.apart; nameless = k1.nameless }))
        | inr fits ↦ rw fits (stays w1 refl i1 k1 refl)
      ]

  -- Whatever `sys_read` answers, for a client without a name and on well formed pools the loop ends;
  -- the pools are well formed, and the client is still there, without a name, or closed.
  pub name_loop-NameOutcome :
      (answers : List Answer) (bufn : ℕ) (w : World)
      → IsServer w vs
      → IsNameless w c
      → NameOutcome (length w.pools) c vs (name_loop answers c bufn w)
  unfolding name_loop
  name_loop-NameOutcome [] bufn w i k = stays w refl i k refl
  name_loop-NameOutcome (interrupted ∷ more) bufn w i k = name_loop-NameOutcome more bufn w i k
  name_loop-NameOutcome (failed ∷ more) bufn w i k = closed-NameOutcome w i k
  name_loop-NameOutcome (got sent ∷ more) bufn w i k =
      elim (name_got-NameOutcome (take (max_name_len - bufn) sent) bufn w i k) [
        | stays w1 e i1 k1 same ↦ rw e (rw (← same) (name_loop-NameOutcome more bufn w1 i1 k1))
        | leaves w1 e i1 ↦ rw e (leaves w1 refl i1)
      ]
