-- ===== src/Chat/Send/Laws.antt =====
-- Who receives what `session_send_all` sends.
use chat_server.Base.{
  ℕ, zero, suc, ◌<◌, ◌≡◌, refl, List, [], ◌∷◌, ◌++◌, arith, ◌==◌, if◌then◌else◌, length,
}
use chat_server.Memory.{bytes}
use chat_server.Builtin.Slices.{String}
use chat_server.Chain.{Chain}
use chat_server.Chat.State.{Clients, ClientPool, Out, write, World, ok, rounds, emit}
use chat_server.Chat.Send.{send_chain, send_pools, session_send_all}
use chat_server.Chat.Invariant.{View, links, ArePools, connected, IsServer}

-- One write of the message to each client of the list but one.
abbrev pub deliveries : Clients → List ℕ → ℕ → List ℕ → List Out
deliveries cs msg except [] = []
deliveries cs msg except (x ∷ xs) =
    if except == x
    then deliveries cs msg except xs
    else write (cs x).fd msg ∷ deliveries cs msg except xs

module _ (cs : Clients) (msg : List ℕ) (except : ℕ) where
  pub deliveries-append :
      (xs ys : List ℕ)
      → deliveries cs msg except (xs ++ ys)
        ≡ deliveries cs msg except xs ++ deliveries cs msg except ys
  deliveries-append [] ys = refl
  deliveries-append (x ∷ xs) ys = ground (arith, deliveries-append xs ys)

  send_chain-deliveries :
      (left c : ℕ) (xs : List ℕ)
      → Chain (links cs) c xs
      → length xs < left
      → send_chain left cs msg except c ≡ ok (deliveries cs msg except xs)
  unfolding send_chain
  send_chain-deliveries zero c xs ch lt = absurd (omega arith)
  send_chain-deliveries (suc left) c [] ch lt = rw ch
  send_chain-deliveries (suc left) c (x ∷ xs) ch lt =
      ground (arith, ch.0, ch.1, send_chain-deliveries left (cs x).next xs ch.2 (omega arith))

  pub send_pools-deliveries :
      (ps : List ClientPool) (vs : List View)
      → ArePools cs ps vs
      → send_pools cs msg except ps ≡ ok (deliveries cs msg except (connected vs))
  unfolding send_pools
  send_pools-deliveries [] [] i = refl
  send_pools-deliveries [] (v ∷ vs) i = absurd i
  send_pools-deliveries (clp ∷ ps) [] i = absurd i
  send_pools-deliveries (clp ∷ ps) (v ∷ vs) i = rw (
    send_chain-deliveries rounds clp.client v.used i.0.used_chain (omega (arith, i.0.whole)),
    send_pools-deliveries ps vs i.1,
    deliveries-append v.used (connected vs),
  )

-- On well formed pools `session_send_all` ends, and writes the message once to each connected
-- client but the given one, in list order; nothing else changes.
pub session_send_all-deliveries :
    (msg : String) (except : ℕ) (w : World) (vs : List View)
    → IsServer w vs
    → session_send_all msg except w
      ≡ ok (emit w (deliveries w.clients (bytes w.mem msg.base msg.len) except (connected vs)))
unfolding session_send_all
session_send_all-deliveries msg except w vs i =
    rw (send_pools-deliveries w.clients (bytes w.mem msg.base msg.len) except w.pools vs i.pools)
