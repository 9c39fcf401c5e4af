-- ===== src/Chat/Send.antt =====
-- `session_send_all` of src/chat_server.c.
pub mod Laws
pub mod Message
use chat_server.Base.{ℕ, zero, suc, true, false, List, [], ◌∷◌, ◌++◌, ◌==◌, if◌then◌else◌}
use chat_server.Memory.{bytes}
use chat_server.Builtin.Slices.{String}
use chat_server.Chat.State.{
  Client, Clients, ClientPool, Out, write, World, Run, ok, stopped, no_rounds, ◌>>=◌, rounds, emit,
}

-- while (c != nil) { if (except != c) sys_write(c->fd, ...); c = c->next; }
pub send_chain : ℕ → Clients → List ℕ → ℕ → ℕ → Run (List Out)
send_chain zero cs msg except c = stopped no_rounds
send_chain (suc left) cs msg except c = elim (c == 0) [
  | true ↦ ok []
  | false ↦ do
    rest ← send_chain left cs msg except (cs c).next
    ok (if except == c then rest else write (cs c).fd msg ∷ rest)
]

-- for (i = 0; i < serv->n_pls; i++)
pub send_pools : Clients → List ℕ → ℕ → List ClientPool → Run (List Out)
send_pools cs msg except [] = ok []
send_pools cs msg except (clp ∷ rest) = do
  here ← send_chain rounds cs msg except clp.client
  there ← send_pools cs msg except rest
  ok (here ++ there)

unfoldable pub session_send_all : String → ℕ → World → Run World
session_send_all msg except w = do
  sent ← send_pools w.clients (bytes w.mem msg.base msg.len) except w.pools
  ok (emit w sent)
