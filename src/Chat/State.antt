-- ===== src/Chat/State.antt =====
-- The data of src/chat_server.c: clients in pools, and what a system call shows to the outside.
-- The scalar fields of a client stand in `clients`, at the address of its struct; its two arrays
-- stand in the byte memory, at their offsets in the struct. A free chunk keeps its link in its
-- first eight bytes, which are the fields `fd` and `buf_used` of a client.
use chat_server.Base.{
  ℕ, ◌+◌, ◌*◌, ◌/◌, ◌%◌, ◌^◌, ◌≡◌, Option, none, some, List, ◌++◌, arith, ◌==◌, if◌then◌else◌,
}
use chat_server.Memory.{Mem}
use chat_server.Pool.{FreeNodes, Pool}

abbrev pub max_line_len : ℕ
max_line_len = 512

abbrev pub max_name_len : ℕ
max_name_len = 32

abbrev pub max_clients_in_pool : ℕ
max_clients_in_pool = 1023

abbrev pub max_pools : ℕ
max_pools = 16

-- The scalar fields. `fd` and `buf_used` are 32-bit patterns.
pub record Client : Type 0 where
  pub fd : ℕ
  pub buf_used : ℕ
  pub name_used : ℕ
  pub name_ok : ℕ
  pub next : ℕ

-- `sizeof(client)` and the addresses of its two arrays.
abbrev pub client_size : ℕ
client_size = 568

abbrev pub buf_of : ℕ → ℕ
buf_of c = c + 8

abbrev pub name_of : ℕ → ℕ
name_of c = c + 520

abbrev pub Clients : Type 0
Clients = ℕ → Client

abbrev pub update : Clients → ℕ → Client → Clients
update cs c v a = if a == c then v else cs a

-- A pointer is the 64 bits of `fd` and `buf_used`.
abbrev pub load_link : Clients → ℕ → ℕ
load_link cs p = (cs p).fd + 2 ^ 32 * (cs p).buf_used

abbrev pub store_link : Clients → ℕ → ℕ → Clients
store_link cs p q = update cs p (record (cs p) { fd = q % 2 ^ 32; buf_used = q / 2 ^ 32 })

pub link_law :
    (cs : Clients) (p q a : ℕ)
    → load_link (store_link cs p q) a ≡ (if a == p then q else load_link cs a)
link_law cs p q a = ground arith

abbrev pub nodes : FreeNodes Clients
nodes = record { load_next = load_link; store_next = store_link; load-store = link_law }

-- `base` is the address of the struct itself, at the start of the mapping.
pub record ClientPool : Type 0 where
  pub base : ℕ
  pub p : Pool
  pub free_ch : ℕ
  pub used_ch : ℕ
  pub client : ℕ

-- What the process does to the outside, in order. Diagnostics on stderr are not recorded.
pub data Out : Type 0 where
  write : ℕ → List ℕ → Out
  close : ℕ → Out
  munmap : ℕ → ℕ → Out
  -- sys_epoll_ctl(epfd, epoll_ctl_add, fd, ...), with the pointer that the event carries
  watch : ℕ → ℕ → Out
  -- the set-up of the listening socket
  reuse_address : ℕ → Out
  bind : ℕ → ℕ → Out
  listen : ℕ → ℕ → Out

-- `pools` is first_clp[0], ..., first_clp[n_pls - 1], and its length is `n_pls`; `stack` is where a
-- handler's array `msg` stands; `out` grows to the right.
pub record World : Type 0 where
  pub clients : Clients
  pub mem : Mem
  pub pools : List ClientPool
  pub stack : ℕ
  pub out : List Out

-- Why a run ends early: a fault (a nil pointer or a failed assert), `sys_exit`, a model loop that has
-- used up its rounds, or the signal SIGPIPE of a write to a peer that has reset its connection.
pub data Stop : Type 0 where
  fault : Stop
  exited : ℕ → Stop
  no_rounds : Stop
  broken_pipe : Stop

pub data Run (A : Type 0) : Type 0 where
  ok : A → Run A
  stopped : Stop → Run A

infixl 5 ◌>>=◌
abbrev pub ◌>>=◌ : {A B : Type 0} → Run A → (A → Run B) → Run B
ok a >>= f = f a
stopped s >>= f = stopped s

abbrev pub or_fault : {A : Type 0} → Option A → Run A
or_fault none = stopped fault
or_fault (some a) = ok a

abbrev pub emit : World → List Out → World
emit w os = record w { out = w.out ++ os }

-- A walk over one pool's clients has this many rounds: one for each chunk, and one for nil.
abbrev pub rounds : ℕ
rounds = 1024
