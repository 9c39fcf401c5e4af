-- ===== src/Examples/Data.antt =====
-- The clients of the examples: two, of whom the first has the name "bob", in one pool whose mapping
-- begins at 4096.
use chat_server.Base.{
  ℕ, zero, suc, ◌+◌, ◌-◌, ◌*◌, ◌≤◌, ◌≡◌, refl, ap, ◌∙◌, subst, [], ◌∷◌, arith, ◌==◌, if◌then◌else◌,
  Distinct, append-nil,
}
use chat_server.Chain.{Chain}
use chat_server.Pool.FreeList.{chunks, chunks-suc, chunks-Distinct, length-chunks}
use chat_server.Chat.State.{update, Clients, ClientPool, World, load_link}
use chat_server.Chat.Line.Laws.{ArePools-buffer}
use chat_server.Chat.Invariant.{View, IsServer}

abbrev pub first : ℕ
first = 4144

abbrev pub bob : ℕ
bob = first + 1022 * 568

abbrev pub ann : ℕ
ann = first + 1021 * 568

-- A free chunk is linked to the one below it.
abbrev pub clients : Clients
clients a =
    if a == bob
    then record { fd = 5; buf_used = 0; name_used = 3; name_ok = 1; next = ann }
    else if a == ann
    then record { fd = 6; buf_used = 0; name_used = 0; name_ok = 0; next = 0 }
    else record {
      fd = if a == first then 0 else a - 568;
      buf_used = 0;
      name_used = 0;
      name_ok = 0;
      next = 0;
    }

free-Chain :
    (n : ℕ)
    → n ≤ 1021
    → Chain (load_link clients) (if n == 0 then 0 else first + (n - 1) * 568) (chunks first 568 n)
unfolding chunks
free-Chain zero le = refl
free-Chain (suc n) le =
    let down : load_link clients (first + n * 568) ≡ (if n == 0 then 0 else first + (n - 1) * 568) =
      ground arith in
    (ground arith, omega arith, rw down (free-Chain n (omega arith)))

abbrev pub pool : ClientPool
pool = record {
  base = 4096;
  p = record { buf = first; buf_len = 581064; chunk_size = 568; head = first + 1020 * 568 };
  free_ch = 1021;
  used_ch = 2;
  client = bob;
}

abbrev pub two_clients : World
two_clients = record {
  clients = clients;
  mem = λ a. b'b';
  pools = pool ∷ [];
  stack = 1000000;
  out = [];
}

abbrev pub view : View
view = record { used = bob ∷ ann ∷ []; free = chunks first 568 1021 }

pub two_more : chunks first 568 1023 ≡ bob ∷ ann ∷ chunks first 568 1021
two_more = chunks-suc first 568 1022 ∙ ap (λ xs. bob ∷ xs) (chunks-suc first 568 1021)

pub two_clients-IsServer : IsServer two_clients (view ∷ [])
two_clients-IsServer = record {
  pools = (
    record {
      used_chain = (refl, omega arith, (refl, omega arith, refl));
      free_chain = free-Chain 1021 (omega arith);
      used_count = refl;
      free_count = omega (arith, length-chunks first 568 1021);
      whole = omega (arith, length-chunks first 568 1021);
    },
    tt,
  );
  distinct =
      rw (append-nil (chunks first 568 1021))
        (subst (λ xs. Distinct xs) two_more (chunks-Distinct first 568 1023 (omega arith)));
}

-- Bob has typed "bb\nb".
abbrev pub typed : Clients
typed = update clients bob (record (clients bob) { buf_used = 4 })

abbrev pub talking : World
talking = record two_clients {
  clients = typed;
  mem = λ a. if a == bob + 10 then 10 else if a == bob + 523 then 0 else b'b';
}

pub talking-IsServer : IsServer talking (view ∷ [])
talking-IsServer = record {
  pools =
      ArePools-buffer clients typed (pool ∷ []) (view ∷ []) bob two_clients-IsServer.pools
        two_clients-IsServer.distinct refl (λ a. ground arith) (λ a ne. ground arith);
  distinct = two_clients-IsServer.distinct;
}
