-- ===== src/Chat/Invariant.antt =====
-- When the pools of src/chat_server.c are well formed. The view of a pool is the addresses of its
-- connected clients, in list order, and of its free chunks.
use chat_server.Base.{
  ℕ, ◌+◌, ◌≡◌, true, List, [], ◌∷◌, ◌++◌, arith, has, has-append, Distinct, length,
}
use chat_server.Chain.{Chain, Chain-frame}
use chat_server.Chat.State.{Clients, ClientPool, World, load_link, max_clients_in_pool}

pub record View : Type 0 where
  pub used : List ℕ
  pub free : List ℕ

abbrev pub links : Clients → ℕ → ℕ
links cs a = (cs a).next

-- One pool: its two lists, which its counters count, and which make up the whole pool.
pub record IsPool (cs : Clients) (clp : ClientPool) (v : View) : Type 0 where
  pub used_chain : Chain (links cs) clp.client v.used
  pub free_chain : Chain (load_link cs) clp.p.head v.free
  pub used_count : clp.used_ch ≡ length v.used
  pub free_count : clp.free_ch ≡ length v.free
  pub whole : length v.used + length v.free ≡ max_clients_in_pool

abbrev pub ArePools : Clients → List ClientPool → List View → Type 0
ArePools cs [] [] = Unit {0}
ArePools cs [] (v ∷ vs) = ⊥
ArePools cs (clp ∷ ps) [] = ⊥
ArePools cs (clp ∷ ps) (v ∷ vs) = IsPool cs clp v × ArePools cs ps vs

-- All chunks of all pools.
abbrev pub chunks_of : List View → List ℕ
chunks_of [] = []
chunks_of (v ∷ vs) = v.used ++ (v.free ++ chunks_of vs)

-- The connected clients, pool by pool.
abbrev pub connected : List View → List ℕ
connected [] = []
connected (v ∷ vs) = v.used ++ connected vs

-- The pools are well formed, and no chunk is in two places.
pub record IsServer (w : World) (vs : List View) : Type 0 where
  pub pools : ArePools w.clients w.pools vs
  pub distinct : Distinct (chunks_of vs)

-- Two client memories hold the same links at an address.
abbrev pub SameLinks : Clients → Clients → ℕ → Type 0
SameLinks cs cs' a = (links cs' a ≡ links cs a) × (load_link cs' a ≡ load_link cs a)

-- Two client memories hold the same name and the same count of buffered bytes at an address.
abbrev pub SameRest : Clients → Clients → ℕ → Type 0
SameRest cs cs' a =
    ((cs' a).name_ok ≡ (cs a).name_ok)
    × ((cs' a).name_used ≡ (cs a).name_used)
    × ((cs' a).buf_used ≡ (cs a).buf_used)

pub IsPool-frame :
    (cs cs' : Clients) (clp : ClientPool) (v : View)
    → IsPool cs clp v
    → ((a : ℕ) → has a v.used ≡ true → links cs' a ≡ links cs a)
    → ((a : ℕ) → has a v.free ≡ true → load_link cs' a ≡ load_link cs a)
    → IsPool cs' clp v
IsPool-frame cs cs' clp v i u f = record {
  used_chain = Chain-frame (links cs) (links cs') clp.client v.used i.used_chain u;
  free_chain = Chain-frame (load_link cs) (load_link cs') clp.p.head v.free i.free_chain f;
  used_count = i.used_count;
  free_count = i.free_count;
  whole = i.whole;
}

-- Pools survive any change that keeps the links of their chunks.
pub ArePools-frame :
    (cs cs' : Clients) (ps : List ClientPool) (vs : List View)
    → ArePools cs ps vs
    → ((a : ℕ) → has a (chunks_of vs) ≡ true → SameLinks cs cs' a)
    → ArePools cs' ps vs
ArePools-frame cs cs' [] [] i same = tt
ArePools-frame cs cs' [] (v ∷ vs) i same = i
ArePools-frame cs cs' (clp ∷ ps) [] i same = i
ArePools-frame cs cs' (clp ∷ ps) (v ∷ vs) i same = (
  IsPool-frame cs cs' clp v i.0
      (λ a h. (same a (rw (has-append a v.used (v.free ++ chunks_of vs), h))).0)
      (λ a h. (same a (in_free a h)).1),
  ArePools-frame cs cs' ps vs i.1 (λ a h. same a (in_rest a h)),
)
  where
    in_free : (a : ℕ) → has a v.free ≡ true → has a (chunks_of (v ∷ vs)) ≡ true
    in_free a h =
        ground
          (arith, has-append a v.used (v.free ++ chunks_of vs), has-append a v.free (chunks_of vs))

    in_rest : (a : ℕ) → has a (chunks_of vs) ≡ true → has a (chunks_of (v ∷ vs)) ≡ true
    in_rest a h =
        ground
          (arith, has-append a v.used (v.free ++ chunks_of vs), has-append a v.free (chunks_of vs))
