-- ===== src/Chat/New/Take.antt =====
-- The loop of `session_new` takes the first free chunk of the first pool that has one.
use chat_server.Base.{
  ℕ, ◌≡◌, ◌≢◌, refl, ap, subst, sym, List-cases, true, List, [], ◌∷◌, ◌++◌, arith, length, has,
  Distinct, inl, inr, ◌⊎◌,
}
use chat_server.Base.Addresses.{Distinct-right, Distinct-Apart, has_right, not-has-append}
use chat_server.Chain.{Chain, Chain-frame}
use chat_server.Pool.{pool_get}
use chat_server.Chat.State.{Client, Clients, update, ClientPool, load_link, ok}
use chat_server.Chat.New.{count_new, take_chunk, new_in_pools}
use chat_server.Chat.Invariant.{
  SameRest, View, links, IsPool, ArePools, ArePools-frame, IsPool-frame, chunks_of,
}

-- No pool has a free chunk.
abbrev pub AreFull : List View → Type 0
AreFull [] = Unit {0}
AreFull (v ∷ vs) = (v.free ≡ []) × AreFull vs

-- A pool whose first free chunk x now holds a client.
abbrev pub taken : ℕ → List ℕ → View → View
taken x xs v = record { used = x ∷ v.used; free = xs }

-- The views after a chunk was taken, and the chunk: `Takes vs c vs'`.
pub data Takes : List View → ℕ → List View → Type 0 where
  here :
      {v : View} {vs : List View} (x : ℕ) (xs : List ℕ)
      → v.free ≡ x ∷ xs
      → Takes (v ∷ vs) x (taken x xs v ∷ vs)
  there :
      {v : View} {vs vs' : List View} {c : ℕ}
      → v.free ≡ []
      → Takes vs c vs'
      → Takes (v ∷ vs) c (v ∷ vs')

-- Nothing but the link of the client c changes.
pub record Linked (c : ℕ) (cs cs' : Clients) : Type 0 where
  pub elsewhere : (a : ℕ) → a ≢ c → cs' a ≡ cs a
  pub same_link : (a : ℕ) → load_link cs' a ≡ load_link cs a
  pub same_rest : (a : ℕ) → SameRest cs cs' a

-- What the loop answers where it finds a chunk.
pub record Found (cs : Clients) (ps : List ClientPool) (vs : List View) : Type 0 where
  pub chunk : ℕ
  pub clients : Clients
  pub pools : List ClientPool
  pub views : List View
  pub returns : new_in_pools cs ps ≡ ok (chunk, clients, pools)
  pub takes : Takes vs chunk views
  pub is_chunk : chunk ≢ 0
  pub well_formed : ArePools clients pools views
  pub linked : Linked chunk cs clients

-- The chunk that is taken was free.
pub Takes-has : {vs vs' : List View} {c : ℕ} → Takes vs c vs' → has c (chunks_of vs) ≡ true
Takes-has (here {v} {vs} x xs e) =
    subst (λ fs. has x (v.used ++ (fs ++ chunks_of vs)) ≡ true) (sym e)
      (has_right x v.used (x ∷ (xs ++ chunks_of vs)) (ground arith))
Takes-has (there {v} {vs} {c} e t) =
    has_right c v.used (v.free ++ chunks_of vs) (has_right c v.free (chunks_of vs) (Takes-has t))

module _ (cs : Clients) (clp : ClientPool) (ps : List ClientPool) (v : View) (vs : List View)
    (i : IsPool cs clp v) (is : ArePools cs ps vs)
    (d : Distinct (v.used ++ (v.free ++ chunks_of vs))) where
  take_here : (x : ℕ) (xs : List ℕ) → v.free ≡ x ∷ xs → Found cs (clp ∷ ps) (v ∷ vs)
  unfolding new_in_pools take_chunk pool_get
  take_here x xs e =
      let free : Chain (load_link cs) clp.p.head (x ∷ xs) =
        subst (Chain (load_link cs) clp.p.head) e i.free_chain in
      let d' : Distinct (v.used ++ (x ∷ (xs ++ chunks_of vs))) =
        subst (λ fs. Distinct (v.used ++ (fs ++ chunks_of vs))) e d in
      let new = Distinct-right v.used (x ∷ (xs ++ chunks_of vs)) d' in
      let behind = not-has-append x xs (chunks_of vs) new.0 in
      let not_used = λ (a : ℕ) (h : has a v.used ≡ true).
        Distinct-Apart v.used (x ∷ (xs ++ chunks_of vs)) d' a h in
      let cs' = update cs x (record (cs x) { next = clp.client }) in
      let self : links cs' x ≡ clp.client = ground arith in
      let clp' = count_new clp (record clp.p { head = load_link cs x }) x in
      record {
        chunk = x;
        clients = cs';
        pools = clp' ∷ ps;
        views = taken x xs v ∷ vs;
        returns = ground (arith, free.0, free.1, i.free_count, ap length e);
        takes = here x xs e;
        is_chunk = free.1;
        well_formed = (
          record {
            used_chain = (
              refl,
              free.1,
              rw self (
                  Chain-frame (links cs) (links cs') clp.client v.used i.used_chain
                    (λ a h. ground (arith, not_used a h))),
            );
            free_chain =
                Chain-frame (load_link cs) (load_link cs') (load_link cs x) xs free.2
                  (λ a h. ground arith);
            used_count = omega (arith, i.used_count);
            free_count = omega (arith, i.free_count, ap length e);
            whole = omega (arith, i.whole, ap length e);
          },
          ArePools-frame cs cs' ps vs is (λ a h. (ground (arith, behind.1), ground arith)),
        );
        linked = record {
          elsewhere = λ a h. ground arith;
          same_link = λ a. ground arith;
          same_rest = λ a. ground arith;
        };
      }

  take_there : v.free ≡ [] → Found cs ps vs → Found cs (clp ∷ ps) (v ∷ vs)
  unfolding new_in_pools
  take_there e f = record {
    chunk = f.chunk;
    clients = f.clients;
    pools = clp ∷ f.pools;
    views = v ∷ f.views;
    returns = ground (arith, i.free_count, ap length e, f.returns);
    takes = there e f.takes;
    is_chunk = f.is_chunk;
    well_formed = (
      IsPool-frame cs f.clients clp v i
          (λ a h. ap (λ (x : Client). x.next) (f.linked.elsewhere a (not_chunk a h)))
          (λ a h. f.linked.same_link a),
      f.well_formed,
    );
    linked = f.linked;
  }
    where
      not_chunk : (a : ℕ) → has a v.used ≡ true → a ≢ f.chunk
      not_chunk a h = λ e'.
          let out = Distinct-Apart v.used (v.free ++ chunks_of vs) d a h in
          let in_rest = has_right f.chunk v.free (chunks_of vs) (Takes-has f.takes) in ground arith

-- Where all pools are full the loop finds nothing, and else it takes a chunk.
pub new_in_pools-Found :
    (cs : Clients) (ps : List ClientPool) (vs : List View)
    → ArePools cs ps vs
    → Distinct (chunks_of vs)
    → (AreFull vs × (new_in_pools cs ps ≡ ok (0, cs, ps))) ⊎ Found cs ps vs
unfolding new_in_pools
new_in_pools-Found cs [] [] is d = inl (tt, refl)
new_in_pools-Found cs [] (v ∷ vs) is d = absurd is
new_in_pools-Found cs (clp ∷ ps) [] is d = absurd is
new_in_pools-Found cs (clp ∷ ps) (v ∷ vs) is d = elim (List-cases v.free) [
  | inr (x, xs, e) ↦ inr (take_here cs clp ps v vs is.0 is.1 d x xs e)
  | inl e ↦
      elim (new_in_pools-Found cs ps vs is.1
        (Distinct-right v.free (chunks_of vs) (Distinct-right v.used (v.free ++ chunks_of vs) d))) [
          | inl (full, r) ↦ inl ((e, full), ground (arith, is.0.free_count, ap length e, r))
          | inr f ↦ inr (take_there cs clp ps v vs is.0 is.1 d e f)
        ]
]
