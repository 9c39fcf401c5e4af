-- ===== src/Chat/Close/Laws.antt =====
-- `session_close` on well formed pools: it takes the client out of its pool and gives the chunk
-- back.
use chat_server.Base.{
  ℕ, ◌+◌, ◌-◌, ◌*◌, ◌^◌, has-append, ◌≡◌, ◌≢◌, refl, ap, ◌&&◌, true, false, List, [], ◌∷◌, ◌++◌,
  arith, ltb, ◌==◌, if◌then◌else◌, length, has, Distinct, erase, length-erase, Bool-cases, inl, inr,
}
use chat_server.Base.Addresses.{
  Distinct-left, Distinct-right, Distinct-Apart, has_left, has_right, not-has-append,
}
use chat_server.Chain.{Chain, Chain-frame, Chain-ne-nil}
use chat_server.Pool.FreeList.{pool_put_unguarded, Chain-store_next, load_self}
use chat_server.Chat.State.{
  Client, Clients, ClientPool, Out, munmap, load_link, store_link, nodes, ok, rounds,
}
use chat_server.Chat.Close.{release, close_pools}
use chat_server.Chat.Close.Unlink.{Relinked, unlink_root, unlink_root_absent}
use chat_server.Chat.Invariant.{
  View, SameRest, links, IsPool, ArePools, ArePools-frame, IsPool-frame, chunks_of,
}

-- The pool that held the client, afterwards.
abbrev pub freed : ℕ → View → View
freed c v = record { used = erase c v.used; free = c ∷ v.free }

-- What closing a client does to the pools, of which there are n: its chunk becomes free, and a pool
-- that held no other client is given up, unless it is the only one.
abbrev pub close_views : ℕ → ℕ → List View → List View
close_views n c [] = []
close_views n c (v ∷ vs) =
    if has c v.used
    then (if ltb 1 n && (length v.used == 1) then vs else freed c v ∷ vs)
    else v ∷ close_views n c vs

-- The mapping that is given up with it: its first page.
abbrev pub given_up : ℕ → ℕ → List ClientPool → List View → List Out
given_up n c [] vs = []
given_up n c (clp ∷ ps) [] = []
given_up n c (clp ∷ ps) (v ∷ vs) =
    if has c v.used
    then (if ltb 1 n && (length v.used == 1) then munmap clp.base 4096 ∷ [] else [])
    else given_up n c ps vs

-- Nothing changes outside the given chunks, no descriptor and no count of buffered bytes but those
-- of c, and no name.
pub record Kept (c : ℕ) (xs : List ℕ) (cs cs' : Clients) : Type 0 where
  pub elsewhere : (a : ℕ) → has a xs ≡ false → cs' a ≡ cs a
  pub same_fd : (a : ℕ) → a ≢ c → (cs' a).fd ≡ (cs a).fd
  pub same_rest : (a : ℕ) → a ≢ c → SameRest cs cs' a
  pub same_name : ((cs' c).name_ok ≡ (cs c).name_ok) × ((cs' c).name_used ≡ (cs c).name_used)

-- What `close_pools` answers, for the views that are left.
pub record Closed (n c : ℕ) (cs : Clients) (ps : List ClientPool) (vs : List View) (vs' : List View)
    : Type 0 where
  pub clients : Clients
  pub pools : List ClientPool
  pub returns : close_pools n c cs ps ≡ ok (clients, pools, given_up n c ps vs)
  pub well_formed : ArePools clients pools vs'
  pub kept : Kept c (chunks_of vs) cs clients

module _ (n c : ℕ) (cs : Clients) (clp : ClientPool) (ps : List ClientPool) (v : View)
    (vs : List View) (i : IsPool cs clp v) (is : ArePools cs ps vs)
    (d : Distinct (v.used ++ (v.free ++ chunks_of vs))) where
  rest_not_used : (a : ℕ) → has a (v.free ++ chunks_of vs) ≡ true → has a v.used ≡ false
  rest_not_used a h = ground (arith, Distinct-Apart v.used (v.free ++ chunks_of vs) d a)

  -- The pools behind do not notice that the client was unlinked.
  rest_unlinked : (cs1 : Clients) → Relinked v.used cs cs1 → ArePools cs1 ps vs
  rest_unlinked cs1 r = ArePools-frame cs cs1 ps vs is λ a h. (
    ap (λ (x : Client). x.next)
        (r.elsewhere a (rest_not_used a (has_right a v.free (chunks_of vs) h))),
    r.same_link a,
  )

  module _ (there : has c v.used ≡ true) where
    -- Nor that its chunk was freed.
    rest_freed :
        (cs1 : Clients) (q : ℕ) → Relinked v.used cs cs1 → ArePools (store_link cs1 c q) ps vs
    rest_freed cs1 q r = ArePools-frame cs1 (store_link cs1 c q) ps vs (rest_unlinked cs1 r) λ a h.
        let out = rest_not_used a (has_right a v.free (chunks_of vs) h) in
        (ground arith, ground (arith, there))

    not_free : has c v.free ≡ false
    not_free =
        (not-has-append c v.free (chunks_of vs)
          (Distinct-Apart v.used (v.free ++ chunks_of vs) d c there)).0

    -- The client's own pool, with the chunk in front of its free list.
    own_freed :
        (cs1 : Clients) (head : ℕ)
        → Chain (links cs1) head (erase c v.used)
        → Relinked v.used cs cs1
        → IsPool
            (store_link cs1 c clp.p.head)
            (record clp {
              p = record clp.p { head = c };
              client = head;
              free_ch = clp.free_ch + 1;
              used_ch = clp.used_ch - 1;
            })
            (freed c v)
    own_freed cs1 head ch r = record {
      used_chain =
          Chain-frame (links cs1) (links (store_link cs1 c clp.p.head)) head (erase c v.used) ch
            (λ a h. ground arith);
      free_chain = (
        refl,
        Chain-ne-nil (links cs) clp.client c v.used i.used_chain there,
        rw (load_self nodes cs1 c clp.p.head) (
            Chain-store_next nodes cs1 c clp.p.head clp.p.head v.free
              (Chain-frame (load_link cs) (load_link cs1) clp.p.head v.free i.free_chain
                (λ a h. r.same_link a))
              not_free),
      );
      used_count = omega (arith, i.used_count, length-erase c v.used there);
      free_count = omega (arith, i.free_count);
      whole = omega (arith, i.whole, length-erase c v.used there);
    }

    last_one : (clp.used_ch - 1 == 0) ≡ (length v.used == 1)
    last_one = ground (arith, i.used_count, length-erase c v.used there)

    close_here : Closed n c cs (clp ∷ ps) (v ∷ vs) (close_views n c (v ∷ vs))
    unfolding close_pools release
    close_here =
        let (cs1, head, e, ch, r) =
          unlink_root cs clp.client c rounds v.used i.used_chain
            (Distinct-left v.used (v.free ++ chunks_of vs) d) there (omega (arith, i.whole)) in
        let ne = Chain-ne-nil (links cs) clp.client c v.used i.used_chain there in
        let out = λ (a : ℕ) (h : has a (chunks_of (v ∷ vs)) ≡ false).
          (not-has-append a v.used (v.free ++ chunks_of vs) h).0 in
        elim (Bool-cases (ltb 1 n && (length v.used == 1))) [
          | inl gives_up ↦ record {
            clients = cs1;
            pools = ps;
            returns = rw (e, there, last_one, gives_up);
            well_formed = rw (there, gives_up) (rest_unlinked cs1 r);
            kept = record {
              elsewhere = λ a h. r.elsewhere a (out a h);
              same_fd = λ a ne'. r.same_fd a;
              same_rest = λ a ne'. r.same_rest a;
              same_name = ((r.same_rest c).0, (r.same_rest c).1);
            };
          }
          | inr stays ↦ record {
            clients = store_link cs1 c clp.p.head;
            pools =
                record clp {
                  p = record clp.p { head = c };
                  client = head;
                  free_ch = clp.free_ch + 1;
                  used_ch = clp.used_ch - 1;
                }
                ∷ ps;
            returns = rw (e, there, last_one, stays, pool_put_unguarded nodes cs1 clp.p c ne);
            well_formed = rw (there, stays) (own_freed cs1 head ch r, rest_freed cs1 clp.p.head r);
            kept = record {
              elsewhere = λ a h. ground (arith, there, out a h, r.elsewhere a);
              same_fd = λ a ne'. ground (arith, r.same_fd a);
              same_rest = λ a ne'. ground (arith, r.same_rest a);
              same_name = ground (arith, r.same_rest c);
            };
          }
        ]

  close_there :
      has c v.used ≡ false
      → Closed n c cs ps vs (close_views n c vs)
      → Closed n c cs (clp ∷ ps) (v ∷ vs) (close_views n c (v ∷ vs))
  unfolding close_pools
  close_there out rest =
      let far =
        λ (a : ℕ) (h : has a (v.used ++ v.free) ≡ true). rest.kept.elsewhere a (behind a h) in
      record {
        clients = rest.clients;
        pools = clp ∷ rest.pools;
        returns = rw (
          unlink_root_absent cs clp.client c rounds v.used i.used_chain out
              (omega (arith, i.whole)),
          rest.returns,
          out,
        );
        well_formed = rw out (
          IsPool-frame cs rest.clients clp v i
              (λ a h. ap (λ (x : Client). x.next) (far a (has_left a v.used v.free h)))
              (λ a h.
                ap (λ (x : Client). x.fd + 2 ^ 32 * x.buf_used)
                  (far a (has_right a v.used v.free h))),
          rest.well_formed,
        );
        kept = record {
          elsewhere = λ a h.
              rest.kept.elsewhere a
                (not-has-append a v.free (chunks_of vs)
                  (not-has-append a v.used (v.free ++ chunks_of vs) h).1).1;
          same_fd = rest.kept.same_fd;
          same_rest = rest.kept.same_rest;
          same_name = rest.kept.same_name;
        };
      }
    where
      behind : (a : ℕ) → has a (v.used ++ v.free) ≡ true → has a (chunks_of vs) ≡ false
      behind a h = ground (
        arith,
        has-append a v.used v.free,
        has-append a v.free (chunks_of vs),
        Distinct-Apart v.used (v.free ++ chunks_of vs) d a,
        Distinct-Apart v.free (chunks_of vs) (Distinct-right v.used (v.free ++ chunks_of vs) d) a,
      )

pub close_pools-Closed :
    (n c : ℕ) (cs : Clients) (ps : List ClientPool) (vs : List View)
    → ArePools cs ps vs
    → Distinct (chunks_of vs)
    → Closed n c cs ps vs (close_views n c vs)
unfolding close_pools
close_pools-Closed n c cs [] [] is d = record {
  clients = cs;
  pools = [];
  returns = refl;
  well_formed = tt;
  kept = record {
    elsewhere = λ a h. refl;
    same_fd = λ a h. refl;
    same_rest = λ a h. (refl, refl, refl);
    same_name = (refl, refl);
  };
}
close_pools-Closed n c cs [] (v ∷ vs) is d = absurd is
close_pools-Closed n c cs (clp ∷ ps) [] is d = absurd is
close_pools-Closed n c cs (clp ∷ ps) (v ∷ vs) is d = elim (Bool-cases (has c v.used)) [
  | inl there ↦ close_here n c cs clp ps v vs is.0 is.1 d there
  | inr out ↦ close_there n c cs clp ps v vs is.0 is.1 d out (
      close_pools-Closed n c cs ps vs is.1
        (Distinct-right v.free (chunks_of vs) (Distinct-right v.used (v.free ++ chunks_of vs) d)))
]
