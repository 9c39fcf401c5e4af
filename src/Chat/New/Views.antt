-- ===== src/Chat/New/Views.antt =====
-- Views after a chunk was taken, and with a pool added.
use chat_server.Base.{
  ℕ, suc, ◌*◌, ◌≤◌, ◌<◌, ◌≡◌, refl, ap, subst, ◌||◌, false, List, [], ◌∷◌, ◌++◌, arith, ◌==◌,
  length, length-append, has, has-append, Distinct, append_assoc, Bool-cases, inl, inr,
}
use chat_server.Base.Addresses.{
  Distinct-back, Distinct-right, Distinct-Apart, not-has-append, append-not-has,
}
use chat_server.Chat.State.{Clients, ClientPool, max_clients_in_pool}
use chat_server.Chat.New.Take.{AreFull, Takes, here, there}
use chat_server.Chat.Invariant.{View, ArePools, chunks_of, connected}

pub Takes-not-has :
    (a c : ℕ) (vs vs' : List View)
    → Takes vs c vs'
    → has a (chunks_of vs) ≡ false
    → has a (chunks_of vs') ≡ false
Takes-not-has a c vs vs' (here {v} {vs = ws} x xs e) h =
    let p = not-has-append a v.used (v.free ++ chunks_of ws) h in
    let q = subst (λ fs. has a (fs ++ chunks_of ws) ≡ false) e p.1 in
    ground (arith, append-not-has a v.used (xs ++ chunks_of ws) p.0, q)
Takes-not-has a c vs vs' (there {v} {vs = ws} {vs' = ws'} e t) h =
    let p = not-has-append a v.used (v.free ++ chunks_of ws) h in
    let q = not-has-append a v.free (chunks_of ws) p.1 in
    append-not-has a v.used (v.free ++ chunks_of ws') p.0
      (append-not-has a v.free (chunks_of ws') q.0 (Takes-not-has a c ws ws' t q.1))

-- Moving a chunk from the free to the used ones keeps the chunks distinct.
move_front : (x : ℕ) (us zs : List ℕ) → Distinct (us ++ x ∷ zs) → Distinct (x ∷ (us ++ zs))
move_front x us zs d =
    let back = Distinct-right us (x ∷ zs) d in
    let apart = Distinct-Apart us (x ∷ zs) d x in
    let out : has x us ≡ false = elim (Bool-cases (has x us)) [
      | inl in_us ↦ absurd (ground (arith, apart in_us))
      | inr no_us ↦ no_us
    ] in
    (append-not-has x us zs out back.0, Distinct-back us (x ∷ zs) zs d back.1 (λ a h. ground arith))

pub Takes-Distinct :
    (c : ℕ) (vs vs' : List View)
    → Takes vs c vs'
    → Distinct (chunks_of vs)
    → Distinct (chunks_of vs')
Takes-Distinct c vs vs' (here {v} {vs = ws} x xs e) d =
    move_front x v.used (xs ++ chunks_of ws)
      (subst (λ fs. Distinct (v.used ++ (fs ++ chunks_of ws))) e d)
Takes-Distinct c vs vs' (there {v} {vs = ws} {vs' = ws'} e t) d =
    let rest = Distinct-right v.used (v.free ++ chunks_of ws) d in
    let behind = Distinct-right v.free (chunks_of ws) rest in
    Distinct-back v.used (v.free ++ chunks_of ws) (v.free ++ chunks_of ws') d
      (Distinct-back v.free (chunks_of ws) (chunks_of ws') rest (Takes-Distinct c ws ws' t behind)
        (λ a. Takes-not-has a c ws ws' t))
      (λ a h.
        let q = not-has-append a v.free (chunks_of ws) h in
        append-not-has a v.free (chunks_of ws') q.0 (Takes-not-has a c ws ws' t q.1))

-- The new client is connected, and nobody else comes or goes.
pub Takes-connected :
    (a c : ℕ) (vs vs' : List View)
    → Takes vs c vs'
    → has a (connected vs') ≡ ((a == c) || has a (connected vs))
Takes-connected a c vs vs' (here x xs e) = refl
Takes-connected a c vs vs' (there {v} {vs = ws} {vs' = ws'} e t) = ground (
  arith,
  has-append a v.used (connected ws),
  has-append a v.used (connected ws'),
  Takes-connected a c ws ws' t,
)

pub chunks_of-append : (vs ws : List View) → chunks_of (vs ++ ws) ≡ chunks_of vs ++ chunks_of ws
chunks_of-append [] ws = refl
chunks_of-append (v ∷ vs) ws = rw (
  chunks_of-append vs ws,
  append_assoc v.used (v.free ++ chunks_of vs) (chunks_of ws),
  append_assoc v.free (chunks_of vs) (chunks_of ws),
)

pub connected-append : (vs ws : List View) → connected (vs ++ ws) ≡ connected vs ++ connected ws
connected-append [] ws = refl
connected-append (v ∷ vs) ws =
    rw (connected-append vs ws, append_assoc v.used (connected vs) (connected ws))

pub ArePools-append :
    (cs : Clients) (ps qs : List ClientPool) (vs ws : List View)
    → ArePools cs ps vs
    → ArePools cs qs ws
    → ArePools cs (ps ++ qs) (vs ++ ws)
ArePools-append cs [] qs [] ws i j = j
ArePools-append cs [] qs (v ∷ vs) ws i j = absurd i
ArePools-append cs (p ∷ ps) qs [] ws i j = absurd i
ArePools-append cs (p ∷ ps) qs (v ∷ vs) ws i j = (i.0, ArePools-append cs ps qs vs ws i.1 j)

pub ArePools-length :
    (cs : Clients) (ps : List ClientPool) (vs : List View)
    → ArePools cs ps vs
    → length ps ≡ length vs
ArePools-length cs [] [] i = refl
ArePools-length cs [] (v ∷ vs) i = absurd i
ArePools-length cs (p ∷ ps) [] i = absurd i
ArePools-length cs (p ∷ ps) (v ∷ vs) i = ap suc (ArePools-length cs ps vs i.1)

-- Full pools hold 1023 clients each.
pub AreFull-connected :
    (cs : Clients) (ps : List ClientPool) (vs : List View)
    → ArePools cs ps vs
    → AreFull vs
    → length (connected vs) ≡ max_clients_in_pool * length vs
AreFull-connected cs [] [] i full = refl
AreFull-connected cs [] (v ∷ vs) i full = absurd i
AreFull-connected cs (p ∷ ps) [] i full = absurd i
AreFull-connected cs (p ∷ ps) (v ∷ vs) i full = omega (
  arith,
  i.0.whole,
  ap length full.0,
  length-append v.used (connected vs),
  AreFull-connected cs ps vs i.1 full.1,
)

-- No more clients than chunks.
connected_bound :
    (cs : Clients) (ps : List ClientPool) (vs : List View)
    → ArePools cs ps vs
    → length (connected vs) ≤ max_clients_in_pool * length vs
connected_bound cs [] [] i = omega arith
connected_bound cs [] (v ∷ vs) i = absurd i
connected_bound cs (p ∷ ps) [] i = absurd i
connected_bound cs (p ∷ ps) (v ∷ vs) i =
    omega (arith, i.0.whole, length-append v.used (connected vs), connected_bound cs ps vs i.1)

-- Where a chunk can be taken there is room for a client.
pub Takes-room :
    (cs : Clients) (ps : List ClientPool) (c : ℕ) (vs vs' : List View)
    → ArePools cs ps vs
    → Takes vs c vs'
    → length (connected vs) < max_clients_in_pool * length vs
Takes-room cs [] c vs vs' i (here {v} {vs = ws} x xs e) = absurd i
Takes-room cs (p ∷ ps) c vs vs' i (here {v} {vs = ws} x xs e) = omega (
  arith,
  i.0.whole,
  ap length e,
  length-append v.used (connected ws),
  connected_bound cs ps ws i.1,
)
Takes-room cs [] c vs vs' i (there {v} {vs = ws} {vs' = ws'} e t) = absurd i
Takes-room cs (p ∷ ps) c vs vs' i (there {v} {vs = ws} {vs' = ws'} e t) =
    omega (arith, i.0.whole, length-append v.used (connected ws), Takes-room cs ps c ws ws' i.1 t)
