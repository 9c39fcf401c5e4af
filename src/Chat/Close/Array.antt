-- ===== src/Chat/Close/Array.antt =====
-- The loop of `session_close` on the array `first_clp` itself, with the shift of the pools behind
-- the one that is given up. A slot that holds nil is `none`; the slots from `n_pls` on are not
-- read.
use chat_server.Base.{
  ◌⊎◌, ℕ, zero, suc, ◌+◌, ◌-◌, ◌≤◌, ◌<◌, ◌≡◌, refl, ◌∙◌, ◌&&◌, Option, none, some, List, [], ◌∷◌,
  arith, ltb, ◌==◌, if◌then◌else◌, length, Bool-cases, Option-cases, inl, inr,
}
use chat_server.Pool.{pool_put}
use chat_server.Chat.State.{
  Clients, nodes, ClientPool, Out, munmap, Run, ok, stopped, fault, Stop, ◌>>=◌, or_fault, rounds,
}
use chat_server.Chat.Close.{root, unlink, release, close_pools}

abbrev pub Slots : Type 0
Slots = ℕ → Option ClientPool

-- first_clp[i] = slot;
abbrev pub set : Slots → ℕ → Option ClientPool → Slots
set a i slot j = if j == i then slot else a j

-- while (i < serv->n_pls) { first_clp[i] = first_clp[i + 1]; i++; } first_clp[i] = nil;
-- with the rounds that are left
pub shift : ℕ → Slots → ℕ → Slots
shift zero a i = set a i none
shift (suc left) a i = shift left (set a i (a (i + 1))) (i + 1)

-- The loop over the pools from i on, with the rounds that are left: the clients, the array, `n_pls`
-- and what is unmapped.
unfoldable pub close_at : ℕ → ℕ → ℕ → Clients → Slots → ℕ → Run (Clients × Slots × ℕ × List Out)
close_at zero n_pls c cs a i = ok (cs, a, n_pls, [])
close_at (suc left) n_pls c cs a i = elim (a i) [
  | none ↦ stopped fault
  | some clp ↦ do
    found ← unlink rounds cs clp.client c root
    elim found [
      | none ↦ close_at left n_pls c cs a (i + 1)
      | some (cs1, head) ↦
          let clp1 = record clp {
            client = head;
            free_ch = clp.free_ch + 1;
            used_ch = clp.used_ch - 1;
          } in
          if ltb 1 n_pls && (clp1.used_ch == 0)
          then ok (cs1, shift (n_pls - 1 - i) a i, n_pls - 1, munmap clp.base 4096 ∷ [])
          else (do
            (cs2, p2) ← or_fault (pool_put nodes cs1 clp1.p c)
            ok (cs2, set a i (some (record clp1 { p = p2 })), n_pls, []))
    ]
]

shift-below : (left : ℕ) (a : Slots) (i j : ℕ) → j < i → shift left a i j ≡ a j
unfolding shift
shift-below zero a i j lt = ground arith
shift-below (suc left) a i j lt =
    shift-below left (set a i (a (i + 1))) (i + 1) j (omega arith) ∙ ground arith

-- From the index i on the array holds the pools of the list.
abbrev pub HoldsFrom : Slots → ℕ → List ClientPool → Type 0
HoldsFrom a i [] = Unit {0}
HoldsFrom a i (clp ∷ ps) = (a i ≡ some clp) × HoldsFrom a (i + 1) ps

HoldsFrom-same :
    (a b : Slots) (i : ℕ) (ps : List ClientPool)
    → ((j : ℕ) → i ≤ j → b j ≡ a j)
    → HoldsFrom a i ps
    → HoldsFrom b i ps
HoldsFrom-same a b i [] same h = tt
HoldsFrom-same a b i (clp ∷ ps) same h =
    (same i (omega arith) ∙ h.0, HoldsFrom-same a b (i + 1) ps (λ j le. same j (omega arith)) h.1)

-- What stands behind a slot moves up by one.
shift-HoldsFrom :
    (left : ℕ) (a : Slots) (i : ℕ) (ps : List ClientPool)
    → left ≡ length ps
    → HoldsFrom a (i + 1) ps
    → HoldsFrom (shift left a i) i ps
unfolding shift
shift-HoldsFrom zero a i [] e h = tt
shift-HoldsFrom zero a i (clp ∷ ps) e h = absurd (omega arith)
shift-HoldsFrom (suc left) a i [] e h = tt
shift-HoldsFrom (suc left) a i (clp ∷ ps) e h =
    let b = set a i (a (i + 1)) in
    (
      shift-below left b (i + 1) i (omega arith) ∙ ground (arith, h.0),
      shift-HoldsFrom left b (i + 1) ps (omega arith)
          (HoldsFrom-same a b (i + 1 + 1) ps (λ j le. ground arith) h.1),
    )

-- Both end early for the same reason, or both go on, with the pools of the list in the array.
pub data Agree (a : Slots) (i : ℕ) (r : Run (Clients × Slots × ℕ × List Out))
    (s : Run (Clients × List ClientPool × List Out)) : Type 0 where
  both_stop : (why : Stop) → r ≡ stopped why → s ≡ stopped why → Agree a i r s
  both_end :
      (cs : Clients) (b : Slots) (ps : List ClientPool) (os : List Out)
      → r ≡ ok (cs, b, i + length ps, os)
      → s ≡ ok (cs, ps, os)
      → HoldsFrom b i ps
      → ((j : ℕ) → j < i → b j ≡ a j)
      → Agree a i r s

Run-cases : {A : Type 0} (r : Run A) → ((why : Stop) × (r ≡ stopped why)) ⊎ ((x : A) × (r ≡ ok x))
Run-cases (ok x) = inr (x, refl)
Run-cases (stopped why) = inl (why, refl)

-- The pool that held the client.
found_here :
    (n c : ℕ) (cs : Clients) (head : ℕ) (a : Slots) (i : ℕ) (clp : ClientPool)
    (ps : List ClientPool)
    → HoldsFrom a i (clp ∷ ps)
    → n ≡ i + suc (length ps)
    → let clp1 = record clp {
      client = head;
      free_ch = clp.free_ch + 1;
      used_ch = clp.used_ch - 1;
    } in
      Agree a i
        (if ltb 1 n && (clp1.used_ch == 0)
          then ok (cs, shift (n - 1 - i) a i, n - 1, munmap clp.base 4096 ∷ [])
          else (do
            (cs2, p2) ← or_fault (pool_put nodes cs clp1.p c)
            ok (cs2, set a i (some (record clp1 { p = p2 })), n, [])))
        (release n c cs head clp ps)
unfolding release
found_here n c cs head a i clp ps h e = elim (Bool-cases (ltb 1 n && (clp.used_ch - 1 == 0))) [
  | inl emptied ↦
      let left : n - 1 - i ≡ length ps = omega arith in
      let count : n - 1 ≡ i + length ps = omega arith in
      rw (release, emptied, left, count)
        (both_end cs (shift (length ps) a i) ps _ refl refl
          (shift-HoldsFrom (length ps) a i ps refl h.1) (λ j lt. shift-below (length ps) a i j lt))
  | inr kept ↦ elim (Option-cases (pool_put nodes cs clp.p c)) [
    | inl bad ↦ rw (release, kept, bad) (both_stop fault refl refl)
    | inr (q, good) ↦
        rw (release, kept, good, e)
          (both_end q.0 _ (_ ∷ ps) [] refl refl
            (ground arith, HoldsFrom-same a _ (i + 1) ps (λ j le. ground arith) h.1)
            (λ j lt. ground arith))
  ]
]

-- The pools that have been passed stay where they are.
passed :
    (c : ℕ) (a : Slots) (i : ℕ) (clp : ClientPool) (r : Run (Clients × Slots × ℕ × List Out))
    (s : Run (Clients × List ClientPool × List Out))
    → a i ≡ some clp
    → Agree a (i + 1) r s
    → Agree a i r (do (cs1, rest, os) ← s; ok (cs1, clp ∷ rest, os))
passed c a i clp r s here (both_stop why e f) = both_stop why e (rw f refl)
passed c a i clp r s here (both_end cs b ps os e f h same) =
    let count : i + 1 + length ps ≡ i + suc (length ps) = omega arith in
    both_end cs b (clp ∷ ps) os (rw (← count) e) (rw f refl) (same i (omega arith) ∙ here, h)
      (λ j lt. same j (omega arith))

Agree-from :
    (ps : List ClientPool) (n c : ℕ) (cs : Clients) (a : Slots) (i : ℕ)
    → HoldsFrom a i ps
    → n ≡ i + length ps
    → Agree a i (close_at (length ps) n c cs a i) (close_pools n c cs ps)
unfolding close_at close_pools
Agree-from [] n c cs a i h e = rw e (both_end cs a [] [] refl refl tt (λ j lt. refl))
Agree-from (clp ∷ ps) n c cs a i h e = elim (Run-cases (unlink rounds cs clp.client c root)) [
  | inl (why, f) ↦ rw (close_at, close_pools, h.0, f) (both_stop why refl refl)
  | inr (none, f) ↦
      rw (close_at, close_pools, h.0, f)
        (passed c a i clp _ _ h.0 (Agree-from ps n c cs a (i + 1) h.1 (omega arith)))
  | inr (some (cs1, head), f) ↦
      rw (close_at, close_pools, h.0, f) (found_here n c cs1 head a i clp ps h (omega arith))
]

-- On an array that holds the pools of a list, the loop of `session_close`, with the shift of the
-- pools behind the one that is given up, does what `close_pools` does on the list: it ends early
-- for the same reason, or with the same clients and the same calls, and with an array that holds
-- the list's pools, whose number is then `n_pls`.
pub close_at-close_pools :
    (c : ℕ) (cs : Clients) (a : Slots) (ps : List ClientPool)
    → HoldsFrom a 0 ps
    → Agree a 0 (close_at (length ps) (length ps) c cs a 0) (close_pools (length ps) c cs ps)
close_at-close_pools c cs a ps h = Agree-from ps (length ps) c cs a 0 h (omega arith)
