-- ===== src/Chat/Close/Unlink.antt =====
-- The inner loop of `session_close` takes one node out of a list.
use chat_server.Base.{
  ℕ, zero, suc, ◌<◌, ◌≡◌, refl, true, false, none, some, List, [], ◌∷◌, arith, ◌==◌, length, has,
  Distinct, erase, Bool-cases, inl, inr,
}
use chat_server.Chain.{Chain, Chain-frame}
use chat_server.Chat.State.{Clients, update, load_link, ok}
use chat_server.Chat.Close.{root, next_of, unlink}
use chat_server.Chat.Invariant.{links, SameRest}

-- Only links differ, and those only at the given nodes.
pub record Relinked (xs : List ℕ) (cs cs' : Clients) : Type 0 where
  pub same_link : (a : ℕ) → load_link cs' a ≡ load_link cs a
  pub same_fd : (a : ℕ) → (cs' a).fd ≡ (cs a).fd
  pub elsewhere : (a : ℕ) → has a xs ≡ false → cs' a ≡ cs a
  pub same_rest : (a : ℕ) → SameRest cs cs' a

unlink_absent :
    (left : ℕ) (cs : Clients) (head c p : ℕ) (ys : List ℕ)
    → Chain (links cs) (links cs p) ys
    → has c ys ≡ false
    → length ys < left
    → unlink left cs head c (next_of p) ≡ ok none
unfolding unlink
unlink_absent zero cs head c p ys ch out lt = absurd (omega arith)
unlink_absent (suc left) cs head c p [] ch out lt = ground arith
unlink_absent (suc left) cs head c p (y ∷ ys) ch out lt =
    ground (arith, ch.0, ch.1, unlink_absent left cs head c y ys ch.2)

-- Behind the node p stands the rest ys of the list, with c in it.
unlink_present :
    (left : ℕ) (cs : Clients) (head c p : ℕ) (ys : List ℕ)
    → Chain (links cs) (links cs p) ys
    → Distinct (p ∷ ys)
    → has c ys ≡ true
    → length ys < left
    → (cs' : Clients) × (unlink left cs head c (next_of p) ≡ ok (some (cs', head)))
      × Chain (links cs') (links cs' p) (erase c ys)
      × Relinked (p ∷ ys) cs cs'
unfolding unlink
unlink_present zero cs head c p ys ch d there lt = absurd (omega arith)
unlink_present (suc left) cs head c p [] ch d there lt = absurd (cc)
unlink_present (suc left) cs head c p (y ∷ ys) ch d there lt = elim (Bool-cases (y == c)) [
  | inl hit ↦
      let cs' = update cs p (record (cs p) { next = (cs y).next }) in
      let here : (c == y) ≡ true = ground arith in
      let to_y : links cs' p ≡ links cs y = ground arith in
      (
        cs',
        ground (arith, ch.0, ch.1),
        rw (here, to_y)
            (Chain-frame (links cs) (links cs') (links cs y) ys ch.2 (λ a h. ground (arith, d.0))),
        record {
          same_link = λ a. ground arith;
          same_fd = λ a. ground arith;
          elsewhere = λ a h. ground arith;
          same_rest = λ a. ground arith;
        },
      )
  | inr miss ↦
      let (cs', e, ch', r) =
        unlink_present left cs head c y ys ch.2 d.1 (ground arith) (omega arith) in
      let keeps : cs' p ≡ cs p = r.elsewhere p d.0 in
      let apart : (c == y) ≡ false = ground arith in
      (
        cs',
        ground (arith, ch.0, ch.1, e),
        rw apart (ground (arith, keeps, ch.0), ch.1, ch'),
        record {
          same_link = r.same_link;
          same_fd = r.same_fd;
          elsewhere = λ a h. r.elsewhere a (ground arith);
          same_rest = r.same_rest;
        },
      )
]

-- The whole loop on a pool's list xs, from its head.
pub unlink_root :
    (cs : Clients) (head c left : ℕ) (xs : List ℕ)
    → Chain (links cs) head xs
    → Distinct xs
    → has c xs ≡ true
    → length xs < left
    → (cs' : Clients) × (head' : ℕ) × (unlink left cs head c root ≡ ok (some (cs', head')))
      × Chain (links cs') head' (erase c xs)
      × Relinked xs cs cs'
unfolding unlink
unlink_root cs head c zero xs ch d there lt = absurd (omega arith)
unlink_root cs head c (suc left) [] ch d there lt = absurd (cc)
unlink_root cs head c (suc left) (x ∷ xs) ch d there lt = elim (Bool-cases (x == c)) [
  | inl hit ↦
      let here : (c == x) ≡ true = ground arith in
      (
        cs,
        links cs x,
        ground (arith, ch.0, ch.1),
        rw here ch.2,
        record {
          same_link = λ a. refl;
          same_fd = λ a. refl;
          elsewhere = λ a h. refl;
          same_rest = λ a. (refl, refl, refl);
        },
      )
  | inr miss ↦
      let (cs', e, ch', r) =
        unlink_present left cs head c x xs ch.2 d (ground arith) (omega arith) in
      let apart : (c == x) ≡ false = ground arith in
      (cs', head, ground (arith, ch.0, ch.1, e), rw apart (ch.0, ch.1, ch'), r)
]

pub unlink_root_absent :
    (cs : Clients) (head c left : ℕ) (xs : List ℕ)
    → Chain (links cs) head xs
    → has c xs ≡ false
    → length xs < left
    → unlink left cs head c root ≡ ok none
unfolding unlink
unlink_root_absent cs head c zero xs ch out lt = absurd (omega arith)
unlink_root_absent cs head c (suc left) [] ch out lt = ground arith
unlink_root_absent cs head c (suc left) (x ∷ xs) ch out lt =
    ground (arith, ch.0, ch.1, unlink_absent left cs head c x xs ch.2)
