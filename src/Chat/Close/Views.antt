-- ===== src/Chat/Close/Views.antt =====
-- What `close_views` keeps: the chunks, less those of a pool that is given up, and the other
-- clients.
use chat_server.Base.{
  ℕ, ◌≡◌, refl, ap, ◌&&◌, true, false, List, [], ◌∷◌, ◌++◌, arith, ltb, ◌==◌, length, has, Distinct,
  erase, has-erase, Distinct-erase, has-erase_self, Bool-cases, inl, inr,
}
use chat_server.Base.Addresses.{
  Distinct-left, Distinct-right, Distinct-Apart, append-Distinct, Distinct-back, erase-append_left,
  erase-append_right, erase_single, not-has-append, append-not-has, has_of_erase,
}
use chat_server.Chat.Invariant.{View, chunks_of, connected}
use chat_server.Chat.Close.Laws.{freed, close_views}

pub connected_is_chunk :
    (a : ℕ) (vs : List View) → has a (chunks_of vs) ≡ false → has a (connected vs) ≡ false
connected_is_chunk a [] h = refl
connected_is_chunk a (v ∷ vs) h =
    let p = not-has-append a v.used (v.free ++ chunks_of vs) h in
    append-not-has a v.used (connected vs) p.0
      (connected_is_chunk a vs (not-has-append a v.free (chunks_of vs) p.1).1)

not-has-freed :
    (a c : ℕ) (v : View) (xs : List ℕ)
    → has c v.used ≡ true
    → has a (v.used ++ (v.free ++ xs)) ≡ false
    → has a ((freed c v).used ++ ((freed c v).free ++ xs)) ≡ false
not-has-freed a c v xs there h =
    let p = not-has-append a v.used (v.free ++ xs) h in
    append-not-has a (erase c v.used) (c ∷ (v.free ++ xs)) (has-erase c a v.used p.0)
      (ground (arith, p.0, p.1, there))

pub not-has-close_views :
    (n c a : ℕ) (vs : List View)
    → has a (chunks_of vs) ≡ false
    → has a (chunks_of (close_views n c vs)) ≡ false
not-has-close_views n c a [] h = refl
not-has-close_views n c a (v ∷ vs) h =
    let p = not-has-append a v.used (v.free ++ chunks_of vs) h in
    let q = not-has-append a v.free (chunks_of vs) p.1 in
    elim (Bool-cases (has c v.used)) [
      | inl there ↦ elim (Bool-cases (ltb 1 n && (length v.used == 1))) [
        | inl gives_up ↦ rw (there, gives_up) q.1
        | inr stays ↦ rw (there, stays) (not-has-freed a c v (chunks_of vs) there h)
      ]
      | inr out ↦ rw out (
          append-not-has a v.used (v.free ++ chunks_of (close_views n c vs)) p.0 (
            append-not-has a v.free (chunks_of (close_views n c vs)) q.0
              (not-has-close_views n c a vs q.1)))
    ]

freed-Distinct :
    (c : ℕ) (v : View) (xs : List ℕ)
    → has c v.used ≡ true
    → Distinct (v.used ++ (v.free ++ xs))
    → Distinct ((freed c v).used ++ ((freed c v).free ++ xs))
freed-Distinct c v xs there d =
    let used = Distinct-left v.used (v.free ++ xs) d in
    let apart = Distinct-Apart v.used (v.free ++ xs) d in
    append-Distinct (erase c v.used) (c ∷ (v.free ++ xs)) (Distinct-erase c v.used used)
      (apart c there, Distinct-right v.used (v.free ++ xs) d)
      (λ a h. ground (arith, apart a (has_of_erase a c v.used h), has-erase_self c v.used used))

pub close_views-Distinct :
    (n c : ℕ) (vs : List View) → Distinct (chunks_of vs) → Distinct (chunks_of (close_views n c vs))
close_views-Distinct n c [] d = d
close_views-Distinct n c (v ∷ vs) d =
    let rest = Distinct-right v.used (v.free ++ chunks_of vs) d in
    let behind = Distinct-right v.free (chunks_of vs) rest in
    elim (Bool-cases (has c v.used)) [
      | inl there ↦ elim (Bool-cases (ltb 1 n && (length v.used == 1))) [
        | inl gives_up ↦ rw (there, gives_up) behind
        | inr stays ↦ rw (there, stays) (freed-Distinct c v (chunks_of vs) there d)
      ]
      | inr out ↦ rw out (
          Distinct-back v.used (v.free ++ chunks_of vs) (v.free ++ chunks_of (close_views n c vs)) d
            (Distinct-back v.free (chunks_of vs) (chunks_of (close_views n c vs)) rest
              (close_views-Distinct n c vs behind) (λ a. not-has-close_views n c a vs))
            (λ a h.
              let q = not-has-append a v.free (chunks_of vs) h in
              append-not-has a v.free (chunks_of (close_views n c vs)) q.0
                (not-has-close_views n c a vs q.1)))
    ]

-- The clients that stay connected are the others, in the same order.
pub connected-close_views :
    (n c : ℕ) (vs : List View)
    → Distinct (chunks_of vs)
    → connected (close_views n c vs) ≡ erase c (connected vs)
connected-close_views n c [] d = refl
connected-close_views n c (v ∷ vs) d =
    let rest = Distinct-right v.used (v.free ++ chunks_of vs) d in
    let behind = Distinct-right v.free (chunks_of vs) rest in
    elim (Bool-cases (has c v.used)) [
      | inl there ↦
          rw (there, erase-append_left c v.used (connected vs) there)
            (elim (Bool-cases (ltb 1 n && (length v.used == 1))) [
              | inl gives_up ↦
                  let one : length v.used ≡ 1 = ground arith in
                  rw (gives_up, erase_single c v.used there one)
              | inr stays ↦ rw stays
            ])
      | inr out ↦
          rw (out, erase-append_right c v.used (connected vs) out)
            (ap (◌++◌ v.used) (connected-close_views n c vs behind))
    ]
