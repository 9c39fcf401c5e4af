-- ===== src/Chat/Watch.antt =====
-- Which descriptors the epoll instance of src/chat_server.c watches, and with which pointers: what
-- the calls of sys_epoll_ctl and sys_close so far have made of its table.
use chat_server.Base.{
  sym, ℕ, ◌≡◌, ◌≢◌, ◌⊎◌, inl, inr, refl, ap, ap₂, ◌∙◌, Option, none, some, List, [], ◌∷◌, ◌++◌,
  arith, ◌==◌, if◌then◌else◌, has, true, false, Bool-cases,
}
use chat_server.Chat.State.{
  Clients, Out, write, close, munmap, watch, reuse_address, bind, listen, World,
}
use chat_server.Chat.Send.Laws.{deliveries}
use chat_server.Chat.Invariant.{View, connected}

-- The pointer of each descriptor that is watched.
abbrev pub Table : Type 0
Table = ℕ → Option ℕ

abbrev pub unwatched : Table
unwatched fd = none

-- The kernel drops a descriptor that is closed from the table.
abbrev pub interest : List Out → Table → Table
interest [] t = t
interest (write fd text ∷ os) t = interest os t
interest (close fd ∷ os) t = interest os (λ a. if a == fd then none else t a)
interest (munmap base size ∷ os) t = interest os t
interest (watch fd p ∷ os) t = interest os (λ a. if a == fd then some p else t a)
interest (reuse_address fd ∷ os) t = interest os t
interest (bind fd port ∷ os) t = interest os t
interest (listen fd backlog ∷ os) t = interest os t

pub interest-append :
    (xs ys : List Out) (t : Table) → interest (xs ++ ys) t ≡ interest ys (interest xs t)
interest-append [] ys t = refl
interest-append (write fd text ∷ xs) ys t = interest-append xs ys t
interest-append (close fd ∷ xs) ys t = interest-append xs ys _
interest-append (munmap base size ∷ xs) ys t = interest-append xs ys t
interest-append (watch fd p ∷ xs) ys t = interest-append xs ys _
interest-append (reuse_address fd ∷ xs) ys t = interest-append xs ys t
interest-append (bind fd port ∷ xs) ys t = interest-append xs ys t
interest-append (listen fd backlog ∷ xs) ys t = interest-append xs ys t

pub interest-deliveries :
    (cs : Clients) (msg : List ℕ) (c : ℕ) (xs : List ℕ) (t : Table)
    → interest (deliveries cs msg c xs) t ≡ t
interest-deliveries cs msg c [] t = refl
interest-deliveries cs msg c (x ∷ xs) t = elim (Bool-cases (c == x)) [
  | inl same ↦ rw same (interest-deliveries cs msg c xs t)
  | inr other ↦ rw other (interest-deliveries cs msg c xs t)
]

-- No descriptor of a client and nothing that is watched has changed.
pub record Quiet (w w' : World) : Type 0 where
  pub same_fd : (a : ℕ) → (w'.clients a).fd ≡ (w.clients a).fd
  pub same_table : (t : Table) → interest w'.out t ≡ interest w.out t

pub Quiet-refl : (w : World) → Quiet w w
Quiet-refl w = record { same_fd = λ a. refl; same_table = λ t. refl }

pub Quiet-trans : (w w1 w2 : World) → Quiet w w1 → Quiet w1 w2 → Quiet w w2
Quiet-trans w w1 w2 p q = record {
  same_fd = λ a. q.same_fd a ∙ p.same_fd a;
  same_table = λ t. q.same_table t ∙ p.same_table t;
}

-- The table without a descriptor.
abbrev pub dropped : ℕ → Table → Table
dropped fd t a = if a == fd then none else t a

-- The client c is gone, and its descriptor is not watched any more.
pub record Hung (c : ℕ) (w w' : World) (vs' : List View) : Type 0 where
  pub gone : has c (connected vs') ≡ false
  pub same_fd : (a : ℕ) → a ≢ c → (w'.clients a).fd ≡ (w.clients a).fd
  pub table : (t : Table) → interest w'.out t ≡ dropped (w.clients c).fd (interest w.out t)

-- What a handler of c has done to the table.
pub data Watching (c : ℕ) (w : World) (vs : List View) (w' : World) (vs' : List View) : Type 0 where
  quiet :
      Quiet w w' → ((a : ℕ) → has a (connected vs') ≡ has a (connected vs)) → Watching c w vs w' vs'
  hung : Hung c w w' vs' → Watching c w vs w' vs'

pub Watching-after :
    (c : ℕ) (w w1 w2 : World) (vs vs' : List View)
    → Quiet w w1
    → Watching c w1 vs w2 vs'
    → Watching c w vs w2 vs'
Watching-after c w w1 w2 vs vs' q (quiet p same) = quiet (Quiet-trans w w1 w2 q p) same
Watching-after c w w1 w2 vs vs' q (hung h) = hung (record {
  gone = h.gone;
  same_fd = λ a ne. h.same_fd a ne ∙ q.same_fd a;
  table = λ t. h.table t ∙ ap₂ dropped (q.same_fd c) (q.same_table t);
})

-- Each pointer that is watched is that of the server's own struct, or of a connected client, whose
-- descriptor it is.
abbrev pub AreWatched : ℕ → World → List View → Type 0
AreWatched serv w vs =
    (fd p : ℕ)
    → interest w.out unwatched fd ≡ some p
    → (p ≡ serv) ⊎ ((has p (connected vs) ≡ true) × ((w.clients p).fd ≡ fd))

pub Watching-AreWatched :
    (serv c : ℕ) (w w' : World) (vs vs' : List View)
    → AreWatched serv w vs
    → ((a : ℕ) → a ≢ c → has a (connected vs') ≡ has a (connected vs))
    → Watching c w vs w' vs'
    → AreWatched serv w' vs'
Watching-AreWatched serv c w w' vs vs' i others (quiet q same) fd p e =
    elim (i fd p (ap (λ (t : Table). t fd) (sym (q.same_table unwatched)) ∙ e)) [
      | inl own ↦ inl own
      | inr (there, d) ↦ inr (same p ∙ there, q.same_fd p ∙ d)
    ]
Watching-AreWatched serv c w w' vs vs' i others (hung h) fd p e =
    let before = ap (λ (t : Table). t fd) (sym (h.table unwatched)) ∙ e in
    elim (Bool-cases (fd == (w.clients c).fd)) [
      | inl same ↦ let no : none ≡ some p = rw same at before in absurd (cc)
      | inr differs ↦ elim (i fd p (rw differs at before)) [
        | inl own ↦ inl own
        | inr (there, d) ↦
            let other : p ≢ c = λ same.
              let no : (fd == (w.clients c).fd) ≡ true = rw (← same) (ground (arith, d)) in
              absurd (cc) in
            inr (others p other ∙ there, h.same_fd p other ∙ d)
      ]
    ]
