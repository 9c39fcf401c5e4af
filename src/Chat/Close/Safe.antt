-- ===== src/Chat/Close/Safe.antt =====
-- `session_close` leaves a safe state.
use chat_server.Base.{
  ℕ, ◌≤◌, ◌≡◌, inl, inr, true, List, [], ◌∷◌, arith, length, has, erase, Bool-cases, ◌+◌, ◌∙◌, ap,
  refl, ◌++◌, ◌&&◌, ltb, ◌==◌, Distinct, has-erase_self,
}
use chat_server.Base.Addresses.{Distinct-right, Distinct-back, not-has-append}
use chat_server.Chat.State.{ClientPool, close, World, Run, ok}
use chat_server.Chat.Watch.{Table, interest, interest-append, interest-deliveries, dropped, Hung}
use chat_server.Chat.Close.{session_close}
use chat_server.Chat.Close.Laws.{close_views, given_up}
use chat_server.Chat.Close.Views.{connected_is_chunk, connected-close_views, not-has-close_views}
use chat_server.Chat.Close.Session.{IsClient, farewell, session_close-Closes}
use chat_server.Chat.Frame.{Confined, IsSafe, Confined-IsSafe}
use chat_server.Chat.Invariant.{View, chunks_of, connected}

close_views-length : (n c : ℕ) (vs : List View) → length (close_views n c vs) ≤ length vs
close_views-length n c [] = omega arith
close_views-length n c (v ∷ vs) = ground (arith, close_views-length n c vs)

close_views-part :
    (n c a : ℕ) (vs : List View)
    → has a (chunks_of (close_views n c vs)) ≡ true
    → has a (chunks_of vs) ≡ true
close_views-part n c a vs h = elim (Bool-cases (has a (chunks_of vs))) [
  | inl there ↦ there
  | inr out ↦ let no = not-has-close_views n c a vs out in absurd (cc)
]

pub connected-has :
    (a : ℕ) (vs : List View) → has a (connected vs) ≡ true → has a (chunks_of vs) ≡ true
connected-has a vs h = elim (Bool-cases (has a (chunks_of vs))) [
  | inl there ↦ there
  | inr out ↦ let no = connected_is_chunk a vs out in absurd (cc)
]

pub connected-Distinct : (vs : List View) → Distinct (chunks_of vs) → Distinct (connected vs)
connected-Distinct [] d = tt
connected-Distinct (v ∷ vs) d =
    let rest = Distinct-right v.used (v.free ++ chunks_of vs) d in
    Distinct-back v.used (v.free ++ chunks_of vs) (connected vs) d
      (connected-Distinct vs (Distinct-right v.free (chunks_of vs) rest))
      (λ a h. connected_is_chunk a vs (not-has-append a v.free (chunks_of vs) h).1)

interest-given_up :
    (n c : ℕ) (ps : List ClientPool) (vs : List View) (t : Table)
    → interest (given_up n c ps vs) t ≡ t
interest-given_up n c [] vs t = refl
interest-given_up n c (clp ∷ ps) [] t = refl
interest-given_up n c (clp ∷ ps) (v ∷ vs) t = elim (Bool-cases (has c v.used)) [
  | inl here ↦ elim (Bool-cases (ltb 1 n && (length v.used == 1))) [
    | inl last ↦ rw (here, last) refl
    | inr more ↦ rw (here, more) refl
  ]
  | inr far ↦ rw far (interest-given_up n c ps vs t)
]

-- Of all that a leaving client makes the server do, only the descriptor's end changes the table.
interest-parting :
    (c : ℕ) (w : World) (vs : List View) (t : Table)
    → interest
        (farewell w c vs ++ close (w.clients c).fd ∷ given_up (length w.pools) c w.pools vs)
        t
      ≡ dropped (w.clients c).fd t
interest-parting c w vs t =
    let parting = close (w.clients c).fd ∷ given_up (length w.pools) c w.pools vs in
    let quiet_bye : interest (farewell w c vs) t ≡ t =
      elim (Bool-cases ((w.clients c).name_ok == 1)) [
        | inl is_named ↦ rw is_named (interest-deliveries w.clients _ c (connected vs) t)
        | inr nameless ↦ rw nameless refl
      ] in
    interest-append (farewell w c vs) parting t
    ∙ ap (interest parting) quiet_bye
    ∙ interest-given_up (length w.pools) c w.pools vs (dropped (w.clients c).fd t)

-- What closing a client leaves of a safe state.
pub record Leaves (c : ℕ) (w : World) (vs : List View) (r : Run World) : Type 0 where
  pub after : World
  pub views : List View
  pub returns : r ≡ ok after
  pub safe : IsSafe after views
  pub still : connected views ≡ erase c (connected vs)
  pub confined : Confined c w after
  pub hung : Hung c w after views

-- In a safe state `session_close` of any client struct, connected or not, ends in a safe state
-- with the others connected, touches no other client's name, buffer and descriptor, and the
-- descriptor of the struct is not watched any more.
pub session_close-Leaves :
    (c : ℕ) (w : World) (vs : List View)
    → IsSafe w vs
    → has c (chunks_of vs) ≡ true
    → Leaves c w vs (session_close c w)
session_close-Leaves c w vs i there =
    let s = i.sound c there in
    let n = length w.pools in
    let k : IsClient w c = record { apart = s.apart; name_fits = ground (arith, s.name) } in
    let r = session_close-Closes c w vs i.server k in
    let f : Confined c w r.after = record {
      same_stack = r.same_stack;
      same_rest = r.kept.same_rest;
      same_fd = r.kept.same_fd;
      same_mem = λ x h k. r.memory x h;
    } in
    record {
      after = r.after;
      views = close_views n c vs;
      returns = r.returns;
      safe =
          Confined-IsSafe c w r.after f vs (close_views n c vs) i there r.well_formed
            (close_views-length n c vs) (λ a. close_views-part n c a vs)
            (record {
              apart = rw r.same_stack s.apart;
              name = ground (
                arith,
                s.name,
                s.apart,
                r.kept.same_name,
                r.memory (c + 520 + (w.clients c).name_used),
              );
            });
      still = connected-close_views n c vs i.server.distinct;
      confined = f;
      hung = record {
        gone =
            rw (connected-close_views n c vs i.server.distinct)
              (has-erase_self c (connected vs) (connected-Distinct vs i.server.distinct));
        same_fd = r.kept.same_fd;
        table = λ t.
            ap (λ os. interest os t) r.sent
            ∙ interest-append w.out _ t
            ∙ interest-parting c w vs (interest w.out t);
      };
    }
