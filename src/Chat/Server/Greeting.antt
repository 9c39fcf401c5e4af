-- ===== src/Chat/Server/Greeting.antt =====
-- A connection for which there is room is greeted.
use chat_server.Base.{
  ℕ, ◌*◌, ◌<◌, ◌≡◌, refl, subst, true, false, some, List, [], ◌∷◌, ◌++◌, arith, ◌==◌, ◌||◌, length,
  has,
}
use chat_server.Chat.State.{write, watch, World, Run, ok}
use chat_server.Chat.New.Session.{reused, grown, refused, unmapped, session_new-NewOutcome}
use chat_server.Chat.New.Views.{AreFull-connected}
use chat_server.Chat.Frame.{IsRunning}
use chat_server.Chat.Server.Fresh.{IsFree, IsNew, reused-IsNew}
use chat_server.Chat.Server.Grown.{grown-IsNew}
use chat_server.Chat.Server.Accepting.{greeted-IsRunning}
use chat_server.Chat.Server.{accepted, greeted, greeting, accept_one}
use chat_server.Chat.Invariant.{View, connected}

-- A running server in which a client has come by the descriptor, with nothing read from it yet.
pub record Greets (fd : ℕ) (w : World) (vs : List View) (r : Run World) : Type 0 where
  pub c : ℕ
  pub after : World
  pub views : List View
  pub returns : r ≡ ok after
  pub running : IsRunning after views
  pub new : has c (connected vs) ≡ false
  pub members : (a : ℕ) → has a (connected views) ≡ ((a == c) || has a (connected vs))
  pub fields :
      ((after.clients c).fd ≡ fd)
      × ((after.clients c).buf_used ≡ 0)
      × ((after.clients c).name_used ≡ 0)
      × ((after.clients c).name_ok ≡ 0)
  pub told : after.out ≡ w.out ++ watch fd c ∷ write fd greeting ∷ []

greeted-Greets :
    (fd : ℕ) (w w1 : World) (vs vs1 : List View) (c : ℕ)
    → IsRunning w vs
    → IsNew w vs c w1 vs1
    → w1.out ≡ w.out
    → Greets fd w vs (ok (greeted w1 c fd))
greeted-Greets fd w w1 vs vs1 c i n same_out = record {
  c = c;
  after = greeted w1 c fd;
  views = vs1;
  returns = refl;
  running = greeted-IsRunning w w1 vs vs1 c i n same_out fd;
  new = n.new;
  members = n.members;
  fields = ground arith;
  told = rw same_out refl;
}

-- On a running server to which fewer than 16 * 1023 clients are connected, with memory for another
-- pool and a descriptor that can be watched, a connection gets a client of its own: it is watched
-- and greeted, all others stay connected, and the server runs on.
pub accept_one-Greets :
    (fd buf : ℕ) (w : World) (vs : List View)
    → IsRunning w vs
    → IsFree w vs buf
    → length (connected vs) < 16 * 1023
    → Greets fd w vs (accept_one (accepted fd (some buf) true) w)
unfolding accept_one
accept_one-Greets fd buf w vs i k room =
    elim (session_new-NewOutcome (some buf) w vs i.safe.server
      (λ b e. let same : buf ≡ b = cc in (subst (λ x. IsFree w vs x) same k).mapping)) [
        | reused c w1 vs1 e ne t j l same o ↦
            let nz : (c == 0) ≡ false = ground arith in
            rw (e, nz)
              (greeted-Greets fd w w1 vs vs1 c i (reused-IsNew w w1 vs vs1 c i.safe ne t j l same)
                o)
        | grown c w1 rest b e ne full more m f j only o ↦
            let nz : (c == 0) ≡ false = ground arith in
            let same : buf ≡ b = cc in
            rw (e, nz)
              (greeted-Greets fd w w1 vs _ c i
                (grown-IsNew w w1 vs c b rest i.safe (subst (λ x. IsFree w vs x) same k) f only ne
                  more j)
                o)
        | refused e full n ↦
            absurd (omega (arith, AreFull-connected w.clients w.pools vs i.safe.server.pools full))
        | unmapped e full n m ↦ absurd (cc)
      ]
