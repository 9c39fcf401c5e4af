-- ===== src/Chat/Read/Rounds.antt =====
-- How a reading loop of a handler ends, or a round of it.
use chat_server.Base.{ℕ, ◌≡◌, refl, true, List, has}
use chat_server.Chat.State.{World, Run, ok}
use chat_server.Chat.Close.{session_close}
use chat_server.Chat.Close.Safe.{session_close-Leaves, connected-has}
use chat_server.Chat.Frame.{Confined, Confined-trans, IsSafe}
use chat_server.Chat.Watch.{Quiet, Quiet-trans}
use chat_server.Chat.Handler.{Handles, Leaves-Handles, Handles-after}
use chat_server.Chat.Read.{Ended, going, returned, closed}
use chat_server.Chat.Invariant.{View, connected}

-- The client is still there, in a state as described, or the handler has returned.
pub data Round (P : World → Type 0) (c : ℕ) (w : World) (vs : List View) (r : Run Ended)
    : Type 0 where
  stays : (w1 : World) → r ≡ ok (going w1) → P w1 → Confined c w w1 → Quiet w w1 → Round P c w vs r
  leaves : (w1 : World) → r ≡ ok (returned w1) → Handles c w vs (ok w1) → Round P c w vs r

module _ (c : ℕ) (vs : List View) (P : World → Type 0) where
  -- A struct that is changed before the client is closed.
  pub closes :
      (w w1 : World)
      → IsSafe w1 vs
      → has c (connected vs) ≡ true
      → Confined c w w1
      → Quiet w w1
      → Round P c w vs (closed (session_close c w1))
  closes w w1 i there f q =
      let l = session_close-Leaves c w1 vs i (connected-has c vs there) in
      let h =
        Handles-after c w w1 vs (session_close c w1) f q
          (Leaves-Handles c w1 vs (session_close c w1) i l) in
      leaves h.after (rw h.returns refl) (record {
        after = h.after;
        views = h.views;
        returns = refl;
        safe = h.safe;
        confined = h.confined;
        others = h.others;
        watching = h.watching;
        own = h.own;
      })

  -- The rounds behind one that was confined to the client.
  pub later :
      (w w1 : World) {r : Run Ended}
      → Confined c w w1
      → Quiet w w1
      → Round P c w1 vs r
      → Round P c w vs r
  later w w1 f q (stays w2 e i g p) =
      stays w2 e i (Confined-trans c w w1 w2 f g) (Quiet-trans w w1 w2 q p)
  later w w1 f q (leaves w2 e h) = leaves w2 e (Handles-after c w w1 vs (ok w2) f q h)
