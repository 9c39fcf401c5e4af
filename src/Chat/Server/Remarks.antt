-- ===== src/Chat/Server/Remarks.antt =====
-- A client that gives its name and sends whole lines: between its wake-ups it is idle.
use chat_server.Base.{
  ℕ, ◌+◌, ◌≤◌, ◌≡◌, refl, ap, sym, ◌∙◌, Option, none, List, [], ◌∷◌, ◌++◌, arith, length,
  append-nil,
}
use chat_server.Memory.Laws.{length-bytes}
use chat_server.Memory.Split.{split_by, before, before-none, split_by-append}
use chat_server.Chat.State.{write, World, ok}
use chat_server.Chat.Send.Laws.{deliveries}
use chat_server.Chat.Line.Laws.{line_text}
use chat_server.Chat.Line.Says.{
  is_newline, is_zero, IsNamed, name_bytes, pending, shown_name, speech, told,
}
use chat_server.Chat.Read.{Answer, entered_msg, session_name_read, session_line_read}
use chat_server.Chat.Read.Safe.{IsNaming}
use chat_server.Chat.Read.Enter.{welcome_text}
use chat_server.Chat.Read.Hears.{OneRead, Hears, session_line_read-Hears}
use chat_server.Chat.Read.Naming.{is_end, naming, entrance}
use chat_server.Chat.Read.Enters.{Enters, session_name_read-Enters}
use chat_server.Chat.Invariant.{View, connected}

-- A line that is sent, with its end, in one wake-up.
pub record Remark : Type 0 where
  pub clock : Option ℕ
  pub line : List ℕ
  pub answers : List Answer

pub record IsRemark (s : Remark) : Type 0 where
  pub one_line : split_by is_newline s.line ≡ none
  pub one_read : OneRead (s.line ++ 10 ∷ []) s.answers
  pub fits : length (s.line ++ 10 ∷ []) ≤ 512

abbrev pub AreRemarks : List Remark → Type 0
AreRemarks [] = Unit {0}
AreRemarks (s ∷ more) = IsRemark s × AreRemarks more

-- A named client with nothing in its buffer.
pub record IsIdle (w : World) (vs : List View) (c : ℕ) (name : List ℕ) : Type 0 where
  pub named : IsNamed w vs c
  pub nothing : pending w c ≡ []
  pub called : name_bytes w c ≡ name

-- The line may be empty.
whole_line-Hears :
    (clock : Option ℕ) (c : ℕ) (vs : List View) (line : List ℕ) (answers : List Answer) (w : World)
    → IsNamed w vs c
    → OneRead (line ++ 10 ∷ []) answers
    → (w.clients c).buf_used + length (line ++ 10 ∷ []) ≤ 512
    → Hears clock c (line ++ 10 ∷ []) w vs (session_line_read clock answers c w)
whole_line-Hears clock c vs [] answers w i o fits =
    session_line_read-Hears clock c vs 10 [] answers w i o fits
whole_line-Hears clock c vs (x ∷ line) answers w i o fits =
    session_line_read-Hears clock c vs x (line ++ 10 ∷ []) answers w i o fits

whole_name-Enters :
    (c : ℕ) (vs : List View) (name : List ℕ) (answers : List Answer) (w : World)
    → IsNaming w vs c
    → OneRead (name ++ 10 ∷ []) answers
    → (w.clients c).name_used + length (name ++ 10 ∷ []) ≤ 32
    → Enters c (name ++ 10 ∷ []) w vs (session_name_read answers c w)
whole_name-Enters c vs [] answers w i o fits =
    session_name_read-Enters c vs 10 [] answers w i o fits
whole_name-Enters c vs (x ∷ name) answers w i o fits =
    session_name_read-Enters c vs x (name ++ 10 ∷ []) answers w i o fits

module _ (c : ℕ) (vs : List View) (name : List ℕ) (plain : split_by is_zero name ≡ none) where
  pub idle-shown_name : (w : World) → IsIdle w vs c name → shown_name w c ≡ name
  idle-shown_name w i = ap (before is_zero) i.called ∙ before-none is_zero name plain

  idle_count : (w : World) → IsIdle w vs c name → (w.clients c).buf_used ≡ 0
  idle_count w i =
      let n = length-bytes w.mem (c + 8) (w.clients c).buf_used in
      let e : length (pending w c) ≡ 0 = rw i.nothing refl in sym n ∙ e

  -- A line leaves the client idle, and is told to all others.
  pub remark-told :
      (s : Remark) (w : World)
      → IsRemark s
      → IsIdle w vs c name
      → (w1 : World) × (session_line_read s.clock s.answers c w ≡ ok w1)
        × IsIdle w1 vs c name
        × (w1.out
            ≡ w.out
              ++ deliveries w.clients (line_text s.clock name (s.line ++ 10 ∷ [])) c (connected vs))
        × ((a : ℕ) → (w1.clients a).fd ≡ (w.clients a).fd)
        × (w1.pools ≡ w.pools)
  remark-told s w k i =
      let count = idle_count w i in
      let h =
        whole_line-Hears s.clock c vs s.line s.answers w i.named k.one_read
          (omega (arith, count, k.fits)) in
      let said : speech s.clock (shown_name w c) (pending w c ++ (s.line ++ 10 ∷ []))
          ≡ (line_text s.clock name (s.line ++ 10 ∷ []) ∷ [], []) =
        rw (idle-shown_name w i, i.nothing)
          (rw (speech, split_by-append is_newline s.line [] 10 k.one_line refl) refl) in
      (
        h.after,
        h.returns,
        record {
          named = h.named;
          nothing = h.held ∙ ap (λ r. r.1) said;
          called = h.same_name ∙ i.called;
        },
        h.told_others
            ∙ ap (λ r. w.out ++ told w.clients r.0 c (connected vs)) said
            ∙ ap (λ os. w.out ++ os) (append-nil _),
        h.same_fds,
        h.same_pools,
      )

  -- A client's name arrives.
  pub name-Idle :
      (answers : List Answer) (w : World)
      → IsNaming w vs c
      → ((w.clients c).name_used ≡ 0) × ((w.clients c).buf_used ≡ 0)
      → split_by is_end name ≡ none
      → OneRead (name ++ 10 ∷ []) answers
      → length (name ++ 10 ∷ []) ≤ 32
      → (w1 : World) × (session_name_read answers c w ≡ ok w1)
        × IsIdle w1 vs c name
        × (w1.out
            ≡ w.out
              ++ write (w.clients c).fd (welcome_text name)
                ∷ deliveries w.clients (name ++ entered_msg) c (connected vs))
        × ((a : ℕ) → (w1.clients a).fd ≡ (w.clients a).fd)
        × (w1.pools ≡ w.pools)
  name-Idle answers w i fresh one_line o fits =
      let h = whole_name-Enters c vs name answers w i o (omega (arith, fresh.0, fits)) in
      let none_yet : name_bytes w c ≡ [] = rw fresh.0 refl in
      let none_held : pending w c ≡ [] = rw fresh.1 refl in
      let whole : naming (name_bytes w c ++ (name ++ 10 ∷ [])) ≡ (name, 1) =
        rw none_yet (rw (naming, split_by-append is_end name [] 10 one_line refl) refl) in
      let ok_field : (h.after.clients c).name_ok ≡ 1 = h.is_named ∙ ap (λ r. r.1) whole in
      (
        h.after,
        h.returns,
        record {
          named = record {
            safe = h.safe;
            there = i.there;
            has_name = ground (arith, ok_field);
            counted = h.counted;
          };
          nothing = h.same_pending ∙ none_held;
          called = h.name ∙ ap (λ r. r.0) whole;
        },
        h.written ∙ ap (λ r. w.out ++ entrance w.clients c (connected vs) r) whole,
        h.same_fds,
        h.same_pools,
      )
