-- ===== src/Chat/Read/Naming.antt =====
-- The name among the bytes that a client sends, and what is written when it is whole.
use chat_server.Base.{
  Bool-cases, ℕ, zero, suc, ◌+◌, ◌≤◌, ◌<◌, ◌≡◌, inl, inr, refl, Bool, false, some, none, List, [],
  ◌∷◌, ◌++◌, arith, ltb, ◌==◌, ◌||◌, if◌then◌else◌,
}
use chat_server.Memory.Split.{split_by, IsFirst}
use chat_server.Chat.State.{Clients, Out, write, World, name_of}
use chat_server.Chat.Send.Laws.{deliveries}
use chat_server.Chat.Read.{entered_msg, cut_name}
use chat_server.Chat.Read.Name.{named}
use chat_server.Chat.Read.Enter.{welcome_text}
use chat_server.Chat.Read.Hears.{deliveries_same}

abbrev pub is_end : ℕ → Bool
is_end x = (x == 10) || (x == 13)

-- The bytes that become the name, and whether they are one: up to the first end of a line.
abbrev pub naming : List ℕ → List ℕ × ℕ
naming sent = elim (split_by is_end sent) [ none ↦ (sent, 0) | some (name, rest) ↦ (name, 1) ]

-- What is written when a name is whole: the client is welcomed, and the others are told.
abbrev pub entrance : Clients → ℕ → List ℕ → List ℕ × ℕ → List Out
entrance cs c xs (name, is_whole) =
    if is_whole == 1
    then write (cs c).fd (welcome_text name) ∷ deliveries cs (name ++ entered_msg) c xs
    else []

pub entrance_same :
    (cs cs' : Clients) (c : ℕ) (xs : List ℕ) (r : List ℕ × ℕ)
    → ((a : ℕ) → (cs' a).fd ≡ (cs a).fd)
    → entrance cs' c xs r ≡ entrance cs c xs r
entrance_same cs cs' c xs (name, is_whole) h =
    rw (h c, deliveries_same cs cs' (name ++ entered_msg) c xs h) refl

pub naming-none : (sent : List ℕ) → split_by is_end sent ≡ none → naming sent ≡ (sent, 0)
naming-none sent e = rw (naming, e) refl

pub naming-some :
    (sent name rest : List ℕ) → split_by is_end sent ≡ some (name, rest) → naming sent ≡ (name, 1)
naming-some sent name rest e = rw (naming, e) refl

pub cut_name_none :
    (left c n : ℕ) (w : World)
    → ((j : ℕ) → j < n + left → is_end (w.mem (name_of c + j)) ≡ false)
    → cut_name left c n w ≡ w
unfolding cut_name
cut_name_none zero c n w h = refl
cut_name_none (suc left) c n w h =
    rw (cut_name, h n (omega arith)) (cut_name_none left c (n + 1) w (λ j lt. h j (omega arith)))

pub cut_name_first :
    (left c n used k : ℕ) (w : World)
    → IsFirst is_end w.mem (name_of c) used k
    → n ≤ k
    → k < n + left
    → cut_name left c n w ≡ named c k w
unfolding cut_name
cut_name_first zero c n used k w f le lt = absurd (omega arith)
cut_name_first (suc left) c n used k w f le lt = elim (Bool-cases (ltb n k)) [
  | inl before ↦
      rw (cut_name, f.misses n (ground arith))
        (cut_name_first left c (n + 1) used k w f (ground arith) (omega arith))
  | inr at_end ↦ let e : n ≡ k = ground arith in rw (cut_name, e, f.hit) refl
]
