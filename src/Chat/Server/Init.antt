-- ===== src/Chat/Server/Init.antt =====
-- The set-up of the server: `hton` and `server_init`.
use chat_server.Base.{
  ℕ, ◌+◌, ◌-◌, ◌*◌, ◌/◌, ◌%◌, ◌^◌, ◌<◌, ◌≡◌, refl, Bool, true, false, Option, some, none, List, [],
  ◌∷◌, arith, if◌then◌else◌, take, ◌==◌,
}
use chat_server.Base.Bits.{bit_or_apart}
use chat_server.Chat.State.{reuse_address, bind, listen}
use chat_server.Chat.Server.{Setup, backlog, hton, server_init}

-- `hton` swaps the two bytes of a port.
pub hton_swaps : (port : ℕ) → port < 2 ^ 16 → hton port ≡ port % 256 * 256 + port / 256
unfolding hton
hton_swaps port lt = rw (bit_or_apart 8 port (port / 2 ^ 8) (omega arith)) (omega arith)

-- Swapping the bytes of a 16-bit port twice gives the port.
pub hton-hton : (port : ℕ) → port < 2 ^ 16 → hton (hton port) ≡ port
hton-hton port lt = omega (arith, hton_swaps port lt, hton_swaps (hton port))

abbrev pub is_some {ℓ} : {A : Type ℓ} → Option A → Bool
is_some none = false
is_some (some a) = true

-- The number of the first call that fails, or 0.
abbrev pub first_failure : ℕ → List Bool → ℕ
first_failure n [] = 0
first_failure n (true ∷ more) = first_failure (n + 1) more
first_failure n (false ∷ more) = n

fails :
    (socket : Option ℕ) (set bound listening : Bool) (port : ℕ)
    → let r =
        server_init
          (record { socket = socket; option_set = set; bound = bound; listening = listening })
          port in
      (r.0 ≡ first_failure 1 (is_some socket ∷ set ∷ bound ∷ listening ∷ []))
      × (r.2
          ≡ take
              (if r.0 == 0 then 3 else r.0 - 2)
              (reuse_address r.1 ∷ bind r.1 (hton port) ∷ listen r.1 backlog ∷ []))
unfolding server_init
fails none set bound listening port = (refl, refl)
fails (some ls) false bound listening port = (refl, refl)
fails (some ls) true false listening port = (refl, refl)
fails (some ls) true true false port = (refl, refl)
fails (some ls) true true true port = (refl, refl)

-- For a 16-bit port `server_init` answers the number of the first call that fails, or 0, and of the
-- calls behind the socket's it has made those that succeeded: the port is bound with its two bytes
-- swapped, in network order, and only then the socket listens.
pub server_init_fails :
    (a : Setup) (port : ℕ)
    → port < 2 ^ 16
    → let r = server_init a port in
      (r.0 ≡ first_failure 1 (is_some a.socket ∷ a.option_set ∷ a.bound ∷ a.listening ∷ []))
      × (r.2
          ≡ take (if r.0 == 0 then 3 else r.0 - 2) (
              reuse_address r.1
              ∷ bind r.1 (port % 256 * 256 + port / 256)
              ∷ listen r.1 backlog
              ∷ []))
server_init_fails a port lt =
    rw (← hton_swaps port lt) (fails a.socket a.option_set a.bound a.listening port)
