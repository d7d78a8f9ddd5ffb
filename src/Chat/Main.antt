-- ===== src/Chat/Main.antt =====
-- project/CHAT/src/server/main.cpp, the constructor in project/CHAT/src/server/chatserver.cpp, and the beginning of main in project/CHAT/src/client/main.cpp: the arguments, and the
-- connection of the client.
use alexproject.Common.{
  ℕ, ◌-◌, ◌%◌, ◌^◌, ◌<◌, ◌≡◌, ap, ◌∙◌, Bool, true, false, List, [], ◌∷◌, Option, none, some, arith,
  ◌>>=◌,
}
use alexproject.Common.Int.{ℤ, pos, negsuc}
use alexproject.Common.Decimal.{Text}
use alexproject.Chat.Database.{Mysql, int_text}
use alexproject.Chat.Json.{Json}
use alexproject.Chat.Service.{Service}
use alexproject.Chat.Service.Handlers.{reset}
use alexproject.Chat.Redis.{atoi}
use alexproject.Chat.Redis.Channels.{atoi-int_text}
use alexproject.Muduo.InetAddress.{swap_bytes}

-- The conversion of an `int` to `uint16_t`.
abbrev pub to_uint16 : ℤ → ℕ
to_uint16 (pos n) = n % 2 ^ 16
to_uint16 (negsuc n) = 2 ^ 16 - 1 - n % 2 ^ 16

-- The server exits, or serves at an address and a port.
pub data Launch : Type 0 where
  refused : Launch
  serves : Text → ℕ → Launch

-- `argv`, with the name of the program first.
unfoldable pub server_main : List Text → Launch
unfolding atoi
server_main (name ∷ ip ∷ port ∷ more) = serves ip (to_uint16 (atoi port))
server_main _ = refused

-- What the constructor of `ChatServer` sets in muduo's server.
record ChatServer : Type 0 where
  server_name : Text
  connection_callback : Bool
  message_callback : Bool
  thread_num : ℕ
  started : Bool

new_chat_server : Text → ChatServer
new_chat_server name = record {
  server_name = name;
  connection_callback = true;
  message_callback = true;
  thread_num = 2;
  started = false;
}

start_chat_server : ChatServer → ChatServer
start_chat_server s = record s { started = true }

module _ (K : Mysql) (J : Json) where
  -- `resetHandler`: the database when the process exits.
  reset_handler : Service K J → Option K.State
  unfolding reset
  reset_handler s = do (t, effects) ← reset K J s; some t.db

-- What the client does: it exits, with the descriptor that it closes, or it runs on a descriptor that is connected to
-- an address and a port in network order.
pub data Entry : Type 0 where
  leaves_at_once : Entry
  leaves_after_close : ℕ → Entry
  runs : ℕ → Text → ℕ → Entry

-- With what `socket` and `connect` return. `none` where arguments are missing, which main reads nonetheless.
unfoldable pub client_main : List Text → Option ℕ → Bool → Option Entry
unfolding atoi swap_bytes
client_main (name ∷ ip ∷ port ∷ more) none connected = some leaves_at_once
client_main (name ∷ ip ∷ port ∷ more) (some fd) false = some (leaves_after_close fd)
client_main (name ∷ ip ∷ port ∷ more) (some fd) true =
    some (runs fd ip (swap_bytes (to_uint16 (atoi port))))
client_main _ socket connected = none

-- A port that both programs are given is the one that the server serves at and the one that the client
-- connects to.
ports_agree :
    (server client ip : Text) (port fd : ℕ)
    → port < 2 ^ 16
    → (server_main (server ∷ ip ∷ int_text (pos port) ∷ []) ≡ serves ip port)
      × (client_main (client ∷ ip ∷ int_text (pos port) ∷ []) (some fd) true
          ≡ some (runs fd ip (swap_bytes port)))
unfolding server_main client_main
ports_agree server client ip port fd h =
    let read : to_uint16 (atoi (int_text (pos port))) ≡ port =
      ap to_uint16 (atoi-int_text (pos port) (omega arith)) ∙ omega arith in
    (ap (serves ip) read, ap (λ p. some (runs fd ip (swap_bytes p))) read)
