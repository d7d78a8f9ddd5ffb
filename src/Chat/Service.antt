-- ===== src/Chat/Service.antt =====
-- project/CHAT/include/server/chatservice.hpp and src/server/chatservice.cpp: what the chat server does
-- with a message. A `TcpConnectionPtr` is a number.
pub mod Login
pub mod Handlers
pub mod Delivery
pub mod GroupChat
pub mod Session
pub mod Leaving
pub mod RoundTrip
pub mod Remote
pub mod Response
pub mod Present
mod Tests
use alexproject.Common.{
  ℕ, Bool, true, false, List, [], ◌∷◌, Option, none, some, ◌==◌, if◌then◌else◌, ◌>>=◌,
}
use alexproject.Common.Int.{ℤ, pos, negsuc, int_eq}
use alexproject.Common.Decimal.{Text}
use alexproject.Chat.Database.{Mysql}
use alexproject.Chat.Json.{Json, Key, as_int, as_string}

-- What a handler does outside the database, in order.
pub data Effect : Type 0 where
  -- `conn->send(text)`
  send : ℕ → Text → Effect
  subscribe unsubscribe : ℤ → Effect
  publish : ℤ → Text → Effect
  log_error : ℤ → Effect
  -- `conn->shutdown()`
  shutdown_conn : ℕ → Effect

-- `_userConnMap`, an ordered list of its entries; the source's map has no order that it relies on.
abbrev pub ConnMap : Type 0
ConnMap = List (ℤ × ℕ)

abbrev pub find : ConnMap → ℤ → Option ℕ
find [] id = none
find ((user, conn) ∷ entries) id =
    let rest = find entries id in if int_eq user id then some conn else rest

-- `insert({id, conn})` leaves an entry that is there alone.
abbrev pub insert : ConnMap → ℤ → ℕ → ConnMap
insert [] id conn = (id, conn) ∷ []
insert ((user, c) ∷ entries) id conn =
    let rest = insert entries id conn in
    if int_eq user id then (user, c) ∷ entries else (user, c) ∷ rest

abbrev pub erase_user : ConnMap → ℤ → ConnMap
erase_user [] id = []
erase_user ((user, c) ∷ entries) id =
    let rest = erase_user entries id in if int_eq user id then entries else (user, c) ∷ rest

-- The loop of `clientCloseException`: the first user of `conn`, or -1, and the map without it. The iteration goes in the
-- order of insertion here; where two users have one connection, the unordered map may have the other one first.
abbrev pub take_conn : ConnMap → ℕ → ℤ × ConnMap
take_conn [] conn = (negsuc 0, [])
take_conn ((user, c) ∷ entries) conn =
    let rest = take_conn entries conn in
    if c == conn then (user, entries) else (rest.0, (user, c) ∷ rest.1)

module _ (K : Mysql) (J : Json) where
  pub record Service : Type 0 where
    pub user_conn_map : ConnMap
    pub db : K.State

  -- `none` where the handler throws or leaves defined behaviour.
  abbrev pub Result : Type 0
  Result = Option (Service × List Effect)

  abbrev pub get_int : J.Value → Key → Option ℤ
  get_int js key = J.get js key >>= as_int

  abbrev pub get_string : J.Value → Key → Option Text
  get_string js key = J.get js key >>= as_string
