-- ===== src/Muduo/Grace.antt =====
-- project/MyMuduo/graceserver.cc and graceclient.cc: a server that answers one connection, and a client that copies between
-- its terminal and the server until it is told to shut down. What the system calls return is an argument.
pub mod Shutdown
pub mod Setup
mod Tests
use alexproject.Common.{
  ℕ, ◌+◌, Bool, true, false, ◌&&◌, List, [], ◌∷◌, ◌++◌, Option, none, some, ◌==◌, ltb, leb, length,
  if◌then◌else◌, ◌>>=◌, take,
}
use alexproject.Common.Decimal.{Text}
use alexproject.Common.Text.{c_string, text_eq}
use alexproject.Common.Literal.{codes}

abbrev pub maxline : ℕ
maxline = 4096

-- What `read` returned: -1, or at most MAXLINE bytes, none at the end of the stream.
pub data Read : Type 0 where
  read_failed : Read
  came : Text → Read

-- One round of the server: the process ends, or the text that it sends and the count.
pub data Served : Type 0 where
  server_exits : Served
  replies : Text → ℕ → Served

-- `none` where a byte is written behind an array: the zero behind a full `message`, or an answer that is longer
-- than `send_line`.
unfoldable pub serve : Read → ℕ → Option Served
serve read_failed count = some server_exits
serve (came []) count = some server_exits
serve (came (b ∷ bs)) count =
    let answer = codes "Hi, " ++ c_string (b ∷ bs) in
    if ltb (length (b ∷ bs)) maxline && ltb (length answer) maxline
    then some (replies answer (count + 1))
    else none

-- `strncmp(line, word, strlen(word)) == 0`
abbrev pub starts_with : Text → Text → Bool
starts_with word line = text_eq (take (length word) line) word

-- The line without the newline at its end.
abbrev pub without_newline : Text → Text
without_newline [] = []
without_newline (c ∷ []) = if c == 10 then [] else c ∷ []
without_newline (c ∷ d ∷ cs) = c ∷ without_newline (d ∷ cs)

-- What the client does, in order.
pub data Action : Type 0 where
  prints writes : Text → Action
  shuts_write closes : Action

-- Whether descriptor 0 is watched, and whether the process goes on.
pub record GraceClient : Type 0 where
  pub reads_stdin : Bool
  pub alive : Bool

unfoldable pub new_grace_client : GraceClient
new_grace_client = record { reads_stdin = true; alive = true }

-- The part for the socket, where it is ready.
unfoldable pub read_socket : Read → GraceClient → GraceClient × List Action
read_socket read_failed g = (record g { alive = false }, [])
read_socket (came []) g = (record g { alive = false }, [])
read_socket (came (b ∷ bs)) g = (g, prints (c_string (b ∷ bs)) ∷ prints (10 ∷ []) ∷ [])

-- The part for the terminal: a line that `fgets` gave, or none at the end of the input.
unfoldable pub read_stdin : Option Text → GraceClient → GraceClient × List Action
read_stdin none g = (g, [])
read_stdin (some line) g =
    if starts_with (codes "shutdown") line
    then (record g { reads_stdin = false }, shuts_write ∷ [])
    else if starts_with (codes "close") line
    then (record g { reads_stdin = false; alive = false }, closes ∷ [])
    else (
      g,
      prints (codes "now sending " ++ without_newline line) ∷ writes (without_newline line) ∷ [],
    )

-- What `select` found: the socket with what its `read` gives, and the terminal with what `fgets` gives.
pub record Selected : Type 0 where
  pub socket : Option Read
  pub stdin : Option (Option Text)

abbrev pub on_socket : Option Read → GraceClient → GraceClient × List Action
on_socket none g = (g, [])
on_socket (some r) g = read_socket r g

-- `select` names the terminal only while it is watched.
abbrev pub on_stdin : Option (Option Text) → GraceClient → GraceClient × List Action
on_stdin none g = (g, [])
on_stdin (some line) g = if g.reads_stdin && g.alive then read_stdin line g else (g, [])

unfoldable pub round : Selected → GraceClient → GraceClient × List Action
unfolding read_socket read_stdin
round ready g =
    let (h, shown) = on_socket ready.socket g in
    let (k, done) = on_stdin ready.stdin h in (k, shown ++ done)

-- Rounds until the process ends.
unfoldable pub rounds : List Selected → GraceClient → GraceClient × List Action
unfolding round
rounds [] g = (g, [])
rounds (ready ∷ more) g =
    if g.alive
    then (let (h, done) = round ready g in let (k, rest) = rounds more h in (k, done ++ rest))
    else (g, [])
