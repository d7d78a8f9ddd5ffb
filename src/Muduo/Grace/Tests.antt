-- ===== src/Muduo/Grace/Tests.antt =====
-- A session of the client, and answers of the server.
use alexproject.Muduo.Grace.Setup.{serve_all}
use alexproject.Common.{◌≡◌, refl, [], ◌∷◌, none, some, replicate}
use alexproject.Common.Literal.{codes}
use alexproject.Muduo.Grace.{
  came, replies, serve, prints, writes, shuts_write, new_grace_client, rounds,
}

session :
    (rounds
      (record { socket = none; stdin = some (some (codes "hello\n")) }
        ∷ record {
          socket = some (came (codes "Hi, hello"));
          stdin = some (some (codes "shutdown\n"));
        }
        ∷ record { socket = some (came []); stdin = none }
        ∷ record { socket = none; stdin = some (some (codes "lost\n")) }
        ∷ [])
      new_grace_client).1
    ≡ prints (codes "now sending hello")
      ∷ writes (codes "hello")
      ∷ prints (codes "Hi, hello")
      ∷ prints (codes "\n")
      ∷ shuts_write
      ∷ []
unfolding rounds new_grace_client
session = refl

answer : serve (came (codes "hello")) 0 ≡ some (replies (codes "Hi, hello") 1)
unfolding serve
answer = refl

-- A message that fills the array overflows it.
full : serve (came (replicate 4096 65)) 0 ≡ none
unfolding serve
full = refl

two_answers :
    serve_all (came (codes "ann") ∷ came (codes "bob") ∷ came [] ∷ []) 0
    ≡ some (codes "Hi, ann" ∷ codes "Hi, bob" ∷ [], 2)
unfolding serve_all
two_answers = refl
