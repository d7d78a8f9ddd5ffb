-- ===== src/Chat/Redis/Tests.antt =====
-- Tests of the Redis client.
use alexproject.Common.{◌≡◌, refl, true, false, [], ◌∷◌, none, some}
use alexproject.Common.Int.{ℤ, pos, negsuc}
use alexproject.Common.Literal.{codes}
use alexproject.Chat.Redis.{atoi, observe, array_reply, null_reply, send_command, publish_command}

abbrev channel : ℤ
channel = negsuc 41

stops_at_letter : atoi (codes "12x3") ≡ pos 12
unfolding atoi
stops_at_letter = refl

confirmation_skipped :
    observe (
      array_reply (codes "13") none
      ∷ null_reply
      ∷ array_reply (codes "13") (some (codes "hi"))
      ∷ [])
    ≡ (pos 13, codes "hi") ∷ []
unfolding observe
confirmation_skipped = refl

second_write_finishes : send_command true (some false ∷ some true ∷ []) ≡ some true
unfolding send_command
second_write_finishes = refl

publish_words :
    publish_command (pos 13) (codes "hi") ≡ codes "PUBLISH" ∷ codes "13" ∷ codes "hi" ∷ []
unfolding publish_command
publish_words = refl
