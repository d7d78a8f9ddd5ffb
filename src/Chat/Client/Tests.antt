-- ===== src/Chat/Client/Tests.antt =====
-- Tests of the client's commands, on JSON encodeds that are functions.
use alexproject.Common.{◌≡◌, refl, [], ◌∷◌, none, some}
use alexproject.Common.Int.{pos}
use alexproject.Common.Literal.{codes}
use alexproject.Chat.Models.{User, Group}
use alexproject.Chat.Samples.{encoded}
use alexproject.Chat.Client.{main_menu, complains, shows_help}

abbrev ann : User
ann = record { id = pos 1; name = codes "ann"; password = codes "pw"; state = codes "online" }

help_line : main_menu encoded ann [] (codes "help") ≡ some shows_help
unfolding main_menu
help_line = refl

unknown_line : main_menu encoded ann [] (codes "quit") ≡ some complains
unfolding main_menu
unknown_line = refl

no_number : main_menu encoded ann [] (codes "addgroup:x") ≡ none
unfolding main_menu
no_number = refl

abbrev bob : User
bob = record { id = pos 2; name = codes "bob"; password = []; state = codes "offline" }

abbrev ringers : Group
ringers = record {
  id = pos 9;
  name = codes "ringers";
  desc = codes "bells";
  users =
      record { id = pos 2; name = codes "bob"; state = codes "offline"; role = codes "normal" }
      ∷ [];
}
