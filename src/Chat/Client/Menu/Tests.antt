-- ===== src/Chat/Client/Menu/Tests.antt =====
-- Tests of the two threads of the client: a login that the server accepts.
use alexproject.Common.Reach.{Reach, here, next}
use alexproject.Common.{◌≡◌, refl, true, [], ◌∷◌, some, arith}
use alexproject.Common.Int.{pos}
use alexproject.Common.Decimal.{Text}
use alexproject.Common.Text.{c_string}
use alexproject.Common.Literal.{codes}
use alexproject.Chat.Models.{User}
use alexproject.Chat.Samples.{
  encoded, no_rows, write_text, write_texts, write_field, write_members, write, read_chars,
  read_text, read_texts, read_counted, read_field, read_members, read,
}
use alexproject.Chat.Service.Login.{login_response}
use alexproject.Chat.Client.Responses.{new_client, read_task, show_current_user_data}
use alexproject.Chat.Client.Responses.Login.{logged_in}
use alexproject.Chat.Client.Menu.{
  waiting_login, World, new_world, send_login, pass_login, after_read, chooses_login, wakes_login,
  Step, answers_login, reads,
}
use alexproject.Chat.Client.Menu.Reading.{LoginAccepted}
use alexproject.Chat.Client.Menu.Handshake.{in_main_menu-LoginAccepted, main-Due}
use alexproject.Chat.Client.Menu.Invariant.{Due, logins_due, regs_due}

abbrev ann : User
ann = record { id = pos 1; name = codes "ann"; password = codes "pw"; state = codes "online" }

abbrev answer : Text
unfolding login_response write
answer = encoded.dump (login_response no_rows encoded ann [] [] [])

abbrev waiting : World encoded
unfolding send_login new_world
waiting = send_login encoded (new_world encoded)

abbrev arrived : World encoded
arrived = record waiting { requests = []; arriving = answer ∷ [] }

abbrev entered : World encoded
unfolding pass_login after_read
entered =
    pass_login encoded
      (after_read encoded answer [] (logged_in ann [] [] waiting.client) true arrived)

waiting-Reach : Reach (Step encoded) (new_world encoded) waiting
unfolding send_login new_world
waiting-Reach = next here (chooses_login refl)

entered-Reach : Reach (Step encoded) (new_world encoded) entered
unfolding write_text write_texts write_field write_members write read_chars read_text read_texts
    read_counted read_field read_members read read_task login_response send_login new_world
    new_client show_current_user_data after_read pass_login entered
entered-Reach =
    next
      (next (next waiting-Reach (answers_login answer [] refl refl)) (
        reads answer [] _ (show_current_user_data (logged_in ann [] [] waiting.client)) true refl
          refl))
      (wakes_login refl (omega arith))

main-Due_example : Due waiting_login (logins_due encoded waiting) (regs_due encoded waiting) 0
unfolding send_login new_world
main-Due_example = main-Due encoded waiting-Reach

in_main_menu-LoginAccepted_example :
    (entered.client.is_login_success ≡ true)
    × (text : Text) × (js : encoded.Value) × (entered.last_ack ≡ some text)
    × (encoded.parse (c_string text) ≡ some js)
    × LoginAccepted encoded js entered.client
unfolding pass_login after_read send_login new_world new_client
in_main_menu-LoginAccepted_example = in_main_menu-LoginAccepted encoded entered-Reach refl
