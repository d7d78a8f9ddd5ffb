-- ===== src/Chat/Client/Menu/Handshake.antt =====
-- The main thread goes on exactly when its answer has been read, and enters the main menu only as the user whom the
-- server accepted.
use alexproject.Common.Reach.{Reach, reach_keeps}
use alexproject.Common.{
  ℕ, ◌+◌, ◌<◌, ◌≡◌, refl, ap, ◌∙◌, Bool, Bool-cases, true, false, ◌||◌, List, [], ◌∷◌, ◌++◌, Option,
  some, arith, if◌then◌else◌, ◌>>=◌, inl, inr,
}
use alexproject.Common.Decimal.{Text}
use alexproject.Common.Text.{c_string}
use alexproject.Chat.Json.{Json, key_msgid}
use alexproject.Chat.Client.{Reaction}
use alexproject.Chat.Client.Responses.{Client, int_at}
use alexproject.Chat.Client.Menu.{
  Main, at_menu, waiting_login, waiting_reg, in_main_menu, gone, Request, login, reg, is_number,
  number_of, is_ack, World, new_world, send_login, send_reg, pass_login, pass_reg, after_command,
  after_read, Step, chooses_login, chooses_reg, wakes_login, wakes_reg, types, answers_login,
  answers_reg, tells, reads, ends,
}
use alexproject.Chat.Client.Menu.Reading.{LoginAccepted, Effect, read_task-Effect}
use alexproject.Chat.Client.Menu.Invariant.{
  requests_of, requests_of-append, one_if, acks, acks-append, one_number, other_number, Due,
  logins_due, regs_due, Answered, Inv, carry,
}

module _ (J : Json) where
  new-Inv : Inv J (new_world J)
  unfolding new_world
  new-Inv = record {
    due = omega arith;
    answered = λ e. absurd (ground arith);
    entered = λ e. absurd (ground arith);
  }

  send_login-Inv : (w : World J) → w.main ≡ at_menu → Inv J w → Inv J (send_login J w)
  unfolding send_login
  send_login-Inv w m v = record {
    due = ground (
      arith,
      v.due,
      requests_of-append login login w.requests,
      requests_of-append reg login w.requests,
    );
    answered = λ e h. absurd (ground (arith, v.due));
    entered = λ e. absurd (ground arith);
  }

  send_reg-Inv : (w : World J) → w.main ≡ at_menu → Inv J w → Inv J (send_reg J w)
  unfolding send_reg
  send_reg-Inv w m v = record {
    due = ground (
      arith,
      v.due,
      requests_of-append login reg w.requests,
      requests_of-append reg reg w.requests,
    );
    answered = λ e h. absurd (ground arith);
    entered = λ e. absurd (ground arith);
  }

  pass_login-Inv :
      (w : World J) → w.main ≡ waiting_login → 0 < w.rwsem → Inv J w → Inv J (pass_login J w)
  unfolding pass_login
  pass_login-Inv w m s v = record {
    due = ground (arith, v.due);
    answered = λ e h. absurd (ground arith);
    entered = λ e. (ground arith, carry J w (pass_login J w) refl refl (v.answered m s));
  }

  pass_reg-Inv : (w : World J) → w.main ≡ waiting_reg → 0 < w.rwsem → Inv J w → Inv J (pass_reg J w)
  unfolding pass_reg
  pass_reg-Inv w m s v = record {
    due = ground (arith, v.due);
    answered = λ e h. absurd (ground arith);
    entered = λ e. absurd (ground arith);
  }

  types-Inv :
      (w : World J) (r : Reaction J)
      → w.main ≡ in_main_menu
      → Inv J w
      → Inv J (record w { main = after_command J r })
  types-Inv w r m v = record {
    due = ground (arith, v.due);
    answered = λ e h. absurd (ground arith);
    entered = λ e. (
      (v.entered m).0,
      carry J w (record w { main = after_command J r }) refl refl (v.entered m).1,
    );
  }

  -- A text comes in, and with it an answered request is taken off.
  arrives-Inv :
      (w : World J) (t : Text) (rest : List Request)
      → requests_of login rest + one_if (is_ack J 2 t) ≡ requests_of login w.requests
      → requests_of reg rest + one_if (is_ack J 5 t) ≡ requests_of reg w.requests
      → Inv J w
      → Inv J (record w { requests = rest; arriving = w.arriving ++ t ∷ [] })
  arrives-Inv w t rest l r v =
      let u : World J = record w { requests = rest; arriving = w.arriving ++ t ∷ [] } in
      let same_logins : logins_due J u ≡ logins_due J w =
        omega (arith, acks-append J 2 t w.arriving) in
      let same_regs : regs_due J u ≡ regs_due J w = omega (arith, acks-append J 5 t w.arriving) in
      record {
        due = rw (same_logins, same_regs) v.due;
        answered = λ e h. carry J w u refl refl (v.answered e h);
        entered = λ e. ((v.entered e).0, carry J w u refl refl (v.entered e).1);
      }

  module _ (w : World J) (t : Text) (rest : List Text) (c : Client) (posts : Bool) (js : J.Value)
      (v : Inv J w) (front : w.arriving ≡ t ∷ rest) (parsed : J.parse (c_string t) ≡ some js)
      (effect : Effect J js w.client c posts) where
    ack_number : (n : ℕ) → is_ack J n t ≡ is_number J (int_at J js key_msgid) n
    ack_number n =
        ap (λ (o : Option J.Value). is_number J (o >>= λ x. int_at J x key_msgid) n) parsed

    posts_on_ack : posts ≡ (is_ack J 2 t || is_ack J 5 t)
    posts_on_ack = rw (ack_number 2, ack_number 5) effect.posts_lem

    one_ack : is_ack J 2 t ≡ true → is_ack J 5 t ≡ false
    one_ack h = one_number J (number_of J t) h

    logins_split :
        logins_due J w ≡ one_if (is_ack J 2 t) + (requests_of login w.requests + acks J 2 rest)
    logins_split = ap (λ ts. requests_of login w.requests + acks J 2 ts) front ∙ omega arith

    regs_split : regs_due J w ≡ one_if (is_ack J 5 t) + (requests_of reg w.requests + acks J 5 rest)
    regs_split = ap (λ ts. requests_of reg w.requests + acks J 5 ts) front ∙ omega arith

    read-Due :
        (m : Main) (p l r : ℕ) (b2 b5 : Bool)
        → posts ≡ (b2 || b5)
        → (b2 ≡ true → b5 ≡ false)
        → Due m (one_if b2 + l) (one_if b5 + r) p
        → Due m l r (if posts then p + 1 else p)
    read-Due at_menu p l r b2 b5 e o d = ground arith
    read-Due in_main_menu p l r b2 b5 e o d = ground arith
    read-Due waiting_login p l r b2 b5 e o d = ground arith
    read-Due waiting_reg p l r b2 b5 e o d = ground arith
    read-Due gone p l r b2 b5 e o d = tt

    abbrev after : World J
    after = after_read J t rest c posts w

    ack-Answered : is_ack J 2 t ≡ true → Answered J after
    unfolding after_read
    ack-Answered h = record {
      text = t;
      js = js;
      last = rw h refl;
      parsed = parsed;
      accepted = effect.accepted (rw (← ack_number 2) h);
    }

    same_client : is_ack J 2 t ≡ false → c ≡ w.client
    same_client h = effect.kept (rw (← ack_number 2) h)

    other-Answered : is_ack J 2 t ≡ false → Answered J w → Answered J after
    unfolding after_read
    other-Answered h a = carry J w after (same_client h) (rw h refl) a

    -- Without an acknowledgement of a registration due, what posts is one of a login.
    posted_before : regs_due J w ≡ 0 → is_ack J 2 t ≡ false → 0 < after.rwsem → 0 < w.rwsem
    unfolding after_read
    posted_before none_due h s = ground (arith, regs_split, posts_on_ack)

    no_ack : logins_due J w ≡ 0 → is_ack J 2 t ≡ false
    no_ack none_due = ground (arith, logins_split)

    reads-Inv : Inv J after
    unfolding after_read
    reads-Inv = record {
      due =
          read-Due w.main w.rwsem _ _ (is_ack J 2 t) (is_ack J 5 t) posts_on_ack one_ack
            (rw (← logins_split, ← regs_split) v.due);
      answered = λ e s. elim (Bool-cases (is_ack J 2 t)) [
        | inl y ↦ ack-Answered y
        | inr n ↦ other-Answered n (v.answered e (posted_before (ground (arith, v.due)) n s))
      ];
      entered = λ e.
          let none_due = no_ack (ground (arith, v.due)) in
          (rw (same_client none_due) (v.entered e).0, other-Answered none_due (v.entered e).1);
    }

  Step-Inv : {w u : World J} → Step J w u → Inv J w → Inv J u
  Step-Inv {w} (chooses_login m) v = send_login-Inv w m v
  Step-Inv {w} (chooses_reg m) v = send_reg-Inv w m v
  Step-Inv {w} (wakes_login m s) v = pass_login-Inv w m s v
  Step-Inv {w} (wakes_reg m s) v = pass_reg-Inv w m s v
  Step-Inv {w} (types time line r m h) v = types-Inv w r m v
  Step-Inv {w} (answers_login t rest q a) v =
      arrives-Inv w t rest (rw (q, a) (omega arith))
        (rw (q, one_number J (number_of J t) a) (omega arith)) v
  Step-Inv {w} (answers_reg t rest q a) v =
      arrives-Inv w t rest (rw (q, other_number J (number_of J t) a) (omega arith))
        (rw (q, a) (omega arith)) v
  Step-Inv {w} (tells t n2 n5) v = arrives-Inv w t w.requests (ground arith) (ground arith) v
  Step-Inv {w} (reads t rest c shown posts front h) v =
      let (js, parsed, effect) = read_task-Effect J t w.client c shown posts h in
      reads-Inv w t rest c posts js v front parsed effect
  Step-Inv ends v = record {
    due = tt;
    answered = λ e. absurd (ground arith);
    entered = λ e. absurd (ground arith);
  }

  Reach-Inv : {w u : World J} → Reach (Step J) w u → Inv J w → Inv J u
  Reach-Inv r v = reach_keeps (Inv J) (λ b c s v. Step-Inv s v) r v

  -- However the user, the server and the two threads interleave, where sending succeeds and each message arrives alone: a client
  -- in its main menu has read an answer since it sent its last login, that answer has error number 0, and the
  -- current user is the one that the answer names.
  pub in_main_menu-LoginAccepted :
      {w : World J}
      → Reach (Step J) (new_world J) w
      → w.main ≡ in_main_menu
      → (w.client.is_login_success ≡ true)
        × (text : Text) × (js : J.Value) × (w.last_ack ≡ some text)
        × (J.parse (c_string text) ≡ some js)
        × LoginAccepted J js w.client
  in_main_menu-LoginAccepted r m =
      let (success, a) = (Reach-Inv r new-Inv).entered m in
      (success, a.text, a.js, a.last, a.parsed, a.accepted success)

  -- Under the same conditions: while the main thread waits for the answer to a login or to a registration, just one of
  -- three things is there: its request at the server, the answer on its way, or a post of the
  -- semaphore. While it does not wait there is none, so a later wait never ends by an older answer.
  pub main-Due :
      {w : World J}
      → Reach (Step J) (new_world J) w
      → Due w.main (logins_due J w) (regs_due J w) w.rwsem
  main-Due r = (Reach-Inv r new-Inv).due
