-- ===== src/Muduo/Grace/Shutdown.antt =====
-- After `shutdown` the client only prints.
use alexproject.Common.{
  ◌≡◌, refl, ◌∙◌, Bool, true, false, List, [], ◌∷◌, ◌++◌, Option, none, some, if◌then◌else◌,
}
use alexproject.Common.Decimal.{Text}
use alexproject.Muduo.Grace.{
  Read, read_failed, came, Action, prints, writes, shuts_write, closes, GraceClient, Selected,
  read_socket, round, rounds, on_socket, on_stdin,
}

-- The actions that only print.
abbrev pub Prints : List Action → Type 0
Prints [] = Unit
Prints (prints t ∷ rest) = Prints rest
Prints (writes t ∷ rest) = ⊥
Prints (shuts_write ∷ rest) = ⊥
Prints (closes ∷ rest) = ⊥

Prints-append : (xs ys : List Action) → Prints xs → Prints ys → Prints (xs ++ ys)
Prints-append [] ys a b = b
Prints-append (prints t ∷ xs) ys a b = Prints-append xs ys a b
Prints-append (writes t ∷ xs) ys a b = absurd a
Prints-append (shuts_write ∷ xs) ys a b = absurd a
Prints-append (closes ∷ xs) ys a b = absurd a

on_socket-Prints :
    (o : Option Read) (g : GraceClient)
    → ((on_socket o g).0.reads_stdin ≡ g.reads_stdin) × Prints (on_socket o g).1
unfolding read_socket
on_socket-Prints none g = (refl, tt)
on_socket-Prints (some read_failed) g = (refl, tt)
on_socket-Prints (some (came [])) g = (refl, tt)
on_socket-Prints (some (came (b ∷ bs))) g = (refl, tt)

on_stdin-quiet :
    (o : Option (Option Text)) (g : GraceClient) → g.reads_stdin ≡ false → on_stdin o g ≡ (g, [])
on_stdin-quiet none g e = refl
on_stdin-quiet (some line) g e = rw e refl

round-Prints :
    (ready : Selected) (g : GraceClient)
    → g.reads_stdin ≡ false
    → ((round ready g).0.reads_stdin ≡ false) × Prints (round ready g).1
unfolding round
round-Prints ready g e =
    let (same, printed) = on_socket-Prints ready.socket g in
    let h = (on_socket ready.socket g).0 in
    rw (on_stdin-quiet ready.stdin h (same ∙ e))
      (same ∙ e, Prints-append (on_socket ready.socket g).1 [] printed tt)

-- A client that does not watch its terminal, and what it did.
abbrev Quiet : GraceClient × List Action → Type 0
Quiet (g, done) = (g.reads_stdin ≡ false) × Prints done

either :
    (b : Bool) (x y : GraceClient × List Action) → Quiet x → Quiet y → Quiet (if b then x else y)
either true x y p q = p
either false x y p q = q

-- Once the terminal is no longer watched, as after `shutdown`, whatever comes from the server and whatever is typed:
-- the client only prints what the server sends, and never writes to the socket again.
pub rounds-Prints :
    (readies : List Selected) (g : GraceClient)
    → g.reads_stdin ≡ false
    → ((rounds readies g).0.reads_stdin ≡ false) × Prints (rounds readies g).1
unfolding rounds
rounds-Prints [] g e = (e, tt)
rounds-Prints (ready ∷ more) g e =
    let (quiet, first) = round-Prints ready g e in
    let (end, rest) = rounds-Prints more (round ready g).0 quiet in
    either g.alive _ (g, [])
      (end, Prints-append (round ready g).1 (rounds more (round ready g).0).1 first rest) (e, tt)
