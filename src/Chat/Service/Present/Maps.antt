-- ===== src/Chat/Service/Present/Maps.antt =====
-- The map of connections: who is in it after an entry came or went.
use alexproject.Common.{
  ℕ, ◌≡◌, ◌⊎◌, refl, ap, sym, ◌∙◌, Bool-cases, false, [], ◌∷◌, none, some, ◌==◌, if◌then◌else◌,
  true, inl, inr, arith,
}
use alexproject.Common.Int.{ℤ, negsuc, int_eq, int_eq_iff}
use alexproject.Chat.Service.{ConnMap, find, insert, erase_user, take_conn}

-- No user has two entries.
abbrev pub Distinct : ConnMap → Type 0
Distinct [] = Unit
Distinct ((user, conn) ∷ entries) = (find entries user ≡ none) × Distinct entries

int_eq-flip : (i j : ℤ) → int_eq i j ≡ false → int_eq j i ≡ false
int_eq-flip i j n = elim (Bool-cases (int_eq j i)) [
  | inl y ↦ absurd (ground (arith, (int_eq_iff j i).0 y, (int_eq_iff i i).1 refl))
  | inr other ↦ other
]

pub find-insert :
    (m : ConnMap) (id j : ℤ) (conn : ℕ) → int_eq id j ≡ false → find (insert m id conn) j ≡ find m j
find-insert [] id j conn ne = rw ne refl
find-insert ((user, c) ∷ m) id j conn ne = elim (Bool-cases (int_eq user id)) [
  | inl y ↦ rw y refl
  | inr n ↦ rw (n, find-insert m id j conn ne) refl
]

pub insert-Distinct : (m : ConnMap) (id : ℤ) (conn : ℕ) → Distinct m → Distinct (insert m id conn)
insert-Distinct [] id conn d = (refl, tt)
insert-Distinct ((user, c) ∷ m) id conn d = elim (Bool-cases (int_eq user id)) [
  | inl y ↦ rw y d
  | inr n ↦
      let other : int_eq id user ≡ false = int_eq-flip user id n in
      rw n (find-insert m id user conn other ∙ d.0, insert-Distinct m id conn d.1)
]

pub find-erase :
    (m : ConnMap) (id j : ℤ) → int_eq id j ≡ false → find (erase_user m id) j ≡ find m j
find-erase [] id j ne = refl
find-erase ((user, c) ∷ m) id j ne = elim (Bool-cases (int_eq user id)) [
  | inl y ↦ rw (y, ap (λ i. int_eq i j) ((int_eq_iff user id).0 y) ∙ ne) refl
  | inr n ↦ rw (n, find-erase m id j ne) refl
]

-- Without its entry a user is not in the map.
pub find-erased : (m : ConnMap) (id : ℤ) → Distinct m → find (erase_user m id) id ≡ none
find-erased [] id d = refl
find-erased ((user, c) ∷ m) id d = elim (Bool-cases (int_eq user id)) [
  | inl y ↦ rw y (ap (find m) (sym ((int_eq_iff user id).0 y)) ∙ d.0)
  | inr n ↦ rw (n, n) (find-erased m id d.1)
]

erase-fresh : (m : ConnMap) (id j : ℤ) → find m j ≡ none → find (erase_user m id) j ≡ none
erase-fresh [] id j e = refl
erase-fresh ((user, c) ∷ m) id j e = elim (Bool-cases (int_eq user j)) [
  | inl y ↦ absurd (ground (arith, e, y))
  | inr n ↦ elim (Bool-cases (int_eq user id)) [
    | inl y ↦ rw y (ground (arith, e, n))
    | inr n' ↦ rw (n', n) (erase-fresh m id j (ground (arith, e, n)))
  ]
]

pub erase-Distinct : (m : ConnMap) (id : ℤ) → Distinct m → Distinct (erase_user m id)
erase-Distinct [] id d = tt
erase-Distinct ((user, c) ∷ m) id d = elim (Bool-cases (int_eq user id)) [
  | inl y ↦ rw y d.1
  | inr n ↦ rw n (erase-fresh m id user d.0, erase-Distinct m id d.1)
]

-- What `clientCloseException` takes out of the map: nothing, or an entry, and whoever is in the map afterwards was in
-- it, and is not the user that was taken out.
pub record Took (m : ConnMap) (id : ℤ) (entries : ConnMap) : Type 0 where
  pub distinct : Distinct entries
  pub kept :
      (j : ℤ) (c : ℕ)
      → find entries j ≡ some c
      → (find m j ≡ some c) × ((int_eq id j ≡ false) ⊎ (id ≡ negsuc 0))
  pub fresh : (j : ℤ) → find m j ≡ none → find entries j ≡ none
  pub apart : (j : ℤ) → find m j ≡ none → (int_eq id j ≡ false) ⊎ (id ≡ negsuc 0)

not_first :
    (user j : ℤ) (c : ℕ) (m : ConnMap)
    → find ((user, c) ∷ m) j ≡ none
    → (int_eq user j ≡ false) × (find m j ≡ none)
not_first user j c m e = elim (Bool-cases (int_eq user j)) [
  | inl y ↦ absurd (ground (arith, e, y))
  | inr n ↦ (n, ground (arith, e, n))
]

found-apart :
    (m : ConnMap) (user j : ℤ) (c : ℕ)
    → find m user ≡ none
    → find m j ≡ some c
    → int_eq user j ≡ false
found-apart m user j c gone f = elim (Bool-cases (int_eq user j)) [
  | inl y ↦ absurd (ground (arith, gone, ap (find m) ((int_eq_iff user j).0 y), f))
  | inr n ↦ n
]

pub take_conn-Took :
    (m : ConnMap) (conn : ℕ) → Distinct m → Took m (take_conn m conn).0 (take_conn m conn).1
take_conn-Took [] conn d = record {
  distinct = tt;
  kept = λ j c e. (e, inr refl);
  fresh = λ j e. e;
  apart = λ j e. inr refl;
}
take_conn-Took ((user, c) ∷ m) conn d = elim (Bool-cases (c == conn)) [
  | inl y ↦ rw y (record {
    distinct = d.1;
    kept = λ j c' f. let apart = found-apart m user j c' d.0 f in (rw apart f, inl apart);
    fresh = λ j e. (not_first user j c m e).1;
    apart = λ j e. inl (not_first user j c m e).0;
  })
  | inr n ↦
      let t = take_conn-Took m conn d.1 in
      rw n (record {
        distinct = (t.fresh user d.0, t.distinct);
        kept = λ j c' f. elim (Bool-cases (int_eq user j)) [
          | inl y ↦
              (rw y (rw y at f), t.apart j (ap (find m) (sym ((int_eq_iff user j).0 y)) ∙ d.0))
          | inr other ↦ (rw other (t.kept j c' (rw other at f)).0, (t.kept j c' (rw other at f)).1)
        ];
        fresh = λ j e. let first = not_first user j c m e in rw first.0 (t.fresh j first.1);
        apart = λ j e. t.apart j (not_first user j c m e).1;
      })
]

-- Who was not in the map has the new connection.
pub find-inserted :
    (m : ConnMap) (id : ℤ) (conn : ℕ) → find m id ≡ none → find (insert m id conn) id ≡ some conn
find-inserted [] id conn e = rw ((int_eq_iff id id).1 refl) refl
find-inserted ((user, c) ∷ m) id conn e =
    let first = not_first user id c m e in rw (first.0, first.0) (find-inserted m id conn first.1)

-- Of the one user of a connection, `clientCloseException` takes the entry and no other.
pub record TookOnly (m : ConnMap) (id : ℤ) (taken : ℤ × ConnMap) : Type 0 where
  pub user : taken.0 ≡ id
  pub gone : find taken.1 id ≡ none
  pub others : (j : ℤ) → int_eq id j ≡ false → find taken.1 j ≡ find m j

pub take_conn-TookOnly :
    (m : ConnMap) (conn : ℕ) (id : ℤ)
    → Distinct m
    → find m id ≡ some conn
    → ((j : ℤ) → find m j ≡ some conn → int_eq id j ≡ true)
    → TookOnly m id (take_conn m conn)
take_conn-TookOnly [] conn id d f only = absurd (ground (arith, f))
take_conn-TookOnly ((user, c) ∷ m) conn id d f only = elim (Bool-cases (c == conn)) [
  | inl y ↦
      let self : int_eq user user ≡ true = (int_eq_iff user user).1 refl in
      let mine : id ≡ user = (int_eq_iff id user).0 (only user (rw self (ground (arith, y)))) in
      rw y (record {
        user = sym mine;
        gone = ap (find m) mine ∙ d.0;
        others = λ j ne. rw (ap (λ i. int_eq i j) (sym mine) ∙ ne) refl;
      })
  | inr n ↦ elim (Bool-cases (int_eq user id)) [
    | inl y ↦ absurd (ground (arith, f, y, n))
    | inr other ↦
        let t =
          take_conn-TookOnly m conn id d.1 (rw other at f)
            (λ j g. only j (rw (found-apart m user j conn d.0 g) g)) in
        rw n (record {
          user = t.user;
          gone = rw other t.gone;
          others = λ j ne. ap (λ r. if int_eq user j then some c else r) (t.others j ne);
        })
  ]
]
