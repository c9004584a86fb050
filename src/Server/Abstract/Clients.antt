-- ===== src/Server/Abstract/Clients.antt =====
-- The map of the clients under the writes of the handlers, as the abstract server sees it.
use mathlib.Core.Path.{fun_ext}
use mathlib.Core.Option.{map as over}
use text.Mathlib.Text.{◌==◌ as str_eq}
use text.Mathlib.TextEquality.{eq_iff}
use text.Mathlib.TextPositions.{eq_refl}
use server_client_app.Base.{
  ℕ, ◌+◌, ◌≤◌, String, ◌≡◌, refl, sym, ap, ◌∙◌, Bool, true, false, Option, none, some, List, [],
  ◌∷◌, if◌then◌else◌, arith, inl, inr, Bool-cases,
}
use server_client_app.Server.Clients.{
  Client, is_fd, find_client, modify_client, get_client_from_fd, modify_fd, insert_client,
}
use server_client_app.Server.Clients.Counts.{bit, count_held}
use server_client_app.Server.Abstract.{Entry, entry, view, update}

-- No id twice, as in a std::unordered_map.
unfoldable pub HasUniqueIds : List (String × Client) → Type 0
HasUniqueIds [] = Unit
HasUniqueIds ((id, c) ∷ rest) = (find_client id rest ≡ none) × HasUniqueIds rest

find-insert :
    (id other : String) (c : Client) (clients : List (String × Client))
    → find_client id clients ≡ none
    → find_client other (insert_client id c clients)
      ≡ (if str_eq id other then some c else find_client other clients)
unfolding find_client insert_client
find-insert id other c [] e = refl
find-insert id other c ((j, d) ∷ rest) e =
    ground (arith, find-insert id other c rest, eq_iff j id, eq_iff j other, eq_iff id other, e)

find-modify :
    (id other : String) (c : Client) (f : Client → Client) (clients : List (String × Client))
    → find_client id clients ≡ some c
    → find_client other (modify_client id f clients)
      ≡ (if str_eq id other then some (f c) else find_client other clients)
unfolding find_client modify_client
find-modify id other c f [] e = cc e
find-modify id other c f ((j, d) ∷ rest) e =
    ground (arith, find-modify id other c f rest, eq_iff j id, eq_iff j other, eq_iff id other, e)

held_one :
    (fd : ℕ) (id : String) (c : Client) (clients : List (String × Client))
    → find_client id clients ≡ some c
    → is_fd c.curr_fd fd ≡ true
    → 1 ≤ count_held fd clients
unfolding find_client count_held
held_one fd id c [] e h = cc e
held_one fd id c ((j, d) ∷ rest) e h = elim (Bool-cases (str_eq j id)) [
  | inl here ↦ let same : d ≡ c = cc (rw here at e) in rw same (rw h (omega arith))
  | inr later ↦ omega (arith, held_one fd id c rest (rw later at e) h)
]

other_fd : (b : Bool) (n : ℕ) → bit b + n ≤ 1 → 1 ≤ n → b ≡ false
other_fd true n le one = absurd (omega arith)
other_fd false n le one = refl

less : (b : Bool) (n : ℕ) → bit b + n ≤ 1 → n ≤ 1
less b n le = omega arith

-- The client of a descriptor, when no other one has it.
find-modify_fd :
    (fd : ℕ) (id other : String) (c : Client) (f : Client → Client)
    (clients : List (String × Client))
    → find_client id clients ≡ some c
    → is_fd c.curr_fd fd ≡ true
    → count_held fd clients ≤ 1
    → find_client other (modify_fd fd f clients)
      ≡ (if str_eq id other then some (f c) else find_client other clients)
unfolding find_client modify_fd count_held
find-modify_fd fd id other c f [] e h once = cc e
find-modify_fd fd id other c f ((j, d) ∷ rest) e h once = elim (Bool-cases (str_eq j id)) [
  | inl here ↦
      let same : d ≡ c = cc (rw here at e) in
      let holds : is_fd d.curr_fd fd ≡ true = ap (λ (x : Client). is_fd x.curr_fd fd) same ∙ h in
      let path : j ≡ id = (eq_iff j id).0 here in
      rw holds (
        rw same
          (rw path (elim (Bool-cases (str_eq id other)) [ inl y ↦ rw y refl | inr n ↦ rw n refl ])))
  | inr later ↦
      let found : find_client id rest ≡ some c = rw later at e in
      let one : 1 ≤ count_held fd rest = held_one fd id c rest found h in
      let free : is_fd d.curr_fd fd ≡ false = other_fd (is_fd d.curr_fd fd) _ once one in
      rw free (
        ground (
          arith,
          find-modify_fd fd id other c f rest found h (less (is_fd d.curr_fd fd) _ once),
          eq_iff j id,
          eq_iff j other,
          eq_iff id other,
          later,
        ))
]

pub get_client-found :
    (fd : ℕ) (id : String) (c : Client) (clients : List (String × Client))
    → find_client id clients ≡ some c
    → is_fd c.curr_fd fd ≡ true
    → count_held fd clients ≤ 1
    → get_client_from_fd fd clients ≡ (id, some c)
unfolding find_client get_client_from_fd count_held
get_client-found fd id c [] e h once = cc e
get_client-found fd id c ((j, d) ∷ rest) e h once = elim (Bool-cases (str_eq j id)) [
  | inl here ↦
      let same : d ≡ c = cc (rw here at e) in
      let holds : is_fd d.curr_fd fd ≡ true = ap (λ (x : Client). is_fd x.curr_fd fd) same ∙ h in
      let path : j ≡ id = (eq_iff j id).0 here in rw holds (rw same (rw path refl))
  | inr later ↦
      let found : find_client id rest ≡ some c = rw later at e in
      let one : 1 ≤ count_held fd rest = held_one fd id c rest found h in
      let free : is_fd d.curr_fd fd ≡ false = other_fd (is_fd d.curr_fd fd) _ once one in
      rw free (get_client-found fd id c rest found h (less (is_fd d.curr_fd fd) _ once))
]

-- With no id twice, a descriptor that no client is found with is not held.
pub held_none :
    (fd : ℕ) (clients : List (String × Client))
    → HasUniqueIds clients
    → ((id : String) (c : Client) → find_client id clients ≡ some c → is_fd c.curr_fd fd ≡ false)
    → count_held fd clients ≡ 0
unfolding find_client count_held HasUniqueIds
held_none fd [] u h = refl
held_none fd ((j, d) ∷ rest) u h =
    let free : is_fd d.curr_fd fd ≡ false = h j d (rw (eq_refl j) refl) in
    rw free (
      omega (
        arith,
        held_none fd rest u.1 λ id c e. elim (Bool-cases (str_eq j id)) [
          | inl here ↦
              let lost : find_client id rest ≡ none =
                ap (λ (x : String). find_client x rest) (sym ((eq_iff j id).0 here)) ∙ u.0 in
              cc (lost, e)
          | inr later ↦ h id c (rw later e)
        ],
      ))

none-modify :
    (id j : String) (f : Client → Client) (clients : List (String × Client))
    → find_client j clients ≡ none
    → find_client j (modify_client id f clients) ≡ none
unfolding find_client modify_client
none-modify id j f [] e = refl
none-modify id j f ((k, d) ∷ rest) e = ground (arith, none-modify id j f rest, e)

none-modify_fd :
    (fd : ℕ) (j : String) (f : Client → Client) (clients : List (String × Client))
    → find_client j clients ≡ none
    → find_client j (modify_fd fd f clients) ≡ none
unfolding find_client modify_fd
none-modify_fd fd j f [] e = refl
none-modify_fd fd j f ((k, d) ∷ rest) e = ground (arith, none-modify_fd fd j f rest, e)

pub Unique-modify :
    (id : String) (f : Client → Client) (clients : List (String × Client))
    → HasUniqueIds clients
    → HasUniqueIds (modify_client id f clients)
unfolding modify_client HasUniqueIds
Unique-modify id f [] u = tt
Unique-modify id f ((j, d) ∷ rest) u = elim (Bool-cases (str_eq j id)) [
  | inl here ↦ rw here u
  | inr later ↦ rw later (none-modify id j f rest u.0, Unique-modify id f rest u.1)
]

pub Unique-modify_fd :
    (fd : ℕ) (f : Client → Client) (clients : List (String × Client))
    → HasUniqueIds clients
    → HasUniqueIds (modify_fd fd f clients)
unfolding modify_fd HasUniqueIds
Unique-modify_fd fd f [] u = tt
Unique-modify_fd fd f ((j, d) ∷ rest) u = elim (Bool-cases (is_fd d.curr_fd fd)) [
  | inl here ↦ rw here u
  | inr later ↦ rw later (none-modify_fd fd j f rest u.0, Unique-modify_fd fd f rest u.1)
]

pub Unique-insert :
    (id : String) (c : Client) (clients : List (String × Client))
    → find_client id clients ≡ none
    → HasUniqueIds clients
    → HasUniqueIds (insert_client id c clients)
unfolding insert_client find_client HasUniqueIds
Unique-insert id c [] e u = (refl, tt)
Unique-insert id c ((j, d) ∷ rest) e u = elim (Bool-cases (str_eq j id)) [
  | inl here ↦ cc (rw here at e)
  | inr later ↦
      let lacks : find_client id rest ≡ none = rw later at e in
      (
        ground (arith, find-insert id j c rest lacks, eq_iff id j, eq_iff j id, later, u.0),
        Unique-insert id c rest lacks u.1,
      )
]

over_if :
    (b : Bool) (c : Client) (o : Option Client)
    → over entry (if b then some c else o) ≡ (if b then some (entry c) else over entry o)
over_if true c o = refl
over_if false c o = refl

view_path :
    (id : String) (c : Client) (before after : List (String × Client))
    → ((other : String)
        → find_client other after ≡ (if str_eq id other then some c else find_client other before))
    → view after ≡ update id (entry c) (view before)
unfolding view update
view_path id c before after h =
    fun_ext λ other. ap (over entry) (h other) ∙ over_if (str_eq id other) c _

pub view-insert :
    (id : String) (c : Client) (clients : List (String × Client))
    → find_client id clients ≡ none
    → view (insert_client id c clients) ≡ update id (entry c) (view clients)
view-insert id c clients e = view_path id c clients _ λ other. find-insert id other c clients e

pub view-modify :
    (id : String) (c : Client) (f : Client → Client) (clients : List (String × Client))
    → find_client id clients ≡ some c
    → view (modify_client id f clients) ≡ update id (entry (f c)) (view clients)
view-modify id c f clients e =
    view_path id (f c) clients _ λ other. find-modify id other c f clients e

pub view-modify_fd :
    (fd : ℕ) (id : String) (c : Client) (f : Client → Client) (clients : List (String × Client))
    → find_client id clients ≡ some c
    → is_fd c.curr_fd fd ≡ true
    → count_held fd clients ≤ 1
    → view (modify_fd fd f clients) ≡ update id (entry (f c)) (view clients)
view-modify_fd fd id c f clients e h once =
    view_path id (f c) clients _ λ other. find-modify_fd fd id other c f clients e h once

-- An entry that is seen is a client that is found.
pub seen :
    (id : String) (e : Entry) (clients : List (String × Client))
    → view clients id ≡ some e
    → (c : Client) × (find_client id clients ≡ some c) × (entry c ≡ e)
unfolding view
seen id e clients h = go (find_client id clients) refl h
  where
    go :
        (o : Option Client)
        → find_client id clients ≡ o
        → over entry o ≡ some e
        → (c : Client) × (find_client id clients ≡ some c) × (entry c ≡ e)
    go none p q = cc q
    go (some c) p q = (c, p, cc q)

pub unseen :
    (id : String) (clients : List (String × Client))
    → view clients id ≡ none
    → find_client id clients ≡ none
unfolding view
unseen id clients h = go (find_client id clients) h
  where
    go : (o : Option Client) → over entry o ≡ none → o ≡ none
    go none q = refl
    go (some c) q = cc q
