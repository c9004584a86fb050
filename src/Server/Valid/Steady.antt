-- ===== src/Server/Valid/Steady.antt =====
-- Handlers that return when every send succeeds.
use server_client_app.Base.{
  ℕ, String, ◌≡◌, sym, ◌∙◌, Bool, true, false, Option, none, some, List, [], ◌∷◌, if◌then◌else◌,
  inl, inr, Bool-cases,
}
use server_client_app.Base.Int.{ℤ, pos, negsuc}
use server_client_app.Server.Clients.{
  Command, Client, Effect, State, Handler, pure, onward, ◌>>=◌, emit, send_efficient, set_clients,
}
use server_client_app.Server.Clients.Counts.{Every}
use server_client_app.Server.Handlers.{
  send_connection_response, add_connection, accept_client, admit, serve_request, remove_connection,
  manage_closed, send_message, send_each, wants,
}
use server_client_app.Server.Valid.{has_fd, Marked}

abbrev pub Returns : {A : Type 0} → Option A → Type 0
Returns none = ⊥
Returns (some a) = Unit

-- Every send succeeds.
abbrev pub Sends : State → Type 0
Sends s = (es : List Effect) → s.sends es ≡ true

-- A run that returns when every send succeeds.
pub record Steady {A : Type 0} (m : Handler A) : Type 0 where
  pub at : (s : State) → Sends s → Returns (m s).0 × Sends (m s).1

module _ {A : Type 0} where
  pub Steady-pure : (a : A) → Steady (pure a)
  unfolding pure
  Steady-pure a = record { at = λ s w. (tt, w) }

  pub Steady-if : (b : Bool) (m n : Handler A) → Steady m → Steady n → Steady (if b then m else n)
  Steady-if true m n p q = p
  Steady-if false m n p q = q

pub Returns-onward :
    {A B : Type 0} (r : Option A) (f : A → Handler B) (t : State)
    → Returns r
    → ((a : A) → Returns (f a t).0 × Sends (f a t).1)
    → Returns (onward r f t).0 × Sends (onward r f t).1
Returns-onward (some a) f t h q = q a
Returns-onward none f t h q = absurd h

pub Steady-bind :
    {A B : Type 0} (m : Handler A) (f : A → Handler B)
    → Steady m
    → ((a : A) → Steady (f a))
    → Steady (m >>= f)
unfolding ◌>>=◌
Steady-bind m f p q = record {
  at = λ s w. let (r, w') = p.at s w in Returns-onward (m s).0 f (m s).1 r λ a. (q a).at (m s).1 w';
}

pub Steady-emit : (e : Effect) → Steady (emit e)
unfolding emit
Steady-emit e = record { at = λ s w. (tt, w) }

pub Steady-send :
    (fd : ℕ) (command : Command) (payload : String) → Steady (send_efficient fd command payload)
unfolding send_efficient
Steady-send fd command payload = record { at = λ s w. rw (w _) (tt, w) }

pub ruleset steady_rules = (Steady-pure, Steady-if, Steady-bind, Steady-emit, Steady-send)

pub Steady-add :
    (f : List (String × Client) → List (String × Client)) (fd : ℕ) → Steady (add_connection f fd)
unfolding add_connection
Steady-add f fd = record { at = λ s w. (tt, w) }

pub Steady-set : (f : List (String × Client) → List (String × Client)) → Steady (set_clients f)
unfolding set_clients
Steady-set f = record { at = λ s w. (tt, w) }

pub Steady-remove : (fd : ℕ) → Steady (remove_connection fd)
unfolding remove_connection
Steady-remove fd = record { at = λ s w. (tt, w) }

pub Steady-message : (z : ℤ) (m : String) → has_fd z ≡ true → Steady (send_message z m)
unfolding has_fd send_message
Steady-message (pos fd) m h = Steady-send fd _ m
Steady-message (negsuc n) m h = cc h

pub Steady-send_each :
    (topic m : String) (clients : List (String × Client))
    → Every Marked clients
    → Steady (send_each topic m clients)
unfolding send_each
Steady-send_each topic m [] a = Steady-pure tt
Steady-send_each topic m ((id, c) ∷ rest) a =
    let ih = Steady-send_each topic m rest a.1 in
    elim (Bool-cases c.is_connected) [
      | inl on ↦ rw on (
          Steady-if (wants topic c) _ _
            (Steady-bind _ _ (Steady-message c.curr_fd m (sym a.0 ∙ on)) (λ _. ih)) ih)
      | inr off ↦ rw off ih
    ]

pub Steady-admit :
    (id address : String) (fd : ℕ) (o : Option Client) → Steady (admit id address fd o)
unfolding admit accept_client send_connection_response
Steady-admit id address fd none = search (steady_rules, Steady-add)
Steady-admit id address fd (some c) = search (steady_rules, Steady-add)

pub Steady-request :
    (fd : ℕ) (command : Command) (topic : String) (c : Client)
    → Steady (serve_request fd command topic (some c))
unfolding serve_request
Steady-request fd command topic c = search (steady_rules, Steady-set)

pub Steady-closed : (fd : ℕ) (id : String) (c : Client) → Steady (manage_closed fd (id, some c))
unfolding manage_closed
Steady-closed fd id c = search (steady_rules, Steady-remove)
