-- ===== src/Server/Valid/Calm.antt =====
-- Runs that poll the same descriptors afterwards.
use server_client_app.Base.{
  String, ◌≡◌, refl, ◌∙◌, Bool, true, false, Option, none, some, List, [], ◌∷◌, if◌then◌else◌,
}
use server_client_app.Base.Int.{ℤ, pos, negsuc}
use server_client_app.Server.Clients.{
  Client, Effect, State, Handler, pure, die, onward, ◌>>=◌, emit, send_efficient,
}
use server_client_app.Server.Handlers.{send_msg_if_subscribed, send_message, send_each, wants}
use server_client_app.Server.Run.{Datagram, check_stdin_data, serve_stdin, manage_udp_message}

-- Runs that leave the clients and the descriptors.
pub record Calm {A : Type 0} (m : Handler A) : Type 0 where
  pub fds : (s : State) → (m s).1.poll_fds ≡ s.poll_fds

module _ {A : Type 0} where
  pub Calm-pure : (a : A) → Calm (pure a)
  unfolding pure
  Calm-pure a = record { fds = λ s. refl }

  pub Calm-die : Calm (die {A = A})
  unfolding die
  Calm-die = record { fds = λ s. refl }

  pub Calm-if : (b : Bool) (m n : Handler A) → Calm m → Calm n → Calm (if b then m else n)
  Calm-if true m n p q = p
  Calm-if false m n p q = q

pub Calm-onward :
    {A B : Type 0} (r : Option A) (f : A → Handler B) → ((a : A) → Calm (f a)) → Calm (onward r f)
Calm-onward (some a) f q = q a
Calm-onward none f q = record { fds = λ s. refl }

pub Calm-bind :
    {A B : Type 0} (m : Handler A) (f : A → Handler B)
    → Calm m
    → ((a : A) → Calm (f a))
    → Calm (m >>= f)
unfolding ◌>>=◌
Calm-bind m f p q = record { fds = λ s. (Calm-onward (m s).0 f q).fds (m s).1 ∙ p.fds s }

pub Calm-emit : (e : Effect) → Calm (emit e)
unfolding emit
Calm-emit e = record { fds = λ s. refl }

pub Calm-message : (z : ℤ) (m : String) → Calm (send_message z m)
unfolding send_message send_efficient
Calm-message (pos fd) m = record { fds = λ s. refl }
Calm-message (negsuc n) m = Calm-die

pub Calm-send_each :
    (topic m : String) (clients : List (String × Client)) → Calm (send_each topic m clients)
unfolding send_each
Calm-send_each topic m [] = Calm-pure tt
Calm-send_each topic m ((id, c) ∷ rest) =
    let ih = Calm-send_each topic m rest in
    Calm-if _ _ _ ih
      (Calm-if (wants topic c) _ _ (Calm-bind _ _ (Calm-message c.curr_fd m) (λ _. ih)) ih)

pub Calm-udp : (o : Option Datagram) → Calm (manage_udp_message o)
unfolding manage_udp_message send_msg_if_subscribed
Calm-udp none = Calm-pure tt
Calm-udp (some Datagram.failed) = Calm-die
Calm-udp (some Datagram.unsupported) = Calm-pure tt
Calm-udp (some (Datagram.valid topic m)) = record {
  fds = λ s. (Calm-send_each topic m s.clients).fds s;
}

pub Calm-stdin : (o : Option String) → Calm (serve_stdin o)
unfolding serve_stdin check_stdin_data
Calm-stdin none = Calm-pure false
Calm-stdin (some line) = search (Calm-pure, Calm-if, Calm-bind, Calm-emit)
