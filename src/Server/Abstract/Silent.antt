-- ===== src/Server/Abstract/Silent.antt =====
-- A datagram changes no client and gets no answer.
use server_client_app.Base.{
  String, ◌≡◌, refl, ◌∙◌, Bool, true, false, not, Option, none, some, List, [], ◌∷◌, if◌then◌else◌,
}
use server_client_app.Base.Int.{ℤ, pos, negsuc}
use server_client_app.Server.Clients.{
  Client, State, Handler, pure, die, onward, ◌>>=◌, send_efficient,
}
use server_client_app.Server.Handlers.{send_message, send_each, wants}
use server_client_app.Server.Abstract.{replies}

pub record Silent {A : Type 0} (m : Handler A) : Type 0 where
  pub clients : (s : State) → (m s).1.clients ≡ s.clients
  pub answers : (s : State) → replies (m s).1.trace ≡ replies s.trace

Silent-pure : {A : Type 0} (a : A) → Silent (pure a)
unfolding pure
Silent-pure a = record { clients = λ s. refl; answers = λ s. refl }

Silent-die : {A : Type 0} → Silent (die {A = A})
unfolding die
Silent-die = record { clients = λ s. refl; answers = λ s. refl }

Silent-onward :
    {A B : Type 0} (r : Option A) (f : A → Handler B)
    → ((a : A) → Silent (f a))
    → Silent (onward r f)
Silent-onward (some a) f q = q a
Silent-onward none f q = record { clients = λ s. refl; answers = λ s. refl }

Silent-bind :
    {A B : Type 0} (m : Handler A) (f : A → Handler B)
    → Silent m
    → ((a : A) → Silent (f a))
    → Silent (m >>= f)
unfolding ◌>>=◌
Silent-bind m f p q = record {
  clients = λ s. (Silent-onward (m s).0 f q).clients (m s).1 ∙ p.clients s;
  answers = λ s. (Silent-onward (m s).0 f q).answers (m s).1 ∙ p.answers s;
}

Silent-if :
    {A : Type 0} (b : Bool) (m n : Handler A) → Silent m → Silent n → Silent (if b then m else n)
Silent-if true m n p q = p
Silent-if false m n p q = q

Silent-message : (z : ℤ) (text : String) → Silent (send_message z text)
unfolding send_message send_efficient replies
Silent-message (pos fd) text = record { clients = λ s. refl; answers = λ s. refl }
Silent-message (negsuc n) text = Silent-die

pub Silent-send_each :
    (topic text : String) (clients : List (String × Client)) → Silent (send_each topic text clients)
unfolding send_each
Silent-send_each topic text [] = Silent-pure tt
Silent-send_each topic text ((id, c) ∷ rest) =
    let after = Silent-send_each topic text rest in
    Silent-if (not c.is_connected) _ _ after (
      Silent-if (wants topic c) _ _
        (Silent-bind (send_message c.curr_fd text) (λ _. send_each topic text rest)
          (Silent-message c.curr_fd text) λ _. after)
        after)
