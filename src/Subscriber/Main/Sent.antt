-- ===== src/Subscriber/Main/Sent.antt =====
-- What the process of the subscriber sends.
use server_client_app.Base.{
  ℕ, ◌≤◌, String, ◌≡◌, refl, Bool, true, false, Option, none, some, List, [], ◌∷◌, All, leb, leb→le,
  ◌⊎◌, inl, inr, Bool-cases,
}
use server_client_app.Base.Int.{pos, negsuc}
use server_client_app.Base.Text.Scan.{scan_hu}
use server_client_app.Server.Clients.{Command}
use server_client_app.Subscriber.{
  Incoming, Effect, request, printed, State, Handler, pure, ◌>>=◌, ◌>>◌, emit, send_efficient,
  is_accepted, check_connection_validity, Round, run,
}
use server_client_app.Subscriber.Input.{strlen}
use server_client_app.Subscriber.Sent.{
  IsSound, Keeps, Keeps-pure, Keeps-die, Keeps-bind, Keeps-if, Keeps-print, Keeps-recv,
  Keeps-command_of, Keeps-run,
}
use server_client_app.Subscriber.Main.{
  System, demand, prepare, run_if_valid, start_subscriber, subscriber_main,
}

-- The request to connect, with an id of at most 10 bytes.
abbrev IsGreeting : Effect → Type 0
IsGreeting e = (id : String) × (e ≡ request Command.connect_req id) × (strlen id ≤ 10)

abbrev pub IsAllowed : Effect → Type 0
IsAllowed e = IsSound e ⊎ IsGreeting e

allowed : (e : Effect) → IsSound e → IsAllowed e
allowed e h = inl h

abbrev KeepsAllowed : {A : Type 0} → Handler A → Type 0
KeepsAllowed m = Keeps IsAllowed allowed m

greeting : (id : String) → strlen id ≤ 10 → KeepsAllowed (send_efficient Command.connect_req id)
unfolding send_efficient
greeting id short = record { at = λ s h. (inr (id, refl, short), h) }

demanded : (b : Bool) → KeepsAllowed (demand b)
unfolding demand
demanded true = Keeps-pure IsAllowed allowed tt
demanded false = Keeps-die IsAllowed allowed

module _ {A B : Type 0} where
  bound :
      (m : Handler A) (f : A → Handler B)
      → KeepsAllowed m
      → ((a : A) → KeepsAllowed (f a))
      → KeepsAllowed (m >>= f)
  bound = Keeps-bind IsAllowed allowed

said : (text : String) {A : Type 0} (a : A) → KeepsAllowed (emit (printed text) >> pure a)
said text a =
    bound (emit (printed text)) _ (Keeps-print IsAllowed allowed text)
      λ _. Keeps-pure IsAllowed allowed a

checked : (id : String) → strlen id ≤ 10 → KeepsAllowed (check_connection_validity id)
unfolding check_connection_validity
checked id short = bound (send_efficient Command.connect_req id) _ (greeting id short) λ _.
    bound _ _ (Keeps-recv IsAllowed allowed) λ (msg : Incoming).
      bound _ _ (Keeps-command_of IsAllowed allowed msg) λ (command : Command).
        Keeps-if IsAllowed allowed (is_accepted command) _ _ (Keeps-pure IsAllowed allowed true)
          (said "Connection denied\n" false)

prepared : (system : System) (ip port : ℕ) → KeepsAllowed (prepare system ip port)
unfolding prepare
prepared system ip port = bound (demand system.socket) _ (demanded system.socket) λ _.
    bound (demand system.setsockopt) _ (demanded system.setsockopt)
      λ _. demanded (system.connect ip port)

served : (valid : Bool) (rounds : List Round) → KeepsAllowed (run_if_valid valid rounds)
unfolding run_if_valid
served false rounds = Keeps-pure IsAllowed allowed (some (pos 0))
served true rounds = bound (run rounds) _ (Keeps-run IsAllowed allowed rounds) λ ended.
    Keeps-if IsAllowed allowed ended _ _ (Keeps-pure IsAllowed allowed (some (pos 0)))
      (Keeps-pure IsAllowed allowed none)

started :
    (system : System) (id ip : String) (port : Option ℕ) (rounds : List Round)
    → strlen id ≤ 10
    → KeepsAllowed (start_subscriber system id ip port rounds)
unfolding start_subscriber
started system id ip none rounds short = Keeps-die IsAllowed allowed
started system id ip (some port) rounds short =
    bound _ _ (prepared system (system.inet_addr ip) port)
      λ _. bound _ _ (checked id short) λ valid. served valid rounds

main-KeepsAllowed :
    (system : System) (name : String) (arguments : List String) (rounds : List Round)
    → KeepsAllowed (subscriber_main system name arguments rounds)
unfolding subscriber_main
main-KeepsAllowed system name (id ∷ ip ∷ port ∷ []) rounds =
    elim (Bool-cases (leb (strlen id) 10)) [
      | inl short ↦
          rw short (started system id ip (scan_hu port) rounds (leb→le (strlen id) 10 short))
      | inr long ↦ rw long (said "ID must have at most 10 characters\n" (some (negsuc 0)))
    ]
main-KeepsAllowed system name [] rounds = said _ (some (negsuc 0))
main-KeepsAllowed system name (a ∷ []) rounds = said _ (some (negsuc 0))
main-KeepsAllowed system name (a ∷ b ∷ []) rounds = said _ (some (negsuc 0))
main-KeepsAllowed system name (a ∷ b ∷ c ∷ d ∷ rest) rounds = said _ (some (negsuc 0))

-- Whatever its arguments, what is typed, what the server sends and what the system answers, the
-- process of the subscriber sends nothing but requests to connect with an id of at most 10
-- bytes, and requests to subscribe and to unsubscribe, each with a topic of 1 to 50 bytes
-- without a space or a line break.
pub subscriber_main-IsAllowed :
    (system : System) (name : String) (arguments : List String) (rounds : List Round) (s : State)
    → All IsAllowed s.trace
    → All IsAllowed (subscriber_main system name arguments rounds s).1.trace
subscriber_main-IsAllowed system name arguments rounds s h =
    (main-KeepsAllowed system name arguments rounds).at s h
