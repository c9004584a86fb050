-- ===== src/Server/Clients.antt =====
-- Server.cpp: the clients, the polled descriptors, and the handlers that change them.
--
-- The map of clients is an association list: its order, which the source leaves open, is the order
-- of the list. A pointer to a client is the entry that it was found at. `poll_fds` holds the
-- descriptors from the fourth entry on: the first three are the standard input, the UDP socket and
-- the listening socket. A handler that ends the process (DIE, or a null pointer that is read)
-- returns `none`.
pub mod Counts
use text.Mathlib.Text.{◌==◌ as str_eq}
use server_client_app.Base.{
  ℕ, zero, suc, ◌+◌, String, Bool, true, false, not, ◌||◌, Option, none, some, List, [], ◌∷◌, ◌==◌,
  if◌then◌else◌, ⊤,
}
use server_client_app.Base.Int.{ℤ, pos, negsuc}
use server_client_app.Server.Topic.{Topics, tokenize_topic, check_wildcard_topic}

pub data Command : Type 0 where
  connect_req connect_accepted connect_denied subscribe_req unsubscribe_req subscribe_succ
        subscribe_fail unsubscribe_succ unsubscribe_fail msg_from_udp :
      Command
  -- a byte that is none of them
  other_command : ℕ → Command

-- struct client
pub record Client : Type 0 where
  pub curr_fd : ℤ
  pub is_connected : Bool
  pub subscribed_topics : Topics

pub data Effect : Type 0 where
  -- send_efficient(fd, message), with the payload's text
  send_effect : ℕ → Command → String → Effect
  close_effect : ℕ → Effect
  print_effect : String → Effect

-- The answers of send_efficient may depend on all that was done before, the newest first.
pub record State : Type 0 where
  pub clients : List (String × Client)
  pub poll_fds : List ℕ
  pub trace : List Effect
  pub sends : List Effect → Bool

abbrev pub Handler : Type 0 → Type 0
Handler A = State → Option A × State

module _ {A : Type 0} where
  unfoldable pub pure : A → Handler A
  pure a s = (some a, s)

  unfoldable pub die : Handler A
  die s = (none, s)

abbrev pub onward : {A B : Type 0} → Option A → (A → Handler B) → Handler B
onward (some a) f s = f a s
onward none f s = (none, s)

infixl 5 ◌>>=◌ ◌>>◌
unfoldable pub ◌>>=◌ : {A B : Type 0} → Handler A → (A → Handler B) → Handler B
unfolding pure die
◌>>=◌ m f s = let (r, s') = m s in onward r f s'

abbrev pub ◌>>◌ : {A B : Type 0} → Handler A → Handler B → Handler B
m >> n = m >>= λ _. n

-- close and cout, whose failures the source does not look at
unfoldable pub emit : Effect → Handler ⊤
emit e s = (some tt, record s { trace = e ∷ s.trace })

-- send_efficient, under its DIE
unfoldable pub send_efficient : ℕ → Command → String → Handler ⊤
send_efficient fd command payload s =
    let trace = send_effect fd command payload ∷ s.trace in
    (if s.sends trace then some tt else none, record s { trace = trace })

-- curr_fd == fd
unfoldable pub is_fd : ℤ → ℕ → Bool
is_fd (pos m) n = m == n
is_fd (negsuc m) n = false

unfoldable pub find_client : String → List (String × Client) → Option Client
find_client client_id [] = none
find_client client_id ((id, c) ∷ rest) =
    if str_eq id client_id then some c else find_client client_id rest

-- A write through the pointer that find_client gives.
unfoldable pub modify_client :
    String → (Client → Client) → List (String × Client) → List (String × Client)
modify_client client_id f [] = []
modify_client client_id f ((id, c) ∷ rest) =
    if str_eq id client_id then (id, f c) ∷ rest else (id, c) ∷ modify_client client_id f rest

-- NULL is `none`.
unfoldable pub get_client_from_fd : ℕ → List (String × Client) → String × Option Client
unfolding is_fd
get_client_from_fd fd [] = ("placeholder", none)
get_client_from_fd fd ((id, c) ∷ rest) =
    if is_fd c.curr_fd fd then (id, some c) else get_client_from_fd fd rest

-- A write through the pointer that get_client_from_fd gives.
unfoldable pub modify_fd : ℕ → (Client → Client) → List (String × Client) → List (String × Client)
unfolding is_fd
modify_fd fd f [] = []
modify_fd fd f ((id, c) ∷ rest) =
    if is_fd c.curr_fd fd then (id, f c) ∷ rest else (id, c) ∷ modify_fd fd f rest

-- push_back
unfoldable pub push_fd : ℕ → List ℕ → List ℕ
push_fd fd [] = fd ∷ []
push_fd fd (n ∷ fds) = n ∷ push_fd fd fds

-- erase, at the entry of the descriptor
unfoldable pub erase_fd : ℕ → List ℕ → List ℕ
erase_fd fd [] = []
erase_fd fd (n ∷ fds) = if n == fd then fds else n ∷ erase_fd fd fds

unfoldable pub set_clients : (List (String × Client) → List (String × Client)) → Handler ⊤
set_clients f s = (some tt, record s { clients = f s.clients })

unfoldable pub insert_client : String → Client → List (String × Client) → List (String × Client)
insert_client client_id c [] = (client_id, c) ∷ []
insert_client client_id c (e ∷ rest) = e ∷ insert_client client_id c rest
