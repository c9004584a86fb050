-- ===== src/Server/Valid/Connect.antt =====
-- A connection keeps the invariant.
use Prim.Native.String.{◌++◌}
use server_client_app.Base.{
  ℕ, String, ◌≡◌, refl, sym, ◌∙◌, false, Option, none, some, List, inl, inr, Bool-cases,
}
use server_client_app.Base.Int.{ℤ, pos, negsuc}
use server_client_app.Server.Clients.{
  Client, close_effect, print_effect, State, pure, die, ◌>>=◌, ◌>>◌, emit, is_fd, find_client,
  modify_client, insert_client,
}
use server_client_app.Server.Clients.Counts.{
  count_fd, held-insert, held-modify, Every-modify_client, Every-insert, Every-find,
}
use server_client_app.Server.Handlers.{
  Received, payload_text, send_connection_response, add_connection, new_client, reconnect,
  accept_client, admit, manage_connection_request,
}
use server_client_app.Server.Run.{serve_connection}
use server_client_app.Server.Valid.{
  has_fd, Marked, Valid, Keeps, Keeps-bind, Keeps-emit, Keeps-send_efficient, Valid-add, keep_rules,
}

pub Valid-accept :
    (s : State) (fd : ℕ) (f : List (String × Client) → List (String × Client)) (line : String)
    → Valid (add_connection f fd s).1
    → Valid (accept_client f fd line s).1
unfolding accept_client add_connection ◌>>=◌ send_connection_response
Valid-accept s fd f line v =
    (Keeps-bind _ _ (Keeps-send_efficient fd _ _) (λ _. Keeps-emit _)).at (add_connection f fd s).1
      v

pub Keeps-deny :
    (id : String) (fd : ℕ)
    → Keeps (do
      send_connection_response false fd
      emit (close_effect fd)
      emit (print_effect ("Client " ++ id ++ " already connected.\n")))
unfolding send_connection_response
Keeps-deny id fd = search keep_rules

pub disconnected :
    (c : Client) (n : ℕ) → Marked c → c.is_connected ≡ false → is_fd c.curr_fd n ≡ false
unfolding has_fd is_fd
disconnected c n m d = go c.curr_fd (sym m ∙ d)
  where
    go : (z : ℤ) → has_fd z ≡ false → is_fd z n ≡ false
    go (pos k) e = cc e
    go (negsuc k) e = refl

pub Valid-admit :
    (id address : String) (fd : ℕ) (s : State) (o : Option Client)
    → find_client id s.clients ≡ o
    → count_fd fd s.poll_fds ≡ 0
    → Valid s
    → Valid (admit id address fd o s).1
unfolding admit has_fd
Valid-admit id address fd s none e fresh v = Valid-accept s fd _ _ (
    Valid-add s fd (insert_client id (new_client fd)) fresh
      (λ n. held-insert n fd id (new_client fd) s.clients refl)
      (Every-insert Marked id (new_client fd) s.clients refl v.marks) v)
Valid-admit id address fd s (some c) e fresh v = elim (Bool-cases c.is_connected) [
  | inl on ↦ rw on ((Keeps-deny id fd).at s v)
  | inr off ↦ rw off (
      Valid-accept s fd _ _ (
        Valid-add s fd (modify_client id (reconnect fd)) fresh
          (λ n.
            held-modify n fd id c (reconnect fd) s.clients e
              (disconnected c n (Every-find Marked id c s.clients e v.marks) off) (λ d. refl))
          (Every-modify_client Marked id (reconnect fd) s.clients (λ d m. refl) v.marks) v))
]

-- The descriptor that accept gives is not one that is open.
abbrev pub Fresh : Option (ℕ × String × Received) → State → Type 0
Fresh none s = Unit
Fresh (some (fd, address, received)) s = count_fd fd s.poll_fds ≡ 0

pub Valid-text :
    (address : String) (fd : ℕ) (s : State) (o : Option String)
    → count_fd fd s.poll_fds ≡ 0
    → Valid s
    → Valid ((payload_text o >>= λ id t. admit id address fd (find_client id t.clients) t) s).1
unfolding payload_text ◌>>=◌
Valid-text address fd s none fresh v = v
Valid-text address fd s (some id) fresh v = Valid-admit id address fd s _ refl fresh v

-- A connection is accepted or refused, or ends the process; the invariant is kept when the
-- descriptor is a fresh one.
pub Valid-connection :
    (o : Option (ℕ × String × Received)) (s : State)
    → Fresh o s
    → Valid s
    → Valid (serve_connection o s).1
unfolding serve_connection manage_connection_request pure die
Valid-connection none s fresh v = v
Valid-connection (some (fd, address, Received.failed)) s fresh v = v
Valid-connection (some (fd, address, Received.closed payload)) s fresh v =
    Valid-text address fd s payload fresh v
Valid-connection (some (fd, address, Received.message msg)) s fresh v =
    Valid-text address fd s msg.payload fresh v
