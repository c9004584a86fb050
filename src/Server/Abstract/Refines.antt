-- ===== src/Server/Abstract/Refines.antt =====
-- When the server of Server.cpp does what the abstract server does.
pub mod Connections
pub mod Requests
pub mod Run
use mathlib.Core.Path.{subst}
use mathlib.Core.List.{◌++◌ as append, append_assoc}
use Prim.Native.String.{◌++◌}
use server_client_app.Base.{
  ℕ, ◌≤◌, String, ◌≡◌, ◌≢◌, refl, sym, ap, ◌∙◌, Bool, true, false, Option, none, some, List, [],
  ◌∷◌, ◌==◌, if◌then◌else◌, ⊤, arith, inl, inr, Bool-cases, ==_iff,
}
use server_client_app.Base.Int.{ℤ, pos, negsuc}
use server_client_app.Server.Topic.{Topics}
use server_client_app.Server.Clients.{
  Command, Client, Effect, send_effect, close_effect, print_effect, State, Handler, pure, onward,
  ◌>>=◌, ◌>>◌, emit, send_efficient, is_fd, find_client, modify_client, get_client_from_fd,
  modify_fd, push_fd, erase_fd, set_clients, insert_client,
}
use server_client_app.Server.Clients.Counts.{
  count_fd, count_held, Every, Every-modify_fd, Every-modify_client, Every-insert, Every-find,
}
use server_client_app.Server.Handlers.{
  Request, Received, payload_text, send_connection_response, add_connection, new_client, reconnect,
  accept_client, admit, connect_line, manage_connection_request, has_topic, answer, is_subscribe,
  serve_request, manage_subscribe_unsubscribe, remove_connection, manage_closed, manage_client,
  send_msg_if_subscribed,
}
use server_client_app.Server.Run.{Datagram, manage_udp_message, serve_connection, serve_client}
use server_client_app.Server.Valid.{Valid, Marked, has_fd}
use server_client_app.Server.Valid.Connect.{Valid-connection}
use server_client_app.Server.Valid.Run.{Keeps-serve_client, Keeps-udp}
use server_client_app.Server.Valid.Steady.{Returns, Sends, Steady-send_each}
use server_client_app.Server.Subscriptions.{Distinct, reply, answer-has_topic}
use server_client_app.Server.Abstract.{
  Entry, View, fd_of, entry, view, Op, connect, request, close, datagram, call, calls, replies,
  update, set_topic, IsFree, Step, first_time, comes_back, already_connected, served, left,
  forwarded, Steps, rest, step,
}
use server_client_app.Server.Abstract.Clients.{
  HasUniqueIds, get_client-found, held_none, Unique-modify, Unique-modify_fd, Unique-insert,
  view-insert, view-modify, view-modify_fd, seen, unseen,
}
use server_client_app.Server.Abstract.Silent.{Silent, Silent-send_each}

abbrev pub OwnTopics : Client → Type 0
OwnTopics c = Distinct c.subscribed_topics

-- What the handlers keep: the descriptors are right, no id and no topic of a client is there twice.
pub record IsGood (s : State) : Type 0 where
  pub valid : Valid s
  pub ids : HasUniqueIds s.clients
  pub topics : Every OwnTopics s.clients

-- A run that returned, in a state that looks like `v`, and sent these answers.
pub record Reaches (s : State) (r : Option ⊤ × State) (v : View) (out : List (ℕ × Command))
    : Type 0 where
  pub returns : Returns r.0
  pub sends : Sends r.1
  pub good : IsGood r.1
  pub looks : view r.1.clients ≡ v
  pub answers : replies r.1.trace ≡ append out (replies s.trace)

not_fd : (z : ℤ) (fd : ℕ) → fd_of z ≢ some fd → is_fd z fd ≡ false
unfolding is_fd
not_fd (pos m) fd h = elim (Bool-cases (m == fd)) [
  | inl e ↦ absurd (h (ap some ((==_iff m fd).0 e)))
  | inr e ↦ e
]
not_fd (negsuc m) fd h = refl

pub has_it : (z : ℤ) (fd : ℕ) → fd_of z ≡ some fd → is_fd z fd ≡ true
unfolding is_fd
has_it (pos m) fd h = (==_iff m fd).1 (cc h)
has_it (negsuc m) fd h = cc h

pub fresh :
    (fd : ℕ) (s : State) → IsGood s → IsFree fd (view s.clients) → count_fd fd s.poll_fds ≡ 0
unfolding IsFree view
fresh fd s g free =
    g.valid.polled fd
    ∙ held_none fd s.clients g.ids λ id c e. not_fd c.curr_fd fd (free id (entry c) (rw e refl))
