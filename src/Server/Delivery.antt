-- ===== src/Server/Delivery.antt =====
-- Server::send_msg_if_subscribed: who gets a message.
pub mod Texts
use mathlib.Core.Bool.{◌&&◌}
use server_client_app.Base.{
  ℕ, ◌+◌, ◌≤◌, String, ◌≡◌, refl, sym, ap, ◌∙◌, Bool, true, false, some, List, [], ◌∷◌, ◌==◌, arith,
  inl, inr, Bool-cases, ⊤,
}
use server_client_app.Base.Int.{ℤ, pos, negsuc}
use server_client_app.Server.Clients.{
  Command, Client, Effect, send_effect, State, Handler, pure, ◌>>=◌, ◌>>◌, send_efficient, is_fd,
  get_client_from_fd,
}
use server_client_app.Server.Clients.Counts.{bit, count_held, Every}
use server_client_app.Server.Handlers.{send_message, send_each, send_msg_if_subscribed, wants}
use server_client_app.Server.Valid.{has_fd, Marked, Valid}
use server_client_app.Server.Valid.Connect.{disconnected}
use server_client_app.Server.Valid.Steady.{Sends}

-- The number of messages that were sent to a descriptor.
unfoldable pub sent_to : ℕ → List Effect → ℕ
sent_to n [] = 0
sent_to n (send_effect fd Command.msg_from_udp m ∷ es) = bit (fd == n) + sent_to n es
sent_to n (_ ∷ es) = sent_to n es

-- The number of clients with the descriptor that want the topic.
count_wanting : String → ℕ → List (String × Client) → ℕ
count_wanting topic n [] = 0
count_wanting topic n ((id, c) ∷ rest) =
    bit (is_fd c.curr_fd n && wants topic c) + count_wanting topic n rest

message_then :
    (z : ℤ) (m : String) (n k : ℕ) (after : Handler ⊤) (s : State)
    → has_fd z ≡ true
    → Sends s
    → ((t : State) → Sends t → sent_to n (after t).1.trace ≡ k + sent_to n t.trace)
    → sent_to n ((send_message z m >> after) s).1.trace ≡ bit (is_fd z n) + k + sent_to n s.trace
unfolding has_fd send_message send_efficient ◌>>=◌ is_fd sent_to
message_then (pos fd) m n k after s h w q =
    let t = record s { trace = send_effect fd Command.msg_from_udp m ∷ s.trace } in
    rw (w t.trace) (omega (arith, q t w))
message_then (negsuc i) m n k after s h w q = cc h

head_no :
    (topic : String) (c : Client) (n : ℕ)
    → is_fd c.curr_fd n ≡ false
    → bit (is_fd c.curr_fd n && wants topic c) ≡ 0
head_no topic c n e = rw e refl

and_true : (b : Bool) → (b && true) ≡ b
and_true true = refl
and_true false = refl

and_false : (b : Bool) → (b && false) ≡ false
and_false true = refl
and_false false = refl

send_each-sent :
    (topic m : String) (n : ℕ) (clients : List (String × Client)) (s : State)
    → Every Marked clients
    → Sends s
    → sent_to n (send_each topic m clients s).1.trace
      ≡ count_wanting topic n clients + sent_to n s.trace
unfolding send_each count_wanting pure
send_each-sent topic m n [] s a w = omega arith
send_each-sent topic m n ((id, c) ∷ rest) s a w =
    let ih = λ (t : State) (w' : Sends t). send_each-sent topic m n rest t a.1 w' in
    elim (Bool-cases c.is_connected) [
      | inl on ↦ elim (Bool-cases (wants topic c)) [
        | inl fits ↦
            let here =
              message_then c.curr_fd m n (count_wanting topic n rest) (send_each topic m rest) s
                (sym a.0 ∙ on) w ih in
            rw (on, fits) (rw (and_true (is_fd c.curr_fd n)) here)
        | inr misses ↦ rw (on, misses) (rw (and_false (is_fd c.curr_fd n)) (ih s w ∙ omega arith))
      ]
      | inr off ↦ rw off (rw (disconnected c n a.0 off) (ih s w ∙ omega arith))
    ]

one_more : (n : ℕ) → 1 + n ≡ 0 → ⊥
one_more n h = omega arith

no_second : (n : ℕ) → 1 + n ≤ 1 → n ≡ 0
no_second n h = omega arith

drop_zero : {n : ℕ} → 0 + n ≤ 1 → n ≤ 1
drop_zero h = omega arith

skip : {n : ℕ} → 0 + n ≡ 0 → n ≡ 0
skip h = omega arith

zero_more : {n m : ℕ} → n ≡ m → 0 + n ≡ m
zero_more h = omega arith

none_more : (b : ℕ) {k : ℕ} → k ≡ 0 → b + k ≡ b
none_more b h = omega arith

none_held :
    (topic : String) (n : ℕ) (clients : List (String × Client))
    → count_held n clients ≡ 0
    → count_wanting topic n clients ≡ 0
unfolding count_held count_wanting
none_held topic n [] h = refl
none_held topic n ((id, c) ∷ rest) h = elim (Bool-cases (is_fd c.curr_fd n)) [
  | inl e ↦ absurd (one_more (count_held n rest) (rw e at h))
  | inr e ↦ rw e (zero_more (none_held topic n rest (skip (rw e at h))))
]

wanting-found :
    (topic : String) (n : ℕ) (clients : List (String × Client)) {id : String} {c : Client}
    → get_client_from_fd n clients ≡ (id, some c)
    → count_held n clients ≤ 1
    → count_wanting topic n clients ≡ bit (wants topic c)
unfolding get_client_from_fd count_held count_wanting
wanting-found topic n [] e le = cc e
wanting-found topic n ((j, d) ∷ rest) {id} {c} e le = elim (Bool-cases (is_fd d.curr_fd n)) [
  | inl here ↦
      let same : d ≡ c = cc (rw here at e) in
      rw here (
        rw same (
          none_more (bit (wants topic c))
            (none_held topic n rest (no_second (count_held n rest) (rw here at le)))))
  | inr later ↦
      rw later (zero_more (wanting-found topic n rest (rw later at e) (drop_zero (rw later at le))))
]

-- When the invariant holds and every send succeeds, a message is sent exactly once to the
-- client that a descriptor belongs to if the topics of the client match it, and not at all
-- otherwise.
pub send_msg_if_subscribed-sent :
    (topic formatted_msg : String) (s : State) (fd : ℕ) {id : String} {c : Client}
    → Valid s
    → Sends s
    → get_client_from_fd fd s.clients ≡ (id, some c)
    → sent_to fd (send_msg_if_subscribed topic formatted_msg s).1.trace
      ≡ bit (wants topic c) + sent_to fd s.trace
unfolding send_msg_if_subscribed
send_msg_if_subscribed-sent topic formatted_msg s fd v w e =
    send_each-sent topic formatted_msg fd s.clients s v.marks w
    ∙ ap (λ (k : ℕ). k + sent_to fd s.trace) (wanting-found topic fd s.clients e (v.once fd))
