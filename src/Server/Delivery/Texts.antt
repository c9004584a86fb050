-- ===== src/Server/Delivery/Texts.antt =====
-- What the messages say.
use mathlib.Core.List.{◌++◌ as append, append_assoc}
use server_client_app.Base.{
  ℕ, zero, suc, ◌+◌, String, ◌≡◌, refl, sym, ap, ◌∙◌, Bool, true, false, not, Option, none, some,
  List, [], ◌∷◌, All, ◌==◌, arith, if◌then◌else◌, inl, inr, Bool-cases,
}
use server_client_app.Base.Int.{ℤ, pos, negsuc}
use server_client_app.Server.Clients.{
  Command, Client, Effect, send_effect, State, Handler, pure, die, onward, ◌>>=◌, send_efficient,
  get_client_from_fd,
}
use server_client_app.Server.Clients.Counts.{bit}
use server_client_app.Server.Handlers.{send_message, send_each, send_msg_if_subscribed, wants}
use server_client_app.Server.Valid.{Valid}
use server_client_app.Server.Valid.Steady.{Sends}
use server_client_app.Server.Delivery.{sent_to, send_msg_if_subscribed-sent}

-- The texts that were forwarded to a descriptor, the newest first.
unfoldable pub texts_to : ℕ → List Effect → List String
texts_to n [] = []
texts_to n (send_effect fd Command.msg_from_udp m ∷ es) =
    let rest = texts_to n es in if fd == n then m ∷ rest else rest
texts_to n (_ ∷ es) = texts_to n es

unfoldable pub copies : ℕ → String → List String
copies zero m = []
copies (suc n) m = m ∷ copies n m

-- A message with this text.
Says : String → Effect → Type 0
Says m e = (fd : ℕ) × (e ≡ send_effect fd Command.msg_from_udp m)

-- A run that does nothing but send messages with this text.
record Adds (m : String) (before after : List Effect) : Type 0 where
  new : List Effect
  path : after ≡ append new before
  all : All (Says m) new

nothing : (m : String) (es : List Effect) → Adds m es es
nothing m es = record { new = []; path = refl; all = tt }

All-append :
    {A : Type 0} (P : A → Type 0) (xs ys : List A) → All P xs → All P ys → All P (append xs ys)
All-append P [] ys h k = k
All-append P (x ∷ xs) ys h k = (h.0, All-append P xs ys h.1 k)

chain : (m : String) (a b c : List Effect) → Adds m a b → Adds m b c → Adds m a c
chain m a b c p q = record {
  new = append q.new p.new;
  path = q.path ∙ ap (append q.new) p.path ∙ sym (append_assoc q.new p.new a);
  all = All-append (Says m) q.new p.new q.all p.all;
}

record Speaks (m : String) {A : Type 0} (h : Handler A) : Type 0 where
  at : (s : State) → Adds m s.trace (h s).1.trace

Speaks-onward :
    (m : String) {A B : Type 0} (r : Option A) (f : A → Handler B)
    → ((a : A) → Speaks m (f a))
    → Speaks m (onward r f)
Speaks-onward m (some a) f q = q a
Speaks-onward m none f q = record { at = λ s. nothing m s.trace }

Speaks-bind :
    (m : String) {A B : Type 0} (h : Handler A) (f : A → Handler B)
    → Speaks m h
    → ((a : A) → Speaks m (f a))
    → Speaks m (h >>= f)
unfolding ◌>>=◌
Speaks-bind m h f p q = record {
  at = λ s. chain m _ _ _ (p.at s) ((Speaks-onward m (h s).0 f q).at (h s).1);
}

Speaks-if :
    (m : String) {A : Type 0} (b : Bool) (h k : Handler A)
    → Speaks m h
    → Speaks m k
    → Speaks m (if b then h else k)
Speaks-if m true h k p q = p
Speaks-if m false h k p q = q

Speaks-message : (m : String) (z : ℤ) → Speaks m (send_message z m)
unfolding send_message send_efficient Says die
Speaks-message m (pos fd) = record {
  at = λ s. record {
    new = send_effect fd Command.msg_from_udp m ∷ [];
    path = refl;
    all = ((fd, refl), tt);
  };
}
Speaks-message m (negsuc n) = record { at = λ s. nothing m s.trace }

Speaks-each :
    (topic m : String) (clients : List (String × Client)) → Speaks m (send_each topic m clients)
unfolding send_each pure
Speaks-each topic m [] = record { at = λ s. nothing m s.trace }
Speaks-each topic m ((id, c) ∷ rest) =
    let after = Speaks-each topic m rest in
    Speaks-if m (not c.is_connected) _ _ after (
      Speaks-if m (wants topic c) _ _
        (Speaks-bind m (send_message c.curr_fd m) (λ _. send_each topic m rest)
          (Speaks-message m c.curr_fd) λ _. after)
        after)

here_texts :
    (m : String) (n : ℕ) (ts us : List String)
    → ts ≡ append (copies n m) us
    → m ∷ ts ≡ append (copies (1 + n) m) us
unfolding copies
here_texts m n ts us h =
    ap (λ (l : List String). m ∷ l) h ∙ ap (λ (k : ℕ). append (copies k m) us) (one_more n)
  where
    one_more : (n : ℕ) → suc n ≡ 1 + n
    one_more n = omega arith

zero_texts :
    (m : String) (n : ℕ) (ts us : List String)
    → ts ≡ append (copies n m) us
    → ts ≡ append (copies (0 + n) m) us
zero_texts m n ts us h = h ∙ ap (λ (k : ℕ). append (copies k m) us) (omega arith)

sent_to-append :
    (m : String) (n : ℕ) (new old : List Effect)
    → All (Says m) new
    → (sent_to n (append new old) ≡ sent_to n new + sent_to n old)
      × (texts_to n (append new old) ≡ append (copies (sent_to n new) m) (texts_to n old))
unfolding sent_to texts_to copies Says
sent_to-append m n [] old h = (omega arith, refl)
sent_to-append m n (e ∷ new) old h =
    let (fd, path) = h.0 in
    let (sent, texts) = sent_to-append m n new old h.1 in
    rw path (elim (Bool-cases (fd == n)) [
      | inl here ↦ rw here (omega (arith, sent), here_texts m (sent_to n new) _ _ texts)
      | inr other ↦ rw other (omega (arith, sent), zero_texts m (sent_to n new) _ _ texts)
    ])

added :
    (m : String) (n : ℕ) (before after : List Effect) (k : ℕ)
    → Adds m before after
    → sent_to n after ≡ k + sent_to n before
    → texts_to n after ≡ append (copies k m) (texts_to n before)
added m n before after k a h =
    let (sent, texts) = sent_to-append m n a.new before a.all in
    let same : sent_to n a.new ≡ k = omega (arith, sent, ap (sent_to n) a.path, h) in
    ap (texts_to n) a.path ∙ texts ∙ ap (λ (j : ℕ). append (copies j m) (texts_to n before)) same

-- A client that wants the topic gets the message, once, and the others get nothing.
pub send_msg_if_subscribed-texts_to :
    (topic formatted_msg : String) (s : State) (fd : ℕ) {id : String} {c : Client}
    → Valid s
    → Sends s
    → get_client_from_fd fd s.clients ≡ (id, some c)
    → texts_to fd (send_msg_if_subscribed topic formatted_msg s).1.trace
      ≡ append (copies (bit (wants topic c)) formatted_msg) (texts_to fd s.trace)
unfolding send_msg_if_subscribed
send_msg_if_subscribed-texts_to topic formatted_msg s fd {id} {c} v w e =
    added formatted_msg fd s.trace (send_each topic formatted_msg s.clients s).1.trace
      (bit (wants topic c)) ((Speaks-each topic formatted_msg s.clients).at s)
      (send_msg_if_subscribed-sent topic formatted_msg s fd v w e)
