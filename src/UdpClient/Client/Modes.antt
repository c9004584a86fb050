-- ===== src/UdpClient/Client/Modes.antt =====
-- What the three modes send, to a socket that takes every datagram.
use mathlib.Core.List.{◌++◌ as append}
use mathlib.Core.Path.{ap₂}
use server_client_app.Base.{
  ℕ, ◌≡◌, refl, ◌∙◌, List, [], ◌∷◌, Option, none, some, Result, ok, raised,
}
use server_client_app.Base.Int.{pos}
use server_client_app.UdpClient.Client.{
  Message, Args, Event, Net, Outcome, pure, onward, ◌>>=◌, send_message, send_each, run_all_once,
}
use server_client_app.UdpClient.Client.Laws.{
  datagrams, datagrams-append, Encodes, Works, send_message_lem,
}

-- A run that returns `a` and sends these datagrams.
pub record Sends {A : Type 0} (m : Outcome A) (bss : List (List ℕ)) (a : A) : Type 0 where
  pub payloads : datagrams m.events ≡ bss
  pub returns : m.result ≡ ok a

Sends-onward :
    {A B : Type 0} (es : List Event) (r : Result A) (f : A → Outcome B) (bss css : List (List ℕ))
    {a : A} {b : B}
    → datagrams es ≡ bss
    → r ≡ ok a
    → Sends (f a) css b
    → Sends (onward es r f) (append bss css) b
Sends-onward es (raised e) f bss css p q h = cc q
Sends-onward es (ok a') f bss css {a} p q h =
    let e : a' ≡ a = cc q in
    rw e (record {
      payloads = datagrams-append es (f a).events ∙ ap₂ append p h.payloads;
      returns = h.returns;
    })

pub Sends-bind :
    {A B : Type 0} (m : Outcome A) (f : A → Outcome B) {bss css : List (List ℕ)} {a : A} {b : B}
    → Sends m bss a
    → Sends (f a) css b
    → Sends (m >>= f) (append bss css) b
unfolding ◌>>=◌
Sends-bind m f {bss} {css} p q = Sends-onward m.events m.result f bss css p.payloads p.returns q

-- The entries of the file, each with the bytes that it encodes.
abbrev pub EachEncodes : List Message → List (List ℕ) → Type 0
EachEncodes [] [] = Unit
EachEncodes (m ∷ ms) (bs ∷ bss) = Encodes m bs × EachEncodes ms bss
EachEncodes _ _ = ⊥

abbrev pub chosen_bytes : Option (List ℕ) → List (List ℕ)
chosen_bytes none = []
chosen_bytes (some bs) = bs ∷ []

-- What every theorem below assumes of the machine and the arguments.
module _ (net : Net) (args : Args) (ms : ℕ) (works : Works net) (waits : args.delay ≡ pos ms) where
  pub Sends-message :
      (m : Message) (bs : List ℕ) → Encodes m bs → Sends (send_message net args m) (bs ∷ []) tt
  unfolding datagrams
  Sends-message m bs e =
      rw (send_message_lem net args ms m bs works waits e)
        (record { payloads = refl; returns = refl })

  Sends-each :
      (messages : List Message) (bss : List (List ℕ))
      → EachEncodes messages bss
      → Sends (send_each net args messages) bss tt
  unfolding send_each pure datagrams
  Sends-each [] [] h = record { payloads = refl; returns = refl }
  Sends-each (m ∷ messages) (bs ∷ bss) h =
      Sends-bind (send_message net args m) (λ _. send_each net args messages)
        (Sends-message m bs h.0) (Sends-each messages bss h.1)
  Sends-each [] (bs ∷ bss) h = absurd h
  Sends-each (m ∷ messages) [] h = absurd h

  -- The mode all_once, with a socket that takes every datagram, a delay that is not negative
  -- and entries that encode bytes, returns, and has sent each entry's bytes once, in the order
  -- of the file.
  pub run_all_once-Sends :
      (bss : List (List ℕ)) → EachEncodes args.input_file bss → Sends (run_all_once net args) bss tt
  unfolding run_all_once
  run_all_once-Sends bss h = Sends-each args.input_file bss h
