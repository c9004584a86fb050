-- ===== src/UdpClient/Client/Manual.antt =====
-- The mode manual.
use mathlib.Core.List.{◌++◌ as append}
use mathlib.Core.Path.{ap₂}
use text.Mathlib.Text.{◌==◌}
use text.Mathlib.TextEquality.{eq_iff}
use server_client_app.Base.{
  ℕ, zero, suc, String, ◌≡◌, ◌≢◌, refl, sym, ap, ◌∙◌, inl, inr, List, [], ◌∷◌, map, get_elem?, none,
  some, Result, ok, raised, Bool-cases, false, Exn, if◌then◌else◌,
}
use server_client_app.Base.Text.{str}
use server_client_app.Base.Int.{pos, parse_int}
use server_client_app.Base.Int.Decimal.{parse_int-str}
use server_client_app.UdpClient.Client.{
  Message, Args, Event, Net, Outcome, pure, lift, emit, onward, ◌>>=◌, ◌>>◌, choose, answer_choice,
  to_int, serve_choice, manual_loop, run_manual, invalid_literal,
}
use server_client_app.UdpClient.Client.Laws.{datagrams, datagrams-append, Works}
use server_client_app.UdpClient.Client.Modes.{
  Sends, Sends-bind, EachEncodes, chosen_bytes, Sends-message,
}

-- The datagrams that the choices ask for: nothing for a number out of range.
abbrev pub chosen : List (List ℕ) → List ℕ → List (List ℕ)
chosen bss [] = []
chosen bss (i ∷ is) = append (chosen_bytes (get_elem? bss i)) (chosen bss is)

exit_is_no_number : (n : ℕ) → parse_int "exit" ≢ some (pos n)
unfolding parse_int
exit_is_no_number n e = cc e

str-ne_exit : (n : ℕ) → (str n == "exit") ≡ false
str-ne_exit n = elim (Bool-cases (str n == "exit")) [
  | inl e ↦
      let same : parse_int "exit" ≡ some (pos n) =
        ap parse_int (sym ((eq_iff (str n) "exit").0 e)) ∙ parse_int-str n in
      absurd (exit_is_no_number n same)
  | inr e ↦ e
]

Sends-to_int : (i : ℕ) → Sends (to_int (str i)) [] (pos i)
unfolding to_int lift datagrams
Sends-to_int i = record { payloads = refl; returns = rw parse_int-str }

raise_onward :
    {A B : Type 0} (es : List Event) (r : Result A) (n : Outcome B) {bss css : List (List ℕ)}
    {a : A} {e : Exn}
    → datagrams es ≡ bss
    → r ≡ ok a
    → datagrams n.events ≡ css
    → n.result ≡ raised e
    → (datagrams (onward es r (λ _. n)).events ≡ append bss css)
      × ((onward es r (λ _. n)).result ≡ raised e)
raise_onward es (raised x) n p q h k = cc q
raise_onward es (ok a) n p q h k = (datagrams-append es n.events ∙ ap₂ append p h, k)

-- A run that sends and returns, and then one that sends and raises.
raise_after :
    {A B : Type 0} (m : Outcome A) (n : Outcome B) {bss css : List (List ℕ)} {a : A} {e : Exn}
    → Sends m bss a
    → datagrams n.events ≡ css
    → n.result ≡ raised e
    → (datagrams (m >> n).events ≡ append bss css) × ((m >> n).result ≡ raised e)
unfolding ◌>>=◌
raise_after m n s h k = raise_onward m.events m.result n s.payloads s.returns h k

-- What every theorem below assumes of the machine and the arguments.
module _ (net : Net) (args : Args) (ms : ℕ) (works : Works net) (waits : args.delay ≡ pos ms) where
  Sends-choice :
      (messages : List Message) (bss : List (List ℕ)) (i : ℕ)
      → EachEncodes messages bss
      → Sends (answer_choice net args (choose messages (pos i))) (chosen_bytes (get_elem? bss i)) tt
  unfolding choose answer_choice emit datagrams
  Sends-choice [] [] i h = record { payloads = refl; returns = refl }
  Sends-choice (m ∷ messages) (bs ∷ bss) zero h = Sends-message net args ms works waits m bs h.0
  Sends-choice (m ∷ messages) (bs ∷ bss) (suc i) h = Sends-choice messages bss i h.1
  Sends-choice [] (bs ∷ bss) i h = absurd h
  Sends-choice (m ∷ messages) [] i h = absurd h

  Sends-serve :
      (bss : List (List ℕ)) (i : ℕ)
      → EachEncodes args.input_file bss
      → Sends (serve_choice net args (str i)) (chosen_bytes (get_elem? bss i)) tt
  unfolding serve_choice
  Sends-serve bss i h =
      Sends-bind (to_int (str i)) (λ choice. answer_choice net args (choose args.input_file choice))
        (Sends-to_int i) (Sends-choice args.input_file bss i h)

  Sends-loop :
      (bss : List (List ℕ)) (is : List ℕ) (rest : List String)
      → EachEncodes args.input_file bss
      → Sends (manual_loop net args (append (map str is) ("exit" ∷ rest))) (chosen bss is) tt
  unfolding manual_loop emit pure datagrams ◌>>=◌
  Sends-loop bss [] rest h = record { payloads = refl; returns = refl }
  Sends-loop bss (i ∷ is) rest h =
      let rest_sends =
        Sends-bind (serve_choice net args (str i))
          (λ _. manual_loop net args (append (map str is) ("exit" ∷ rest))) (Sends-serve bss i h)
          (Sends-loop bss is rest h) in
      rw (str-ne_exit i, if◌then◌else◌)
        (record { payloads = rest_sends.payloads; returns = rest_sends.returns })

  invalid_loop :
      (bss : List (List ℕ)) (is : List ℕ) (line : String) (rest : List String)
      → EachEncodes args.input_file bss
      → (line == "exit") ≡ false
      → parse_int line ≡ none
      → let m = manual_loop net args (append (map str is) (line ∷ rest)) in
        (datagrams m.events ≡ chosen bss is) × (m.result ≡ raised (invalid_literal line))
  unfolding manual_loop emit datagrams ◌>>=◌ serve_choice to_int
  invalid_loop bss [] line rest h ne bad = rw (ne, if◌then◌else◌) (rw bad (refl, refl))
  invalid_loop bss (i ∷ is) line rest h ne bad =
      let (payloads, raises) = invalid_loop bss is line rest h ne bad in
      let step =
        raise_after (serve_choice net args (str i))
          (manual_loop net args (append (map str is) (line ∷ rest))) (Sends-serve bss i h) payloads
          raises in
      rw (str-ne_exit i, if◌then◌else◌) step

  -- The mode manual, given decimal choices and then "exit", with a socket that takes every
  -- datagram, a delay that is not negative and entries that encode bytes, returns at the
  -- "exit", whatever lines follow. It has sent the bytes of each choice that is in range, in
  -- order, and nothing else.
  pub run_manual-Sends :
      (bss : List (List ℕ)) (is : List ℕ) (rest : List String)
      → EachEncodes args.input_file bss
      → Sends (run_manual net args (append (map str is) ("exit" ∷ rest))) (chosen bss is) tt
  unfolding run_manual emit datagrams ◌>>=◌
  run_manual-Sends bss is rest h =
      let loop = Sends-loop bss is rest h in
      record { payloads = loop.payloads; returns = loop.returns }

  -- With a socket that takes every datagram, a delay that is not negative and entries that
  -- encode bytes, a line that is neither "exit" nor an integer ends the mode manual with a
  -- ValueError. What the decimal choices before it chose has been sent, and the lines after it
  -- are not read.
  pub run_manual_invalid :
      (bss : List (List ℕ)) (is : List ℕ) (line : String) (rest : List String)
      → EachEncodes args.input_file bss
      → (line == "exit") ≡ false
      → parse_int line ≡ none
      → let m = run_manual net args (append (map str is) (line ∷ rest)) in
        (datagrams m.events ≡ chosen bss is) × (m.result ≡ raised (invalid_literal line))
  unfolding run_manual emit datagrams ◌>>=◌
  run_manual_invalid bss is line rest h ne bad = invalid_loop bss is line rest h ne bad
