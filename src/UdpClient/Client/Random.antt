-- ===== src/UdpClient/Client/Random.antt =====
-- The mode random.
use mathlib.Core.List.{◌++◌ as append}
use server_client_app.Base.{
  ℕ, zero, suc, ◌+◌, ◌%◌, ◌<◌, ◌≡◌, refl, sym, ap, ◌∙◌, List, [], ◌∷◌, length, get_elem?, none,
  some, arith, true, false, Exn, or_raise, if◌then◌else◌,
}
use server_client_app.Base.Int.{pos}
use server_client_app.UdpClient.Client.{
  Message, Args, Net, pure, lift, ◌>>=◌, send_message, random_choice, random_round, random_loop,
  goes_on, run_random,
}
use server_client_app.UdpClient.Client.Laws.{datagrams, Works}
use server_client_app.UdpClient.Client.Modes.{
  Sends, Sends-bind, EachEncodes, chosen_bytes, Sends-message,
}

length-EachEncodes :
    (messages : List Message) (bss : List (List ℕ))
    → EachEncodes messages bss
    → length messages ≡ length bss
length-EachEncodes [] [] h = refl
length-EachEncodes (m ∷ messages) (bs ∷ bss) h = ap suc (length-EachEncodes messages bss h.1)
length-EachEncodes [] (bs ∷ bss) h = absurd h
length-EachEncodes (m ∷ messages) [] h = absurd h

stops : (count : ℕ) → goes_on (some (pos (count + 0))) count ≡ false
stops count = ground arith

continues : (count left : ℕ) → goes_on (some (pos (count + suc left))) count ≡ true
continues count left = ground arith

shift : (count left : ℕ) → count + suc left ≡ count + 1 + left
shift count left = omega arith

zero_add : (n : ℕ) → 0 + n ≡ n
zero_add n = omega arith

-- The picks of random.choice, for so many rounds.
abbrev pub picked : List (List ℕ) → (ℕ → ℕ) → ℕ → ℕ → List (List ℕ)
picked bss picks count zero = []
picked bss picks count (suc n) =
    append (chosen_bytes (get_elem? bss (picks count % length bss)))
      (picked bss picks (count + 1) n)

-- What every theorem below assumes of the machine and the arguments.
module _ (net : Net) (args : Args) (ms : ℕ) (works : Works net) (waits : args.delay ≡ pos ms) where
  Sends-index :
      (messages : List Message) (bss : List (List ℕ)) (i : ℕ)
      → EachEncodes messages bss
      → i < length messages
      → Sends
          (lift (or_raise (get_elem? messages i) Exn.index_error) >>= send_message net args)
          (chosen_bytes (get_elem? bss i))
          tt
  unfolding lift datagrams ◌>>=◌
  Sends-index [] [] i h lt = absurd (omega arith)
  Sends-index (m ∷ messages) (bs ∷ bss) zero h lt =
      let k = Sends-message net args ms works waits m bs h.0 in
      record { payloads = k.payloads; returns = k.returns }
  Sends-index (m ∷ messages) (bs ∷ bss) (suc i) h lt = Sends-index messages bss i h.1 (omega arith)
  Sends-index [] (bs ∷ bss) i h lt = absurd h
  Sends-index (m ∷ messages) [] i h lt = absurd h

  Sends-round :
      (messages : List Message) (bss : List (List ℕ)) (pick : ℕ)
      → EachEncodes messages bss
      → 0 < length messages
      → Sends
          (lift (random_choice messages pick) >>= send_message net args)
          (chosen_bytes (get_elem? bss (pick % length bss)))
          tt
  unfolding random_choice
  Sends-round [] bss pick h lt = absurd (omega arith)
  Sends-round (m ∷ messages) bss pick h lt =
      rw (sym (length-EachEncodes (m ∷ messages) bss h))
        (Sends-index (m ∷ messages) bss (pick % length (m ∷ messages)) h (omega arith))

  Sends-random :
      (bss : List (List ℕ)) (picks : ℕ → ℕ) (left count : ℕ)
      → EachEncodes args.input_file bss
      → 0 < length args.input_file
      → args.count ≡ some (pos (count + left))
      → Sends (random_loop net args picks (suc left) count) (picked bss picks count left) (some tt)
  unfolding random_loop random_round pure datagrams
  Sends-random bss picks zero count h lt e =
      let over : goes_on args.count count ≡ false = rw e (stops count) in
      rw (over, if◌then◌else◌) (record { payloads = refl; returns = refl })
  Sends-random bss picks (suc left) count h lt e =
      let more : goes_on args.count count ≡ true = rw e (continues count left) in
      let next : args.count ≡ some (pos (count + 1 + left)) =
        e ∙ ap (λ (k : ℕ). some (pos k)) (shift count left) in
      rw (more, if◌then◌else◌)
        (Sends-bind (random_round net args (picks count))
          (λ _. random_loop net args picks (suc left) (count + 1))
          (Sends-round args.input_file bss (picks count) h lt)
          (Sends-random bss picks left (count + 1) h lt next))

  -- The mode random with a count of n ends, with a socket that takes every datagram, a delay
  -- that is not negative and a file of entries that encode bytes and is not empty. It has sent
  -- n datagrams: those of the entries that the picks name.
  pub run_random-Sends :
      (bss : List (List ℕ)) (picks : ℕ → ℕ) (n : ℕ)
      → EachEncodes args.input_file bss
      → 0 < length args.input_file
      → args.count ≡ some (pos n)
      → Sends (run_random net args picks (suc n)) (picked bss picks 0 n) (some tt)
  unfolding run_random
  run_random-Sends bss picks n h lt e =
      Sends-random bss picks n 0 h lt (e ∙ ap (λ (k : ℕ). some (pos k)) (sym (zero_add n)))

  Sends-endless :
      (bss : List (List ℕ)) (picks : ℕ → ℕ) (rounds count : ℕ)
      → EachEncodes args.input_file bss
      → 0 < length args.input_file
      → args.count ≡ none
      → Sends (random_loop net args picks rounds count) (picked bss picks count rounds) none
  unfolding random_loop random_round pure datagrams
  Sends-endless bss picks zero count h lt e = record { payloads = refl; returns = refl }
  Sends-endless bss picks (suc rounds) count h lt e =
      let more : goes_on args.count count ≡ true = rw e refl in
      rw (more, if◌then◌else◌)
        (Sends-bind (random_round net args (picks count))
          (λ _. random_loop net args picks rounds (count + 1))
          (Sends-round args.input_file bss (picks count) h lt)
          (Sends-endless bss picks rounds (count + 1) h lt e))

  -- The mode random with no count never ends, with a socket that takes every datagram, a delay
  -- that is not negative and a file of entries that encode bytes and is not empty: after any
  -- number n of rounds it has sent n datagrams, those of the entries that the picks name, and
  -- it still goes on.
  pub random_endless :
      (bss : List (List ℕ)) (picks : ℕ → ℕ) (n : ℕ)
      → EachEncodes args.input_file bss
      → 0 < length args.input_file
      → args.count ≡ none
      → Sends (run_random net args picks n) (picked bss picks 0 n) none
  unfolding run_random
  random_endless bss picks n h lt e = Sends-endless bss picks n 0 h lt e
