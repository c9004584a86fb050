-- ===== src/Server/Abstract/Samples.antt =====
-- A client that connects, subscribes, leaves and comes back.
use text.Mathlib.Text.{◌==◌ as str_eq}
use server_client_app.Base.{
  ℕ, ◌<◌, String, ◌≡◌, ◌≢◌, refl, sym, arith, Bool, true, false, none, some, List, [], ◌∷◌, inl,
  inr, Bool-cases,
}
use mathlib.Core.Option.{none-ne-some}
use server_client_app.Server.Clients.Counts.{count_fd, count_held}
use server_client_app.Server.Clients.{find_client, Command, State}
use server_client_app.Server.Abstract.{
  Entry, View, view, Op, connect, request, close, datagram, calls, update, set_topic, IsFree,
  first_time, comes_back, served, left, forwarded, Steps, rest, step,
}
use server_client_app.Server.Abstract.Clients.{HasUniqueIds}
use server_client_app.Server.Abstract.Refines.{IsGood, Reaches}
use server_client_app.Server.Abstract.Refines.Run.{calls-Reaches}

abbrev start : State
start = record { clients = []; poll_fds = []; trace = []; sends = λ es. true }

abbrev nobody : View
nobody = view []

start-IsGood : IsGood start
unfolding HasUniqueIds count_fd count_held
start-IsGood = record {
  valid = record { polled = λ n. refl; once = λ n. omega arith; marks = tt };
  ids = tt;
  topics = tt;
}

other_number : (a b : ℕ) → a < b → some a ≢ some b
other_number a b lt p = let q : a ≡ b = cc p in omega (arith, q)

IsFree-update :
    (fd : ℕ) (id : String) (e : Entry) (v : View)
    → e.fd ≢ some fd
    → IsFree fd v
    → IsFree fd (update id e v)
unfolding IsFree update
IsFree-update fd id e v ne free other d p = elim (Bool-cases (str_eq id other)) [
  | inl h ↦ let q : e ≡ d = cc (rw h at p) in rw (sym q) ne
  | inr h ↦ free other d (rw h at p)
]

IsFree-nobody : (fd : ℕ) → IsFree fd nobody
unfolding IsFree view find_client
IsFree-nobody fd id e p = absurd (none-ne-some e p)

abbrev on : ℕ → Entry
on fd = record { fd = some fd; topics = λ t. false }

abbrev topics : String → Bool
topics = set_topic "upb" true λ t. false

abbrev ops : List Op
ops =
    connect "C1" "10.0.0.1:4000" 5
    ∷ request 5 Command.subscribe_req "upb"
    ∷ datagram "upb" "news"
    ∷ close 5
    ∷ connect "C1" "10.0.0.1:4001" 6
    ∷ []

abbrev v1 : View
v1 = update "C1" (on 5) nobody

abbrev v2 : View
v2 = update "C1" (record { fd = some 5; topics = topics }) v1

abbrev v3 : View
v3 = update "C1" (record { fd = none; topics = topics }) v2

abbrev v4 : View
v4 = update "C1" (record { fd = some 6; topics = topics }) v3

abbrev outs : List (ℕ × Command)
outs =
    (6, Command.connect_accepted) ∷ (5, Command.subscribe_succ) ∷ (5, Command.connect_accepted) ∷ []

free6 : IsFree 6 v3
free6 = IsFree-update 6 "C1" _ _ (none-ne-some 6) (
    IsFree-update 6 "C1" _ _ (other_number 5 6 (omega arith))
      (IsFree-update 6 "C1" _ _ (other_number 5 6 (omega arith)) (IsFree-nobody 6)))

steps : Steps nobody ops v4 outs
unfolding update view find_client
steps = step _ v1 _ _ _ _ _ (first_time nobody "C1" _ 5 (IsFree-nobody 5) refl) (
    step _ v2 _ _ _ _ _ (served v1 "C1" 5 Command.subscribe_req "upb" (on 5) refl refl) (
      step _ v2 _ _ _ _ _ (forwarded v2 "upb" "news") (
        step _ v3 _ _ _ _ _ (left v2 "C1" 5 (record { fd = some 5; topics = topics }) refl refl) (
          step _ v4 _ _ _ _ _
            (comes_back v3 "C1" _ 6 (record { fd = none; topics = topics }) free6 refl refl)
            (rest v4)))))

calls-Reaches_example : Reaches start (calls ops start) v4 outs
calls-Reaches_example = calls-Reaches ops start v4 outs start-IsGood (λ es. refl) steps
