-- ===== src/Server/Clients/Counts.antt =====
-- How often a descriptor is polled, and how often it is a client's.
use text.Mathlib.Text.{◌==◌ as str_eq}
use server_client_app.Base.{
  ℕ, ◌+◌, ◌≤◌, String, ◌≡◌, refl, sym, Bool, true, false, some, List, [], ◌∷◌, ◌==◌, arith, inl,
  inr, Bool-cases, All,
}
use server_client_app.Base.Int.{ℤ, pos, negsuc}
use server_client_app.Server.Clients.{
  Client, is_fd, find_client, modify_client, get_client_from_fd, modify_fd, push_fd, erase_fd,
  insert_client,
}

abbrev pub bit : Bool → ℕ
bit true = 1
bit false = 0

skip_zero : {n : ℕ} → 1 ≤ 0 + n → 1 ≤ n
skip_zero h = omega arith

unfoldable pub count_fd : ℕ → List ℕ → ℕ
count_fd n [] = 0
count_fd n (m ∷ fds) = bit (m == n) + count_fd n fds

-- The number of clients whose curr_fd this is.
unfoldable pub count_held : ℕ → List (String × Client) → ℕ
unfolding is_fd
count_held n [] = 0
count_held n ((id, c) ∷ rest) = bit (is_fd c.curr_fd n) + count_held n rest

pub count-push :
    (n fd : ℕ) (fds : List ℕ) → count_fd n (push_fd fd fds) ≡ bit (fd == n) + count_fd n fds
unfolding count_fd push_fd
count-push n fd [] = refl
count-push n fd (m ∷ fds) = omega (arith, count-push n fd fds)

pub count-erase :
    (n fd : ℕ) (fds : List ℕ)
    → 1 ≤ count_fd fd fds
    → bit (fd == n) + count_fd n (erase_fd fd fds) ≡ count_fd n fds
unfolding count_fd erase_fd
count-erase n fd [] h = absurd (omega arith)
count-erase n fd (m ∷ fds) h = ground (arith, count-erase n fd fds)

pub held-insert :
    (n fd : ℕ) (id : String) (c : Client) (clients : List (String × Client))
    → c.curr_fd ≡ pos fd
    → count_held n (insert_client id c clients) ≡ bit (fd == n) + count_held n clients
unfolding count_held insert_client is_fd
held-insert n fd id c [] e = rw e refl
held-insert n fd id c ((j, d) ∷ rest) e = omega (arith, held-insert n fd id c rest e)

-- A client with no descriptor gets one.
pub held-modify :
    (n fd : ℕ) (id : String) (c : Client) (f : Client → Client) (clients : List (String × Client))
    → find_client id clients ≡ some c
    → is_fd c.curr_fd n ≡ false
    → ((d : Client) → (f d).curr_fd ≡ pos fd)
    → count_held n (modify_client id f clients) ≡ bit (fd == n) + count_held n clients
unfolding count_held modify_client find_client is_fd
held-modify n fd id c f [] e z g = cc e
held-modify n fd id c f ((j, d) ∷ rest) e z g = elim (Bool-cases (str_eq j id)) [
  | inl here ↦
      let same : d ≡ c = cc (rw here at e) in rw here (rw (g d) (rw same (rw z (omega arith))))
  | inr later ↦ rw later (omega (arith, held-modify n fd id c f rest (rw later at e) z g))
]

same_fd : (z : ℤ) (fd n : ℕ) → is_fd z fd ≡ true → (fd == n) ≡ is_fd z n
unfolding is_fd
same_fd (pos m) fd n h = ground arith
same_fd (negsuc m) fd n h = cc h

-- The client of a descriptor loses it.
pub held-remove :
    (n fd : ℕ) (f : Client → Client) (clients : List (String × Client))
    → 1 ≤ count_held fd clients
    → ((d : Client) → is_fd (f d).curr_fd n ≡ false)
    → bit (fd == n) + count_held n (modify_fd fd f clients) ≡ count_held n clients
unfolding count_held modify_fd
held-remove n fd f [] h g = absurd (omega arith)
held-remove n fd f ((j, d) ∷ rest) h g = elim (Bool-cases (is_fd d.curr_fd fd)) [
  | inl here ↦ rw here (rw (g d) (rw (same_fd d.curr_fd fd n here) (omega arith)))
  | inr later ↦
      let left : 1 ≤ count_held fd rest = skip_zero (rw later at h) in
      rw later (omega (arith, held-remove n fd f rest left g))
]

-- Writes that leave the descriptors.
pub held-keep :
    (n fd : ℕ) (f : Client → Client) (clients : List (String × Client))
    → ((d : Client) → (f d).curr_fd ≡ d.curr_fd)
    → count_held n (modify_fd fd f clients) ≡ count_held n clients
unfolding count_held modify_fd
held-keep n fd f [] g = refl
held-keep n fd f ((j, d) ∷ rest) g = elim (Bool-cases (is_fd d.curr_fd fd)) [
  | inl here ↦ rw here (rw (g d) refl)
  | inr later ↦ rw later (omega (arith, held-keep n fd f rest g))
]

-- A descriptor that a client holds is found.
pub get_client-held :
    (fd : ℕ) (clients : List (String × Client))
    → 1 ≤ count_held fd clients
    → (id : String) × (c : Client) × (get_client_from_fd fd clients ≡ (id, some c))
      × (is_fd c.curr_fd fd ≡ true)
unfolding count_held get_client_from_fd
get_client-held fd [] h = absurd (omega arith)
get_client-held fd ((j, d) ∷ rest) h = elim (Bool-cases (is_fd d.curr_fd fd)) [
  | inl here ↦ (j, d, rw here refl, here)
  | inr later ↦
      let left : 1 ≤ count_held fd rest = skip_zero (rw later at h) in
      let (id, c, found, holds) = get_client-held fd rest left in (id, c, rw later found, holds)
]

module _ (P : Client → Type 0) where
  abbrev pub Every : List (String × Client) → Type 0
  Every = All (λ (id, c). P c)

  pub Every-modify_fd :
      (fd : ℕ) (f : Client → Client) (clients : List (String × Client))
      → ((d : Client) → P d → P (f d))
      → Every clients
      → Every (modify_fd fd f clients)
  unfolding modify_fd
  Every-modify_fd fd f [] g a = tt
  Every-modify_fd fd f ((j, d) ∷ rest) g a = elim (Bool-cases (is_fd d.curr_fd fd)) [
    | inl here ↦ rw here (g d a.0, a.1)
    | inr later ↦ rw later (a.0, Every-modify_fd fd f rest g a.1)
  ]

  pub Every-modify_client :
      (id : String) (f : Client → Client) (clients : List (String × Client))
      → ((d : Client) → P d → P (f d))
      → Every clients
      → Every (modify_client id f clients)
  unfolding modify_client
  Every-modify_client id f [] g a = tt
  Every-modify_client id f ((j, d) ∷ rest) g a = elim (Bool-cases (str_eq j id)) [
    | inl here ↦ rw here (g d a.0, a.1)
    | inr later ↦ rw later (a.0, Every-modify_client id f rest g a.1)
  ]

  pub Every-insert :
      (id : String) (c : Client) (clients : List (String × Client))
      → P c
      → Every clients
      → Every (insert_client id c clients)
  unfolding insert_client
  Every-insert id c [] p a = (p, tt)
  Every-insert id c (e ∷ rest) p a = (a.0, Every-insert id c rest p a.1)

  pub Every-find :
      (id : String) (c : Client) (clients : List (String × Client))
      → find_client id clients ≡ some c
      → Every clients
      → P c
  unfolding find_client
  Every-find id c [] e a = cc e
  Every-find id c ((j, d) ∷ rest) e a = elim (Bool-cases (str_eq j id)) [
    | inl here ↦ let same : d ≡ c = cc (rw here at e) in rw (sym same) a.0
    | inr later ↦ Every-find id c rest (rw later at e) a.1
  ]
