-- ===== src/Server/Abstract/Refines/Run.antt =====
-- Runs of the server and of the abstract server.
use mathlib.Core.Path.{subst}
use mathlib.Core.List.{◌++◌ as append, append_assoc}
use server_client_app.Base.{ℕ, ◌≡◌, refl, sym, ap, ◌∙◌, Option, none, some, List, [], ◌∷◌, ⊤}
use server_client_app.Server.Clients.{Command, State, Handler, pure, onward, ◌>>=◌}
use server_client_app.Server.Valid.Steady.{Sends}
use server_client_app.Server.Abstract.{
  View, view, Op, call, calls, replies, Step, first_time, comes_back, already_connected, served,
  left, forwarded, Steps, rest, step,
}
use server_client_app.Server.Abstract.Refines.{IsGood, Reaches}
use server_client_app.Server.Abstract.Refines.Connections.{
  first-Reaches, back-Reaches, denied-Reaches,
}
use server_client_app.Server.Abstract.Refines.Requests.{
  served-Reaches, left-Reaches, forwarded-Reaches,
}

-- One step of the abstract server, from the state as it is seen.
step-Reaches :
    (s : State) (v u : View) (op : Op) (out : List (ℕ × Command))
    → view s.clients ≡ v
    → IsGood s
    → Sends s
    → Step v op u out
    → Reaches s (call op s) u out
step-Reaches s v u op out same g w k =
    subst (λ (x : View). Step x op u out → Reaches s (call op s) u out) same
      (from_view s u op out g w) k
  where
    from_view :
        (s : State) (u : View) (op : Op) (out : List (ℕ × Command))
        → IsGood s
        → Sends s
        → Step (view s.clients) op u out
        → Reaches s (call op s) u out
    from_view s u op out g w (first_time v id address fd free e) =
        first-Reaches id address fd s g w free e
    from_view s u op out g w (comes_back v id address fd e free there off) =
        back-Reaches id address fd s e g w free there off
    from_view s u op out g w (already_connected v id address fd old e free there on) =
        denied-Reaches id address fd old s e g w free there on
    from_view s u op out g w (served v id fd command topic e there on) =
        served-Reaches fd command topic s id e g w there on
    from_view s u op out g w (left v id fd e there on) = left-Reaches fd s id e g w there on
    from_view s u op out g w (forwarded v topic text) = forwarded-Reaches topic text s g w

follow :
    (s : State) (o : Option ⊤) (t : State) (u w : View) (out outs : List (ℕ × Command))
    (m : Handler ⊤)
    → Reaches s (o, t) u out
    → Reaches t (m t) w outs
    → Reaches s (onward o (λ _. m) t) w (append outs out)
follow s none t u w out outs m h k = absurd h.returns
follow s (some a) t u w out outs m h k = record {
  returns = k.returns;
  sends = k.sends;
  good = k.good;
  looks = k.looks;
  answers =
      k.answers
      ∙ ap (λ (l : List (ℕ × Command)). append outs l) h.answers
      ∙ sym (append_assoc outs out (replies s.trace));
}

from :
    (ops : List Op) (s : State) (v w : View) (outs : List (ℕ × Command))
    → view s.clients ≡ v
    → IsGood s
    → Sends s
    → Steps v ops w outs
    → Reaches s (calls ops s) w outs
unfolding calls pure ◌>>=◌
from [] s v w outs same g ok (rest x) = record {
  returns = tt;
  sends = ok;
  good = g;
  looks = same;
  answers = refl;
}
from (op ∷ ops) s v w outs same g ok (step x u y o rests out last k ks) =
    let h = step-Reaches s v u op out same g ok k in
    follow s (call op s).0 (call op s).1 u w out last (calls ops) h
      (from ops (call op s).1 u w last h.looks h.good h.sends ks)

-- The server implements an abstract server, which knows for each id only the descriptor and the
-- set of topics: when the abstract server can take the steps for a sequence of connections,
-- requests, disconnections and datagrams, from what the map of the clients says, and every send
-- succeeds, the handlers return, their map says what the abstract server ends with, and they
-- have sent its answers in their order. The start has a valid state, and no id and no topic of
-- a client twice; the end has them again.
pub calls-Reaches :
    (ops : List Op) (s : State) (w : View) (outs : List (ℕ × Command))
    → IsGood s
    → Sends s
    → Steps (view s.clients) ops w outs
    → Reaches s (calls ops s) w outs
calls-Reaches ops s w outs g ok k = from ops s (view s.clients) w outs refl g ok k
