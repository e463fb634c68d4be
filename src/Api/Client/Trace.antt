-- ===== src/Api/Client/Trace.antt =====
-- Which requests an action sends: a property of all writes, kept call by call.
use typesense_operator.Base.{Text, All}
use typesense_operator.Base.Exec.{Exec}
use typesense_operator.Base.Exec.Rules.{Keeps, keeps_rules, Keeps-bind, Keeps-pure}
use typesense_operator.Api.Client.{Client, World, Write, event, read, request, record_event}

-- Every request so far satisfies `P`.
pub record Sent (C : Client) (P : Write → Type 0) (w : World C) : Type 0 where
  pub all : All P w.writes

module _ (C : Client) (P : Write → Type 0) where
  pub read-Sent : {A : Type 0} (f : Exec C.State A) → Keeps (Sent C P) (read C f)
  unfolding read
  read-Sent f = record { at = λ w h. record { all = h.all } }

  pub request-Sent : (r : Write) → P r → Keeps (Sent C P) (request C r)
  unfolding request
  request-Sent r p = record { at = λ w h. record { all = (p, h.all) } }

  pub record_event-Sent :
      (kind reason msg : Text)
      → ((k r m : Text) → P (event k r m))
      → Keeps (Sent C P) (record_event C kind reason msg)
  unfolding record_event
  record_event-Sent kind reason msg p =
      Keeps-bind _ _ (request-Sent _ (p _ _ _)) (λ _. Keeps-pure tt)

pub ruleset sent_rules = (keeps_rules, read-Sent, request-Sent, record_event-Sent)
