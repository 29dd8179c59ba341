-- ===== src/Edge/Connector/Ends.antt =====
-- How the loop of `EdgeConnector::run` ends.
use libcfd.Prelude.{
  [], Bool, true, false, List, ◌∷◌, ◌++◌, Option, none, some, Result, ok, err, if◌then◌else◌,
}
use libcfd.Edge.Error.{Error, is_permanent}
use libcfd.Edge.Connector.{
  EdgeOutcome, shut_down, served, Discovery, failed, found, Round, Connector, EdgesOutcome,
  returned, exhausted, RoundEnd, finished, again,
}

-- What happens in a run: the shutdown, an attempt that ends, or a sleep to its end.
pub data Happening : Type 0 where
  stopped slept : Happening
  attempted : Result Error (Unit {0}) → Happening

-- What happens at the edges of a round in turn, and then in its sleep.
pub of_edges : List EdgeOutcome → List Happening
of_edges [] = []
of_edges (shut_down ∷ edges) = stopped ∷ of_edges edges
of_edges (served x now ∷ edges) = attempted x.result ∷ of_edges edges

abbrev pub of_discovery : Discovery → List Happening
of_discovery (failed e) = []
of_discovery (found edges) = of_edges edges

abbrev pub of_sleep : Bool → Happening
of_sleep true = stopped
of_sleep false = slept

pub happenings : List Round → List Happening
happenings [] = []
happenings (round ∷ rounds) =
    of_discovery round.discovery ++ of_sleep round.shutdown_in_sleep ∷ happenings rounds

-- The result with which a run ends there: a shutdown and an attempt that succeeds end it in success, a
-- permanent error ends it in that error, and nothing else ends it.
abbrev pub ends_in : Happening → Option (Result Error (Unit {0}))
ends_in stopped = some (ok tt)
ends_in slept = none
ends_in (attempted (ok _)) = some (ok tt)
ends_in (attempted (err e)) = if is_permanent e then some (err e) else none

abbrev pub or_later :
    Option (Result Error (Unit {0}))
    → Option (Result Error (Unit {0}))
    → Option (Result Error (Unit {0}))
or_later (some r) later = some r
or_later none later = later

pub first_end : List Happening → Option (Result Error (Unit {0}))
first_end [] = none
first_end (h ∷ later) = or_later (ends_in h) (first_end later)

-- Whether the loop over the edges returns, and with what.
edges_end : EdgesOutcome → Option (Result Error (Unit {0}))
edges_end (returned r) = some r
edges_end (exhausted a b) = none

round_end : RoundEnd → Option (Result Error (Unit {0}))
round_end (finished r) = some r
round_end (again c) = none
