-- ===== src/Background/RequestLoad.antt =====
-- src/harmonist/request_load.py: the requests in flight and the event that says that there are none.
use harmonist.Prelude.{
  ℕ, ◌+◌, ◌-◌, ◌<◌, ◌≡◌, refl, Bool, true, false, ◌==◌, nat_eq, if◌then◌else◌, arith,
}

-- `_in_flight` and `_idle`.
pub record Load : Type 0 where
  pub in_flight : ℕ
  pub idle : Bool

abbrev pub at_rest : Load
at_rest = record { in_flight = 0; idle = true }

-- `serving`: the entry, and the exit of a request that has entered.
unfoldable pub enter : Load → Load
enter l = record { in_flight = l.in_flight + 1; idle = false }

unfoldable pub leave : Load → Load
leave l = record {
  in_flight = l.in_flight - 1;
  idle = if l.in_flight - 1 == 0 then true else l.idle;
}

-- The requests enter and leave in any order; one leaves that is in flight.
pub data Served : Load → Type 0 where
  rest : Served at_rest
  enters : (l : Load) → Served l → Served (enter l)
  leaves : (l : Load) → Served l → 0 < l.in_flight → Served (leave l)

-- At every moment `wait_for_idle` sees the event set exactly when no request is in flight.
Served-idle : (l : Load) → Served l → l.idle ≡ (l.in_flight == 0)
unfolding enter leave
Served-idle l rest = refl
Served-idle l (enters k s) = ground arith
Served-idle l (leaves k s pos) = ground (arith, Served-idle k s)
