-- ===== src/Persistent/Will.antt =====
-- WillMessageManager of pkg/persistent/will.go. A timer id is the client id and the time of the
-- schedule; `published` is what the publisher was handed, in order. The publisher of the broker is in
-- Broker/Route, and Broker/WillLock runs it under the lock of a session, where it does not return.
use emqx_go.Base.{
  ℕ, ◌+◌, Bool, true, false, ◌&&◌, ◌≡◌, ◌↔◌, List, [], ◌∷◌, ◌++◌, none, some, arith, if◌then◌else◌,
  ltb, ◌==◌, Text, text_eq, text_eq_iff,
}
use emqx_go.Base.Map.{HasEq, Map, lookup, insert, delete}
use emqx_go.Persistent.Types.{WillMessage}

abbrev pub TimerId : Type 0
TimerId = Text × ℕ

abbrev pub timer_eq : TimerId → TimerId → Bool
timer_eq a b = text_eq a.0 b.0 && (a.1 == b.1)

pub timer_eq_iff : (a b : TimerId) → (timer_eq a b ≡ true) ↔ (a ≡ b)
timer_eq_iff (s, m) (t, n) = ground (arith, text_eq_iff s t)

instance abbrev pub timer_has_eq : HasEq TimerId
timer_has_eq = record { beq = timer_eq; beq_iff = timer_eq_iff }

pub record WillTimer : Type 0 where
  pub will_msg : WillMessage
  pub client_id : Text
  pub due : ℕ

pub record WillMessageManager : Type 0 where
  pub timers : Map TimerId WillTimer
  pub published : List (Text × WillMessage)

-- The publisher is an interface, here what it is handed; whether its method returns is not said here.
unfoldable pub publish_immediately : WillMessage → Text → WillMessageManager → WillMessageManager
publish_immediately will client w = record w { published = w.published ++ (client, will) ∷ [] }

unfoldable pub schedule_delayed : ℕ → WillMessage → Text → WillMessageManager → WillMessageManager
schedule_delayed now will client w = record w {
  timers =
      insert (client, now)
        (record { will_msg = will; client_id = client; due = now + will.delay_interval }) w.timers;
}

unfoldable pub publish_will : ℕ → WillMessage → Text → WillMessageManager → WillMessageManager
unfolding publish_immediately schedule_delayed
publish_will now will client w =
    if ltb 0 will.delay_interval
    then schedule_delayed now will client w
    else publish_immediately will client w

-- The function that the timer runs when it fires. A timer that was stopped does not fire.
unfoldable pub fire : TimerId → WillMessageManager → WillMessageManager
unfolding publish_immediately
fire id w = elim (lookup id w.timers) [
  | none ↦ w
  | some t ↦ publish_immediately t.will_msg t.client_id (record w { timers = delete id w.timers })
]

-- The range of CancelWillMessage.
unfoldable pub cancel_timers : Text → Map TimerId WillTimer → Map TimerId WillTimer
cancel_timers client [] = []
cancel_timers client ((id, t) ∷ m) =
    let rest = cancel_timers client m in if text_eq t.client_id client then rest else (id, t) ∷ rest

unfoldable pub cancel_will : Text → WillMessageManager → WillMessageManager
unfolding cancel_timers
cancel_will client w = record w { timers = cancel_timers client w.timers }

unfoldable pub close_wills : WillMessageManager → WillMessageManager
close_wills w = record w { timers = [] }

-- Whether a will of the client is scheduled.
unfoldable pub scheduled : Text → Map TimerId WillTimer → Bool
scheduled client [] = false
scheduled client ((id, t) ∷ m) = if text_eq t.client_id client then true else scheduled client m
