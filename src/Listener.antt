-- ===== src/Listener.antt =====
-- class Listener of rmw_dps_cpp/include/rmw_dps_cpp/Listener.hpp: the queue between the callbacks of
-- DPS and the takes. `D` is Listener::Data, the copied publication with its payload. The mutexes make
-- each method one step; a wait set's mutex and condition variable are named by one number, and a
-- method that notifies returns it.
pub mod Fifo
mod Tests
use rmw_dps.Prelude.{ℕ, Bool, true, false, List, [], ◌∷◌, ◌++◌, Option, none, some}

pub record Listener (D : Type 0) : Type 0 where
  pub data_ : List D
  pub condition : Option ℕ

module _ {D : Type 0} where
  -- Listener()
  abbrev pub new_listener : Listener D
  new_listener = record { data_ = []; condition = none }

  -- onPublication and onAcknowledgement: the data is pushed in both cases; the attached condition
  -- variable is notified.
  unfoldable pub on_publication : D → Listener D → Listener D × Option ℕ
  on_publication d l = elim l.condition [
    | some c ↦ (record l { data_ = l.data_ ++ d ∷ [] }, some c)
    | none ↦ (record l { data_ = l.data_ ++ d ∷ [] }, none)
  ]

  -- attachCondition()
  unfoldable pub attach_condition : ℕ → Listener D → Listener D
  attach_condition c l = record l { condition = some c }

  -- detachCondition()
  unfoldable pub detach_condition : Listener D → Listener D
  detach_condition l = record l { condition = none }

  abbrev is_nonempty : List D → Bool
  is_nonempty [] = false
  is_nonempty (d ∷ ds) = true

  -- hasData()
  unfoldable pub has_data : Listener D → Bool
  has_data l = is_nonempty l.data_

  -- takeNextData(): the oldest data, if there is any.
  unfoldable pub take_next_data : Listener D → Option D × Listener D
  take_next_data l = elim l.data_ [
    | [] ↦ (none, l)
    | d ∷ rest ↦ (some d, record l { data_ = rest })
  ]
