-- ===== src/Listener/Fifo.antt =====
-- Sequences of calls of one Listener of rmw_dps_cpp/include/rmw_dps_cpp/Listener.hpp.
use mathlib.Core.List.{append_assoc, append-nil}
use rmw_dps.Prelude.{ℕ, ◌≡◌, sym, List, [], ◌∷◌, ◌++◌, Option, none, some, arith}
use rmw_dps.Listener.{Listener, on_publication, attach_condition, detach_condition, take_next_data}

-- A method of the listener that some thread calls.
pub data Call (D : Type 0) : Type 0 where
  publication : D → Call D
  attach : ℕ → Call D
  detach : Call D
  take : Call D

module _ {D : Type 0} where
  -- One call: what it takes from the queue, and the listener after it.
  unfoldable pub call : Call D → Listener D → Option D × Listener D
  call (publication d) l = (none, (on_publication d l).0)
  call (attach c) l = (none, attach_condition c l)
  call detach l = (none, detach_condition l)
  call take l = take_next_data l

  abbrev pub after : List (Call D) → Listener D → Listener D
  after [] l = l
  after (c ∷ cs) l = after cs (call c l).1

  abbrev cons_some : Option D → List D → List D
  cons_some none ds = ds
  cons_some (some d) ds = d ∷ ds

  -- What a run of calls takes, in order.
  abbrev pub taken : List (Call D) → Listener D → List D
  taken [] l = []
  taken (c ∷ cs) l = cons_some (call c l).0 (taken cs (call c l).1)

  -- What a run of calls delivers, in order.
  abbrev pub delivered : List (Call D) → List D
  delivered [] = []
  delivered (publication d ∷ cs) = d ∷ delivered cs
  delivered (attach c ∷ cs) = delivered cs
  delivered (detach ∷ cs) = delivered cs
  delivered (take ∷ cs) = delivered cs

  call-queue :
      (c : Call D) (cs : List (Call D)) (l : Listener D) (out final : List D)
      → out ++ final ≡ (call c l).1.data_ ++ delivered cs
      → cons_some (call c l).0 out ++ final ≡ l.data_ ++ delivered (c ∷ cs)
  unfolding call on_publication attach_condition detach_condition take_next_data
  call-queue (publication d) cs l out final h =
      ground (arith, h, append_assoc l.data_ (d ∷ []) (delivered cs))
  call-queue (attach c) cs l out final h = h
  call-queue detach cs l out final h = h
  call-queue take cs l out final h = ground (arith, h)

  -- What the calls take, followed by what is left, is what was there, followed by what they deliver.
  pub taken-delivered :
      (cs : List (Call D)) (l : Listener D)
      → taken cs l ++ (after cs l).data_ ≡ l.data_ ++ delivered cs
  taken-delivered [] l = sym (append-nil l.data_)
  taken-delivered (c ∷ cs) l = call-queue c cs l _ _ (taken-delivered cs (call c l).1)
