-- ===== src/Orders/Reach.antt =====
-- Any sequence of calls of the order service.
use mathlib.Core.Path.{subst}
use coffee_buddy.Prelude.{◌≡◌, refl, sym, ◌∙◌}
use coffee_buddy.Text.{Text}
use coffee_buddy.Schema.{Session, NoCollisions}
use coffee_buddy.Schema.Valid.{IsValid}
use coffee_buddy.Orders.Models.{OrderSubmissionRequest, OrderValidator}
use coffee_buddy.Orders.Service.{submit_order, use_last_order, cancel_order}
use coffee_buddy.Orders.Submit.{submit_order-IsValid, outside-submit_order}
use coffee_buddy.Orders.Cancel.{cancel_order-IsValid, outside-cancel_order}
use coffee_buddy.Orders.Reuse.{use_last_order-IsValid, outside-use_last_order}

-- One call, whether it returns or raises.
pub data Step (v : OrderValidator) : Session → Session → Type 0 where
  submit : (req : OrderSubmissionRequest) (s : Session) → Step v s (submit_order v req s).1
  reuse : (run_id user_id : Text) (s : Session) → Step v s (use_last_order v run_id user_id s).1
  cancel : (run_id user_id : Text) (s : Session) → Step v s (cancel_order run_id user_id s).1

pub data Reach (v : OrderValidator) (s : Session) : Session → Type 0 where
  here : Reach v s s
  next : {t u : Session} → Reach v s t → Step v t u → Reach v s u

module _ {v : OrderValidator} where
  Step-IsValid :
      {s t : Session}
      → Step v s t
      → NoCollisions s.outside
      → IsValid s
      → IsValid t × (t.outside ≡ s.outside)
  Step-IsValid (submit req s) differ valid =
      (submit_order-IsValid v req s valid differ, outside-submit_order v req s valid differ)
  Step-IsValid (reuse run_id user_id s) differ valid = (
    use_last_order-IsValid v run_id user_id s valid differ,
    outside-use_last_order v run_id user_id s valid differ,
  )
  Step-IsValid (cancel run_id user_id s) differ valid =
      (cancel_order-IsValid run_id user_id s valid, outside-cancel_order run_id user_id s)

  Reach-keeps :
      {s t : Session}
      → NoCollisions s.outside
      → IsValid s
      → Reach v s t
      → IsValid t × (t.outside ≡ s.outside)
  Reach-keeps differ valid here = (valid, refl)
  Reach-keeps differ valid (next r st) =
      let (valid', same) = Reach-keeps differ valid r in
      let (valid'', same') = Step-IsValid st (subst NoCollisions (sym same) differ) valid' in
      (valid'', same' ∙ same)

-- From a session that keeps the constraints of its tables, with a `uuid4()` that does not repeat
-- itself: whatever is called, in whatever order and with whatever outcome, no run ever has two orders of
-- one user, no channel two saved orders of one user, and no table two rows with one primary key.
pub Reach-IsValid :
    (v : OrderValidator) (s t : Session)
    → NoCollisions s.outside
    → IsValid s
    → Reach v s t
    → IsValid t
Reach-IsValid v s t differ valid r = (Reach-keeps differ valid r).0
